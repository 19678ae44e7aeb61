-- ===== src/RoutingDeamon.antt =====
-- src/routing_deamon.cpp: the globals as one state, the handlers of the main thread, and what the
-- two worker threads do under each mutex: they take an entry under the queue's and use the table
-- under the table's, so these are the steps that interleave. A read that would block is thrown and
-- leaves no step. What is written to a socket is recorded; an error of the kernel ends
-- the process.
pub mod Threads
pub mod Backed
pub mod Protocol
pub mod Stream
pub mod Consistent
pub mod Reachable
use miptp_cpp.Prelude.{
  ℕ, zero, suc, ◌+◌, ◌/◌, ◌%◌, ◌^◌, Bool, true, false, Option, none, some, List, [], ◌∷◌, ◌++◌,
  length, ◌==◌, if◌then◌else◌,
}
use miptp_cpp.Outcome.{error, Outcome, ok, throw, M, continue, ◌>>=◌, ◌>>◌, modify, raise}
use miptp_cpp.Bytes.{resize, write_at}
use miptp_cpp.CrossIpc.{AnonymousSocket, read, le_value, size_bytes}
use miptp_cpp.DistanceVectorTable.{
  Column, Table, add_local_mip, add_arp_discovery, set_via_infinity, pack_advertisment,
  unpack_advertisment, update, find_to,
}

-- `enum update_sock_option`, here and in src/MIP_deamon.cpp.
abbrev pub local_mip : ℕ
local_mip = 1

abbrev pub arp_discovery : ℕ
arp_discovery = 2

abbrev pub arp_lostconnection : ℕ
arp_lostconnection = 3

abbrev pub advertisement : ℕ
advertisement = 4

pub record RoutingDeamon : Type 0 where
  pub update_sock : AnonymousSocket
  pub lookup_sock : AnonymousSocket
  pub update_written : List ℕ
  pub lookup_written : List ℕ
  pub neighbour_mip_vec : List ℕ
  pub distance_vector_table : Table
  -- the two static buffers of `receiveUpdateSock`
  pub recv_buf : List ℕ
  pub advert_table : Table
  -- with `true` the address is left out, else all are sent to
  pub update_queue : List (Bool × ℕ)
  pub lookup_queue : List ℕ
  -- what the worker threads have taken: the neighbours that an advertisement is still to be sent to,
  -- and the address that is looked up
  pub advertising : List ℕ
  pub answering : Option ℕ
  pub running : Bool

-- One advertisement on `update_sock`: destination, size, contents.
unfoldable pub advert_message : Table → ℕ → List ℕ
unfolding size_bytes
advert_message t dest_mip =
    let buf = pack_advertisment t dest_mip in dest_mip ∷ (size_bytes 8 (length buf) ++ buf)

-- The neighbours that `sendAdvertisment(exclude)` sends to.
unfoldable pub neighbours_except : ℕ → List ℕ → List ℕ
neighbours_except exclude [] = []
neighbours_except exclude (dest_mip ∷ mips) =
    let rest = neighbours_except exclude mips in
    if dest_mip == exclude then rest else dest_mip ∷ rest

-- The loops of `sendAdvertisment` walk over `neighbour_mip_vec` without a lock. Their iterators are
-- invalid when the main thread changes it meanwhile; here they keep to the neighbours of the start.
unfoldable pub start_advertisment : Bool × ℕ → RoutingDeamon → RoutingDeamon
unfolding neighbours_except
start_advertisment (true, exclude) d = record d {
  advertising = neighbours_except exclude d.neighbour_mip_vec;
}
start_advertisment (false, mip) d = record d { advertising = d.neighbour_mip_vec }

-- One turn of these loops: the table of this moment, for one neighbour.
unfoldable pub send_advertisment : ℕ → List ℕ → RoutingDeamon → RoutingDeamon
unfolding advert_message
send_advertisment dest_mip rest d = record d {
  advertising = rest;
  update_written = d.update_written ++ advert_message d.distance_vector_table dest_mip;
}

unfoldable pub add_update_queue : Bool → ℕ → RoutingDeamon → RoutingDeamon
add_update_queue exclude mip d = record d { update_queue = d.update_queue ++ (exclude, mip) ∷ [] }

-- `std::find(neighbour_mip_vec.begin(), neighbour_mip_vec.end(), mip)`
unfoldable pub is_neighbour : ℕ → List ℕ → Bool
is_neighbour mip [] = false
is_neighbour mip (n ∷ ns) = let rest = is_neighbour mip ns in if n == mip then true else rest

-- `erase` of the first one found.
unfoldable pub erase_neighbour : ℕ → List ℕ → List ℕ
erase_neighbour mip [] = []
erase_neighbour mip (n ∷ ns) =
    let rest = erase_neighbour mip ns in if n == mip then ns else n ∷ rest

unfoldable pub read_update : ℕ → M RoutingDeamon (List ℕ)
read_update size d = let (r, s) = read size d.update_sock in (r, record d { update_sock = s })

unfoldable pub on_local_mip : ℕ → RoutingDeamon → RoutingDeamon
on_local_mip mip d = record d { distance_vector_table = add_local_mip mip d.distance_vector_table }

unfoldable pub on_arp_discovery : ℕ → RoutingDeamon → RoutingDeamon
unfolding is_neighbour add_update_queue
on_arp_discovery mip d =
    if is_neighbour mip d.neighbour_mip_vec
    then d
    else add_update_queue false mip (record d {
      neighbour_mip_vec = d.neighbour_mip_vec ++ mip ∷ [];
      distance_vector_table = add_arp_discovery mip d.distance_vector_table;
    })

unfoldable pub on_arp_lost : ℕ → RoutingDeamon → RoutingDeamon
unfolding is_neighbour erase_neighbour add_update_queue
on_arp_lost mip d =
    if is_neighbour mip d.neighbour_mip_vec
    then add_update_queue false mip (record d {
      neighbour_mip_vec = erase_neighbour mip d.neighbour_mip_vec;
      distance_vector_table = set_via_infinity mip d.distance_vector_table;
    })
    else d

-- The bytes read replace the start of the buffer, which has the announced size.
unfoldable pub on_advertisement : ℕ → ℕ → List ℕ → RoutingDeamon → RoutingDeamon
unfolding add_update_queue
on_advertisement mip size bytes d =
    let buf = write_at 0 bytes (resize size d.recv_buf) in
    let advert = unpack_advertisment buf d.advert_table in
    let (changed, t) = update mip advert d.distance_vector_table in
    let e = record d { recv_buf = buf; advert_table = advert; distance_vector_table = t } in
    if changed then add_update_queue true mip e else e

unfoldable pub receive_advertisement : M RoutingDeamon (Unit {0})
unfolding read_update on_advertisement
receive_advertisement = do
  mip ← read_update 1
  size ← read_update 8
  bytes ← read_update (le_value size)
  modify (on_advertisement (le_value mip) (le_value size) bytes)

-- The switch of `receiveUpdateSock`.
unfoldable pub receive_option : ℕ → M RoutingDeamon (Unit {0})
unfolding read_update on_local_mip on_arp_discovery on_arp_lost receive_advertisement
receive_option option =
    if option == local_mip
    then (do mip ← read_update 1; modify (on_local_mip (le_value mip)))
    else if option == arp_discovery
    then (do mip ← read_update 1; modify (on_arp_discovery (le_value mip)))
    else if option == arp_lostconnection
    then (do mip ← read_update 1; modify (on_arp_lost (le_value mip)))
    else if option == advertisement
    then receive_advertisement
    else raise error

unfoldable pub receive_update_sock : M RoutingDeamon (Unit {0})
unfolding receive_option read_update
receive_update_sock = do option ← read_update 1; receive_option (le_value option)

unfoldable pub receive_lookup_sock : M RoutingDeamon (Unit {0})
receive_lookup_sock d =
    let (r, s) = read 1 d.lookup_sock in
    continue (λ bytes e. (ok tt, record e { lookup_queue = e.lookup_queue ++ le_value bytes ∷ [] }))
      (r, record d { lookup_sock = s })
