-- ===== src/Examples/Routing.antt =====
-- src/DistanceVectorTable.cpp and src/routing_deamon.cpp at concrete inputs.
use miptp_cpp.Prelude.{
  ℕ, ◌^◌, ◌<◌, ◌≡◌, refl, true, false, none, some, List, [], ◌∷◌, ◌++◌, length, ◌==◌, if◌then◌else◌,
  arith,
}
use miptp_cpp.Outcome.{ok}
use miptp_cpp.CrossIpc.{size_bytes, AnonymousSocket, received}
use miptp_cpp.DistanceVectorTable.{
  Table, update, find_to, hop_cost, set_via_infinity, add_arp_discovery, pack_advertisment,
  unpack_advertisment, count_columns,
}
use miptp_cpp.DistanceVectorTable.Routes.{
  relax_all, find_to-update, update_unchanged, find_to-add_arp_discovery, lose,
  find_to-set_via_infinity,
}
use miptp_cpp.DistanceVectorTable.Distinct.{IsTable, Table-invariant}
use miptp_cpp.DistanceVectorTable.Advertisment.{entries, horizon, unpack-pack_advertisment}
use miptp_cpp.RoutingDeamon.{
  RoutingDeamon, arp_lostconnection, advertisement, on_local_mip, on_arp_discovery, on_arp_lost,
  on_advertisement, receive_update_sock, is_neighbour,
}
use miptp_cpp.RoutingDeamon.Backed.{AllBacked, AllBacked-invariant, on_advertisement-AllBacked}
use miptp_cpp.RoutingDeamon.Protocol.{reading, receive_update_sock-advertisement}
use miptp_cpp.RoutingDeamon.Threads.{shutdown_threads}

-- Host 1 with the neighbours 2 and 3; 4 is reached through 2.
abbrev routes : Table
routes =
    record { to = 1; via = 1; cost = 0 }
    ∷ record { to = 2; via = 2; cost = 1 }
    ∷ record { to = 3; via = 3; cost = 1 }
    ∷ record { to = 4; via = 2; cost = 3 }
    ∷ []

-- Host 3 knows a shorter way to 4, and a way to 5.
abbrev heard : Table
heard = record { to = 4; via = 4; cost = 1 } ∷ record { to = 5; via = 4; cost = 2 } ∷ []

find_to-update_example :
    find_to 4 (update 3 heard routes).1 ≡ relax_all 3 heard 4 (find_to 4 routes)
find_to-update_example = find_to-update 3 heard routes 4

routes-IsTable : IsTable routes
unfolding find_to
routes-IsTable = ground arith

Table-invariant_example :
    ((sender : ℕ) (advert : Table) → IsTable (update sender advert routes).1)
    × ((mip : ℕ) → IsTable (add_arp_discovery mip routes))
    × ((via : ℕ) → IsTable (set_via_infinity via routes))
Table-invariant_example = Table-invariant routes routes-IsTable

few_columns : count_columns 2 routes < 2 ^ 16
unfolding count_columns
few_columns = omega arith

unpack-pack_advertisment_example :
    entries (unpack_advertisment (pack_advertisment routes 2) heard) ≡ entries (horizon 2 routes)
unpack-pack_advertisment_example = unpack-pack_advertisment routes heard 2 few_columns

-- What host 2 tells of 4 is known already.
abbrev nothing_new : Table
nothing_new = record { to = 4; via = 9; cost = 2 } ∷ []

no_change : (update 2 nothing_new routes).0 ≡ false
unfolding update
no_change = ground arith

update_unchanged_example : (update 2 nothing_new routes).1 ≡ routes
update_unchanged_example = update_unchanged 2 nothing_new routes no_change

find_to-add_arp_discovery_example :
    find_to 4 (add_arp_discovery 4 routes)
    ≡ (if 4 == 4 then some (record { to = 4; via = 4; cost = hop_cost }) else find_to 4 routes)
find_to-add_arp_discovery_example = find_to-add_arp_discovery 4 4 routes

find_to-set_via_infinity_example : find_to 4 (set_via_infinity 2 routes) ≡ lose 2 (find_to 4 routes)
find_to-set_via_infinity_example = find_to-set_via_infinity 2 4 routes

abbrev quiet : AnonymousSocket
quiet = record { m_closed = false; m_nonblock = false; recvs = []; sends = []; written = [] }

abbrev pub host : RoutingDeamon
host = record {
  update_sock = quiet;
  lookup_sock = quiet;
  update_written = [];
  lookup_written = [];
  neighbour_mip_vec = 2 ∷ 3 ∷ [];
  distance_vector_table = routes;
  recv_buf = [];
  advert_table = [];
  update_queue = [];
  lookup_queue = [];
  advertising = [];
  answering = none;
  running = true;
}

host-AllBacked : AllBacked host
unfolding is_neighbour
host-AllBacked = ground arith

AllBacked-invariant_example :
    ((mip : ℕ) → AllBacked (on_local_mip mip host))
    × ((mip : ℕ) → AllBacked (on_arp_discovery mip host))
    × ((mip : ℕ) → AllBacked (on_arp_lost mip host))
AllBacked-invariant_example = AllBacked-invariant host host-AllBacked

knows_three : is_neighbour 3 host.neighbour_mip_vec ≡ true
unfolding is_neighbour
knows_three = refl

on_advertisement-AllBacked_example : AllBacked (on_advertisement 3 4 (1 ∷ 0 ∷ 4 ∷ 1 ∷ []) host)
on_advertisement-AllBacked_example =
    on_advertisement-AllBacked host host-AllBacked 3 4 (1 ∷ 0 ∷ 4 ∷ 1 ∷ []) knows_three

abbrev advert_bytes : List ℕ
advert_bytes = 1 ∷ 0 ∷ 4 ∷ 1 ∷ []

receive_update_sock-advertisement_example :
    receive_update_sock (
      reading
        (received (advertisement ∷ 3 ∷ (size_bytes 8 (length advert_bytes) ++ advert_bytes)) ∷ [])
        host)
    ≡ (ok tt, on_advertisement 3 (length advert_bytes) advert_bytes (reading [] host))
receive_update_sock-advertisement_example =
    receive_update_sock-advertisement host 3 1 (0 ∷ 4 ∷ 1 ∷ []) [] (omega arith)

-- Neighbour 2 is lost, and then the threads are told to stop.
abbrev told : RoutingDeamon
told = reading (received (arp_lostconnection ∷ 2 ∷ []) ∷ []) host

abbrev stopped : RoutingDeamon
stopped = shutdown_threads (on_arp_lost 2 (reading [] host))
