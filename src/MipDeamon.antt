-- ===== src/MipDeamon.antt =====
-- src/MIP_deamon.cpp: the globals as one state and the handlers of its event loop. `raw_sock_vec`
-- does not change after the start, so a pair holds its socket by value. `htons` is a parameter.
-- What is written to a socket is recorded; an error of the kernel ends the process.
pub mod Handlers
pub mod Arp
pub mod Invariant
pub mod Forwarding
pub mod Start
pub mod Events
mod Frames
pub mod Lookups
pub mod Notices
pub mod Tells
use miptp_cpp.Prelude.{
  ℕ, zero, suc, ◌+◌, ◌-◌, Bool, true, false, Option, none, some, List, [], ◌∷◌, ◌++◌, map, length,
  take, find_if, ◌==◌, if◌then◌else◌,
}
use miptp_cpp.Bytes.{write_at}
use miptp_cpp.MipFrame.{
  MipFrame, set_mip_tra, set_mip_dest, set_mip_source, set_mip_ttl, set_msg_size, set_eth_dest,
  set_eth_source, set_eth_protocol, get_data, get_size, frame_header_size, tra_zero, tra_a, tra_r,
}
use miptp_cpp.RawSock.{MipRawSock, eth_p_mip}
use miptp_cpp.RoutingDeamon.{local_mip, arp_discovery, arp_lostconnection}

pub record ArpPair : Type 0 where
  pub reply : Bool
  pub mip : ℕ
  pub mac : List ℕ
  pub sock : MipRawSock

pub record MipDeamon : Type 0 where
  pub raw_sock_vec : List MipRawSock
  pub arp_pair_vec : List ArpPair
  -- with `true` the source address is set
  pub lookup_queue : List (Bool × MipFrame)
  -- the static frames of the handlers
  pub raw_frame : MipFrame
  pub transport_frame : MipFrame
  pub update_frame : MipFrame
  pub response_frame : MipFrame
  pub broadcast_frame : MipFrame
  -- what has been written: to the routing daemon, to the transport daemon, and on each wire
  pub update_written : List ℕ
  pub lookup_written : List ℕ
  pub transport_written : List (ℕ × ℕ × List ℕ)
  pub frames_sent : List (MipRawSock × List ℕ)

unfoldable pub write_update : List ℕ → MipDeamon → MipDeamon
write_update bytes d = record d { update_written = d.update_written ++ bytes }

unfoldable pub send_local_mip : ℕ → MipDeamon → MipDeamon
unfolding write_update
send_local_mip mip = write_update (local_mip ∷ mip ∷ [])

unfoldable pub send_arp_discovery : ℕ → MipDeamon → MipDeamon
unfolding write_update
send_arp_discovery mip = write_update (arp_discovery ∷ mip ∷ [])

unfoldable pub send_arp_lost_connection : ℕ → MipDeamon → MipDeamon
unfolding write_update
send_arp_lost_connection mip = write_update (arp_lostconnection ∷ mip ∷ [])

-- `std::find_if` by address.
unfoldable pub find_pair : ℕ → List ArpPair → Option ArpPair
find_pair mip pairs = find_if (λ p. p.mip == mip) pairs

unfoldable pub add_arp_pair : MipRawSock → ℕ → List ℕ → MipDeamon → MipDeamon
add_arp_pair sock mip mac d = record d {
  arp_pair_vec = d.arp_pair_vec ++ record { reply = true; mip = mip; mac = mac; sock = sock } ∷ [];
}

unfoldable pub send_mip_frame : MipRawSock → MipFrame → MipDeamon → MipDeamon
send_mip_frame sock frame d = record d {
  frames_sent = d.frames_sent ++ (sock, get_data frame) ∷ [];
}

-- `setMsg(getData(), getSize())`: the frame's own bytes become its message. They are copied from the
-- vector after it has grown in place.
unfoldable pub set_own_msg : MipFrame → MipFrame
set_own_msg frame =
    let size = get_size frame in
    let g = set_msg_size size frame in
    record g { m_data = write_at frame_header_size (take size (get_data g)) (get_data g) }

module _ (htons : ℕ → ℕ) where
  -- What the two kinds of control frame have in common.
  unfoldable pub fill_control : ℕ → ℕ → ℕ → List ℕ → List ℕ → MipFrame → MipFrame
  unfolding set_own_msg
  fill_control tra dest source eth_dest eth_source frame = set_own_msg (
      set_eth_protocol (htons eth_p_mip) (
        set_eth_source eth_source (
          set_eth_dest eth_dest (
            set_mip_ttl 0xff (
              set_msg_size 0
                (set_mip_source source (set_mip_dest dest (set_mip_tra tra frame))))))))

  unfoldable pub send_response_frame : ArpPair → MipDeamon → MipDeamon
  unfolding fill_control send_mip_frame
  send_response_frame pair d =
      let sock = pair.sock in
      let frame = fill_control tra_zero pair.mip sock.m_mip pair.mac sock.m_mac d.response_frame in
      send_mip_frame sock frame (record d { response_frame = frame })

  unfoldable pub send_broadcast_frame : MipRawSock → MipDeamon → MipDeamon
  unfolding fill_control send_mip_frame
  send_broadcast_frame sock d =
      let everyone = 0xff ∷ 0xff ∷ 0xff ∷ 0xff ∷ 0xff ∷ 0xff ∷ [] in
      let frame = fill_control tra_a 0xff sock.m_mip everyone sock.m_mac d.broadcast_frame in
      send_mip_frame sock frame (record d { broadcast_frame = frame })

  unfoldable pub broadcast_all : List MipRawSock → MipDeamon → MipDeamon
  unfolding send_broadcast_frame
  broadcast_all [] d = d
  broadcast_all (sock ∷ socks) d = broadcast_all socks (send_broadcast_frame sock d)

-- The loop at a timeout: a pair that has not replied since the last one is reported lost and
-- erased, the others are marked. The code goes on with the iterator that was erased, which is
-- undefined; in a vector it stands at the next pair, and so here.
unfoldable pub expire_pairs : List ArpPair → MipDeamon → List ArpPair × MipDeamon
unfolding send_arp_lost_connection
expire_pairs [] d = ([], d)
expire_pairs (p ∷ pairs) d =
    let (kept, e) = expire_pairs pairs (if p.reply then d else send_arp_lost_connection p.mip d) in
    if p.reply then (record p { reply = false } ∷ kept, e) else (kept, e)

unfoldable pub handle_timeout : (ℕ → ℕ) → MipDeamon → MipDeamon
unfolding expire_pairs broadcast_all
handle_timeout htons d =
    let (kept, e) = expire_pairs d.arp_pair_vec d in
    broadcast_all htons d.raw_sock_vec (record e { arp_pair_vec = kept })
