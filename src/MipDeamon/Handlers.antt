-- ===== src/MipDeamon/Handlers.antt =====
-- The receiving handlers of src/MIP_deamon.cpp. `htons` is a parameter.
use miptp_cpp.Prelude.{
  ℕ, ◌-◌, Bool, true, false, Option, none, some, List, [], ◌∷◌, ◌++◌, take, ltb, ◌==◌,
  if◌then◌else◌,
}
use miptp_cpp.Outcome.{broken_pipe, error, Outcome, ok, throw}
use miptp_cpp.Bytes.{write_at}
use miptp_cpp.MipFrame.{
  MipFrame, set_mip_tra, set_mip_dest, set_mip_source, set_mip_ttl, set_msg_size, set_eth_dest,
  set_eth_source, set_eth_protocol, get_mip_tra, get_mip_source, get_mip_dest, get_mip_ttl,
  get_msg_size, get_msg, get_eth_source, frame_header_size, msg_max_size, tra_zero, tra_t, tra_r,
  tra_a,
}
use miptp_cpp.RawSock.{MipRawSock, eth_p_mip, recv_mip_frame}
use miptp_cpp.CrossIpc.{size_bytes}
use miptp_cpp.RoutingDeamon.{advertisement}
use miptp_cpp.MipDeamon.{
  ArpPair, MipDeamon, write_update, send_arp_discovery, find_pair, add_arp_pair, send_mip_frame,
  send_response_frame,
}

-- Whether an address is one of this host's.
unfoldable pub is_local : ℕ → List MipRawSock → Bool
is_local mip [] = false
is_local mip (s ∷ socks) = let rest = is_local mip socks in if s.m_mip == mip then true else rest

-- The frame waits in the queue while the routing daemon is asked for the next hop.
unfoldable pub enqueue_lookup : Bool → MipFrame → ℕ → MipDeamon → MipDeamon
enqueue_lookup source_set frame dest d = record d {
  lookup_queue = d.lookup_queue ++ (source_set, frame) ∷ [];
  lookup_written = d.lookup_written ++ dest ∷ [];
}

-- `arp_it->reply = true`, for the pair that was found.
unfoldable pub mark_replied : ℕ → List ArpPair → List ArpPair
mark_replied mip [] = []
mark_replied mip (p ∷ pairs) =
    let rest = mark_replied mip pairs in
    if p.mip == mip then record p { reply = true } ∷ pairs else p ∷ rest

module _ (htons : ℕ → ℕ) where
  -- A packet from the transport daemon: destination, message size and message.
  unfoldable pub receive_transport_sock : ℕ → ℕ → List ℕ → MipDeamon → MipDeamon
  unfolding is_local
  receive_transport_sock dest msg_size message d =
      let f = d.transport_frame in
      let g = if get_msg_size f == msg_max_size then f else set_msg_size msg_max_size f in
      let filled = record g { m_data = write_at frame_header_size message g.m_data } in
      let h = if get_msg_size filled == msg_size then filled else set_msg_size msg_size filled in
      let out =
        set_eth_protocol (htons eth_p_mip)
          (set_mip_ttl 0xff (set_mip_dest dest (set_mip_tra tra_t h))) in
      if is_local dest d.raw_sock_vec
      then record d {
        transport_frame = h;
        transport_written =
            d.transport_written ++ (dest, msg_size, take msg_max_size (get_msg filled)) ∷ [];
      }
      else enqueue_lookup false out dest (record d { transport_frame = out })

  -- A frame for the neighbour of a pair.
  unfoldable pub address_frame : ArpPair → MipFrame → MipFrame
  address_frame pair frame =
      set_eth_protocol (htons eth_p_mip)
        (set_eth_source pair.sock.m_mac (set_eth_dest pair.mac frame))

  unfoldable pub send_via : Option ArpPair → Bool × MipFrame → MipDeamon → MipDeamon
  unfolding address_frame send_mip_frame
  send_via none entry d = d
  send_via (some pair) (source_set, frame) d =
      let frame' = if source_set then frame else set_mip_source pair.sock.m_mip frame in
      send_mip_frame pair.sock (address_frame pair frame') d

  -- The routing daemon's answer is for the front of the queue; an empty queue would be undefined.
  unfoldable pub take_lookup :
      List (Bool × MipFrame) → Option ℕ → MipDeamon → Outcome (Unit {0}) × MipDeamon
  unfolding send_via find_pair
  take_lookup [] answer d = (throw error, d)
  take_lookup (entry ∷ queue) none d = (ok tt, record d { lookup_queue = queue })
  take_lookup (entry ∷ queue) (some via) d =
      (ok tt, send_via (find_pair via d.arp_pair_vec) entry (record d { lookup_queue = queue }))

  unfoldable pub receive_lookup_sock : Option ℕ → MipDeamon → Outcome (Unit {0}) × MipDeamon
  unfolding take_lookup
  receive_lookup_sock answer d = take_lookup d.lookup_queue answer d

  unfoldable pub send_advert : Option ArpPair → MipFrame → MipDeamon → MipDeamon
  unfolding address_frame send_mip_frame
  send_advert none frame d = record d { update_frame = frame }
  send_advert (some pair) frame d =
      let out = address_frame pair (
        set_mip_ttl 0xff
          (set_mip_source pair.sock.m_mip (set_mip_dest pair.mip (set_mip_tra tra_r frame)))) in
      send_mip_frame pair.sock out (record d { update_frame = out })

  -- An advertisement from the routing daemon: destination, size and contents.
  unfoldable pub receive_update_sock : ℕ → ℕ → List ℕ → MipDeamon → MipDeamon
  unfolding send_advert find_pair
  receive_update_sock dest_mip ad_size ad d =
      let f = set_msg_size ad_size d.update_frame in
      send_advert (find_pair dest_mip d.arp_pair_vec)
        (record f { m_data = write_at frame_header_size ad f.m_data }) d

  -- The new pair is the last one; an old one is marked.
  unfoldable pub receive_arp_request :
      Option ArpPair → MipRawSock → MipFrame → MipDeamon → MipDeamon
  unfolding add_arp_pair send_arp_discovery send_response_frame mark_replied
  receive_arp_request none sock f d =
      let mip = get_mip_source f in
      let mac = get_eth_source f in
      send_response_frame htons (record { reply = true; mip = mip; mac = mac; sock = sock })
        (send_arp_discovery mip (add_arp_pair sock mip mac d))
  receive_arp_request (some pair) sock f d =
      send_response_frame htons (record pair { reply = true })
        (record d { arp_pair_vec = mark_replied (get_mip_source f) d.arp_pair_vec })

unfoldable pub receive_arp_response : Option ArpPair → MipRawSock → MipFrame → MipDeamon → MipDeamon
unfolding add_arp_pair send_arp_discovery mark_replied
receive_arp_response none sock f d =
    let mip = get_mip_source f in
    send_arp_discovery mip (add_arp_pair sock mip (get_eth_source f) d)
receive_arp_response (some pair) sock f d = record d {
  arp_pair_vec = mark_replied (get_mip_source f) d.arp_pair_vec;
}

-- `send` returns 0 for a message without bytes, and `write` takes that for a broken pipe.
unfoldable pub receive_advert : MipFrame → MipDeamon → Outcome (Unit {0}) × MipDeamon
unfolding write_update size_bytes
receive_advert f d =
    let msg_size = get_msg_size f in
    (
      if msg_size == 0 then throw broken_pipe else ok tt,
      write_update
          (advertisement ∷ get_mip_source f ∷ (size_bytes 8 msg_size ++ take msg_size (get_msg f)))
          d,
    )

-- A frame for this host goes up; any other is forwarded while it may live.
unfoldable pub receive_transport : MipFrame → MipDeamon → MipDeamon
unfolding is_local enqueue_lookup
receive_transport f d =
    let dest = get_mip_dest f in
    let ttl = get_mip_ttl f in
    let forwarded = set_mip_ttl (ttl - 1) f in
    if is_local dest d.raw_sock_vec
    then record d {
      transport_written =
          d.transport_written
          ++ (get_mip_source f, get_msg_size f, take (get_msg_size f) (get_msg f)) ∷ [];
    }
    else if ltb 0 ttl
    then enqueue_lookup true forwarded dest (record d { raw_frame = forwarded })
    else d

unfoldable pub dispatch_frame :
    (ℕ → ℕ) → MipRawSock → MipFrame → MipDeamon → Outcome (Unit {0}) × MipDeamon
unfolding receive_arp_request receive_arp_response receive_advert receive_transport find_pair
dispatch_frame htons sock f d =
    let pair = find_pair (get_mip_source f) d.arp_pair_vec in
    let tra = get_mip_tra f in
    if tra == tra_a
    then (ok tt, receive_arp_request htons pair sock f d)
    else if tra == tra_zero
    then (ok tt, receive_arp_response pair sock f d)
    else if tra == tra_r
    then receive_advert f d
    else if tra == tra_t
    then (ok tt, receive_transport f d)
    else (throw error, d)

-- `bytes` is what `recv` stores into the static frame.
unfoldable pub receive_raw_sock :
    (ℕ → ℕ) → MipRawSock → List ℕ → MipDeamon → Outcome (Unit {0}) × MipDeamon
unfolding dispatch_frame recv_mip_frame
receive_raw_sock htons sock bytes d =
    let f = recv_mip_frame bytes d.raw_frame in
    dispatch_frame htons sock f (record d { raw_frame = f })
