-- ===== src/MipDeamon/Tells.antt =====
-- What each event of src/MIP_deamon.cpp has it tell src/routing_deamon.cpp.
use miptp_cpp.Prelude.{
  ℕ, ◌<◌, ◌≤◌, ◌≡◌, refl, sym, subst, inl, inr, Bool, Option, none, some, Bool-cases, ==_iff, List,
  [], ◌∷◌, append-nil, length, ◌+◌, ◌==◌, find_if, arith,
}
use miptp_cpp.Outcome.{after}
use miptp_cpp.Bytes.{IsBytes}
use miptp_cpp.RawSock.{MipRawSock, recv_mip_frame}
use miptp_cpp.MipFrame.{
  MipFrame, get_msg_size, get_mip_tra, get_mip_source, tra_a, tra_r, tra_t, tra_zero,
}
use miptp_cpp.MipFrame.Words.{IsFrame}
use miptp_cpp.RoutingDeamon.Stream.{found}
use miptp_cpp.MipDeamon.{
  ArpPair, MipDeamon, find_pair, write_update, send_response_frame, send_mip_frame,
  send_arp_discovery, add_arp_pair,
}
use miptp_cpp.MipDeamon.Handlers.{
  is_local, enqueue_lookup, receive_transport_sock, receive_update_sock, send_advert, send_via,
  take_lookup, receive_lookup_sock, receive_arp_request, receive_arp_response, receive_transport,
  dispatch_frame, receive_raw_sock,
}
use miptp_cpp.MipDeamon.Events.{
  Event, timeout_event, transport_event, update_event, lookup_event, raw_event, on_raw,
  handle_event,
}
use miptp_cpp.MipDeamon.Lookups.{IsReady, handle_event-Asks}
use miptp_cpp.MipDeamon.Notices.{
  recv_mip_frame-room, Tells, Tells-nothing, handle_timeout-Tells, receive_advert-Tells,
}

arp_request-Tells :
    (htons : ℕ → ℕ) (pair : Option ArpPair) (sock : MipRawSock) (f : MipFrame) (d : MipDeamon)
    → Tells d (receive_arp_request htons pair sock f d)
unfolding receive_arp_request send_response_frame send_arp_discovery write_update add_arp_pair
    send_mip_frame
arp_request-Tells htons none sock f d = (found (get_mip_source f) ∷ [], (tt, tt), refl)
arp_request-Tells htons (some pair) sock f d = ([], tt, sym (append-nil d.update_written))

arp_response-Tells :
    (pair : Option ArpPair) (sock : MipRawSock) (f : MipFrame) (d : MipDeamon)
    → Tells d (receive_arp_response pair sock f d)
unfolding receive_arp_response send_arp_discovery write_update add_arp_pair
arp_response-Tells none sock f d = (found (get_mip_source f) ∷ [], (tt, tt), refl)
arp_response-Tells (some pair) sock f d = ([], tt, sym (append-nil d.update_written))

receive_transport-Tells : (f : MipFrame) (d : MipDeamon) → Tells d (receive_transport f d)
unfolding receive_transport enqueue_lookup
receive_transport-Tells f d = Tells-nothing d (receive_transport f d) (ground arith)

dispatch_frame-Tells :
    (htons : ℕ → ℕ) (sock : MipRawSock) (f : MipFrame) (d : MipDeamon)
    → get_msg_size f + 18 ≤ length f.m_data
    → (get_mip_tra f ≡ tra_r → 0 < get_msg_size f)
    → Tells d (after (dispatch_frame htons sock f d))
unfolding dispatch_frame
dispatch_frame-Tells htons sock f d room h =
    let pair = find_pair (get_mip_source f) d.arp_pair_vec in
    elim (Bool-cases (get_mip_tra f == tra_a)) [
      | inl a ↦ rw a (arp_request-Tells htons pair sock f d)
      | inr not_a ↦ elim (Bool-cases (get_mip_tra f == tra_zero)) [
        | inl z ↦ rw (not_a, z) (arp_response-Tells pair sock f d)
        | inr not_z ↦ elim (Bool-cases (get_mip_tra f == tra_r)) [
          | inl advert ↦
              rw (not_a, not_z, advert)
                (receive_advert-Tells f d room (h ((==_iff (get_mip_tra f) tra_r).0 advert)))
          | inr not_r ↦ elim (Bool-cases (get_mip_tra f == tra_t)) [
            | inl t ↦ rw (not_a, not_z, not_r, t) (receive_transport-Tells f d)
            | inr other ↦ rw (not_a, not_z, not_r, other) (Tells-nothing d d refl)
          ]
        ]
      ]
    ]

-- What an answer leaves alone: the static frames, and what the routing daemon has been told.
abbrev Kept : MipDeamon → MipDeamon → Type 0
Kept d e =
    (e.raw_frame ≡ d.raw_frame)
    × (e.transport_frame ≡ d.transport_frame)
    × (e.update_written ≡ d.update_written)

send_via-Kept :
    (htons : ℕ → ℕ) (pair : Option ArpPair) (entry : Bool × MipFrame) (d : MipDeamon)
    → Kept d (send_via htons pair entry d)
unfolding send_via send_mip_frame
send_via-Kept htons none entry d = (refl, refl, refl)
send_via-Kept htons (some pair) entry d = (refl, refl, refl)

take_lookup-Kept :
    (htons : ℕ → ℕ) (queue : List (Bool × MipFrame)) (hop : Option ℕ) (d : MipDeamon)
    → Kept d (after (take_lookup htons queue hop d))
unfolding take_lookup
take_lookup-Kept htons [] hop d = (refl, refl, refl)
take_lookup-Kept htons (entry ∷ queue) none d = (refl, refl, refl)
take_lookup-Kept htons (entry ∷ queue) (some via) d =
    send_via-Kept htons (find_pair via d.arp_pair_vec) entry (record d { lookup_queue = queue })

-- An event at which bytes are bytes, and an advertisement that arrives is not empty.
abbrev pub IsTelling : Event → MipDeamon → Type 0
IsTelling timeout_event d = Unit
IsTelling (transport_event dest size message) d = (dest < 256) × IsBytes message
IsTelling (update_event dest size ad) d = Unit
IsTelling (lookup_event hop) d = Unit
IsTelling (raw_event in_fd bytes) d =
    let f = recv_mip_frame bytes d.raw_frame in
    IsBytes bytes × (get_mip_tra f ≡ tra_r → 0 < get_msg_size f)

module _ (htons : ℕ → ℕ) where
  on_raw-Tells :
      (sock : Option MipRawSock) (bytes : List ℕ) (d : MipDeamon)
      → (let f = recv_mip_frame bytes d.raw_frame in
          (get_msg_size f + 18 ≤ length f.m_data) × (get_mip_tra f ≡ tra_r → 0 < get_msg_size f))
      → Tells d (after (on_raw htons sock bytes d))
  unfolding on_raw receive_raw_sock
  on_raw-Tells none bytes d h = Tells-nothing d d refl
  on_raw-Tells (some sock) bytes d h =
      let f = recv_mip_frame bytes d.raw_frame in
      dispatch_frame-Tells htons sock f (record d { raw_frame = f }) h.0 h.1

  send_advert-told :
      (pair : Option ArpPair) (f : MipFrame) (d : MipDeamon)
      → (send_advert htons pair f d).update_written ≡ d.update_written
  unfolding send_advert send_mip_frame
  send_advert-told none f d = refl
  send_advert-told (some pair) f d = refl

  transport_sock-told :
      (dest size : ℕ) (message : List ℕ) (d : MipDeamon)
      → (receive_transport_sock htons dest size message d).update_written ≡ d.update_written
  unfolding receive_transport_sock enqueue_lookup
  transport_sock-told dest size message d = elim (Bool-cases (is_local dest d.raw_sock_vec)) [
    | inl here ↦ rw here refl
    | inr away ↦ rw away refl
  ]

  pub handle_event-Tells :
      (event : Event) (d : MipDeamon)
      → IsTelling event d
      → IsReady d
      → Tells d (after (handle_event htons event d))
  unfolding handle_event receive_update_sock receive_lookup_sock
  handle_event-Tells timeout_event d h r = handle_timeout-Tells htons d
  handle_event-Tells (transport_event dest size message) d h r =
      Tells-nothing d (receive_transport_sock htons dest size message d)
        (transport_sock-told dest size message d)
  handle_event-Tells (update_event dest size ad) d h r =
      Tells-nothing d (after (handle_event htons (update_event dest size ad) d))
        (send_advert-told (find_pair dest d.arp_pair_vec) _ d)
  handle_event-Tells (lookup_event hop) d h r =
      Tells-nothing d (after (take_lookup htons d.lookup_queue hop d))
        (take_lookup-Kept htons d.lookup_queue hop d).2
  handle_event-Tells (raw_event in_fd bytes) d h r =
      on_raw-Tells (find_if (λ s. s.m_fd == in_fd) d.raw_sock_vec) bytes d
        (recv_mip_frame-room bytes d.raw_frame h.0 r.0, h.1)

  pub handle_event-IsReady :
      (event : Event) (d : MipDeamon)
      → IsTelling event d
      → IsReady d
      → IsReady (after (handle_event htons event d))
  unfolding handle_event receive_lookup_sock
  handle_event-IsReady timeout_event d h r = (handle_event-Asks htons timeout_event d h r).1
  handle_event-IsReady (transport_event dest size message) d h r =
      (handle_event-Asks htons (transport_event dest size message) d h r).1
  handle_event-IsReady (update_event dest size ad) d h r =
      (handle_event-Asks htons (update_event dest size ad) d h r).1
  handle_event-IsReady (lookup_event hop) d h r =
      let (raw, transport, told) = take_lookup-Kept htons d.lookup_queue hop d in
      (subst IsFrame (sym raw) r.0, subst IsFrame (sym transport) r.1)
  handle_event-IsReady (raw_event in_fd bytes) d h r =
      (handle_event-Asks htons (raw_event in_fd bytes) d h.0 r).1
