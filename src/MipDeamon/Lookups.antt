-- ===== src/MipDeamon/Lookups.antt =====
-- The frames of src/MIP_deamon.cpp that wait for a route, and the questions about them.
use miptp_cpp.Prelude.{
  ℕ, ◌-◌, ◌<◌, ◌≡◌, refl, sym, subst, ap, ◌∙◌, inl, inr, Bool, true, false, Option, none, some,
  List, [], ◌∷◌, ◌++◌, map, append-nil, ltb, ◌==◌, if◌then◌else◌, Bool-cases, find_if,
}
use miptp_cpp.Outcome.{after}
use miptp_cpp.Bytes.{IsBytes, write_at}
use miptp_cpp.MipFrame.{
  MipFrame, set_mip_tra, set_mip_dest, set_mip_ttl, set_msg_size, set_eth_protocol, get_mip_tra,
  get_mip_source, get_mip_dest, get_mip_ttl, get_msg_size, frame_header_size, msg_max_size, tra_t,
  tra_a, tra_r, tra_zero,
}
use miptp_cpp.MipFrame.Words.{IsFrame}
use miptp_cpp.MipFrame.Fields.{set_mip_tra-IsFrame, set_mip_dest-IsFrame, set_mip_ttl-IsFrame}
use miptp_cpp.RawSock.{MipRawSock, eth_p_mip, recv_mip_frame}
use miptp_cpp.MipDeamon.{
  ArpPair, MipDeamon, find_pair, handle_timeout, expire_pairs, broadcast_all, send_broadcast_frame,
  send_arp_lost_connection, send_arp_discovery, send_response_frame, send_mip_frame, add_arp_pair,
  write_update,
}
use miptp_cpp.MipDeamon.Handlers.{
  is_local, enqueue_lookup, receive_transport_sock, receive_update_sock, send_advert,
  receive_arp_request, receive_arp_response, receive_advert, receive_transport, dispatch_frame,
  receive_raw_sock,
}
use miptp_cpp.MipDeamon.Events.{
  Event, timeout_event, transport_event, update_event, lookup_event, raw_event, on_raw,
  handle_event,
}
use miptp_cpp.MipDeamon.Frames.{
  set_msg_size-IsFrame, write_at-IsFrame, set_eth_protocol-IsFrame, get_mip_dest-set_eth_protocol,
  get_mip_dest-set_mip_ttl, get_mip_dest-set_mip_dest, if-IsFrame, recv_mip_frame-IsFrame,
}

-- What is waiting, by its destination.
abbrev pub dests : List (Bool × MipFrame) → List ℕ
dests = map (λ e. get_mip_dest e.1)

-- A handler asks about each frame that it puts into the queue.
abbrev pub Asks : MipDeamon → MipDeamon → Type 0
Asks d e =
    (questions : List ℕ) × (dests e.lookup_queue ≡ dests d.lookup_queue ++ questions)
    × (e.lookup_written ≡ d.lookup_written ++ questions)

abbrev pub IsReady : MipDeamon → Type 0
IsReady d = IsFrame d.raw_frame × IsFrame d.transport_frame

abbrev Kept : MipDeamon → MipDeamon → Type 0
Kept d e =
    (e.lookup_queue ≡ d.lookup_queue)
    × (e.lookup_written ≡ d.lookup_written)
    × (e.raw_frame ≡ d.raw_frame)
    × (e.transport_frame ≡ d.transport_frame)

same : (d : MipDeamon) → Kept d d
same d = (refl, refl, refl, refl)

further : (d e f : MipDeamon) → Kept d e → Kept e f → Kept d f
further d e f v w = (w.0 ∙ v.0, w.1 ∙ v.1, w.2 ∙ v.2, w.3 ∙ v.3)

expire_pairs-Kept : (pairs : List ArpPair) (d : MipDeamon) → Kept d (expire_pairs pairs d).1
unfolding expire_pairs send_arp_lost_connection write_update
expire_pairs-Kept [] d = same d
expire_pairs-Kept (p ∷ pairs) d = elim (Bool-cases p.reply) [
  | inl heard ↦ rw heard (expire_pairs-Kept pairs d)
  | inr silent ↦ rw silent (expire_pairs-Kept pairs (send_arp_lost_connection p.mip d))
]

broadcast_all-Kept :
    (htons : ℕ → ℕ) (socks : List MipRawSock) (d : MipDeamon) → Kept d (broadcast_all htons socks d)
unfolding broadcast_all send_broadcast_frame send_mip_frame
broadcast_all-Kept htons [] d = same d
broadcast_all-Kept htons (s ∷ socks) d =
    broadcast_all-Kept htons socks (send_broadcast_frame htons s d)

handle_timeout-Kept : (htons : ℕ → ℕ) (d : MipDeamon) → Kept d (handle_timeout htons d)
unfolding handle_timeout
handle_timeout-Kept htons d =
    let (kept, e) = expire_pairs d.arp_pair_vec d in
    further d e (handle_timeout htons d) (expire_pairs-Kept d.arp_pair_vec d)
      (broadcast_all-Kept htons d.raw_sock_vec (record e { arp_pair_vec = kept }))

send_advert-Kept :
    (htons : ℕ → ℕ) (pair : Option ArpPair) (f : MipFrame) (d : MipDeamon)
    → Kept d (send_advert htons pair f d)
unfolding send_advert send_mip_frame
send_advert-Kept htons none f d = same d
send_advert-Kept htons (some pair) f d = same d

arp_request-Kept :
    (htons : ℕ → ℕ) (pair : Option ArpPair) (sock : MipRawSock) (f : MipFrame) (d : MipDeamon)
    → Kept d (receive_arp_request htons pair sock f d)
unfolding receive_arp_request send_response_frame send_arp_discovery write_update add_arp_pair
    send_mip_frame
arp_request-Kept htons none sock f d = same d
arp_request-Kept htons (some pair) sock f d = same d

arp_response-Kept :
    (pair : Option ArpPair) (sock : MipRawSock) (f : MipFrame) (d : MipDeamon)
    → Kept d (receive_arp_response pair sock f d)
unfolding receive_arp_response send_arp_discovery write_update add_arp_pair
arp_response-Kept none sock f d = same d
arp_response-Kept (some pair) sock f d = same d

-- A handler that is ready again when it is done, and has asked about what it has queued.
abbrev Done : MipDeamon → MipDeamon → Type 0
Done d e = Asks d e × IsReady e

Kept-Done : (d e : MipDeamon) → IsReady d → Kept d e → Done d e
Kept-Done d e (v, w) k = (
  (
    [],
    ap dests k.0 ∙ sym (append-nil (dests d.lookup_queue)),
    k.1 ∙ sym (append-nil d.lookup_written),
  ),
  (subst IsFrame (sym k.2) v, subst IsFrame (sym k.3) w),
)

dests-last :
    (queue : List (Bool × MipFrame)) (set : Bool) (f : MipFrame)
    → dests (queue ++ (set, f) ∷ []) ≡ dests queue ++ get_mip_dest f ∷ []
dests-last [] set f = refl
dests-last (e ∷ queue) set f = ap (λ l. get_mip_dest e.1 ∷ l) (dests-last queue set f)

receive_transport-Done :
    (f : MipFrame) (d : MipDeamon) → IsFrame f → IsReady d → Done d (receive_transport f d)
unfolding receive_transport enqueue_lookup
receive_transport-Done f d v r = elim (Bool-cases (is_local (get_mip_dest f) d.raw_sock_vec)) [
  | inl here ↦
      rw here (([], sym (append-nil (dests d.lookup_queue)), sym (append-nil d.lookup_written)), r)
  | inr away ↦ elim (Bool-cases (ltb 0 (get_mip_ttl f))) [
    | inl alive ↦
        let g = set_mip_ttl (get_mip_ttl f - 1) f in
        rw (away, alive)
          (
            (
              get_mip_dest f ∷ [],
              dests-last d.lookup_queue true g
                  ∙ ap (λ q. dests d.lookup_queue ++ q ∷ [])
                      (get_mip_dest-set_mip_ttl (get_mip_ttl f - 1) f v),
              refl,
            ),
            (set_mip_ttl-IsFrame f v (get_mip_ttl f - 1), r.1),
          )
    | inr dead ↦ rw (away, dead) (Kept-Done d d r (same d))
  ]
]

dispatch_frame-Done :
    (htons : ℕ → ℕ) (sock : MipRawSock) (f : MipFrame) (d : MipDeamon)
    → IsFrame f
    → IsReady d
    → Done d (after (dispatch_frame htons sock f d))
unfolding dispatch_frame receive_advert write_update
dispatch_frame-Done htons sock f d v r =
    let pair = find_pair (get_mip_source f) d.arp_pair_vec in
    elim (Bool-cases (get_mip_tra f == tra_a)) [
      | inl a ↦ rw a (
          Kept-Done d (receive_arp_request htons pair sock f d) r
            (arp_request-Kept htons pair sock f d))
      | inr not_a ↦ elim (Bool-cases (get_mip_tra f == tra_zero)) [
        | inl z ↦
            rw (not_a, z)
              (Kept-Done d (receive_arp_response pair sock f d) r (arp_response-Kept pair sock f d))
        | inr not_z ↦ elim (Bool-cases (get_mip_tra f == tra_r)) [
          | inl advert ↦
              rw (not_a, not_z, advert)
                (
                  ([], sym (append-nil (dests d.lookup_queue)), sym (append-nil d.lookup_written)),
                  r,
                )
          | inr not_r ↦ elim (Bool-cases (get_mip_tra f == tra_t)) [
            | inl t ↦ rw (not_a, not_z, not_r, t) (receive_transport-Done f d v r)
            | inr other ↦ rw (not_a, not_z, not_r, other) (Kept-Done d d r (same d))
          ]
        ]
      ]
    ]

-- Bytes are less than 256, and addresses are bytes.
abbrev pub IsEvent : Event → Type 0
IsEvent timeout_event = Unit
IsEvent (transport_event dest size message) = (dest < 256) × IsBytes message
IsEvent (update_event dest size ad) = Unit
IsEvent (lookup_event answer) = ⊥
IsEvent (raw_event in_fd bytes) = IsBytes bytes

module _ (htons : ℕ → ℕ) where
  on_raw-Done :
      (sock : Option MipRawSock) (bytes : List ℕ) (d : MipDeamon)
      → IsBytes bytes
      → IsReady d
      → Done d (after (on_raw htons sock bytes d))
  unfolding on_raw receive_raw_sock
  on_raw-Done none bytes d b r = Kept-Done d d r (same d)
  on_raw-Done (some sock) bytes d b r =
      let f = recv_mip_frame bytes d.raw_frame in
      let v = recv_mip_frame-IsFrame bytes d.raw_frame b r.0 in
      dispatch_frame-Done htons sock f (record d { raw_frame = f }) v (v, r.1)

  receive_transport_sock-Done :
      (dest size : ℕ) (message : List ℕ) (d : MipDeamon)
      → dest < 256
      → IsBytes message
      → IsReady d
      → Done d (receive_transport_sock htons dest size message d)
  unfolding receive_transport_sock enqueue_lookup
  receive_transport_sock-Done dest size message d small b r =
      let f = d.transport_frame in
      let g = if get_msg_size f == msg_max_size then f else set_msg_size msg_max_size f in
      let gv =
        if-IsFrame (get_msg_size f == msg_max_size) f (set_msg_size msg_max_size f) r.1
          (set_msg_size-IsFrame msg_max_size f r.1) in
      let filled = record g { m_data = write_at frame_header_size message g.m_data } in
      let fv = write_at-IsFrame frame_header_size message g b gv in
      let h = if get_msg_size filled == size then filled else set_msg_size size filled in
      let hv =
        if-IsFrame (get_msg_size filled == size) filled (set_msg_size size filled) fv
          (set_msg_size-IsFrame size filled fv) in
      let t = set_mip_tra tra_t h in
      let tv = set_mip_tra-IsFrame h hv tra_t in
      let a = set_mip_dest dest t in
      let av = set_mip_dest-IsFrame t tv dest in
      let l = set_mip_ttl 0xff a in
      let lv = set_mip_ttl-IsFrame a av 0xff in
      let out = set_eth_protocol (htons eth_p_mip) l in
      let to : get_mip_dest out ≡ dest =
        get_mip_dest-set_eth_protocol (htons eth_p_mip) l
        ∙ get_mip_dest-set_mip_ttl 0xff a av
        ∙ get_mip_dest-set_mip_dest dest t tv small in
      elim (Bool-cases (is_local dest d.raw_sock_vec)) [
        | inl here ↦ rw here (
          ([], sym (append-nil (dests d.lookup_queue)), sym (append-nil d.lookup_written)),
          (r.0, hv),
        )
        | inr away ↦ rw away (
          (
            dest ∷ [],
            dests-last d.lookup_queue false out ∙ ap (λ q. dests d.lookup_queue ++ q ∷ []) to,
            refl,
          ),
          (r.0, set_eth_protocol-IsFrame (htons eth_p_mip) l lv),
        )
      ]

  -- An event other than an answer.
  pub handle_event-Asks :
      (event : Event) (d : MipDeamon)
      → IsEvent event
      → IsReady d
      → Asks d (after (handle_event htons event d)) × IsReady (after (handle_event htons event d))
  unfolding handle_event receive_update_sock
  handle_event-Asks timeout_event d e r =
      Kept-Done d (handle_timeout htons d) r (handle_timeout-Kept htons d)
  handle_event-Asks (transport_event dest size message) d e r =
      receive_transport_sock-Done dest size message d e.0 e.1 r
  handle_event-Asks (update_event dest size ad) d e r =
      Kept-Done d (receive_update_sock htons dest size ad d) r
        (send_advert-Kept htons (find_pair dest d.arp_pair_vec) _ d)
  handle_event-Asks (lookup_event answer) d e r = absurd e
  handle_event-Asks (raw_event in_fd bytes) d e r =
      on_raw-Done (find_if (λ s. s.m_fd == in_fd) d.raw_sock_vec) bytes d e r
