-- ===== src/TransportDeamon/Distinct.antt =====
-- No two clients of src/transport_deamon.cpp have the same port.
use miptp_cpp.Prelude.{
  ℕ, ◌≡◌, ◌≢◌, ◌⊎◌, inl, inr, refl, sym, ap, subst, ◌∙◌, Bool, true, false, List, [], ◌∷◌, ◌++◌,
  All, ◌==◌, ==_iff, if◌then◌else◌, Bool-cases, arith,
}
use miptp_cpp.Outcome.{Outcome, ok, throw, continue-after, after}
use miptp_cpp.MiptpFrame.{MiptpFrame, get_dest}
use miptp_cpp.CrossIpc.{enable_non_block, is_non_block, Sent}
use miptp_cpp.ClientHandler.{ClientHandler, fresh, new_client_handler}
use miptp_cpp.ClientHandler.Handlers.{handle_sock}
use miptp_cpp.ClientHandler.Receive.{handle_timer, receive_frame}
use miptp_cpp.ClientHandler.Port.{MayHave, receive_frame-Held, handle_sock-Held, handle_timer-Held}
use miptp_cpp.TransportDeamon.{
  Client, TransportDeamon, Event, transport_event, application_event, client_event, is_port_free,
  get_free_port, is_failure, keep_or_erase, after_handler, with_client, run_client, store_packet,
  receive_packet, receive_packets, receive_transport_sock, frame_iovec, after_send, send_frames,
  send_transport_sock, add_client, receive_application_sock, handle_client_handler_sock,
  handle_client_handler_timer, has_sock, dispatch_event, handle_event, handle_events,
}
use miptp_cpp.CrossIpc.Packet.{send_iovec}
use miptp_cpp.TransportDeamon.Order.{after_send-throw}
use miptp_cpp.TransportDeamon.Sending.{sending}
use miptp_cpp.TransportDeamon.Ports.{get_free_port_lem}

abbrev Others : ℕ → List Client → Type 0
Others port = All (λ d. d.handler.m_source_port ≢ port)

-- A client has no port yet, or another than all clients after it.
abbrev pub DistinctPorts : List Client → Type 0
DistinctPorts [] = Unit
DistinctPorts (c ∷ clients) =
    ((c.handler.m_source_port ≡ 0) ⊎ Others c.handler.m_source_port clients) × DistinctPorts clients

is_port_free-Others :
    (clients : List Client) (port : ℕ) → is_port_free clients port ≡ true → Others port clients
unfolding is_port_free
is_port_free-Others [] port h = tt
is_port_free-Others (c ∷ clients) port h = elim (Bool-cases (c.handler.m_source_port == port)) [
  | inl same ↦ absurd (let e = rw same at h in cc)
  | inr other ↦ (λ e. ground arith, is_port_free-Others clients port (rw other at h))
]

after_handler-All :
    (P : Client → Type 0) (c : Client) (rest : List Client) (r : Outcome (Unit {0}))
    → P c
    → All P rest
    → All P (after_handler c rest r)
unfolding after_handler keep_or_erase
after_handler-All P c rest (ok _) h k = elim (Bool-cases (is_failure c.handler.m_stage)) [
  | inl failed ↦ rw failed k
  | inr up ↦ rw up (h, k)
]
after_handler-All P c rest (throw e) h k = (h, k)

after_handler-Distinct :
    (c : Client) (rest : List Client) (r : Outcome (Unit {0}))
    → DistinctPorts (c ∷ rest)
    → DistinctPorts (after_handler c rest r)
unfolding after_handler keep_or_erase
after_handler-Distinct c rest (ok _) v = elim (Bool-cases (is_failure c.handler.m_stage)) [
  | inl failed ↦ rw failed v.1
  | inr up ↦ rw up v
]
after_handler-Distinct c rest (throw e) v = v

module _ (test : Client → Bool) (handle : ClientHandler → Outcome (Unit {0}) × ClientHandler)
    (free : ℕ → Bool)
    (may : (h : ClientHandler)
      → MayHave free h.m_source_port (after (handle h)).m_source_port) where
  -- A port that is not free is given to no other client.
  with_client-Others :
      (port : ℕ) (clients : List Client) (queue : List (ℕ × MiptpFrame))
      → port ≢ 0
      → free port ≡ false
      → Others port clients
      → Others port (with_client test handle clients queue).1
  unfolding with_client
  with_client-Others port [] queue h used others = tt
  with_client-Others port (c ∷ clients) queue h used others = elim (Bool-cases (test c)) [
    | inl found ↦
        let before = record (c.handler) { m_out_queue = queue } in
        rw (found, with_client)
          (after_handler-All _ (record c { handler = after (handle before) }) clients
            (handle before).0 (other (after (handle before)).m_source_port (may before)) others.1)
    | inr not_found ↦
        rw (not_found, with_client)
          (others.0, with_client-Others port clients queue h used others.1)
  ]
    where
      other : (new : ℕ) → MayHave free c.handler.m_source_port new → new ≢ port
      other new (inl same) = λ e. others.0 (sym same ∙ e)
      other new (inr (inl unset)) = λ e. h (sym e ∙ unset)
      other new (inr (inr is_free)) = λ e. (let u = subst (λ n. free n ≡ true) e is_free in cc)

  with_client-Distinct :
      (clients : List Client) (queue : List (ℕ × MiptpFrame))
      → ((port : ℕ) → free port ≡ true → Others port clients)
      → DistinctPorts clients
      → DistinctPorts (with_client test handle clients queue).1
  unfolding with_client
  with_client-Distinct [] queue h v = tt
  with_client-Distinct (c ∷ clients) queue h v = elim (Bool-cases (test c)) [
    | inl found ↦
        let before = record (c.handler) { m_out_queue = queue } in
        rw (found, with_client)
          (after_handler-Distinct (record c { handler = after (handle before) }) clients
            (handle before).0 (new_port (after (handle before)).m_source_port (may before), v.1))
    | inr not_found ↦
        rw (not_found, with_client)
          (kept v.0, with_client-Distinct clients queue (λ port e. (h port e).1) v.1)
  ]
    where
      new_port :
          (new : ℕ) → MayHave free c.handler.m_source_port new → (new ≡ 0) ⊎ Others new clients
      new_port new (inl same) = subst (λ n. (n ≡ 0) ⊎ Others n clients) (sym same) v.0
      new_port new (inr (inl unset)) = inl unset
      new_port new (inr (inr is_free)) = inr (h new is_free).1

      kept :
          (c.handler.m_source_port ≡ 0) ⊎ Others c.handler.m_source_port clients
          → (c.handler.m_source_port ≡ 0)
            ⊎ Others c.handler.m_source_port (with_client test handle clients queue).1
      kept (inl unset) = inl unset
      kept (inr others) = elim (Bool-cases (c.handler.m_source_port == 0)) [
        | inl unset ↦ inl ((==_iff c.handler.m_source_port 0).0 unset)
        | inr set ↦ elim (Bool-cases (free c.handler.m_source_port)) [
          | inl is_free ↦ absurd ((h c.handler.m_source_port is_free).0 refl)
          | inr used ↦
              inr (
                with_client-Others c.handler.m_source_port clients queue (ground arith) used others)
        ]
      ]

abbrev Kept : TransportDeamon → Type 0
Kept d = DistinctPorts d.client_vector

run_client-Kept :
    (test : Client → Bool) (handle : ClientHandler → Outcome (Unit {0}) × ClientHandler)
    (free : ℕ → Bool) (d : TransportDeamon)
    → ((h : ClientHandler) → MayHave free h.m_source_port (after (handle h)).m_source_port)
    → ((port : ℕ) → free port ≡ true → Others port d.client_vector)
    → Kept d
    → Kept (after (run_client test handle d))
unfolding run_client
run_client-Kept test handle free d may h v =
    with_client-Distinct test handle free may d.client_vector d.frame_out_queue h v

receive_packet-Kept :
    (upper source msg_size : ℕ) (bytes : List ℕ) (d : TransportDeamon)
    → Kept d
    → Kept (after (receive_packet upper source msg_size bytes d))
unfolding receive_packet
receive_packet-Kept upper source msg_size bytes d v =
    let frame = store_packet msg_size bytes d.recv_frame in
    run_client-Kept (λ c. get_dest frame == c.handler.m_source_port)
      (receive_frame upper source frame) (λ _. false) (record d { recv_frame = frame })
      (λ h. receive_frame-Held (λ _. false) h.m_source_port upper source frame h (inl refl))
      (λ port e. absurd (let u : ⊥ = cc in u)) v

receive_packets-Kept :
    (packets : List (ℕ × ℕ × ℕ × List ℕ)) (d : TransportDeamon)
    → Kept d
    → Kept (after (receive_packets packets d))
unfolding receive_packets
receive_packets-Kept [] d v = v
receive_packets-Kept ((upper, source, msg_size, bytes) ∷ packets) d v =
    continue-after Kept (λ _. receive_packets packets)
      (receive_packet upper source msg_size bytes d)
      (receive_packet-Kept upper source msg_size bytes d v) (λ _. receive_packets-Kept packets)

-- A new client has no port yet.
append-Distinct :
    (clients : List Client) (c : Client)
    → c.handler.m_source_port ≡ 0
    → DistinctPorts clients
    → DistinctPorts (clients ++ c ∷ [])
append-Distinct [] c e v = (inl e, tt)
append-Distinct (b ∷ clients) c e v = (first v.0, append-Distinct clients c e v.1)
  where
    others :
        (port : ℕ) (rest : List Client) → port ≢ 0 → Others port rest → Others port (rest ++ c ∷ [])
    others port [] h o = (λ same. h (sym same ∙ e), tt)
    others port (a ∷ rest) h o = (o.0, others port rest h o.1)

    first :
        (b.handler.m_source_port ≡ 0) ⊎ Others b.handler.m_source_port clients
        → (b.handler.m_source_port ≡ 0) ⊎ Others b.handler.m_source_port (clients ++ c ∷ [])
    first (inl unset) = inl unset
    first (inr o) = elim (Bool-cases (b.handler.m_source_port == 0)) [
      | inl unset ↦ inl ((==_iff b.handler.m_source_port 0).0 unset)
      | inr set ↦ inr (others b.handler.m_source_port clients (ground arith) o)
    ]

free_port_lem :
    (clients : List Client)
    → (get_free_port clients ≡ 0) ⊎ (is_port_free clients (get_free_port clients) ≡ true)
free_port_lem clients = elim (get_free_port_lem clients) [
  | inl (_, _, free, _) ↦ inr free
  | inr (unset, _) ↦ inl unset
]

after_send-clients :
    (result : Outcome (Unit {0})) (rest : Outcome (Unit {0}) × TransportDeamon)
    (d : TransportDeamon) (clients : List Client)
    → (after rest).client_vector ≡ clients
    → d.client_vector ≡ clients
    → (after (after_send result rest d)).client_vector ≡ clients
unfolding after_send
after_send-clients (ok unit) rest d clients v w = v
after_send-clients (throw e) rest d clients v w =
    ap (λ (f : TransportDeamon). f.client_vector) (after_send-throw e rest d) ∙ w

send_frames-clients :
    (queue : List (ℕ × MiptpFrame)) (d : TransportDeamon)
    → (send_frames queue d).1.client_vector ≡ d.client_vector
unfolding send_frames
send_frames-clients [] d = refl
send_frames-clients (f ∷ queue) d =
    let (result, sock) = send_iovec (frame_iovec f) d.transport_sock in
    let e = record d { transport_sock = sock } in
    after_send-clients result (send_frames queue e) (record e { frame_out_queue = f ∷ queue })
      d.client_vector (send_frames-clients queue e) refl

client_sock-Kept :
    (fd : ℕ) (d : TransportDeamon) → Kept d → Kept (after (handle_client_handler_sock fd d))
unfolding handle_client_handler_sock
client_sock-Kept fd d v =
    run_client-Kept (λ c. c.sock_fd == fd)
      (handle_sock (is_port_free d.client_vector) (get_free_port d.client_vector))
      (is_port_free d.client_vector) d
      (λ h.
        handle_sock-Held (is_port_free d.client_vector) h.m_source_port
          (get_free_port d.client_vector) (free_port_lem d.client_vector) h (inl refl))
      (is_port_free-Others d.client_vector) v

client_timer-Kept :
    (fd : ℕ) (d : TransportDeamon) → Kept d → Kept (after (handle_client_handler_timer fd d))
unfolding handle_client_handler_timer
client_timer-Kept fd d v =
    run_client-Kept (λ c. c.timer_fd == fd)
      (handle_timer (is_port_free d.client_vector) (get_free_port d.client_vector))
      (is_port_free d.client_vector) d
      (λ h.
        handle_timer-Held (is_port_free d.client_vector) h.m_source_port
          (get_free_port d.client_vector) (free_port_lem d.client_vector) h (inl refl))
      (is_port_free-Others d.client_vector) v

-- An event of a client's socket, or of its timer.
abbrev on_client : Bool → ℕ → TransportDeamon → Outcome (Unit {0}) × TransportDeamon
on_client is_sock fd d =
    if is_sock then handle_client_handler_sock fd d else handle_client_handler_timer fd d

dispatch_event-Kept :
    (event : Event) (d : TransportDeamon) → Kept d → Kept (after (dispatch_event event d))
unfolding dispatch_event receive_transport_sock receive_application_sock add_client
    new_client_handler fresh is_non_block enable_non_block handle_client_handler_sock
    handle_client_handler_timer
dispatch_event-Kept (transport_event packets) d v = receive_packets-Kept packets d v
dispatch_event-Kept (application_event sock sock_fd timer_fd) d v =
    append-Distinct d.client_vector _ refl v
dispatch_event-Kept (client_event fd) d v = elim (Bool-cases (has_sock fd d.client_vector)) [
  | inl sock ↦ subst (λ b. Kept (after (on_client b fd d))) (sym sock) (client_sock-Kept fd d v)
  | inr timer ↦ subst (λ b. Kept (after (on_client b fd d))) (sym timer) (client_timer-Kept fd d v)
]

handle_event-Kept :
    (event : Event) (results : List Sent) (d : TransportDeamon)
    → Kept d
    → Kept (after (handle_event event results d))
unfolding handle_event send_transport_sock
handle_event-Kept event results d v =
    continue-after Kept (λ _. send_transport_sock results) (dispatch_event event d)
      (dispatch_event-Kept event d v)
      (λ _ e w.
        subst DistinctPorts (sym (send_frames-clients e.frame_out_queue (sending results e))) w)

-- Whatever events come to transport_deamon, in whatever order, and whatever its applications and the
-- network do, and whether or not a handler throws in the end: no two clients have the same port, but
-- for those that have none yet, if this was so at first.
pub handle_events-DistinctPorts :
    (events : List (Event × List Sent)) (d : TransportDeamon)
    → DistinctPorts d.client_vector
    → DistinctPorts (after (handle_events events d)).client_vector
unfolding handle_events
handle_events-DistinctPorts [] d v = v
handle_events-DistinctPorts ((event, results) ∷ events) d v =
    continue-after Kept (λ _. handle_events events) (handle_event event results d)
      (handle_event-Kept event results d v) (λ _. handle_events-DistinctPorts events)
