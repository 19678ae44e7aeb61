-- ===== src/Connection/Progress/Server.antt =====
-- The receiving end of src/ClientHandler.cpp while the connection is up: what its timer puts on the way
-- back, and what a frame from its client does.
use miptp_cpp.Prelude.{
  ℕ, ◌+◌, ◌%◌, ◌<◌, ◌≡◌, refl, sym, subst, ap, ◌∙◌, Bool, true, false, List, [], ◌∷◌, ◌++◌, All,
  ◌==◌, Option, arith,
}
use miptp_cpp.TimerWrapper.{Timespec}
use miptp_cpp.ClientHandler.Addresses.{arm_timer-keeps}
use miptp_cpp.Outcome.{ok, throw, Outcome, M, continue, continue-after, after}
use miptp_cpp.MiptpFrame.{
  MiptpFrame, get_type, get_source, get_sequence_number, request, reply, sack, data_packet,
}
use miptp_cpp.CrossIpc.{
  AnonymousSocket, Sent, sent, send_failed, ewouldblock, eagain, other_errno, write,
}
use miptp_cpp.ClientHandler.{
  ClientHandler, type_server, stage_connected, sequence_size, control_frame, emplace, send_control,
  queue_ack, sock_write, arm_timer,
}
use miptp_cpp.ClientHandler.Handlers.{
  write_buffer, catching_pipe, send_to_sock, handle_transfer, handle_sock_at, handle_sock,
}
use miptp_cpp.ClientHandler.Receive.{
  timer_traffic, check_connection, timer_at, handle_timer, receive_data, receive_by_type,
  receive_keepalive, receive_connected, receive_at, receive_frame,
}

-- A send that takes bytes, or would block.
abbrev pub CanWrite : Sent → Type 0
CanWrite (sent n) = 0 < n
CanWrite (send_failed ewouldblock) = Unit
CanWrite (send_failed eagain) = Unit
CanWrite (send_failed other_errno) = ⊥

-- A connected server, by its peer's address and port, its own port, its ack, its queue, and whether it
-- has heard from its peer; its application takes what it writes, or lets it wait.
pub record Serves (address peer port ack : ℕ) (queue : List (ℕ × MiptpFrame)) (heard : Bool)
    (c : ClientHandler) : Type 0 where
  pub type : c.m_type ≡ type_server
  pub stage : c.m_stage ≡ stage_connected
  pub to : c.m_dest_address ≡ address
  pub to_port : c.m_dest_port ≡ peer
  pub from_port : c.m_source_port ≡ port
  pub acks : c.m_current_ack ≡ ack
  pub queued : c.m_out_queue ≡ queue
  pub hears : c.m_connected_reply ≡ heard
  pub sends : All CanWrite c.m_sock.sends

-- The code returns, in a state with this property.
abbrev Returns : (ClientHandler → Type 0) → Outcome (Unit {0}) × ClientHandler → Type 0
Returns P (ok _, c) = P c
Returns P (throw _, c) = ⊥

Returns-continue :
    (P Q : ClientHandler → Type 0) (k : Unit {0} → M ClientHandler (Unit {0}))
    (r : Outcome (Unit {0}) × ClientHandler)
    → Returns P r
    → ((c : ClientHandler) → P c → Returns Q (k tt c))
    → Returns Q (continue k r)
Returns-continue P Q k (ok _, c) v step = step c v
Returns-continue P Q k (throw e, c) v step = absurd v

Returns-after :
    (P : ClientHandler → Type 0) (r : Outcome (Unit {0}) × ClientHandler)
    → Returns P r
    → P (after r)
Returns-after P (ok _, c) v = v
Returns-after P (throw e, c) v = absurd v

module _ (address peer port ack : ℕ) (queue : List (ℕ × MiptpFrame)) (heard : Bool) where
  -- The socket, the buffer and the timer are free to change.
  moved-Serves :
      (s : AnonymousSocket) (buf : List ℕ) (timer : Option Timespec) (c : ClientHandler)
      → All CanWrite s.sends
      → Serves address peer port ack queue heard c
      → Serves address peer port ack queue heard
          (record c { m_sock = s; m_msg_buffer = buf; m_timer = timer })
  moved-Serves s buf timer c w v = record {
    type = v.type;
    stage = v.stage;
    to = v.to;
    to_port = v.to_port;
    from_port = v.from_port;
    acks = v.acks;
    queued = v.queued;
    hears = v.hears;
    sends = w;
  }

  write-Serves :
      (buf : List ℕ) (rs : List Sent) (c : ClientHandler)
      → All CanWrite rs
      → Serves address peer port ack queue heard c
      → Returns
          (Serves address peer port ack queue heard)
          (catching_pipe (write_buffer buf (record c { m_sock = record c.m_sock { sends = rs } })))
  unfolding catching_pipe write_buffer sock_write write
  write-Serves [] rs c w v = moved-Serves _ c.m_msg_buffer c.m_timer c w v
  write-Serves (b ∷ bs) [] c w v = moved-Serves _ c.m_msg_buffer c.m_timer c w v
  write-Serves (b ∷ bs) (sent n ∷ rs) c w v =
      let some_taken : (n == 0) ≡ false = ground (arith, w.0) in
      rw some_taken (moved-Serves _ _ c.m_timer c w.1 v)
  write-Serves (b ∷ bs) (send_failed ewouldblock ∷ rs) c w v =
      moved-Serves _ c.m_msg_buffer c.m_timer c w.1 v
  write-Serves (b ∷ bs) (send_failed eagain ∷ rs) c w v =
      moved-Serves _ c.m_msg_buffer c.m_timer c w.1 v
  write-Serves (b ∷ bs) (send_failed other_errno ∷ rs) c w v = absurd w.0

  send_to_sock-Serves :
      (c : ClientHandler)
      → Serves address peer port ack queue heard c
      → Returns (Serves address peer port ack queue heard) (send_to_sock c)
  unfolding send_to_sock
  send_to_sock-Serves c v = write-Serves c.m_msg_buffer c.m_sock.sends c v.sends v

  handle_sock-Serves :
      (is_port_free : ℕ → Bool) (free_port : ℕ) (c : ClientHandler)
      → Serves address peer port ack queue heard c
      → Returns (Serves address peer port ack queue heard) (handle_sock is_port_free free_port c)
  unfolding handle_sock handle_sock_at handle_transfer
  handle_sock-Serves is_port_free free_port c v =
      subst
        (λ s.
          Returns (Serves address peer port ack queue heard)
            (handle_sock_at s is_port_free free_port c))
        (sym v.stage)
        (subst (λ t. Returns (Serves address peer port ack queue heard) (handle_transfer t c))
          (sym v.type) (send_to_sock-Serves c v))

  send_control-Serves :
      (type seq : ℕ) (c : ClientHandler)
      → Serves address peer port ack queue heard c
      → Serves address peer port ack
          (queue ++ (address, control_frame type peer port seq) ∷ [])
          heard
          (send_control type seq c)
  unfolding send_control emplace
  send_control-Serves type seq c v = record {
    type = v.type;
    stage = v.stage;
    to = v.to;
    to_port = v.to_port;
    from_port = v.from_port;
    acks = v.acks;
    queued =
        ap (λ q. q ++ (c.m_dest_address, control_frame type c.m_dest_port c.m_source_port seq) ∷ [])
          v.queued
        ∙ rw (v.to, v.to_port, v.from_port) refl;
    hears = v.hears;
    sends = v.sends;
  }

  hears-Serves :
      (new : Bool) (c : ClientHandler)
      → Serves address peer port ack queue heard c
      → Serves address peer port ack queue new (record c { m_connected_reply = new })
  hears-Serves new c v = record {
    type = v.type;
    stage = v.stage;
    to = v.to;
    to_port = v.to_port;
    from_port = v.from_port;
    acks = v.acks;
    queued = v.queued;
    hears = refl;
    sends = v.sends;
  }

-- What an expired timer puts on the way back.
abbrev pub expired : ℕ → ℕ → ℕ → ℕ → List (ℕ × MiptpFrame) → List (ℕ × MiptpFrame)
expired address peer port ack queue =
    (queue ++ (address, control_frame sack peer port ack) ∷ [])
    ++ (address, control_frame request peer port 0) ∷ []

module _ (address peer port ack : ℕ) (queue : List (ℕ × MiptpFrame)) where
  timer_traffic-Serves :
      (c : ClientHandler)
      → Serves address peer port ack queue true c
      → Returns
          (Serves address peer port ack
            (queue ++ (address, control_frame sack peer port ack) ∷ [])
            true)
          (timer_traffic c.m_type c)
  unfolding timer_traffic queue_ack
  timer_traffic-Serves c v =
      let w =
        subst
          (λ n.
            Serves address peer port ack (queue ++ (address, control_frame sack peer port n) ∷ [])
              true (queue_ack c))
          v.acks (send_control-Serves address peer port ack queue true sack c.m_current_ack c v) in
      subst
        (λ t.
          Returns
            (Serves address peer port ack
              (queue ++ (address, control_frame sack peer port ack) ∷ []) true)
            (timer_traffic t c))
        (sym v.type) (send_to_sock-Serves address peer port ack _ true (queue_ack c) w)

  check_connection-Serves :
      (c : ClientHandler)
      → Serves address peer port ack queue true c
      → Serves address peer port ack
          (queue ++ (address, control_frame request peer port 0) ∷ [])
          false
          (check_connection c)
  unfolding check_connection
  check_connection-Serves c v = rw v.hears (
      hears-Serves address peer port ack _ true false (send_control request 0 c)
        (send_control-Serves address peer port ack queue true request 0 c v))

-- An expired timer sends the ack again, and asks whether the client is there.
pub handle_timer-Serves :
    (address peer port ack : ℕ) (queue : List (ℕ × MiptpFrame)) (is_port_free : ℕ → Bool)
    (free_port : ℕ) (c : ClientHandler)
    → Serves address peer port ack queue true c
    → Serves address peer port ack
        (expired address peer port ack queue)
        false
        (after (handle_timer is_port_free free_port c))
unfolding handle_timer timer_at
handle_timer-Serves address peer port ack queue is_port_free free_port c v =
    let sent_ack : List (ℕ × MiptpFrame) =
      queue ++ (address, control_frame sack peer port ack) ∷ [] in
    let Q = Serves address peer port ack (expired address peer port ack queue) false in
    let connected : Returns Q (timer_at stage_connected is_port_free free_port c) =
      Returns-continue (Serves address peer port ack sent_ack true) Q _ _
        (Returns-continue (Serves address peer port ack queue true)
          (Serves address peer port ack sent_ack true) _ (handle_sock is_port_free free_port c)
          (handle_sock-Serves address peer port ack queue true is_port_free free_port c v)
          (timer_traffic-Serves address peer port ack queue))
        (check_connection-Serves address peer port ack sent_ack) in
    continue-after Q (λ _. arm_timer) (timer_at c.m_stage is_port_free free_port c)
      (subst (λ s. Q (after (timer_at s is_port_free free_port c))) (sym v.stage)
        (Returns-after Q _ connected))
      (λ _. arm_timer-keeps Q (λ d t w.
        moved-Serves address peer port ack (expired address peer port ack queue) false d.m_sock
          d.m_msg_buffer t d w.sends w))

module _ (address peer port ack : ℕ) (queue : List (ℕ × MiptpFrame)) (heard : Bool) (f : MiptpFrame)
    (c : ClientHandler) (v : Serves address peer port ack queue heard c)
    (from : get_source f ≡ peer) where
  -- A frame from the client is told apart by its type.
  receive_ours :
      after (receive_frame 0 address f c)
      ≡ receive_keepalive (get_type f) (receive_by_type type_server 0 f c)
  unfolding receive_frame receive_at receive_connected
  receive_ours =
      let address-eq : (address == c.m_dest_address) ≡ true = ground (arith, v.to) in
      let port-eq : (get_source f == c.m_dest_port) ≡ true = ground (arith, v.to_port, from) in
      ap (λ s. after (receive_at s 0 address f c)) v.stage
      ∙ rw (address-eq, port-eq)
          (ap (λ t. receive_keepalive (get_type f) (receive_by_type t 0 f c)) v.type)

  -- The frame that is waited for.
  pub receive_next-Serves :
      get_type f ≡ data_packet
      → get_sequence_number 0 f ≡ ack
      → Serves address peer port
          ((ack + 1) % sequence_size)
          queue
          heard
          (after (receive_frame 0 address f c))
  unfolding receive_by_type receive_data receive_keepalive
  receive_next-Serves kind number =
      let data_frame : (get_type f == data_packet) ≡ true = ground (arith, kind) in
      let no_request : (get_type f == request) ≡ false = ground (arith, kind) in
      let no_reply : (get_type f == reply) ≡ false = ground (arith, kind) in
      let same : (get_sequence_number 0 f == c.m_current_ack) ≡ true =
        ground (arith, number, v.acks) in
      rw receive_ours (
        rw (data_frame, no_request, no_reply, same)
          (record {
            type = v.type;
            stage = v.stage;
            to = v.to;
            to_port = v.to_port;
            from_port = v.from_port;
            acks = ap (λ n. (n + 1) % sequence_size) v.acks;
            queued = v.queued;
            hears = v.hears;
            sends = v.sends;
          }))

  -- The answer to the timer's request.
  pub receive_reply-Serves :
      get_type f ≡ reply
      → Serves address peer port ack queue true (after (receive_frame 0 address f c))
  unfolding receive_by_type receive_keepalive
  receive_reply-Serves kind =
      let no_data : (get_type f == data_packet) ≡ false = ground (arith, kind) in
      let no_request : (get_type f == request) ≡ false = ground (arith, kind) in
      let replied : (get_type f == reply) ≡ true = ground (arith, kind) in
      rw receive_ours (
        rw (no_data, no_request, replied) (hears-Serves address peer port ack queue heard true c v))
