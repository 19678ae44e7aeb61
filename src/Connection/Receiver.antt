-- ===== src/Connection/Receiver.antt =====
-- The receiving end: what holds of a server of src/ClientHandler.cpp, of the acks that it has put on the
-- way, and of what its application has been given.
pub mod Taking
use miptp_cpp.Prelude.{
  ℕ, zero, suc, ◌+◌, ◌-◌, ◌%◌, ◌≤◌, ◌<◌, ◌≡◌, ◌⊎◌, inl, inr, refl, sym, subst, ap, ◌∙◌, Bool, true,
  false, Option, none, some, List, [], ◌∷◌, ◌++◌, length, take, drop, append_assoc, append-nil,
  take-append-drop, take_all, ltb, ltb-false→le, ◌==◌, if◌then◌else◌, Bool-cases, arith,
}
use miptp_cpp.Outcome.{
  ok, throw, Outcome, M, continue, continue-after, after, would_block, broken_pipe, timeout,
  interrupted, error, assertion,
}
use miptp_cpp.MiptpFrame.{MiptpFrame, get_type, get_sequence_number, request, reply, sack}
use miptp_cpp.CrossIpc.{AnonymousSocket, write}
use miptp_cpp.ClientHandler.{
  ClientHandler, ClientType, type_server, ConnectStage, stage_connected, stage_failure,
  sequence_size, control_frame, emplace, send_control, queue_ack, sock_write, set_stage,
}
use miptp_cpp.ClientHandler.Handlers.{
  write_buffer, catching_pipe, send_to_sock, handle_transfer, handle_sock_at, handle_sock,
}
use miptp_cpp.ClientHandler.Receive.{
  timer_traffic, check_connection, timer_at, handle_timer, receive_keepalive,
}
use miptp_cpp.Connection.Fill.{control_frame_lem}
use miptp_cpp.Connection.Numbers.{AckOrder, AckOrder-none, AckOrder-ack}
use miptp_cpp.Connection.Data.{IsControl}
use miptp_cpp.Connection.Unread.{WroteNext, write-WroteNext}
use miptp_cpp.Connection.Sender.{IsOpen}
use miptp_cpp.ClientHandler.Addresses.{arm_timer-keeps}
use miptp_cpp.Connection.Sender.Acks.{IsAck}

-- The frames on the way back have these numbers.
abbrev pub BackWay : List (Option ℕ) → List (ℕ × MiptpFrame) → Type 0
BackWay [] [] = Unit
BackWay (none ∷ xs) (e ∷ queue) = IsControl e.1 × BackWay xs queue
BackWay (some a ∷ xs) (e ∷ queue) = IsAck a e.1 × BackWay xs queue
BackWay _ _ = ⊥

pub BackWay-control :
    (xs : List (Option ℕ)) (queue : List (ℕ × MiptpFrame)) (dest : ℕ) (f : MiptpFrame)
    → IsControl f
    → BackWay xs queue
    → BackWay (xs ++ none ∷ []) (queue ++ (dest, f) ∷ [])
BackWay-control [] [] dest f c v = (c, tt)
BackWay-control [] (e ∷ queue) dest f c v = absurd v
BackWay-control (none ∷ xs) [] dest f c v = absurd v
BackWay-control (some x ∷ xs) [] dest f c v = absurd v
BackWay-control (none ∷ xs) (e ∷ queue) dest f c v = (v.0, BackWay-control xs queue dest f c v.1)
BackWay-control (some x ∷ xs) (e ∷ queue) dest f c v = (v.0, BackWay-control xs queue dest f c v.1)

pub BackWay-ack :
    (xs : List (Option ℕ)) (queue : List (ℕ × MiptpFrame)) (dest a : ℕ) (f : MiptpFrame)
    → IsAck a f
    → BackWay xs queue
    → BackWay (xs ++ some a ∷ []) (queue ++ (dest, f) ∷ [])
BackWay-ack [] [] dest a f c v = (c, tt)
BackWay-ack [] (e ∷ queue) dest a f c v = absurd v
BackWay-ack (none ∷ xs) [] dest a f c v = absurd v
BackWay-ack (some x ∷ xs) [] dest a f c v = absurd v
BackWay-ack (none ∷ xs) (e ∷ queue) dest a f c v = (v.0, BackWay-ack xs queue dest a f c v.1)
BackWay-ack (some x ∷ xs) (e ∷ queue) dest a f c v = (v.0, BackWay-ack xs queue dest a f c v.1)

-- The sender's base, and the number that is waited for; the application was given `before` at first,
-- and `received` since, but for what stands in the buffer.
pub record Receiver (before received : List ℕ) (base waits : ℕ) (m_current_ack : ℕ)
    (m_out_queue : List (ℕ × MiptpFrame)) (m_msg_buffer written : List ℕ) : Type 0 where
  pub xs : List (Option ℕ)
  pub ack : m_current_ack ≡ waits % sequence_size
  pub way : BackWay xs m_out_queue
  pub order : AckOrder base waits xs
  pub ahead : base ≤ waits
  pub given : written ++ m_msg_buffer ≡ before ++ received

abbrev pub IsReceiver : List ℕ → List ℕ → ℕ → ℕ → ClientHandler → Type 0
IsReceiver before received base waits c =
    Receiver before received base waits c.m_current_ack c.m_out_queue c.m_msg_buffer
      c.m_sock.written

abbrev pub Receives : List ℕ → List ℕ → ℕ → ℕ → ClientHandler → Type 0
Receives before received base waits c =
    IsReceiver before received base waits c × IsOpen type_server c

module _ {before received : List ℕ} {base waits ack : ℕ} {queue : List (ℕ × MiptpFrame)}
    {buffer written : List ℕ}
    (v : Receiver before received base waits ack queue buffer written) where
  Receiver-control :
      (dest : ℕ) (f : MiptpFrame)
      → IsControl f
      → Receiver before received base waits ack (queue ++ (dest, f) ∷ []) buffer written
  Receiver-control dest f c = record {
    xs = v.xs ++ none ∷ [];
    ack = v.ack;
    way = BackWay-control v.xs queue dest f c v.way;
    order = AckOrder-none base waits v.xs v.order;
    ahead = v.ahead;
    given = v.given;
  }

  Receiver-ack :
      (dest : ℕ) (f : MiptpFrame)
      → IsAck waits f
      → Receiver before received base waits ack (queue ++ (dest, f) ∷ []) buffer written
  Receiver-ack dest f c = record {
    xs = v.xs ++ some waits ∷ [];
    ack = v.ack;
    way = BackWay-ack v.xs queue dest waits f c v.way;
    order = AckOrder-ack base waits v.xs v.ahead v.order;
    ahead = v.ahead;
    given = v.given;
  }

  Receiver-write :
      (buffer' written' : List ℕ)
      → written' ++ buffer' ≡ written ++ buffer
      → Receiver before received base waits ack queue buffer' written'
  Receiver-write buffer' written' e = record {
    xs = v.xs;
    ack = v.ack;
    way = v.way;
    order = v.order;
    ahead = v.ahead;
    given = e ∙ v.given;
  }

-- What a write takes and what it leaves are the buffer.
take_then_left :
    (n : ℕ) (buf : List ℕ) → take n buf ++ (if ltb n (length buf) then drop n buf else []) ≡ buf
take_then_left n buf = elim (Bool-cases (ltb n (length buf))) [
  | inl some_left ↦ rw some_left (take-append-drop n buf)
  | inr nothing_left ↦
      rw nothing_left (append-nil (take n buf) ∙ take_all n buf (ltb-false→le _ _ nothing_left))
]

module _ (before received : List ℕ) (base waits : ℕ) where
  send_control-Receives :
      (type seq : ℕ) (c : ClientHandler)
      → (type ≡ request) ⊎ (type ≡ reply)
      → Receives before received base waits c
      → Receives before received base waits (send_control type seq c)
  unfolding send_control emplace
  send_control-Receives type seq c kind (v, side) =
      let f = control_frame type c.m_dest_port c.m_source_port seq in
      let t = (control_frame_lem type c.m_dest_port c.m_source_port seq).0 in
      (Receiver-control v c.m_dest_address f (control f t kind), side)
    where
      control :
          (f : MiptpFrame) → get_type f ≡ type % 4 → (type ≡ request) ⊎ (type ≡ reply) → IsControl f
      control f t (inl e) = inl (omega (arith, t, e))
      control f t (inr e) = inr (omega (arith, t, e))

  pub queue_ack-Receives :
      (c : ClientHandler)
      → Receives before received base waits c
      → Receives before received base waits (queue_ack c)
  unfolding queue_ack send_control emplace
  queue_ack-Receives c (v, side) =
      let r = control_frame_lem sack c.m_dest_port c.m_source_port c.m_current_ack in
      (
        Receiver-ack v c.m_dest_address
            (control_frame sack c.m_dest_port c.m_source_port c.m_current_ack)
            (r.0, omega (arith, r.1, v.ack)),
        side,
      )

  write_buffer-Receives :
      (buf : List ℕ) (c : ClientHandler)
      → c.m_msg_buffer ≡ buf
      → Receives before received base waits c
      → Receives before received base waits (after (write_buffer buf c))
  unfolding write_buffer sock_write
  write_buffer-Receives [] c e v = v
  write_buffer-Receives (b ∷ bs) c e (v, side) =
      go (write (b ∷ bs) c.m_sock).0 (write (b ∷ bs) c.m_sock).1 (write-WroteNext (b ∷ bs) c.m_sock)
    where
      store : ℕ → M ClientHandler Unit
      store ret d = (
        ok tt,
        record d {
          m_msg_buffer = if ltb ret (length d.m_msg_buffer) then drop ret d.m_msg_buffer else [];
        },
      )

      go :
          (r : Outcome ℕ) (s : AnonymousSocket)
          → WroteNext (b ∷ bs) c.m_sock.written (r, s)
          → Receives before received base waits
              (after (continue store (r, record c { m_sock = s })))
      go (ok n) s w = (
        Receiver-write v (if ltb n (length c.m_msg_buffer) then drop n c.m_msg_buffer else [])
            s.written
            (ap (λ l. l ++ (if ltb n (length c.m_msg_buffer) then drop n c.m_msg_buffer else []))
                (w ∙ ap (λ l. c.m_sock.written ++ take n l) (sym e))
              ∙ append_assoc c.m_sock.written (take n c.m_msg_buffer)
                  (if ltb n (length c.m_msg_buffer) then drop n c.m_msg_buffer else [])
              ∙ ap (λ l. c.m_sock.written ++ l) (take_then_left n c.m_msg_buffer)),
        side,
      )
      go (throw x) s w =
          (Receiver-write v c.m_msg_buffer s.written (ap (λ l. l ++ c.m_msg_buffer) w), side)

  failed-Receives :
      (c : ClientHandler)
      → Receives before received base waits c
      → Receives before received base waits (set_stage stage_failure c)
  unfolding set_stage
  failed-Receives c (v, (type, stage)) = (v, (type, inr refl))

  catching_pipe-Receives :
      (r : Outcome Unit × ClientHandler)
      → Receives before received base waits (after r)
      → Receives before received base waits (after (catching_pipe r))
  unfolding catching_pipe
  catching_pipe-Receives (ok _, c) v = v
  catching_pipe-Receives (throw would_block, c) v = v
  catching_pipe-Receives (throw broken_pipe, c) v = failed-Receives c v
  catching_pipe-Receives (throw timeout, c) v = v
  catching_pipe-Receives (throw interrupted, c) v = v
  catching_pipe-Receives (throw error, c) v = v
  catching_pipe-Receives (throw assertion, c) v = v

  send_to_sock-Receives :
      (c : ClientHandler)
      → Receives before received base waits c
      → Receives before received base waits (after (send_to_sock c))
  unfolding send_to_sock
  send_to_sock-Receives c v =
      catching_pipe-Receives _ (write_buffer-Receives c.m_msg_buffer c refl v)

  check_connection-Receives :
      (c : ClientHandler)
      → Receives before received base waits c
      → Receives before received base waits (check_connection c)
  unfolding check_connection
  check_connection-Receives c v = elim (Bool-cases c.m_connected_reply) [
    | inl alive ↦ rw alive (send_control-Receives request 0 c (inl refl) v)
    | inr silent ↦ rw silent (failed-Receives c v)
  ]

  pub receive_keepalive-Receives :
      (type : ℕ) (c : ClientHandler)
      → Receives before received base waits c
      → Receives before received base waits (receive_keepalive type c)
  unfolding receive_keepalive
  receive_keepalive-Receives type c v = elim (Bool-cases (type == request)) [
    | inl asked ↦ rw asked (send_control-Receives reply 0 c (inr refl) v)
    | inr other ↦ elim (Bool-cases (type == reply)) [
      | inl replied ↦ rw (other, replied) v
      | inr else_ ↦ rw (other, else_) v
    ]
  ]

  -- What the socket of the application brings.
  pub handle_sock-Receives :
      (is_port_free : ℕ → Bool) (free_port : ℕ) (c : ClientHandler)
      → Receives before received base waits c
      → Receives before received base waits (after (handle_sock is_port_free free_port c))
  unfolding handle_sock handle_sock_at handle_transfer
  handle_sock-Receives is_port_free free_port c (v, (type, inl stage)) =
      subst
        (λ s.
          Receives before received base waits (after (handle_sock_at s is_port_free free_port c)))
        (sym stage)
        (subst (λ t. Receives before received base waits (after (handle_transfer t c))) (sym type)
          (send_to_sock-Receives c (v, (type, inl stage))))
  handle_sock-Receives is_port_free free_port c (v, (type, inr stage)) =
      subst
        (λ s.
          Receives before received base waits (after (handle_sock_at s is_port_free free_port c)))
        (sym stage) (v, (type, inr stage))

  timer_traffic-Receives :
      (c : ClientHandler)
      → Receives before received base waits c
      → Receives before received base waits (after (timer_traffic c.m_type c))
  unfolding timer_traffic
  timer_traffic-Receives c (v, (type, stage)) =
      subst (λ t. Receives before received base waits (after (timer_traffic t c))) (sym type)
        (send_to_sock-Receives (queue_ack c) (queue_ack-Receives c (v, (type, stage))))

  timer_connected-Receives :
      (is_port_free : ℕ → Bool) (free_port : ℕ) (c : ClientHandler)
      → Receives before received base waits c
      → Receives before received base waits
          (after (timer_at stage_connected is_port_free free_port c))
  unfolding timer_at
  timer_connected-Receives is_port_free free_port c v =
      continue-after (Receives before received base waits) _ _
        (continue-after (Receives before received base waits) _
          (handle_sock is_port_free free_port c) (handle_sock-Receives is_port_free free_port c v)
          (λ _. timer_traffic-Receives))
        (λ _. check_connection-Receives)

  timer_at-Receives :
      (is_port_free : ℕ → Bool) (free_port : ℕ) (c : ClientHandler)
      → Receives before received base waits c
      → Receives before received base waits (after (timer_at c.m_stage is_port_free free_port c))
  unfolding timer_at
  timer_at-Receives is_port_free free_port c (v, (type, inl stage)) =
      subst (λ s. Receives before received base waits (after (timer_at s is_port_free free_port c)))
        (sym stage) (timer_connected-Receives is_port_free free_port c (v, (type, inl stage)))
  timer_at-Receives is_port_free free_port c (v, (type, inr stage)) =
      subst (λ s. Receives before received base waits (after (timer_at s is_port_free free_port c)))
        (sym stage) (v, (type, inr stage))

  -- What an expired timer does.
  pub handle_timer-Receives :
      (is_port_free : ℕ → Bool) (free_port : ℕ) (c : ClientHandler)
      → Receives before received base waits c
      → Receives before received base waits (after (handle_timer is_port_free free_port c))
  unfolding handle_timer
  handle_timer-Receives is_port_free free_port c v =
      continue-after (Receives before received base waits) _
        (timer_at c.m_stage is_port_free free_port c) (timer_at-Receives is_port_free free_port c v)
        (λ _ d w. arm_timer-keeps (Receives before received base waits) (λ e t u. u) d w)
