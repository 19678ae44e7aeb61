-- ===== src/Connection/Sender/Handlers.antt =====
-- The handlers of src/ClientHandler.cpp at the sending end.
use miptp_cpp.Prelude.{
  ℕ, ◌%◌, ◌≡◌, ◌⊎◌, inl, inr, refl, sym, subst, Bool, List, ◌==◌, Bool-cases, arith,
}
use miptp_cpp.Outcome.{continue-after, after}
use miptp_cpp.MiptpFrame.{MiptpFrame, get_type, request, reply}
use miptp_cpp.ClientHandler.Addresses.{arm_timer-keeps}
use miptp_cpp.ClientHandler.{
  ClientHandler, stage_connected, control_frame, emplace, send_control, queue_window,
}
use miptp_cpp.ClientHandler.Handlers.{handle_transfer, handle_sock_at, handle_sock}
use miptp_cpp.ClientHandler.Receive.{
  timer_traffic, check_connection, timer_at, handle_timer, receive_keepalive,
}
use miptp_cpp.Connection.Fill.{control_frame_lem}
use miptp_cpp.Connection.Data.{IsControl}
use miptp_cpp.Connection.Sender.{Sends, Sender-control, Sender-resend}
use miptp_cpp.Connection.Sender.Loading.{load_frames-Sends, failed-Sends}

module _ (stream received : List ℕ) (base waits : ℕ) where
  send_control-Sends :
      (type seq : ℕ) (c : ClientHandler)
      → (type ≡ request) ⊎ (type ≡ reply)
      → Sends stream received base waits c
      → Sends stream received base waits (send_control type seq c)
  unfolding send_control emplace
  send_control-Sends type seq c kind (v, side) =
      let f = control_frame type c.m_dest_port c.m_source_port seq in
      let t = (control_frame_lem type c.m_dest_port c.m_source_port seq).0 in
      (Sender-control v c.m_dest_address f (control f t kind), side)
    where
      control :
          (f : MiptpFrame) → get_type f ≡ type % 4 → (type ≡ request) ⊎ (type ≡ reply) → IsControl f
      control f t (inl e) = inl (omega (arith, t, e))
      control f t (inr e) = inr (omega (arith, t, e))

  queue_window-Sends :
      (c : ClientHandler)
      → Sends stream received base waits c
      → Sends stream received base waits (queue_window c)
  unfolding queue_window
  queue_window-Sends c (v, side) = (Sender-resend v c.m_dest_address, side)

  check_connection-Sends :
      (c : ClientHandler)
      → Sends stream received base waits c
      → Sends stream received base waits (check_connection c)
  unfolding check_connection
  check_connection-Sends c v = elim (Bool-cases c.m_connected_reply) [
    | inl alive ↦ rw alive (send_control-Sends request 0 c (inl refl) v)
    | inr silent ↦ rw silent (failed-Sends stream received base waits c v)
  ]

  pub receive_keepalive-Sends :
      (type : ℕ) (c : ClientHandler)
      → Sends stream received base waits c
      → Sends stream received base waits (receive_keepalive type c)
  unfolding receive_keepalive
  receive_keepalive-Sends type c v = elim (Bool-cases (type == request)) [
    | inl asked ↦ rw asked (send_control-Sends reply 0 c (inr refl) v)
    | inr other ↦ elim (Bool-cases (type == reply)) [
      | inl replied ↦ rw (other, replied) v
      | inr else_ ↦ rw (other, else_) v
    ]
  ]

  -- What the socket of the application brings.
  pub handle_sock-Sends :
      (is_port_free : ℕ → Bool) (free_port : ℕ) (c : ClientHandler)
      → Sends stream received base waits c
      → Sends stream received base waits (after (handle_sock is_port_free free_port c))
  unfolding handle_sock handle_sock_at handle_transfer
  handle_sock-Sends is_port_free free_port c (v, (type, inl stage)) =
      subst
        (λ s. Sends stream received base waits (after (handle_sock_at s is_port_free free_port c)))
        (sym stage)
        (subst (λ t. Sends stream received base waits (after (handle_transfer t c))) (sym type)
          (load_frames-Sends stream received base waits c (v, (type, inl stage))))
  handle_sock-Sends is_port_free free_port c (v, (type, inr stage)) =
      subst
        (λ s. Sends stream received base waits (after (handle_sock_at s is_port_free free_port c)))
        (sym stage) (v, (type, inr stage))

  timer_traffic-Sends :
      (c : ClientHandler)
      → Sends stream received base waits c
      → Sends stream received base waits (after (timer_traffic c.m_type c))
  unfolding timer_traffic
  timer_traffic-Sends c (v, (type, stage)) =
      subst (λ t. Sends stream received base waits (after (timer_traffic t c))) (sym type)
        (queue_window-Sends c (v, (type, stage)))

  timer_connected-Sends :
      (is_port_free : ℕ → Bool) (free_port : ℕ) (c : ClientHandler)
      → Sends stream received base waits c
      → Sends stream received base waits (after (timer_at stage_connected is_port_free free_port c))
  unfolding timer_at
  timer_connected-Sends is_port_free free_port c v =
      continue-after (Sends stream received base waits) _ _
        (continue-after (Sends stream received base waits) _ (handle_sock is_port_free free_port c)
          (handle_sock-Sends is_port_free free_port c v) (λ _. timer_traffic-Sends))
        (λ _. check_connection-Sends)

  timer_at-Sends :
      (is_port_free : ℕ → Bool) (free_port : ℕ) (c : ClientHandler)
      → Sends stream received base waits c
      → Sends stream received base waits (after (timer_at c.m_stage is_port_free free_port c))
  unfolding timer_at
  timer_at-Sends is_port_free free_port c (v, (type, inl stage)) =
      subst (λ s. Sends stream received base waits (after (timer_at s is_port_free free_port c)))
        (sym stage) (timer_connected-Sends is_port_free free_port c (v, (type, inl stage)))
  timer_at-Sends is_port_free free_port c (v, (type, inr stage)) =
      subst (λ s. Sends stream received base waits (after (timer_at s is_port_free free_port c)))
        (sym stage) (v, (type, inr stage))

  -- What an expired timer does.
  pub handle_timer-Sends :
      (is_port_free : ℕ → Bool) (free_port : ℕ) (c : ClientHandler)
      → Sends stream received base waits c
      → Sends stream received base waits (after (handle_timer is_port_free free_port c))
  unfolding handle_timer
  handle_timer-Sends is_port_free free_port c v =
      continue-after (Sends stream received base waits) _
        (timer_at c.m_stage is_port_free free_port c) (timer_at-Sends is_port_free free_port c v)
        (λ _ d w. arm_timer-keeps (Sends stream received base waits) (λ e t u. u) d w)
