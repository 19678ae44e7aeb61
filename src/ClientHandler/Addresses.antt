-- ===== src/ClientHandler/Addresses.antt =====
-- Which handlers of src/ClientHandler.cpp leave the addresses and the ports as they are.
use miptp_cpp.Prelude.{
  ◌||◌, ℕ, zero, suc, ◌+◌, ◌%◌, inl, inr, Option, none, some, List, [], ◌∷◌, ltb, ◌==◌, ◌&&◌,
  Bool-cases, get_elem?,
}
use miptp_cpp.Outcome.{
  ok, throw, Outcome, continue-after, after, would_block, broken_pipe, timeout, interrupted, error,
  assertion,
}
use miptp_cpp.MiptpFrame.{
  MiptpFrame, get_type, get_source, get_sequence_number, request, reply, sack, data_packet,
}
use miptp_cpp.CrossIpc.{is_closed}
use miptp_cpp.TimerWrapper.{Timespec, ms_to_timespec}
use miptp_cpp.ClientHandler.{
  arm_timer, move_window, seq_inside_window, calc_moves, sequence_size, ClientHandler, ClientType,
  type_null, type_client, type_server, window_size, send_control, emplace, queue_ack, queue_window,
  sock_read, sock_write, set_stage,
}
use miptp_cpp.ClientHandler.Handlers.{
  load_slot, load_frame, load_loop, catching_load, load_frames, write_buffer, catching_pipe,
  send_to_sock, handle_transfer,
}
use miptp_cpp.ClientHandler.Receive.{
  receive_sack, timer_traffic, check_connection, receive_data, receive_by_type, receive_keepalive,
  receive_connected,
}

pub arm_timer-keeps :
    (P : ClientHandler → Type 0)
    → ((c : ClientHandler) (t : Option Timespec) → P c → P (record c { m_timer = t }))
    → (c : ClientHandler) → P c
    → P (after (arm_timer c))
unfolding arm_timer
arm_timer-keeps P keep c v =
    elim (ms_to_timespec c.m_timeout)
      as (λ o. P (
        after {A = Unit} (elim o [
          | none ↦ (throw assertion, c)
          | some t ↦ (ok tt, record c { m_timer = some t })
        ]))) [ none ↦ v | some t ↦ keep c (some t) v ]

-- What holds of the peer's address and port and of the own port.
abbrev pub Addressed : (ℕ → ℕ → ℕ → Type 0) → ClientHandler → Type 0
Addressed H c = H c.m_dest_address c.m_dest_port c.m_source_port

module _ (H : ℕ → ℕ → ℕ → Type 0) where
  abbrev Here : ClientHandler → Type 0
  Here = Addressed H

  load_slot-Addressed :
      (o : Option MiptpFrame) (c : ClientHandler) → Here c → Here (after (load_slot o c))
  unfolding load_slot sock_read
  load_slot-Addressed none c v = v
  load_slot-Addressed (some frame) c v = continue-after Here _ _ (v) (λ _ d w. w)

  load_loop-Addressed : (fuel : ℕ) (c : ClientHandler) → Here c → Here (after (load_loop fuel c))
  unfolding load_loop load_frame
  load_loop-Addressed zero c v = v
  load_loop-Addressed (suc fuel) c v = elim (Bool-cases (ltb c.m_used_slots window_size)) [
    | inl room ↦
        rw (room, load_loop)
          (continue-after Here _ (load_frame c)
            (load_slot-Addressed (get_elem? c.m_frame_window c.m_used_slots) c v)
            (λ _. load_loop-Addressed fuel))
    | inr full ↦ rw (full, load_loop) v
  ]

  catching_load-Addressed :
      (r : Outcome Unit × ClientHandler) → Here (after r) → Here (after (catching_load r))
  unfolding catching_load set_stage
  catching_load-Addressed (ok _, c) v = v
  catching_load-Addressed (throw would_block, c) v = v
  catching_load-Addressed (throw broken_pipe, c) v = elim (Bool-cases (c.m_used_slots == 0)) [
    | inl none_used ↦ rw none_used v
    | inr some_used ↦ rw some_used v
  ]
  catching_load-Addressed (throw timeout, c) v = v
  catching_load-Addressed (throw interrupted, c) v = v
  catching_load-Addressed (throw error, c) v = v
  catching_load-Addressed (throw assertion, c) v = v

  pub catching_pipe-Addressed :
      (r : Outcome Unit × ClientHandler) → Here (after r) → Here (after (catching_pipe r))
  unfolding catching_pipe set_stage
  catching_pipe-Addressed (ok _, c) v = v
  catching_pipe-Addressed (throw would_block, c) v = v
  catching_pipe-Addressed (throw broken_pipe, c) v = v
  catching_pipe-Addressed (throw timeout, c) v = v
  catching_pipe-Addressed (throw interrupted, c) v = v
  catching_pipe-Addressed (throw error, c) v = v
  catching_pipe-Addressed (throw assertion, c) v = v

  pub write_buffer-Addressed :
      (buf : List ℕ) (c : ClientHandler) → Here c → Here (after (write_buffer buf c))
  unfolding write_buffer sock_write
  write_buffer-Addressed [] c v = v
  write_buffer-Addressed (b ∷ bs) c v = continue-after Here _ (sock_write (b ∷ bs) c) v (λ _ d w. w)

  pub send_to_sock-Addressed : (c : ClientHandler) → Here c → Here (after (send_to_sock c))
  unfolding send_to_sock
  send_to_sock-Addressed c v =
      catching_pipe-Addressed (write_buffer c.m_msg_buffer c)
        (write_buffer-Addressed c.m_msg_buffer c v)

  pub handle_transfer-Addressed :
      (type : ClientType) (c : ClientHandler) → Here c → Here (after (handle_transfer type c))
  unfolding handle_transfer load_frames
  handle_transfer-Addressed type_server c v = send_to_sock-Addressed c v
  handle_transfer-Addressed type_client c v = elim (Bool-cases (is_closed c.m_sock)) [
    | inl closed ↦ rw closed v
    | inr up ↦
        rw up
          (catching_load-Addressed (load_loop window_size c) (load_loop-Addressed window_size c v))
  ]
  handle_transfer-Addressed type_null c v = v

  pub timer_traffic-Addressed :
      (type : ClientType) (c : ClientHandler) → Here c → Here (after (timer_traffic type c))
  unfolding timer_traffic queue_ack send_control emplace queue_window
  timer_traffic-Addressed type_server c v = send_to_sock-Addressed (queue_ack c) v
  timer_traffic-Addressed type_client c v = v
  timer_traffic-Addressed type_null c v = v

  pub check_connection-Addressed : (c : ClientHandler) → Here c → Here (check_connection c)
  unfolding check_connection send_control emplace set_stage
  check_connection-Addressed c v = elim (Bool-cases c.m_connected_reply) [
    | inl alive ↦ rw alive v
    | inr silent ↦ rw silent v
  ]

  receive_keepalive-Addressed :
      (type : ℕ) (c : ClientHandler) → Here c → Here (receive_keepalive type c)
  unfolding receive_keepalive send_control emplace
  receive_keepalive-Addressed type c v = elim (Bool-cases (type == request)) [
    | inl asked ↦ rw asked v
    | inr other ↦ elim (Bool-cases (type == reply)) [
      | inl replied ↦ rw (other, replied) v
      | inr else_ ↦ rw (other, else_) v
    ]
  ]

  move_window-Addressed : (moves : ℕ) (c : ClientHandler) → Here c → Here (move_window moves c)
  unfolding move_window
  move_window-Addressed moves c v = elim (Bool-cases (ltb 0 moves)) [
    | inl some_moves ↦ rw some_moves v
    | inr no_moves ↦ rw no_moves v
  ]

  receive_sack-Addressed : (seq : ℕ) (c : ClientHandler) → Here c → Here (receive_sack seq c)
  unfolding receive_sack queue_window
  receive_sack-Addressed seq c v =
      elim (Bool-cases
        (seq_inside_window seq c || (seq == (c.m_sequence_base + window_size) % sequence_size))) [
          | inl taken ↦ elim (Bool-cases (seq == c.m_sequence_base)) [
            | inl at_base ↦ rw (taken, at_base) v
            | inr ahead ↦ rw (taken, ahead) (move_window-Addressed (calc_moves seq c) c v)
          ]
          | inr dropped ↦ rw dropped v
        ]

  receive_by_type-Addressed :
      (type : ClientType) (upper : ℕ) (f : MiptpFrame) (c : ClientHandler)
      → Here c
      → Here (receive_by_type type upper f c)
  unfolding receive_by_type receive_data queue_ack send_control emplace
  receive_by_type-Addressed type_server upper f c v =
      elim (Bool-cases (get_type f == data_packet)) [
        | inl data_frame ↦ elim (Bool-cases (get_sequence_number upper f == c.m_current_ack)) [
          | inl next ↦ rw (data_frame, next) v
          | inr other ↦ rw (data_frame, other) v
        ]
        | inr other ↦ rw other v
      ]
  receive_by_type-Addressed type_client upper f c v = elim (Bool-cases (get_type f == sack)) [
    | inl is_ack ↦ rw is_ack (receive_sack-Addressed (get_sequence_number upper f) c v)
    | inr other ↦ rw other v
  ]
  receive_by_type-Addressed type_null upper f c v = v

  pub receive_connected-Addressed :
      (upper source : ℕ) (f : MiptpFrame) (c : ClientHandler)
      → Here c
      → Here (receive_connected upper source f c)
  unfolding receive_connected
  receive_connected-Addressed upper source f c v =
      elim (Bool-cases (source == c.m_dest_address && get_source f == c.m_dest_port)) [
        | inl ours ↦ rw ours (
            receive_keepalive-Addressed (get_type f) (receive_by_type c.m_type upper f c)
              (receive_by_type-Addressed c.m_type upper f c v))
        | inr foreign ↦ rw foreign v
      ]
