-- ===== src/ClientHandler/Slots/Frames.antt =====
-- `receiveFrame` of src/ClientHandler.cpp keeps the slots in order, and so do all handlers.
use miptp_cpp.Prelude.{
  ℕ, ◌+◌, ◌%◌, ◌≡◌, refl, Bool, true, false, List, [], ◌∷◌, length, length-append, length-take,
  length-drop, take, drop, ltb, length-replicate, ◌||◌, ◌&&◌, ◌==◌, Bool-cases, inl, inr, arith,
}
use miptp_cpp.Outcome.{
  ok, throw, Outcome, after, would_block, broken_pipe, timeout, interrupted, error, assertion,
}
use miptp_cpp.MiptpFrame.{
  MiptpFrame, request, reply, sack, data_packet, empty_frame, get_type, get_source,
  get_sequence_number,
}
use miptp_cpp.ClientHandler.Slots.Sock.{handle_sock-Keeps}
use miptp_cpp.ClientHandler.{
  ClientHandler, ClientType, type_null, type_server, type_client, ConnectStage, stage_application,
  stage_listen, stage_wait_reply, stage_connected, stage_failure, reply_success, window_size,
  sequence_size, send_control, rotate, move_window, seq_inside_window, calc_moves, arm_timer,
  set_stage,
}
use miptp_cpp.ClientHandler.Handlers.{handle_sock}
use miptp_cpp.ClientHandler.Receive.{
  handle_timer, catching_reply, reply_application, server_connected, receive_listen,
  client_connected, receive_wait_reply, receive_data, receive_sack, receive_by_type,
  receive_keepalive, receive_connected, receive_at, receive_frame,
}
use miptp_cpp.ClientHandler.Slots.{
  IsClient, Keeps, continue-IsClient, same, sock_write-Keeps, set_stage-IsClient,
  send_control-IsClient, arm_timer-Keeps,
}
use miptp_cpp.ClientHandler.Slots.{queue_ack-IsClient, queue_window-IsClient}
use miptp_cpp.ClientHandler.Slots.Timer.{handle_timer-Keeps}

length-rotate : {A : Type 0} (n : ℕ) (xs : List A) → length (rotate n xs) ≡ length xs
length-rotate n xs =
    omega (arith, length-append (drop n xs) (take n xs), length-drop n xs, length-take n xs)

move_window-IsClient : (moves : ℕ) (c : ClientHandler) → IsClient c → IsClient (move_window moves c)
unfolding move_window
move_window-IsClient moves c v = elim (Bool-cases (ltb 0 moves)) [
  | inl e ↦ rw e (record {
    window = ground (arith, v.window);
    frames = ground (arith, v.frames, length-rotate moves c.m_frame_window);
    base = omega arith;
    ack = v.ack;
  })
  | inr e ↦ rw e v
]

catching_reply-IsClient :
    (r : Outcome ℕ × ClientHandler) → IsClient (after r) → IsClient (after (catching_reply r))
unfolding catching_reply
catching_reply-IsClient (ok _, c) v = v
catching_reply-IsClient (throw would_block, c) v = set_stage-IsClient stage_failure c v
catching_reply-IsClient (throw broken_pipe, c) v = set_stage-IsClient stage_failure c v
catching_reply-IsClient (throw timeout, c) v = v
catching_reply-IsClient (throw interrupted, c) v = v
catching_reply-IsClient (throw error, c) v = v
catching_reply-IsClient (throw assertion, c) v = v

reply_application-Keeps : Keeps reply_application
unfolding reply_application
reply_application-Keeps c v = catching_reply-IsClient _ (sock_write-Keeps (reply_success ∷ []) c v)

server_connected-Keeps : (told : Bool) → Keeps (server_connected told)
unfolding server_connected
server_connected-Keeps true c v =
    continue-IsClient _ (arm_timer c) (arm_timer-Keeps c v)
      (λ _. set_stage-IsClient stage_connected)
server_connected-Keeps false c v = v

client_connected-Keeps : (told : Bool) → Keeps (client_connected told)
unfolding client_connected set_stage
client_connected-Keeps true c v = record {
  window = v.window;
  frames = omega (arith, v.window, length-replicate window_size empty_frame);
  base = v.base;
  ack = v.ack;
}
client_connected-Keeps false c v = v

receive_listen-Keeps : (source : ℕ) (in_frame : MiptpFrame) → Keeps (receive_listen source in_frame)
unfolding receive_listen
receive_listen-Keeps source in_frame c v = elim (Bool-cases (get_type in_frame == request)) [
  | inl e ↦ rw e (
      let d = record c { m_dest_address = source; m_dest_port = get_source in_frame } in
      continue-IsClient _ (reply_application (send_control reply 0 d))
        (reply_application-Keeps _
          (send_control-IsClient reply 0 d (same c d v refl refl refl refl)))
        server_connected-Keeps)
  | inr e ↦ rw e v
]

receive_wait_reply-Keeps : (in_frame : MiptpFrame) → Keeps (receive_wait_reply in_frame)
unfolding receive_wait_reply
receive_wait_reply-Keeps in_frame c v = elim (Bool-cases (get_type in_frame == reply)) [
  | inl e ↦ rw e (
      continue-IsClient _ (reply_application c) (reply_application-Keeps c v)
        client_connected-Keeps)
  | inr e ↦ rw e v
]

receive_data-IsClient :
    (upper : ℕ) (in_frame : MiptpFrame) (c : ClientHandler)
    → IsClient c
    → IsClient (receive_data upper in_frame c)
unfolding receive_data
receive_data-IsClient upper in_frame c v =
    elim (Bool-cases (get_sequence_number upper in_frame == c.m_current_ack)) [
      | inl e ↦
          rw e (record { window = v.window; frames = v.frames; base = v.base; ack = omega arith })
      | inr e ↦ rw e (queue_ack-IsClient c v)
    ]

pub receive_sack-IsClient :
    (seq : ℕ) (c : ClientHandler) → IsClient c → IsClient (receive_sack seq c)
unfolding receive_sack
receive_sack-IsClient seq c v =
    elim (Bool-cases
      (seq_inside_window seq c || (seq == (c.m_sequence_base + window_size) % sequence_size))) [
        | inl e ↦ rw e (
            queue_window-IsClient _ (elim (Bool-cases (seq == c.m_sequence_base)) [
              | inl at_base ↦ rw at_base v
              | inr ahead ↦ rw ahead (move_window-IsClient (calc_moves seq c) c v)
            ]))
        | inr e ↦ rw e v
      ]

receive_by_type-IsClient :
    (type : ClientType) (upper : ℕ) (in_frame : MiptpFrame) (c : ClientHandler)
    → IsClient c
    → IsClient (receive_by_type type upper in_frame c)
unfolding receive_by_type
receive_by_type-IsClient type_server upper in_frame c v =
    elim (Bool-cases (get_type in_frame == data_packet)) [
      | inl e ↦ rw e (receive_data-IsClient upper in_frame c v)
      | inr e ↦ rw e v
    ]
receive_by_type-IsClient type_client upper in_frame c v =
    elim (Bool-cases (get_type in_frame == sack)) [
      | inl e ↦ rw e (receive_sack-IsClient (get_sequence_number upper in_frame) c v)
      | inr e ↦ rw e v
    ]
receive_by_type-IsClient type_null upper in_frame c v = v

receive_keepalive-IsClient :
    (frame_type : ℕ) (c : ClientHandler) → IsClient c → IsClient (receive_keepalive frame_type c)
unfolding receive_keepalive
receive_keepalive-IsClient frame_type c v = elim (Bool-cases (frame_type == request)) [
  | inl e ↦
      rw e (same (send_control reply 0 c) _ (send_control-IsClient reply 0 c v) refl refl refl refl)
  | inr e ↦ rw e (elim (Bool-cases (frame_type == reply)) [
    | inl f ↦ rw f (same c _ v refl refl refl refl)
    | inr f ↦ rw f v
  ])
]

receive_connected-IsClient :
    (upper source : ℕ) (in_frame : MiptpFrame) (c : ClientHandler)
    → IsClient c
    → IsClient (receive_connected upper source in_frame c)
unfolding receive_connected
receive_connected-IsClient upper source in_frame c v =
    elim (Bool-cases (source == c.m_dest_address && get_source in_frame == c.m_dest_port)) [
      | inl e ↦ rw e (
          receive_keepalive-IsClient (get_type in_frame) _
            (receive_by_type-IsClient c.m_type upper in_frame c v))
      | inr e ↦ rw e v
    ]

receive_at-Keeps :
    (stage : ConnectStage) (upper source : ℕ) (in_frame : MiptpFrame)
    → Keeps (receive_at stage upper source in_frame)
unfolding receive_at
receive_at-Keeps stage_listen upper source in_frame c v = receive_listen-Keeps source in_frame c v
receive_at-Keeps stage_wait_reply upper source in_frame c v = receive_wait_reply-Keeps in_frame c v
receive_at-Keeps stage_connected upper source in_frame c v =
    receive_connected-IsClient upper source in_frame c v
receive_at-Keeps stage_application upper source in_frame c v = v
receive_at-Keeps stage_failure upper source in_frame c v = v

-- A client's slots and sequence numbers stay in order whatever its socket, its timer or a frame
-- brings, also when the handler throws: no more slots are used than the window has, each used slot
-- has a frame, and the base and the ack are in the sequence space.
pub IsClient-invariant :
    (c : ClientHandler)
    → IsClient c
    → ((is_port_free : ℕ → Bool) (free_port : ℕ)
        → IsClient (after (handle_sock is_port_free free_port c)))
      × ((is_port_free : ℕ → Bool) (free_port : ℕ)
          → IsClient (after (handle_timer is_port_free free_port c)))
      × ((upper source : ℕ) (in_frame : MiptpFrame)
          → IsClient (after (receive_frame upper source in_frame c)))
unfolding receive_frame
IsClient-invariant c v = (
  λ is_port_free free_port. handle_sock-Keeps is_port_free free_port c v,
  λ is_port_free free_port. handle_timer-Keeps is_port_free free_port c v,
  λ upper source in_frame. receive_at-Keeps c.m_stage upper source in_frame c v,
)
