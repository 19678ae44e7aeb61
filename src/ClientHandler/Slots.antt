-- ===== src/ClientHandler/Slots.antt =====
-- The slots and the sequence numbers of src/ClientHandler.cpp, whatever happens to a client.
pub mod Load
pub mod Sock
pub mod Timer
pub mod Frames
use miptp_cpp.Prelude.{
  ℕ, zero, suc, ◌+◌, ◌-◌, ◌%◌, ◌≤◌, ◌<◌, ◌≡◌, refl, ap, sym, subst, Bool, true, false, Option, none,
  some, List, [], ◌∷◌, ◌++◌, length, length-append, length-set, length-take, length-drop, take,
  drop, set, get_elem?, min, ltb, ◌==◌, if◌then◌else◌, Bool-cases, inl, inr, arith,
}
use miptp_cpp.Outcome.{
  ok, throw, Outcome, M, ◌>>=◌, modify, continue, after, would_block, broken_pipe, timeout,
  interrupted, error, assertion,
}
use miptp_cpp.MiptpFrame.{MiptpFrame}
use miptp_cpp.MiptpFrame.{sack}
use miptp_cpp.TimerWrapper.{ms_to_timespec}
use miptp_cpp.ClientHandler.{
  ClientHandler, ClientType, type_null, type_server, type_client, ConnectStage, stage_application,
  stage_listen, stage_wait_reply, stage_connected, stage_failure, window_size, sequence_size,
  emplace, send_control, queue_ack, queue_window, rotate, move_window, seq_inside_window,
  calc_moves, sock_read, sock_write, arm_timer, set_stage,
}
use miptp_cpp.ClientHandler.Handlers.{
  load_slot, load_frame, load_loop, catching_load, load_frames, write_buffer, catching_pipe,
  send_to_sock, read_request, refuse_port, take_port, listen_request, read_dest_address,
  read_dest_port, request_connection, connect_request, application_request, handle_application,
  handle_transfer, handle_sock_at, handle_sock,
}
use miptp_cpp.ClientHandler.Receive.{
  timer_traffic, check_connection, timer_at, handle_timer, catching_reply, reply_application,
  server_connected, receive_listen, client_connected, receive_wait_reply, receive_data,
  receive_sack, receive_by_type, receive_keepalive, receive_connected, receive_at, receive_frame,
}

-- No more slots are used than the window has, each used one holds a frame, and the sequence numbers
-- are in the sequence space.
pub record IsClient (c : ClientHandler) : Type 0 where
  pub window : c.m_used_slots ≤ window_size
  pub frames : c.m_used_slots ≤ length c.m_frame_window
  pub base : c.m_sequence_base < sequence_size
  pub ack : c.m_current_ack < sequence_size

-- A method that keeps this, however it ends.
abbrev pub Keeps : {A : Type 0} → M ClientHandler A → Type 0
Keeps m = (c : ClientHandler) → IsClient c → IsClient (after (m c))

pub continue-IsClient :
    {A B : Type 0} (k : A → M ClientHandler B) (r : Outcome A × ClientHandler)
    → IsClient (after r)
    → ((a : A) → Keeps (k a))
    → IsClient (after (continue k r))
continue-IsClient k (ok a, c) v rest = rest a c v
continue-IsClient k (throw e, c) v rest = v

pub same :
    (c d : ClientHandler)
    → IsClient c
    → d.m_used_slots ≡ c.m_used_slots
    → d.m_frame_window ≡ c.m_frame_window
    → d.m_sequence_base ≡ c.m_sequence_base
    → d.m_current_ack ≡ c.m_current_ack
    → IsClient d
same c d v a b e f = record {
  window = omega (arith, v.window, a);
  frames = omega (arith, v.frames, a, ap length b);
  base = omega (arith, v.base, e);
  ack = omega (arith, v.ack, f);
}

pub sock_read-Keeps : (size : ℕ) → Keeps (sock_read size)
unfolding sock_read
sock_read-Keeps size c v = same c _ v refl refl refl refl

pub sock_write-Keeps : (buf : List ℕ) → Keeps (sock_write buf)
unfolding sock_write
sock_write-Keeps buf c v = same c _ v refl refl refl refl

pub set_stage-IsClient :
    (stage : ConnectStage) (c : ClientHandler) → IsClient c → IsClient (set_stage stage c)
unfolding set_stage
set_stage-IsClient stage c v = same c _ v refl refl refl refl

pub send_control-IsClient :
    (type seq : ℕ) (c : ClientHandler) → IsClient c → IsClient (send_control type seq c)
unfolding send_control emplace
send_control-IsClient type seq c v = same c _ v refl refl refl refl

pub arm_timer-Keeps : Keeps arm_timer
unfolding arm_timer
arm_timer-Keeps c v =
    elim (ms_to_timespec c.m_timeout)
      as (λ o. IsClient (
        after {A = Unit} (elim o [
          | none ↦ (throw assertion, c)
          | some t ↦ (ok tt, record c { m_timer = some t })
        ]))) [ none ↦ v | some t ↦ same c _ v refl refl refl refl ]

pub catching_pipe-IsClient :
    (r : Outcome Unit × ClientHandler) → IsClient (after r) → IsClient (after (catching_pipe r))
unfolding catching_pipe
catching_pipe-IsClient (ok _, c) v = v
catching_pipe-IsClient (throw would_block, c) v = v
catching_pipe-IsClient (throw broken_pipe, c) v = set_stage-IsClient stage_failure c v
catching_pipe-IsClient (throw timeout, c) v = v
catching_pipe-IsClient (throw interrupted, c) v = v
catching_pipe-IsClient (throw error, c) v = v
catching_pipe-IsClient (throw assertion, c) v = v

write_buffer-Keeps : (buf : List ℕ) → Keeps (write_buffer buf)
unfolding write_buffer
write_buffer-Keeps [] c v = v
write_buffer-Keeps (b ∷ bs) c v =
    continue-IsClient _ (sock_write (b ∷ bs) c) (sock_write-Keeps (b ∷ bs) c v)
      (λ ret d w. same d _ w refl refl refl refl)

pub send_to_sock-Keeps : Keeps send_to_sock
unfolding send_to_sock
send_to_sock-Keeps c v = catching_pipe-IsClient _ (write_buffer-Keeps c.m_msg_buffer c v)

pub queue_ack-IsClient : (c : ClientHandler) → IsClient c → IsClient (queue_ack c)
unfolding queue_ack
queue_ack-IsClient c v = send_control-IsClient sack c.m_current_ack c v

pub queue_window-IsClient : (c : ClientHandler) → IsClient c → IsClient (queue_window c)
unfolding queue_window
queue_window-IsClient c v = same c _ v refl refl refl refl
