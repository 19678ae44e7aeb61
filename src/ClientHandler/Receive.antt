-- ===== src/ClientHandler/Receive.antt =====
-- `ClientHandler::handleTimer` and `ClientHandler::receiveFrame` of src/ClientHandler.cpp.
use miptp_cpp.Prelude.{
  ℕ, ◌+◌, ◌%◌, Bool, true, false, ◌||◌, ◌&&◌, [], ◌∷◌, ◌++◌, take, replicate, ◌==◌, if◌then◌else◌,
}
use miptp_cpp.Outcome.{broken_pipe, would_block, assertion, Outcome, ok, throw, M, continue}
use miptp_cpp.MiptpFrame.{
  MiptpFrame, empty_frame, get_type, get_source, get_sequence_number, get_msg_size, get_msg,
  request, reply, data_packet, sack,
}
use miptp_cpp.ClientHandler.{
  ClientType, type_null, type_server, type_client, ConnectStage, stage_listen, stage_wait_reply,
  stage_connected, stage_failure, ClientHandler, reply_success, reply_timeout, window_size,
  sequence_size, send_control, queue_ack, queue_window, move_window, seq_inside_window, calc_moves,
  sock_write, arm_timer, set_stage,
}
use miptp_cpp.ClientHandler.Handlers.{handle_sock, send_to_sock}

unfoldable pub timer_traffic : ClientType → M ClientHandler (Unit {0})
unfolding queue_ack send_to_sock queue_window
timer_traffic type_server c = send_to_sock (queue_ack c)
timer_traffic type_client c = (ok tt, queue_window c)
timer_traffic type_null c = (throw assertion, c)

-- No reply since the last expiration ends the connection; else the peer is asked again.
unfoldable pub check_connection : ClientHandler → ClientHandler
unfolding send_control set_stage
check_connection c =
    if c.m_connected_reply
    then record (send_control request 0 c) { m_connected_reply = false }
    else set_stage stage_failure c

unfoldable pub timer_at : ConnectStage → (ℕ → Bool) → ℕ → M ClientHandler (Unit {0})
unfolding timer_traffic check_connection sock_write set_stage handle_sock
timer_at stage_wait_reply is_port_free free_port c =
    continue (λ _ d. (ok tt, set_stage stage_failure d)) (sock_write (reply_timeout ∷ []) c)
timer_at stage_connected is_port_free free_port c =
    continue (λ _ d. (ok tt, check_connection d))
      (continue (λ _ d. timer_traffic d.m_type d) (handle_sock is_port_free free_port c))
timer_at _ is_port_free free_port c = (ok tt, c)

unfoldable pub handle_timer : (ℕ → Bool) → ℕ → M ClientHandler (Unit {0})
unfolding timer_at arm_timer
handle_timer is_port_free free_port c =
    continue (λ _. arm_timer) (timer_at c.m_stage is_port_free free_port c)

-- Tell the application; a write that blocks or finds the pipe broken fails the connection.
unfoldable pub catching_reply : Outcome ℕ × ClientHandler → Outcome Bool × ClientHandler
unfolding set_stage
catching_reply (ok n, c) = (ok true, c)
catching_reply (throw would_block, c) = (ok false, set_stage stage_failure c)
catching_reply (throw broken_pipe, c) = (ok false, set_stage stage_failure c)
catching_reply (throw e, c) = (throw e, c)

unfoldable pub reply_application : M ClientHandler Bool
unfolding catching_reply sock_write
reply_application c = catching_reply (sock_write (reply_success ∷ []) c)

unfoldable pub server_connected : Bool → M ClientHandler (Unit {0})
unfolding arm_timer set_stage
server_connected true c = continue (λ _ d. (ok tt, set_stage stage_connected d)) (arm_timer c)
server_connected false c = (ok tt, c)

unfoldable pub receive_listen : ℕ → MiptpFrame → M ClientHandler (Unit {0})
unfolding send_control reply_application server_connected
receive_listen source in_frame c =
    if get_type in_frame == request
    then continue server_connected (
        reply_application (
          send_control reply 0
            (record c { m_dest_address = source; m_dest_port = get_source in_frame })))
    else (ok tt, c)

unfoldable pub client_connected : Bool → M ClientHandler (Unit {0})
unfolding set_stage
client_connected true c = (
  ok tt,
  set_stage stage_connected (record c { m_frame_window = replicate window_size empty_frame }),
)
client_connected false c = (ok tt, c)

unfoldable pub receive_wait_reply : MiptpFrame → M ClientHandler (Unit {0})
unfolding reply_application client_connected
receive_wait_reply in_frame c =
    if get_type in_frame == reply
    then continue client_connected (reply_application c)
    else (ok tt, c)

-- The server takes the frame that it waits for, and answers any other data with its last ack.
unfoldable pub receive_data : ℕ → MiptpFrame → ClientHandler → ClientHandler
unfolding queue_ack
receive_data upper in_frame c =
    if get_sequence_number upper in_frame == c.m_current_ack
    then record c {
      m_current_ack = (c.m_current_ack + 1) % sequence_size;
      m_msg_buffer = c.m_msg_buffer ++ take (get_msg_size in_frame) (get_msg in_frame);
      m_total_data_received = c.m_total_data_received + get_msg_size in_frame;
    }
    else queue_ack c

-- The client moves the window up to an ack inside it or just behind it, and sends the window.
unfoldable pub receive_sack : ℕ → ClientHandler → ClientHandler
unfolding move_window seq_inside_window calc_moves queue_window
receive_sack seq c =
    if seq_inside_window seq c || (seq == (c.m_sequence_base + window_size) % sequence_size)
    then queue_window (if seq == c.m_sequence_base then c else move_window (calc_moves seq c) c)
    else c

unfoldable pub receive_by_type : ClientType → ℕ → MiptpFrame → ClientHandler → ClientHandler
unfolding receive_data receive_sack
receive_by_type type_server upper in_frame c =
    if get_type in_frame == data_packet then receive_data upper in_frame c else c
receive_by_type type_client upper in_frame c =
    if get_type in_frame == sack then receive_sack (get_sequence_number upper in_frame) c else c
receive_by_type type_null upper in_frame c = c

-- A request is answered, and it shows as well as a reply that the peer is there.
unfoldable pub receive_keepalive : ℕ → ClientHandler → ClientHandler
unfolding send_control
receive_keepalive frame_type c =
    if frame_type == request
    then record (send_control reply 0 c) { m_connected_reply = true }
    else if frame_type == reply
    then record c { m_connected_reply = true }
    else c

-- A frame from elsewhere is dropped.
unfoldable pub receive_connected : ℕ → ℕ → MiptpFrame → ClientHandler → ClientHandler
unfolding receive_by_type receive_keepalive
receive_connected upper source in_frame c =
    if source == c.m_dest_address && get_source in_frame == c.m_dest_port
    then receive_keepalive (get_type in_frame) (receive_by_type c.m_type upper in_frame c)
    else c

unfoldable pub receive_at : ConnectStage → ℕ → ℕ → MiptpFrame → M ClientHandler (Unit {0})
unfolding receive_listen receive_wait_reply receive_connected
receive_at stage_listen upper source in_frame c = receive_listen source in_frame c
receive_at stage_wait_reply upper source in_frame c = receive_wait_reply in_frame c
receive_at stage_connected upper source in_frame c =
    (ok tt, receive_connected upper source in_frame c)
receive_at _ upper source in_frame c = (ok tt, c)

-- `upper` is what `getSequenceNumber` leaves in the two high bytes of its result.
unfoldable pub receive_frame : ℕ → ℕ → MiptpFrame → M ClientHandler (Unit {0})
unfolding receive_at
receive_frame upper source in_frame c = receive_at c.m_stage upper source in_frame c
