-- ===== src/ClientHandler/Handlers.antt =====
-- The event handlers of src/ClientHandler.cpp: the socket, the timer and a frame from the network.
-- `try` blocks are the functions named `catching_…`.
use miptp_cpp.Prelude.{
  ℕ, zero, suc, ◌+◌, ◌%◌, Bool, true, false, Option, none, some, List, [], ◌∷◌, length, get_elem?,
  set, drop, ltb, ◌==◌, if◌then◌else◌,
}
use miptp_cpp.Outcome.{
  broken_pipe, would_block, error, assertion, Outcome, ok, throw, M, continue, ◌>>◌, return, raise,
  modify,
}
use miptp_cpp.MiptpFrame.{MiptpFrame, set_msg_size, get_msg_size, request, frame_max_msg_size}
use miptp_cpp.CrossIpc.{is_closed, le_value}
use miptp_cpp.ClientHandler.{
  ClientType, type_null, type_server, type_client, ConnectStage, stage_application, stage_listen,
  stage_wait_reply, stage_connected, stage_failure, ClientHandler, request_listen, request_connect,
  reply_usedport, window_size, sequence_size, send_control, fill_frame, sock_read, sock_write,
  arm_timer, set_stage,
}

pub is_type_null : ClientType → Bool
is_type_null type_null = true
is_type_null _ = false

-- One round of the loop of `loadFrames`. No frame in the slot would be a null pointer.
unfoldable pub load_slot : Option MiptpFrame → M ClientHandler (Unit {0})
unfolding fill_frame sock_read
load_slot none c = (throw error, c)
load_slot (some frame) c =
    let slot = c.m_used_slots in
    let seq = (c.m_sequence_base + slot) % sequence_size in
    let widened = set_msg_size frame_max_msg_size frame in
    continue
      (λ bytes d. (
        ok tt,
        let filled = fill_frame bytes c.m_dest_port c.m_source_port seq widened in
            record d {
              m_frame_window = set d.m_frame_window slot filled;
              m_used_slots = slot + 1;
              m_total_data_loaded = d.m_total_data_loaded + get_msg_size filled;
            },
      ))
      (sock_read frame_max_msg_size
        (record c { m_frame_window = set c.m_frame_window slot widened }))

unfoldable pub load_frame : M ClientHandler (Unit {0})
unfolding load_slot
load_frame c = load_slot (get_elem? c.m_frame_window c.m_used_slots) c

-- `while (m_used_slots < m_window_size)`: each round fills a slot, so `window_size` rounds suffice.
unfoldable pub load_loop : ℕ → M ClientHandler (Unit {0})
load_loop zero c = (ok tt, c)
load_loop (suc fuel) c = elim (ltb c.m_used_slots window_size) [
  | true ↦ continue (λ _. load_loop fuel) (load_frame c)
  | false ↦ (ok tt, c)
]

unfoldable pub catching_load :
    Outcome (Unit {0}) × ClientHandler → Outcome (Unit {0}) × ClientHandler
catching_load (throw would_block, c) = (ok tt, c)
catching_load (throw broken_pipe, c) =
    (ok tt, if c.m_used_slots == 0 then set_stage stage_failure c else c)
catching_load (r, c) = (r, c)

unfoldable pub load_frames : M ClientHandler (Unit {0})
unfolding catching_load load_loop set_stage
load_frames c = if is_closed c.m_sock then (ok tt, c) else catching_load (load_loop window_size c)

-- With an empty buffer `ret` is not set, and the comparison with the size 0 fails whatever it holds.
unfoldable pub write_buffer : List ℕ → M ClientHandler (Unit {0})
unfolding sock_write
write_buffer [] c = (ok tt, c)
write_buffer (b ∷ bs) c =
    continue
      (λ ret d. (
        ok tt,
        record d {
          m_msg_buffer = if ltb ret (length d.m_msg_buffer) then drop ret d.m_msg_buffer else [];
        },
      ))
      (sock_write (b ∷ bs) c)

-- A broken pipe ends the connection; nothing is lost when the write would block.
unfoldable pub catching_pipe :
    Outcome (Unit {0}) × ClientHandler → Outcome (Unit {0}) × ClientHandler
unfolding set_stage
catching_pipe (throw would_block, c) = (ok tt, c)
catching_pipe (throw broken_pipe, c) = (ok tt, set_stage stage_failure c)
catching_pipe (r, c) = (r, c)

unfoldable pub send_to_sock : M ClientHandler (Unit {0})
unfolding catching_pipe write_buffer
send_to_sock c = catching_pipe (write_buffer c.m_msg_buffer c)

-- Any other request leaves the type null.
unfoldable pub requested_type : ℕ → ClientType
requested_type request =
    if request == request_listen
    then type_server
    else if request == request_connect
    then type_client
    else type_null

unfoldable pub read_request : M ClientHandler (Unit {0})
unfolding requested_type is_type_null sock_read
read_request c =
    if is_type_null c.m_type
    then continue (λ bytes d. (ok tt, record d { m_type = requested_type (le_value bytes) }))
        (sock_read 1 c)
    else (ok tt, c)

unfoldable pub refuse_port : M ClientHandler (Unit {0})
unfolding set_stage sock_write
refuse_port c =
    continue (λ _ d. (ok tt, d)) (sock_write (reply_usedport ∷ []) (set_stage stage_failure c))

unfoldable pub take_port : (ℕ → Bool) → ℕ → M ClientHandler (Unit {0})
unfolding refuse_port
take_port is_port_free port c =
    if is_port_free port
    then (ok tt, record c { m_source_port = port; m_stage = stage_listen })
    else refuse_port c

unfoldable pub listen_request : (ℕ → Bool) → M ClientHandler (Unit {0})
unfolding take_port
listen_request is_port_free c =
    if c.m_source_port == 0
    then continue (λ bytes. take_port is_port_free (le_value bytes)) (sock_read 2 c)
    else (ok tt, c)

unfoldable pub read_dest_address : M ClientHandler (Unit {0})
read_dest_address c =
    if c.m_dest_address == 0
    then continue (λ bytes d. (ok tt, record d { m_dest_address = le_value bytes })) (sock_read 1 c)
    else (ok tt, c)

unfoldable pub read_dest_port : M ClientHandler (Unit {0})
read_dest_port c =
    if c.m_dest_port == 0
    then continue (λ bytes d. (ok tt, record d { m_dest_port = le_value bytes })) (sock_read 2 c)
    else (ok tt, c)

-- The request frame goes out once there is a port to answer to.
unfoldable pub request_connection : M ClientHandler (Unit {0})
unfolding refuse_port arm_timer send_control
request_connection c =
    if ltb 0 c.m_source_port
    then continue (λ _ d. (ok tt, set_stage stage_wait_reply d))
        (arm_timer (send_control request 0 c))
    else refuse_port c

unfoldable pub connect_request : ℕ → M ClientHandler (Unit {0})
unfolding read_dest_address read_dest_port request_connection
connect_request free_port = do
  read_dest_address
  read_dest_port
  modify (λ c. if c.m_source_port == 0 then record c { m_source_port = free_port } else c)
  request_connection

-- `is_port_free` and `free_port` are the daemon's `isPortFree` and `getFreePort()` at this moment.
unfoldable pub application_request : ClientType → (ℕ → Bool) → ℕ → M ClientHandler (Unit {0})
unfolding listen_request connect_request
application_request type_server is_port_free free_port = listen_request is_port_free
application_request type_client is_port_free free_port = connect_request free_port
application_request type_null is_port_free free_port = raise assertion

unfoldable pub handle_application : (ℕ → Bool) → ℕ → M ClientHandler (Unit {0})
unfolding application_request read_request
handle_application is_port_free free_port c =
    catching_pipe
      (continue (λ _ d. application_request d.m_type is_port_free free_port d) (read_request c))

unfoldable pub handle_transfer : ClientType → M ClientHandler (Unit {0})
unfolding send_to_sock load_frames
handle_transfer type_server = send_to_sock
handle_transfer type_client = load_frames
handle_transfer type_null = return tt

unfoldable pub handle_sock_at : ConnectStage → (ℕ → Bool) → ℕ → M ClientHandler (Unit {0})
unfolding handle_application handle_transfer
handle_sock_at stage_application is_port_free free_port c =
    handle_application is_port_free free_port c
handle_sock_at stage_connected is_port_free free_port c = handle_transfer c.m_type c
handle_sock_at _ is_port_free free_port c = (ok tt, c)

unfoldable pub handle_sock : (ℕ → Bool) → ℕ → M ClientHandler (Unit {0})
unfolding handle_sock_at
handle_sock is_port_free free_port c = handle_sock_at c.m_stage is_port_free free_port c
