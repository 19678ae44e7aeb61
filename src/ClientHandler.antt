-- ===== src/ClientHandler.antt =====
-- src/ClientHandler.cpp and include/ClientHandler.hpp: one application's end of a connection. The
-- handler holds its socket, its timer and the shared `m_out_queue` by value; the transport daemon
-- copies the queue in and out. What the program prints is left out.
pub mod Handlers
pub mod Receive
pub mod Window
pub mod Acks
pub mod Addresses
pub mod Port
pub mod Slots
use miptp_cpp.Prelude.{
  ℕ, zero, suc, ◌+◌, ◌-◌, ◌*◌, ◌%◌, ◌^◌, Bool, true, false, ◌||◌, ◌&&◌, not, Option, none, some,
  List, [], ◌∷◌, ◌++◌, length, get_elem?, set, take, drop, replicate, ltb, ◌==◌, if◌then◌else◌,
}
use miptp_cpp.Outcome.{
  Exception, broken_pipe, would_block, error, assertion, Outcome, ok, throw, M, ◌>>=◌, ◌>>◌, return,
  raise, modify, when, after,
}
use miptp_cpp.Bytes.{byte, write_at}
use miptp_cpp.MiptpFrame.{
  MiptpFrame, empty_frame, set_type, set_dest, set_source, set_sequence_number, set_msg_size,
  get_type, get_source, get_sequence_number, get_msg_size, get_msg, request, reply, data_packet,
  sack, frame_max_msg_size, frame_header_size,
}
use miptp_cpp.CrossIpc.{AnonymousSocket, read, write, is_closed, close_resources, is_non_block}
use miptp_cpp.TimerWrapper.{Timespec, ms_to_timespec}

pub data ClientType : Type 0 where
  type_null type_server type_client : ClientType

pub data ConnectStage : Type 0 where
  stage_application stage_listen stage_wait_reply stage_connected stage_failure : ConnectStage

-- include/TransportInterface.hpp
abbrev pub request_listen : ℕ
request_listen = 1

abbrev pub request_connect : ℕ
request_connect = 2

abbrev pub reply_success : ℕ
reply_success = 1

abbrev pub reply_timeout : ℕ
reply_timeout = 2

abbrev pub reply_usedport : ℕ
reply_usedport = 3

abbrev pub window_size : ℕ
window_size = 10

abbrev pub sequence_size : ℕ
sequence_size = window_size * 4

-- The window's pointers are null until the connection is made: then it is empty.
pub record ClientHandler : Type 0 where
  pub m_type : ClientType
  pub m_stage : ConnectStage
  pub m_sock : AnonymousSocket
  -- the time that the timer was last armed with, if the timer is open
  pub m_timer : Option Timespec
  pub m_timer_closed : Bool
  pub m_timeout : ℕ
  pub m_out_queue : List (ℕ × MiptpFrame)
  pub m_dest_address : ℕ
  pub m_dest_port : ℕ
  pub m_source_port : ℕ
  pub m_used_slots : ℕ
  pub m_sequence_base : ℕ
  pub m_current_ack : ℕ
  pub m_frame_window : List MiptpFrame
  pub m_msg_buffer : List ℕ
  pub m_total_data_loaded : ℕ
  pub m_total_data_received : ℕ
  pub m_connected_reply : Bool

-- The constructor, after its assertion.
unfoldable pub fresh : AnonymousSocket → ℕ → List (ℕ × MiptpFrame) → ClientHandler
fresh sock timeout out_queue = record {
  m_type = type_null;
  m_stage = stage_application;
  m_sock = sock;
  m_timer = none;
  m_timer_closed = false;
  m_timeout = timeout;
  m_out_queue = out_queue;
  m_dest_address = 0;
  m_dest_port = 0;
  m_source_port = 0;
  m_used_slots = 0;
  m_sequence_base = 0;
  m_current_ack = 0;
  m_frame_window = [];
  m_msg_buffer = [];
  m_total_data_loaded = 0;
  m_total_data_received = 0;
  m_connected_reply = true;
}

unfoldable pub new_client_handler :
    AnonymousSocket → ℕ → List (ℕ × MiptpFrame) → Option ClientHandler
unfolding fresh
new_client_handler sock timeout out_queue =
    if is_non_block sock then some (fresh sock timeout out_queue) else none

-- The destructor.
unfoldable pub destroy : ClientHandler → ClientHandler
destroy c = record c {
  m_sock = if is_closed c.m_sock then c.m_sock else close_resources c.m_sock;
  m_timer_closed = true;
}

-- A frame with no message, filled in as `queueAck` and the handlers do. Where the source fills a
-- `static` frame again, every header bit is overwritten and its size stays.
unfoldable pub control_frame : ℕ → ℕ → ℕ → ℕ → MiptpFrame
control_frame type dest source seq =
    set_msg_size 0
      (set_sequence_number seq (set_source source (set_dest dest (set_type type empty_frame))))

-- `m_out_queue.emplace(m_dest_address, frame)`
unfoldable pub emplace : MiptpFrame → ClientHandler → ClientHandler
emplace frame c = record c { m_out_queue = c.m_out_queue ++ (c.m_dest_address, frame) ∷ [] }

unfoldable pub send_control : ℕ → ℕ → ClientHandler → ClientHandler
unfolding emplace
send_control type seq c = emplace (control_frame type c.m_dest_port c.m_source_port seq) c

unfoldable pub queue_ack : ClientHandler → ClientHandler
unfolding send_control
queue_ack c = send_control sack c.m_current_ack c

-- `for (int i = 0; i < m_used_slots; ++i)`: a slot without a frame would be a null pointer.
unfoldable pub queue_frames : ℕ → List MiptpFrame → List (ℕ × MiptpFrame)
queue_frames dest [] = []
queue_frames dest (f ∷ fs) = (dest, f) ∷ queue_frames dest fs

unfoldable pub queue_window : ClientHandler → ClientHandler
unfolding queue_frames
queue_window c = record c {
  m_out_queue =
      c.m_out_queue ++ queue_frames c.m_dest_address (take c.m_used_slots c.m_frame_window);
}

-- `std::rotate(begin, begin + moves, end)`
abbrev pub rotate {ℓ} : {A : Type ℓ} → ℕ → List A → List A
rotate n xs = drop n xs ++ take n xs

unfoldable pub move_window : ℕ → ClientHandler → ClientHandler
move_window moves c =
    if ltb 0 moves
    then record c {
      m_frame_window = rotate moves c.m_frame_window;
      m_used_slots = if ltb moves c.m_used_slots then c.m_used_slots - moves else 0;
      m_sequence_base = (c.m_sequence_base + moves) % sequence_size;
    }
    else c

unfoldable pub seq_inside_window : ℕ → ClientHandler → Bool
seq_inside_window seq c =
    if ltb seq c.m_sequence_base
    then ltb (seq + sequence_size) (c.m_sequence_base + window_size)
    else ltb seq (c.m_sequence_base + window_size)

unfoldable pub calc_moves : ℕ → ClientHandler → ℕ
calc_moves seq c =
    if ltb seq c.m_sequence_base
    then seq + sequence_size - c.m_sequence_base
    else seq - c.m_sequence_base

-- What `loadFrames` does to the frame after `read` has stored `bytes` in its message.
unfoldable pub fill_frame : List ℕ → ℕ → ℕ → ℕ → MiptpFrame → MiptpFrame
fill_frame bytes dest source seq frame =
    let g = record frame { m_data = write_at frame_header_size bytes frame.m_data } in
    set_msg_size (length bytes)
      (set_sequence_number seq (set_source source (set_dest dest (set_type data_packet g))))

-- Calls on `m_sock`.
unfoldable pub sock_read : ℕ → M ClientHandler (List ℕ)
sock_read size c = let (r, s) = read size c.m_sock in (r, record c { m_sock = s })

unfoldable pub sock_write : List ℕ → M ClientHandler ℕ
sock_write buf c = let (r, s) = write buf c.m_sock in (r, record c { m_sock = s })

unfoldable pub arm_timer : M ClientHandler (Unit {0})
arm_timer c = elim (ms_to_timespec c.m_timeout) [
  | none ↦ (throw assertion, c)
  | some t ↦ (ok tt, record c { m_timer = some t })
]

unfoldable pub set_stage : ConnectStage → ClientHandler → ClientHandler
set_stage stage c = record c { m_stage = stage }
