-- ===== src/Examples/Transport.antt =====
-- src/ClientHandler.cpp and src/transport_deamon.cpp at concrete inputs.
use miptp_cpp.Prelude.{
  ℕ, ◌≤◌, ◌<◌, ◌≡◌, ◌⊎◌, ◌↔◌, inr, Bool, true, false, none, some, refl, map, List, [], ◌∷◌, ◌++◌,
  replicate, drop, arith,
}
use miptp_cpp.Outcome.{after}
use miptp_cpp.CrossIpc.{Sent, sent, send_failed, ewouldblock}
use miptp_cpp.MiptpFrame.{MiptpFrame, empty_frame}
use miptp_cpp.ClientHandler.{
  ClientHandler, type_client, stage_connected, window_size, seq_inside_window, calc_moves,
  queue_frames,
}
use miptp_cpp.ClientHandler.Handlers.{handle_sock}
use miptp_cpp.ClientHandler.Receive.{handle_timer, receive_frame, receive_sack}
use miptp_cpp.ClientHandler.Window.{distance, seq_inside_window_lem}
use miptp_cpp.ClientHandler.Acks.{in_flight, receive_sack_lem}
use miptp_cpp.ClientHandler.Slots.{IsClient}
use miptp_cpp.ClientHandler.Slots.Frames.{IsClient-invariant}
use miptp_cpp.TransportDeamon.{
  Client, TransportDeamon, is_port_free, get_free_port, max_port, send_transport_sock, client_event,
  application_event, handle_events,
}
use miptp_cpp.TransportDeamon.Distinct.{DistinctPorts, handle_events-DistinctPorts}
use miptp_cpp.TransportDeamon.Ports.{get_free_port_lem}
use miptp_cpp.TransportDeamon.Sending.{verdict, sending, wrote, send_transport_sock_lem}
use miptp_cpp.TransportDeamon.Order.{packets, send_transport_sock-in_order}

-- A connected client that sends: two slots are used, and the sequence numbers are about to wrap.
abbrev sender : ClientHandler
sender = record {
  m_type = type_client;
  m_stage = stage_connected;
  m_sock = record { m_closed = false; m_nonblock = true; recvs = []; sends = []; written = [] };
  m_timer = none;
  m_timer_closed = false;
  m_timeout = 1000;
  m_out_queue = [];
  m_dest_address = 2;
  m_dest_port = 5;
  m_source_port = 1;
  m_used_slots = 2;
  m_sequence_base = 39;
  m_current_ack = 0;
  m_frame_window = replicate 10 empty_frame;
  m_msg_buffer = [];
  m_total_data_loaded = 0;
  m_total_data_received = 0;
  m_connected_reply = true;
}

sender-IsClient : IsClient sender
sender-IsClient = record {
  window = omega arith;
  frames = omega arith;
  base = omega arith;
  ack = omega arith;
}

IsClient-invariant_example :
    ((is_port_free : ℕ → Bool) (free_port : ℕ)
      → IsClient (after (handle_sock is_port_free free_port sender)))
    × ((is_port_free : ℕ → Bool) (free_port : ℕ)
        → IsClient (after (handle_timer is_port_free free_port sender)))
    × ((upper source : ℕ) (in_frame : MiptpFrame)
        → IsClient (after (receive_frame upper source in_frame sender)))
IsClient-invariant_example = IsClient-invariant sender sender-IsClient

seq_inside_window_lem_example :
    ((seq_inside_window 3 sender ≡ true) ↔ (distance sender.m_sequence_base 3 < window_size))
    × (calc_moves 3 sender ≡ distance sender.m_sequence_base 3)
seq_inside_window_lem_example = seq_inside_window_lem sender 3 (omega arith) (omega arith)

-- The ack of the first of the two frames.
receive_sack_lem_example :
    ((distance sender.m_sequence_base 0 ≤ window_size)
      × (in_flight (receive_sack 0 sender)
          ≡ drop (distance sender.m_sequence_base 0) (in_flight sender))
      × ((receive_sack 0 sender).m_sequence_base ≡ 0)
      × ((receive_sack 0 sender).m_out_queue
          ≡ sender.m_out_queue
            ++ queue_frames sender.m_dest_address (in_flight (receive_sack 0 sender))))
    ⊎ ((window_size < distance sender.m_sequence_base 0) × (receive_sack 0 sender ≡ sender))
receive_sack_lem_example = receive_sack_lem sender 0 sender-IsClient (omega arith)

abbrev clients : List Client
clients = record { sock_fd = 8; timer_fd = 9; handler = sender } ∷ []

get_free_port_lem_example :
    ((1 ≤ get_free_port clients)
      × (get_free_port clients < max_port)
      × (is_port_free clients (get_free_port clients) ≡ true)
      × ((q : ℕ) → 1 ≤ q → q < get_free_port clients → is_port_free clients q ≡ false))
    ⊎ ((get_free_port clients ≡ 0)
        × ((q : ℕ) → 1 ≤ q → q < max_port → is_port_free clients q ≡ false))
get_free_port_lem_example = get_free_port_lem clients

abbrev daemon : TransportDeamon
daemon = record {
  application_timeout = 1000;
  client_vector = clients;
  frame_out_queue = (2, empty_frame) ∷ (3, empty_frame) ∷ [];
  recv_frame = empty_frame;
  transport_sock = record {
    m_fd = 5;
    m_closed = false;
    m_nonblock = some true;
    recvs = [];
    sends = [];
    written = [];
  };
}

-- The second frame would block.
abbrev results : List Sent
results = sent 15 ∷ send_failed ewouldblock ∷ []

send_transport_sock-in_order_example :
    (send_transport_sock results daemon).1.transport_sock.written
      ++ packets (send_transport_sock results daemon).1.frame_out_queue
    ≡ daemon.transport_sock.written ++ packets daemon.frame_out_queue
send_transport_sock-in_order_example = send_transport_sock-in_order results daemon

send_transport_sock_lem_example :
    send_transport_sock (map sent (15 ∷ []) ++ send_failed ewouldblock ∷ []) daemon ≡ (
      verdict (send_failed ewouldblock),
      record (sending [] (wrote ((2, empty_frame) ∷ []) daemon)) {
        frame_out_queue = (3, empty_frame) ∷ [];
      },
    )
send_transport_sock_lem_example =
    send_transport_sock_lem (send_failed ewouldblock) [] (3, empty_frame) [] tt
      ((2, empty_frame) ∷ []) (15 ∷ []) daemon (omega arith, tt) (omega arith) refl

-- An event of the client's socket, then a new application.
handle_events-DistinctPorts_example :
    DistinctPorts
      (after (
        handle_events
          ((client_event 8, results) ∷ (application_event sender.m_sock 10 11, results) ∷ [])
          daemon)).client_vector
handle_events-DistinctPorts_example =
    handle_events-DistinctPorts
      ((client_event 8, results) ∷ (application_event sender.m_sock 10 11, results) ∷ []) daemon
      (inr tt, tt)
