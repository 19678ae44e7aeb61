-- ===== src/TransportDeamon.antt =====
-- src/transport_deamon.cpp: the clients, the queue of frames that go out, and the event handlers.
-- A handler works on the shared queue: it is copied into the client before a call and back after.
pub mod Ports
pub mod Order
pub mod Sending
pub mod Distinct
use miptp_cpp.Prelude.{
  ℕ, zero, suc, ◌+◌, ◌-◌, Bool, true, false, Option, none, some, List, [], ◌∷◌, ◌++◌, length, take,
  ltb, ◌==◌, if◌then◌else◌,
}
use miptp_cpp.Outcome.{would_block, broken_pipe, error, Exception, Outcome, ok, throw, continue}
use miptp_cpp.Bytes.{write_at}
use miptp_cpp.MiptpFrame.{MiptpFrame, frame_max_size, set_size, get_size, get_data, get_dest}
use miptp_cpp.CrossIpc.{AnonymousSocket, enable_non_block, Sent, size_bytes}
use miptp_cpp.CrossIpc.Packet.{AnonymousSocketPacket, send_iovec}
use miptp_cpp.ClientHandler.{
  ClientHandler, ConnectStage, stage_failure, new_client_handler, destroy,
}
use miptp_cpp.ClientHandler.Handlers.{handle_sock}
use miptp_cpp.ClientHandler.Receive.{handle_timer, receive_frame}

-- A client with the descriptors of its socket and its timer.
pub record Client : Type 0 where
  pub sock_fd : ℕ
  pub timer_fd : ℕ
  pub handler : ClientHandler

pub record TransportDeamon : Type 0 where
  pub application_timeout : ℕ
  pub client_vector : List Client
  pub frame_out_queue : List (ℕ × MiptpFrame)
  -- the static frame of `receiveTransportSock`
  pub recv_frame : MiptpFrame
  pub transport_sock : AnonymousSocketPacket

unfoldable pub is_port_free : List Client → ℕ → Bool
is_port_free [] port = true
is_port_free (c ∷ clients) port =
    let rest = is_port_free clients port in if c.handler.m_source_port == port then false else rest

abbrev pub max_port : ℕ
max_port = 0b11111111111111

-- `while (port < max_port)` from `port` on, with as many rounds as there are ports left.
unfoldable pub free_port_from : ℕ → ℕ → List Client → ℕ
unfolding is_port_free
free_port_from zero port clients = 0
free_port_from (suc rounds) port clients =
    let rest = free_port_from rounds (port + 1) clients in
    if is_port_free clients port then port else rest

unfoldable pub get_free_port : List Client → ℕ
unfolding free_port_from
get_free_port clients = free_port_from (max_port - 1) 1 clients

is_failure : ConnectStage → Bool
is_failure stage_failure = true
is_failure _ = false

-- A client goes when its stage is failure, after the handler has run.
unfoldable pub keep_or_erase : Client → List Client → List Client
unfolding is_failure
keep_or_erase c rest = if is_failure c.handler.m_stage then rest else c ∷ rest

-- The client after its handler has run; an exception leaves the function before the stage is read.
after_handler : Client → List Client → Outcome (Unit {0}) → List Client
unfolding keep_or_erase
after_handler c rest (ok _) = keep_or_erase c rest
after_handler c rest (throw _) = c ∷ rest

-- `find_if`, and the handler on the client that is found.
unfoldable pub with_client :
    (Client → Bool)
    → (ClientHandler → Outcome (Unit {0}) × ClientHandler)
    → List Client
    → List (ℕ × MiptpFrame)
    → Outcome (Unit {0}) × List Client × List (ℕ × MiptpFrame)
unfolding after_handler
with_client test handle [] queue = (ok tt, [], queue)
with_client test handle (c ∷ clients) queue = elim (test c) [
  | true ↦
      let (result, h) = handle (record (c.handler) { m_out_queue = queue }) in
      (result, after_handler (record c { handler = h }) clients result, h.m_out_queue)
  | false ↦ let (result, kept, q) = with_client test handle clients queue in (result, c ∷ kept, q)
]

-- Run a handler on the client that passes the test, if there is one.
unfoldable pub run_client :
    (Client → Bool)
    → (ClientHandler → Outcome (Unit {0}) × ClientHandler)
    → TransportDeamon
    → Outcome (Unit {0}) × TransportDeamon
unfolding with_client
run_client test handle d =
    let (result, kept, queue) = with_client test handle d.client_vector d.frame_out_queue in
    (result, record d { client_vector = kept; frame_out_queue = queue })

-- The packet is stored in the static frame, which is cut to the size that it announces.
unfoldable pub store_packet : ℕ → List ℕ → MiptpFrame → MiptpFrame
store_packet msg_size bytes frame =
    let f = if get_size frame == frame_max_size then frame else set_size frame_max_size frame in
    set_size msg_size (record f { m_data = write_at 0 bytes f.m_data })

-- One round of `receiveTransportSock`: a packet's source, size and bytes.
unfoldable pub receive_packet :
    ℕ → ℕ → ℕ → List ℕ → TransportDeamon → Outcome (Unit {0}) × TransportDeamon
unfolding run_client store_packet
receive_packet upper source msg_size bytes d =
    let frame = store_packet msg_size bytes d.recv_frame in
    run_client (λ c. get_dest frame == c.handler.m_source_port) (receive_frame upper source frame)
      (record d { recv_frame = frame })

-- `catch (WouldBlockException)` of `receiveTransportSock`.
catching_would_block : Outcome (Unit {0}) → Outcome (Unit {0})
catching_would_block (throw would_block) = ok tt
catching_would_block r = r

-- `receiveTransportSock`: the packets that are there, until the next read would block.
unfoldable pub receive_packets :
    List (ℕ × ℕ × ℕ × List ℕ) → TransportDeamon → Outcome (Unit {0}) × TransportDeamon
unfolding receive_packet
receive_packets [] d = (throw would_block, d)
receive_packets ((upper, source, msg_size, bytes) ∷ packets) d =
    continue (λ _. receive_packets packets) (receive_packet upper source msg_size bytes d)

unfoldable pub receive_transport_sock :
    List (ℕ × ℕ × ℕ × List ℕ) → TransportDeamon → Outcome (Unit {0}) × TransportDeamon
unfolding receive_packets catching_would_block
receive_transport_sock packets d =
    let (result, d') = receive_packets packets d in (catching_would_block result, d')

-- The three buffers of a packet: destination, size in eight bytes, and the frame.
unfoldable pub frame_iovec : ℕ × MiptpFrame → List (List ℕ)
unfolding size_bytes
frame_iovec (dest, frame) =
    (dest ∷ []) ∷ size_bytes 8 (get_size frame) ∷ take (get_size frame) (get_data frame) ∷ []

-- How `sendTransportSock` goes on after a call of `sendiovec`: the front frame is popped if it was
-- sent; a packet that would block ends the loop.
unfoldable pub after_send :
    Outcome (Unit {0})
    → Outcome (Unit {0}) × TransportDeamon
    → TransportDeamon
    → Outcome (Unit {0}) × TransportDeamon
after_send (ok unit) rest d = rest
after_send (throw would_block) rest d = (ok tt, d)
after_send (throw e) rest d = (throw e, d)

-- The loop of `sendTransportSock`, at this queue.
unfoldable pub send_frames :
    List (ℕ × MiptpFrame) → TransportDeamon → Outcome (Unit {0}) × TransportDeamon
unfolding frame_iovec after_send
send_frames [] d = (ok tt, record d { frame_out_queue = [] })
send_frames (f ∷ queue) d =
    let (result, sock) = send_iovec (frame_iovec f) d.transport_sock in
    let e = record d { transport_sock = sock } in
    let rest = send_frames queue e in
    after_send result rest (record e { frame_out_queue = f ∷ queue })

-- `results` are those of `sendmsg`.
unfoldable pub send_transport_sock :
    List Sent → TransportDeamon → Outcome (Unit {0}) × TransportDeamon
unfolding send_frames
send_transport_sock results d =
    send_frames d.frame_out_queue
      (record d { transport_sock = record (d.transport_sock) { sends = results } })

-- A connection of an application, with the descriptors that the kernel gives it.
add_client : ℕ → ℕ → Option ClientHandler → TransportDeamon → Option TransportDeamon
add_client sock_fd timer_fd none d = none
add_client sock_fd timer_fd (some h) d = some (record d {
  client_vector =
      d.client_vector ++ record { sock_fd = sock_fd; timer_fd = timer_fd; handler = h } ∷ [];
})

unfoldable pub receive_application_sock :
    AnonymousSocket → ℕ → ℕ → TransportDeamon → Option TransportDeamon
unfolding add_client
receive_application_sock sock sock_fd timer_fd d =
    add_client sock_fd timer_fd
      (new_client_handler (enable_non_block sock) d.application_timeout d.frame_out_queue) d

unfoldable pub handle_client_handler_sock :
    ℕ → TransportDeamon → Outcome (Unit {0}) × TransportDeamon
unfolding run_client is_port_free get_free_port
handle_client_handler_sock fd d =
    run_client (λ c. c.sock_fd == fd)
      (handle_sock (is_port_free d.client_vector) (get_free_port d.client_vector)) d

unfoldable pub handle_client_handler_timer :
    ℕ → TransportDeamon → Outcome (Unit {0}) × TransportDeamon
unfolding run_client is_port_free get_free_port
handle_client_handler_timer fd d =
    run_client (λ c. c.timer_fd == fd)
      (handle_timer (is_port_free d.client_vector) (get_free_port d.client_vector)) d

-- What `epoll.wait` and the kernel hand to one round of the loop in `main`.
pub data Event : Type 0 where
  transport_event : List (ℕ × ℕ × ℕ × List ℕ) → Event
  application_event : AnonymousSocket → ℕ → ℕ → Event
  client_event : ℕ → Event

has_sock : ℕ → List Client → Bool
has_sock fd [] = false
has_sock fd (c ∷ clients) = let rest = has_sock fd clients in if c.sock_fd == fd then true else rest

-- Which handler an event goes to: a socket's descriptor first, then a timer's, else none.
dispatch_event : Event → TransportDeamon → Outcome (Unit {0}) × TransportDeamon
unfolding has_sock receive_transport_sock receive_application_sock handle_client_handler_sock
    handle_client_handler_timer
dispatch_event (transport_event packets) d = receive_transport_sock packets d
dispatch_event (application_event sock sock_fd timer_fd) d =
    elim (receive_application_sock sock sock_fd timer_fd d) [
      | some d' ↦ (ok tt, d')
      | none ↦ (throw error, d)
    ]
dispatch_event (client_event fd) d =
    if has_sock fd d.client_vector
    then handle_client_handler_sock fd d
    else handle_client_handler_timer fd d

-- One event of the loop: its handler, then `sendTransportSock`.
unfoldable pub handle_event :
    Event → List Sent → TransportDeamon → Outcome (Unit {0}) × TransportDeamon
unfolding dispatch_event send_transport_sock
handle_event event results d = continue (λ _. send_transport_sock results) (dispatch_event event d)

-- The loop over the events; an exception that is not caught leaves it.
unfoldable pub handle_events :
    List (Event × List Sent) → TransportDeamon → Outcome (Unit {0}) × TransportDeamon
unfolding handle_event
handle_events [] d = (ok tt, d)
handle_events ((event, results) ∷ events) d =
    continue (λ _. handle_events events) (handle_event event results d)
