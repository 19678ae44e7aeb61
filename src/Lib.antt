-- ===== src/Lib.antt =====
-- MIPTP: a transport protocol (MIPTP) over a small link and network layer (MIP), run by three
-- daemons of each host: MIP_deamon (link layer, ARP and forwarding), routing_deamon (distance
-- vector routing) and transport_deamon (reliable byte streams between applications).
--
-- The parts, and the files that model them:
--   src/MIPTPFrame.cpp           MiptpFrame: the transport layer's frame, a vector of bytes
--   src/MIPFrame.cpp             MipFrame: the link layer's frame
--   src/CrossIPC.cpp             CrossIpc: the sockets between processes
--   src/TimerWrapper.cpp         TimerWrapper: conversions of times
--   src/RawSock.cpp              RawSock: the link layer's sockets
--   src/DistanceVectorTable.cpp  DistanceVectorTable: the routing table
--   src/routing_deamon.cpp       RoutingDeamon: handlers, worker threads, their steps
--   src/MIP_deamon.cpp           MipDeamon: ARP table, forwarding, timeout
--   src/ClientHandler.cpp        ClientHandler: one connection, with its sliding window
--   src/transport_deamon.cpp     TransportDeamon: the clients, their ports, the outgoing queue
--   Host                         RoutingDeamon and MipDeamon of one host, and what they ask
--   Connection                   two of these handlers, and the frames on the way between them
--   src/TransportInterface.cpp   TransportInterface: an application's request for a connection
--   src/file_sender.cpp          FileTransfer: with src/file_receiver.cpp, a file over a connection
--   src/file_compare.cpp         FileCompare: two files compared
--   src/EthernetFrame.cpp        EthernetFrame: a plain Ethernet frame
--   src/AddressTypes.cpp         AddressTypes: addresses as text
-- Prelude, Bits, Bytes, Header and Outcome are shared: lists measured by native numbers, fields of
-- words, bytes of a buffer, fields of a frame's header, and code that changes a state and may throw.
-- Examples has the theorems at concrete inputs.
--
-- How the parts interact. An application talks to transport_deamon on a socket. A ClientHandler
-- turns its requests and data into frames that it puts into the daemon's one queue; the daemon
-- writes them to MIP_deamon, which asks routing_deamon for the next hop (a queue of waiting frames,
-- answered in order) and sends them to that neighbour. A frame that arrives for a local address goes
-- up, any other is forwarded with a smaller time to live. MIP_deamon tells routing_deamon of
-- neighbours found and lost, and carries its advertisements to and from the neighbours.
--
-- How the code is modelled. An object or a daemon's globals is a record, a method or handler a
-- function of the same name in snake case. Code that throws returns an `Outcome` next to the state
-- that it leaves, so a change made before a throw stays. The results of system calls are lists in
-- the socket (`recvs`, `sends`), taken from the front; what is written is recorded. Integers are
-- natural numbers with the wrap-around of their width written out. Words are little-endian, as on
-- the hosts that the casts of `m_data` are written for; `htons` is a parameter. The bits that
-- `getSequenceNumber` leaves unset are a parameter `upper`. A static local of a handler is a field
-- of the state where what it holds is read again. Events are handled one at a time, as by the loops
-- in `main`; the two worker threads of routing_deamon take steps in any order, each as long as it
-- holds a mutex.
--
-- Fuel. `load_loop` runs `loadFrames` for at most `window_size` rounds: each round fills a slot, and
-- there are no more. `read_until_loop` runs for at most as many rounds as bytes are asked for: a read
-- returns at least one or throws; so does `read_string_loop`, for a round more than bytes wait.
-- `free_port_from` runs for as many rounds as there are ports left, `read_chunks` and `compare_loop`
-- for as many as there are bytes in the file, and one or two more that find its end.
--
-- Not modelled: process start and end (src/CrossForkExec.cpp, the `main` functions' argument
-- parsing), epoll (src/EventPoll.cpp), printing (`toString` but that of a socket or an address), the
-- creation of sockets, timers and files, how the kernel takes and fills the buffers of a packet, the
-- Windows branches, include/CircleBuffer.hpp, which is unfinished, and the test programs
-- (src/main.cpp, src/file_generate.cpp, src/transport_deamon_init.cpp).
pub mod Prelude
pub mod Bits
pub mod Bytes
pub mod Header
pub mod MiptpFrame
pub mod Outcome
pub mod CrossIpc
pub mod TimerWrapper
pub mod ClientHandler
pub mod DistanceVectorTable
pub mod RoutingDeamon
pub mod TransportDeamon
pub mod MipFrame
pub mod RawSock
pub mod MipDeamon
pub mod TransportInterface
pub mod FileTransfer
pub mod Connection
pub mod EthernetFrame
pub mod AddressTypes
pub mod FileCompare
pub mod Host
pub mod Examples
