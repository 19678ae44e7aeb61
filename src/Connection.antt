-- ===== src/Connection.antt =====
-- A connection between two hosts: the ends are two handlers of src/ClientHandler.cpp, and the way from
-- one to the other, through both hosts' daemons and the network, is the queue of outgoing frames of
-- the one. The frame in front of the queue arrives or is lost. Events of the applications, the timers
-- and the network come in any order. What the applications do stands in the sockets, and the bytes that
-- `getSequenceNumber` leaves unset are taken as 0.
pub mod Fill
pub mod Numbers
pub mod Data
pub mod Unread
pub mod Sender
pub mod Receiver
pub mod Delivery
pub mod Pairing
pub mod Progress
use miptp_cpp.Prelude.{ℕ, ◌≡◌, Bool, List, ◌∷◌}
use miptp_cpp.Outcome.{after}
use miptp_cpp.MiptpFrame.{MiptpFrame}
use miptp_cpp.ClientHandler.{ClientHandler}
use miptp_cpp.ClientHandler.Handlers.{handle_sock}
use miptp_cpp.ClientHandler.Receive.{handle_timer, receive_frame}

pub record Connection : Type 0 where
  pub client : ClientHandler
  pub server : ClientHandler

-- A frame leaves the way there.
abbrev pub without_front : List (ℕ × MiptpFrame) → ClientHandler → ClientHandler
without_front queue c = record c { m_out_queue = queue }

pub data Step (s : Connection) : Connection → Type 0 where
  client_sock :
      (is_port_free : ℕ → Bool) (free_port : ℕ)
      → Step s (record s { client = after (handle_sock is_port_free free_port s.client) })
  client_timer :
      (is_port_free : ℕ → Bool) (free_port : ℕ)
      → Step s (record s { client = after (handle_timer is_port_free free_port s.client) })
  server_sock :
      (is_port_free : ℕ → Bool) (free_port : ℕ)
      → Step s (record s { server = after (handle_sock is_port_free free_port s.server) })
  server_timer :
      (is_port_free : ℕ → Bool) (free_port : ℕ)
      → Step s (record s { server = after (handle_timer is_port_free free_port s.server) })
  to_server :
      (source : ℕ) (e : ℕ × MiptpFrame) (queue : List (ℕ × MiptpFrame))
      → s.client.m_out_queue ≡ e ∷ queue
      → Step s (record {
        client = without_front queue s.client;
        server = after (receive_frame 0 source e.1 s.server);
      })
  to_client :
      (source : ℕ) (e : ℕ × MiptpFrame) (queue : List (ℕ × MiptpFrame))
      → s.server.m_out_queue ≡ e ∷ queue
      → Step s (record {
        client = after (receive_frame 0 source e.1 s.client);
        server = without_front queue s.server;
      })
  lost_to_server :
      (e : ℕ × MiptpFrame) (queue : List (ℕ × MiptpFrame))
      → s.client.m_out_queue ≡ e ∷ queue
      → Step s (record s { client = without_front queue s.client })
  lost_to_client :
      (e : ℕ × MiptpFrame) (queue : List (ℕ × MiptpFrame))
      → s.server.m_out_queue ≡ e ∷ queue
      → Step s (record s { server = without_front queue s.server })

pub data Run (s : Connection) : Connection → Type 0 where
  stays : Run s s
  goes : {t u : Connection} → Run s t → Step t u → Run s u
