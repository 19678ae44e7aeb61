-- ===== src/CrossIpc/Packet.antt =====
-- `AnonymousSocketPacket` of include/CrossIPC.hpp and src/CrossIPC.cpp: what the wrappers make of the
-- results of `sendmsg` and `recvmsg`, which are lists in the socket. A packet is the list of buffers
-- of an `IovecWrapper`. How the kernel takes and fills them is not modelled: what the buffers hold
-- after a call of `recvmsg` is part of its result.
use miptp_cpp.Prelude.{ℕ, Option, some, Bool, true, false, List, [], ◌∷◌, ◌++◌, ◌==◌, if◌then◌else◌}
use miptp_cpp.Outcome.{broken_pipe, would_block, ok, throw, M}
use miptp_cpp.CrossIpc.{Errno, Sent, sent, send_failed, errno_exception}

-- What `recvmsg` returns: the number of bytes, with the buffers as they are then, or -1.
pub data Filled : Type 0 where
  filled : ℕ → List (List ℕ) → Filled
  fill_failed : Errno → Filled

pub record AnonymousSocketPacket : Type 0 where
  pub m_fd : ℕ
  pub m_closed : Bool
  -- no constructor sets it
  pub m_nonblock : Option Bool
  -- the results of the coming system calls
  pub recvs : List Filled
  pub sends : List Sent
  -- the packets that the kernel has taken
  pub written : List (List (List ℕ))

unfoldable pub close_resources : AnonymousSocketPacket → AnonymousSocketPacket
close_resources s = record s { m_closed = true }

unfoldable pub enable_non_block : AnonymousSocketPacket → AnonymousSocketPacket
enable_non_block s = record s { m_nonblock = some true }

unfoldable pub disable_non_block : AnonymousSocketPacket → AnonymousSocketPacket
disable_non_block s = record s { m_nonblock = some false }

unfoldable pub take_send : List (List ℕ) → List Sent → M AnonymousSocketPacket (Unit {0})
unfolding errno_exception
take_send iov [] s = (throw would_block, s)
take_send iov (send_failed e ∷ rs) s = (throw (errno_exception e), record s { sends = rs })
take_send iov (sent n ∷ rs) s =
    if n == 0
    then (throw broken_pipe, record s { sends = rs })
    else (ok tt, record s { sends = rs; written = s.written ++ iov ∷ [] })

-- `sendiovec(iov)`
unfoldable pub send_iovec : List (List ℕ) → M AnonymousSocketPacket (Unit {0})
unfolding take_send
send_iovec iov s = take_send iov s.sends s

take_recv : List Filled → M AnonymousSocketPacket (List (List ℕ))
unfolding errno_exception
take_recv [] s = (throw would_block, s)
take_recv (fill_failed e ∷ rs) s = (throw (errno_exception e), record s { recvs = rs })
take_recv (filled n bufs ∷ rs) s =
    if n == 0
    then (throw broken_pipe, record s { recvs = rs })
    else (ok bufs, record s { recvs = rs })

-- `recviovec(iov)`: the buffers afterwards.
unfoldable pub recv_iovec : M AnonymousSocketPacket (List (List ℕ))
unfolding take_recv
recv_iovec s = take_recv s.recvs s
