-- ===== src/CrossIpc.antt =====
-- src/CrossIPC.cpp and include/CrossIPC.hpp, the Linux part: what the socket wrappers make of the
-- results of the system calls. The kernel is not modelled: the results of the coming calls of
-- `recv` and `send` stand in the socket as lists, and a call beyond the list would block.
pub mod Stream
pub mod Prefix
pub mod Packet
pub mod Strings
use miptp_cpp.Prelude.{
  ℕ, zero, suc, ◌+◌, ◌-◌, ◌*◌, ◌/◌, ◌%◌, List, [], ◌∷◌, ◌++◌, Bool, true, false, length, take, drop,
  replicate, ltb, ◌==◌, if◌then◌else◌,
}
use miptp_cpp.Outcome.{Exception, broken_pipe, would_block, error, Outcome, ok, throw, M, continue}

pub data Errno : Type 0 where
  ewouldblock eagain other_errno : Errno

-- What `recv` returns: the bytes stored (none at the end of the stream), or -1.
pub data Received : Type 0 where
  received : List ℕ → Received
  recv_failed : Errno → Received

-- What `send` returns: the number of bytes taken, or -1.
pub data Sent : Type 0 where
  sent : ℕ → Sent
  send_failed : Errno → Sent

pub record AnonymousSocket : Type 0 where
  pub m_closed : Bool
  pub m_nonblock : Bool
  -- the results of the coming system calls
  pub recvs : List Received
  pub sends : List Sent
  -- what the kernel has taken from this side
  pub written : List ℕ

unfoldable pub errno_exception : Errno → Exception
errno_exception ewouldblock = would_block
errno_exception eagain = would_block
errno_exception other_errno = error

-- What of a piece of the stream a call with room for `size` bytes leaves for the next call. The end
-- of the stream, an empty piece, stays.
left_over : ℕ → List ℕ → List Received → List Received
left_over size bs rs = if ltb size (length bs) then received (drop size bs) ∷ rs else rs

-- `ret == 0` is a broken pipe.
stored : List ℕ → Outcome (List ℕ)
stored [] = throw broken_pipe
stored (b ∷ bs) = ok (b ∷ bs)

take_recv : ℕ → List Received → AnonymousSocket → Outcome (List ℕ) × AnonymousSocket
unfolding stored left_over errno_exception
take_recv size [] s = (throw would_block, s)
take_recv size (recv_failed e ∷ rs) s = (throw (errno_exception e), record s { recvs = rs })
take_recv size (received [] ∷ rs) s = (throw broken_pipe, s)
take_recv size (received (b ∷ bs) ∷ rs) s =
    (stored (take size (b ∷ bs)), record s { recvs = left_over size (b ∷ bs) rs })

-- `read(buf, buf_size)`: the bytes stored in the buffer.
unfoldable pub read : ℕ → M AnonymousSocket (List ℕ)
unfolding take_recv
read size s = take_recv size s.recvs s

take_send : List ℕ → List Sent → AnonymousSocket → Outcome ℕ × AnonymousSocket
unfolding errno_exception
take_send buf [] s = (throw would_block, s)
take_send buf (send_failed e ∷ rs) s = (throw (errno_exception e), record s { sends = rs })
take_send buf (sent n ∷ rs) s =
    if n == 0
    then (throw broken_pipe, record s { sends = rs })
    else (ok n, record s { sends = rs; written = s.written ++ take n buf })

-- `write(buf, len)`
unfoldable pub write : List ℕ → M AnonymousSocket ℕ
unfolding take_send
write buf s = take_send buf s.sends s

unfoldable pub close_resources : AnonymousSocket → AnonymousSocket
close_resources s = record s { m_closed = true }

unfoldable pub is_closed : AnonymousSocket → Bool
is_closed s = s.m_closed

unfoldable pub is_non_block : AnonymousSocket → Bool
is_non_block s = s.m_nonblock

unfoldable pub enable_non_block : AnonymousSocket → AnonymousSocket
enable_non_block s = record s { m_nonblock = true }

unfoldable pub disable_non_block : AnonymousSocket → AnonymousSocket
disable_non_block s = record s { m_nonblock = false }

-- The loop of `readUntil(buf, size)`; `got` is what the buffer holds. A call of `read` that does not
-- throw stores a byte at least, so `size` rounds are enough.
read_until_loop : ℕ → ℕ → List ℕ → M AnonymousSocket (List ℕ)
unfolding read
read_until_loop zero size got s = (ok got, s)
read_until_loop (suc fuel) size got s = elim (ltb (length got) size) [
  | true ↦ continue (λ bs. read_until_loop fuel size (got ++ bs)) (read (size - length got) s)
  | false ↦ (ok got, s)
]

unfoldable pub read_until : ℕ → M AnonymousSocket (List ℕ)
unfolding read_until_loop
read_until size = read_until_loop size size []

-- `readGeneric` of a little-endian integer of `size` bytes. After a short read the bytes that are
-- missing keep what the variable held; the model takes them as 0.
unfoldable pub le_value : List ℕ → ℕ
le_value [] = 0
le_value (b ∷ bs) = b + 256 * le_value bs

-- The bytes of an integer of `k` bytes, as `writeGeneric` writes them.
unfoldable pub size_bytes : ℕ → ℕ → List ℕ
size_bytes zero n = []
size_bytes (suc k) n = n % 256 ∷ size_bytes k (n / 256)

-- `sizeof(target.sun_path)` on Linux.
abbrev pub sun_path_size : ℕ
sun_path_size = 108

-- `NamedSocket::nameCopy`: the bytes of `sun_path` after it.
unfoldable pub name_copy : List ℕ → List ℕ
name_copy source =
    if ltb (length source + 1) sun_path_size
    then source ++ replicate (sun_path_size - length source) 0
    else take (sun_path_size - 1) source ++ 0 ∷ []
