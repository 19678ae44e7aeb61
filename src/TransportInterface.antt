-- ===== src/TransportInterface.antt =====
-- src/TransportInterface.cpp: how an application asks the transport daemon for a connection. The
-- socket that `connectToNamedSocket` returns is an argument; none is its exception.
pub mod Handshake
use miptp_cpp.Prelude.{
  ℕ, ◌/◌, ◌%◌, Bool, true, false, Option, none, some, List, [], ◌∷◌, ◌==◌, if◌then◌else◌,
}
use miptp_cpp.Outcome.{Exception, error, Outcome, ok, throw, M, ◌>>=◌, return}
use miptp_cpp.CrossIpc.{AnonymousSocket, read, write, le_value, size_bytes}
use miptp_cpp.ClientHandler.{
  request_listen, request_connect, reply_success, reply_timeout, reply_usedport,
}

-- What a request returns or throws: `TimeoutException` and `PortInUseException` of the interface, an
-- exception of the socket, or the assertion after the tests.
pub data Requested : Type 0 where
  granted : AnonymousSocket → Requested
  timeout_exception port_in_use_exception assertion_failed : Requested
  socket_exception : Exception → Requested

unfoldable pub answer : ℕ → AnonymousSocket → Requested
answer reply sock =
    if reply == reply_success
    then granted sock
    else if reply == reply_timeout
    then timeout_exception
    else if reply == reply_usedport
    then port_in_use_exception
    else assertion_failed

unfoldable pub requested : Outcome ℕ × AnonymousSocket → Requested
unfolding answer
requested (ok reply, sock) = answer reply sock
requested (throw e, sock) = socket_exception e

unfoldable pub listen_dialogue : ℕ → M AnonymousSocket ℕ
listen_dialogue port = do
  n ← write (request_listen ∷ [])
  m ← write (size_bytes 2 port)
  reply ← read 1
  return (le_value reply)

unfoldable pub connect_dialogue : ℕ → ℕ → M AnonymousSocket ℕ
connect_dialogue address port = do
  n ← write (request_connect ∷ [])
  k ← write (size_bytes 1 address)
  m ← write (size_bytes 2 port)
  reply ← read 1
  return (le_value reply)

-- `requestListen` and `requestConnect`
unfoldable pub listen_on : Option AnonymousSocket → ℕ → Requested
unfolding listen_dialogue requested
listen_on none port = socket_exception error
listen_on (some sock) port = requested (listen_dialogue port sock)

unfoldable pub connect_to : Option AnonymousSocket → ℕ → ℕ → Requested
unfolding connect_dialogue requested
connect_to none address port = socket_exception error
connect_to (some sock) address port = requested (connect_dialogue address port sock)
