-- ===== src/TransportInterface/Handshake.antt =====
-- A request of src/TransportInterface.cpp as src/ClientHandler.cpp reads and answers it.
use miptp_cpp.Prelude.{
  ℕ, ◌^◌, ◌<◌, ◌≡◌, ◌⊎◌, inl, inr, refl, ap, sym, subst, ◌∙◌, Bool, true, false, some, List, [],
  ◌∷◌, ◌++◌, arith,
}
use miptp_cpp.Outcome.{after}
use miptp_cpp.MiptpFrame.{MiptpFrame}
use miptp_cpp.CrossIpc.{AnonymousSocket, received, sent, read, write, le_value, size_bytes}
use miptp_cpp.ClientHandler.{
  ClientHandler, type_server, stage_listen, stage_failure, request_listen, reply_usedport, fresh,
  sock_read, sock_write, set_stage,
}
use miptp_cpp.ClientHandler.Handlers.{
  handle_sock, handle_sock_at, handle_application, read_request, requested_type,
  application_request, listen_request, take_port, refuse_port, catching_pipe,
}
use miptp_cpp.TransportInterface.{
  port_in_use_exception, answer, requested, listen_dialogue, listen_on,
}

-- The application's end: its writes are taken whole, and these bytes come back.
abbrev pub hearing : List ℕ → AnonymousSocket → AnonymousSocket
hearing bytes s = record s { recvs = received bytes ∷ []; sends = sent 1 ∷ sent 2 ∷ [] }

-- The daemon's end: these bytes are there, and a reply of a byte is taken.
abbrev pub asked : List ℕ → AnonymousSocket → AnonymousSocket
asked bytes s = record s { recvs = received bytes ∷ []; sends = sent 1 ∷ [] }

abbrev pub listen_bytes : ℕ → List ℕ
listen_bytes port = request_listen ∷ size_bytes 2 port

-- The socket of the daemon once the request has been read.
abbrev heard : AnonymousSocket → AnonymousSocket
heard s = record s { recvs = []; sends = sent 1 ∷ [] }

port_value : (port : ℕ) → port < 2 ^ 16 → le_value (size_bytes 2 port) ≡ port
unfolding le_value size_bytes
port_value port h = omega arith

-- The client when the request has been read.
abbrev asked_client : ℕ → List (ℕ × MiptpFrame) → AnonymousSocket → ClientHandler
asked_client timeout queue s = record (fresh (heard s) timeout queue) { m_type = type_server }

read_request_listen :
    (port timeout free_port : ℕ) (is_port_free : ℕ → Bool) (queue : List (ℕ × MiptpFrame))
    (s : AnonymousSocket)
    → port < 2 ^ 16
    → handle_sock is_port_free free_port (fresh (asked (listen_bytes port) s) timeout queue)
      ≡ catching_pipe (take_port is_port_free port (asked_client timeout queue s))
unfolding fresh handle_sock handle_sock_at handle_application read_request requested_type
    application_request listen_request sock_read read size_bytes le_value
read_request_listen port timeout free_port is_port_free queue s h =
    ap (λ p. catching_pipe (take_port is_port_free p (asked_client timeout queue s)))
      (port_value port h)

-- What the application has written when it waits for the reply.
unfoldable pub listen_sent : ℕ → AnonymousSocket → List ℕ
unfolding listen_dialogue
listen_sent port app = (after (listen_dialogue port (hearing [] app))).written

listen_sent_lem :
    (port : ℕ) (app : AnonymousSocket) → app.written ≡ [] → listen_sent port app ≡ listen_bytes port
unfolding listen_sent listen_dialogue read write size_bytes
listen_sent_lem port app e = ap (λ w. (w ++ request_listen ∷ []) ++ size_bytes 2 port) e

listen_on_used :
    (port : ℕ) (s : AnonymousSocket)
    → listen_on (some (hearing (reply_usedport ∷ []) s)) port ≡ port_in_use_exception
unfolding listen_on listen_dialogue read write le_value requested answer
listen_on_used port s = refl

pub Answered : Bool → ℕ → AnonymousSocket → ClientHandler → Type 0
Answered free port app d =
    ((free ≡ true)
      × (d.m_stage ≡ stage_listen)
      × (d.m_source_port ≡ port)
      × (d.m_sock.written ≡ []))
    ⊎ ((free ≡ false)
        × (d.m_stage ≡ stage_failure)
        × (listen_on (some (hearing d.m_sock.written app)) port ≡ port_in_use_exception))

port_test-Answered :
    (free : Bool) (port timeout : ℕ) (queue : List (ℕ × MiptpFrame)) (app s : AnonymousSocket)
    → s.written ≡ []
    → Answered free port app
        (after (catching_pipe (take_port (λ _. free) port (asked_client timeout queue s))))
unfolding Answered take_port refuse_port fresh catching_pipe sock_write write set_stage
port_test-Answered true port timeout queue app s w = inl (refl, refl, refl, w)
port_test-Answered false port timeout queue app s w = inr (
  refl,
  refl,
  ap (λ b. listen_on (some (hearing (b ++ reply_usedport ∷ []) app)) port) w
      ∙ listen_on_used port app,
)

pub listen_handshake :
    (port timeout free_port : ℕ) (is_port_free : ℕ → Bool) (queue : List (ℕ × MiptpFrame))
    (app s : AnonymousSocket)
    → port < 2 ^ 16
    → app.written ≡ []
    → s.written ≡ []
    → Answered (is_port_free port) port app (
        after (
          handle_sock is_port_free free_port
            (fresh (asked (listen_sent port app) s) timeout queue)))
unfolding fresh take_port
listen_handshake port timeout free_port is_port_free queue app s h a w =
    subst
      (λ bytes.
        Answered (is_port_free port) port app
          (after (handle_sock is_port_free free_port (fresh (asked bytes s) timeout queue))))
      (sym (listen_sent_lem port app a))
      (subst (λ r. Answered (is_port_free port) port app (after r))
        (sym (read_request_listen port timeout free_port is_port_free queue s h))
        (port_test-Answered (is_port_free port) port timeout queue app s w))
