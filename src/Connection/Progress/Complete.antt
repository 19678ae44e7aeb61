-- ===== src/Connection/Progress/Complete.antt =====
-- Every connection that is up can be brought to its end.
use miptp_cpp.Prelude.{
  ℕ, zero, suc, ◌+◌, ◌-◌, ◌%◌, ◌^◌, ◌≤◌, ◌<◌, ◌≡◌, refl, sym, subst, ap, ◌∙◌, Bool, true, false,
  List, [], ◌∷◌, ◌++◌, All, append-nil, length, length-take, take, take_all, drop, arith,
}
use miptp_cpp.Outcome.{after}
use miptp_cpp.MiptpFrame.{MiptpFrame, get_source}
use miptp_cpp.CrossIpc.{AnonymousSocket, Received, received, recv_failed}
use miptp_cpp.CrossIpc.Stream.{concat}
use miptp_cpp.ClientHandler.{type_client, type_server, stage_connected, sequence_size}
use miptp_cpp.ClientHandler.Handlers.{handle_sock}
use miptp_cpp.ClientHandler.Acks.{in_flight}
use miptp_cpp.Connection.{
  Connection, Step, client_sock, client_timer, server_sock, server_timer, to_server, to_client,
  lost_to_server, lost_to_client, Run, stays, goes,
}
use miptp_cpp.Connection.Data.{Flight, Flight-drop}
use miptp_cpp.Connection.Unread.{unread}
use miptp_cpp.Connection.Sender.{Sources, All-drop}
use miptp_cpp.Connection.Delivery.{Established, Transfers, Run-Transfers, Established-Transfers}
use miptp_cpp.Connection.Pairing.{Ends, handle_sock-Ends, handle_timer-Ends, receive_frame-Ends}
use miptp_cpp.Connection.Progress.Server.{CanWrite, Serves}
use miptp_cpp.Connection.Progress.Client.{Asks}
use miptp_cpp.Connection.Progress.Loading.{CanRead, pending, Open, Loads, handle_sock-Loads}
use miptp_cpp.Connection.Progress.Round.{Numbered, Up, Leads, catch_up}

-- The frames in flight are numbered, and bear the client's port.
Flight-Numbered :
    (port : ℕ) (msgs : List (List ℕ)) (x : ℕ) (fs : List MiptpFrame)
    → port < 2 ^ 14
    → Flight msgs x fs
    → Sources port fs
    → Numbered port x fs
Flight-Numbered port msgs x [] p v s = tt
Flight-Numbered port msgs x (f ∷ fs) p ((m, at, d), v) s =
    (d.kind, d.number, omega (arith, s.0, p), Flight-Numbered port msgs (x + 1) fs p v s.1)

module _ (stream before : List ℕ) (at port of from : ℕ) (p : port < 2 ^ 14)
    (f : from < 2 ^ 14) where
  -- Both ends are up; the client's socket has so many reads left at most.
  abbrev Live : ℕ → Connection → Type 0
  Live most u =
      Loads at port from most u.client
      × Serves of from port u.server.m_current_ack u.server.m_out_queue true u.server

  -- A state that a run from `r` leads to, where no frame is in flight.
  abbrev Idle : Connection → ℕ → Type 0
  Idle r most = (u : Connection) × Run r u × Live most u × (u.client.m_used_slots ≡ 0)

  -- All frames in flight arrive and are acknowledged.
  caught_up :
      (r u : Connection) (most : ℕ)
      → Transfers stream before u
      → Run r u
      → Live most u
      → (ack : ℕ) × Leads at port of from u.client.m_sock r ack [] [] ack [] true
  caught_up r u most (got, base, waits, i, (v, _), (w, _)) run (l, s) =
      let c = u.client in
      let flying = in_flight c in
      let n : length flying ≡ c.m_used_slots =
        omega (arith, length-take c.m_used_slots c.m_frame_window, v.slots) in
      let left = drop (waits - base) flying in
      let asks : Asks at port from c.m_sock (base % sequence_size) flying c.m_out_queue c = record {
        type = l.type;
        stage = l.stage;
        to = l.ends.0;
        to_port = l.ends.1;
        from_port = l.ends.2;
        reads = refl;
        based = v.sequence;
        flies = refl;
        queued = refl;
        slots = i;
      } in
      let serves = subst (λ a. Serves of from port a u.server.m_out_queue true u.server) w.ack s in
      let ahead : base + (waits - base) ≡ waits = omega (arith, v.acked) in
      let rest =
        subst (λ x. Flight v.msgs x left) ahead
          (Flight-drop v.msgs base (waits - base) flying (omega (arith, n, v.got, v.loaded))
            v.flight) in
      let bear =
        subst (λ q. Sources q left) l.ends.2
          (All-drop (λ g. get_source g ≡ c.m_source_port % 2 ^ 14) (waits - base) flying
            v.sources) in
      catch_up at port of from c.m_sock r base waits flying c.m_out_queue u.server.m_out_queue p f
        v.acked (omega (arith, n, v.got, v.loaded)) (omega (arith, n, v.few))
        (Flight-Numbered from v.msgs waits left f rest bear) (u, run, (asks, serves))

  idle :
      (r t : Connection) (most ack : ℕ) (sock : AnonymousSocket)
      → Transfers stream before t
      → Run r t
      → Open most sock
      → Up at port of from sock ack [] [] ack [] true t
      → Idle r most
  idle r t most ack sock (_, _, _, _, (v, _), _) run o (a, b) = (
    t,
    run,
    (
      record {
        type = a.type;
        stage = a.stage;
        ends = (a.to, a.to_port, a.from_port);
        reads = subst (Open most) (sym a.reads) o;
        whole = v.whole;
      },
      subst (λ n. Serves of from port n t.server.m_out_queue true t.server) (sym b.acks)
          (subst (λ q. Serves of from port ack q true t.server) (sym b.queued) b),
    ),
    omega (
      arith,
      length-take t.client.m_used_slots t.client.m_frame_window,
      v.slots,
      ap length a.flies,
    ),
  )

  advance :
      (r u : Connection) (most : ℕ)
      → Transfers stream before r
      → Run r u
      → Live most u
      → Idle r most
  advance r u most start run l =
      let (ack, (t, further, up)) =
        caught_up r u most (Run-Transfers stream before run start) run l in
      idle r t most ack u.client.m_sock (Run-Transfers stream before further start) further
        l.0.reads up

  finish :
      (r : Connection) (most : ℕ) (u : Connection)
      → Transfers stream before r
      → Run r u
      → Live most u
      → Idle r 0
  finish r zero u start run l = advance r u 0 start run l
  finish r (suc most) u start run l =
      let (t, further, (lt, st), used) = advance r u (suc most) start run l in
      let every : ℕ → Bool = λ _. true in
      finish r most (record t { client = after (handle_sock every 0 t.client) }) start
        (goes further (client_sock every 0))
        (
          subst (λ k. Loads at port from k (after (handle_sock every 0 t.client)))
              (let same : suc most - 1 ≡ most = omega arith in same)
              (handle_sock-Loads at port from every 0 (suc most) t.client lt (omega (arith, used))),
          st,
        )

pending_none : (rs : List Received) → pending rs ≤ 0 → unread rs ≡ []
unfolding unread
pending_none [] h = refl
pending_none (received bs ∷ rs) h = absurd (omega arith)
pending_none (recv_failed e ∷ rs) h = absurd (omega arith)

-- With nothing in flight and nothing to read, all has been given.
all_given :
    (stream before : List ℕ) (u : Connection)
    → Transfers stream before u
    → u.client.m_used_slots ≡ 0
    → pending u.client.m_sock.recvs ≤ 0
    → u.server.m_sock.written ++ u.server.m_msg_buffer ≡ before ++ stream
all_given stream before u (got, base, waits, i, (v, _), (w, _)) used none_left =
    let all : take waits v.msgs ≡ v.msgs =
      take_all waits v.msgs (omega (arith, v.acked, v.loaded, used)) in
    w.given
    ∙ ap (λ l. before ++ l)
        (sym v.prefix
          ∙ ap concat all
          ∙ sym (append-nil (concat v.msgs))
          ∙ ap (λ l. concat v.msgs ++ l) (sym (pending_none u.client.m_sock.recvs none_left))
          ∙ v.rest)

-- Both ends know each other's addresses and ports.
abbrev pub Paired : ℕ → ℕ → ℕ → ℕ → Connection → Type 0
Paired at port of from s = Ends at port from s.client × Ends of from port s.server

module _ (stream before : List ℕ) (at port of from : ℕ) where
  Step-Paired :
      (s t : Connection)
      → Step s t
      → Transfers stream before s
      → Paired at port of from s
      → Paired at port of from t
  Step-Paired s _ step (_, _, _, _, (_, c), (_, d)) (v, w) = go step
    where
      go : {t : Connection} → Step s t → Paired at port of from t
      go (client_sock free free_port) =
          (handle_sock-Ends at port from type_client s.client c v free free_port, w)
      go (client_timer free free_port) =
          (handle_timer-Ends at port from type_client s.client c v free free_port, w)
      go (server_sock free free_port) =
          (v, handle_sock-Ends of from port type_server s.server d w free free_port)
      go (server_timer free free_port) =
          (v, handle_timer-Ends of from port type_server s.server d w free free_port)
      go (to_server source e queue q) =
          (v, receive_frame-Ends of from port type_server s.server d w source e.1)
      go (to_client source e queue q) =
          (receive_frame-Ends at port from type_client s.client c v source e.1, w)
      go (lost_to_server e queue q) = (v, w)
      go (lost_to_client e queue q) = (v, w)

  Run-Paired :
      {s t : Connection}
      → Run s t
      → Transfers stream before s
      → Paired at port of from s
      → Paired at port of from t
  Run-Paired stays z v = v
  Run-Paired (goes {t = t} {u = u} run step) z v =
      Step-Paired t u step (Run-Transfers stream before run z) (Run-Paired run z v)

-- Both ends are up: neither has failed, the server has heard from the client since its timer last
-- expired, and the applications go on, so that what is left of the sockets' calls finds no closed end
-- and no failure.
pub record IsUp (s : Connection) : Type 0 where
  pub client_stage : s.client.m_stage ≡ stage_connected
  pub server_stage : s.server.m_stage ≡ stage_connected
  pub heard : s.server.m_connected_reply ≡ true
  pub sock : s.client.m_sock.m_closed ≡ false
  pub recvs : All CanRead s.client.m_sock.recvs
  pub sends : All CanWrite s.server.m_sock.sends

-- Whatever has happened to a connection since it was made, and whatever has been lost: while both ends
-- are up, there is a run by which all that the client's application sends comes to the server, in the
-- hands of its application or in the buffer for it, and no frame is left in flight.
pub Run-completes :
    (stream before : List ℕ) (at port of from : ℕ) (s t : Connection)
    → port < 2 ^ 14
    → from < 2 ^ 14
    → Established stream before s
    → Paired at port of from s
    → Run s t
    → IsUp t
    → (u : Connection) × Run t u
      × (u.client.m_used_slots ≡ 0)
      × (u.server.m_sock.written ++ u.server.m_msg_buffer ≡ before ++ stream)
Run-completes stream before at port of from s t p f made pair run up =
    let first = Established-Transfers stream before s made in
    let start = Run-Transfers stream before run first in
    let (v, w) = Run-Paired stream before at port of from run first pair in
    let (_, _, _, _, (sender, c), (_, d)) = start in
    let most = pending t.client.m_sock.recvs in
    let (u, further, (l, _), used) = finish stream before at port of from p f t most t start stays (
      record {
        type = c.0;
        stage = up.client_stage;
        ends = v;
        reads = (up.sock, up.recvs, omega arith);
        whole = sender.whole;
      },
      record {
        type = d.0;
        stage = up.server_stage;
        to = w.0;
        to_port = w.1;
        from_port = w.2;
        acks = refl;
        queued = refl;
        hears = up.heard;
        sends = up.sends;
      },
    ) in
    (
      u,
      further,
      used,
      all_given stream before u (Run-Transfers stream before further start) used l.reads.2,
    )
