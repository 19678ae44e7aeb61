-- ===== src/Connection/Progress/Round.antt =====
-- A run in which nothing is lost: the server's timer expires, its ack and its request arrive, the frames
-- that the client sends again arrive, and the server's timer expires once more.
use miptp_cpp.Prelude.{
  ℕ, suc, ◌+◌, ◌-◌, ◌%◌, ◌^◌, ◌≤◌, ◌<◌, ◌≡◌, refl, sym, subst, ◌∙◌, Bool, true, false, List, [],
  ◌∷◌, ◌++◌, drop, drop_all, length, length-drop, arith,
}
use miptp_cpp.Outcome.{after}
use miptp_cpp.MiptpFrame.{
  MiptpFrame, get_type, get_source, get_sequence_number, request, reply, sack, data_packet,
}
use miptp_cpp.CrossIpc.{AnonymousSocket}
use miptp_cpp.ClientHandler.{ClientHandler, sequence_size, window_size, control_frame, queue_frames}
use miptp_cpp.ClientHandler.Receive.{handle_timer, receive_frame}
use miptp_cpp.ClientHandler.Window.{distance}
use miptp_cpp.Connection.{
  Connection, Run, goes, server_timer, to_server, to_client, lost_to_server, lost_to_client,
  without_front,
}
use miptp_cpp.Connection.Fill.{control_frame_lem}
use miptp_cpp.Connection.Delivery.{without_front-IsClient}
use miptp_cpp.Connection.Progress.Server.{
  Serves, expired, handle_timer-Serves, receive_next-Serves, receive_reply-Serves,
}
use miptp_cpp.Connection.Progress.Client.{Asks, receive_request-Asks, receive_ack-Asks}

-- Frames of data with the port of their sender, numbered in the sequence space.
abbrev pub Numbered : ℕ → ℕ → List MiptpFrame → Type 0
Numbered port n [] = Unit
Numbered port n (f ∷ fs) =
    (get_type f ≡ data_packet)
    × (get_sequence_number 0 f ≡ n % sequence_size)
    × (get_source f ≡ port)
    × Numbered port (n + 1) fs

without_front-Asks :
    (address peer port : ℕ) (sock : AnonymousSocket) (base : ℕ) (flying : List MiptpFrame)
    (queue rest : List (ℕ × MiptpFrame)) (c : ClientHandler)
    → Asks address peer port sock base flying queue c
    → Asks address peer port sock base flying rest (without_front rest c)
without_front-Asks address peer port sock base flying queue rest c v = record {
  reads = v.reads;
  type = v.type;
  stage = v.stage;
  to = v.to;
  to_port = v.to_port;
  from_port = v.from_port;
  based = v.based;
  flies = v.flies;
  queued = refl;
  slots = without_front-IsClient rest c v.slots;
}

without_front-Serves :
    (address peer port ack : ℕ) (queue rest : List (ℕ × MiptpFrame)) (heard : Bool)
    (c : ClientHandler)
    → Serves address peer port ack queue heard c
    → Serves address peer port ack rest heard (without_front rest c)
without_front-Serves address peer port ack queue rest heard c v = record {
  type = v.type;
  stage = v.stage;
  to = v.to;
  to_port = v.to_port;
  from_port = v.from_port;
  acks = v.acks;
  queued = refl;
  hears = v.hears;
  sends = v.sends;
}

-- The two ends see each other, by the server's address and port, the client's, and its socket.
module _ (at port of from : ℕ) (sock : AnonymousSocket) where
  abbrev pub Up :
      ℕ
      → List MiptpFrame
      → List (ℕ × MiptpFrame)
      → ℕ
      → List (ℕ × MiptpFrame)
      → Bool
      → Connection
      → Type 0
  Up base flying there ack back heard s =
      Asks at port from sock base flying there s.client
      × Serves of from port ack back heard s.server

  -- A run from `r` leads to such a state.
  abbrev pub Leads :
      Connection
      → ℕ
      → List MiptpFrame
      → List (ℕ × MiptpFrame)
      → ℕ
      → List (ℕ × MiptpFrame)
      → Bool
      → Type 0
  Leads r base flying there ack back heard =
      (u : Connection) × Run r u × Up base flying there ack back heard u

  module _ (r : Connection) (base : ℕ) (flying : List MiptpFrame) (ack : ℕ) (heard : Bool) where
    lose_there :
        (there back : List (ℕ × MiptpFrame))
        → Leads r base flying there ack back heard
        → Leads r base flying [] ack back heard
    lose_there [] back l = l
    lose_there (e ∷ there) back (u, run, (v, w)) = lose_there there back (
      record u { client = without_front there u.client },
      goes run (lost_to_server e there v.queued),
      (without_front-Asks at port from sock base flying (e ∷ there) there u.client v, w),
    )

    lose_back :
        (there back : List (ℕ × MiptpFrame))
        → Leads r base flying there ack back heard
        → Leads r base flying there ack [] heard
    lose_back there [] l = l
    lose_back there (e ∷ back) (u, run, (v, w)) = lose_back there back (
      record u { server = without_front back u.server },
      goes run (lost_to_client e back w.queued),
      (v, without_front-Serves of from port ack (e ∷ back) back heard u.server w),
    )

  module _ (r : Connection) (base : ℕ) (flying : List MiptpFrame) (heard : Bool) where
    -- The frames in front of the queue arrive.
    deliver :
        (ack n : ℕ) (fs : List MiptpFrame) (rest : List (ℕ × MiptpFrame))
        → Numbered from n fs
        → ack ≡ n % sequence_size
        → Leads r base flying (queue_frames at fs ++ rest) ack [] heard
        → Leads r base flying rest ((n + length fs) % sequence_size) [] heard
    unfolding queue_frames
    deliver ack n [] rest m e l =
        subst (λ k. Leads r base flying rest k [] heard)
          (let same : ack ≡ (n + 0) % sequence_size = omega (arith, e) in same) l
    deliver ack n (f ∷ fs) rest (kind, number, source, m) e (u, run, (v, w)) =
        let queue = queue_frames at fs ++ rest in
        let next : (ack + 1) % sequence_size ≡ (n + 1) % sequence_size = omega (arith, e) in
        subst (λ k. Leads r base flying rest (k % sequence_size) [] heard)
          (let same : n + 1 + length fs ≡ n + suc (length fs) = omega arith in same)
          (deliver ((ack + 1) % sequence_size) (n + 1) fs rest m next (
            record {
              client = without_front queue u.client;
              server = after (receive_frame 0 of f u.server);
            },
            goes run (to_server of (at, f) queue v.queued),
            (
              without_front-Asks at port from sock base flying ((at, f) ∷ queue) queue u.client v,
              receive_next-Serves of from port ack [] heard f u.server w source kind
                  (number ∙ sym e),
            ),
          ))

    reply_arrives :
        (ack : ℕ)
        → from < 2 ^ 14
        → Leads r base flying ((at, control_frame reply port from 0) ∷ []) ack [] heard
        → Leads r base flying [] ack [] true
    reply_arrives ack f (u, run, (v, w)) =
        let reply_frame = control_frame reply port from 0 in
        let (kind, _, source) = control_frame_lem reply port from 0 in
        (
          record {
            client = without_front [] u.client;
            server = after (receive_frame 0 of reply_frame u.server);
          },
          goes run (to_server of (at, reply_frame) [] v.queued),
          (
            without_front-Asks at port from sock base flying ((at, reply_frame) ∷ []) [] u.client v,
            receive_reply-Serves of from port ack [] heard reply_frame u.server w
                (omega (arith, source, f)) kind,
          ),
        )

  -- The server's timer expires, and what it sends arrives.
  exchange :
      (r : Connection) (base ack : ℕ) (flying : List MiptpFrame)
      → port < 2 ^ 14
      → ack < sequence_size
      → distance base ack ≤ window_size
      → Leads r base flying [] ack [] true
      → Leads r ack
          (drop (distance base ack) flying)
          (queue_frames at (drop (distance base ack) flying)
            ++ (at, control_frame reply port from 0) ∷ [])
          ack
          []
          false
  exchange r base ack flying p small near (u, run, (v, w)) =
      let every : ℕ → Bool = λ _. true in
      let ack_frame = control_frame sack from port ack in
      let request_frame = control_frame request from port 0 in
      let (ack_kind, number, ack_source) = control_frame_lem sack from port ack in
      let (request_kind, _, request_source) = control_frame_lem request from port 0 in
      let left = drop (distance base ack) flying in
      let d = after (handle_timer every 0 u.server) in
      let w' = handle_timer-Serves of from port ack [] every 0 u.server w in
      let c = after (receive_frame 0 at ack_frame u.client) in
      let d' = without_front ((of, request_frame) ∷ []) d in
      let w'' =
        without_front-Serves of from port ack (expired of from port ack [])
          ((of, request_frame) ∷ []) false d w' in
      let v' =
        receive_ack-Asks at port from sock base flying [] ack_frame u.client v
          (omega (arith, ack_source, p)) ack ack_kind (omega (arith, number, small)) small near in
      (
        record {
          client = after (receive_frame 0 at request_frame c);
          server = without_front [] d';
        },
        goes
            (goes (goes run (server_timer every 0))
              (to_client at (of, ack_frame) ((of, request_frame) ∷ []) w'.queued))
            (to_client at (of, request_frame) [] refl),
        (
          receive_request-Asks at port from sock ack left (queue_frames at left) request_frame c v'
              (omega (arith, request_source, p)) request_kind,
          without_front-Serves of from port ack ((of, request_frame) ∷ []) [] false d' w'',
        ),
      )

  -- All frames in flight arrive and are acknowledged, whatever is lost first: of the messages from
  -- number `base` on the server has those before number `waits`.
  pub catch_up :
      (r : Connection) (base waits : ℕ) (flying : List MiptpFrame)
      (there back : List (ℕ × MiptpFrame))
      → port < 2 ^ 14
      → from < 2 ^ 14
      → base ≤ waits
      → waits ≤ base + length flying
      → length flying ≤ window_size
      → Numbered from waits (drop (waits - base) flying)
      → Leads r (base % sequence_size) flying there (waits % sequence_size) back true
      → (ack : ℕ) × Leads r ack [] [] ack [] true
  unfolding queue_frames
  catch_up r base waits flying there back p f low high few m l =
      let b = base % sequence_size in
      let a = waits % sequence_size in
      let left = drop (waits - base) flying in
      let n : length left ≡ base + length flying - waits =
        omega (arith, length-drop (waits - base) flying, low, high) in
      let ahead : distance b a ≡ waits - base = omega (arith, low, high, few) in
      let last = (waits + length left) % sequence_size in
      let rest : distance a last ≡ length left = omega (arith, n, low, high, few) in
      let answer : List (ℕ × MiptpFrame) = (at, control_frame reply port from 0) ∷ [] in
      let first =
        exchange r b a flying p (omega arith) (omega (arith, ahead, low, high, few))
          (lose_back r b flying a true [] back (lose_there r b flying a true there back l)) in
      let resent =
        subst
          (λ d. Leads r a (drop d flying) (queue_frames at (drop d flying) ++ answer) a [] false)
          ahead first in
      let taken = deliver r a left false a waits left answer m refl resent in
      let second =
        exchange r a last left p (omega arith) (omega (arith, rest, n, low, high, few))
          (reply_arrives r a left false last f taken) in
      let empty : drop (distance a last) left ≡ [] =
        drop_all (distance a last) left (omega (arith, rest)) in
      (
        last,
        reply_arrives r last [] false last f
            (subst (λ l. Leads r last l (queue_frames at l ++ answer) last [] false) empty second),
      )
