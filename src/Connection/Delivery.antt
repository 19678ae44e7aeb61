-- ===== src/Connection/Delivery.antt =====
-- What the receiving application of a connection is given.
use miptp_cpp.Prelude.{
  ℕ, zero, suc, ◌+◌, ◌-◌, ◌≤◌, ◌≡◌, inl, inr, refl, ap, sym, subst, ◌∙◌, Option, none, some, List,
  [], ◌∷◌, ◌++◌, All, append_assoc, take-append-drop, drop_all, drop-drop, drop-length_append,
  get_elem?, length, length-take, map, take, drop, arith,
}
use miptp_cpp.Outcome.{after}
use miptp_cpp.Bytes.{IsBytes}
use miptp_cpp.MiptpFrame.{MiptpFrame}
use miptp_cpp.MiptpFrame.Words.{IsFrame}
use miptp_cpp.CrossIpc.Stream.{concat}
use miptp_cpp.ClientHandler.{ClientHandler, window_size, type_client, type_server}
use miptp_cpp.ClientHandler.Receive.{receive_frame}
use miptp_cpp.ClientHandler.Acks.{in_flight}
use miptp_cpp.MiptpFrame.Message.{message}
use miptp_cpp.ClientHandler.Slots.{IsClient}
use miptp_cpp.ClientHandler.Slots.Frames.{IsClient-invariant}
use miptp_cpp.Connection.{
  Connection, Step, client_sock, client_timer, server_sock, server_timer, to_server, to_client,
  lost_to_server, lost_to_client, Run, stays, goes, without_front,
}
use miptp_cpp.Connection.Numbers.{AckOrder, DataOrder}
use miptp_cpp.Connection.Data.{IsControl, OnTheWay, Flight}
use miptp_cpp.Connection.Unread.{unread}
use miptp_cpp.Connection.Sender.{Sender, Sources, IsOpen, Sends}
use miptp_cpp.Connection.Sender.Moves.{Sender-first}
use miptp_cpp.Connection.Sender.Handlers.{handle_sock-Sends, handle_timer-Sends}
use miptp_cpp.Connection.Sender.Acks.{receive_ack-Advanced, receive_control-Advanced}
use miptp_cpp.Connection.Receiver.{
  Receiver, BackWay, Receives, handle_sock-Receives, handle_timer-Receives,
}
use miptp_cpp.Connection.Receiver.Taking.{
  Receiver-first, receive_control-Receives, receive_data-Took,
}

-- In every state: so many messages are acknowledged, so many have been taken.
abbrev pub Transfers : List ℕ → List ℕ → Connection → Type 0
Transfers stream before s =
    (received : List ℕ) × (base : ℕ) × (waits : ℕ) × IsClient s.client
    × Sends stream received base waits s.client
    × Receives before received base waits s.server

pub without_front-IsClient :
    (queue : List (ℕ × MiptpFrame)) (c : ClientHandler)
    → IsClient c
    → IsClient (without_front queue c)
without_front-IsClient queue c i = record {
  window = i.window;
  frames = i.frames;
  base = i.base;
  ack = i.ack;
}

module _ (stream before : List ℕ) where
  -- A frame comes to the server, or is lost on the way there.
  there :
      (s : Connection) (source : ℕ) (e : ℕ × MiptpFrame) (queue : List (ℕ × MiptpFrame))
      → s.client.m_out_queue ≡ e ∷ queue
      → Transfers stream before s
      → Transfers stream before (record s { client = without_front queue s.client })
        × Transfers stream before (record {
          client = without_front queue s.client;
          server = after (receive_frame 0 source e.1 s.server);
        })
  there s source e queue q (received, base, waits, i, (v, side), w) =
      let c = s.client in
      let (left, front) = Sender-first e queue (
        subst
          (λ l.
            Sender c.m_source_port stream received base waits c.m_sequence_base c.m_used_slots
              c.m_frame_window l c.m_sock.recvs)
          q v) in
      let j = without_front-IsClient queue c i in
      (
        (received, base, waits, j, (left, side), w),
        elim front [
          | inl kind ↦ (
            received,
            base,
            waits,
            j,
            (left, side),
            receive_control-Receives before received base waits source e.1 s.server kind w,
          )
          | inr (x, m, data_frame, low, high, next) ↦
              elim (receive_data-Took before received base waits source x m e.1 s.server data_frame
                low high w) [
                  | inl same ↦ (received, base, waits, j, (left, side), same)
                  | inr (waited, taken) ↦
                      (received ++ m, base, waits + 1, j, (next waited, side), taken)
                ]
        ],
      )

  -- A frame comes back to the client, or is lost on the way back.
  back :
      (s : Connection) (source : ℕ) (e : ℕ × MiptpFrame) (queue : List (ℕ × MiptpFrame))
      → s.server.m_out_queue ≡ e ∷ queue
      → Transfers stream before s
      → Transfers stream before (record s { server = without_front queue s.server })
        × Transfers stream before (record {
          client = after (receive_frame 0 source e.1 s.client);
          server = without_front queue s.server;
        })
  back s source e queue q (received, base, waits, i, v, (w, side)) =
      let d = s.server in
      let j = (IsClient-invariant s.client i).2 0 source e.1 in
      elim (Receiver-first e queue (
        subst
          (λ l.
            Receiver before received base waits d.m_current_ack l d.m_msg_buffer d.m_sock.written)
          q w)) [
            | inl (kind, left) ↦
                let (b, low, high, moved) =
                  receive_control-Advanced stream received base waits source e.1 s.client kind v in
                let same : base ≡ b = omega (arith, low, high) in
                (
                  (received, base, waits, i, v, (left, side)),
                  (
                    received,
                    b,
                    waits,
                    j,
                    moved,
                    (
                      subst
                          (λ n.
                            Receiver before received n waits d.m_current_ack queue d.m_msg_buffer
                              d.m_sock.written)
                          same left,
                      side,
                    ),
                  ),
                )
            | inr (a, is, low, high, left) ↦
                let (b, up, most, moved) =
                  receive_ack-Advanced stream received base waits a source e.1 s.client i is low
                    high v in
                (
                  (received, base, waits, i, v, (left base low, side)),
                  (received, b, waits, j, moved, (left b most, side)),
                )
          ]

  pub Step-Transfers :
      (s t : Connection) → Step s t → Transfers stream before s → Transfers stream before t
  Step-Transfers s _ (client_sock free port) (received, base, waits, i, v, w) = (
    received,
    base,
    waits,
    (IsClient-invariant s.client i).0 free port,
    handle_sock-Sends stream received base waits free port s.client v,
    w,
  )
  Step-Transfers s _ (client_timer free port) (received, base, waits, i, v, w) = (
    received,
    base,
    waits,
    (IsClient-invariant s.client i).1 free port,
    handle_timer-Sends stream received base waits free port s.client v,
    w,
  )
  Step-Transfers s _ (server_sock free port) (received, base, waits, i, v, w) = (
    received,
    base,
    waits,
    i,
    v,
    handle_sock-Receives before received base waits free port s.server w,
  )
  Step-Transfers s _ (server_timer free port) (received, base, waits, i, v, w) = (
    received,
    base,
    waits,
    i,
    v,
    handle_timer-Receives before received base waits free port s.server w,
  )
  Step-Transfers s _ (to_server source e queue q) z = (there s source e queue q z).1
  Step-Transfers s _ (to_client source e queue q) z = (back s source e queue q z).1
  Step-Transfers s _ (lost_to_server e queue q) z = (there s 0 e queue q z).0
  Step-Transfers s _ (lost_to_client e queue q) z = (back s 0 e queue q z).0

  pub Run-Transfers :
      {s t : Connection} → Run s t → Transfers stream before s → Transfers stream before t
  Run-Transfers stays z = z
  Run-Transfers (goes {t = t} {u = u} run step) z = Step-Transfers t u step (Run-Transfers run z)

-- A connection that has just been made: the client's socket holds the stream, the server's application
-- has been given some bytes, and only requests and replies are on the way.
pub record Established (stream before : List ℕ) (s : Connection) : Type 0 where
  pub slots : IsClient s.client
  pub sends : IsOpen type_client s.client
  pub receives : IsOpen type_server s.server
  pub base : s.client.m_sequence_base ≡ 0
  pub used : s.client.m_used_slots ≡ 0
  pub frames : All IsFrame s.client.m_frame_window
  pub whole : length s.client.m_frame_window ≡ window_size
  pub there : All (λ e. IsControl e.1) s.client.m_out_queue
  pub to_send : unread s.client.m_sock.recvs ≡ stream
  pub bytes : IsBytes stream
  pub ack : s.server.m_current_ack ≡ 0
  pub back : All (λ e. IsControl e.1) s.server.m_out_queue
  pub buffer : s.server.m_msg_buffer ≡ []
  pub given : s.server.m_sock.written ≡ before

abbrev nones : List (ℕ × MiptpFrame) → List (Option ℕ)
nones = map (λ _. none)

nones-OnTheWay :
    (queue : List (ℕ × MiptpFrame))
    → All (λ e. IsControl e.1) queue
    → OnTheWay [] (nones queue) queue
nones-OnTheWay [] h = tt
nones-OnTheWay (e ∷ queue) h = (h.0, nones-OnTheWay queue h.1)

nones-BackWay :
    (queue : List (ℕ × MiptpFrame)) → All (λ e. IsControl e.1) queue → BackWay (nones queue) queue
nones-BackWay [] h = tt
nones-BackWay (e ∷ queue) h = (h.0, nones-BackWay queue h.1)

nones-DataOrder : (queue : List (ℕ × MiptpFrame)) → DataOrder 0 0 (nones queue)
nones-DataOrder [] = tt
nones-DataOrder (e ∷ queue) = nones-DataOrder queue

nones-AckOrder : (queue : List (ℕ × MiptpFrame)) → AckOrder 0 0 (nones queue)
nones-AckOrder [] = tt
nones-AckOrder (e ∷ queue) = nones-AckOrder queue

pub Established-Transfers :
    (stream before : List ℕ) (s : Connection)
    → Established stream before s
    → Transfers stream before s
Established-Transfers stream before s v =
    let c = s.client in
    let d = s.server in
    (
      [],
      0,
      0,
      v.slots,
      (
        record {
          msgs = [];
          xs = nones c.m_out_queue;
          sequence = v.base;
          few = v.slots.window;
          slots = v.slots.frames;
          whole = v.whole;
          loaded = omega (arith, v.used);
          acked = omega arith;
          got = omega arith;
          flight = subst (λ n. Flight [] 0 (take n c.m_frame_window)) (sym v.used) tt;
          frames = v.frames;
          sources = subst (λ n. Sources c.m_source_port (take n c.m_frame_window)) (sym v.used) tt;
          way = nones-OnTheWay c.m_out_queue v.there;
          order = nones-DataOrder c.m_out_queue;
          prefix = refl;
          rest = v.to_send;
          bytes = subst IsBytes (sym v.to_send) v.bytes;
        },
        v.sends,
      ),
      (
        record {
          xs = nones d.m_out_queue;
          ack = v.ack;
          way = nones-BackWay d.m_out_queue v.back;
          order = nones-AckOrder d.m_out_queue;
          ahead = omega arith;
          given = ap (λ l. d.m_sock.written ++ l) v.buffer ∙ ap (λ l. l ++ []) v.given;
        },
        v.receives,
      ),
    )

concat-append : (xs ys : List (List ℕ)) → concat (xs ++ ys) ≡ concat xs ++ concat ys
concat-append [] ys = refl
concat-append (x ∷ xs) ys =
    ap (λ l. x ++ l) (concat-append xs ys) ∙ sym (append_assoc x (concat xs) (concat ys))

drop-next :
    (msgs : List (List ℕ)) (x : ℕ) (m : List ℕ)
    → get_elem? msgs x ≡ some m
    → drop x msgs ≡ m ∷ drop (x + 1) msgs
drop-next [] x m e = cc
drop-next (a ∷ msgs) zero m e = ap (λ b. b ∷ msgs) (let same : a ≡ m = cc in same)
drop-next (a ∷ msgs) (suc x) m e =
    drop-next msgs x m e
    ∙ ap (λ k. m ∷ drop k (a ∷ msgs)) (let same : suc (x + 1) ≡ suc x + 1 = omega arith in same)

-- The frames in flight hold the messages that are not acknowledged.
Flight-messages :
    (msgs : List (List ℕ)) (x : ℕ) (fs : List MiptpFrame)
    → Flight msgs x fs
    → x + length fs ≡ length msgs
    → map message fs ≡ drop x msgs
Flight-messages msgs x [] v e = sym (drop_all x msgs (omega (arith, e)))
Flight-messages msgs x (f ∷ fs) ((m, at, d), v) e =
    ap (λ b. b ∷ map message fs) d.holds
    ∙ ap (λ l. m ∷ l) (Flight-messages msgs (x + 1) fs v (omega (arith, e)))
    ∙ sym (drop-next msgs x m at)

-- What a client still has of the stream: the messages of its frames in flight, and what it has not
-- read from its application.
pub held : ClientHandler → List ℕ
held c = concat (map message (in_flight c)) ++ unread c.m_sock.recvs

-- The messages from the base on are those up to the one that is waited for, and those after.
split_messages :
    (msgs : List (List ℕ)) (base waits : ℕ)
    → base ≤ waits
    → concat (drop base msgs)
      ≡ concat (take (waits - base) (drop base msgs)) ++ concat (drop waits msgs)
split_messages msgs base waits h =
    ap concat (sym (take-append-drop (waits - base) (drop base msgs)))
    ∙ concat-append (take (waits - base) (drop base msgs)) (drop (waits - base) (drop base msgs))
    ∙ ap (λ l. concat (take (waits - base) (drop base msgs)) ++ concat l)
        (drop-drop (waits - base) base msgs ∙ ap (λ k. drop k msgs) (omega (arith, h)))

received_rest :
    (stream before : List ℕ) (t : Connection)
    → Transfers stream before t
    → (n : ℕ) × ((t.server.m_sock.written ++ t.server.m_msg_buffer) ++ drop n (held t.client)
        ≡ before ++ stream)
unfolding held
received_rest stream before t (received, base, waits, i, (v, side), (w, side')) =
    let taken = concat (take (waits - base) (drop base v.msgs)) in
    let more = concat (drop waits v.msgs) in
    let later = unread t.client.m_sock.recvs in
    let flying = take t.client.m_used_slots t.client.m_frame_window in
    let n : length flying ≡ t.client.m_used_slots =
      omega (arith, length-take t.client.m_used_slots t.client.m_frame_window, v.slots) in
    let messages : map message flying ≡ drop base v.msgs =
      Flight-messages v.msgs base flying v.flight (omega (arith, v.loaded, n)) in
    let all : held t.client ≡ taken ++ (more ++ later) =
      ap (λ l. concat l ++ later) messages
      ∙ ap (λ l. l ++ later) (split_messages v.msgs base waits v.acked)
      ∙ append_assoc taken more later in
    (
      length taken,
      ap (λ l. (t.server.m_sock.written ++ t.server.m_msg_buffer) ++ drop (length taken) l) all
          ∙ ap (λ l. (t.server.m_sock.written ++ t.server.m_msg_buffer) ++ l)
              (drop-length_append taken (more ++ later))
          ∙ ap (λ l. l ++ (more ++ later)) w.given
          ∙ append_assoc before received (more ++ later)
          ∙ ap (λ l. before ++ l)
              (ap (λ l. l ++ (more ++ later)) (sym v.prefix)
                ∙ sym (append_assoc (concat (take waits v.msgs)) more later)
                ∙ ap (λ l. l ++ later)
                    (sym (concat-append (take waits v.msgs) (drop waits v.msgs))
                      ∙ ap concat (take-append-drop waits v.msgs))
                ∙ v.rest),
    )

-- However the events of a connection come after it has been made, and whatever frames are lost on the
-- way: what the server's application has been given, followed by what waits for it in the buffer and
-- by an end of what the client still holds, is what it had at first followed by the bytes that the
-- client's application sends. So the bytes come in order, none twice, and those that have not come
-- are still held. The bytes that `getSequenceNumber` leaves unset are 0 here.
pub Run-received :
    (stream before : List ℕ) (s t : Connection)
    → Established stream before s
    → Run s t
    → (n : ℕ) × ((t.server.m_sock.written ++ t.server.m_msg_buffer) ++ drop n (held t.client)
        ≡ before ++ stream)
Run-received stream before s t v run =
    received_rest stream before t
      (Run-Transfers stream before run (Established-Transfers stream before s v))
