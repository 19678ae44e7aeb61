-- ===== src/Connection/Sender.antt =====
-- The sending end: what holds of a client of src/ClientHandler.cpp and of what it has put on the way.
pub mod Loading
pub mod Moves
pub mod Handlers
pub mod Acks
use miptp_cpp.Prelude.{
  ℕ, zero, suc, ◌+◌, ◌-◌, ◌%◌, ◌^◌, ◌≤◌, ◌<◌, ◌≡◌, ◌⊎◌, inl, inr, refl, sym, subst, ap, ◌∙◌, Bool,
  true, false, Option, none, some, List, [], ◌∷◌, ◌++◌, All, All-append, length, length-append,
  take, drop, set, length-set, length-take, take-append, append_assoc, append-nil, get_elem?, arith,
}
use miptp_cpp.Bytes.{IsBytes}
use miptp_cpp.MiptpFrame.{MiptpFrame, get_source}
use miptp_cpp.MiptpFrame.Words.{IsFrame}
use miptp_cpp.CrossIpc.{Received}
use miptp_cpp.CrossIpc.Stream.{concat}
use miptp_cpp.ClientHandler.{
  ClientType, type_client, stage_connected, stage_failure, ClientHandler, sequence_size,
  window_size, queue_frames,
}
use miptp_cpp.Connection.Fill.{IsFilled}
use miptp_cpp.Connection.Numbers.{
  DataOrder, DataOrder-loaded, DataOrder-none, DataOrder-taken, DataOrder-window, numbers,
}
use miptp_cpp.Connection.Data.{
  IsData, IsControl, Flight, OnTheWay, Flight-more, OnTheWay-more, OnTheWay-control,
  OnTheWay-window, Flight-last, get_elem?-last,
}
use miptp_cpp.Connection.Unread.{unread}

take-set : {A : Type 0} (n : ℕ) (xs : List A) (a : A) → take n (set xs n a) ≡ take n xs
take-set zero xs a = refl
take-set (suc n) [] a = refl
take-set (suc n) (x ∷ xs) a = ap (λ l. x ∷ l) (take-set n xs a)

take-set_next :
    {A : Type 0} (n : ℕ) (xs : List A) (a : A)
    → n < length xs
    → take (n + 1) (set xs n a) ≡ take n xs ++ a ∷ []
take-set_next n [] a h = absurd (omega arith)
take-set_next zero (x ∷ xs) a h = refl
take-set_next (suc n) (x ∷ xs) a h =
    ap (λ k. take k (x ∷ set xs n a)) (let same : suc n + 1 ≡ suc (n + 1) = omega arith in same)
    ∙ ap (λ l. x ∷ l) (take-set_next n xs a (omega arith))

All-set :
    {A : Type 0} (P : A → Type 0) (xs : List A) (i : ℕ) (a : A)
    → P a
    → All P xs
    → All P (set xs i a)
All-set P [] i a p h = tt
All-set P (x ∷ xs) zero a p h = (p, h.1)
All-set P (x ∷ xs) (suc i) a p h = (h.0, All-set P xs i a p h.1)

pub All-drop : {A : Type 0} (P : A → Type 0) (n : ℕ) (xs : List A) → All P xs → All P (drop n xs)
All-drop P zero xs h = h
All-drop P (suc n) [] h = tt
All-drop P (suc n) (x ∷ xs) h = All-drop P n xs h.1

pub concat-last : (xs : List (List ℕ)) (m : List ℕ) → concat (xs ++ m ∷ []) ≡ concat xs ++ m
concat-last [] m = append-nil m
concat-last (x ∷ xs) m = ap (λ l. x ++ l) (concat-last xs m) ∙ sym (append_assoc x (concat xs) m)

All-append_right : {A : Type 0} (P : A → Type 0) (xs ys : List A) → All P (xs ++ ys) → All P ys
All-append_right P [] ys h = h
All-append_right P (x ∷ xs) ys h = All-append_right P xs ys h.1

pub All-append_left : {A : Type 0} (P : A → Type 0) (xs ys : List A) → All P (xs ++ ys) → All P xs
All-append_left P [] ys h = tt
All-append_left P (x ∷ xs) ys h = (h.0, All-append_left P xs ys h.1)

-- The messages loaded so far, `base` of them acknowledged; the receiver waits for number `waits` and
-- has got the bytes of those before it. The last parameters are fields of the client.
-- Frames that bear a port, as it fits into the header.
abbrev pub Sources : ℕ → List MiptpFrame → Type 0
Sources port = All (λ f. get_source f ≡ port % 2 ^ 14)

pub record Sender (m_source_port : ℕ) (stream received : List ℕ) (base waits : ℕ)
    (m_sequence_base m_used_slots : ℕ) (m_frame_window : List MiptpFrame)
    (m_out_queue : List (ℕ × MiptpFrame)) (recvs : List Received) : Type 0 where
  pub msgs : List (List ℕ)
  pub xs : List (Option ℕ)
  pub sequence : m_sequence_base ≡ base % sequence_size
  pub few : m_used_slots ≤ window_size
  pub slots : m_used_slots ≤ length m_frame_window
  pub whole : length m_frame_window ≡ window_size
  pub loaded : base + m_used_slots ≡ length msgs
  pub acked : base ≤ waits
  pub got : waits ≤ length msgs
  pub flight : Flight msgs base (take m_used_slots m_frame_window)
  pub frames : All IsFrame m_frame_window
  pub sources : Sources m_source_port (take m_used_slots m_frame_window)
  pub way : OnTheWay msgs xs m_out_queue
  pub order : DataOrder (length msgs) waits xs
  pub prefix : concat (take waits msgs) ≡ received
  pub rest : concat msgs ++ unread recvs ≡ stream
  pub bytes : IsBytes (unread recvs)

abbrev pub IsSender : List ℕ → List ℕ → ℕ → ℕ → ClientHandler → Type 0
IsSender stream received base waits c =
    Sender c.m_source_port stream received base waits c.m_sequence_base c.m_used_slots
      c.m_frame_window c.m_out_queue c.m_sock.recvs

-- An end that is connected, or has failed, in its role.
abbrev pub IsOpen : ClientType → ClientHandler → Type 0
IsOpen type c = (c.m_type ≡ type) × ((c.m_stage ≡ stage_connected) ⊎ (c.m_stage ≡ stage_failure))

abbrev pub Sends : List ℕ → List ℕ → ℕ → ℕ → ClientHandler → Type 0
Sends stream received base waits c = IsSender stream received base waits c × IsOpen type_client c

module _ {port : ℕ} {stream received : List ℕ} {base waits sequence used : ℕ}
    {window : List MiptpFrame} {queue : List (ℕ × MiptpFrame)} {recvs : List Received}
    (v : Sender port stream received base waits sequence used window queue recvs) where
  -- A frame that is neither data nor an ack goes out.
  pub Sender-control :
      (dest : ℕ) (f : MiptpFrame)
      → IsControl f
      → Sender port stream received base waits sequence used window (queue ++ (dest, f) ∷ []) recvs
  Sender-control dest f c = record {
    msgs = v.msgs;
    xs = v.xs ++ none ∷ [];
    sequence = v.sequence;
    few = v.few;
    slots = v.slots;
    whole = v.whole;
    loaded = v.loaded;
    acked = v.acked;
    got = v.got;
    flight = v.flight;
    frames = v.frames;
    sources = v.sources;
    way = OnTheWay-control v.msgs v.xs queue dest f c v.way;
    order = DataOrder-none (length v.msgs) waits v.xs v.order;
    prefix = v.prefix;
    rest = v.rest;
    bytes = v.bytes;
  }

  -- The window goes out again.
  pub Sender-resend :
      (dest : ℕ)
      → Sender port stream received base waits sequence used window
          (queue ++ queue_frames dest (take used window))
          recvs
  Sender-resend dest =
      let n : length (take used window) ≡ used = omega (arith, length-take used window, v.slots) in
      record {
        msgs = v.msgs;
        xs = v.xs ++ numbers base used;
        sequence = v.sequence;
        few = v.few;
        slots = v.slots;
        whole = v.whole;
        loaded = v.loaded;
        acked = v.acked;
        got = v.got;
        flight = v.flight;
        frames = v.frames;
        sources = v.sources;
        way =
            subst
              (λ k.
                OnTheWay v.msgs (v.xs ++ numbers base k)
                  (queue ++ queue_frames dest (take used window)))
              n (OnTheWay-window v.msgs v.xs queue base dest (take used window) v.flight v.way);
        order =
            subst (λ k. DataOrder k waits (v.xs ++ numbers base used)) v.loaded
              (DataOrder-window waits base used v.xs v.few (omega (arith, v.got, v.loaded))
                (subst (λ k. DataOrder k waits v.xs) (sym v.loaded) v.order));
        prefix = v.prefix;
        rest = v.rest;
        bytes = v.bytes;
      }

  -- A frame is stored in the next free slot, and nothing is read.
  pub Sender-slot :
      (f : MiptpFrame) (recvs' : List Received)
      → IsFrame f
      → unread recvs' ≡ unread recvs
      → Sender port stream received base waits sequence used (set window used f) queue recvs'
  Sender-slot f recvs' h e = record {
    msgs = v.msgs;
    xs = v.xs;
    sequence = v.sequence;
    few = v.few;
    slots = omega (arith, v.slots, length-set window used f);
    whole = omega (arith, v.whole, length-set window used f);
    loaded = v.loaded;
    acked = v.acked;
    got = v.got;
    flight = subst (Flight v.msgs base) (sym (take-set used window f)) v.flight;
    frames = All-set IsFrame window used f h v.frames;
    sources = subst (Sources port) (sym (take-set used window f)) v.sources;
    way = v.way;
    order = v.order;
    prefix = v.prefix;
    rest = ap (λ u. concat v.msgs ++ u) e ∙ v.rest;
    bytes = subst IsBytes (sym e) v.bytes;
  }

  -- The next message is read and its frame stored in the next free slot.
  pub Sender-load :
      (m : List ℕ) (f : MiptpFrame) (recvs' : List Received)
      → used < window_size
      → used < length window
      → IsFilled ((sequence + used) % sequence_size) m f
      → get_source f ≡ port % 2 ^ 14
      → m ++ unread recvs' ≡ unread recvs
      → Sender port stream received base waits sequence (used + 1) (set window used f) queue recvs'
  Sender-load m f recvs' room slot h bears e =
      let more = v.msgs ++ m ∷ [] in
      let long : length more ≡ length v.msgs + 1 = omega (arith, length-append v.msgs (m ∷ [])) in
      let at : base + length (take used window) ≡ length v.msgs =
        omega (arith, length-take used window, v.slots, v.loaded) in
      let number : (sequence + used) % sequence_size
          ≡ (base + length (take used window)) % sequence_size =
        omega (arith, v.sequence, length-take used window, v.slots) in
      let ours : IsData more (base + length (take used window)) f = (
        m,
        subst (λ n. get_elem? more n ≡ some m) (sym at) (get_elem?-last v.msgs m),
        subst (λ k. IsFilled k m f) number h,
      ) in
      let split = subst IsBytes (sym e) v.bytes in
      record {
        msgs = more;
        xs = v.xs;
        sequence = v.sequence;
        few = omega arith;
        slots = omega (arith, length-set window used f);
        whole = omega (arith, v.whole, length-set window used f);
        loaded = omega (arith, v.loaded, long);
        acked = v.acked;
        got = omega (arith, v.got, long);
        flight = subst (Flight more base) (sym (take-set_next used window f slot)) (
            Flight-last more base (take used window) f
              (Flight-more v.msgs (m ∷ []) base (take used window) v.flight) ours);
        frames = All-set IsFrame window used f h.frame v.frames;
        sources = subst (Sources port) (sym (take-set_next used window f slot)) (
            All-append (λ g. get_source g ≡ port % 2 ^ 14) (take used window) (f ∷ []) v.sources
              (bears, tt));
        way = OnTheWay-more v.msgs (m ∷ []) v.xs queue v.way;
        order =
            DataOrder-loaded (length v.msgs) (length more) waits v.xs (omega (arith, long)) v.order;
        prefix = ap concat (take-append waits v.msgs (m ∷ []) v.got) ∙ v.prefix;
        rest =
            ap (λ l. l ++ unread recvs') (concat-last v.msgs m)
            ∙ append_assoc (concat v.msgs) m (unread recvs')
            ∙ ap (λ u. concat v.msgs ++ u) e
            ∙ v.rest;
        bytes = All-append_right (λ b. b < 256) m (unread recvs') split;
      }
