-- ===== src/Connection/Sender/Moves.antt =====
-- What an ack changes for the sending end, and a frame that leaves the way.
use miptp_cpp.Prelude.{
  ℕ, zero, suc, ◌+◌, ◌-◌, ◌%◌, ◌^◌, ◌≤◌, ◌<◌, ◌≡◌, ◌⊎◌, inl, inr, sym, subst, ap, ◌∙◌, Option, none,
  some, List, [], ◌∷◌, ◌++◌, All, length, length-take, length-drop, take, drop, get_elem?, arith,
}
use miptp_cpp.MiptpFrame.{MiptpFrame, get_source}
use miptp_cpp.MiptpFrame.Words.{IsFrame}
use miptp_cpp.CrossIpc.{Received}
use miptp_cpp.CrossIpc.Stream.{concat}
use miptp_cpp.ClientHandler.{sequence_size, window_size}
use miptp_cpp.Connection.Fill.{IsFilled}
use miptp_cpp.Connection.Numbers.{DataOrder, DataOrder-taken, NearBehind}
use miptp_cpp.Connection.Data.{IsControl, Flight, OnTheWay, Flight-drop}
use miptp_cpp.Connection.Sender.{Sender, Sources, All-drop, concat-last}

take-next :
    (msgs : List (List ℕ)) (n : ℕ) (m : List ℕ)
    → get_elem? msgs n ≡ some m
    → take (n + 1) msgs ≡ take n msgs ++ m ∷ []
take-next [] n m e = cc
take-next (a ∷ msgs) zero m e = cc
take-next (a ∷ msgs) (suc n) m e =
    ap (λ k. take k (a ∷ msgs)) (let same : suc n + 1 ≡ suc (n + 1) = omega arith in same)
    ∙ ap (λ l. a ∷ l) (take-next msgs n m e)

get_elem?-bound :
    (msgs : List (List ℕ)) (n : ℕ) (m : List ℕ) → get_elem? msgs n ≡ some m → n < length msgs
get_elem?-bound [] n m e = ground arith
get_elem?-bound (a ∷ msgs) zero m e = omega arith
get_elem?-bound (a ∷ msgs) (suc n) m e = omega (arith, get_elem?-bound msgs n m e)

-- What the frame in front means to the receiver: it is control, or a message at most ten before and
-- at most nine after the one that is waited for.
abbrev pub Front :
    ℕ
    → List ℕ
    → List ℕ
    → ℕ
    → ℕ
    → ℕ
    → ℕ
    → List MiptpFrame
    → List (ℕ × MiptpFrame)
    → List Received
    → MiptpFrame
    → Type 0
Front port stream received base waits sequence used window queue recvs f =
    IsControl f
    ⊎ (x : ℕ) × (m : List ℕ) × IsFilled (x % sequence_size) m f
      × (waits ≤ x + 10)
      × (x ≤ waits + 9)
      × (x ≡ waits
          → Sender port stream (received ++ m) base (waits + 1) sequence used window queue recvs)

module _ {port : ℕ} {stream received : List ℕ} {base waits sequence used : ℕ}
    {window : List MiptpFrame} {recvs : List Received} where
  -- The frame in front leaves the way, lost or not.
  pub Sender-first :
      (e : ℕ × MiptpFrame) (queue : List (ℕ × MiptpFrame))
      → Sender port stream received base waits sequence used window (e ∷ queue) recvs
      → Sender port stream received base waits sequence used window queue recvs
        × Front port stream received base waits sequence used window queue recvs e.1
  Sender-first e queue v = go v.xs v.way v.order
    where
      without :
          (xs : List (Option ℕ))
          → OnTheWay v.msgs xs queue
          → DataOrder (length v.msgs) waits xs
          → Sender port stream received base waits sequence used window queue recvs
      without xs way order = record {
        msgs = v.msgs;
        xs = xs;
        sequence = v.sequence;
        few = v.few;
        slots = v.slots;
        whole = v.whole;
        loaded = v.loaded;
        acked = v.acked;
        got = v.got;
        flight = v.flight;
        frames = v.frames;
        sources = v.sources;
        way = way;
        order = order;
        prefix = v.prefix;
        rest = v.rest;
        bytes = v.bytes;
      }

      taken :
          (xs : List (Option ℕ)) (x : ℕ) (m : List ℕ)
          → get_elem? v.msgs x ≡ some m
          → x ≡ waits
          → All (NearBehind x) xs
          → OnTheWay v.msgs xs queue
          → DataOrder (length v.msgs) waits xs
          → Sender port stream (received ++ m) base (waits + 1) sequence used window queue recvs
      taken xs x m at same near way order =
          let here = subst (λ n. get_elem? v.msgs n ≡ some m) same at in
          record {
            msgs = v.msgs;
            xs = xs;
            sequence = v.sequence;
            few = v.few;
            slots = v.slots;
            whole = v.whole;
            loaded = v.loaded;
            acked = omega (arith, v.acked);
            got = omega (arith, get_elem?-bound v.msgs waits m here);
            flight = v.flight;
            frames = v.frames;
            sources = v.sources;
            way = way;
            order =
                DataOrder-taken (length v.msgs) waits xs
                  (subst (λ n. All (NearBehind n) xs) same near) order;
            prefix =
                ap concat (take-next v.msgs waits m here)
                ∙ concat-last (take waits v.msgs) m
                ∙ ap (λ l. l ++ m) v.prefix;
            rest = v.rest;
            bytes = v.bytes;
          }

      go :
          (xs : List (Option ℕ))
          → OnTheWay v.msgs xs (e ∷ queue)
          → DataOrder (length v.msgs) waits xs
          → Sender port stream received base waits sequence used window queue recvs
            × Front port stream received base waits sequence used window queue recvs e.1
      go [] way order = absurd way
      go (none ∷ xs) way order = (without xs way.1 order, inl way.0)
      go (some x ∷ xs) way order =
          let (m, at, filled) = way.0 in
          (
            without xs way.1 order.3,
            inr (
              x,
              m,
              filled,
              order.1,
              omega (arith, order.0, v.loaded, v.few, v.acked),
              λ same. taken xs x m at same order.2 way.1 order.3,
            ),
          )

  -- An ack of number `a` moves the base there: the frames before it leave the window.
  pub Sender-acked :
      (a sequence' used' : ℕ) (window' : List MiptpFrame) (queue : List (ℕ × MiptpFrame))
      → Sender port stream received base waits sequence used window queue recvs
      → base ≤ a
      → a ≤ waits
      → sequence' ≡ a % sequence_size
      → used' ≤ window_size
      → used' ≤ length window'
      → length window' ≡ length window
      → take used' window' ≡ drop (a - base) (take used window)
      → All IsFrame window'
      → Sender port stream received a waits sequence' used' window' queue recvs
  Sender-acked a sequence' used' window' queue v h k s few slots long e f =
      let n : a - base + used' ≡ used = omega (
        arith,
        length-take used window,
        v.slots,
        length-take used' window',
        slots,
        ap length e,
        length-drop (a - base) (take used window),
        v.got,
        v.loaded,
      ) in
      let fits : a - base ≤ length (take used window) =
        omega (arith, length-take used window, v.slots) in
      let at : base + (a - base) ≡ a = omega (arith, h) in
      record {
        msgs = v.msgs;
        xs = v.xs;
        sequence = s;
        few = few;
        slots = slots;
        whole = long ∙ v.whole;
        loaded = omega (arith, v.loaded, n);
        acked = k;
        got = v.got;
        flight = subst (Flight v.msgs a) (sym e) (
            subst (λ b. Flight v.msgs b (drop (a - base) (take used window))) at
              (Flight-drop v.msgs base (a - base) (take used window) fits v.flight));
        frames = f;
        sources =
            subst (Sources port) (sym e) (
              All-drop (λ g. get_source g ≡ port % 2 ^ 14) (a - base) (take used window) v.sources);
        way = v.way;
        order = v.order;
        prefix = v.prefix;
        rest = v.rest;
        bytes = v.bytes;
      }
