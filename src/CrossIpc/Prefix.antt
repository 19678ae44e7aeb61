-- ===== src/CrossIpc/Prefix.antt =====
-- Reading a number of bytes off a stream whose pieces end anywhere.
use miptp_cpp.Prelude.{
  ℕ, zero, suc, ◌+◌, ◌-◌, ◌≤◌, ◌<◌, ◌≡◌, ◌≢◌, refl, subst, sym, ap, ◌∙◌, List, [], ◌∷◌, ◌++◌, map,
  append-nil, append_assoc, length, length-append, length-drop, length-take, take, drop, take_all,
  ltb, Bool-cases, All, inl, inr, take-append, drop-append, take-append_past, drop-append_past,
  ltb→lt, ltb-false→le, arith, if◌then◌else◌,
}
use miptp_cpp.Outcome.{Outcome, ok}
use miptp_cpp.CrossIpc.{AnonymousSocket, received, read, read_until, read_until_loop}
use miptp_cpp.CrossIpc.Stream.{concat}

-- A socket whose coming bytes are these pieces, none of them empty.
abbrev pub streaming : List (List ℕ) → AnonymousSocket → AnonymousSocket
streaming pieces s = record s { recvs = map received pieces }

abbrev pub NonEmpty : List (List ℕ) → Type 0
NonEmpty = All (λ p. p ≢ [])

-- A result of a read that took the next `n` bytes of the pieces.
abbrev pub TookNext :
    ℕ → List ℕ → List (List ℕ) → AnonymousSocket → Outcome (List ℕ) × AnonymousSocket → Type 0
TookNext n got pieces s r =
    (left : List (List ℕ)) × NonEmpty left
    × (concat left ≡ drop n (concat pieces))
    × (r ≡ (ok (got ++ take n (concat pieces)), streaming left s))

read-streaming :
    (n : ℕ) (p : List ℕ) (ps : List (List ℕ)) (s : AnonymousSocket)
    → p ≢ []
    → 0 < n
    → read n (streaming (p ∷ ps) s)
      ≡ (ok (take n p), streaming (if ltb n (length p) then drop n p ∷ ps else ps) s)
unfolding read
read-streaming n [] ps s h k = absurd (h refl)
read-streaming zero (b ∷ bs) ps s h k = elim k [ ]
read-streaming (suc n) (b ∷ bs) ps s h k = ground arith

loop_step :
    (fuel n : ℕ) (got p : List ℕ) (ps : List (List ℕ)) (s : AnonymousSocket)
    → p ≢ []
    → read_until_loop (suc fuel) (length got + suc n) got (streaming (p ∷ ps) s)
      ≡ read_until_loop fuel
          (length got + suc n)
          (got ++ take (suc n) p)
          (streaming (if ltb (suc n) (length p) then drop (suc n) p ∷ ps else ps) s)
unfolding read_until_loop
loop_step fuel n got p ps s h =
    let room : length got + suc n - length got ≡ suc n = omega arith in
    ground (arith, room, read-streaming (suc n) p ps s h)

drop-NonEmpty : (n : ℕ) (p : List ℕ) → n < length p → drop n p ≢ []
drop-NonEmpty n p h e = absurd (omega (arith, length-drop n p, ap length e))

positive : (p : List ℕ) → p ≢ [] → 0 < length p
positive [] h = absurd (h refl)
positive (x ∷ p) h = omega arith

loop-TookNext :
    (fuel n : ℕ) (got : List ℕ) (pieces : List (List ℕ)) (s : AnonymousSocket)
    → NonEmpty pieces
    → n ≤ fuel
    → n ≤ length (concat pieces)
    → TookNext n got pieces s (read_until_loop fuel (length got + n) got (streaming pieces s))
unfolding read_until_loop
loop-TookNext zero zero got pieces s ne h k =
    (pieces, ne, refl, ap (λ bs. (ok bs, streaming pieces s)) (sym (append-nil got)))
loop-TookNext (suc fuel) zero got pieces s ne h k =
    (pieces, ne, refl, ground (arith, append-nil got))
loop-TookNext zero (suc n) got pieces s ne h k = absurd (omega arith)
loop-TookNext (suc fuel) (suc n) got [] s ne h k = absurd (omega arith)
loop-TookNext (suc fuel) (suc n) got (p ∷ ps) s ne h k =
    elim (Bool-cases (ltb (suc n) (length p))) [
      | inl inside ↦
          let cut = ltb→lt _ _ inside in
          let got' = got ++ take (suc n) p in
          let size : length got + suc n ≡ length got' + 0 =
            omega (arith, length-append got (take (suc n) p), length-take (suc n) p) in
          let (left, full, rest, e) =
            loop-TookNext fuel 0 got' (drop (suc n) p ∷ ps) s (drop-NonEmpty (suc n) p cut, ne.1)
              (omega arith) (omega arith) in
          (
            left,
            full,
            rest ∙ sym (drop-append (suc n) p (concat ps) (omega arith)),
            loop_step fuel n got p ps s ne.0
                ∙ ap
                    (λ t.
                      read_until_loop fuel (length got + suc n) got'
                        (streaming (if t then drop (suc n) p ∷ ps else ps) s))
                    inside
                ∙ ap (λ k. read_until_loop fuel k got' (streaming (drop (suc n) p ∷ ps) s)) size
                ∙ e
                ∙ ap (λ bs. (ok bs, streaming left s))
                    (append-nil got'
                      ∙ ap (λ bs. got ++ bs)
                          (sym (take-append (suc n) p (concat ps) (omega arith)))),
          )
      | inr past ↦
          let whole = ltb-false→le _ _ past in
          let got' = got ++ take (suc n) p in
          let size : length got + suc n ≡ length got' + (suc n - length p) =
            omega (arith, whole, length-append got (take (suc n) p), length-take (suc n) p) in
          let (left, full, rest, e) =
            loop-TookNext fuel (suc n - length p) got' ps s ne.1 (omega (arith, positive p ne.0))
              (omega (arith, length-append p (concat ps))) in
          (
            left,
            full,
            rest ∙ sym (drop-append_past (suc n) p (concat ps) whole),
            loop_step fuel n got p ps s ne.0
                ∙ ap
                    (λ t.
                      read_until_loop fuel (length got + suc n) got'
                        (streaming (if t then drop (suc n) p ∷ ps else ps) s))
                    past
                ∙ ap (λ k. read_until_loop fuel k got' (streaming ps s)) size
                ∙ e
                ∙ ap (λ bs. (ok bs, streaming left s))
                    (append_assoc got (take (suc n) p) (take (suc n - length p) (concat ps))
                      ∙ ap (λ bs. got ++ (bs ++ take (suc n - length p) (concat ps)))
                          (take_all (suc n) p whole)
                      ∙ ap (λ bs. got ++ bs) (sym (take-append_past (suc n) p (concat ps) whole))),
          )
    ]

-- `readUntil` takes exactly the next `size` bytes of a stream that has them, wherever its pieces end,
-- and leaves the bytes after them to the next read.
pub read_until-streaming :
    (size : ℕ) (pieces : List (List ℕ)) (s : AnonymousSocket)
    → NonEmpty pieces
    → size ≤ length (concat pieces)
    → TookNext size [] pieces s (read_until size (streaming pieces s))
unfolding read_until
read_until-streaming size pieces s ne h =
    subst (λ k. TookNext size [] pieces s (read_until_loop size k [] (streaming pieces s)))
      (omega arith) (loop-TookNext size size [] pieces s ne (omega arith) h)
