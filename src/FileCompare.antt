-- ===== src/FileCompare.antt =====
-- src/file_compare.cpp: two files compared byte by byte. Files are lists of bytes; that they open is
-- left out.
use miptp_cpp.Prelude.{
  ℕ, zero, suc, ◌+◌, ◌≤◌, ◌≡◌, ◌↔◌, Bool, true, false, not, ◌&&◌, Option, none, some, List, [], ◌∷◌,
  length, ◌==◌, if◌then◌else◌, arith,
}

-- A stream: what has not been read, and `eof()`.
record Stream : Type 0 where
  rest : List ℕ
  eof : Bool

-- `get()`; `none` is `EOF`, and reaching it is what sets `eof()`.
get : List ℕ → Option ℕ × Stream
get [] = (none, record { rest = []; eof = true })
get (b ∷ bs) = (some b, record { rest = bs; eof = false })

-- `get() != get()` on what two calls return
differ : Option ℕ → Option ℕ → Bool
differ none none = false
differ none (some b) = true
differ (some a) none = true
differ (some a) (some b) = not (a == b)

same_eof : Bool → Bool → Bool
same_eof true true = true
same_eof false false = true
same_eof _ _ = false

-- The loop and the test after it. Each round but the last reads a byte of the first file.
compare_loop : ℕ → Stream → Stream → Bool
unfolding get differ same_eof
compare_loop zero s t = false
compare_loop (suc fuel) s t =
    let (c, s') = get s.rest in
    let (d, t') = get t.rest in
    let again = compare_loop fuel s' t' in
    if not s.eof && not t.eof then (if differ c d then false else again) else same_eof s.eof t.eof

pub file_compare : List ℕ → List ℕ → Bool
unfolding compare_loop
file_compare file1 file2 =
    compare_loop (length file1 + 2) (record { rest = file1; eof = false })
      (record { rest = file2; eof = false })

compare_loop_lem :
    (fuel : ℕ) (xs ys : List ℕ)
    → length xs + 2 ≤ fuel
    → (compare_loop fuel (record { rest = xs; eof = false }) (record { rest = ys; eof = false })
        ≡ true)
      ↔ (xs ≡ ys)
unfolding compare_loop
compare_loop_lem zero xs ys h = absurd (omega arith)
compare_loop_lem (suc zero) xs ys h = absurd (omega arith)
compare_loop_lem (suc (suc fuel)) [] [] h = ground arith
compare_loop_lem (suc (suc fuel)) [] (y ∷ ys) h = ground arith
compare_loop_lem (suc (suc fuel)) (x ∷ xs) [] h = ground arith
compare_loop_lem (suc (suc fuel)) (x ∷ xs) (y ∷ ys) h =
    ground (arith, compare_loop_lem (suc fuel) xs ys)

-- The program prints true exactly for two files with the same bytes.
pub file_compare_lem : (file1 file2 : List ℕ) → (file_compare file1 file2 ≡ true) ↔ (file1 ≡ file2)
unfolding file_compare
file_compare_lem file1 file2 = compare_loop_lem (length file1 + 2) file1 file2 (omega arith)
