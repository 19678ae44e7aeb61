-- ===== src/Prelude/Slices.antt =====
-- `take` and `drop` of lists that are put together or cut.
use Prim.Native.Nat.{ℕ, zero, suc, ◌+◌, ◌-◌, ◌≤◌}
use mathlib.Core.Path.{◌≡◌, refl, sym, ap, ◌∙◌}
use mathlib.Core.List.{List, [], ◌∷◌, ◌++◌}
use native.Mathlib.Omega.{arith}
use miptp_cpp.Prelude.Lists.{length, take, drop, take_all}

module _ {ℓ} {A : Type ℓ} where
  pub take-append : (n : ℕ) (xs ys : List A) → n ≤ length xs → take n (xs ++ ys) ≡ take n xs
  take-append zero xs ys h = refl
  take-append (suc n) [] ys h = absurd (omega arith)
  take-append (suc n) (x ∷ xs) ys h = ap (◌∷◌ x) (take-append n xs ys (omega arith))

  pub drop-append : (n : ℕ) (xs ys : List A) → n ≤ length xs → drop n (xs ++ ys) ≡ drop n xs ++ ys
  drop-append zero xs ys h = refl
  drop-append (suc n) [] ys h = absurd (omega arith)
  drop-append (suc n) (x ∷ xs) ys h = drop-append n xs ys (omega arith)

  pub take-append_past :
      (n : ℕ) (xs ys : List A) → length xs ≤ n → take n (xs ++ ys) ≡ xs ++ take (n - length xs) ys
  take-append_past n [] ys h = ap (λ k. take k ys) (omega arith)
  take-append_past zero (x ∷ xs) ys h = absurd (omega arith)
  take-append_past (suc n) (x ∷ xs) ys h =
      let less : n - length xs ≡ suc n - suc (length xs) = omega arith in
      ap (◌∷◌ x) (take-append_past n xs ys (omega arith) ∙ ap (λ k. xs ++ take k ys) less)

  pub drop-append_past :
      (n : ℕ) (xs ys : List A) → length xs ≤ n → drop n (xs ++ ys) ≡ drop (n - length xs) ys
  drop-append_past n [] ys h = ap (λ k. drop k ys) (omega arith)
  drop-append_past zero (x ∷ xs) ys h = absurd (omega arith)
  drop-append_past (suc n) (x ∷ xs) ys h =
      let less : n - length xs ≡ suc n - suc (length xs) = omega arith in
      drop-append_past n xs ys (omega arith) ∙ ap (λ k. drop k ys) less

  pub take-drop : (n m : ℕ) (xs : List A) → take n (drop m xs) ≡ drop m (take (m + n) xs)
  take-drop n zero xs = ap (λ k. take k xs) (omega arith)
  take-drop n (suc m) [] =
      take_all n [] (omega arith) ∙ ap (drop (suc m)) (sym (take_all (suc m + n) [] (omega arith)))
  take-drop n (suc m) (x ∷ xs) =
      take-drop n m xs
      ∙ ap (λ k. drop (suc m) (take k (x ∷ xs)))
          (let same : suc (m + n) ≡ suc m + n = omega arith in same)

  pub drop_all : (n : ℕ) (xs : List A) → length xs ≤ n → drop n xs ≡ []
  drop_all zero [] h = refl
  drop_all (suc n) [] h = refl
  drop_all zero (x ∷ xs) h = absurd (omega arith)
  drop_all (suc n) (x ∷ xs) h = drop_all n xs (omega arith)

  pub drop-drop : (m n : ℕ) (xs : List A) → drop m (drop n xs) ≡ drop (n + m) xs
  drop-drop m zero xs = ap (λ k. drop k xs) (omega arith)
  drop-drop m (suc n) [] = drop_all m [] (omega arith) ∙ sym (drop_all (suc n + m) [] (omega arith))
  drop-drop m (suc n) (x ∷ xs) =
      drop-drop m n xs
      ∙ ap (λ k. drop k (x ∷ xs)) (let same : suc (n + m) ≡ suc n + m = omega arith in same)
