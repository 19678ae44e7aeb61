-- ===== src/Outcome.antt =====
-- Code that changes an object and may throw: the change made before a throw stays.
use miptp_cpp.Prelude.{Bool, true, false}

-- include/LinuxException.hpp, and a failed `assert` or another exception, which nothing catches.
pub data Exception : Type 0 where
  broken_pipe would_block timeout interrupted error assertion : Exception

pub data Outcome {ℓ} (A : Type ℓ) : Type ℓ where
  ok : A → Outcome A
  throw : Exception → Outcome A

-- A method of an object in `S`.
abbrev pub M : Type 0 → Type 0 → Type 0
M S A = S → Outcome A × S

abbrev pub continue : {S A B : Type 0} → (A → M S B) → Outcome A × S → Outcome B × S
continue f (ok a, s) = f a s
continue f (throw e, s) = (throw e, s)

infixl 5 ◌>>=◌ ◌>>◌
abbrev pub ◌>>=◌ : {S A B : Type 0} → M S A → (A → M S B) → M S B
◌>>=◌ m f s = continue f (m s)

abbrev pub ◌>>◌ : {S B : Type 0} → M S (Unit {0}) → M S B → M S B
m >> k = m >>= λ _. k

abbrev pub return : {S A : Type 0} → A → M S A
return a s = (ok a, s)

abbrev pub raise : {S A : Type 0} → Exception → M S A
raise e s = (throw e, s)

abbrev pub modify : {S : Type 0} → (S → S) → M S (Unit {0})
modify f s = (ok tt, f s)

abbrev pub when : {S : Type 0} → Bool → M S (Unit {0}) → M S (Unit {0})
when true m s = m s
when false m s = (ok tt, s)

-- The state that a method leaves, however it ends.
abbrev pub after : {S A : Type 0} → Outcome A × S → S
after r = r.1

-- What holds after a step, and is kept by what follows, holds in the end.
pub continue-after :
    {S A B : Type 0} (P : S → Type 0) (k : A → M S B) (r : Outcome A × S)
    → P (after r)
    → ((a : A) (s : S) → P s → P (after (k a s)))
    → P (after (continue k r))
continue-after P k (ok a, s) p q = q a s p
continue-after P k (throw e, s) p q = p
