-- ===== src/Bits/Digits.antt =====
-- Laws of `&` and `|` at every width: both split at any bit position.
use Prim.Native.Nat.{digits, bitwise, bit_and-bitwise, bit_or-bitwise}
use native.Mathlib.Nat.{pow-suc, one-le-pow}
use miptp_cpp.Prelude.{
  ℕ, zero, suc, ◌+◌, ◌-◌, ◌*◌, ◌/◌, ◌%◌, ◌^◌, ◌≤◌, ◌<◌, min, max, ◌≡◌, refl, sym, ap, ◌∙◌, bit_and,
  bit_or, arith,
}

-- More fuel than the first number changes nothing.
module _ (z : ℕ → ℕ) (f : ℕ → ℕ → ℕ) where
  digits-succ : (n a b : ℕ) → a ≤ n → digits z f (suc n) a b ≡ digits z f n a b
  digits-succ zero zero b h = refl
  digits-succ zero (suc a) b h = absurd (omega arith)
  digits-succ (suc n) zero b h = refl
  digits-succ (suc n) (suc a) b h =
      ap (λ t. t * 2 + f (suc a % 2) (b % 2)) (digits-succ n (suc a / 2) (b / 2) (omega arith))

  digits-add : (k a b : ℕ) → digits z f (k + a) a b ≡ bitwise z f a b
  digits-add zero a b = ap (λ n. digits z f n a b) (omega arith)
  digits-add (suc k) a b = grind (arith, digits-succ (k + a) a b, digits-add k a b)

  bitwise_halves :
      (a b : ℕ)
      → bitwise z f (suc a) b ≡ bitwise z f (suc a / 2) (b / 2) * 2 + f (suc a % 2) (b % 2)
  bitwise_halves a b =
      let room : a - suc a / 2 + suc a / 2 ≡ a = omega arith in
      ap (λ t. t * 2 + f (suc a % 2) (b % 2))
        (ap (λ n. digits z f n (suc a / 2) (b / 2)) (sym room)
          ∙ digits-add (a - suc a / 2) (suc a / 2) (b / 2))

and-halves : (a b : ℕ) → bit_and a b ≡ bit_and (a / 2) (b / 2) * 2 + min (a % 2) (b % 2)
and-halves zero b = simp bit_and-bitwise (omega arith)
and-halves (suc a) b = simp bit_and-bitwise (bitwise_halves (λ t. 0) min a b)

or-halves : (a b : ℕ) → bit_or a b ≡ bit_or (a / 2) (b / 2) * 2 + max (a % 2) (b % 2)
or-halves zero b = simp bit_or-bitwise (omega arith)
or-halves (suc a) b = simp bit_or-bitwise (bitwise_halves (λ t. t) max a b)

-- The operands with a digit taken off the upper and the lower part.
double_pow : (q k : ℕ) → q * 2 ^ suc k ≡ 2 * (q * 2 ^ k)
double_pow q k = omega (arith, ap (λ (t : ℕ). q * t) (pow-suc 2 k))

-- An operation that works digit by digit splits at every bit position.
module _ (op f : ℕ → ℕ → ℕ)
    (halves : (a b : ℕ) → op a b ≡ op (a / 2) (b / 2) * 2 + f (a % 2) (b % 2))
    (at_zero : op 0 0 ≡ 0) where
  split :
      (k q r s t : ℕ)
      → r < 2 ^ k
      → t < 2 ^ k
      → op (q * 2 ^ k + r) (s * 2 ^ k + t) ≡ op q s * 2 ^ k + op r t
  split zero q r s t hr ht = ground (arith, at_zero)
  split (suc k) q r s t hr ht = ground (
    arith,
    halves (q * 2 ^ suc k + r) (s * 2 ^ suc k + t),
    halves r t,
    double_pow q k,
    double_pow s k,
    double_pow (op q s) k,
    split k q (r / 2) s (t / 2) (omega (arith, pow-suc 2 k)) (omega (arith, pow-suc 2 k)),
  )

pub bit_and_split :
    (k q r s t : ℕ)
    → r < 2 ^ k
    → t < 2 ^ k
    → bit_and (q * 2 ^ k + r) (s * 2 ^ k + t) ≡ bit_and q s * 2 ^ k + bit_and r t
bit_and_split = split bit_and min and-halves refl

pub bit_or_split :
    (k q r s t : ℕ)
    → r < 2 ^ k
    → t < 2 ^ k
    → bit_or (q * 2 ^ k + r) (s * 2 ^ k + t) ≡ bit_or q s * 2 ^ k + bit_or r t
bit_or_split = split bit_or max or-halves refl

pub zero-bit_and : (b : ℕ) → bit_and 0 b ≡ 0
zero-bit_and b = bit_and-bitwise 0 b

pub zero-bit_or : (b : ℕ) → bit_or 0 b ≡ b
zero-bit_or b = bit_or-bitwise 0 b

-- By the number of binary digits of `a`.
bit_or-zero_below : (k a : ℕ) → a < 2 ^ k → bit_or a 0 ≡ a
bit_or-zero_below zero a h = ground (arith, zero-bit_or 0)
bit_or-zero_below (suc k) a h =
    ground
      (arith, or-halves a 0, pow-suc 2 k, bit_or-zero_below k (a / 2) (omega (arith, pow-suc 2 k)))

bit_and-zero_below : (k a : ℕ) → a < 2 ^ k → bit_and a 0 ≡ 0
bit_and-zero_below zero a h = ground (arith, zero-bit_and 0)
bit_and-zero_below (suc k) a h =
    ground (
      arith,
      and-halves a 0,
      pow-suc 2 k,
      bit_and-zero_below k (a / 2) (omega (arith, pow-suc 2 k)),
    )

lt-two_pow : (a : ℕ) → a < 2 ^ a
lt-two_pow zero = omega arith
lt-two_pow (suc a) = omega (arith, lt-two_pow a, pow-suc 2 a)

pub bit_or-zero : (a : ℕ) → bit_or a 0 ≡ a
bit_or-zero a = bit_or-zero_below a a (lt-two_pow a)

pub bit_and-zero : (a : ℕ) → bit_and a 0 ≡ 0
bit_and-zero a = bit_and-zero_below a a (lt-two_pow a)

-- A mask of `k` ones keeps `k` low bits, on either side of `&`.
low_bits : (k a : ℕ) → a < 2 ^ k → bit_and a (2 ^ k - 1) ≡ a
low_bits zero a h = ground (arith, zero-bit_and 0)
low_bits (suc k) a h = ground (
  arith,
  and-halves a (2 ^ suc k - 1),
  pow-suc 2 k,
  one-le-pow k 2,
  low_bits k (a / 2) (omega (arith, pow-suc 2 k)),
)

low_bits_left : (k a : ℕ) → a < 2 ^ k → bit_and (2 ^ k - 1) a ≡ a
low_bits_left zero a h = ground (arith, zero-bit_and a)
low_bits_left (suc k) a h = ground (
  arith,
  and-halves (2 ^ suc k - 1) a,
  pow-suc 2 k,
  one-le-pow k 2,
  low_bits_left k (a / 2) (omega (arith, pow-suc 2 k)),
)

pub bit_and-mask : (k a : ℕ) → bit_and a (2 ^ k - 1) ≡ a % 2 ^ k
bit_and-mask k a = ground (
  arith,
  one-le-pow k 2,
  bit_and_split k (a / 2 ^ k) (a % 2 ^ k) 0 (2 ^ k - 1),
  bit_and-zero (a / 2 ^ k),
  low_bits k (a % 2 ^ k),
)

pub mask-bit_and : (k a : ℕ) → bit_and (2 ^ k - 1) a ≡ a % 2 ^ k
mask-bit_and k a = ground (
  arith,
  one-le-pow k 2,
  bit_and_split k 0 (2 ^ k - 1) (a / 2 ^ k) (a % 2 ^ k),
  zero-bit_and (a / 2 ^ k),
  low_bits_left k (a % 2 ^ k),
)
