-- ===== src/Bits.antt =====
-- Fields of a 32-bit header word: the source's masks and shifts, and what they mean as numbers.
mod Digits
use native.Mathlib.Nat.{one-le-pow, mod-eq_of_lt, mod-lt, div-add-mod'}
use Digits.{
  bit_and_split, bit_or_split, bit_and-zero, bit_or-zero, zero-bit_or, bit_and-mask, mask-bit_and,
}
use miptp_cpp.Prelude.{ℕ, ◌+◌, ◌-◌, ◌*◌, ◌/◌, ◌%◌, ◌^◌, ◌<◌, ◌≡◌, bit_and, bit_or, arith}

-- `unsigned long int` and `std::uint32_t`.
abbrev u64_mod : ℕ
u64_mod = 2 ^ 64

abbrev u32_mod : ℕ
u32_mod = 2 ^ 32

-- `*header &= ~(mask << shift)`: the complement is taken over 64 bits, the store keeps 32.
unfoldable pub clear_bits : ℕ → ℕ → ℕ → ℕ
clear_bits mask shift header = bit_and header (u64_mod - 1 - mask * 2 ^ shift) % u32_mod

-- `*header |= ((value & mask) << shift)`
unfoldable pub insert_bits : ℕ → ℕ → ℕ → ℕ → ℕ
insert_bits mask shift value header = bit_or header (bit_and value mask * 2 ^ shift) % u32_mod

-- `mask & (*header >> shift)`
unfoldable pub extract_bits : ℕ → ℕ → ℕ → ℕ
extract_bits mask shift header = bit_and mask (header / 2 ^ shift)

-- A setter of the frames: clear the field, then insert the value.
unfoldable pub set_bits : ℕ → ℕ → ℕ → ℕ → ℕ
unfolding clear_bits insert_bits
set_bits mask shift value header = insert_bits mask shift value (clear_bits mask shift header)

pub extract_bits_lem : (k w h : ℕ) → extract_bits (2 ^ w - 1) k h ≡ h / 2 ^ k % 2 ^ w
unfolding extract_bits
extract_bits_lem k w h = mask-bit_and w (h / 2 ^ k)

-- A word is `(hi * 2 ^ w + f) * 2 ^ k + lo`, with the field `f` of `w` bits at `k`.
module _ (k w hi lo : ℕ) (lo_fits : lo < 2 ^ k) where
  -- `&` with all ones but the field's.
  clear_field :
      (n f : ℕ)
      → f < 2 ^ w
      → hi < 2 ^ n
      → bit_and ((hi * 2 ^ w + f) * 2 ^ k + lo) (((2 ^ n - 1) * 2 ^ w + 0) * 2 ^ k + (2 ^ k - 1))
        ≡ (hi * 2 ^ w + 0) * 2 ^ k + lo
  clear_field n f f_fits hi_fits = ground (
    arith,
    one-le-pow k 2,
    one-le-pow w 2,
    bit_and_split k (hi * 2 ^ w + f) lo ((2 ^ n - 1) * 2 ^ w + 0) (2 ^ k - 1),
    bit_and_split w hi f (2 ^ n - 1) 0,
    bit_and-zero f,
    bit_and-mask n hi,
    mod-eq_of_lt hi_fits,
    bit_and-mask k lo,
    mod-eq_of_lt lo_fits,
  )

  -- `|` with a value in the cleared field.
  fill_field :
      (v : ℕ)
      → v < 2 ^ w
      → bit_or ((hi * 2 ^ w + 0) * 2 ^ k + lo) (v * 2 ^ k) ≡ (hi * 2 ^ w + v) * 2 ^ k + lo
  fill_field v fits = ground (
    arith,
    one-le-pow k 2,
    one-le-pow w 2,
    bit_or_split k (hi * 2 ^ w + 0) lo v 0,
    bit_or_split w hi 0 0 v,
    bit_or-zero hi,
    bit_or-zero lo,
    zero-bit_or v,
  )

word_parts : (k w h : ℕ) → h ≡ (h / 2 ^ k / 2 ^ w * 2 ^ w + h / 2 ^ k % 2 ^ w) * 2 ^ k + h % 2 ^ k
word_parts k w h = rw (div-add-mod' (h / 2 ^ k) (2 ^ w), div-add-mod' h (2 ^ k))

module _ (k w n h v : ℕ) where
  clear_bits_lem :
      h / 2 ^ k / 2 ^ w < 2 ^ n
      → h < u32_mod
      → u64_mod - 1 - (2 ^ w - 1) * 2 ^ k ≡ ((2 ^ n - 1) * 2 ^ w + 0) * 2 ^ k + (2 ^ k - 1)
      → clear_bits (2 ^ w - 1) k h ≡ (h / 2 ^ k / 2 ^ w * 2 ^ w + 0) * 2 ^ k + h % 2 ^ k
  unfolding clear_bits
  clear_bits_lem p r e =
      let hi = h / 2 ^ k / 2 ^ w in
      let f = h / 2 ^ k % 2 ^ w in
      let lo = h % 2 ^ k in
      let whole : h ≡ (hi * 2 ^ w + f) * 2 ^ k + lo = word_parts k w h in
      ground (
        arith,
        one-le-pow k 2,
        one-le-pow w 2,
        whole,
        clear_field k w hi lo (mod-lt h (one-le-pow k 2 (omega arith))) n f,
      )

  -- A setter replaces the field and keeps the bits above and below it.
  pub set_bits_lem :
      h / 2 ^ k / 2 ^ w < 2 ^ n
      → (h / 2 ^ k / 2 ^ w * 2 ^ w + v % 2 ^ w) * 2 ^ k + h % 2 ^ k < u32_mod
      → h < u32_mod
      → u64_mod - 1 - (2 ^ w - 1) * 2 ^ k ≡ ((2 ^ n - 1) * 2 ^ w + 0) * 2 ^ k + (2 ^ k - 1)
      → set_bits (2 ^ w - 1) k v h ≡ (h / 2 ^ k / 2 ^ w * 2 ^ w + v % 2 ^ w) * 2 ^ k + h % 2 ^ k
  unfolding set_bits insert_bits
  set_bits_lem p q r e =
      rw (clear_bits_lem p r e, bit_and-mask w v)
        (ground (
          arith,
          fill_field k w (h / 2 ^ k / 2 ^ w) (h % 2 ^ k) (mod-lt h (one-le-pow k 2 (omega arith)))
              (v % 2 ^ w) (mod-lt v (one-le-pow w 2 (omega arith))),
        ))
