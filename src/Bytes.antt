-- ===== src/Bytes.antt =====
-- `std::vector<char>` as a list of bytes: `resize`, `memcpy` into it, and the 32-bit word that
-- `reinterpret_cast<std::uint32_t*>` reads and writes, on a little-endian machine.
use native.Mathlib.Nat.{add-zero}
use miptp_cpp.Prelude.{
  ℕ, zero, suc, ◌+◌, ◌-◌, ◌*◌, ◌/◌, ◌%◌, ◌^◌, ◌≤◌, ◌<◌, ◌≡◌, ◌⊎◌, inl, inr, refl, ◌∙◌, ap, List, [],
  ◌∷◌, ◌++◌, length, get_or, set, take, replicate, All, length-append, length-take,
  length-replicate, length-set, get_or-set_self, get_or-set_ne, All-append, arith,
}

-- A byte of the vector.
abbrev pub byte : List ℕ → ℕ → ℕ
byte d i = get_or d i 0

-- `v.resize(n)`: cut off, or filled up with zero.
unfoldable pub resize : ℕ → List ℕ → List ℕ
resize n d = take n d ++ replicate (n - length d) 0

-- `memcpy(v.data() + o, bytes, size)`.
unfoldable pub write_at : ℕ → List ℕ → List ℕ → List ℕ
write_at o [] d = d
write_at o (b ∷ bs) d = write_at (o + 1) bs (set d o b)

-- `*reinterpret_cast<std::uint32_t*>(v.data() + o)`, read and written.
unfoldable pub read_word : ℕ → List ℕ → ℕ
read_word o d = byte d o + 256 * byte d (o + 1) + 65536 * byte d (o + 2) + 16777216 * byte d (o + 3)

abbrev pub word_bytes : ℕ → List ℕ
word_bytes v = v % 256 ∷ v / 256 % 256 ∷ v / 65536 % 256 ∷ v / 16777216 % 256 ∷ []

unfoldable pub write_word : ℕ → ℕ → List ℕ → List ℕ
write_word o v = write_at o (word_bytes v)

-- Every element is a byte.
abbrev pub IsBytes : List ℕ → Type 0
IsBytes = All (λ b. b < 256)

pub length-resize : (n : ℕ) (d : List ℕ) → length (resize n d) ≡ n
unfolding resize
length-resize n d = omega (
  arith,
  length-append (take n d) (replicate (n - length d) 0),
  length-take n d,
  length-replicate {A = ℕ} (n - length d) 0,
)

byte-replicate : (n i : ℕ) → byte (replicate n 0) i ≡ 0
byte-replicate zero i = refl
byte-replicate (suc n) zero = refl
byte-replicate (suc n) (suc i) = byte-replicate n i

-- Growing and shrinking keep every byte below the new size; a byte out of range reads as 0.
pub byte-resize : (n : ℕ) (d : List ℕ) (i : ℕ) → i < n → byte (resize n d) i ≡ byte d i
unfolding resize
byte-resize zero d i h = absurd (omega arith)
byte-resize (suc n) [] i h = byte-replicate (suc n - 0) i
byte-resize (suc n) (x ∷ d) zero h = refl
byte-resize (suc n) (x ∷ d) (suc i) h =
    let same : suc n - suc (length d) ≡ n - length d = omega arith in
    ap (λ k. byte (take n d ++ replicate k 0) i) same ∙ byte-resize n d i (omega arith)

pub length-write_at : (o : ℕ) (bs d : List ℕ) → length (write_at o bs d) ≡ length d
unfolding write_at
length-write_at o [] d = refl
length-write_at o (b ∷ bs) d =
    omega (arith, length-write_at (o + 1) bs (set d o b), length-set d o b)

pub byte-write_at_other :
    (o : ℕ) (bs d : List ℕ) (i : ℕ)
    → (i < o) ⊎ (o + length bs ≤ i)
    → byte (write_at o bs d) i ≡ byte d i
unfolding write_at
byte-write_at_other o [] d i h = refl
byte-write_at_other o (b ∷ bs) d i h =
    byte-write_at_other (o + 1) bs (set d o b) i
      (elim h [ inl a ↦ inl (omega arith) | inr a ↦ inr (omega arith) ])
    ∙ get_or-set_ne d o i b 0 (elim h [ inl a ↦ (λ e. omega arith) | inr a ↦ (λ e. omega arith) ])

pub byte-write_at :
    (o : ℕ) (bs d : List ℕ) (i : ℕ)
    → i < length bs
    → o + length bs ≤ length d
    → byte (write_at o bs d) (o + i) ≡ byte bs i
unfolding write_at
byte-write_at o [] d i h k = absurd (omega arith)
byte-write_at o (b ∷ bs) d zero h k =
    ap (byte (write_at (o + 1) bs (set d o b))) (omega arith)
    ∙ byte-write_at_other (o + 1) bs (set d o b) o (inl (omega arith))
    ∙ get_or-set_self d o b 0 (omega arith)
byte-write_at o (b ∷ bs) d (suc i) h k =
    ap (byte (write_at (o + 1) bs (set d o b))) (omega arith)
    ∙ byte-write_at (o + 1) bs (set d o b) i (omega arith) (omega (arith, length-set d o b))

module _ (o v : ℕ) (d : List ℕ) where
  pub length-write_word : length (write_word o v d) ≡ length d
  unfolding write_word
  length-write_word = length-write_at o _ d

  pub byte-write_word_other : (i : ℕ) → (i < o) ⊎ (o + 4 ≤ i) → byte (write_word o v d) i ≡ byte d i
  unfolding write_word
  byte-write_word_other i h = byte-write_at_other o _ d i h

  pub read_word-write_word : o + 4 ≤ length d → v < 2 ^ 32 → read_word o (write_word o v d) ≡ v
  unfolding read_word write_word
  read_word-write_word h small = omega (
    arith,
    ap (byte (write_at o (word_bytes v) d)) (add-zero o),
    byte-write_at o (word_bytes v) d 0 (omega arith) h,
    byte-write_at o (word_bytes v) d 1 (omega arith) h,
    byte-write_at o (word_bytes v) d 2 (omega arith) h,
    byte-write_at o (word_bytes v) d 3 (omega arith) h,
  )

-- A byte read in range or not is below 256.
pub byte-lt : (d : List ℕ) (i : ℕ) → IsBytes d → byte d i < 256
byte-lt [] i h = omega arith
byte-lt (x ∷ d) zero h = h.0
byte-lt (x ∷ d) (suc i) h = byte-lt d i h.1

pub read_word-lt : (o : ℕ) (d : List ℕ) → IsBytes d → read_word o d < 2 ^ 32
unfolding read_word
read_word-lt o d h =
    omega (arith, byte-lt d o h, byte-lt d (o + 1) h, byte-lt d (o + 2) h, byte-lt d (o + 3) h)

IsBytes-set : (d : List ℕ) (i b : ℕ) → IsBytes d → b < 256 → IsBytes (set d i b)
IsBytes-set [] i b h k = tt
IsBytes-set (x ∷ d) zero b h k = (k, h.1)
IsBytes-set (x ∷ d) (suc i) b h k = (h.0, IsBytes-set d i b h.1 k)

pub write_at-IsBytes : (o : ℕ) (bs d : List ℕ) → IsBytes bs → IsBytes d → IsBytes (write_at o bs d)
unfolding write_at
write_at-IsBytes o [] d h k = k
write_at-IsBytes o (b ∷ bs) d h k =
    write_at-IsBytes (o + 1) bs (set d o b) h.1 (IsBytes-set d o b k h.0)

pub write_word-IsBytes : (o v : ℕ) (d : List ℕ) → IsBytes d → IsBytes (write_word o v d)
unfolding write_word
write_word-IsBytes o v d h = write_at-IsBytes o (word_bytes v) d (omega arith) h

replicate-IsBytes : (n : ℕ) → IsBytes (replicate n 0)
replicate-IsBytes zero = tt
replicate-IsBytes (suc n) = (omega arith, replicate-IsBytes n)

take-IsBytes : (n : ℕ) (d : List ℕ) → IsBytes d → IsBytes (take n d)
take-IsBytes zero d h = tt
take-IsBytes (suc n) [] h = tt
take-IsBytes (suc n) (x ∷ d) h = (h.0, take-IsBytes n d h.1)

pub resize-IsBytes : (n : ℕ) (d : List ℕ) → IsBytes d → IsBytes (resize n d)
unfolding resize
resize-IsBytes n d h =
    All-append _ (take n d) (replicate (n - length d) 0) (take-IsBytes n d h)
      (replicate-IsBytes (n - length d))
