-- ===== src/Header.antt =====
-- A field of a header word inside a frame's byte vector: the code that the setters and getters of
-- src/MIPTPFrame.cpp and src/MIPFrame.cpp share, with its laws.
use miptp_cpp.Prelude.{ℕ, ◌+◌, ◌-◌, ◌*◌, ◌/◌, ◌%◌, ◌^◌, ◌≤◌, ◌<◌, ◌≡◌, ◌⊎◌, List, length}
use miptp_cpp.Bits.{set_bits, extract_bits, set_bits_lem, extract_bits_lem}
use miptp_cpp.Bytes.{
  byte, read_word, write_word, IsBytes, read_word-lt, read_word-write_word, length-write_word,
  byte-write_word_other, write_word-IsBytes,
}

-- `header = reinterpret_cast<std::uint32_t*>(m_data.data() + offset)`, then
-- `*header &= ~(mask << shift); *header |= ((value & mask) << shift);`.
unfoldable pub set_field : ℕ → ℕ → ℕ → ℕ → List ℕ → List ℕ
unfolding set_bits read_word write_word
set_field offset mask shift value m_data =
    write_word offset (set_bits mask shift value (read_word offset m_data)) m_data

-- `mask & (*header >> shift)`
unfoldable pub get_field : ℕ → ℕ → ℕ → List ℕ → ℕ
unfolding extract_bits read_word
get_field offset mask shift m_data = extract_bits mask shift (read_word offset m_data)

pub get_field_lem :
    (o k w : ℕ) (d : List ℕ) → get_field o (2 ^ w - 1) k d ≡ read_word o d / 2 ^ k % 2 ^ w
unfolding get_field
get_field_lem o k w d = extract_bits_lem k w (read_word o d)

-- The word with the field of `w` bits at `k` replaced.
abbrev pub with_field : ℕ → ℕ → ℕ → ℕ → ℕ
with_field k w value h = (h / 2 ^ k / 2 ^ w * 2 ^ w + value % 2 ^ w) * 2 ^ k + h % 2 ^ k

module _ (o mask k value : ℕ) (d : List ℕ) where
  pub length-set_field : length (set_field o mask k value d) ≡ length d
  unfolding set_field
  length-set_field = length-write_word o _ d

  pub byte-set_field_other :
      (i : ℕ) → (i < o) ⊎ (o + 4 ≤ i) → byte (set_field o mask k value d) i ≡ byte d i
  unfolding set_field
  byte-set_field_other i h = byte-write_word_other o _ d i h

  pub set_field-IsBytes : IsBytes d → IsBytes (set_field o mask k value d)
  unfolding set_field
  set_field-IsBytes h = write_word-IsBytes o _ d h

-- The conditions on the widths are closed numbers: each field of a frame proves them by evaluation.
module _ (o k w n value : ℕ) (d : List ℕ) (bytes : IsBytes d) where
  pub read_word-set_field :
      o + 4 ≤ length d
      → (read_word o d < 2 ^ 32 → read_word o d / 2 ^ k / 2 ^ w < 2 ^ n)
      → (read_word o d < 2 ^ 32 → with_field k w value (read_word o d) < 2 ^ 32)
      → 2 ^ 64 - 1 - (2 ^ w - 1) * 2 ^ k ≡ ((2 ^ n - 1) * 2 ^ w + 0) * 2 ^ k + (2 ^ k - 1)
      → read_word o (set_field o (2 ^ w - 1) k value d) ≡ with_field k w value (read_word o d)
  unfolding set_field
  read_word-set_field room fits result e =
      let h = read_word o d in
      let small : h < 2 ^ 32 = read_word-lt o d bytes in
      let stored : set_bits (2 ^ w - 1) k value h ≡ with_field k w value h =
        set_bits_lem k w n h value (fits small) (result small) small e in
      rw stored (read_word-write_word o (with_field k w value h) d room (result small))
