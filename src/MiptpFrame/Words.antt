-- ===== src/MiptpFrame/Words.antt =====
-- What the setters and getters of src/MIPTPFrame.cpp mean for the header word.
use miptp_cpp.Prelude.{ℕ, ◌+◌, ◌*◌, ◌/◌, ◌%◌, ◌^◌, ◌≤◌, ◌≡◌, refl, length, arith}
use miptp_cpp.Bytes.{read_word, IsBytes, read_word-lt}
use miptp_cpp.Header.{get_field_lem, read_word-set_field}
use miptp_cpp.MiptpFrame.{
  MiptpFrame, set_type, set_padding, set_dest, set_source, get_type, get_padding, get_dest,
  get_source,
}

-- The vector holds bytes, and the header lies inside it.
pub record IsFrame (f : MiptpFrame) : Type 0 where
  pub header : 6 ≤ length f.m_data
  pub bytes : IsBytes f.m_data

abbrev pub word : MiptpFrame → ℕ
word f = read_word 0 f.m_data

module _ (f : MiptpFrame) (v : IsFrame f) (value : ℕ) where
  pub word-set_type : word (set_type value f) ≡ word f / 4 * 4 + value % 4
  unfolding set_type
  word-set_type = omega (
    arith,
    read_word-set_field 0 0 2 62 value f.m_data v.bytes (omega arith) (omega arith) (omega arith)
        refl,
  )

  pub word-set_padding : word (set_padding value f) ≡ (word f / 16 * 4 + value % 4) * 4 + word f % 4
  unfolding set_padding
  word-set_padding = omega (
    arith,
    read_word-set_field 0 2 2 60 value f.m_data v.bytes (omega arith) (omega arith) (omega arith)
        refl,
  )

  pub word-set_dest :
      word (set_dest value f) ≡ (word f / 2 ^ 18 * 2 ^ 14 + value % 2 ^ 14) * 16 + word f % 16
  unfolding set_dest
  word-set_dest = omega (
    arith,
    read_word-set_field 0 4 14 46 value f.m_data v.bytes (omega arith) (omega arith) (omega arith)
        refl,
  )

  pub word-set_source : word (set_source value f) ≡ value % 2 ^ 14 * 2 ^ 18 + word f % 2 ^ 18
  unfolding set_source
  word-set_source = omega (
    arith,
    read_word-set_field 0 18 14 32 value f.m_data v.bytes (omega arith) (omega arith) (omega arith)
        refl,
    read_word-lt 0 f.m_data v.bytes,
  )

module _ (f : MiptpFrame) where
  pub get_type_lem : get_type f ≡ word f % 4
  unfolding get_type
  get_type_lem = omega (arith, get_field_lem 0 0 2 f.m_data)

  pub get_padding_lem : get_padding f ≡ word f / 4 % 4
  unfolding get_padding
  get_padding_lem = get_field_lem 0 2 2 f.m_data

  pub get_dest_lem : get_dest f ≡ word f / 16 % 2 ^ 14
  unfolding get_dest
  get_dest_lem = get_field_lem 0 4 14 f.m_data

  pub get_source_lem : get_source f ≡ word f / 2 ^ 18 % 2 ^ 14
  unfolding get_source
  get_source_lem = get_field_lem 0 18 14 f.m_data
