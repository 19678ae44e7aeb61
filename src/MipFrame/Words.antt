-- ===== src/MipFrame/Words.antt =====
-- What the setters and getters of src/MIPFrame.cpp mean for the MIP header word.
use miptp_cpp.Prelude.{ℕ, ◌+◌, ◌*◌, ◌/◌, ◌%◌, ◌^◌, ◌≤◌, ◌≡◌, refl, length, arith}
use miptp_cpp.Bytes.{read_word, IsBytes, read_word-lt}
use miptp_cpp.Header.{get_field_lem, read_word-set_field}
use miptp_cpp.MipFrame.{
  MipFrame, set_mip_tra, get_mip_tra, set_mip_dest, get_mip_dest, set_mip_source, get_mip_source,
  set_payload_length, get_payload_length, set_mip_ttl, get_mip_ttl,
}

-- The vector holds bytes, and both headers lie inside it.
pub record IsFrame (f : MipFrame) : Type 0 where
  pub header : 18 ≤ length f.m_data
  pub bytes : IsBytes f.m_data

abbrev pub word : MipFrame → ℕ
word f = read_word 14 f.m_data

module _ (f : MipFrame) (v : IsFrame f) (value : ℕ) where
  pub word-set_mip_tra :
      word (set_mip_tra value f) ≡ (word f / 2 ^ 3 * 2 ^ 3 + value % 2 ^ 3) * 2 ^ 0 + word f % 2 ^ 0
  unfolding set_mip_tra
  word-set_mip_tra = omega (
    arith,
    read_word-lt 14 f.m_data v.bytes,
    read_word-set_field 14 0 3 61 value f.m_data v.bytes (omega (arith, v.header)) (omega arith)
        (omega arith) refl,
  )

  pub word-set_mip_dest :
      word (set_mip_dest value f)
      ≡ (word f / 2 ^ 11 * 2 ^ 8 + value % 2 ^ 8) * 2 ^ 3 + word f % 2 ^ 3
  unfolding set_mip_dest
  word-set_mip_dest = omega (
    arith,
    read_word-lt 14 f.m_data v.bytes,
    read_word-set_field 14 3 8 53 value f.m_data v.bytes (omega (arith, v.header)) (omega arith)
        (omega arith) refl,
  )

  pub word-set_mip_source :
      word (set_mip_source value f)
      ≡ (word f / 2 ^ 19 * 2 ^ 8 + value % 2 ^ 8) * 2 ^ 11 + word f % 2 ^ 11
  unfolding set_mip_source
  word-set_mip_source = omega (
    arith,
    read_word-lt 14 f.m_data v.bytes,
    read_word-set_field 14 11 8 45 value f.m_data v.bytes (omega (arith, v.header)) (omega arith)
        (omega arith) refl,
  )

  pub word-set_payload_length :
      word (set_payload_length value f)
      ≡ (word f / 2 ^ 28 * 2 ^ 9 + value % 2 ^ 9) * 2 ^ 19 + word f % 2 ^ 19
  unfolding set_payload_length
  word-set_payload_length = omega (
    arith,
    read_word-lt 14 f.m_data v.bytes,
    read_word-set_field 14 19 9 36 value f.m_data v.bytes (omega (arith, v.header)) (omega arith)
        (omega arith) refl,
  )

  pub word-set_mip_ttl :
      word (set_mip_ttl value f)
      ≡ (word f / 2 ^ 32 * 2 ^ 4 + value % 2 ^ 4) * 2 ^ 28 + word f % 2 ^ 28
  unfolding set_mip_ttl
  word-set_mip_ttl = omega (
    arith,
    read_word-lt 14 f.m_data v.bytes,
    read_word-set_field 14 28 4 32 value f.m_data v.bytes (omega (arith, v.header)) (omega arith)
        (omega arith) refl,
  )

module _ (f : MipFrame) where
  pub get_mip_tra_lem : get_mip_tra f ≡ word f / 2 ^ 0 % 2 ^ 3
  unfolding get_mip_tra
  get_mip_tra_lem = omega (arith, get_field_lem 14 0 3 f.m_data)

  pub get_mip_dest_lem : get_mip_dest f ≡ word f / 2 ^ 3 % 2 ^ 8
  unfolding get_mip_dest
  get_mip_dest_lem = omega (arith, get_field_lem 14 3 8 f.m_data)

  pub get_mip_source_lem : get_mip_source f ≡ word f / 2 ^ 11 % 2 ^ 8
  unfolding get_mip_source
  get_mip_source_lem = omega (arith, get_field_lem 14 11 8 f.m_data)

  pub get_payload_length_lem : get_payload_length f ≡ word f / 2 ^ 19 % 2 ^ 9
  unfolding get_payload_length
  get_payload_length_lem = omega (arith, get_field_lem 14 19 9 f.m_data)

  pub get_mip_ttl_lem : get_mip_ttl f ≡ word f / 2 ^ 28 % 2 ^ 4
  unfolding get_mip_ttl
  get_mip_ttl_lem = omega (arith, get_field_lem 14 28 4 f.m_data)
