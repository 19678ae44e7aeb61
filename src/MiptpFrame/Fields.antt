-- ===== src/MiptpFrame/Fields.antt =====
-- The header of src/MIPTPFrame.cpp as a record of fields, and what each setter does to it.
use miptp_cpp.Prelude.{ℕ, ◌+◌, ◌*◌, ◌/◌, ◌%◌, ◌^◌, ◌≡◌, inl, inr, [], ◌∷◌, arith}
use miptp_cpp.Bytes.{
  byte, read_word, write_at-IsBytes, length-write_at, byte-write_at, byte-write_at_other,
}
use miptp_cpp.Header.{length-set_field, byte-set_field_other, set_field-IsBytes}
use miptp_cpp.MiptpFrame.{
  MiptpFrame, set_type, set_padding, set_dest, set_source, set_sequence_number, get_type,
  get_padding, get_dest, get_source,
}
use miptp_cpp.MiptpFrame.Words.{
  IsFrame, word, word-set_type, word-set_padding, word-set_dest, word-set_source, get_type_lem,
  get_padding_lem, get_dest_lem, get_source_lem,
}

-- The header as the fields that it stands for.
pub record Fields : Type 0 where
  pub packet_type : ℕ
  pub padding : ℕ
  pub dest : ℕ
  pub source : ℕ
  pub sequence : ℕ

abbrev pub sequence_of : MiptpFrame → ℕ
sequence_of f = byte f.m_data 4 + 256 * byte f.m_data 5

-- The fields that a header word and a sequence number stand for.
abbrev pub decode : ℕ → ℕ → Fields
decode w s = record {
  packet_type = w % 4;
  padding = w / 4 % 4;
  dest = w / 16 % 2 ^ 14;
  source = w / 2 ^ 18 % 2 ^ 14;
  sequence = s;
}

unfoldable pub fields : MiptpFrame → Fields
fields f = record {
  packet_type = get_type f;
  padding = get_padding f;
  dest = get_dest f;
  source = get_source f;
  sequence = sequence_of f;
}

pub fields-decode : (f : MiptpFrame) → fields f ≡ decode (word f) (sequence_of f)
unfolding fields
fields-decode f = rw (get_type_lem f, get_padding_lem f, get_dest_lem f, get_source_lem f)

-- Each header setter changes its own field, to the value cut to the field's width, and keeps the
-- vector's length and the rest of it.
module _ (f : MiptpFrame) (v : IsFrame f) (value : ℕ) where
  pub sequence-set_type : sequence_of (set_type value f) ≡ sequence_of f
  unfolding set_type
  sequence-set_type = omega (
    arith,
    byte-set_field_other 0 3 0 value f.m_data 4 (inr (omega arith)),
    byte-set_field_other 0 3 0 value f.m_data 5 (inr (omega arith)),
  )

  pub fields-set_type : fields (set_type value f) ≡ record (fields f) { packet_type = value % 4 }
  fields-set_type =
      rw
        (
          fields-decode f,
          fields-decode (set_type value f),
          sequence-set_type,
          word-set_type f v value,
        )
        (ground arith)

  pub set_type-IsFrame : IsFrame (set_type value f)
  unfolding set_type
  set_type-IsFrame = record {
    header = omega (arith, length-set_field 0 3 0 value f.m_data, v.header);
    bytes = set_field-IsBytes 0 3 0 value f.m_data v.bytes;
  }

  pub sequence-set_padding : sequence_of (set_padding value f) ≡ sequence_of f
  unfolding set_padding
  sequence-set_padding = omega (
    arith,
    byte-set_field_other 0 3 2 value f.m_data 4 (inr (omega arith)),
    byte-set_field_other 0 3 2 value f.m_data 5 (inr (omega arith)),
  )

  pub fields-set_padding : fields (set_padding value f) ≡ record (fields f) { padding = value % 4 }
  fields-set_padding =
      rw
        (
          fields-decode f,
          fields-decode (set_padding value f),
          sequence-set_padding,
          word-set_padding f v value,
        )
        (ground arith)

  pub set_padding-IsFrame : IsFrame (set_padding value f)
  unfolding set_padding
  set_padding-IsFrame = record {
    header = omega (arith, length-set_field 0 3 2 value f.m_data, v.header);
    bytes = set_field-IsBytes 0 3 2 value f.m_data v.bytes;
  }

  pub sequence-set_dest : sequence_of (set_dest value f) ≡ sequence_of f
  unfolding set_dest
  sequence-set_dest = omega (
    arith,
    byte-set_field_other 0 0b11111111111111 4 value f.m_data 4 (inr (omega arith)),
    byte-set_field_other 0 0b11111111111111 4 value f.m_data 5 (inr (omega arith)),
  )

  pub fields-set_dest : fields (set_dest value f) ≡ record (fields f) { dest = value % 2 ^ 14 }
  fields-set_dest =
      rw
        (
          fields-decode f,
          fields-decode (set_dest value f),
          sequence-set_dest,
          word-set_dest f v value,
        )
        (ground arith)

  pub set_dest-IsFrame : IsFrame (set_dest value f)
  unfolding set_dest
  set_dest-IsFrame = record {
    header = omega (arith, length-set_field 0 0b11111111111111 4 value f.m_data, v.header);
    bytes = set_field-IsBytes 0 0b11111111111111 4 value f.m_data v.bytes;
  }

  pub sequence-set_source : sequence_of (set_source value f) ≡ sequence_of f
  unfolding set_source
  sequence-set_source = omega (
    arith,
    byte-set_field_other 0 0b11111111111111 18 value f.m_data 4 (inr (omega arith)),
    byte-set_field_other 0 0b11111111111111 18 value f.m_data 5 (inr (omega arith)),
  )

  pub fields-set_source :
      fields (set_source value f) ≡ record (fields f) { source = value % 2 ^ 14 }
  fields-set_source =
      rw
        (
          fields-decode f,
          fields-decode (set_source value f),
          sequence-set_source,
          word-set_source f v value,
        )
        (ground arith)

  pub set_source-IsFrame : IsFrame (set_source value f)
  unfolding set_source
  set_source-IsFrame = record {
    header = omega (arith, length-set_field 0 0b11111111111111 18 value f.m_data, v.header);
    bytes = set_field-IsBytes 0 0b11111111111111 18 value f.m_data v.bytes;
  }

  pub word-set_sequence : word (set_sequence_number value f) ≡ word f
  unfolding set_sequence_number read_word
  word-set_sequence = omega (
    arith,
    byte-write_at_other 4 (value % 256 ∷ value / 256 % 256 ∷ []) f.m_data 0 (inl (omega arith)),
    byte-write_at_other 4 (value % 256 ∷ value / 256 % 256 ∷ []) f.m_data 1 (inl (omega arith)),
    byte-write_at_other 4 (value % 256 ∷ value / 256 % 256 ∷ []) f.m_data 2 (inl (omega arith)),
    byte-write_at_other 4 (value % 256 ∷ value / 256 % 256 ∷ []) f.m_data 3 (inl (omega arith)),
  )

  pub sequence-set_sequence : sequence_of (set_sequence_number value f) ≡ value % 2 ^ 16
  unfolding set_sequence_number
  sequence-set_sequence = omega (
    arith,
    byte-write_at 4 (value % 256 ∷ value / 256 % 256 ∷ []) f.m_data 0 (omega arith) v.header,
    byte-write_at 4 (value % 256 ∷ value / 256 % 256 ∷ []) f.m_data 1 (omega arith) v.header,
  )

  pub fields-set_sequence :
      fields (set_sequence_number value f) ≡ record (fields f) { sequence = value % 2 ^ 16 }
  fields-set_sequence =
      rw
        (
          fields-decode f,
          fields-decode (set_sequence_number value f),
          sequence-set_sequence,
          word-set_sequence,
        )
        (ground arith)

  pub set_sequence_number-IsFrame : IsFrame (set_sequence_number value f)
  unfolding set_sequence_number
  set_sequence_number-IsFrame = record {
    header =
        omega (arith, length-write_at 4 (value % 256 ∷ value / 256 % 256 ∷ []) f.m_data, v.header);
    bytes =
        write_at-IsBytes 4 (value % 256 ∷ value / 256 % 256 ∷ []) f.m_data (omega arith) v.bytes;
  }

module _ (f : MiptpFrame) (v : IsFrame f) (value : ℕ) where
  -- Each setter replaces its own header field, cut to the field's width, and no other field: the type
  -- and the padding have 2 bits, the ports 14 and the sequence number 16.
  pub miptp_setters_lem :
      (fields (set_type value f) ≡ record (fields f) { packet_type = value % 4 })
      × (fields (set_padding value f) ≡ record (fields f) { padding = value % 4 })
      × (fields (set_dest value f) ≡ record (fields f) { dest = value % 2 ^ 14 })
      × (fields (set_source value f) ≡ record (fields f) { source = value % 2 ^ 14 })
      × (fields (set_sequence_number value f) ≡ record (fields f) { sequence = value % 2 ^ 16 })
  miptp_setters_lem = (
    fields-set_type f v value,
    fields-set_padding f v value,
    fields-set_dest f v value,
    fields-set_source f v value,
    fields-set_sequence f v value,
  )
