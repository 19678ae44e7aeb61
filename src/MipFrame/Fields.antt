-- ===== src/MipFrame/Fields.antt =====
-- The MIP header of src/MIPFrame.cpp as a record of fields, and what each setter does to it.
use miptp_cpp.Prelude.{ℕ, ◌/◌, ◌%◌, ◌^◌, ◌≡◌, arith}
use miptp_cpp.Header.{length-set_field, set_field-IsBytes}
use miptp_cpp.MipFrame.{
  MipFrame, set_mip_tra, get_mip_tra, set_mip_dest, get_mip_dest, set_mip_source, get_mip_source,
  set_payload_length, get_payload_length, set_mip_ttl, get_mip_ttl,
}
use miptp_cpp.MipFrame.Words.{
  IsFrame, word, word-set_mip_tra, word-set_mip_dest, word-set_mip_source, word-set_payload_length,
  word-set_mip_ttl, get_mip_tra_lem, get_mip_dest_lem, get_mip_source_lem, get_payload_length_lem,
  get_mip_ttl_lem,
}

pub record Fields : Type 0 where
  pub tra : ℕ
  pub dest : ℕ
  pub source : ℕ
  pub payload : ℕ
  pub ttl : ℕ

abbrev decode : ℕ → Fields
decode w = record {
  tra = w / 2 ^ 0 % 2 ^ 3;
  dest = w / 2 ^ 3 % 2 ^ 8;
  source = w / 2 ^ 11 % 2 ^ 8;
  payload = w / 2 ^ 19 % 2 ^ 9;
  ttl = w / 2 ^ 28 % 2 ^ 4;
}

unfoldable pub fields : MipFrame → Fields
fields f = record {
  tra = get_mip_tra f;
  dest = get_mip_dest f;
  source = get_mip_source f;
  payload = get_payload_length f;
  ttl = get_mip_ttl f;
}

fields-decode : (f : MipFrame) → fields f ≡ decode (word f)
unfolding fields
fields-decode f = rw (
  get_mip_tra_lem f,
  get_mip_dest_lem f,
  get_mip_source_lem f,
  get_payload_length_lem f,
  get_mip_ttl_lem f,
)

pub fields_of_word : (f g : MipFrame) → word f ≡ word g → fields f ≡ fields g
fields_of_word f g e = rw (fields-decode f, fields-decode g, e)

module _ (f : MipFrame) (v : IsFrame f) (value : ℕ) where
  pub fields-set_mip_tra : fields (set_mip_tra value f) ≡ record (fields f) { tra = value % 2 ^ 3 }
  fields-set_mip_tra =
      rw (fields-decode f, fields-decode (set_mip_tra value f), word-set_mip_tra f v value)
        (ground arith)

  pub set_mip_tra-IsFrame : IsFrame (set_mip_tra value f)
  unfolding set_mip_tra
  set_mip_tra-IsFrame = record {
    header = omega (arith, length-set_field 14 0b111 0 value f.m_data, v.header);
    bytes = set_field-IsBytes 14 0b111 0 value f.m_data v.bytes;
  }

  pub fields-set_mip_dest :
      fields (set_mip_dest value f) ≡ record (fields f) { dest = value % 2 ^ 8 }
  fields-set_mip_dest =
      rw (fields-decode f, fields-decode (set_mip_dest value f), word-set_mip_dest f v value)
        (ground arith)

  pub set_mip_dest-IsFrame : IsFrame (set_mip_dest value f)
  unfolding set_mip_dest
  set_mip_dest-IsFrame = record {
    header = omega (arith, length-set_field 14 0b11111111 3 value f.m_data, v.header);
    bytes = set_field-IsBytes 14 0b11111111 3 value f.m_data v.bytes;
  }

  pub fields-set_mip_source :
      fields (set_mip_source value f) ≡ record (fields f) { source = value % 2 ^ 8 }
  fields-set_mip_source =
      rw (fields-decode f, fields-decode (set_mip_source value f), word-set_mip_source f v value)
        (ground arith)

  pub set_mip_source-IsFrame : IsFrame (set_mip_source value f)
  unfolding set_mip_source
  set_mip_source-IsFrame = record {
    header = omega (arith, length-set_field 14 0b11111111 11 value f.m_data, v.header);
    bytes = set_field-IsBytes 14 0b11111111 11 value f.m_data v.bytes;
  }

  pub fields-set_payload_length :
      fields (set_payload_length value f) ≡ record (fields f) { payload = value % 2 ^ 9 }
  fields-set_payload_length =
      rw
        (
          fields-decode f,
          fields-decode (set_payload_length value f),
          word-set_payload_length f v value,
        )
        (ground arith)

  pub set_payload_length-IsFrame : IsFrame (set_payload_length value f)
  unfolding set_payload_length
  set_payload_length-IsFrame = record {
    header = omega (arith, length-set_field 14 0b111111111 19 value f.m_data, v.header);
    bytes = set_field-IsBytes 14 0b111111111 19 value f.m_data v.bytes;
  }

  pub fields-set_mip_ttl : fields (set_mip_ttl value f) ≡ record (fields f) { ttl = value % 2 ^ 4 }
  fields-set_mip_ttl =
      rw (fields-decode f, fields-decode (set_mip_ttl value f), word-set_mip_ttl f v value)
        (ground arith)

  pub set_mip_ttl-IsFrame : IsFrame (set_mip_ttl value f)
  unfolding set_mip_ttl
  set_mip_ttl-IsFrame = record {
    header = omega (arith, length-set_field 14 0b1111 28 value f.m_data, v.header);
    bytes = set_field-IsBytes 14 0b1111 28 value f.m_data v.bytes;
  }

module _ (f : MipFrame) (v : IsFrame f) (value : ℕ) where
  -- Each setter replaces its own field of the MIP header, cut to the field's width, and no other: the
  -- TRA bits are 3, an address 8, the payload length 9 and the time to live 4.
  pub mip_setters_lem :
      (fields (set_mip_tra value f) ≡ record (fields f) { tra = value % 2 ^ 3 })
      × (fields (set_mip_dest value f) ≡ record (fields f) { dest = value % 2 ^ 8 })
      × (fields (set_mip_source value f) ≡ record (fields f) { source = value % 2 ^ 8 })
      × (fields (set_payload_length value f) ≡ record (fields f) { payload = value % 2 ^ 9 })
      × (fields (set_mip_ttl value f) ≡ record (fields f) { ttl = value % 2 ^ 4 })
  mip_setters_lem = (
    fields-set_mip_tra f v value,
    fields-set_mip_dest f v value,
    fields-set_mip_source f v value,
    fields-set_payload_length f v value,
    fields-set_mip_ttl f v value,
  )
