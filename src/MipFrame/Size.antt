-- ===== src/MipFrame/Size.antt =====
-- The sizes of src/MIPFrame.cpp: the header counts whole words, and the vector follows it.
use native.Mathlib.Nat.{mod-eq_of_lt}
use miptp_cpp.Prelude.{
  refl, ◌⊎◌, ℕ, ◌+◌, ◌-◌, ◌*◌, ◌/◌, ◌%◌, ◌^◌, ◌≤◌, ◌<◌, ◌≡◌, ap, ◌∙◌, length, ◌==◌, Bool-cases, inl,
  inr, ==_iff, arith,
}
use miptp_cpp.Bytes.{read_word, resize, byte-resize, length-resize, resize-IsBytes}
use miptp_cpp.Header.{length-set_field}
use miptp_cpp.MipFrame.{
  MipFrame, payload_length, set_payload_length, get_payload_length, get_msg_size, set_msg_size,
  set_size, get_size,
}
use miptp_cpp.MipFrame.Words.{IsFrame, word, get_payload_length_lem}
use miptp_cpp.MipFrame.Fields.{
  Fields, fields, fields_of_word, fields-set_payload_length, set_payload_length-IsFrame,
}

-- `size` rounded up to whole words.
abbrev pub round_up : ℕ → ℕ
round_up size = (size + 3) / 4 * 4

payload_length_lem :
    (size : ℕ)
    → size ≤ 2040
    → (payload_length size < 512)
      × ((0 < size → payload_length size * 4 ≡ round_up size + 4))
      × (size ≡ 0 → payload_length size ≡ 0)
unfolding payload_length
payload_length_lem size h = (ground arith, ground arith, ground arith)

module _ (n : ℕ) (g : MipFrame) (v : IsFrame g) where
  abbrev pub resized : MipFrame
  resized = record g { m_data = resize (n + 18) g.m_data }

  pub word-resized : word resized ≡ word g
  unfolding read_word
  word-resized = omega (
    arith,
    byte-resize (n + 18) g.m_data 14 (omega arith),
    byte-resize (n + 18) g.m_data 15 (omega arith),
    byte-resize (n + 18) g.m_data 16 (omega arith),
    byte-resize (n + 18) g.m_data 17 (omega arith),
  )

  resized-IsFrame : IsFrame resized
  resized-IsFrame = record {
    header = omega (arith, length-resize (n + 18) g.m_data);
    bytes = resize-IsBytes (n + 18) g.m_data v.bytes;
  }

pub get_msg_size_of_word : (f g : MipFrame) → word f ≡ word g → get_msg_size f ≡ get_msg_size g
unfolding get_msg_size
get_msg_size_of_word f g e = rw (get_payload_length_lem f, get_payload_length_lem g, e)

module _ (size : ℕ) (f : MipFrame) (v : IsFrame f) (addressable : length f.m_data < 2 ^ 64)
    (fits : size ≤ 2040) where
  abbrev sized : MipFrame
  sized = set_payload_length (payload_length size) f

  get_payload_length-sized : get_payload_length sized ≡ payload_length size % 512
  unfolding fields
  get_payload_length-sized =
      ap (λ (r : Fields). r.payload) (fields-set_payload_length f v (payload_length size))

  get_msg_size-sized : get_msg_size sized ≡ round_up size
  unfolding get_msg_size
  get_msg_size-sized = ground (arith, get_payload_length-sized, payload_length_lem size fits)

  length-sized : length sized.m_data ≡ length f.m_data
  unfolding set_payload_length
  length-sized = length-set_field 14 0b111111111 19 (payload_length size) f.m_data

  set_msg_size_cases :
      ((set_msg_size size f ≡ sized) × (length sized.m_data ≡ get_msg_size sized + 18))
      ⊎ (set_msg_size size f
          ≡ resized
              (get_msg_size sized)
              sized
              (set_payload_length-IsFrame f v (payload_length size)))
  unfolding set_msg_size
  set_msg_size_cases =
      elim (Bool-cases ((length sized.m_data + 2 ^ 64 - 18) % 2 ^ 64 == get_msg_size sized)) [
        | inl e ↦ inl (
          rw e refl,
          omega (
            arith,
            (==_iff ((length sized.m_data + 2 ^ 64 - 18) % 2 ^ 64) (get_msg_size sized)).0 e,
            length-sized,
            v.header,
          ),
        )
        | inr e ↦ inr (rw e refl)
      ]

  fields-sized : fields sized ≡ record (fields f) { payload = payload_length size }
  fields-sized =
      fields-set_payload_length f v (payload_length size)
      ∙ ap (λ p. record (fields f) { payload = p }) (mod-eq_of_lt (payload_length_lem size fits).0)

  -- For a size of at most 2040 bytes: it reads back rounded up to whole words, the vector has room for
  -- both headers and it, whatever its length was, and the fields of the MIP header stay but for the
  -- payload length.
  pub set_msg_size_lem :
      (get_msg_size (set_msg_size size f) ≡ round_up size)
      × (get_size (set_msg_size size f) ≡ round_up size + 18)
      × (fields (set_msg_size size f) ≡ record (fields f) { payload = payload_length size })
  unfolding get_size
  set_msg_size_lem =
      let n = get_msg_size sized in
      let gv : IsFrame sized = set_payload_length-IsFrame f v (payload_length size) in
      let same = word-resized n sized gv in
      elim set_msg_size_cases [
        | inl (e, l) ↦ rw e (get_msg_size-sized, omega (arith, l, get_msg_size-sized), fields-sized)
        | inr e ↦ rw e (
          get_msg_size_of_word (resized n sized gv) sized same ∙ get_msg_size-sized,
          omega (arith, length-resize (n + 18) sized.m_data, get_msg_size-sized),
          fields_of_word (resized n sized gv) sized same ∙ fields-sized,
        )
      ]

-- `setSize` leaves room for the Ethernet header only: for a size of 14 to 2054 bytes, the frame that
-- it makes is at least the 4 bytes of the MIP header longer than asked.
pub get_size-set_size :
    (size : ℕ) (f : MipFrame)
    → IsFrame f
    → length f.m_data < 2 ^ 64
    → 14 ≤ size
    → size ≤ 2054
    → size + 4 ≤ get_size (set_size size f)
unfolding set_size
get_size-set_size size f v a lo hi =
    let rest : (size + 2 ^ 64 - 14) % 2 ^ 64 ≡ size - 14 = omega arith in
    rw rest (omega (arith, (set_msg_size_lem (size - 14) f v a (omega arith)).1))
