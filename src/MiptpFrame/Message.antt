-- ===== src/MiptpFrame/Message.antt =====
-- The message part of src/MIPTPFrame.cpp: its size, the padding, and what is written to it.
use native.Mathlib.Nat.{mod-eq_of_lt}
use miptp_cpp.Prelude.{
  ℕ, zero, suc, ◌+◌, ◌%◌, ◌^◌, ◌≤◌, ◌<◌, ◌≡◌, refl, ap, ◌∙◌, List, [], ◌∷◌, length, set, length-set,
  get_or-set_self, sym, ==_iff, take, take-length_self, drop, inl, inr, ◌==◌, Bool-cases, arith,
}
use miptp_cpp.Bytes.{
  byte, read_word, write_at, byte-resize, length-resize, resize-IsBytes, length-write_at,
  byte-write_at_other,
}
use miptp_cpp.MiptpFrame.{
  MiptpFrame, set_padding, calc_padding, set_msg_size, set_msg, get_msg, get_msg_size, get_padding,
}
use miptp_cpp.MiptpFrame.Words.{IsFrame, word, get_padding_lem}
use miptp_cpp.MiptpFrame.Fields.{
  Fields, fields, fields-decode, sequence_of, fields-set_padding, set_padding-IsFrame,
}

-- The padding rounds `size` up to whole 32-bit words, and is less than one word.
pub calc_padding_lem : (size : ℕ) → ((size + calc_padding size) % 4 ≡ 0) × (calc_padding size < 4)
unfolding calc_padding
calc_padding_lem size = ground arith

module _ (size : ℕ) (f : MiptpFrame) (v : IsFrame f) where
  abbrev padding : ℕ
  padding = calc_padding (size + 6 + 4)

  pub length-set_msg_size : length (set_msg_size size f).m_data ≡ size + 6 + padding
  unfolding set_msg_size
  length-set_msg_size = length-resize (size + 6 + padding) (set_padding padding f).m_data

  pub set_msg_size-IsFrame : IsFrame (set_msg_size size f)
  unfolding set_msg_size
  set_msg_size-IsFrame = record {
    header = omega (arith, length-set_msg_size);
    bytes = resize-IsBytes (size + 6 + padding) _ (set_padding-IsFrame f v padding).bytes;
  }

  byte-set_msg_size :
      (i : ℕ) → i < 6 → byte (set_msg_size size f).m_data i ≡ byte (set_padding padding f).m_data i
  unfolding set_msg_size
  byte-set_msg_size i h = byte-resize (size + 6 + padding) _ i (omega arith)

  word-set_msg_size : word (set_msg_size size f) ≡ word (set_padding padding f)
  unfolding read_word
  word-set_msg_size = omega (
    arith,
    byte-set_msg_size 0 (omega arith),
    byte-set_msg_size 1 (omega arith),
    byte-set_msg_size 2 (omega arith),
    byte-set_msg_size 3 (omega arith),
  )

  sequence-set_msg_size : sequence_of (set_msg_size size f) ≡ sequence_of (set_padding padding f)
  sequence-set_msg_size =
      omega (arith, byte-set_msg_size 4 (omega arith), byte-set_msg_size 5 (omega arith))

  same_header : fields (set_msg_size size f) ≡ fields (set_padding padding f)
  same_header = rw (
    fields-decode (set_msg_size size f),
    fields-decode (set_padding padding f),
    word-set_msg_size,
    sequence-set_msg_size,
  )

  pub fields-set_msg_size : fields (set_msg_size size f) ≡ record (fields f) { padding = padding }
  fields-set_msg_size =
      rw (same_header, fields-set_padding f v padding)
        (ap (λ p. record (fields f) { padding = p })
          (mod-eq_of_lt (calc_padding_lem (size + 6 + 4)).1))

  get_padding-set_msg_size : get_padding (set_msg_size size f) ≡ padding
  unfolding fields
  get_padding-set_msg_size = ap (λ (r : Fields). r.padding) fields-set_msg_size

  -- The size of the message reads back, for a well-formed frame and a size in the range of the 64-bit
  -- arithmetic.
  pub get_msg_size-set_msg_size : size + 9 < 2 ^ 64 → get_msg_size (set_msg_size size f) ≡ size
  unfolding get_msg_size
  get_msg_size-set_msg_size h =
      omega
        (arith, get_padding-set_msg_size, length-set_msg_size, (calc_padding_lem (size + 6 + 4)).1)

drop-cons : (o : ℕ) (d : List ℕ) → o < length d → drop o d ≡ byte d o ∷ drop (suc o) d
drop-cons o [] h = absurd (omega arith)
drop-cons zero (x ∷ d) h = refl
drop-cons (suc o) (x ∷ d) h = drop-cons o d (omega arith)

-- What is copied to an offset is found there.
pub take-drop-write_at :
    (o : ℕ) (bs d : List ℕ)
    → o + length bs ≤ length d
    → take (length bs) (drop o (write_at o bs d)) ≡ bs
unfolding write_at
take-drop-write_at o [] d h = refl
take-drop-write_at o (b ∷ bs) d h =
    let e = write_at (o + 1) bs (set d o b) in
    let same : length e ≡ length d =
      omega (arith, length-write_at (o + 1) bs (set d o b), length-set d o b) in
    let first : byte e o ≡ b =
      byte-write_at_other (o + 1) bs (set d o b) o (inl (omega arith))
      ∙ get_or-set_self d o b 0 (omega arith) in
    let next : suc o ≡ o + 1 = omega arith in
    rw (drop-cons o e (omega arith), first, next)
      (ap (◌∷◌ b) (take-drop-write_at (o + 1) bs (set d o b) (omega (arith, length-set d o b))))

-- The message that `getMsg` and `getMsgSize` delimit.
abbrev pub message : MiptpFrame → List ℕ
message f = take (get_msg_size f) (get_msg f)

-- The padding that the header holds and the sizes fit the vector.
pub record IsSized (f : MiptpFrame) : Type 0 where
  pub padded : 6 + get_padding f ≤ length f.m_data
  pub addressable : length f.m_data < 2 ^ 64

set_msg_size-IsSized :
    (size : ℕ) (f : MiptpFrame) → IsFrame f → size + 9 < 2 ^ 64 → IsSized (set_msg_size size f)
set_msg_size-IsSized size f v h = record {
  padded = omega (arith, get_padding-set_msg_size size f v, length-set_msg_size size f v);
  addressable = omega (arith, length-set_msg_size size f v, (calc_padding_lem (size + 6 + 4)).1);
}

-- A copy behind the header.
module _ (bs : List ℕ) (g : MiptpFrame) where
  abbrev filled : MiptpFrame
  filled = record g { m_data = write_at 6 bs g.m_data }

  word-filled : word filled ≡ word g
  unfolding read_word
  word-filled = omega (
    arith,
    byte-write_at_other 6 bs g.m_data 0 (inl (omega arith)),
    byte-write_at_other 6 bs g.m_data 1 (inl (omega arith)),
    byte-write_at_other 6 bs g.m_data 2 (inl (omega arith)),
    byte-write_at_other 6 bs g.m_data 3 (inl (omega arith)),
  )

  get_msg_size-filled : get_msg_size filled ≡ get_msg_size g
  unfolding get_msg_size
  get_msg_size-filled =
      rw (length-write_at 6 bs g.m_data, get_padding_lem filled, get_padding_lem g, word-filled)

  message-filled : IsSized g → get_msg_size g ≡ length bs → message filled ≡ bs
  unfolding get_msg
  message-filled s e = rw (get_msg_size-filled, e) (take-drop-write_at 6 bs g.m_data (room s e))
    where
      room : IsSized g → get_msg_size g ≡ length bs → 6 + length bs ≤ length g.m_data
      room s e = unfold get_msg_size in omega arith

-- `setMsg` stores the buffer: the message reads back as it, whatever the well-formed frame
-- held before, if its size is in the range of the 64-bit arithmetic.
pub message-set_msg :
    (buf : List ℕ) (f : MiptpFrame)
    → IsFrame f
    → IsSized f
    → length buf + 9 < 2 ^ 64
    → message (set_msg buf (length buf) f) ≡ buf
unfolding set_msg
message-set_msg buf f v s h = elim (Bool-cases (length buf == get_msg_size f)) [
  | inl same ↦ rw (same, take-length_self buf) (message-filled buf f s (sym ((==_iff _ _).0 same)))
  | inr other ↦
      rw (other, take-length_self buf)
        (message-filled buf (set_msg_size (length buf) f) (set_msg_size-IsSized (length buf) f v h)
          (get_msg_size-set_msg_size (length buf) f v h))
]
