-- ===== src/Connection/Fill.antt =====
-- The frames that src/ClientHandler.cpp makes: their type, their sequence number and their message.
use miptp_cpp.Prelude.{
  All, ℕ, zero, suc, ◌+◌, ◌-◌, ◌/◌, ◌%◌, ◌^◌, ◌≤◌, ◌<◌, ◌≡◌, refl, sym, ap, ◌∙◌, List, [], ◌∷◌,
  length, length-drop, length-take, set, take, drop, replicate, take-append, drop-append, take-drop,
  arith,
}
use miptp_cpp.Bytes.{IsBytes, write_at, write_word, resize, length-write_at, write_at-IsBytes}
use miptp_cpp.Header.{set_field, length-set_field}
use miptp_cpp.MiptpFrame.{
  MiptpFrame, empty_frame, set_type, set_dest, set_source, set_sequence_number, set_padding,
  set_msg_size, get_type, get_source, get_sequence_number, get_msg, data_packet, frame_max_msg_size,
  calc_padding,
}
use miptp_cpp.MiptpFrame.Words.{IsFrame}
use miptp_cpp.MiptpFrame.Fields.{
  Fields, fields, sequence_of, set_type-IsFrame, set_dest-IsFrame, set_source-IsFrame,
  set_sequence_number-IsFrame, fields-set_type, fields-set_dest, fields-set_source,
  fields-set_sequence,
}
use miptp_cpp.MiptpFrame.Message.{
  message, calc_padding_lem, length-set_msg_size, set_msg_size-IsFrame, fields-set_msg_size,
  get_msg_size-set_msg_size, take-drop-write_at,
}
use miptp_cpp.ClientHandler.{fill_frame, control_frame}

drop-set : (n i x : ℕ) (d : List ℕ) → i < n → drop n (set d i x) ≡ drop n d
drop-set zero i x d h = absurd (omega arith)
drop-set (suc n) i x [] h = refl
drop-set (suc n) zero x (y ∷ d) h = refl
drop-set (suc n) (suc i) x (y ∷ d) h = drop-set n i x d (omega arith)

drop-write_at : (n o : ℕ) (bs d : List ℕ) → o + length bs ≤ n → drop n (write_at o bs d) ≡ drop n d
unfolding write_at
drop-write_at n o [] d h = refl
drop-write_at n o (b ∷ bs) d h =
    drop-write_at n (o + 1) bs (set d o b) (omega arith) ∙ drop-set n o b d (omega arith)

-- What stands behind the header.
abbrev body : MiptpFrame → List ℕ
body f = drop 6 f.m_data

-- The header of a frame, filled in.
abbrev headed : ℕ → ℕ → ℕ → ℕ → MiptpFrame → MiptpFrame
headed type dest source seq f =
    set_sequence_number seq (set_source source (set_dest dest (set_type type f)))

drop-set_field :
    (mask shift value : ℕ) (d : List ℕ) → drop 6 (set_field 0 mask shift value d) ≡ drop 6 d
unfolding set_field write_word
drop-set_field mask shift value d = drop-write_at 6 0 _ d (omega arith)

body-headed :
    (type dest source seq : ℕ) (f : MiptpFrame) → body (headed type dest source seq f) ≡ body f
unfolding set_sequence_number set_source set_dest set_type
body-headed type dest source seq f =
    drop-write_at 6 4 (seq % 256 ∷ seq / 256 % 256 ∷ [])
      (set_source source (set_dest dest (set_type type f))).m_data (omega arith)
    ∙ drop-set_field 0b11111111111111 18 source (set_dest dest (set_type type f)).m_data
    ∙ drop-set_field 0b11111111111111 4 dest (set_type type f).m_data
    ∙ drop-set_field 0b11 0 type f.m_data

length-headed :
    (type dest source seq : ℕ) (f : MiptpFrame)
    → length (headed type dest source seq f).m_data ≡ length f.m_data
unfolding set_sequence_number set_source set_dest set_type
length-headed type dest source seq f =
    length-write_at 4 (seq % 256 ∷ seq / 256 % 256 ∷ []) _
    ∙ length-set_field 0 0b11111111111111 18 source _
    ∙ length-set_field 0 0b11111111111111 4 dest _
    ∙ length-set_field 0 0b11 0 type f.m_data

headed-IsFrame :
    (type dest source seq : ℕ) (f : MiptpFrame)
    → IsFrame f
    → IsFrame (headed type dest source seq f)
headed-IsFrame type dest source seq f v =
    set_sequence_number-IsFrame _
      (set_source-IsFrame _ (set_dest-IsFrame _ (set_type-IsFrame f v type) dest) source) seq

fields-headed :
    (type dest source seq : ℕ) (f : MiptpFrame)
    → IsFrame f
    → ((fields (headed type dest source seq f)).packet_type ≡ type % 4)
      × ((fields (headed type dest source seq f)).sequence ≡ seq % 2 ^ 16)
      × ((fields (headed type dest source seq f)).source ≡ source % 2 ^ 14)
fields-headed type dest source seq f v =
    let a = set_type-IsFrame f v type in
    let b = set_dest-IsFrame _ a dest in
    let c = set_source-IsFrame _ b source in
    rw
      (
        fields-set_sequence _ c seq,
        fields-set_source _ b source,
        fields-set_dest _ a dest,
        fields-set_type f v type,
      )
      (refl, refl, refl)

-- The header stays as it is but for the padding.
module _ (type dest source seq size : ℕ) (f : MiptpFrame) (v : IsFrame f) where
  abbrev sized : MiptpFrame
  sized = set_msg_size size (headed type dest source seq f)

  sized-fields :
      (get_type sized ≡ type % 4)
      × (sequence_of sized ≡ seq % 2 ^ 16)
      × (get_source sized ≡ source % 2 ^ 14)
  unfolding fields
  sized-fields =
      let same =
        fields-set_msg_size size (headed type dest source seq f)
          (headed-IsFrame type dest source seq f v) in
      let r = fields-headed type dest source seq f v in
      (
        ap (λ (p : Fields). p.packet_type) same ∙ r.0,
        ap (λ (p : Fields). p.sequence) same ∙ r.1,
        ap (λ (p : Fields). p.source) same ∙ r.2,
      )

take-take : (k n : ℕ) (xs : List ℕ) → k ≤ n → take k (take n xs) ≡ take k xs
take-take zero n xs h = refl
take-take (suc k) zero xs h = absurd (omega arith)
take-take (suc k) (suc n) [] h = refl
take-take (suc k) (suc n) (x ∷ xs) h = ap (λ l. x ∷ l) (take-take k n xs (omega arith))

-- A part that the cut does not touch.
part-resize :
    (o size n : ℕ) (d : List ℕ)
    → o + size ≤ n
    → n ≤ length d
    → take size (drop o (resize n d)) ≡ take size (drop o d)
unfolding resize
part-resize o size n d h k =
    let zeros : List ℕ = replicate (n - length d) 0 in
    let full : length (take n d) ≡ n = omega (arith, length-take n d) in
    ap (take size) (drop-append o (take n d) zeros (omega arith))
    ∙ take-append size (drop o (take n d)) zeros (omega (arith, length-drop o (take n d)))
    ∙ take-drop size o (take n d)
    ∙ ap (drop o) (take-take (o + size) n d h)
    ∙ sym (take-drop size o d)

body-set_msg_size :
    (size : ℕ) (f : MiptpFrame)
    → size + 6 + calc_padding (size + 6 + 4) ≤ length f.m_data
    → take size (body (set_msg_size size f)) ≡ take size (body f)
unfolding set_msg_size set_padding
body-set_msg_size size f h =
    let padding = calc_padding (size + 6 + 4) in
    let padded = set_field 0 0b11 2 padding f.m_data in
    part-resize 6 size (size + 6 + padding) padded (omega arith)
      (omega (arith, h, length-set_field 0 0b11 2 padding f.m_data))
    ∙ ap (take size) (drop-set_field 0b11 2 padding f.m_data)

-- A frame of data: what a slot holds once it is filled.
pub record IsFilled (seq : ℕ) (bytes : List ℕ) (f : MiptpFrame) : Type 0 where
  pub frame : IsFrame f
  pub kind : get_type f ≡ data_packet
  pub number : get_sequence_number 0 f ≡ seq
  pub holds : message f ≡ bytes

-- The frame with room for the largest message, and the bytes behind its header.
abbrev written : List ℕ → MiptpFrame → MiptpFrame
written bytes frame = record (set_msg_size frame_max_msg_size frame) {
  m_data = write_at 6 bytes (set_msg_size frame_max_msg_size frame).m_data;
}

written-IsFrame :
    (bytes : List ℕ) (frame : MiptpFrame)
    → IsFrame frame
    → IsBytes bytes
    → (length (written bytes frame).m_data ≡ 1496) × IsFrame (written bytes frame)
unfolding calc_padding
written-IsFrame bytes frame v b =
    let wide = set_msg_size frame_max_msg_size frame in
    let room : length wide.m_data ≡ 1496 = length-set_msg_size frame_max_msg_size frame v in
    let same : length (write_at 6 bytes wide.m_data) ≡ 1496 =
      length-write_at 6 bytes wide.m_data ∙ room in
    (
      same,
      record {
        header = omega (arith, same);
        bytes =
            write_at-IsBytes 6 bytes wide.m_data b
              (set_msg_size-IsFrame frame_max_msg_size frame v).bytes;
      },
    )

-- Such a frame bears the port of its sender.
pub get_source-fill_frame :
    (bytes : List ℕ) (dest source seq : ℕ) (frame : MiptpFrame)
    → IsFrame frame
    → IsBytes bytes
    → get_source (fill_frame bytes dest source seq (set_msg_size frame_max_msg_size frame))
      ≡ source % 2 ^ 14
unfolding fill_frame
get_source-fill_frame bytes dest source seq frame v b =
    (sized-fields data_packet dest source seq (length bytes) (written bytes frame)
      (written-IsFrame bytes frame v b).1).2

pub fill_frame-IsFilled :
    (bytes : List ℕ) (dest source seq : ℕ) (frame : MiptpFrame)
    → IsFrame frame
    → IsBytes bytes
    → length bytes ≤ frame_max_msg_size
    → seq < 2 ^ 16
    → IsFilled seq bytes (fill_frame bytes dest source seq (set_msg_size frame_max_msg_size frame))
unfolding fill_frame get_sequence_number get_msg calc_padding
fill_frame-IsFilled bytes dest source seq frame v b l s =
    let wide = set_msg_size frame_max_msg_size frame in
    let w = written bytes frame in
    let (same, w-IsFrame) = written-IsFrame bytes frame v b in
    let header = sized-fields data_packet dest source seq (length bytes) w w-IsFrame in
    let h = headed data_packet dest source seq w in
    let h-IsFrame = headed-IsFrame data_packet dest source seq w w-IsFrame in
    let long : length h.m_data ≡ 1496 = length-headed data_packet dest source seq w ∙ same in
    let small = get_msg_size-set_msg_size (length bytes) h h-IsFrame (omega arith) in
    record {
      frame = set_msg_size-IsFrame (length bytes) h h-IsFrame;
      kind = header.0;
      number = omega (arith, header.1);
      holds =
          ap (λ k. take k (body (set_msg_size (length bytes) h))) small
          ∙ body-set_msg_size (length bytes) h
              (omega (arith, long, calc_padding_lem (length bytes + 6 + 4)))
          ∙ ap (take (length bytes)) (body-headed data_packet dest source seq w)
          ∙ take-drop-write_at 6 bytes wide.m_data
              (omega (arith, length-set_msg_size frame_max_msg_size frame v));
    }

empty_frame-IsFrame : IsFrame empty_frame
unfolding empty_frame
empty_frame-IsFrame =
    set_msg_size-IsFrame 0 (record { m_data = replicate 6 0 })
      (record { header = omega arith; bytes = ground arith })

pub replicate-IsFrame : (n : ℕ) → All IsFrame (replicate n empty_frame)
replicate-IsFrame zero = tt
replicate-IsFrame (suc n) = (empty_frame-IsFrame, replicate-IsFrame n)

-- A frame without a message has its type, its number and its source.
pub control_frame_lem :
    (type dest source seq : ℕ)
    → (get_type (control_frame type dest source seq) ≡ type % 4)
      × (get_sequence_number 0 (control_frame type dest source seq) ≡ seq % 2 ^ 16)
      × (get_source (control_frame type dest source seq) ≡ source % 2 ^ 14)
unfolding control_frame get_sequence_number
control_frame_lem type dest source seq =
    let r = sized-fields type dest source seq 0 empty_frame empty_frame-IsFrame in
    (r.0, omega (arith, r.1), r.2)
