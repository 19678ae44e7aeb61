-- ===== src/MipDeamon/Frames.antt =====
-- What the handlers of src/MIP_deamon.cpp make of a frame: it stays well-formed, and where it goes.
use miptp_cpp.Prelude.{
  ℕ, ◌+◌, ◌-◌, ◌/◌, ◌%◌, ◌^◌, ◌<◌, ◌≡◌, refl, sym, subst, ap, ◌∙◌, inl, inr, Bool, true, false,
  List, [], ◌∷◌, length, ltb, ◌==◌, if◌then◌else◌, Bool-cases, arith,
}
use miptp_cpp.Bytes.{
  IsBytes, read_word, write_at, length-write_at, byte-write_at_other, write_at-IsBytes,
  length-resize, resize-IsBytes,
}
use miptp_cpp.MipFrame.{
  MipFrame, set_mip_dest, set_mip_ttl, set_payload_length, payload_length, set_msg_size, set_size,
  set_eth_protocol, get_mip_dest, get_msg_size, get_size, frame_header_size, frame_max_size,
  eth_header_size,
}
use miptp_cpp.MipFrame.Words.{IsFrame, word}
use miptp_cpp.MipFrame.Fields.{
  Fields, fields, fields_of_word, fields-set_mip_dest, fields-set_mip_ttl,
  set_payload_length-IsFrame,
}
use miptp_cpp.RawSock.{recv_mip_frame}

pub set_msg_size-IsFrame : (size : ℕ) (f : MipFrame) → IsFrame f → IsFrame (set_msg_size size f)
unfolding set_msg_size
set_msg_size-IsFrame size f v =
    let g = set_payload_length (payload_length size) f in
    let w = set_payload_length-IsFrame f v (payload_length size) in
    elim (Bool-cases ((length g.m_data + 2 ^ 64 - frame_header_size) % 2 ^ 64 == get_msg_size g)) [
      | inl fits ↦ rw fits w
      | inr other ↦ rw other (record {
        header = omega (arith, length-resize (get_msg_size g + 18) g.m_data);
        bytes = resize-IsBytes (get_msg_size g + 18) g.m_data w.bytes;
      })
    ]

pub write_at-IsFrame :
    (o : ℕ) (bytes : List ℕ) (f : MipFrame)
    → IsBytes bytes
    → IsFrame f
    → IsFrame (record f { m_data = write_at o bytes f.m_data })
write_at-IsFrame o bytes f h v = record {
  header = omega (arith, length-write_at o bytes f.m_data, v.header);
  bytes = write_at-IsBytes o bytes f.m_data h v.bytes;
}

pub set_eth_protocol-IsFrame :
    (protocol : ℕ) (f : MipFrame) → IsFrame f → IsFrame (set_eth_protocol protocol f)
unfolding set_eth_protocol
set_eth_protocol-IsFrame protocol f v =
    write_at-IsFrame 12 (protocol % 256 ∷ protocol / 256 % 256 ∷ []) f (omega arith) v

-- The protocol stands before the header of MIP.
word-set_eth_protocol : (protocol : ℕ) (f : MipFrame) → word (set_eth_protocol protocol f) ≡ word f
unfolding set_eth_protocol read_word
word-set_eth_protocol protocol f =
    let bytes : List ℕ = protocol % 256 ∷ protocol / 256 % 256 ∷ [] in
    let other = byte-write_at_other 12 bytes f.m_data in
    omega (
      arith,
      other 14 (inr (omega arith)),
      other 15 (inr (omega arith)),
      other 16 (inr (omega arith)),
      other 17 (inr (omega arith)),
    )

pub get_mip_dest-set_eth_protocol :
    (protocol : ℕ) (f : MipFrame) → get_mip_dest (set_eth_protocol protocol f) ≡ get_mip_dest f
unfolding fields
get_mip_dest-set_eth_protocol protocol f =
    ap (λ (p : Fields). p.dest)
      (fields_of_word (set_eth_protocol protocol f) f (word-set_eth_protocol protocol f))

pub get_mip_dest-set_mip_ttl :
    (ttl : ℕ) (f : MipFrame) → IsFrame f → get_mip_dest (set_mip_ttl ttl f) ≡ get_mip_dest f
unfolding fields
get_mip_dest-set_mip_ttl ttl f v = ap (λ (p : Fields). p.dest) (fields-set_mip_ttl f v ttl)

pub get_mip_dest-set_mip_dest :
    (dest : ℕ) (f : MipFrame) → IsFrame f → dest < 256 → get_mip_dest (set_mip_dest dest f) ≡ dest
unfolding fields
get_mip_dest-set_mip_dest dest f v h =
    ap (λ (p : Fields). p.dest) (fields-set_mip_dest f v dest) ∙ omega arith

pub if-IsFrame : (b : Bool) (f g : MipFrame) → IsFrame f → IsFrame g → IsFrame (if b then f else g)
if-IsFrame true f g v w = v
if-IsFrame false f g v w = w

-- The last that a frame goes through when it is received.
pub recv_mip_frame-sized :
    (bytes : List ℕ) (f : MipFrame)
    → IsBytes bytes
    → IsFrame f
    → (h : MipFrame) × IsFrame h × (recv_mip_frame bytes f ≡ set_msg_size (get_msg_size h) h)
unfolding recv_mip_frame set_size
recv_mip_frame-sized bytes f b v =
    let grown = set_size frame_max_size f in
    let g = if ltb (get_size f) frame_max_size then grown else f in
    let wide =
      if-IsFrame (ltb (get_size f) frame_max_size) grown f
        (set_msg_size-IsFrame ((frame_max_size + 2 ^ 64 - eth_header_size) % 2 ^ 64) f v) v in
    (record g { m_data = write_at 0 bytes g.m_data }, write_at-IsFrame 0 bytes g b wide, refl)

pub recv_mip_frame-IsFrame :
    (bytes : List ℕ) (f : MipFrame) → IsBytes bytes → IsFrame f → IsFrame (recv_mip_frame bytes f)
recv_mip_frame-IsFrame bytes f b v =
    let (h, w, e) = recv_mip_frame-sized bytes f b v in
    subst IsFrame (sym e) (set_msg_size-IsFrame (get_msg_size h) h w)
