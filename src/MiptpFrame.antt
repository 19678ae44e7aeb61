-- ===== src/MiptpFrame.antt =====
-- src/MIPTPFrame.cpp and include/MIPTPFrame.hpp: the transport frame over its byte vector.
-- The packet header is a 32-bit word (type 2, padding 2, dest 14, source 14 bits) and a 16-bit
-- sequence number.
pub mod Words
pub mod Fields
pub mod Message
use miptp_cpp.Prelude.{
  ℕ, ◌+◌, ◌-◌, ◌*◌, ◌/◌, ◌%◌, ◌^◌, List, [], ◌∷◌, Option, none, some, length, take, drop, replicate,
  ltb, ◌==◌, if◌then◌else◌,
}
use miptp_cpp.Bytes.{byte, resize, write_at}
use miptp_cpp.Header.{set_field, get_field}

pub record MiptpFrame : Type 0 where
  pub m_data : List ℕ

abbrev pub frame_header_size : ℕ
frame_header_size = 6

abbrev pub frame_max_size : ℕ
frame_max_size = 1496

abbrev pub frame_max_msg_size : ℕ
frame_max_msg_size = frame_max_size - frame_header_size

-- `enum Packet_Type`
abbrev pub request : ℕ
request = 0

abbrev pub reply : ℕ
reply = 1

-- `data` of the source.
abbrev pub data_packet : ℕ
data_packet = 2

abbrev pub sack : ℕ
sack = 3

unfoldable pub set_type : ℕ → MiptpFrame → MiptpFrame
unfolding set_field
set_type type f = record f { m_data = set_field 0 0b11 0 type f.m_data }

unfoldable pub set_padding : ℕ → MiptpFrame → MiptpFrame
unfolding set_field
set_padding padding f = record f { m_data = set_field 0 0b11 2 padding f.m_data }

unfoldable pub set_dest : ℕ → MiptpFrame → MiptpFrame
unfolding set_field
set_dest dest f = record f { m_data = set_field 0 0b11111111111111 4 dest f.m_data }

unfoldable pub set_source : ℕ → MiptpFrame → MiptpFrame
unfolding set_field
set_source source f = record f { m_data = set_field 0 0b11111111111111 18 source f.m_data }

-- The two low bytes of the `int` are copied.
unfoldable pub set_sequence_number : ℕ → MiptpFrame → MiptpFrame
unfolding write_at
set_sequence_number seq f = record f {
  m_data = write_at 4 (seq % 256 ∷ seq / 256 % 256 ∷ []) f.m_data;
}

unfoldable pub calc_padding : ℕ → ℕ
calc_padding size = let d = size % 4 in if d == 0 then d else 4 - d

-- The 4 stands for the MIP header that goes before the frame.
unfoldable pub set_msg_size : ℕ → MiptpFrame → MiptpFrame
unfolding set_padding calc_padding resize
set_msg_size size f =
    let padding = calc_padding (size + frame_header_size + 4) in
    record (set_padding padding f) {
      m_data = resize (size + frame_header_size + padding) (set_padding padding f).m_data;
    }

unfoldable pub set_size : ℕ → MiptpFrame → MiptpFrame
unfolding resize
set_size size f = record f { m_data = resize size f.m_data }

unfoldable pub get_type : MiptpFrame → ℕ
unfolding get_field
get_type f = get_field 0 0b11 0 f.m_data

unfoldable pub get_padding : MiptpFrame → ℕ
unfolding get_field
get_padding f = get_field 0 0b11 2 f.m_data

unfoldable pub get_dest : MiptpFrame → ℕ
unfolding get_field
get_dest f = get_field 0 0b11111111111111 4 f.m_data

unfoldable pub get_source : MiptpFrame → ℕ
unfolding get_field
get_source f = get_field 0 0b11111111111111 18 f.m_data

-- `int seq;` is not initialised and only its two low bytes are copied: `upper` is what its two high
-- bytes happen to hold.
unfoldable pub get_sequence_number : ℕ → MiptpFrame → ℕ
get_sequence_number upper f = byte f.m_data 4 + 256 * byte f.m_data 5 + 65536 * upper

-- `std::size_t` subtraction wraps.
unfoldable pub get_msg_size : MiptpFrame → ℕ
unfolding get_padding
get_msg_size f = (length f.m_data + 2 ^ 64 - frame_header_size - get_padding f) % 2 ^ 64

-- What the pointer of `getMsg` points to.
unfoldable pub get_msg : MiptpFrame → List ℕ
get_msg f = drop frame_header_size f.m_data

unfoldable pub get_size : MiptpFrame → ℕ
get_size f = length f.m_data

unfoldable pub get_data : MiptpFrame → List ℕ
get_data f = f.m_data

unfoldable pub set_msg : List ℕ → ℕ → MiptpFrame → MiptpFrame
unfolding get_msg_size set_msg_size write_at
set_msg buf size f =
    let g = if size == get_msg_size f then f else set_msg_size size f in
    record g { m_data = write_at frame_header_size (take size buf) g.m_data }

-- `MIPTPFrame()`
unfoldable pub empty_frame : MiptpFrame
unfolding set_msg_size
empty_frame = set_msg_size 0 (record { m_data = replicate frame_header_size 0 })

-- `MIPTPFrame(buf, size)`; `none` is the failed assertion.
unfoldable pub from_buffer : List ℕ → ℕ → Option MiptpFrame
from_buffer buf size =
    if ltb size frame_header_size then none else some (record { m_data = take size buf })
