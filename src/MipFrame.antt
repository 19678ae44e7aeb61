-- ===== src/MipFrame.antt =====
-- src/MIPFrame.cpp and include/MIPFrame.hpp: the link frame over its byte vector, 14 bytes of
-- Ethernet header and a 32-bit MIP header (TRA 3, dest 8, source 8, payload length 9, TTL 4 bits).
pub mod Words
pub mod Fields
pub mod Size
use miptp_cpp.Prelude.{
  ℕ, ◌+◌, ◌-◌, ◌*◌, ◌/◌, ◌%◌, ◌^◌, List, [], ◌∷◌, Option, none, some, length, take, drop, replicate,
  ltb, ◌==◌, if◌then◌else◌,
}
use miptp_cpp.Bytes.{byte, resize, write_at}
use miptp_cpp.Header.{set_field, get_field}

pub record MipFrame : Type 0 where
  pub m_data : List ℕ

abbrev pub frame_header_size : ℕ
frame_header_size = 18

abbrev pub eth_header_size : ℕ
eth_header_size = 14

abbrev pub mip_header_size : ℕ
mip_header_size = 4

abbrev pub frame_max_size : ℕ
frame_max_size = 1514

abbrev pub msg_max_size : ℕ
msg_max_size = frame_max_size - frame_header_size

-- `enum TRA`
abbrev pub tra_zero : ℕ
tra_zero = 0b000

abbrev pub tra_t : ℕ
tra_t = 0b001

abbrev pub tra_r : ℕ
tra_r = 0b010

abbrev pub tra_a : ℕ
tra_a = 0b100

-- `MIPFrame()`
unfoldable pub empty_frame : MipFrame
empty_frame = record { m_data = replicate frame_header_size 0 }

-- `MIPFrame(buf, size)`; `none` is the failed assertion.
unfoldable pub from_buffer : List ℕ → ℕ → Option MipFrame
from_buffer buf size =
    if ltb size frame_header_size then none else some (record { m_data = take size buf })

-- A MAC address is a list of six bytes.
unfoldable pub set_eth_dest : List ℕ → MipFrame → MipFrame
set_eth_dest dest f = record f { m_data = write_at 0 dest f.m_data }

unfoldable pub set_eth_source : List ℕ → MipFrame → MipFrame
set_eth_source source f = record f { m_data = write_at 6 source f.m_data }

unfoldable pub set_eth_protocol : ℕ → MipFrame → MipFrame
set_eth_protocol protocol f = record f {
  m_data = write_at 12 (protocol % 256 ∷ protocol / 256 % 256 ∷ []) f.m_data;
}

unfoldable pub set_mip_tra : ℕ → MipFrame → MipFrame
unfolding set_field
set_mip_tra tra f = record f { m_data = set_field eth_header_size 0b111 0 tra f.m_data }

unfoldable pub set_mip_dest : ℕ → MipFrame → MipFrame
unfolding set_field
set_mip_dest dest f = record f { m_data = set_field eth_header_size 0b11111111 3 dest f.m_data }

unfoldable pub set_mip_source : ℕ → MipFrame → MipFrame
unfolding set_field
set_mip_source source f = record f {
  m_data = set_field eth_header_size 0b11111111 11 source f.m_data;
}

unfoldable pub set_mip_ttl : ℕ → MipFrame → MipFrame
unfolding set_field
set_mip_ttl ttl f = record f { m_data = set_field eth_header_size 0b1111 28 ttl f.m_data }

-- The payload length in 32-bit words, the MIP header included; 0 for a frame with no message.
unfoldable pub payload_length : ℕ → ℕ
payload_length size =
    let l = size + mip_header_size in
    let d = l % 4 in if ltb 0 size then (if d == 0 then l / 4 else (l + (4 - d)) / 4) else 0

unfoldable pub set_payload_length : ℕ → MipFrame → MipFrame
unfolding set_field
set_payload_length words f = record f {
  m_data = set_field eth_header_size 0b111111111 19 words f.m_data;
}

unfoldable pub get_payload_length : MipFrame → ℕ
unfolding get_field
get_payload_length f = get_field eth_header_size 0b111111111 19 f.m_data

unfoldable pub get_msg_size : MipFrame → ℕ
unfolding get_payload_length
get_msg_size f = let n = get_payload_length f in if ltb 0 n then n * 4 - mip_header_size else 0

-- `m_data.size() - FRAME_HEADER_SIZE` is a `std::size_t`.
unfoldable pub set_msg_size : ℕ → MipFrame → MipFrame
unfolding set_payload_length payload_length get_msg_size resize
set_msg_size size f =
    let g = set_payload_length (payload_length size) f in
    let current_msg_size = get_msg_size g in
    if (length g.m_data + 2 ^ 64 - frame_header_size) % 2 ^ 64 == current_msg_size
    then g
    else record g { m_data = resize (current_msg_size + frame_header_size) g.m_data }

unfoldable pub set_msg : List ℕ → ℕ → MipFrame → MipFrame
unfolding set_msg_size get_msg_size write_at
set_msg buf size f =
    let g = if size == get_msg_size f then f else set_msg_size size f in
    if ltb 0 size
    then record g { m_data = write_at frame_header_size (take size buf) g.m_data }
    else g

unfoldable pub set_size : ℕ → MipFrame → MipFrame
unfolding set_msg_size
set_size size = set_msg_size ((size + 2 ^ 64 - eth_header_size) % 2 ^ 64)

unfoldable pub get_eth_dest : MipFrame → List ℕ
get_eth_dest f = take 6 f.m_data

unfoldable pub get_eth_source : MipFrame → List ℕ
get_eth_source f = take 6 (drop 6 f.m_data)

unfoldable pub get_mip_tra : MipFrame → ℕ
unfolding get_field
get_mip_tra f = get_field eth_header_size 0b111 0 f.m_data

unfoldable pub get_mip_dest : MipFrame → ℕ
unfolding get_field
get_mip_dest f = get_field eth_header_size 0b11111111 3 f.m_data

unfoldable pub get_mip_source : MipFrame → ℕ
unfolding get_field
get_mip_source f = get_field eth_header_size 0b11111111 11 f.m_data

unfoldable pub get_mip_ttl : MipFrame → ℕ
unfolding get_field
get_mip_ttl f = get_field eth_header_size 0b1111 28 f.m_data

unfoldable pub get_msg : MipFrame → List ℕ
get_msg f = drop frame_header_size f.m_data

unfoldable pub get_size : MipFrame → ℕ
get_size f = length f.m_data

unfoldable pub get_data : MipFrame → List ℕ
get_data f = f.m_data
