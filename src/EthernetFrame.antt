-- ===== src/EthernetFrame.antt =====
-- src/EthernetFrame.cpp: the plain Ethernet frame, 14 bytes of header over a byte vector, and the
-- size of its message kept beside it. A MAC address is a list of six bytes.
pub mod Layout
use miptp_cpp.Prelude.{
  ℕ, ◌+◌, ◌-◌, ◌*◌, ◌/◌, ◌%◌, ◌^◌, List, [], ◌∷◌, Option, none, some, length, take, drop, replicate,
  ltb, ◌==◌, if◌then◌else◌,
}
use miptp_cpp.Bytes.{byte, resize, write_at}

pub record EthernetFrame : Type 0 where
  pub m_msg_size : ℕ
  pub m_data : List ℕ

abbrev pub frame_header_size : ℕ
frame_header_size = 14

-- `EthernetFrame()`
unfoldable pub empty_frame : EthernetFrame
empty_frame = record { m_msg_size = 0; m_data = replicate frame_header_size 0 }

-- `EthernetFrame(buf, size)`; `none` is the failed assertion.
unfoldable pub from_buffer : List ℕ → ℕ → Option EthernetFrame
from_buffer buf size =
    if ltb size frame_header_size
    then none
    else some (record { m_msg_size = size - frame_header_size; m_data = take size buf })

unfoldable pub set_dest : List ℕ → EthernetFrame → EthernetFrame
set_dest dest f = record f { m_data = write_at 0 dest f.m_data }

unfoldable pub set_source : List ℕ → EthernetFrame → EthernetFrame
set_source source f = record f { m_data = write_at 6 source f.m_data }

unfoldable pub set_protocol : ℕ → EthernetFrame → EthernetFrame
set_protocol protocol f = record f {
  m_data = write_at 12 (protocol % 256 ∷ protocol / 256 % 256 ∷ []) f.m_data;
}

-- `m_data.size() - FRAME_HEADER_SIZE` is a `std::size_t`.
unfoldable pub set_msg_size : ℕ → EthernetFrame → EthernetFrame
set_msg_size size f =
    let same = (length f.m_data + 2 ^ 64 - frame_header_size) % 2 ^ 64 == size in
    record f {
      m_msg_size = size;
      m_data = if same then f.m_data else resize (size + frame_header_size) f.m_data;
    }

-- `none` is the failed assertion.
unfoldable pub set_size : ℕ → EthernetFrame → Option EthernetFrame
unfolding set_msg_size
set_size size f =
    if ltb size frame_header_size then none else some (set_msg_size (size - frame_header_size) f)

unfoldable pub get_msg_size : EthernetFrame → ℕ
get_msg_size f = f.m_msg_size

unfoldable pub set_msg : List ℕ → ℕ → EthernetFrame → EthernetFrame
unfolding set_msg_size get_msg_size
set_msg buf size f =
    let g = if size == get_msg_size f then f else set_msg_size size f in
    if ltb 0 size
    then record g { m_data = write_at frame_header_size (take size buf) g.m_data }
    else g

unfoldable pub get_dest : EthernetFrame → List ℕ
get_dest f = take 6 f.m_data

unfoldable pub get_source : EthernetFrame → List ℕ
get_source f = take 6 (drop 6 f.m_data)

-- Two bytes are copied into an `int` that has no value yet: `upper` is what its upper half holds.
unfoldable pub get_protocol : ℕ → EthernetFrame → ℕ
get_protocol upper f = byte f.m_data 12 + 256 * byte f.m_data 13 + 65536 * upper

unfoldable pub get_msg : EthernetFrame → List ℕ
get_msg f = drop frame_header_size f.m_data

unfoldable pub get_size : EthernetFrame → ℕ
get_size f = f.m_msg_size + frame_header_size

unfoldable pub get_data : EthernetFrame → List ℕ
get_data f = f.m_data
