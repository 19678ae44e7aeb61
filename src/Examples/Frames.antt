-- ===== src/Examples/Frames.antt =====
-- The frames of src/MIPTPFrame.cpp and src/MIPFrame.cpp, the byte stream of src/CrossIPC.cpp and the
-- times of src/TimerWrapper.cpp at concrete inputs.
use miptp_cpp.Prelude.{
  ℕ, ◌+◌, ◌%◌, ◌^◌, ◌≤◌, ◌<◌, ◌≡◌, false, some, List, [], ◌∷◌, ◌++◌, length, replicate, arith,
}
use miptp_cpp.MiptpFrame.{
  MiptpFrame, set_type, set_padding, set_dest, set_source, set_sequence_number, set_msg,
  get_padding,
}
use miptp_cpp.MiptpFrame.Words.{IsFrame as IsMiptpFrame, get_padding_lem}
use miptp_cpp.MiptpFrame.Fields.{fields as miptp_fields, miptp_setters_lem}
use miptp_cpp.MiptpFrame.Message.{IsSized, message, message-set_msg}
use miptp_cpp.MipFrame.{
  MipFrame, set_mip_tra, set_mip_dest, set_mip_source, set_payload_length, set_mip_ttl,
  payload_length, set_msg_size as set_mip_msg_size, get_msg_size as get_mip_msg_size, get_size,
  set_size,
}
use miptp_cpp.MipFrame.Words.{IsFrame as IsMipFrame}
use miptp_cpp.MipFrame.Fields.{fields as mip_fields, mip_setters_lem}
use miptp_cpp.MipFrame.Size.{round_up, set_msg_size_lem, get_size-set_size}
use miptp_cpp.CrossIpc.{AnonymousSocket, name_copy}
use miptp_cpp.CrossIpc.Stream.{IsNameCopy, name_copy_lem}
use miptp_cpp.TimerWrapper.{Timespec, ms_to_timespec, timespec_to_ms, ms_to_timespec_roundtrip}

-- A frame of eight bytes: padding 2, destination 7, no message.
abbrev small_frame : MiptpFrame
small_frame = record { m_data = 0b01111010 ∷ 0 ∷ 4 ∷ 0 ∷ 5 ∷ 0 ∷ 0 ∷ 0 ∷ [] }

small_frame-IsFrame : IsMiptpFrame small_frame
small_frame-IsFrame = record { header = omega arith; bytes = ground arith }

small_frame-IsSized : IsSized small_frame
unfolding get_padding
small_frame-IsSized = record {
  padded = omega (arith, get_padding_lem small_frame);
  addressable = omega arith;
}

abbrev hello : List ℕ
hello = 104 ∷ 101 ∷ 108 ∷ 108 ∷ 111 ∷ []

message-set_msg_example : message (set_msg hello (length hello) small_frame) ≡ hello
message-set_msg_example =
    message-set_msg hello small_frame small_frame-IsFrame small_frame-IsSized (omega arith)

miptp_setters_lem_example :
    (miptp_fields (set_type 6 small_frame)
      ≡ record (miptp_fields small_frame) { packet_type = 6 % 4 })
    × (miptp_fields (set_padding 6 small_frame)
        ≡ record (miptp_fields small_frame) { padding = 6 % 4 })
    × (miptp_fields (set_dest 6 small_frame)
        ≡ record (miptp_fields small_frame) { dest = 6 % 2 ^ 14 })
    × (miptp_fields (set_source 6 small_frame)
        ≡ record (miptp_fields small_frame) { source = 6 % 2 ^ 14 })
    × (miptp_fields (set_sequence_number 6 small_frame)
        ≡ record (miptp_fields small_frame) { sequence = 6 % 2 ^ 16 })
miptp_setters_lem_example = miptp_setters_lem small_frame small_frame-IsFrame 6

-- A frame of the link layer for host 9 with a message of four bytes.
abbrev link_frame : MipFrame
link_frame = record { m_data = replicate 14 0 ++ 0b01001000 ∷ 0 ∷ 8 ∷ 0x50 ∷ replicate 4 1 }

link_frame-IsFrame : IsMipFrame link_frame
link_frame-IsFrame = record { header = omega arith; bytes = ground arith }

mip_setters_lem_example :
    (mip_fields (set_mip_tra 300 link_frame) ≡ record (mip_fields link_frame) { tra = 300 % 2 ^ 3 })
    × (mip_fields (set_mip_dest 300 link_frame)
        ≡ record (mip_fields link_frame) { dest = 300 % 2 ^ 8 })
    × (mip_fields (set_mip_source 300 link_frame)
        ≡ record (mip_fields link_frame) { source = 300 % 2 ^ 8 })
    × (mip_fields (set_payload_length 300 link_frame)
        ≡ record (mip_fields link_frame) { payload = 300 % 2 ^ 9 })
    × (mip_fields (set_mip_ttl 300 link_frame)
        ≡ record (mip_fields link_frame) { ttl = 300 % 2 ^ 4 })
mip_setters_lem_example = mip_setters_lem link_frame link_frame-IsFrame 300

set_msg_size_lem_example :
    (get_mip_msg_size (set_mip_msg_size 101 link_frame) ≡ round_up 101)
    × (get_size (set_mip_msg_size 101 link_frame) ≡ round_up 101 + 18)
    × (mip_fields (set_mip_msg_size 101 link_frame)
        ≡ record (mip_fields link_frame) { payload = payload_length 101 })
set_msg_size_lem_example =
    set_msg_size_lem 101 link_frame link_frame-IsFrame (omega arith) (omega arith)

get_size-set_size_example : 1500 + 4 ≤ get_size (set_size 1500 link_frame)
get_size-set_size_example =
    get_size-set_size 1500 link_frame link_frame-IsFrame (omega arith) (omega arith) (omega arith)

abbrev stream : AnonymousSocket
stream = record { m_closed = false; m_nonblock = false; recvs = []; sends = []; written = [] }

name_copy_lem_example : IsNameCopy hello (name_copy hello)
name_copy_lem_example = name_copy_lem hello

ms_to_timespec_roundtrip_example :
    (t : Timespec) × (ms_to_timespec 1500 ≡ some t)
    × (t.tv_nsec < 1000000000)
    × (0 < t.tv_sec + t.tv_nsec)
    × (timespec_to_ms t ≡ 1500)
ms_to_timespec_roundtrip_example = ms_to_timespec_roundtrip 1500 (omega arith)
