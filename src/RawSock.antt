-- ===== src/RawSock.antt =====
-- src/RawSock.cpp: the link layer's sockets. What the kernel sends and receives is bytes of a frame.
use miptp_cpp.Prelude.{
  ℕ, Bool, true, false, Option, none, some, List, [], ◌∷◌, ltb, ◌==◌, if◌then◌else◌,
}
use miptp_cpp.Outcome.{Outcome, ok, throw, error}
use miptp_cpp.Bytes.{write_at}
use miptp_cpp.MipFrame.{MipFrame, frame_max_size, get_size, set_size, set_msg_size, get_msg_size}

pub record MipRawSock : Type 0 where
  pub m_fd : ℕ
  pub m_mip : ℕ
  pub m_mac : List ℕ

abbrev pub eth_p_mip : ℕ
eth_p_mip = 0x88b5

-- `recvMipFrame`, once `recv` has returned `bytes`.
unfoldable pub recv_mip_frame : List ℕ → MipFrame → MipFrame
recv_mip_frame bytes frame =
    let g = if ltb (get_size frame) frame_max_size then set_size frame_max_size frame else frame in
    let h = record g { m_data = write_at 0 bytes g.m_data } in set_msg_size (get_msg_size h) h

-- `AF_PACKET`
abbrev pub af_packet : ℕ
af_packet = 17

-- What the code reads of a `struct ifaddrs`: the name, and the family of `ifa_addr`, which may be a
-- null pointer.
pub record Ifaddr : Type 0 where
  pub ifa_name : List ℕ
  pub sa_family : Option ℕ

-- `std::any_of` over the filter; a null pointer is read through.
unfoldable pub in_filter : List ℕ → Option ℕ → Outcome Bool
in_filter [] family = ok false
in_filter (i ∷ filter) none = throw error
in_filter (i ∷ filter) (some family) =
    let rest = in_filter filter (some family) in if i == family then ok true else rest

add_name : List ℕ → Outcome Bool → Outcome (List (List ℕ)) → Outcome (List (List ℕ))
add_name name (throw e) rest = throw e
add_name name (ok false) rest = rest
add_name name (ok true) (throw e) = throw e
add_name name (ok true) (ok names) = ok (name ∷ names)

-- `getInterfaceNames`, over the list that `getifaddrs` returns.
unfoldable pub get_interface_names : List ℕ → List Ifaddr → Outcome (List (List ℕ))
unfolding in_filter add_name
get_interface_names filter [] = ok []
get_interface_names filter (it ∷ its) =
    add_name it.ifa_name (in_filter filter it.sa_family) (get_interface_names filter its)
