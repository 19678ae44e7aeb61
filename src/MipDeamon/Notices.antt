-- ===== src/MipDeamon/Notices.antt =====
-- What src/MIP_deamon.cpp writes to `update_sock`, and what src/routing_deamon.cpp reads there.
use miptp_cpp.Prelude.{
  ℕ, ◌+◌, ◌-◌, ◌%◌, ◌^◌, ◌<◌, ◌≤◌, ◌≡◌, refl, sym, subst, ap, ◌∙◌, inl, inr, Bool-cases, ==_iff,
  List, [], ◌∷◌, ◌++◌, append-nil, take, drop, length-take, length-drop, length, ◌==◌,
  if◌then◌else◌, All, arith,
}
use miptp_cpp.Outcome.{after}
use miptp_cpp.Bytes.{IsBytes, length-resize}
use miptp_cpp.CrossIpc.{size_bytes}
use miptp_cpp.RawSock.{recv_mip_frame}
use miptp_cpp.MipFrame.{
  MipFrame, payload_length, set_payload_length, set_msg_size, get_msg_size, get_mip_source, get_msg,
  frame_header_size,
}
use miptp_cpp.MipFrame.Words.{IsFrame, get_payload_length_lem}
use miptp_cpp.MipFrame.Fields.{set_payload_length-IsFrame}
use miptp_cpp.MipFrame.Size.{resized, word-resized, get_msg_size_of_word}
use miptp_cpp.RoutingDeamon.{advertisement}
use miptp_cpp.RoutingDeamon.Stream.{Notice, IsNotice, lost, advertised, stream}
use miptp_cpp.MipDeamon.{ArpPair, MipDeamon, handle_timeout, write_update}
use miptp_cpp.MipDeamon.Handlers.{receive_advert}
use miptp_cpp.MipDeamon.Frames.{recv_mip_frame-sized}
use miptp_cpp.MipDeamon.Arp.{lost_notices, handle_timeout_lem}

-- The vector has room for what the header says, even where the length wraps.
pub set_msg_size-room :
    (size : ℕ) (f : MipFrame)
    → IsFrame f
    → get_msg_size (set_msg_size size f) + 18 ≤ length (set_msg_size size f).m_data
unfolding set_msg_size
set_msg_size-room size f v =
    let g = set_payload_length (payload_length size) f in
    let w = set_payload_length-IsFrame f v (payload_length size) in
    let n = get_msg_size g in
    elim (Bool-cases ((length g.m_data + 2 ^ 64 - frame_header_size) % 2 ^ 64 == n)) [
      | inl fits ↦ rw fits (
          omega (
            arith,
            (==_iff ((length g.m_data + 2 ^ 64 - frame_header_size) % 2 ^ 64) n).0 fits,
            w.header,
          ))
      | inr other ↦ rw other (
          omega (
            arith,
            get_msg_size_of_word (resized n g w) g (word-resized n g w),
            length-resize (n + 18) g.m_data,
          ))
    ]

pub recv_mip_frame-room :
    (bytes : List ℕ) (f : MipFrame)
    → IsBytes bytes
    → IsFrame f
    → get_msg_size (recv_mip_frame bytes f) + 18 ≤ length (recv_mip_frame bytes f).m_data
recv_mip_frame-room bytes f b v =
    let (h, w, e) = recv_mip_frame-sized bytes f b v in
    subst (λ g. get_msg_size g + 18 ≤ length g.m_data) (sym e)
      (set_msg_size-room (get_msg_size h) h w)

get_msg_size-small : (f : MipFrame) → get_msg_size f < 2 ^ 64
unfolding get_msg_size
get_msg_size-small f = ground (arith, get_payload_length_lem f)

-- What a handler tells the routing daemon.
abbrev pub Tells : MipDeamon → MipDeamon → Type 0
Tells d e =
    (notices : List Notice) × All IsNotice notices
    × (e.update_written ≡ d.update_written ++ stream notices)

pub Tells-nothing : (d e : MipDeamon) → e.update_written ≡ d.update_written → Tells d e
Tells-nothing d e h = ([], tt, h ∙ sym (append-nil d.update_written))

lost_ones : List ArpPair → List Notice
lost_ones [] = []
lost_ones (p ∷ pairs) = let rest = lost_ones pairs in if p.reply then rest else lost p.mip ∷ rest

lost_ones-All : (pairs : List ArpPair) → All IsNotice (lost_ones pairs)
unfolding lost_ones
lost_ones-All [] = tt
lost_ones-All (p ∷ pairs) = ground (arith, lost_ones-All pairs)

lost_notices_lem : (pairs : List ArpPair) → lost_notices pairs ≡ stream (lost_ones pairs)
unfolding lost_notices lost_ones
lost_notices_lem [] = refl
lost_notices_lem (p ∷ pairs) = ground (arith, lost_notices_lem pairs)

pub handle_timeout-Tells : (htons : ℕ → ℕ) (d : MipDeamon) → Tells d (handle_timeout htons d)
handle_timeout-Tells htons d = (
  lost_ones d.arp_pair_vec,
  lost_ones-All d.arp_pair_vec,
  (handle_timeout_lem htons d).1
      ∙ ap (λ l. d.update_written ++ l) (lost_notices_lem d.arp_pair_vec),
)

-- An advertisement with a byte at least, as its tag, its sender, its size and its bytes.
advertised_lem :
    (source n : ℕ) (bytes : List ℕ)
    → n < 2 ^ 64
    → 0 < n
    → length bytes ≡ n
    → (notices : List Notice) × All IsNotice notices
      × (advertisement ∷ source ∷ (size_bytes 8 n ++ bytes) ≡ stream notices)
advertised_lem source n [] small h l = absurd (omega (arith, h, l))
advertised_lem source n (b ∷ bs) small h l = (
  advertised source b bs ∷ [],
  (omega (arith, l, small), tt),
  rw (← l) (sym (append-nil (advertisement ∷ source ∷ (size_bytes 8 (length (b ∷ bs)) ++ b ∷ bs)))),
)

pub receive_advert-Tells :
    (f : MipFrame) (d : MipDeamon)
    → get_msg_size f + 18 ≤ length f.m_data
    → 0 < get_msg_size f
    → Tells d (after (receive_advert f d))
unfolding receive_advert write_update get_msg
receive_advert-Tells f d room h =
    let n = get_msg_size f in
    let (notices, all, bytes) =
      advertised_lem (get_mip_source f) n (take n (get_msg f)) (get_msg_size-small f) h
        (omega (arith, room, length-take n (drop 18 f.m_data), length-drop 18 f.m_data)) in
    (notices, all, ap (λ l. d.update_written ++ l) bytes)
