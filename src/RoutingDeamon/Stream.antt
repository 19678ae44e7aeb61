-- ===== src/RoutingDeamon/Stream.antt =====
-- src/routing_deamon.cpp at a stream of messages on `update_sock`, as src/MIP_deamon.cpp writes them.
use miptp_cpp.Prelude.{
  ℕ, zero, suc, ◌^◌, ◌<◌, ◌≡◌, refl, ap, ◌∙◌, List, [], ◌∷◌, ◌++◌, length, take-length_append,
  drop-length_append, length-append, append-nil, arith, All,
}
use miptp_cpp.Outcome.{ok, M, continue}
use miptp_cpp.CrossIpc.{received, read, le_value, Received, size_bytes}
use miptp_cpp.CrossIpc.Stream.{le_value-size_bytes}
use miptp_cpp.RoutingDeamon.{
  RoutingDeamon, local_mip, arp_discovery, arp_lostconnection, advertisement, on_local_mip,
  on_arp_discovery, on_arp_lost, on_advertisement, receive_update_sock, add_update_queue,
}
use miptp_cpp.RoutingDeamon.Protocol.{
  reading, receive_update_sock-notice, receive_update_sock-advertisement,
}

-- What the MIP daemon tells: an address of its own, a neighbour found, a neighbour lost, and an
-- advertisement with its sender and its bytes, of which there is one at least.
pub data Notice : Type 0 where
  local_address : ℕ → Notice
  found : ℕ → Notice
  lost : ℕ → Notice
  advertised : ℕ → ℕ → List ℕ → Notice

abbrev pub IsNotice : Notice → Type 0
IsNotice (local_address mip) = Unit
IsNotice (found mip) = Unit
IsNotice (lost mip) = Unit
IsNotice (advertised mip b bs) = length (b ∷ bs) < 2 ^ 64

abbrev pub notice_bytes : Notice → List ℕ
notice_bytes (local_address mip) = local_mip ∷ mip ∷ []
notice_bytes (found mip) = arp_discovery ∷ mip ∷ []
notice_bytes (lost mip) = arp_lostconnection ∷ mip ∷ []
notice_bytes (advertised mip b bs) =
    advertisement ∷ mip ∷ (size_bytes 8 (length (b ∷ bs)) ++ b ∷ bs)

abbrev pub on_notice : Notice → RoutingDeamon → RoutingDeamon
on_notice (local_address mip) = on_local_mip mip
on_notice (found mip) = on_arp_discovery mip
on_notice (lost mip) = on_arp_lost mip
on_notice (advertised mip b bs) = on_advertisement mip (length (b ∷ bs)) (b ∷ bs)

abbrev pub on_notices : List Notice → RoutingDeamon → RoutingDeamon
on_notices [] d = d
on_notices (notice ∷ notices) d = on_notices notices (on_notice notice d)

abbrev pub stream : List Notice → List ℕ
stream [] = []
stream (notice ∷ notices) = notice_bytes notice ++ stream notices

-- What is left of a stream, if anything is.
abbrev pub piece : List ℕ → List Received
piece [] = []
piece (b ∷ bs) = received (b ∷ bs) ∷ []

-- `main`, at one event of `update_sock` after the other.
unfoldable pub handle_updates : ℕ → M RoutingDeamon (Unit {0})
handle_updates zero d = (ok tt, d)
handle_updates (suc events) d = continue (λ _. handle_updates events) (receive_update_sock d)

two_bytes_lem :
    (d : RoutingDeamon) (mip c : ℕ) (cs : List ℕ)
    → (receive_update_sock (reading (received (local_mip ∷ mip ∷ c ∷ cs) ∷ []) d)
        ≡ (ok tt, on_local_mip mip (reading (received (c ∷ cs) ∷ []) d)))
      × (receive_update_sock (reading (received (arp_discovery ∷ mip ∷ c ∷ cs) ∷ []) d)
          ≡ (ok tt, on_arp_discovery mip (reading (received (c ∷ cs) ∷ []) d)))
      × (receive_update_sock (reading (received (arp_lostconnection ∷ mip ∷ c ∷ cs) ∷ []) d)
          ≡ (ok tt, on_arp_lost mip (reading (received (c ∷ cs) ∷ []) d)))
unfolding receive_update_sock read le_value
two_bytes_lem d mip c cs = (ground arith, ground arith, ground arith)

advertisement_lem :
    (d : RoutingDeamon) (mip b : ℕ) (bs : List ℕ) (c : ℕ) (cs : List ℕ)
    → length (b ∷ bs) < 2 ^ 64
    → receive_update_sock (
        reading
          (received (advertisement ∷ mip ∷ (size_bytes 8 (length (b ∷ bs)) ++ b ∷ bs ++ c ∷ cs))
            ∷ [])
          d)
      ≡ (
        ok tt,
        on_advertisement mip (length (b ∷ bs)) (b ∷ bs) (reading (received (c ∷ cs) ∷ []) d),
      )
unfolding receive_update_sock read le_value size_bytes
advertisement_lem d mip b bs c cs h = ground (
  arith,
  le_value-size_bytes 8 (length (b ∷ bs)) h,
  take-length_append (b ∷ bs) (c ∷ cs),
  drop-length_append (b ∷ bs) (c ∷ cs),
  length-append bs (c ∷ cs),
)

on_notice-reading :
    (notice : Notice) (rs : List Received) (d : RoutingDeamon)
    → on_notice notice (reading rs d) ≡ reading rs (on_notice notice d)
unfolding on_local_mip on_arp_discovery on_arp_lost on_advertisement add_update_queue
on_notice-reading (local_address mip) rs d = refl
on_notice-reading (found mip) rs d = ground arith
on_notice-reading (lost mip) rs d = ground arith
on_notice-reading (advertised mip b bs) rs d = ground arith

-- The front message is handled, and the rest of the stream stays.
notice_lem :
    (notice : Notice) (later : List ℕ) (d : RoutingDeamon)
    → IsNotice notice
    → receive_update_sock (reading (piece (notice_bytes notice ++ later)) d)
      ≡ (ok tt, on_notice notice (reading (piece later) d))
notice_lem (local_address mip) [] d h = (receive_update_sock-notice d mip []).0
notice_lem (local_address mip) (c ∷ cs) d h = (two_bytes_lem d mip c cs).0
notice_lem (found mip) [] d h = (receive_update_sock-notice d mip []).1
notice_lem (found mip) (c ∷ cs) d h = (two_bytes_lem d mip c cs).1
notice_lem (lost mip) [] d h = (receive_update_sock-notice d mip []).2
notice_lem (lost mip) (c ∷ cs) d h = (two_bytes_lem d mip c cs).2
notice_lem (advertised mip b bs) [] d h =
    rw (append-nil (size_bytes 8 (length (b ∷ bs)) ++ b ∷ bs))
      (receive_update_sock-advertisement d mip b bs [] h)
notice_lem (advertised mip b bs) (c ∷ cs) d h = advertisement_lem d mip b bs c cs h

-- A stream of messages that has come whole, of whatever notices, is read as these notices and
-- handled in their order, as many events later as there are of them, and nothing of it is left, if
-- each advertisement has a byte at least and its size fits into 64 bits.
pub handle_updates-stream :
    (notices : List Notice) (d : RoutingDeamon)
    → All IsNotice notices
    → handle_updates (length notices) (reading (piece (stream notices)) d)
      ≡ (ok tt, reading [] (on_notices notices d))
unfolding handle_updates
handle_updates-stream [] d h = refl
handle_updates-stream (notice ∷ notices) d h =
    ap (continue (λ _. handle_updates (length notices))) (notice_lem notice (stream notices) d h.0)
    ∙ ap (handle_updates (length notices)) (on_notice-reading notice (piece (stream notices)) d)
    ∙ handle_updates-stream notices (on_notice notice d) h.1
