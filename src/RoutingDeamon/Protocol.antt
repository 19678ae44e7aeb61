-- ===== src/RoutingDeamon/Protocol.antt =====
-- What src/routing_deamon.cpp makes of the bytes that src/MIP_deamon.cpp writes to `update_sock`.
use miptp_cpp.Prelude.{ℕ, ◌^◌, ◌<◌, ◌≡◌, List, [], ◌∷◌, ◌++◌, length, take-length_self, arith}
use miptp_cpp.Outcome.{ok}
use miptp_cpp.CrossIpc.{received, read, le_value, Received, size_bytes}
use miptp_cpp.CrossIpc.Stream.{le_value-size_bytes}
use miptp_cpp.RoutingDeamon.{
  RoutingDeamon, local_mip, arp_discovery, arp_lostconnection, advertisement, on_local_mip,
  on_arp_discovery, on_arp_lost, on_advertisement, receive_update_sock,
}

-- The daemon with these reads to come.
abbrev pub reading : List Received → RoutingDeamon → RoutingDeamon
reading rs d = record d { update_sock = record (d.update_sock) { recvs = rs } }

-- A message of two bytes that is there to be read runs the handler that the first byte names with
-- the second byte: a local address, a discovered neighbour, a lost one; the next message stays.
pub receive_update_sock-notice :
    (d : RoutingDeamon) (mip : ℕ) (rest : List Received)
    → (receive_update_sock (reading (received (local_mip ∷ mip ∷ []) ∷ rest) d)
        ≡ (ok tt, on_local_mip mip (reading rest d)))
      × (receive_update_sock (reading (received (arp_discovery ∷ mip ∷ []) ∷ rest) d)
          ≡ (ok tt, on_arp_discovery mip (reading rest d)))
      × (receive_update_sock (reading (received (arp_lostconnection ∷ mip ∷ []) ∷ rest) d)
          ≡ (ok tt, on_arp_lost mip (reading rest d)))
unfolding receive_update_sock read le_value
receive_update_sock-notice d mip rest = (ground arith, ground arith, ground arith)

-- An advertisement that is there to be read as its tag, the sender, the size as eight bytes and as
-- many bytes, at least one, runs its handler with just these; the next message stays.
pub receive_update_sock-advertisement :
    (d : RoutingDeamon) (mip b : ℕ) (bs : List ℕ) (rest : List Received)
    → length (b ∷ bs) < 2 ^ 64
    → receive_update_sock (
        reading
          (received (advertisement ∷ mip ∷ (size_bytes 8 (length (b ∷ bs)) ++ b ∷ bs)) ∷ rest)
          d)
      ≡ (ok tt, on_advertisement mip (length (b ∷ bs)) (b ∷ bs) (reading rest d))
unfolding receive_update_sock read le_value size_bytes
receive_update_sock-advertisement d mip b bs rest h =
    ground (arith, le_value-size_bytes 8 (length (b ∷ bs)) h, take-length_self (b ∷ bs))
