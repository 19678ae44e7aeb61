-- ===== src/MipDeamon/Arp.antt =====
-- The ARP table of src/MIP_deamon.cpp.
use miptp_cpp.Prelude.{
  ℕ, ◌≡◌, refl, ap, ◌∙◌, false, none, List, [], ◌∷◌, ◌++◌, append-nil, append_assoc, if◌then◌else◌,
  arith,
}
use miptp_cpp.RawSock.{MipRawSock}
use miptp_cpp.RoutingDeamon.{arp_lostconnection}
use miptp_cpp.MipDeamon.{
  ArpPair, MipDeamon, find_pair, send_arp_lost_connection, expire_pairs, handle_timeout,
  broadcast_all, send_broadcast_frame,
}
use miptp_cpp.MipDeamon.Handlers.{mark_replied}

-- "(can't have duplicates)": one pair for each address.
abbrev pub IsArpTable : List ArpPair → Type 0
IsArpTable [] = Unit
IsArpTable (p ∷ pairs) = (find_pair p.mip pairs ≡ none) × IsArpTable pairs

-- What the loop of a timeout keeps, and whom it reports lost.
unfoldable pub survivors : List ArpPair → List ArpPair
survivors [] = []
survivors (p ∷ pairs) =
    let rest = survivors pairs in if p.reply then record p { reply = false } ∷ rest else rest

unfoldable pub lost_notices : List ArpPair → List ℕ
lost_notices [] = []
lost_notices (p ∷ pairs) =
    let rest = lost_notices pairs in if p.reply then rest else arp_lostconnection ∷ p.mip ∷ rest

expire_pairs_lem :
    (pairs : List ArpPair) (d : MipDeamon)
    → expire_pairs pairs d
      ≡ (survivors pairs, record d { update_written = d.update_written ++ lost_notices pairs })
unfolding expire_pairs survivors lost_notices
expire_pairs_lem [] d = ground (arith, append-nil d.update_written)
expire_pairs_lem (p ∷ pairs) d = ground (
  arith,
  expire_pairs_lem pairs d,
  expire_pairs_lem pairs (send_arp_lost_connection p.mip d),
  append_assoc d.update_written (arp_lostconnection ∷ p.mip ∷ []) (lost_notices pairs),
)

pub broadcast_all_keeps :
    (htons : ℕ → ℕ) (socks : List MipRawSock) (d : MipDeamon)
    → ((broadcast_all htons socks d).arp_pair_vec ≡ d.arp_pair_vec)
      × ((broadcast_all htons socks d).update_written ≡ d.update_written)
      × ((broadcast_all htons socks d).raw_sock_vec ≡ d.raw_sock_vec)
unfolding broadcast_all send_broadcast_frame
broadcast_all_keeps htons [] d = (refl, refl, refl)
broadcast_all_keeps htons (s ∷ socks) d =
    broadcast_all_keeps htons socks (send_broadcast_frame htons s d)

-- At a timeout exactly the pairs that have replied stay, marked as not yet heard again, and the
-- routing daemon is told of each of the others, in order.
pub handle_timeout_lem :
    (htons : ℕ → ℕ) (d : MipDeamon)
    → ((handle_timeout htons d).arp_pair_vec ≡ survivors d.arp_pair_vec)
      × ((handle_timeout htons d).update_written ≡ d.update_written ++ lost_notices d.arp_pair_vec)
unfolding handle_timeout
handle_timeout_lem htons d = rw (expire_pairs_lem d.arp_pair_vec d) (
    let kept = broadcast_all_keeps htons d.raw_sock_vec (record d {
      update_written = d.update_written ++ lost_notices d.arp_pair_vec;
      arp_pair_vec = survivors d.arp_pair_vec;
    }) in
    (kept.0, kept.1))

survivors-survivors : (pairs : List ArpPair) → survivors (survivors pairs) ≡ []
unfolding survivors
survivors-survivors [] = refl
survivors-survivors (p ∷ pairs) = ground (arith, survivors-survivors pairs)

-- Two timeouts with nothing heard between them leave no neighbour in the ARP table.
pub silent_neighbours_expire :
    (htons htons' : ℕ → ℕ) (d : MipDeamon)
    → (handle_timeout htons' (handle_timeout htons d)).arp_pair_vec ≡ []
silent_neighbours_expire htons htons' d =
    (handle_timeout_lem htons' (handle_timeout htons d)).0
    ∙ ap survivors (handle_timeout_lem htons d).0
    ∙ survivors-survivors d.arp_pair_vec

pub find_pair-survivors :
    (k : ℕ) (pairs : List ArpPair) → find_pair k pairs ≡ none → find_pair k (survivors pairs) ≡ none
unfolding find_pair survivors
find_pair-survivors k [] h = refl
find_pair-survivors k (p ∷ pairs) h = ground (arith, find_pair-survivors k pairs)

pub survivors-IsArpTable : (pairs : List ArpPair) → IsArpTable pairs → IsArpTable (survivors pairs)
unfolding survivors
survivors-IsArpTable [] v = v
survivors-IsArpTable (p ∷ pairs) v =
    ground (arith, find_pair-survivors p.mip pairs v.0, survivors-IsArpTable pairs v.1)

find_pair-mark_replied :
    (k mip : ℕ) (pairs : List ArpPair)
    → find_pair k pairs ≡ none
    → find_pair k (mark_replied mip pairs) ≡ none
unfolding find_pair mark_replied
find_pair-mark_replied k mip [] h = refl
find_pair-mark_replied k mip (p ∷ pairs) h = ground (arith, find_pair-mark_replied k mip pairs)

pub mark_replied-IsArpTable :
    (mip : ℕ) (pairs : List ArpPair) → IsArpTable pairs → IsArpTable (mark_replied mip pairs)
unfolding mark_replied
mark_replied-IsArpTable mip [] v = v
mark_replied-IsArpTable mip (p ∷ pairs) v =
    ground
      (arith, find_pair-mark_replied p.mip mip pairs v.0, mark_replied-IsArpTable mip pairs v.1)
