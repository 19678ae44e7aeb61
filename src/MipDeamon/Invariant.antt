-- ===== src/MipDeamon/Invariant.antt =====
-- The handlers of src/MIP_deamon.cpp keep the ARP table without duplicates.
use miptp_cpp.Prelude.{
  ℕ, ◌≡◌, ◌≢◌, refl, Option, none, List, [], ◌∷◌, ◌++◌, Option-cases, inl, inr, subst, sym, arith,
}
use miptp_cpp.Outcome.{after}
use miptp_cpp.RawSock.{MipRawSock}
use miptp_cpp.MipFrame.{MipFrame, get_mip_source}
use miptp_cpp.MipDeamon.{ArpPair, MipDeamon, find_pair, handle_timeout}
use miptp_cpp.MipDeamon.Handlers.{
  receive_arp_request, receive_arp_response, receive_advert, receive_transport, dispatch_frame,
  receive_raw_sock, enqueue_lookup, receive_transport_sock, receive_lookup_sock,
  receive_update_sock,
}
use miptp_cpp.MipDeamon.Arp.{
  IsArpTable, survivors-IsArpTable, mark_replied-IsArpTable, handle_timeout_lem,
}

find_pair-cons :
    (k : ℕ) (p : ArpPair) (pairs : List ArpPair)
    → find_pair k (p ∷ pairs) ≡ none
    → (p.mip ≢ k) × (find_pair k pairs ≡ none)
unfolding find_pair
find_pair-cons k p pairs h = ground arith

find_pair-append :
    (k : ℕ) (pairs : List ArpPair) (new : ArpPair)
    → new.mip ≢ k
    → find_pair k pairs ≡ none
    → find_pair k (pairs ++ new ∷ []) ≡ none
unfolding find_pair
find_pair-append k [] new h e = ground arith
find_pair-append k (p ∷ pairs) new h e = ground (arith, find_pair-append k pairs new h)

find_pair-nil : (k : ℕ) → find_pair k [] ≡ none
unfolding find_pair
find_pair-nil k = refl

append-IsArpTable :
    (pairs : List ArpPair) (new : ArpPair)
    → find_pair new.mip pairs ≡ none
    → IsArpTable pairs
    → IsArpTable (pairs ++ new ∷ [])
append-IsArpTable [] new h v = (find_pair-nil new.mip, tt)
append-IsArpTable (p ∷ pairs) new h v =
    let below = find_pair-cons new.mip p pairs h in
    (
      find_pair-append p.mip pairs new (λ e. below.0 (sym e)) v.0,
      append-IsArpTable pairs new below.1 v.1,
    )

module _ (htons : ℕ → ℕ) (sock : MipRawSock) (f : MipFrame) (d : MipDeamon)
    (v : IsArpTable d.arp_pair_vec) where
  request-IsArpTable :
      IsArpTable
        (receive_arp_request htons
          (find_pair (get_mip_source f) d.arp_pair_vec)
          sock
          f
          d).arp_pair_vec
  unfolding receive_arp_request
  request-IsArpTable = elim (Option-cases (find_pair (get_mip_source f) d.arp_pair_vec)) [
    | inl new ↦ rw (new, receive_arp_request) (append-IsArpTable d.arp_pair_vec _ new v)
    | inr (p, old) ↦
        rw (old, receive_arp_request) (mark_replied-IsArpTable (get_mip_source f) d.arp_pair_vec v)
  ]

  response-IsArpTable :
      IsArpTable
        (receive_arp_response (find_pair (get_mip_source f) d.arp_pair_vec) sock f d).arp_pair_vec
  unfolding receive_arp_response
  response-IsArpTable = elim (Option-cases (find_pair (get_mip_source f) d.arp_pair_vec)) [
    | inl new ↦ rw (new, receive_arp_response) (append-IsArpTable d.arp_pair_vec _ new v)
    | inr (p, old) ↦
        rw (old, receive_arp_response) (mark_replied-IsArpTable (get_mip_source f) d.arp_pair_vec v)
  ]

  transport_same : (receive_transport f d).arp_pair_vec ≡ d.arp_pair_vec
  unfolding receive_transport
  transport_same = ground arith

  advert_same : (after (receive_advert f d)).arp_pair_vec ≡ d.arp_pair_vec
  unfolding receive_advert
  advert_same = refl

  dispatch_frame-IsArpTable : IsArpTable (after (dispatch_frame htons sock f d)).arp_pair_vec
  unfolding dispatch_frame
  dispatch_frame-IsArpTable =
      let request = request-IsArpTable in
      let response = response-IsArpTable in
      let advert = subst IsArpTable (sym advert_same) v in
      let transport = subst IsArpTable (sym transport_same) v in
      ground (arith, request, response, advert, transport, v)

module _ (htons : ℕ → ℕ) (d : MipDeamon) (v : IsArpTable d.arp_pair_vec) where
  transport_sock_same :
      (dest size : ℕ) (message : List ℕ)
      → (receive_transport_sock htons dest size message d).arp_pair_vec ≡ d.arp_pair_vec
  unfolding receive_transport_sock enqueue_lookup
  transport_sock_same dest size message = ground arith

  lookup_sock_same :
      (answer : Option ℕ)
      → (after (receive_lookup_sock htons answer d)).arp_pair_vec ≡ d.arp_pair_vec
  unfolding receive_lookup_sock
  lookup_sock_same answer = ground arith

  update_sock_same :
      (dest size : ℕ) (ad : List ℕ)
      → (receive_update_sock htons dest size ad d).arp_pair_vec ≡ d.arp_pair_vec
  unfolding receive_update_sock
  update_sock_same dest size ad = ground arith

  -- If the ARP table has one pair for each address, it still has after a frame, a packet of the
  -- transport daemon, an answer or an advertisement of the routing daemon, or a timeout, whatever
  -- these hold.
  pub IsArpTable-invariant :
      ((sock : MipRawSock) (bytes : List ℕ)
        → IsArpTable (after (receive_raw_sock htons sock bytes d)).arp_pair_vec)
      × ((dest size : ℕ) (message : List ℕ)
          → IsArpTable (receive_transport_sock htons dest size message d).arp_pair_vec)
      × ((answer : Option ℕ) → IsArpTable (after (receive_lookup_sock htons answer d)).arp_pair_vec)
      × ((dest size : ℕ) (ad : List ℕ)
          → IsArpTable (receive_update_sock htons dest size ad d).arp_pair_vec)
      × IsArpTable (handle_timeout htons d).arp_pair_vec
  unfolding receive_raw_sock
  IsArpTable-invariant = (
    λ sock bytes. dispatch_frame-IsArpTable htons sock _ (record d { raw_frame = _ }) v,
    λ dest size message. subst IsArpTable (sym (transport_sock_same dest size message)) v,
    λ answer. subst IsArpTable (sym (lookup_sock_same answer)) v,
    λ dest size ad. subst IsArpTable (sym (update_sock_same dest size ad)) v,
    subst IsArpTable (sym (handle_timeout_lem htons d).0) (survivors-IsArpTable d.arp_pair_vec v),
  )
