-- ===== src/RoutingDeamon/Backed.antt =====
-- Where the routes of src/routing_deamon.cpp lead.
use miptp_cpp.Prelude.{
  ℕ, ◌≡◌, ◌≢◌, ◌⊎◌, inl, inr, refl, Bool, true, false, ◌||◌, List, [], ◌∷◌, ◌++◌, All, ◌==◌, arith,
}
use miptp_cpp.Bytes.{resize, write_at}
use miptp_cpp.DistanceVectorTable.{
  unpack_advertisment, Column, Table, inf_cost, add_local_mip, add_arp_discovery, set_via_infinity,
  update_column, update, advertised_cost, update_loop,
}
use miptp_cpp.RoutingDeamon.{
  RoutingDeamon, is_neighbour, erase_neighbour, on_local_mip, on_arp_discovery, on_arp_lost,
  on_advertisement,
}

-- A route is local, leads through a direct neighbour, or is known to be broken.
abbrev pub IsBacked : List ℕ → Column → Type 0
IsBacked ns c =
    ((c.via ≡ c.to) × (c.cost ≡ 0)) ⊎ ((is_neighbour c.via ns ≡ true) ⊎ (c.cost ≡ inf_cost))

abbrev pub AllBacked : RoutingDeamon → Type 0
AllBacked d = All (IsBacked d.neighbour_mip_vec) d.distance_vector_table

pub is_neighbour-append :
    (k mip : ℕ) (ns : List ℕ) → is_neighbour k (ns ++ mip ∷ []) ≡ (is_neighbour k ns || (mip == k))
unfolding is_neighbour
is_neighbour-append k mip [] = ground arith
is_neighbour-append k mip (n ∷ ns) = ground (arith, is_neighbour-append k mip ns)

is_neighbour-erase :
    (k mip : ℕ) (ns : List ℕ)
    → k ≢ mip
    → is_neighbour k (erase_neighbour mip ns) ≡ is_neighbour k ns
unfolding is_neighbour erase_neighbour
is_neighbour-erase k mip [] h = refl
is_neighbour-erase k mip (n ∷ ns) h = ground (arith, is_neighbour-erase k mip ns h)

grow-IsBacked :
    (ns : List ℕ) (mip : ℕ) (t : Table) → All (IsBacked ns) t → All (IsBacked (ns ++ mip ∷ [])) t
grow-IsBacked ns mip [] h = tt
grow-IsBacked ns mip (c ∷ t) h =
    ground (arith, is_neighbour-append c.via mip ns, grow-IsBacked ns mip t h.1)

discovery-IsBacked :
    (ns : List ℕ) (mip : ℕ) (t : Table)
    → is_neighbour mip ns ≡ true
    → All (IsBacked ns) t
    → All (IsBacked ns) (add_arp_discovery mip t)
unfolding add_arp_discovery
discovery-IsBacked ns mip [] n h = (inr (inl n), tt)
discovery-IsBacked ns mip (c ∷ t) n h = ground (arith, discovery-IsBacked ns mip t n h.1)

lost-IsBacked :
    (ns : List ℕ) (mip : ℕ) (t : Table)
    → All (IsBacked ns) t
    → All (IsBacked (erase_neighbour mip ns)) (set_via_infinity mip t)
unfolding set_via_infinity
lost-IsBacked ns mip [] h = tt
lost-IsBacked ns mip (c ∷ t) h =
    ground (arith, is_neighbour-erase c.via mip ns, lost-IsBacked ns mip t h.1)

local-IsBacked :
    (ns : List ℕ) (mip : ℕ) (t : Table)
    → All (IsBacked ns) t
    → All (IsBacked ns) (add_local_mip mip t)
unfolding add_local_mip
local-IsBacked ns mip [] h = (inl (refl, refl), tt)
local-IsBacked ns mip (c ∷ t) h = (h.0, local-IsBacked ns mip t h.1)

update_column-IsBacked :
    (ns : List ℕ) (sender to cost : ℕ) (t : Table)
    → is_neighbour sender ns ≡ true
    → All (IsBacked ns) t
    → All (IsBacked ns) (update_column sender to cost t).1
unfolding update_column
update_column-IsBacked ns sender to cost [] n h = (inr (inl n), tt)
update_column-IsBacked ns sender to cost (c ∷ t) n h =
    ground (arith, update_column-IsBacked ns sender to cost t n h.1)

update_loop-IsBacked :
    (ns : List ℕ) (sender : ℕ) (advert : Table) (changed : Bool) (t : Table)
    → is_neighbour sender ns ≡ true
    → All (IsBacked ns) t
    → All (IsBacked ns) (update_loop sender advert changed t).1
unfolding update_loop
update_loop-IsBacked ns sender [] changed t n h = h
update_loop-IsBacked ns sender (a ∷ advert) changed t n h =
    update_loop-IsBacked ns sender advert _ _ n
      (update_column-IsBacked ns sender a.to (advertised_cost a.cost) t n h)

module _ (d : RoutingDeamon) (backed : AllBacked d) where
  on_local_mip-AllBacked : (mip : ℕ) → AllBacked (on_local_mip mip d)
  unfolding on_local_mip
  on_local_mip-AllBacked mip = local-IsBacked d.neighbour_mip_vec mip d.distance_vector_table backed

  on_arp_discovery-AllBacked : (mip : ℕ) → AllBacked (on_arp_discovery mip d)
  unfolding on_arp_discovery
  on_arp_discovery-AllBacked mip =
      let ns = d.neighbour_mip_vec in
      let known = is_neighbour-append mip mip ns in
      ground (
        arith,
        known,
        backed,
        discovery-IsBacked (ns ++ mip ∷ []) mip d.distance_vector_table (ground arith)
            (grow-IsBacked ns mip d.distance_vector_table backed),
      )

  on_arp_lost-AllBacked : (mip : ℕ) → AllBacked (on_arp_lost mip d)
  unfolding on_arp_lost
  on_arp_lost-AllBacked mip =
      ground (arith, backed, lost-IsBacked d.neighbour_mip_vec mip d.distance_vector_table backed)

  -- A local address, a discovered and a lost neighbour keep the routes backed: each is local, or
  -- leads through a direct neighbour, or has cost infinity.
  pub AllBacked-invariant :
      ((mip : ℕ) → AllBacked (on_local_mip mip d))
      × ((mip : ℕ) → AllBacked (on_arp_discovery mip d))
      × ((mip : ℕ) → AllBacked (on_arp_lost mip d))
  AllBacked-invariant = (on_local_mip-AllBacked, on_arp_discovery-AllBacked, on_arp_lost-AllBacked)

  -- An advertisement that comes from a direct neighbour keeps the routes backed, whatever it says.
  pub on_advertisement-AllBacked :
      (mip size : ℕ) (bytes : List ℕ)
      → is_neighbour mip d.neighbour_mip_vec ≡ true
      → AllBacked (on_advertisement mip size bytes d)
  unfolding on_advertisement update
  on_advertisement-AllBacked mip size bytes known =
      let buf = write_at 0 bytes (resize size d.recv_buf) in
      let advert = unpack_advertisment buf d.advert_table in
      ground (
        arith,
        update_loop-IsBacked d.neighbour_mip_vec mip advert false d.distance_vector_table known
            backed,
      )
