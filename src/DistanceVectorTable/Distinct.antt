-- ===== src/DistanceVectorTable/Distinct.antt =====
-- The representation invariant of src/DistanceVectorTable.cpp: one column for each destination, and
-- costs that fit a byte.
use miptp_cpp.Prelude.{ℕ, ◌≤◌, ◌≡◌, ◌≢◌, refl, Bool, false, none, [], ◌∷◌, arith}
use miptp_cpp.DistanceVectorTable.{
  Column, Table, inf_cost, set_via_infinity, advertised_cost, update_column, update_loop, update,
  find_to, add_local_mip, add_arp_discovery,
}
use miptp_cpp.DistanceVectorTable.Routes.{
  find_to-update_column, find_to-add_arp_discovery, find_to-set_via_infinity, find_to-add_local_mip,
  lose,
}

abbrev pub IsTable : Table → Type 0
IsTable [] = Unit
IsTable (c ∷ t) = (find_to c.to t ≡ none) × (c.cost ≤ inf_cost) × IsTable t

find_to-nil : (k : ℕ) → find_to k [] ≡ none
unfolding find_to
find_to-nil k = refl

find_to-cons :
    (k : ℕ) (c : Column) (t : Table) → find_to k (c ∷ t) ≡ none → (c.to ≢ k) × (find_to k t ≡ none)
unfolding find_to
find_to-cons k c t h = ground arith

advertised_cost-le : (cost : ℕ) → advertised_cost cost ≤ inf_cost
unfolding advertised_cost
advertised_cost-le cost = ground arith

update_column-IsTable :
    (sender to cost : ℕ) (t : Table)
    → cost ≤ inf_cost
    → IsTable t
    → IsTable (update_column sender to cost t).1
unfolding update_column
update_column-IsTable sender to cost [] h v = (find_to-nil to, h, tt)
update_column-IsTable sender to cost (c ∷ t) h v = ground (
  arith,
  find_to-update_column sender to cost c.to t,
  update_column-IsTable sender to cost t h v.2,
)

update_loop-IsTable :
    (sender : ℕ) (advert : Table) (changed : Bool) (t : Table)
    → IsTable t
    → IsTable (update_loop sender advert changed t).1
unfolding update_loop
update_loop-IsTable sender [] changed t v = v
update_loop-IsTable sender (a ∷ advert) changed t v =
    update_loop-IsTable sender advert _ _
      (update_column-IsTable sender a.to (advertised_cost a.cost) t (advertised_cost-le a.cost) v)

add_arp_discovery-IsTable : (mip : ℕ) (t : Table) → IsTable t → IsTable (add_arp_discovery mip t)
unfolding add_arp_discovery
add_arp_discovery-IsTable mip [] v = (find_to-nil mip, omega arith, tt)
add_arp_discovery-IsTable mip (c ∷ t) v =
    ground (arith, find_to-add_arp_discovery mip c.to t, add_arp_discovery-IsTable mip t v.2)

set_via_infinity-IsTable : (via : ℕ) (t : Table) → IsTable t → IsTable (set_via_infinity via t)
unfolding set_via_infinity lose
set_via_infinity-IsTable via [] v = v
set_via_infinity-IsTable via (c ∷ t) v =
    ground (arith, find_to-set_via_infinity via c.to t, set_via_infinity-IsTable via t v.2)

add_local_mip-IsTable :
    (mip : ℕ) (t : Table) → find_to mip t ≡ none → IsTable t → IsTable (add_local_mip mip t)
unfolding add_local_mip
add_local_mip-IsTable mip [] h v = (find_to-nil mip, omega arith, tt)
add_local_mip-IsTable mip (c ∷ t) h v =
    let below = find_to-cons mip c t h in
    ground (
      arith,
      below,
      find_to-add_local_mip mip c.to t below.1,
      add_local_mip-IsTable mip t below.1 v.2,
    )

-- An update, a discovery and a loss keep one column for each destination and costs of at most
-- infinity, whatever the advertisement says.
pub Table-invariant :
    (t : Table)
    → IsTable t
    → ((sender : ℕ) (advert : Table) → IsTable (update sender advert t).1)
      × ((mip : ℕ) → IsTable (add_arp_discovery mip t))
      × ((via : ℕ) → IsTable (set_via_infinity via t))
unfolding update
Table-invariant t v = (
  λ sender advert. update_loop-IsTable sender advert false t v,
  λ mip. add_arp_discovery-IsTable mip t v,
  λ via. set_via_infinity-IsTable via t v,
)
