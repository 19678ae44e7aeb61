-- ===== src/DistanceVectorTable/Routes.antt =====
-- The table of src/DistanceVectorTable.cpp as a map from destinations to routes.
use miptp_cpp.Prelude.{
  ℕ, ◌+◌, min, ◌≡◌, refl, Bool, false, ◌||◌, ◌&&◌, not, Option, none, some, [], ◌∷◌, ltb, ◌==◌,
  if◌then◌else◌, arith,
}
use miptp_cpp.DistanceVectorTable.{
  Column, Table, inf_cost, hop_cost, set_via_infinity, advertised_cost, update_column, update_loop,
  update, find_to, add_local_mip, add_arp_discovery,
}

-- Bellman and Ford's step: a route to `to` at `cost` through `sender` replaces none, a dearer one,
-- or another cost through the same neighbour.
unfoldable pub relax : ℕ → ℕ → ℕ → Option Column → Option Column
relax sender to cost none = some (record { to = to; via = sender; cost = cost })
relax sender to cost (some c) =
    if ltb cost c.cost || ((sender == c.via) && not (cost == c.cost))
    then some (record c { via = sender; cost = cost })
    else some c

pub find_to-update_column :
    (sender to cost k : ℕ) (t : Table)
    → find_to k (update_column sender to cost t).1
      ≡ (if k == to then relax sender to cost (find_to k t) else find_to k t)
unfolding find_to update_column relax
find_to-update_column sender to cost k [] = ground arith
find_to-update_column sender to cost k (c ∷ t) =
    ground (arith, find_to-update_column sender to cost k t)

-- What the columns of an advertisment do to the route to `k`, one after the other: the way to the
-- sender costs one more, and 255 stands for all that is as dear or dearer.
unfoldable pub relax_all : ℕ → Table → ℕ → Option Column → Option Column
relax_all sender [] k r = r
relax_all sender (a ∷ advert) k r =
    relax_all sender advert k (if k == a.to then relax sender a.to (min (a.cost + 1) 255) r else r)

advertised_cost_lem : (cost : ℕ) → advertised_cost cost ≡ min (cost + 1) 255
unfolding advertised_cost
advertised_cost_lem cost = ground arith

find_to-update_loop :
    (sender : ℕ) (advert : Table) (changed : Bool) (t : Table) (k : ℕ)
    → find_to k (update_loop sender advert changed t).1 ≡ relax_all sender advert k (find_to k t)
unfolding update_loop relax_all
find_to-update_loop sender [] changed t k = refl
find_to-update_loop sender (a ∷ advert) changed t k =
    rw
      (
        ← advertised_cost_lem a.cost,
        ← find_to-update_column sender a.to (advertised_cost a.cost) k t,
      )
      (find_to-update_loop sender advert _ _ k)

-- `update` changes the route to each destination by `relax` for each column of the advertisment with
-- that destination, in order, and by nothing else. The cost is one more than the advertised one, but
-- 255 at most.
pub find_to-update :
    (sender : ℕ) (advert t : Table) (k : ℕ)
    → find_to k (update sender advert t).1 ≡ relax_all sender advert k (find_to k t)
unfolding update
find_to-update sender advert t k = find_to-update_loop sender advert false t k

update_column_same :
    (sender to cost : ℕ) (t : Table)
    → (update_column sender to cost t).0 ≡ false
    → (update_column sender to cost t).1 ≡ t
unfolding update_column
update_column_same sender to cost [] h = cc
update_column_same sender to cost (c ∷ t) h = ground (arith, update_column_same sender to cost t)

update_loop_same :
    (sender : ℕ) (advert : Table) (changed : Bool) (t : Table)
    → (update_loop sender advert changed t).0 ≡ false
    → (changed ≡ false) × ((update_loop sender advert changed t).1 ≡ t)
unfolding update_loop
update_loop_same sender [] changed t h = (h, refl)
update_loop_same sender (a ∷ advert) changed t h = ground (
  arith,
  update_column_same sender a.to (advertised_cost a.cost) t,
  update_loop_same sender advert
      (changed || (update_column sender a.to (advertised_cost a.cost) t).0)
      (update_column sender a.to (advertised_cost a.cost) t).1 h,
)

-- Where `update` reports no change, the table is the one before, entry for entry.
pub update_unchanged :
    (sender : ℕ) (advert t : Table)
    → (update sender advert t).0 ≡ false
    → (update sender advert t).1 ≡ t
unfolding update
update_unchanged sender advert t h = (update_loop_same sender advert false t h).1

-- A discovered neighbour is reached directly with the cost of one hop, in place of the route there
-- was to it, if any; every other route stays.
pub find_to-add_arp_discovery :
    (mip k : ℕ) (t : Table)
    → find_to k (add_arp_discovery mip t)
      ≡ (if k == mip then some (record { to = mip; via = mip; cost = hop_cost }) else find_to k t)
unfolding find_to add_arp_discovery
find_to-add_arp_discovery mip k [] = ground arith
find_to-add_arp_discovery mip k (c ∷ t) = ground (arith, find_to-add_arp_discovery mip k t)

-- A route through a lost neighbour.
unfoldable pub lose : ℕ → Option Column → Option Column
lose via none = none
lose via (some c) = some (if c.via == via then record c { cost = inf_cost } else c)

-- When a neighbour is lost the routes through it, and no others, get the cost infinity; their next
-- hops stay.
pub find_to-set_via_infinity :
    (via k : ℕ) (t : Table) → find_to k (set_via_infinity via t) ≡ lose via (find_to k t)
unfolding find_to set_via_infinity lose
find_to-set_via_infinity via k [] = refl
find_to-set_via_infinity via k (c ∷ t) = ground (arith, find_to-set_via_infinity via k t)

-- A local address that the table does not have is reached at no cost; every other route stays.
pub find_to-add_local_mip :
    (mip k : ℕ) (t : Table)
    → find_to mip t ≡ none
    → find_to k (add_local_mip mip t)
      ≡ (if k == mip then some (record { to = mip; via = mip; cost = 0 }) else find_to k t)
unfolding find_to add_local_mip
find_to-add_local_mip mip k [] h = ground arith
find_to-add_local_mip mip k (c ∷ t) h = ground (arith, find_to-add_local_mip mip k t)
