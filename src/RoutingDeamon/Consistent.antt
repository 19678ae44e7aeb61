-- ===== src/RoutingDeamon/Consistent.antt =====
-- The neighbours of src/routing_deamon.cpp, and its table's routes to them.
use miptp_cpp.Prelude.{
  ℕ, ◌+◌, min, ◌≡◌, refl, sym, subst, inl, inr, Bool, true, false, Bool-cases, ==_iff, ◌||◌, ◌&&◌,
  not, ltb, ◌==◌, if◌then◌else◌, Option, none, some, List, [], ◌∷◌, ◌++◌, All, arith,
}
use miptp_cpp.DistanceVectorTable.{
  Column, Table, hop_cost, find_to, add_local_mip, add_arp_discovery, set_via_infinity, update,
}
use miptp_cpp.DistanceVectorTable.Routes.{
  relax, relax_all, lose, find_to-update, find_to-add_arp_discovery, find_to-set_via_infinity,
}
use miptp_cpp.RoutingDeamon.{RoutingDeamon, is_neighbour, erase_neighbour}
use miptp_cpp.RoutingDeamon.Backed.{is_neighbour-append}

abbrev pub IsSome : Option Column → Type 0
IsSome none = ⊥
IsSome (some c) = Unit

abbrev IsDistinct : List ℕ → Type 0
IsDistinct [] = Unit
IsDistinct (n ∷ ns) = (is_neighbour n ns ≡ false) × IsDistinct ns

-- No neighbour is listed twice, and the table has a route to each.
abbrev pub IsConsistent : RoutingDeamon → Type 0
IsConsistent d =
    IsDistinct d.neighbour_mip_vec
    × All (λ n. IsSome (find_to n d.distance_vector_table)) d.neighbour_mip_vec

-- A table with a route to all that another has one to.
abbrev Covers : Table → Table → Type 0
Covers t u = (k : ℕ) → IsSome (find_to k t) → IsSome (find_to k u)

pub Covers-All :
    (t u : Table) (ns : List ℕ)
    → Covers t u
    → All (λ n. IsSome (find_to n t)) ns
    → All (λ n. IsSome (find_to n u)) ns
Covers-All t u [] f v = tt
Covers-All t u (n ∷ ns) f v = (f n v.0, Covers-All t u ns f v.1)

if-IsSome : (b : Bool) (r s : Option Column) → IsSome r → IsSome s → IsSome (if b then r else s)
if-IsSome true r s v w = v
if-IsSome false r s v w = w

relax-IsSome : (sender to cost : ℕ) (r : Option Column) → IsSome r → IsSome (relax sender to cost r)
unfolding relax
relax-IsSome sender to cost none v = tt
relax-IsSome sender to cost (some c) v =
    if-IsSome (ltb cost c.cost || ((sender == c.via) && not (cost == c.cost)))
      (some (record c { via = sender; cost = cost })) (some c) tt tt

relax_all-IsSome :
    (sender : ℕ) (advert : Table) (k : ℕ) (r : Option Column)
    → IsSome r
    → IsSome (relax_all sender advert k r)
unfolding relax_all
relax_all-IsSome sender [] k r v = v
relax_all-IsSome sender (a ∷ advert) k r v = relax_all-IsSome sender advert k _ (
    if-IsSome (k == a.to) (relax sender a.to (min (a.cost + 1) 255) r) r
      (relax-IsSome sender a.to (min (a.cost + 1) 255) r v) v)

pub update-Covers : (sender : ℕ) (advert t : Table) → Covers t (update sender advert t).1
update-Covers sender advert t k v =
    subst IsSome (sym (find_to-update sender advert t k))
      (relax_all-IsSome sender advert k (find_to k t) v)

pub add_arp_discovery-Covers : (mip : ℕ) (t : Table) → Covers t (add_arp_discovery mip t)
add_arp_discovery-Covers mip t k v = subst IsSome (sym (find_to-add_arp_discovery mip k t)) (
    if-IsSome (k == mip) (some (record { to = mip; via = mip; cost = hop_cost })) (find_to k t) tt
      v)

lose-IsSome : (via : ℕ) (r : Option Column) → IsSome r → IsSome (lose via r)
unfolding lose
lose-IsSome via none v = v
lose-IsSome via (some c) v = tt

pub set_via_infinity-Covers : (via : ℕ) (t : Table) → Covers t (set_via_infinity via t)
set_via_infinity-Covers via t k v =
    subst IsSome (sym (find_to-set_via_infinity via k t)) (lose-IsSome via (find_to k t) v)

later-IsSome :
    (b : Bool) (c : Column) (r s : Option Column)
    → (IsSome r → IsSome s)
    → IsSome (if b then some c else r)
    → IsSome (if b then some c else s)
later-IsSome true c r s f v = tt
later-IsSome false c r s f v = f v

find_to-nil : (k : ℕ) → IsSome (find_to k []) → ⊥
unfolding find_to
find_to-nil k v = v

find_to-cons :
    (k : ℕ) (c : Column) (t : Table)
    → find_to k (c ∷ t) ≡ (if c.to == k then some c else find_to k t)
unfolding find_to
find_to-cons k c t = ground arith

pub add_local_mip-Covers : (mip : ℕ) (t : Table) → Covers t (add_local_mip mip t)
unfolding add_local_mip
add_local_mip-Covers mip [] k v = absurd (find_to-nil k v)
add_local_mip-Covers mip (c ∷ t) k v =
    let u = add_local_mip mip t in
    subst IsSome (sym (find_to-cons k c u)) (
      later-IsSome (c.to == k) c (find_to k t) (find_to k u) (add_local_mip-Covers mip t k)
        (subst IsSome (find_to-cons k c t) v))

pub IsDistinct-last :
    (ns : List ℕ) (mip : ℕ)
    → is_neighbour mip ns ≡ false
    → IsDistinct ns
    → IsDistinct (ns ++ mip ∷ [])
unfolding is_neighbour
IsDistinct-last [] mip h v = (refl, tt)
IsDistinct-last (n ∷ ns) mip h v =
    ground (arith, is_neighbour-append n mip ns, IsDistinct-last ns mip)

pub erase_neighbour-All :
    (P : ℕ → Type 0) (mip : ℕ) (ns : List ℕ) → All P ns → All P (erase_neighbour mip ns)
unfolding erase_neighbour
erase_neighbour-All P mip [] v = v
erase_neighbour-All P mip (n ∷ ns) v = elim (Bool-cases (n == mip)) [
  | inl hit ↦ rw hit v.1
  | inr miss ↦ rw miss (v.0, erase_neighbour-All P mip ns v.1)
]

is_neighbour-erased :
    (k mip : ℕ) (ns : List ℕ)
    → is_neighbour k ns ≡ false
    → is_neighbour k (erase_neighbour mip ns) ≡ false
unfolding is_neighbour erase_neighbour
is_neighbour-erased k mip [] h = refl
is_neighbour-erased k mip (n ∷ ns) h = ground (arith, is_neighbour-erased k mip ns)

pub erase_neighbour-IsDistinct :
    (mip : ℕ) (ns : List ℕ) → IsDistinct ns → IsDistinct (erase_neighbour mip ns)
unfolding erase_neighbour
erase_neighbour-IsDistinct mip [] v = tt
erase_neighbour-IsDistinct mip (n ∷ ns) v = elim (Bool-cases (n == mip)) [
  | inl hit ↦ rw hit v.1
  | inr miss ↦ rw miss (is_neighbour-erased n mip ns v.0, erase_neighbour-IsDistinct mip ns v.1)
]

pub discovered-IsSome : (mip : ℕ) (t : Table) → IsSome (find_to mip (add_arp_discovery mip t))
discovered-IsSome mip t = subst IsSome (sym (find_to-add_arp_discovery mip mip t)) (
    subst
      (λ b.
        IsSome
          (if b then some (record { to = mip; via = mip; cost = hop_cost }) else find_to mip t))
      (sym ((==_iff mip mip).1 refl)) tt)
