-- ===== src/DistanceVectorTable.antt =====
-- src/DistanceVectorTable.cpp and its header: the routing table. Each public method holds the mutex
-- from its first line to its last, so it is one step; addresses and costs are bytes.
pub mod Routes
pub mod Distinct
pub mod Advertisment
use miptp_cpp.Prelude.{
  ℕ, zero, suc, ◌+◌, ◌*◌, ◌/◌, ◌%◌, ◌^◌, Bool, true, false, ◌||◌, ◌&&◌, not, Option, none, some,
  List, [], ◌∷◌, ◌++◌, map, length, find_if, ltb, ◌==◌, if◌then◌else◌,
}
use miptp_cpp.Bytes.{byte}

pub record Column : Type 0 where
  pub to : ℕ
  pub via : ℕ
  pub cost : ℕ

-- `m_data`
abbrev pub Table : Type 0
Table = List Column

abbrev pub inf_cost : ℕ
inf_cost = 0xff

abbrev pub hop_cost : ℕ
hop_cost = 1

unfoldable pub add : ℕ → ℕ → ℕ → Table → Table
add to via cost t = t ++ record { to = to; via = via; cost = cost } ∷ []

set_infinity : ℕ → Column → Column
set_infinity via c = if c.via == via then record c { cost = inf_cost } else c

unfoldable pub set_via_infinity : ℕ → Table → Table
unfolding set_infinity
set_via_infinity via t = map (set_infinity via) t

-- The loop of `packAdvertisment`: the entries, and how many they are.
unfoldable pub pack_columns : ℕ → Table → List ℕ
pack_columns dest_mip [] = []
pack_columns dest_mip (c ∷ t) =
    let rest = pack_columns dest_mip t in if c.via == dest_mip then rest else c.to ∷ c.cost ∷ rest

unfoldable pub count_columns : ℕ → Table → ℕ
count_columns dest_mip [] = 0
count_columns dest_mip (c ∷ t) =
    let rest = count_columns dest_mip t in if c.via == dest_mip then rest else rest + 1

-- The `std::uint16_t` size goes before the entries; it wraps.
unfoldable pub pack_advertisment : Table → ℕ → List ℕ
unfolding pack_columns count_columns
pack_advertisment t dest_mip =
    let size = count_columns dest_mip t % 2 ^ 16 in
    size % 256 ∷ size / 256 ∷ pack_columns dest_mip t

-- `m_data.resize(size)` keeps the columns that are there and adds zeroed ones; then each gets the
-- two bytes of its entry.
unfoldable pub unpack_columns : ℕ → Table → ℕ → List ℕ → Table
unpack_columns zero t i buf = []
unpack_columns (suc n) [] i buf =
    record { to = byte buf i; via = 0; cost = byte buf (i + 1) } ∷ unpack_columns n [] (i + 2) buf
unpack_columns (suc n) (c ∷ t) i buf =
    record c { to = byte buf i; cost = byte buf (i + 1) } ∷ unpack_columns n t (i + 2) buf

unfoldable pub unpack_advertisment : List ℕ → Table → Table
unfolding unpack_columns
unpack_advertisment buf t = unpack_columns (byte buf 0 + 256 * byte buf 1) t 2 buf

-- The cost of a route through the sender of an advertisment, a `std::uint8_t`.
unfoldable pub advertised_cost : ℕ → ℕ
advertised_cost cost = if ltb cost inf_cost then (cost + hop_cost) % 2 ^ 8 else inf_cost

-- The body of the loop of `update` for one advertised column; `m_data.end()` is the empty list.
unfoldable pub update_column : ℕ → ℕ → ℕ → Table → Bool × Table
update_column sender to cost [] = (true, record { to = to; via = sender; cost = cost } ∷ [])
update_column sender to cost (c ∷ t) =
    let (changed, t') = update_column sender to cost t in
    if c.to == to
    then (if ltb cost c.cost || ((sender == c.via) && not (cost == c.cost))
        then (true, record c { via = sender; cost = cost } ∷ t)
        else (false, c ∷ t))
    else (changed, c ∷ t')

unfoldable pub update_loop : ℕ → Table → Bool → Table → Bool × Table
unfolding update_column advertised_cost
update_loop sender [] changed t = (changed, t)
update_loop sender (a ∷ advert) changed t =
    let (changed', t') = update_column sender a.to (advertised_cost a.cost) t in
    update_loop sender advert (changed || changed') t'

unfoldable pub update : ℕ → Table → Table → Bool × Table
unfolding update_loop
update sender advert t = update_loop sender advert false t

unfoldable pub find_to : ℕ → Table → Option Column
find_to to t = find_if (λ c. c.to == to) t

unfoldable pub add_local_mip : ℕ → Table → Table
unfolding add
add_local_mip mip t = add mip mip 0 t

unfoldable pub add_arp_discovery : ℕ → Table → Table
add_arp_discovery mip [] = record { to = mip; via = mip; cost = hop_cost } ∷ []
add_arp_discovery mip (c ∷ t) =
    let rest = add_arp_discovery mip t in
    if c.to == mip then record c { via = mip; cost = hop_cost } ∷ t else c ∷ rest
