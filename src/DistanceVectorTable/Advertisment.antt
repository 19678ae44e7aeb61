-- ===== src/DistanceVectorTable/Advertisment.antt =====
-- `packAdvertisment` and `unpackAdvertisment` of src/DistanceVectorTable.cpp.
use miptp_cpp.Prelude.{
  ℕ, suc, ◌+◌, ◌*◌, ◌/◌, ◌%◌, ◌^◌, ◌<◌, ◌≡◌, refl, sym, ap, ◌∙◌, List, [], ◌∷◌, ◌++◌, map,
  append_assoc, length, length-append, get_or-append_right, ◌==◌, if◌then◌else◌, Bool-cases, inl,
  inr, arith,
}
use miptp_cpp.Bytes.{byte}
use miptp_cpp.DistanceVectorTable.{
  Column, Table, pack_columns, count_columns, pack_advertisment, unpack_columns,
  unpack_advertisment,
}

-- What an advertisment tells of a column.
abbrev pub entry : Column → ℕ × ℕ
entry c = (c.to, c.cost)

abbrev pub entries : Table → List (ℕ × ℕ)
entries = map entry

-- Split horizon: the columns that do not go through the addressee.
unfoldable pub horizon : ℕ → Table → Table
horizon dest_mip [] = []
horizon dest_mip (c ∷ t) =
    let rest = horizon dest_mip t in if c.via == dest_mip then rest else c ∷ rest

abbrev rest_of : Table → Table
rest_of [] = []
rest_of (c ∷ t) = t

unpack_step :
    (n i : ℕ) (old : Table) (buf : List ℕ)
    → entries (unpack_columns (suc n) old i buf)
      ≡ (byte buf i, byte buf (i + 1)) ∷ entries (unpack_columns n (rest_of old) (i + 2) buf)
unfolding unpack_columns
unpack_step n i [] buf = refl
unpack_step n i (c ∷ old) buf = refl

unpack-pack_columns :
    (dest_mip : ℕ) (t old : Table) (i : ℕ) (before : List ℕ)
    → length before ≡ i
    → entries (unpack_columns (count_columns dest_mip t) old i (before ++ pack_columns dest_mip t))
      ≡ entries (horizon dest_mip t)
unfolding count_columns pack_columns horizon unpack_columns
unpack-pack_columns dest_mip [] old i before h = refl
unpack-pack_columns dest_mip (c ∷ t) old i before h = elim (Bool-cases (c.via == dest_mip)) [
  | inl through ↦ rw through (unpack-pack_columns dest_mip t old i before h)
  | inr other ↦
      let n = count_columns dest_mip t in
      let buf = before ++ c.to ∷ c.cost ∷ pack_columns dest_mip t in
      let next : n + 1 ≡ suc n = omega arith in
      let first : byte buf i ≡ c.to =
        ap (byte buf) (omega arith) ∙ get_or-append_right before _ 0 0 in
      let second : byte buf (i + 1) ≡ c.cost =
        ap (byte buf) (omega arith) ∙ get_or-append_right before _ 1 0 in
      rw (other, next, unpack_step n i old buf, first, second)
        (ap (◌∷◌ (entry c)) (
          ap (λ b. entries (unpack_columns n (rest_of old) (i + 2) b))
            (sym (append_assoc before (c.to ∷ c.cost ∷ []) (pack_columns dest_mip t)))
          ∙ unpack-pack_columns dest_mip t (rest_of old) (i + 2) (before ++ c.to ∷ c.cost ∷ [])
              (omega (arith, length-append before (c.to ∷ c.cost ∷ [])))))
]

-- A neighbour that unpacks an advertisment made for it reads exactly the destinations and costs of
-- the columns that do not go through it, in order, whatever its table held before, on the
-- condition that there are fewer than 2 ^ 16 of them.
pub unpack-pack_advertisment :
    (t old : Table) (dest_mip : ℕ)
    → count_columns dest_mip t < 2 ^ 16
    → entries (unpack_advertisment (pack_advertisment t dest_mip) old)
      ≡ entries (horizon dest_mip t)
unfolding unpack_advertisment pack_advertisment
unpack-pack_advertisment t old dest_mip h =
    let size = count_columns dest_mip t in
    let whole : size % 2 ^ 16 % 256 + 256 * (size % 2 ^ 16 / 256) ≡ size = omega arith in
    rw whole
      (unpack-pack_columns dest_mip t old 2 (size % 2 ^ 16 % 256 ∷ size % 2 ^ 16 / 256 ∷ []) refl)
