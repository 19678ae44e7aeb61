-- ===== src/CrossIpc/Stream.antt =====
-- Reading and writing a byte stream in pieces.
use miptp_cpp.Prelude.{
  ℕ, zero, suc, ◌+◌, ◌-◌, ◌^◌, ◌/◌, ◌≤◌, ◌<◌, ◌≡◌, ◌≢◌, refl, sym, ap, ◌∙◌, List, [], ◌∷◌, ◌++◌,
  length, length-append, take, take_all, length-take, replicate, length-replicate, ltb, Bool-cases,
  take-take, take-length_append, inl, inr, get_or, get_or-append_right, get_or-replicate, ltb→lt,
  ltb-false→le, arith,
}
use native.Mathlib.Nat.{pow-suc}
use miptp_cpp.Outcome.{ok}
use miptp_cpp.CrossIpc.{
  AnonymousSocket, Received, received, read, name_copy, sun_path_size, le_value, size_bytes,
}

-- All the pieces, one after the other.
abbrev pub concat : List (List ℕ) → List ℕ
concat [] = []
concat (c ∷ cs) = c ++ concat cs

-- An integer that fits its bytes reads back.
pub le_value-size_bytes : (k n : ℕ) → n < 256 ^ k → le_value (size_bytes k n) ≡ n
unfolding le_value size_bytes
le_value-size_bytes zero n h = omega arith
le_value-size_bytes (suc k) n h =
    omega (arith, le_value-size_bytes k (n / 256) (omega (arith, pow-suc 256 k)))

pub length-size_bytes : (k n : ℕ) → length (size_bytes k n) ≡ k
unfolding size_bytes
length-size_bytes zero n = refl
length-size_bytes (suc k) n = ap suc (length-size_bytes k (n / 256))

-- A piece that fits the room is read whole.
pub read-piece :
    (size : ℕ) (p : List ℕ) (rest : List Received) (s : AnonymousSocket)
    → p ≢ []
    → length p ≤ size
    → read size (record s { recvs = received p ∷ rest }) ≡ (ok p, record s { recvs = rest })
unfolding read
read-piece size [] rest s h k = absurd (h refl)
read-piece size (b ∷ bs) rest s h k = ground (arith, take_all size (b ∷ bs))

-- What the two branches of `nameCopy` write.
abbrev pub IsNameCopy : List ℕ → List ℕ → Type 0
IsNameCopy source path =
    (length path ≡ sun_path_size)
    × (get_or path (sun_path_size - 1) 1 ≡ 0)
    × (take (length source) (take 107 path) ≡ take 107 source)

name_fits :
    (source : List ℕ)
    → length source + 1 < sun_path_size
    → IsNameCopy source (source ++ replicate (sun_path_size - length source) 0)
name_fits source h =
    let zeros : List ℕ = replicate (sun_path_size - length source) 0 in
    let last : 107 ≡ length source + (107 - length source) = omega arith in
    (
      omega (
        arith,
        length-append source zeros,
        length-replicate {A = ℕ} (sun_path_size - length source) 0,
      ),
      ap (λ i. get_or (source ++ zeros) i 1) last
          ∙ get_or-append_right source zeros (107 - length source) 1
          ∙ get_or-replicate (sun_path_size - length source) (107 - length source) 0 1
              (omega arith),
      take-take (length source) 107 (source ++ zeros) (omega arith)
          ∙ take-length_append source zeros
          ∙ sym (take_all 107 source (omega arith)),
    )

name_cut :
    (source : List ℕ)
    → sun_path_size ≤ length source + 1
    → IsNameCopy source (take (sun_path_size - 1) source ++ 0 ∷ [])
name_cut source h =
    let kept = take 107 source in
    let full : length kept ≡ 107 = omega (arith, length-take 107 source) in
    (
      omega (arith, length-append kept (0 ∷ [])),
      ap (λ i. get_or (kept ++ 0 ∷ []) i 1) (omega (arith, full))
          ∙ get_or-append_right kept (0 ∷ []) 0 1,
      ap (λ n. take (length source) (take n (kept ++ 0 ∷ []))) (sym full)
          ∙ ap (take (length source)) (take-length_append kept (0 ∷ []))
          ∙ take_all (length source) kept (omega (arith, full)),
    )

-- `sun_path` is filled to its size and ends with a NUL, and its first 107 bytes hold the name, or as
-- much of it as there is room for.
pub name_copy_lem : (source : List ℕ) → IsNameCopy source (name_copy source)
unfolding name_copy
name_copy_lem source = elim (Bool-cases (ltb (length source + 1) sun_path_size)) [
  | inl fits ↦ rw fits (name_fits source (ltb→lt _ _ fits))
  | inr cut ↦ rw cut (name_cut source (ltb-false→le _ _ cut))
]
