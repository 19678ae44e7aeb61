-- ===== src/TransportDeamon/Ports.antt =====
-- The port numbers that src/transport_deamon.cpp hands out.
use miptp_cpp.Prelude.{
  ℕ, zero, suc, ◌+◌, ◌-◌, ◌≤◌, ◌<◌, ◌≡◌, ◌⊎◌, inl, inr, true, false, List, Bool-cases, ==_iff,
  subst, sym, ◌==◌, arith,
}
use miptp_cpp.TransportDeamon.{Client, is_port_free, free_port_from, get_free_port, max_port}

free_port_from_lem :
    (rounds port : ℕ) (clients : List Client)
    → 0 < port
    → let p = free_port_from rounds port clients in
      ((port ≤ p)
        × (p < port + rounds)
        × (is_port_free clients p ≡ true)
        × ((q : ℕ) → port ≤ q → q < p → is_port_free clients q ≡ false))
      ⊎ ((p ≡ 0) × ((q : ℕ) → port ≤ q → q < port + rounds → is_port_free clients q ≡ false))
unfolding free_port_from
free_port_from_lem zero port clients h = inr (omega arith, λ q a b. absurd (omega arith))
free_port_from_lem (suc rounds) port clients h = elim (Bool-cases (is_port_free clients port)) [
  | inl free ↦ rw free (inl (omega arith, omega arith, free, λ q a b. absurd (omega arith)))
  | inr used ↦ rw used (elim (free_port_from_lem rounds (port + 1) clients (omega arith)) [
    | inl (lo, hi, free, below) ↦ inl (
      omega arith,
      omega arith,
      free,
      λ q a b. elim (Bool-cases (q == port)) [
        | inl same ↦ subst (λ x. is_port_free clients x ≡ false) (sym ((==_iff q port).0 same)) used
        | inr other ↦ below q (ground arith) b
      ],
    )
    | inr (none_left, all) ↦ inr (
      none_left,
      λ q a b. elim (Bool-cases (q == port)) [
        | inl same ↦ subst (λ x. is_port_free clients x ≡ false) (sym ((==_iff q port).0 same)) used
        | inr other ↦ all q (ground arith) (ground arith)
      ],
    )
  ])
]

-- What `getFreePort` returns is an unused port of 1 .. 16382 below which all are used; or it is 0,
-- and all of 1 .. 16382 are used. (Port 16383 is never tried.)
pub get_free_port_lem :
    (clients : List Client)
    → let p = get_free_port clients in
      ((1 ≤ p)
        × (p < max_port)
        × (is_port_free clients p ≡ true)
        × ((q : ℕ) → 1 ≤ q → q < p → is_port_free clients q ≡ false))
      ⊎ ((p ≡ 0) × ((q : ℕ) → 1 ≤ q → q < max_port → is_port_free clients q ≡ false))
unfolding get_free_port
get_free_port_lem clients = free_port_from_lem (max_port - 1) 1 clients (omega arith)
