-- ===== src/RoutingDeamon/Reachable.antt =====
-- What holds of src/routing_deamon.cpp in every state that its three threads can reach.
use miptp_cpp.Prelude.{◌≡◌}
use miptp_cpp.Outcome.{Outcome, M, after}
use miptp_cpp.RoutingDeamon.{RoutingDeamon}
use miptp_cpp.RoutingDeamon.Consistent.{IsConsistent}

-- A method that keeps this, however it ends.
abbrev Keeps : {A : Type 0} → M RoutingDeamon A → Type 0
Keeps m = (d : RoutingDeamon) → IsConsistent d → IsConsistent (after (m d))

-- A worker's step and a lookup leave the neighbours and the table alone.
abbrev Leaves : RoutingDeamon → RoutingDeamon → Type 0
Leaves d e =
    (e.neighbour_mip_vec ≡ d.neighbour_mip_vec)
    × (e.distance_vector_table ≡ d.distance_vector_table)
