-- ===== src/Host/Updates.antt =====
-- The other pair of sockets, `update_sock`: what src/MIP_deamon.cpp writes, read by
-- src/routing_deamon.cpp.
use miptp_cpp.Prelude.{ℕ, List, [], ◌∷◌}
use miptp_cpp.Outcome.{Outcome, after}
use miptp_cpp.RoutingDeamon.{RoutingDeamon}
use miptp_cpp.MipDeamon.{MipDeamon}
use miptp_cpp.MipDeamon.Events.{Event, handle_event}
use miptp_cpp.MipDeamon.Notices.{Tells}
use miptp_cpp.MipDeamon.Tells.{IsTelling}

module _ (htons : ℕ → ℕ) where
  -- Each event is one at which the daemon tells well, in the state that it comes in.
  abbrev pub AreTelling : List Event → MipDeamon → Type 0
  AreTelling [] d = Unit
  AreTelling (event ∷ events) d =
      IsTelling event d × AreTelling events (after (handle_event htons event d))
