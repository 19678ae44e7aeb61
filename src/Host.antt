-- ===== src/Host.antt =====
-- One host: src/MIP_deamon.cpp and src/routing_deamon.cpp with the socket pair between them on which
-- routes are asked for. What one side has written and the other has not read stands in a list for
-- each direction; the steps of the two processes interleave in any order. What arrives from the
-- neighbours, from the transport daemon and on `update_sock` is arbitrary.
pub mod Answers
mod Rounds
pub mod Matching
pub mod Updates
use miptp_cpp.Prelude.{ℕ, ◌≡◌, ◌⊎◌, Option, none, some, List, [], ◌∷◌, ◌++◌, length, drop}
use miptp_cpp.Outcome.{ok, after}
use miptp_cpp.CrossIpc.{AnonymousSocket, received}
use miptp_cpp.DistanceVectorTable.{Table}
use miptp_cpp.RoutingDeamon.{RoutingDeamon, receive_update_sock, receive_lookup_sock}
use miptp_cpp.RoutingDeamon.Threads.{update_round, lookup_round, shutdown_threads}
use miptp_cpp.MipDeamon.{MipDeamon}
use miptp_cpp.MipDeamon.Handlers
use miptp_cpp.MipDeamon.Events.{Event, handle_event}
use miptp_cpp.MipDeamon.Lookups.{IsEvent}

pub record Host : Type 0 where
  pub mip : MipDeamon
  pub routing : RoutingDeamon
  -- the questions, and the answers, that are on their way
  pub to_routing : List ℕ
  pub to_mip : List ℕ

-- What has been written since.
abbrev pub news : List ℕ → List ℕ → List ℕ
news old new = drop (length old) new

-- `main` of the MIP daemon at an event other than an answer.
unfoldable pub on_event : (ℕ → ℕ) → Event → Host → Host
on_event htons event h =
    let d = after (handle_event htons event h.mip) in
    record h { mip = d; to_routing = h.to_routing ++ news h.mip.lookup_written d.lookup_written }

-- The byte of a question is there to be read.
abbrev pub asked : ℕ → RoutingDeamon → RoutingDeamon
asked mip d = record d { lookup_sock = record (d.lookup_sock) { recvs = received (mip ∷ []) ∷ [] } }

-- The main thread of the routing daemon at a question.
unfoldable pub on_question : ℕ → List ℕ → Host → Host
on_question mip rest h = record h {
  routing = after (receive_lookup_sock (asked mip h.routing));
  to_routing = rest;
}

-- A step of `lookup_thread_handler` that leaves `d`.
unfoldable pub on_reply : RoutingDeamon → Host → Host
on_reply d h = record h {
  routing = d;
  to_mip = h.to_mip ++ news h.routing.lookup_written d.lookup_written;
}

-- What `receiveLookupSock` of the MIP daemon reads: whether there is a route, and then its next hop.
unfoldable pub answer_bytes : Option ℕ → List ℕ
answer_bytes none = 0 ∷ []
answer_bytes (some via) = 1 ∷ via ∷ []

-- The MIP daemon at an answer.
unfoldable pub on_answer : (ℕ → ℕ) → Option ℕ → List ℕ → Host → Host
on_answer htons answer rest h = record h {
  mip = after (Handlers.receive_lookup_sock htons answer h.mip);
  to_mip = rest;
}

-- The steps of the two processes, in any order.
pub data Step (htons : ℕ → ℕ) (h : Host) (k : Host) : Type 0 where
  mip_event : (event : Event) → IsEvent event → k ≡ on_event htons event h → Step htons h k
  routing_question :
      (mip : ℕ) (rest : List ℕ)
      → h.to_routing ≡ mip ∷ rest
      → k ≡ on_question mip rest h
      → Step htons h k
  routing_reply :
      (d : RoutingDeamon) → lookup_round h.routing ≡ some d → k ≡ on_reply d h → Step htons h k
  mip_answer :
      (answer : Option ℕ) (rest : List ℕ)
      → h.to_mip ≡ answer_bytes answer ++ rest
      → k ≡ on_answer htons answer rest h
      → Step htons h k
  routing_event :
      (d : RoutingDeamon)
      → receive_update_sock h.routing ≡ (ok tt, d)
      → k ≡ record h { routing = d }
      → Step htons h k
  routing_worker :
      (d : RoutingDeamon)
      → update_round h.routing ≡ some d
      → k ≡ record h { routing = d }
      → Step htons h k
  routing_shutdown : k ≡ record h { routing = shutdown_threads h.routing } → Step htons h k

pub data Run (htons : ℕ → ℕ) (h : Host) : Host → Type 0 where
  here : Run htons h h
  next : {k l : Host} → Run htons h k → Step htons k l → Run htons h l

-- The routing table of some state of the run.
unfoldable pub Held : {htons : ℕ → ℕ} {h k : Host} → Run htons h k → Table → Type 0
Held {h = h} here t = t ≡ h.routing.distance_vector_table
Held {k = k} (next r s) t = (t ≡ k.routing.distance_vector_table) ⊎ Held r t
