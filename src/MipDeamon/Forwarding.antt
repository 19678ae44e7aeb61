-- ===== src/MipDeamon/Forwarding.antt =====
-- Forwarding in src/MIP_deamon.cpp: the time to live, and the queue of frames that wait for a route.
use native.Mathlib.Nat.{mod-eq_of_lt}
use miptp_cpp.Prelude.{
  ℕ, ◌+◌, ◌-◌, ◌<◌, ◌≡◌, ◌≢◌, ◌⊎◌, refl, ap, ◌∙◌, Bool, true, false, Option, none, some, List, [],
  ◌∷◌, ◌++◌, length, length-append, Bool-cases, ◌==◌, inl, inr, arith,
}
use miptp_cpp.Outcome.{ok, after}
use miptp_cpp.MipFrame.{MipFrame, get_mip_ttl, set_mip_ttl, get_mip_dest}
use miptp_cpp.MipFrame.Words.{IsFrame, get_mip_ttl_lem}
use miptp_cpp.MipFrame.Fields.{fields, fields-set_mip_ttl}
use miptp_cpp.MipDeamon.{MipDeamon, ArpPair, find_pair}
use miptp_cpp.MipDeamon.Handlers.{
  is_local, enqueue_lookup, receive_transport, receive_transport_sock, receive_lookup_sock,
  take_lookup, send_via,
}

get_mip_ttl-lt : (f : MipFrame) → get_mip_ttl f < 16
get_mip_ttl-lt f = omega (arith, get_mip_ttl_lem f)

lowered_ttl :
    (f : MipFrame)
    → IsFrame f
    → fields (set_mip_ttl (get_mip_ttl f - 1) f) ≡ record (fields f) { ttl = get_mip_ttl f - 1 }
lowered_ttl f v =
    fields-set_mip_ttl f v (get_mip_ttl f - 1)
    ∙ ap (λ t. record (fields f) { ttl = t })
        (mod-eq_of_lt {n = get_mip_ttl f - 1} {m = 16} (omega (arith, get_mip_ttl-lt f)))

-- A frame for another host goes no further when its time to live is 0: nothing changes. Else it
-- waits at the end of the queue with one hop less to live and its other header fields as they were,
-- and the routing daemon is asked for its destination.
pub receive_transport_forwards :
    (f : MipFrame) (d : MipDeamon)
    → IsFrame f
    → is_local (get_mip_dest f) d.raw_sock_vec ≡ false
    → ((get_mip_ttl f ≡ 0) × (receive_transport f d ≡ d))
      ⊎ ((0 < get_mip_ttl f)
          × (g : MipFrame) × ((receive_transport f d).lookup_queue
              ≡ d.lookup_queue ++ (true, g) ∷ [])
          × (fields g ≡ record (fields f) { ttl = get_mip_ttl f - 1 })
          × ((receive_transport f d).lookup_written ≡ d.lookup_written ++ get_mip_dest f ∷ [])
          × ((receive_transport f d).transport_written ≡ d.transport_written)
          × ((receive_transport f d).frames_sent ≡ d.frames_sent))
unfolding receive_transport
receive_transport_forwards f d v away = elim (Bool-cases (get_mip_ttl f == 0)) [
  | inl dead ↦ inl (ground arith)
  | inr alive ↦ inr (
    ground arith,
    set_mip_ttl (get_mip_ttl f - 1) f,
    ground arith,
    lowered_ttl f v,
    ground arith,
    ground arith,
    ground arith,
  )
]

enqueue_balance :
    (source_set : Bool) (f : MipFrame) (dest : ℕ) (d : MipDeamon)
    → (length (enqueue_lookup source_set f dest d).lookup_queue ≡ length d.lookup_queue + 1)
      × (length (enqueue_lookup source_set f dest d).lookup_written ≡ length d.lookup_written + 1)
unfolding enqueue_lookup
enqueue_balance source_set f dest d = (
  length-append d.lookup_queue ((source_set, f) ∷ []),
  length-append d.lookup_written (dest ∷ []),
)

transport_balance :
    (htons : ℕ → ℕ) (d : MipDeamon) (dest size : ℕ) (message : List ℕ)
    → length (receive_transport_sock htons dest size message d).lookup_queue
        + length d.lookup_written
      ≡ length d.lookup_queue
        + length (receive_transport_sock htons dest size message d).lookup_written
unfolding receive_transport_sock
transport_balance htons d dest size message = elim (Bool-cases (is_local dest d.raw_sock_vec)) [
  | inl here ↦ rw here
  | inr away ↦ rw away (omega (arith, enqueue_balance))
]

-- Sending the frame on asks nothing.
send_via_keeps :
    (htons : ℕ → ℕ) (pair : Option ArpPair) (entry : Bool × MipFrame) (d : MipDeamon)
    → ((send_via htons pair entry d).lookup_queue ≡ d.lookup_queue)
      × ((send_via htons pair entry d).lookup_written ≡ d.lookup_written)
unfolding send_via
send_via_keeps htons none entry d = (refl, refl)
send_via_keeps htons (some pair) (source_set, frame) d = (refl, refl)

answer_balance :
    (htons : ℕ → ℕ) (queue : List (Bool × MipFrame)) (answer : Option ℕ) (d : MipDeamon)
    → (queue ≡ []) × ((take_lookup htons queue answer d).0 ≢ ok tt)
      ⊎ (length (after (take_lookup htons queue answer d)).lookup_queue + 1 ≡ length queue)
        × ((after (take_lookup htons queue answer d)).lookup_written ≡ d.lookup_written)
unfolding take_lookup
answer_balance htons [] answer d = inl (refl, λ e. cc)
answer_balance htons (entry ∷ queue) none d = inr (omega arith, refl)
answer_balance htons (entry ∷ queue) (some via) d =
    let kept =
      send_via_keeps htons (find_pair via d.arp_pair_vec) entry
        (record d { lookup_queue = queue }) in
    inr (rw kept.0 (omega arith), kept.1)

-- Questions to the routing daemon and waiting frames come and go together: a handler that asks adds
-- one frame for each question, and an answer takes the oldest frame and asks nothing.
lookup_balance :
    (htons : ℕ → ℕ) (d : MipDeamon)
    → ((f : MipFrame)
        → length (receive_transport f d).lookup_queue + length d.lookup_written
          ≡ length d.lookup_queue + length (receive_transport f d).lookup_written)
      × ((dest size : ℕ) (message : List ℕ)
          → length (receive_transport_sock htons dest size message d).lookup_queue
              + length d.lookup_written
            ≡ length d.lookup_queue
              + length (receive_transport_sock htons dest size message d).lookup_written)
      × ((answer : Option ℕ)
          → (d.lookup_queue ≡ []) × ((receive_lookup_sock htons answer d).0 ≢ ok tt)
            ⊎ (length (after (receive_lookup_sock htons answer d)).lookup_queue + 1
                ≡ length d.lookup_queue)
              × ((after (receive_lookup_sock htons answer d)).lookup_written ≡ d.lookup_written))
unfolding receive_transport receive_lookup_sock
lookup_balance htons d = (
  λ f. ground (
    arith,
    length-append d.lookup_queue ((true, set_mip_ttl (get_mip_ttl f - 1) f) ∷ []),
    length-append d.lookup_written (get_mip_dest f ∷ []),
  ),
  transport_balance htons d,
  λ answer. answer_balance htons d.lookup_queue answer d,
)
