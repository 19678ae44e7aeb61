-- ===== src/Host/Rounds.antt =====
-- One step of src/MIP_deamon.cpp or src/routing_deamon.cpp at the questions and answers between them.
use miptp_cpp.Prelude.{
  ℕ, ◌≡◌, refl, sym, ap, subst, ◌∙◌, Bool, Option, none, some, List, [], ◌∷◌, ◌++◌, length, drop,
  drop-length_append, append-nil, ◌⊎◌, inl, inr, arith,
}
use miptp_cpp.Outcome.{Outcome, ok, after}
use miptp_cpp.CrossIpc.{le_value, read}
use miptp_cpp.MipFrame.{MipFrame, get_mip_dest}
use miptp_cpp.DistanceVectorTable.{find_to}
use miptp_cpp.RoutingDeamon.{
  RoutingDeamon, read_update, on_local_mip, on_arp_discovery, on_arp_lost, on_advertisement,
  receive_advertisement, receive_option, receive_update_sock, receive_lookup_sock,
  start_advertisment, send_advertisment,
}
use miptp_cpp.RoutingDeamon.Threads.{
  take_update, advertise_next, update_round, take_lookup, answer_next, lookup_round,
}
use miptp_cpp.MipDeamon.{MipDeamon, find_pair, ArpPair, send_mip_frame}
use miptp_cpp.MipDeamon.Handlers
use miptp_cpp.MipDeamon.Lookups.{dests}
use miptp_cpp.Host.{news, asked, answer_bytes}
use mathlib.Core.Option.{some-injective}
use miptp_cpp.Host.Answers.{next_hop, lookup_reply_lem}

pub news_lem : (old new added : List ℕ) → new ≡ old ++ added → news old new ≡ added
news_lem old new added h = ap (λ l. drop (length old) l) h ∙ drop-length_append old added

-- The questions that the routing daemon has: the one that is looked up, and those that wait.
abbrev pub pending : Option ℕ → List ℕ → List ℕ
pending none queue = queue
pending (some mip) queue = mip ∷ queue

abbrev pub questions : RoutingDeamon → List ℕ
questions d = pending d.answering d.lookup_queue

pub update_round-questions :
    (d e : RoutingDeamon) → update_round d ≡ some e → questions e ≡ questions d
unfolding update_round advertise_next take_update start_advertisment send_advertisment
update_round-questions d e h = ground arith

receive_update_sock_kept :
    (d : RoutingDeamon)
    → let e = after (receive_update_sock d) in
      (e.lookup_queue ≡ d.lookup_queue) × (e.answering ≡ d.answering)
unfolding receive_update_sock receive_option receive_advertisement read_update on_local_mip
    on_arp_discovery on_arp_lost on_advertisement read
receive_update_sock_kept d = ground arith

pub questions-receive_update_sock :
    (d : RoutingDeamon) → questions (after (receive_update_sock d)) ≡ questions d
questions-receive_update_sock d =
    let (queue, answering) = receive_update_sock_kept d in cc (queue, answering)

-- The worker takes a question, which stays the first.
take_lookup_lem :
    (queue : List ℕ) (d e : RoutingDeamon)
    → take_lookup queue d ≡ some e
    → (questions e ≡ queue) × (e.lookup_written ≡ d.lookup_written)
unfolding take_lookup
take_lookup_lem [] d e h = absurd (grind arith)
take_lookup_lem (mip ∷ queue) d e h =
    let same = some-injective _ _ h in
    (sym (ap questions same), sym (ap (λ (f : RoutingDeamon). f.lookup_written) same))

-- A step of the worker writes nothing and leaves the questions, or answers the first by its table.
abbrev Replied : Option ℕ → RoutingDeamon → RoutingDeamon → Type 0
Replied answering d e =
    ((questions e ≡ pending answering d.lookup_queue) × (e.lookup_written ≡ d.lookup_written ++ []))
    ⊎ ((mip : ℕ) × (pending answering d.lookup_queue ≡ mip ∷ questions e)
        × (e.lookup_written
            ≡ d.lookup_written ++ answer_bytes (next_hop (find_to mip d.distance_vector_table))))

answer_next_lem :
    (answering : Option ℕ) (d e : RoutingDeamon)
    → answer_next answering d ≡ some e
    → Replied answering d e
unfolding answer_next
answer_next_lem none d e h =
    let taken : take_lookup d.lookup_queue d ≡ some e = ground arith in
    let (asked, written) = take_lookup_lem d.lookup_queue d e taken in
    inl (asked, written ∙ sym (append-nil d.lookup_written))
answer_next_lem (some mip) d e h =
    let column = find_to mip d.distance_vector_table in
    let same = some-injective _ _ h in
    inr (
      mip,
      ap (λ f. mip ∷ questions f) same,
      sym (ap (λ (f : RoutingDeamon). f.lookup_written) same)
          ∙ ap (λ l. d.lookup_written ++ l) (lookup_reply_lem column),
    )

pub lookup_round_lem : (d e : RoutingDeamon) → lookup_round d ≡ some e → Replied d.answering d e
unfolding lookup_round
lookup_round_lem d e h = answer_next_lem d.answering d e h

-- The MIP daemon takes the front of its queue at an answer.
send_via-kept :
    (htons : ℕ → ℕ) (pair : Option ArpPair) (entry : Bool × MipFrame) (d : MipDeamon)
    → let e = Handlers.send_via htons pair entry d in
      (e.lookup_queue ≡ d.lookup_queue)
      × (e.raw_frame ≡ d.raw_frame)
      × (e.transport_frame ≡ d.transport_frame)
unfolding Handlers.send_via send_mip_frame
send_via-kept htons none entry d = (refl, refl, refl)
send_via-kept htons (some pair) entry d = (refl, refl, refl)

-- The MIP daemon at an answer, when a frame waits: it goes on without an error.
abbrev pub Taken : List (Bool × MipFrame) → MipDeamon → Outcome (Unit {0}) × MipDeamon → Type 0
Taken queue d r =
    (r.0 ≡ ok tt)
    × ((after r).lookup_queue ≡ queue)
    × ((after r).raw_frame ≡ d.raw_frame)
    × ((after r).transport_frame ≡ d.transport_frame)

take_lookup-Taken :
    (htons : ℕ → ℕ) (answer : Option ℕ) (entry : Bool × MipFrame) (queue : List (Bool × MipFrame))
    (d : MipDeamon)
    → Taken queue d (Handlers.take_lookup htons (entry ∷ queue) answer d)
unfolding Handlers.take_lookup
take_lookup-Taken htons none entry queue d = (refl, refl, refl, refl)
take_lookup-Taken htons (some via) entry queue d =
    let (q, r, t) =
      send_via-kept htons (find_pair via d.arp_pair_vec) entry
        (record d { lookup_queue = queue }) in
    (refl, q, r, t)

pub receive_lookup_sock-Taken :
    (htons : ℕ → ℕ) (answer : Option ℕ) (entry : Bool × MipFrame) (queue : List (Bool × MipFrame))
    (d : MipDeamon)
    → d.lookup_queue ≡ entry ∷ queue
    → Taken queue d (Handlers.receive_lookup_sock htons answer d)
unfolding Handlers.receive_lookup_sock
receive_lookup_sock-Taken htons answer entry queue d h =
    subst (λ q. Taken queue d (Handlers.take_lookup htons q answer d)) (sym h)
      (take_lookup-Taken htons answer entry queue d)

pub dests-front :
    (queue : List (Bool × MipFrame)) (mip : ℕ) (mips : List ℕ)
    → dests queue ≡ mip ∷ mips
    → (entry : Bool × MipFrame) × (rest : List (Bool × MipFrame)) × (queue ≡ entry ∷ rest)
      × (get_mip_dest entry.1 ≡ mip)
      × (dests rest ≡ mips)
dests-front [] mip mips h = absurd (grind arith)
dests-front (entry ∷ queue) mip mips h = (entry, queue, refl, cc h, cc h)

pending-append :
    (answering : Option ℕ) (queue : List ℕ) (mip : ℕ)
    → pending answering (queue ++ mip ∷ []) ≡ pending answering queue ++ mip ∷ []
pending-append none queue mip = refl
pending-append (some m) queue mip = refl

question_queue :
    (mip : ℕ) (d : RoutingDeamon)
    → (after (receive_lookup_sock (asked mip d))).lookup_queue ≡ d.lookup_queue ++ mip ∷ []
unfolding receive_lookup_sock read le_value
question_queue mip d = ground arith

-- The main thread queues the question that it reads.
pub question_lem :
    (mip : ℕ) (d : RoutingDeamon)
    → questions (after (receive_lookup_sock (asked mip d))) ≡ questions d ++ mip ∷ []
unfolding receive_lookup_sock read
question_lem mip d =
    ap (pending d.answering) (question_queue mip d) ∙ pending-append d.answering d.lookup_queue mip
