-- ===== src/Host/Matching.antt =====
-- Which frame of src/MIP_deamon.cpp an answer of src/routing_deamon.cpp is for.
use miptp_cpp.Prelude.{
  ℕ, ◌≡◌, inl, inr, refl, sym, ap, subst, ◌∙◌, Bool, Option, some, List, [], ◌∷◌, ◌++◌, append-nil,
  append_assoc, arith,
}
use miptp_cpp.Outcome.{Outcome, ok, after}
use miptp_cpp.MipFrame.{MipFrame, get_mip_dest}
use miptp_cpp.DistanceVectorTable.{Table, find_to}
use miptp_cpp.RoutingDeamon.{RoutingDeamon}
use miptp_cpp.RoutingDeamon.Threads.{lookup_round, shutdown_threads}
use miptp_cpp.MipDeamon.Handlers
use miptp_cpp.MipDeamon.Events.{Event}
use miptp_cpp.MipDeamon.Lookups.{dests, IsReady, IsEvent, handle_event-Asks}
use miptp_cpp.Host.{
  Host, on_event, on_question, on_reply, answer_bytes, on_answer, Step, Run, here, next, Held,
  mip_event, routing_question, routing_reply, mip_answer, routing_event, routing_worker,
  routing_shutdown,
}
use miptp_cpp.MipFrame.Words.{IsFrame}
use miptp_cpp.Host.Answers.{next_hop, Answers, Answers-weaken, Answers-last, Answers-front}
use miptp_cpp.Host.Rounds.{
  news_lem, update_round-questions, questions-receive_update_sock, lookup_round_lem, questions,
  receive_lookup_sock-Taken, dests-front, question_lem,
}

-- The frames that wait are those whose answers come, those whose questions the routing daemon has,
-- and those whose questions come to it, in this order.
abbrev Matched : (Table → Type 0) → Host → Type 0
Matched P h =
    IsReady h.mip
    × (answered : List ℕ) × (dests h.mip.lookup_queue
        ≡ answered ++ questions h.routing ++ h.to_routing)
    × Answers P answered h.to_mip

on_event-Matched :
    (P : Table → Type 0) (htons : ℕ → ℕ) (event : Event) (h : Host)
    → IsEvent event
    → Matched P h
    → Matched P (on_event htons event h)
unfolding on_event
on_event-Matched P htons event h v (ready, answered, order, answers) =
    let ((added, waits, asks), ready') = handle_event-Asks htons event h.mip v ready in
    (
      ready',
      answered,
      waits
          ∙ ap (λ l. l ++ added) order
          ∙ append_assoc (answered ++ questions h.routing) h.to_routing added
          ∙ ap (λ l. answered ++ questions h.routing ++ (h.to_routing ++ l))
              (sym (news_lem h.mip.lookup_written _ added asks)),
      answers,
    )

on_question-Matched :
    (P : Table → Type 0) (mip : ℕ) (rest : List ℕ) (h : Host)
    → h.to_routing ≡ mip ∷ rest
    → Matched P h
    → Matched P (on_question mip rest h)
unfolding on_question
on_question-Matched P mip rest h e (ready, answered, order, answers) =
    let asking = questions h.routing in
    (
      ready,
      answered,
      order
          ∙ ap (λ l. answered ++ asking ++ l) e
          ∙ sym (append_assoc (answered ++ asking) (mip ∷ []) rest)
          ∙ ap (λ l. l ++ rest) (append_assoc answered asking (mip ∷ []))
          ∙ ap (λ l. answered ++ l ++ rest) (sym (question_lem mip h.routing)),
      answers,
    )

on_reply-Matched :
    (P : Table → Type 0) (d : RoutingDeamon) (h : Host)
    → lookup_round h.routing ≡ some d
    → P h.routing.distance_vector_table
    → Matched P h
    → Matched P (on_reply d h)
unfolding on_reply
on_reply-Matched P d h e p (ready, answered, order, answers) =
    let t = h.routing.distance_vector_table in
    elim (lookup_round_lem h.routing d e) [
      | inl (same, written) ↦ (
        ready,
        answered,
        order ∙ ap (λ l. answered ++ l ++ h.to_routing) (sym same),
        subst (λ l. Answers P answered l)
            (sym (append-nil h.to_mip)
              ∙ ap (λ l. h.to_mip ++ l)
                  (sym (news_lem h.routing.lookup_written d.lookup_written [] written)))
            answers,
      )
      | inr (mip, first, written) ↦ (
        ready,
        answered ++ mip ∷ [],
        order
            ∙ ap (λ l. l ++ h.to_routing)
                (ap (λ l. answered ++ l) first
                  ∙ sym (append_assoc answered (mip ∷ []) (questions d))),
        subst (λ l. Answers P (answered ++ mip ∷ []) (h.to_mip ++ l))
            (sym (news_lem h.routing.lookup_written d.lookup_written _ written))
            (Answers-last P answered h.to_mip mip t p answers),
      )
    ]

-- The answer that comes first is for the frame at the front.
Matched-front :
    (P : Table → Type 0) (hop : Option ℕ) (rest : List ℕ) (h : Host)
    → h.to_mip ≡ answer_bytes hop ++ rest
    → Matched P h
    → (entry : Bool × MipFrame) × (queue : List (Bool × MipFrame)) × (t : Table)
      × (h.mip.lookup_queue ≡ entry ∷ queue)
      × P t
      × (hop ≡ next_hop (find_to (get_mip_dest entry.1) t))
      × (mips : List ℕ) × (dests queue ≡ mips ++ questions h.routing ++ h.to_routing)
      × Answers P mips rest
Matched-front P hop rest h e (ready, answered, order, answers) =
    let (mip, mips, t, split, p, one, others) =
      Answers-front P answered h.to_mip hop rest e answers in
    let (entry, queue, waits, to, behind) =
      dests-front h.mip.lookup_queue mip (mips ++ questions h.routing ++ h.to_routing)
        (order ∙ ap (λ l. l ++ questions h.routing ++ h.to_routing) split) in
    (
      entry,
      queue,
      t,
      waits,
      p,
      one ∙ ap (λ m. next_hop (find_to m t)) (sym to),
      mips,
      behind,
      others,
    )

on_answer-Matched :
    (P : Table → Type 0) (htons : ℕ → ℕ) (hop : Option ℕ) (rest : List ℕ) (h : Host)
    → h.to_mip ≡ answer_bytes hop ++ rest
    → Matched P h
    → Matched P (on_answer htons hop rest h)
unfolding on_answer
on_answer-Matched P htons hop rest h e v =
    let (entry, queue, t, waits, p, one, mips, behind, others) = Matched-front P hop rest h e v in
    let (fine, left, raw, transport) =
      receive_lookup_sock-Taken htons hop entry queue h.mip waits in
    (
      (subst IsFrame (sym raw) v.0.0, subst IsFrame (sym transport) v.0.1),
      mips,
      ap dests left ∙ behind,
      others,
    )

routing-Matched :
    (P : Table → Type 0) (d : RoutingDeamon) (h : Host)
    → questions d ≡ questions h.routing
    → Matched P h
    → Matched P (record h { routing = d })
routing-Matched P d h e (ready, answered, order, answers) =
    (ready, answered, order ∙ ap (λ l. answered ++ l ++ h.to_routing) (sym e), answers)

Step-Matched :
    (P : Table → Type 0) (htons : ℕ → ℕ) (h k : Host)
    → Step htons h k
    → P h.routing.distance_vector_table
    → Matched P h
    → Matched P k
unfolding shutdown_threads
Step-Matched P htons h k (mip_event event v e) p w =
    subst (Matched P) (sym e) (on_event-Matched P htons event h v w)
Step-Matched P htons h k (routing_question mip rest q e) p w =
    subst (Matched P) (sym e) (on_question-Matched P mip rest h q w)
Step-Matched P htons h k (routing_reply d r e) p w =
    subst (Matched P) (sym e) (on_reply-Matched P d h r p w)
Step-Matched P htons h k (mip_answer hop rest a e) p w =
    subst (Matched P) (sym e) (on_answer-Matched P htons hop rest h a w)
Step-Matched P htons h k (routing_event d r e) p w = subst (Matched P) (sym e) (
    routing-Matched P d h
      (sym (ap (λ (x : Outcome (Unit {0}) × RoutingDeamon). questions (after x)) r)
        ∙ questions-receive_update_sock h.routing)
      w)
Step-Matched P htons h k (routing_worker d r e) p w =
    subst (Matched P) (sym e) (routing-Matched P d h (update_round-questions h.routing d r) w)
Step-Matched P htons h k (routing_shutdown e) p w =
    subst (Matched P) (sym e) (routing-Matched P (shutdown_threads h.routing) h refl w)

-- Nothing waits and nothing is on its way.
abbrev pub IsStart : Host → Type 0
IsStart h =
    IsReady h.mip
    × (h.mip.lookup_queue ≡ [])
    × (questions h.routing ≡ [])
    × (h.to_routing ≡ [])
    × (h.to_mip ≡ [])

Matched-weaken :
    (P Q : Table → Type 0) (h : Host) → ((t : Table) → P t → Q t) → Matched P h → Matched Q h
Matched-weaken P Q h f (ready, answered, order, answers) =
    (ready, answered, order, Answers-weaken P Q answered h.to_mip f answers)

Held-last :
    {htons : ℕ → ℕ} {h k : Host} (r : Run htons h k) → Held r k.routing.distance_vector_table
unfolding Held
Held-last here = refl
Held-last (next r s) = inl refl

Run-Matched : {htons : ℕ → ℕ} {h k : Host} (r : Run htons h k) → IsStart h → Matched (Held r) k
unfolding Held
Run-Matched {h = h} here (ready, none_waits, none_asks, to, from) = (ready, [], grind arith, from)
Run-Matched {htons = htons} (next {k = k} {l = l} r s) v =
    Matched-weaken (Held r) (Held (next r s)) l (λ t. inr)
      (Step-Matched (Held r) htons k l s (Held-last r) (Run-Matched r v))

-- Take the two daemons of a host from a start with nothing asked, in whatever order their steps come
-- and whatever arrives. When an answer is there for the MIP daemon to read, a frame waits, and for
-- the frame at the front the answer is the route to its destination in a table that the routing
-- daemon has held since the start; the handler takes that frame from the queue and does not throw.
pub answer_for_front :
    {htons : ℕ → ℕ} {h k : Host} (r : Run htons h k) (hop : Option ℕ) (rest : List ℕ)
    → IsStart h
    → k.to_mip ≡ answer_bytes hop ++ rest
    → (entry : Bool × MipFrame) × (queue : List (Bool × MipFrame)) × (t : Table)
      × (k.mip.lookup_queue ≡ entry ∷ queue)
      × Held r t
      × (hop ≡ next_hop (find_to (get_mip_dest entry.1) t))
      × ((Handlers.receive_lookup_sock htons hop k.mip).0 ≡ ok tt)
      × ((on_answer htons hop rest k).mip.lookup_queue ≡ queue)
unfolding on_answer
answer_for_front {htons = htons} {k = k} r hop rest v e =
    let (entry, queue, t, waits, held, one, mips, behind, others) =
      Matched-front (Held r) hop rest k e (Run-Matched r v) in
    let taken = receive_lookup_sock-Taken htons hop entry queue k.mip waits in
    (entry, queue, t, waits, held, one, taken.0, taken.1)
