-- ===== src/Host/Answers.antt =====
-- The bytes in which src/routing_deamon.cpp answers what src/MIP_deamon.cpp has asked.
use miptp_cpp.Prelude.{
  ℕ, ◌≡◌, refl, sym, ap, subst, ◌∙◌, Option, none, some, List, [], ◌∷◌, ◌++◌, append-nil,
  append_assoc, arith,
}
use miptp_cpp.DistanceVectorTable.{Column, Table, find_to}
use miptp_cpp.RoutingDeamon.Threads.{lookup_reply}
use miptp_cpp.Host.{answer_bytes}

abbrev pub next_hop : Option Column → Option ℕ
next_hop none = none
next_hop (some column) = some column.via

pub lookup_reply_lem : (c : Option Column) → lookup_reply c ≡ answer_bytes (next_hop c)
unfolding lookup_reply answer_bytes
lookup_reply_lem none = refl
lookup_reply_lem (some column) = refl

answer_bytes-split :
    (a b : Option ℕ) (xs ys : List ℕ)
    → answer_bytes a ++ xs ≡ answer_bytes b ++ ys
    → (a ≡ b) × (xs ≡ ys)
unfolding answer_bytes
answer_bytes-split none none xs ys h = grind arith
answer_bytes-split none (some w) xs ys h = absurd (grind arith)
answer_bytes-split (some v) none xs ys h = absurd (grind arith)
answer_bytes-split (some v) (some w) xs ys h = grind arith

-- The answers to some questions, each from a table with the property.
abbrev pub Answers : (Table → Type 0) → List ℕ → List ℕ → Type 0
Answers P [] bytes = bytes ≡ []
Answers P (mip ∷ mips) bytes =
    (t : Table) × P t
    × (rest : List ℕ) × (bytes ≡ answer_bytes (next_hop (find_to mip t)) ++ rest)
    × Answers P mips rest

pub Answers-weaken :
    (P Q : Table → Type 0) (mips bytes : List ℕ)
    → ((t : Table) → P t → Q t)
    → Answers P mips bytes
    → Answers Q mips bytes
Answers-weaken P Q [] bytes f v = v
Answers-weaken P Q (mip ∷ mips) bytes f (t, p, rest, e, v) =
    (t, f t p, rest, e, Answers-weaken P Q mips rest f v)

pub Answers-last :
    (P : Table → Type 0) (mips bytes : List ℕ) (mip : ℕ) (t : Table)
    → P t
    → Answers P mips bytes
    → Answers P (mips ++ mip ∷ []) (bytes ++ answer_bytes (next_hop (find_to mip t)))
Answers-last P [] bytes mip t p v = (
  t,
  p,
  [],
  ap (λ l. l ++ answer_bytes (next_hop (find_to mip t))) v
      ∙ sym (append-nil (answer_bytes (next_hop (find_to mip t)))),
  refl,
)
Answers-last P (m ∷ mips) bytes mip t p (u, q, rest, e, v) =
    let last = answer_bytes (next_hop (find_to mip t)) in
    (
      u,
      q,
      rest ++ last,
      ap (λ l. l ++ last) e ∙ append_assoc (answer_bytes (next_hop (find_to m u))) rest last,
      Answers-last P mips rest mip t p v,
    )

-- An answer that comes first is the one to the first question.
pub Answers-front :
    (P : Table → Type 0) (answered bytes : List ℕ) (hop : Option ℕ) (rest : List ℕ)
    → bytes ≡ answer_bytes hop ++ rest
    → Answers P answered bytes
    → (mip : ℕ) × (mips : List ℕ) × (t : Table) × (answered ≡ mip ∷ mips)
      × P t
      × (hop ≡ next_hop (find_to mip t))
      × Answers P mips rest
unfolding answer_bytes
Answers-front P [] bytes none rest h v = absurd (grind arith)
Answers-front P [] bytes (some via) rest h v = absurd (grind arith)
Answers-front P (mip ∷ mips) bytes hop rest h (t, p, others, e, v) =
    let (one, same) = answer_bytes-split hop (next_hop (find_to mip t)) rest others (sym h ∙ e) in
    (mip, mips, t, refl, p, one, subst (Answers P mips) (sym same) v)
