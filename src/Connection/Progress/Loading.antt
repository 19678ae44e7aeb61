-- ===== src/Connection/Progress/Loading.antt =====
-- `loadFrames` of src/ClientHandler.cpp goes on through what its application has written.
use miptp_cpp.Prelude.{
  ℕ, zero, suc, ◌+◌, ◌-◌, ◌%◌, ◌≤◌, ◌<◌, ◌≡◌, refl, sym, subst, ◌∙◌, Bool, true, false, some, List,
  [], ◌∷◌, All, length, length-set, length-drop, set, drop, get_elem?, ltb, ltb→lt, if◌then◌else◌,
  Bool-cases, inl, inr, arith,
}
use miptp_cpp.Outcome.{
  ok, throw, Outcome, M, continue, after, would_block, broken_pipe, timeout, interrupted, error,
  assertion,
}
use miptp_cpp.MiptpFrame.{MiptpFrame, set_msg_size, get_msg_size, frame_max_msg_size}
use miptp_cpp.CrossIpc.{
  AnonymousSocket, Received, received, recv_failed, ewouldblock, eagain, other_errno, read,
  is_closed,
}
use miptp_cpp.ClientHandler.{
  ClientHandler, type_client, stage_connected, fill_frame, window_size, sequence_size, sock_read,
}
use miptp_cpp.ClientHandler.Handlers.{
  load_slot, load_frame, load_loop, catching_load, load_frames, handle_transfer, handle_sock_at,
  handle_sock,
}
use miptp_cpp.Connection.Pairing.{Ends}

-- A piece of what the application has written, or nothing for now; not the end, and no failure.
abbrev pub CanRead : Received → Type 0
CanRead (received []) = ⊥
CanRead (received (b ∷ bs)) = Unit
CanRead (recv_failed ewouldblock) = Unit
CanRead (recv_failed eagain) = Unit
CanRead (recv_failed other_errno) = ⊥

-- A bound on the reads that it takes: each read takes a byte, or finds nothing for now.
abbrev pub pending : List Received → ℕ
pending [] = 0
pending (received bs ∷ rs) = suc (length bs) + pending rs
pending (recv_failed e ∷ rs) = suc (pending rs)

abbrev pub Open : ℕ → AnonymousSocket → Type 0
Open most s = (s.m_closed ≡ false) × All CanRead s.recvs × (pending s.recvs ≤ most)

-- What the code leaves, where it returns or would block.
abbrev Settles : {S A : Type 0} → (S → Type 0) → Outcome A × S → Type 0
Settles P (ok _, s) = P s
Settles P (throw would_block, s) = P s
Settles P (throw _, s) = ⊥

nonempty-CanRead : (bs : List ℕ) → 0 < length bs → CanRead (received bs)
nonempty-CanRead [] h = absurd (omega arith)
nonempty-CanRead (b ∷ bs) h = tt

left_pending :
    (size : ℕ) (b : ℕ) (bs : List ℕ) (rs : List Received) (most : ℕ)
    → All CanRead rs
    → suc (length (b ∷ bs)) + pending rs ≤ most
    → All CanRead (if ltb (suc size) (length (b ∷ bs)) then received (drop size bs) ∷ rs else rs)
      × (pending (if ltb (suc size) (length (b ∷ bs)) then received (drop size bs) ∷ rs else rs)
          ≤ most - 1)
left_pending size b bs rs most h k = elim (Bool-cases (ltb (suc size) (length (b ∷ bs)))) [
  | inl more ↦ rw more (
    (nonempty-CanRead (drop size bs) (omega (arith, length-drop size bs, ltb→lt _ _ more)), h),
    omega (arith, length-drop size bs),
  )
  | inr whole ↦ rw whole (h, omega arith)
]

read-Open :
    (size most : ℕ) (rs : List Received) (s : AnonymousSocket)
    → Open most (record s { recvs = rs })
    → Settles (Open (most - 1)) (read (suc size) (record s { recvs = rs }))
unfolding read
read-Open size most [] s (c, h, k) = (c, h, omega arith)
read-Open size most (received [] ∷ rs) s (c, h, k) = absurd h.0
read-Open size most (received (b ∷ bs) ∷ rs) s (c, h, k) =
    let (rest, fewer) = left_pending size b bs rs most h.1 k in (c, rest, fewer)
read-Open size most (recv_failed ewouldblock ∷ rs) s (c, h, k) = (c, h.1, omega arith)
read-Open size most (recv_failed eagain ∷ rs) s (c, h, k) = (c, h.1, omega arith)
read-Open size most (recv_failed other_errno ∷ rs) s (c, h, k) = absurd h.0

get_elem?-some :
    {A : Type 0} (xs : List A) (i : ℕ) → i < length xs → (a : A) × (get_elem? xs i ≡ some a)
get_elem?-some [] i h = absurd (omega arith)
get_elem?-some (x ∷ xs) zero h = (x, refl)
get_elem?-some (x ∷ xs) (suc i) h = get_elem?-some xs i (omega arith)

-- A connected client whose application may go on writing.
pub record Loads (address peer port most : ℕ) (c : ClientHandler) : Type 0 where
  pub type : c.m_type ≡ type_client
  pub stage : c.m_stage ≡ stage_connected
  pub ends : Ends address peer port c
  pub reads : Open most c.m_sock
  pub whole : length c.m_frame_window ≡ window_size

module _ (address peer port : ℕ) where
  load_slot-Loads :
      (most : ℕ) (frame : MiptpFrame) (c : ClientHandler)
      → Loads address peer port most c
      → Settles (Loads address peer port (most - 1)) (load_slot (some frame) c)
  unfolding load_slot sock_read
  load_slot-Loads most frame c v =
      go (read frame_max_msg_size c.m_sock).0 (read frame_max_msg_size c.m_sock).1
        (read-Open 1489 most c.m_sock.recvs c.m_sock v.reads)
    where
      slot : ℕ
      slot = c.m_used_slots

      widened : MiptpFrame
      widened = set_msg_size frame_max_msg_size frame

      seq : ℕ
      seq = (c.m_sequence_base + slot) % sequence_size

      store : List ℕ → M ClientHandler Unit
      store bytes d =
          let filled = fill_frame bytes c.m_dest_port c.m_source_port seq widened in
          (
            ok tt,
            record d {
              m_frame_window = set d.m_frame_window slot filled;
              m_used_slots = slot + 1;
              m_total_data_loaded = d.m_total_data_loaded + get_msg_size filled;
            },
          )

      go :
          (r : Outcome (List ℕ)) (s : AnonymousSocket)
          → Settles (Open (most - 1)) (r, s)
          → Settles (Loads address peer port (most - 1)) (
              continue store
                (r, record c { m_frame_window = set c.m_frame_window slot widened; m_sock = s }))
      go (ok bytes) s w = record {
        type = v.type;
        stage = v.stage;
        ends = v.ends;
        reads = w;
        whole =
            length-set (set c.m_frame_window slot widened) slot
              (fill_frame bytes c.m_dest_port c.m_source_port seq widened)
            ∙ length-set c.m_frame_window slot widened
            ∙ v.whole;
      }
      go (throw would_block) s w = record {
        type = v.type;
        stage = v.stage;
        ends = v.ends;
        reads = w;
        whole = length-set c.m_frame_window slot widened ∙ v.whole;
      }
      go (throw broken_pipe) s w = absurd w
      go (throw timeout) s w = absurd w
      go (throw interrupted) s w = absurd w
      go (throw error) s w = absurd w
      go (throw assertion) s w = absurd w

  load_frame-Loads :
      (most : ℕ) (c : ClientHandler)
      → Loads address peer port most c
      → ltb c.m_used_slots window_size ≡ true
      → Settles (Loads address peer port (most - 1)) (load_frame c)
  unfolding load_frame
  load_frame-Loads most c v room =
      let (frame, here) =
        get_elem?-some c.m_frame_window c.m_used_slots (omega (arith, ltb→lt _ _ room, v.whole)) in
      rw here (load_slot-Loads most frame c v)

  Settles-continue :
      (P Q : ClientHandler → Type 0) (k : Unit {0} → M ClientHandler (Unit {0}))
      (r : Outcome (Unit {0}) × ClientHandler)
      → Settles P r
      → ((c : ClientHandler) → P c → Q c)
      → ((c : ClientHandler) → P c → Settles Q (k tt c))
      → Settles Q (continue k r)
  Settles-continue P Q k (ok _, c) v weak step = step c v
  Settles-continue P Q k (throw would_block, c) v weak step = weak c v
  Settles-continue P Q k (throw broken_pipe, c) v weak step = absurd v
  Settles-continue P Q k (throw timeout, c) v weak step = absurd v
  Settles-continue P Q k (throw interrupted, c) v weak step = absurd v
  Settles-continue P Q k (throw error, c) v weak step = absurd v
  Settles-continue P Q k (throw assertion, c) v weak step = absurd v

  fewer-Loads :
      (most : ℕ) (c : ClientHandler)
      → Loads address peer port (most - 1) c
      → Loads address peer port most c
  fewer-Loads most c v = record {
    type = v.type;
    stage = v.stage;
    ends = v.ends;
    reads = (v.reads.0, v.reads.1, omega (arith, v.reads.2));
    whole = v.whole;
  }

  load_loop-Loads :
      (fuel most : ℕ) (c : ClientHandler)
      → Loads address peer port most c
      → Settles (Loads address peer port most) (load_loop fuel c)
  unfolding load_loop
  load_loop-Loads zero most c v = v
  load_loop-Loads (suc fuel) most c v = elim (Bool-cases (ltb c.m_used_slots window_size)) [
    | inl room ↦
        rw (room, load_loop)
          (Settles-continue (Loads address peer port (most - 1)) (Loads address peer port most) _
            (load_frame c) (load_frame-Loads most c v room) (fewer-Loads most)
            (λ d w. load_loop-Loads fuel most d (fewer-Loads most d w)))
    | inr full ↦ rw (full, load_loop) v
  ]

  is_open :
      (most : ℕ) (c : ClientHandler) → Loads address peer port most c → is_closed c.m_sock ≡ false
  unfolding is_closed
  is_open most c v = v.reads.0

  first_load :
      (most : ℕ) (c : ClientHandler)
      → Loads address peer port most c
      → ltb c.m_used_slots window_size ≡ true
      → Settles (Loads address peer port (most - 1)) (load_loop window_size c)
  unfolding load_loop
  first_load most c v room =
      rw (room, load_loop)
        (Settles-continue (Loads address peer port (most - 1)) (Loads address peer port (most - 1))
          _ (load_frame c) (load_frame-Loads most c v room) (λ d w. w)
          (load_loop-Loads 9 (most - 1)))

  -- With room in the window a read at least is made.
  pub handle_sock-Loads :
      (is_port_free : ℕ → Bool) (free_port most : ℕ) (c : ClientHandler)
      → Loads address peer port most c
      → c.m_used_slots < window_size
      → Loads address peer port (most - 1) (after (handle_sock is_port_free free_port c))
  unfolding handle_sock handle_sock_at handle_transfer load_frames
  handle_sock-Loads is_port_free free_port most c v few =
      let room : ltb c.m_used_slots window_size ≡ true = ground (arith, few) in
      subst
        (λ s.
          Loads address peer port (most - 1) (after (handle_sock_at s is_port_free free_port c)))
        (sym v.stage)
        (subst (λ t. Loads address peer port (most - 1) (after (handle_transfer t c))) (sym v.type)
          (rw (is_open most c v) (settled (load_loop window_size c) (first_load most c v room))))
    where
      settled :
          (r : Outcome Unit × ClientHandler)
          → Settles (Loads address peer port (most - 1)) r
          → Loads address peer port (most - 1) (after (catching_load r))
      settled (ok _, d) w = w
      settled (throw would_block, d) w = w
      settled (throw broken_pipe, d) w = absurd w
      settled (throw timeout, d) w = absurd w
      settled (throw interrupted, d) w = absurd w
      settled (throw error, d) w = absurd w
      settled (throw assertion, d) w = absurd w
