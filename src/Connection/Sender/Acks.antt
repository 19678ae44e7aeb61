-- ===== src/Connection/Sender/Acks.antt =====
-- `receiveFrame` of src/ClientHandler.cpp at the sending end: acks, requests and replies.
use miptp_cpp.Prelude.{
  ℕ, zero, suc, ◌+◌, ◌-◌, ◌%◌, ◌≤◌, ◌≡◌, ◌⊎◌, inl, inr, refl, ap, sym, subst, ◌∙◌, true, false,
  ◌||◌, ◌&&◌, List, [], ◌∷◌, ◌++◌, All, All-append, take, drop, length, length-append, length-take,
  length-drop, ltb, ◌==◌, if◌then◌else◌, Bool-cases, arith,
}
use miptp_cpp.Outcome.{after}
use miptp_cpp.MiptpFrame.{MiptpFrame, get_type, get_source, get_sequence_number, sack}
use miptp_cpp.MiptpFrame.Words.{IsFrame}
use miptp_cpp.ClientHandler.{
  ClientHandler, stage_connected, stage_failure, window_size, sequence_size, queue_window,
  queue_frames, move_window, seq_inside_window, calc_moves,
}
use miptp_cpp.ClientHandler.Receive.{
  receive_sack, receive_by_type, receive_keepalive, receive_connected, receive_at, receive_frame,
}
use miptp_cpp.ClientHandler.Slots.{IsClient}
use miptp_cpp.ClientHandler.Slots.Frames.{receive_sack-IsClient}
use miptp_cpp.ClientHandler.Window.{distance}
use miptp_cpp.ClientHandler.Acks.{in_flight, receive_sack_lem}
use miptp_cpp.Connection.Data.{IsControl}
use miptp_cpp.Connection.Sender.{Sender, Sends, All-drop, Sender-resend}
use miptp_cpp.Connection.Sender.Moves.{Sender-acked}
use miptp_cpp.Connection.Sender.Handlers.{receive_keepalive-Sends}

All-take : {A : Type 0} (P : A → Type 0) (n : ℕ) (xs : List A) → All P xs → All P (take n xs)
All-take P zero xs h = tt
All-take P (suc n) [] h = tt
All-take P (suc n) (x ∷ xs) h = (h.0, All-take P n xs h.1)

-- What an ack leaves as it is.
abbrev pub Kept : ClientHandler → ClientHandler → Type 0
Kept c d =
    (d.m_sock ≡ c.m_sock)
    × (d.m_type ≡ c.m_type)
    × (d.m_stage ≡ c.m_stage)
    × (All IsFrame c.m_frame_window → All IsFrame d.m_frame_window)
    × (d.m_dest_address ≡ c.m_dest_address)
    × (d.m_dest_port ≡ c.m_dest_port)
    × (d.m_source_port ≡ c.m_source_port)
    × (length d.m_frame_window ≡ length c.m_frame_window)

same-Kept : (c : ClientHandler) → Kept c c
same-Kept c = (refl, refl, refl, λ h. h, refl, refl, refl, refl)

move_window-Kept : (moves : ℕ) (c : ClientHandler) → Kept c (move_window moves c)
unfolding move_window
move_window-Kept moves c = elim (Bool-cases (ltb 0 moves)) [
  | inl some_moves ↦ rw some_moves (
    refl,
    refl,
    refl,
    λ h.
        All-append IsFrame (drop moves c.m_frame_window) (take moves c.m_frame_window)
          (All-drop IsFrame moves c.m_frame_window h) (All-take IsFrame moves c.m_frame_window h),
    refl,
    refl,
    refl,
    omega (
      arith,
      length-append {0} (drop moves c.m_frame_window) (take moves c.m_frame_window),
      length-take moves c.m_frame_window,
      length-drop moves c.m_frame_window,
    ),
  )
  | inr no_moves ↦ rw no_moves (same-Kept c)
]

pub receive_sack-Kept : (seq : ℕ) (c : ClientHandler) → Kept c (receive_sack seq c)
unfolding receive_sack queue_window
receive_sack-Kept seq c =
    elim (Bool-cases
      (seq_inside_window seq c || (seq == (c.m_sequence_base + window_size) % sequence_size))) [
        | inl taken ↦ elim (Bool-cases (seq == c.m_sequence_base)) [
          | inl at_base ↦ rw (taken, at_base) (same-Kept c)
          | inr ahead ↦ rw (taken, ahead) (move_window-Kept (calc_moves seq c) c)
        ]
        | inr dropped ↦ rw dropped (same-Kept c)
      ]

module _ (stream received : List ℕ) (base waits : ℕ) where
  -- An ack that is not behind the base moves the base to it.
  receive_sack-Sends :
      (a : ℕ) (c : ClientHandler)
      → IsClient c
      → base ≤ a
      → a ≤ waits
      → Sends stream received base waits c
      → Sends stream received a waits (receive_sack (a % sequence_size) c)
  receive_sack-Sends a c i h k (v, (type, stage)) =
      elim (receive_sack_lem c (a % sequence_size) i (omega arith)) [
        | inl (near, flight, at, queue) ↦ moved near flight at queue
        | inr (far, same) ↦ absurd (omega (arith, far, v.sequence, v.got, v.loaded, v.few))
      ]
    where
      d : ClientHandler
      d = receive_sack (a % sequence_size) c

      kept : Kept c d
      kept = receive_sack-Kept (a % sequence_size) c

      e : IsClient d
      e = receive_sack-IsClient (a % sequence_size) c i

      stages :
          (c.m_stage ≡ stage_connected) ⊎ (c.m_stage ≡ stage_failure)
          → (d.m_stage ≡ stage_connected) ⊎ (d.m_stage ≡ stage_failure)
      stages (inl s) = inl (kept.2 ∙ s)
      stages (inr s) = inr (kept.2 ∙ s)

      moved :
          distance c.m_sequence_base (a % sequence_size) ≤ window_size
          → in_flight d ≡ drop (distance c.m_sequence_base (a % sequence_size)) (in_flight c)
          → d.m_sequence_base ≡ a % sequence_size
          → d.m_out_queue ≡ c.m_out_queue ++ queue_frames c.m_dest_address (in_flight d)
          → Sends stream received a waits d
      moved near flight at queue =
          let ahead : distance c.m_sequence_base (a % sequence_size) ≡ a - base =
            omega (arith, v.sequence, v.got, v.loaded, v.few) in
          let s =
            Sender-resend
              (Sender-acked a d.m_sequence_base d.m_used_slots d.m_frame_window c.m_out_queue v h k
                at e.window e.frames kept.7 (flight ∙ ap (λ n. drop n (in_flight c)) ahead)
                (kept.3 v.frames))
              c.m_dest_address in
          let t =
            subst
              (λ q.
                Sender c.m_source_port stream received a waits d.m_sequence_base d.m_used_slots
                  d.m_frame_window q c.m_sock.recvs)
              (sym queue) s in
          (
            subst
                (λ p.
                  Sender p stream received a waits d.m_sequence_base d.m_used_slots d.m_frame_window
                    d.m_out_queue d.m_sock.recvs)
                (sym kept.6)
                (subst
                  (λ r.
                    Sender c.m_source_port stream received a waits d.m_sequence_base d.m_used_slots
                      d.m_frame_window d.m_out_queue r)
                  (ap (λ k. k.recvs) (sym kept.0)) t),
            (kept.1 ∙ type, stages stage),
          )

-- A frame on the way back: control, or the ack of a number.
abbrev pub IsAck : ℕ → MiptpFrame → Type 0
IsAck a f = (get_type f ≡ sack) × (get_sequence_number 0 f ≡ a % sequence_size)

-- The base has moved, but not beyond a number.
abbrev pub Advanced : List ℕ → List ℕ → ℕ → ℕ → ℕ → ClientHandler → Type 0
Advanced stream received base waits most c =
    (b : ℕ) × (base ≤ b) × (b ≤ most) × Sends stream received b waits c

module _ (stream received : List ℕ) (base waits : ℕ) where
  by_type-ack :
      (a : ℕ) (f : MiptpFrame) (c : ClientHandler)
      → IsClient c
      → IsAck a f
      → base ≤ a
      → a ≤ waits
      → Sends stream received base waits c
      → Sends stream received a waits (receive_by_type c.m_type 0 f c)
  unfolding receive_by_type
  by_type-ack a f c i (kind, number) h k v =
      let is_sack : (get_type f == sack) ≡ true = ground (arith, kind) in
      let r = receive_sack-Sends stream received base waits a c i h k v in
      subst (λ t. Sends stream received a waits (receive_by_type t 0 f c)) (sym v.1.0)
        (subst
          (λ b.
            Sends stream received a waits
              (if b then receive_sack (get_sequence_number 0 f) c else c))
          (sym is_sack)
          (subst (λ n. Sends stream received a waits (receive_sack n c)) (sym number) r))

  by_type-control :
      (f : MiptpFrame) (c : ClientHandler)
      → IsControl f
      → Sends stream received base waits c
      → Sends stream received base waits (receive_by_type c.m_type 0 f c)
  unfolding receive_by_type
  by_type-control f c kind v =
      let no_sack : (get_type f == sack) ≡ false = ground (arith, kind) in
      subst (λ t. Sends stream received base waits (receive_by_type t 0 f c)) (sym v.1.0)
        (subst
          (λ b.
            Sends stream received base waits
              (if b then receive_sack (get_sequence_number 0 f) c else c))
          (sym no_sack) v)

  connected-Advanced :
      (most source : ℕ) (f : MiptpFrame) (c : ClientHandler)
      → base ≤ most
      → Sends stream received base waits c
      → Sends stream received most waits (receive_by_type c.m_type 0 f c)
      → Advanced stream received base waits most (receive_connected 0 source f c)
  unfolding receive_connected
  connected-Advanced most source f c h v w =
      elim (Bool-cases (source == c.m_dest_address && get_source f == c.m_dest_port)) [
        | inl ours ↦
            subst
              (λ b.
                Advanced stream received base waits most (
                  if b then receive_keepalive (get_type f) (receive_by_type c.m_type 0 f c) else c))
              (sym ours)
              (
                most,
                h,
                omega arith,
                receive_keepalive-Sends stream received most waits (get_type f)
                    (receive_by_type c.m_type 0 f c) w,
              )
        | inr foreign ↦
            subst
              (λ b.
                Advanced stream received base waits most (
                  if b then receive_keepalive (get_type f) (receive_by_type c.m_type 0 f c) else c))
              (sym foreign) (base, omega arith, h, v)
      ]

  frame-Advanced :
      (most source : ℕ) (f : MiptpFrame) (c : ClientHandler)
      → base ≤ most
      → Sends stream received base waits c
      → Sends stream received most waits (receive_by_type c.m_type 0 f c)
      → Advanced stream received base waits most (after (receive_frame 0 source f c))
  unfolding receive_frame receive_at
  frame-Advanced most source f c h (v, (type, inl stage)) w =
      subst (λ s. Advanced stream received base waits most (after (receive_at s 0 source f c)))
        (sym stage) (connected-Advanced most source f c h (v, (type, inl stage)) w)
  frame-Advanced most source f c h (v, (type, inr stage)) w =
      subst (λ s. Advanced stream received base waits most (after (receive_at s 0 source f c)))
        (sym stage) (base, omega arith, h, (v, (type, inr stage)))

  -- An ack of number `a`, at the base or ahead of it.
  pub receive_ack-Advanced :
      (a source : ℕ) (f : MiptpFrame) (c : ClientHandler)
      → IsClient c
      → IsAck a f
      → base ≤ a
      → a ≤ waits
      → Sends stream received base waits c
      → Advanced stream received base waits a (after (receive_frame 0 source f c))
  receive_ack-Advanced a source f c i is h k v =
      frame-Advanced a source f c h v (by_type-ack a f c i is h k v)

  -- A request or a reply.
  pub receive_control-Advanced :
      (source : ℕ) (f : MiptpFrame) (c : ClientHandler)
      → IsControl f
      → Sends stream received base waits c
      → Advanced stream received base waits base (after (receive_frame 0 source f c))
  receive_control-Advanced source f c is v =
      frame-Advanced base source f c (omega arith) v (by_type-control f c is v)
