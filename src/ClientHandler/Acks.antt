-- ===== src/ClientHandler/Acks.antt =====
-- What an ack does to the window of src/ClientHandler.cpp, seen as the queue of frames in flight.
use miptp_cpp.Prelude.{
  ℕ, zero, suc, ◌+◌, ◌-◌, ◌%◌, ◌≤◌, ◌<◌, ◌≡◌, ◌⊎◌, inl, inr, refl, sym, ap, ◌∙◌, true, ◌||◌, List,
  ◌++◌, length, length-take, length-drop, take, drop, take-append, take-drop, drop_all, ◌↔◌, ltb,
  ltb→lt, ltb-false→le, ◌==◌, ==_iff, if◌then◌else◌, Bool-cases, arith,
}
use miptp_cpp.MiptpFrame.{MiptpFrame}
use miptp_cpp.ClientHandler.{
  ClientHandler, window_size, sequence_size, queue_frames, queue_window, move_window,
  seq_inside_window, calc_moves, rotate,
}
use miptp_cpp.ClientHandler.Receive.{receive_sack}
use miptp_cpp.ClientHandler.Slots.{IsClient}
use miptp_cpp.ClientHandler.Window.{distance, seq_inside_window_lem}

-- The frames that have been loaded and not acknowledged, in order.
abbrev pub in_flight : ClientHandler → List MiptpFrame
in_flight c = take c.m_used_slots c.m_frame_window

-- The first `u` slots but the first `m` of them, before and after a rotation by `m`.
take-rotate :
    {A : Type 0} (u m : ℕ) (xs : List A)
    → m < u
    → u ≤ length xs
    → take (u - m) (rotate m xs) ≡ drop m (take u xs)
take-rotate u m xs h k =
    take-append (u - m) (drop m xs) (take m xs) (omega (arith, length-drop m xs))
    ∙ take-drop (u - m) m xs
    ∙ ap (λ n. drop m (take n xs)) (omega arith)

ltb-suc : (n : ℕ) → ltb 0 (suc n) ≡ true
ltb-suc n = ground arith

-- Rotating the slots takes the first frames off the queue.
in_flight-move_window :
    (moves : ℕ) (c : ClientHandler)
    → IsClient c
    → in_flight (move_window moves c) ≡ drop moves (in_flight c)
unfolding move_window
in_flight-move_window zero c v = refl
in_flight-move_window (suc moves) c v = elim (Bool-cases (ltb (suc moves) c.m_used_slots)) [
  | inl some_left ↦
      rw (ltb-suc moves, some_left)
        (take-rotate c.m_used_slots (suc moves) c.m_frame_window (ltb→lt _ _ some_left) v.frames)
  | inr all_acked ↦
      rw (ltb-suc moves, all_acked)
        (sym (
          drop_all (suc moves) (in_flight c) (
            omega
              (arith, length-take c.m_used_slots c.m_frame_window, ltb-false→le _ _ all_acked))))
]

move_window_rest :
    (moves : ℕ) (c : ClientHandler)
    → IsClient c
    → ((move_window moves c).m_sequence_base ≡ (c.m_sequence_base + moves) % sequence_size)
      × ((move_window moves c).m_out_queue ≡ c.m_out_queue)
      × ((move_window moves c).m_dest_address ≡ c.m_dest_address)
unfolding move_window
move_window_rest zero c v = (omega (arith, v.base), refl, refl)
move_window_rest (suc moves) c v = rw (ltb-suc moves) (refl, refl, refl)

-- The numbers that `receive_sack` takes are those up to a window ahead of the base.
ack_accepted :
    (c : ClientHandler) (seq : ℕ)
    → IsClient c
    → seq < sequence_size
    → ((seq_inside_window seq c || (seq == (c.m_sequence_base + window_size) % sequence_size))
        ≡ true)
      ↔ (distance c.m_sequence_base seq ≤ window_size)
unfolding seq_inside_window
ack_accepted c seq v h = ground (arith, v.base)

-- The client after an ack that is taken, before it sends again.
abbrev acked : ℕ → ClientHandler → ClientHandler
acked seq c = if seq == c.m_sequence_base then c else move_window (calc_moves seq c) c

acked_lem :
    (c : ClientHandler) (seq : ℕ)
    → IsClient c
    → seq < sequence_size
    → (in_flight (acked seq c) ≡ drop (distance c.m_sequence_base seq) (in_flight c))
      × ((acked seq c).m_sequence_base ≡ seq)
      × ((acked seq c).m_out_queue ≡ c.m_out_queue)
      × ((acked seq c).m_dest_address ≡ c.m_dest_address)
acked_lem c seq v h = elim (Bool-cases (seq == c.m_sequence_base)) [
  | inl at_base ↦
      let e = (==_iff seq c.m_sequence_base).0 at_base in
      let none_acked : 0 ≡ distance c.m_sequence_base seq = omega (arith, v.base, e) in
      rw at_base (ap (λ n. drop n (in_flight c)) none_acked, sym e, refl, refl)
  | inr ahead ↦
      let moves = (seq_inside_window_lem c seq v.base h).1 in
      let rest = move_window_rest (calc_moves seq c) c v in
      rw ahead (
        in_flight-move_window (calc_moves seq c) c v ∙ ap (λ n. drop n (in_flight c)) moves,
        rest.0 ∙ omega (arith, moves, v.base),
        rest.1,
        rest.2,
      )
]

-- For a client with its slots in order, an ack in the sequence space that is at most a window ahead
-- of the base takes exactly the frames before it off the queue of frames in flight, becomes the base,
-- and sends the rest of them again, in order, after what was queued; any other changes nothing.
pub receive_sack_lem :
    (c : ClientHandler) (seq : ℕ)
    → IsClient c
    → seq < sequence_size
    → ((distance c.m_sequence_base seq ≤ window_size)
        × (in_flight (receive_sack seq c) ≡ drop (distance c.m_sequence_base seq) (in_flight c))
        × ((receive_sack seq c).m_sequence_base ≡ seq)
        × ((receive_sack seq c).m_out_queue
            ≡ c.m_out_queue ++ queue_frames c.m_dest_address (in_flight (receive_sack seq c))))
      ⊎ ((window_size < distance c.m_sequence_base seq) × (receive_sack seq c ≡ c))
unfolding receive_sack queue_window
receive_sack_lem c seq v h =
    elim (Bool-cases
      (seq_inside_window seq c || (seq == (c.m_sequence_base + window_size) % sequence_size))) [
        | inl taken ↦
            let r = acked_lem c seq v h in
            inl (
              (ack_accepted c seq v h).0 taken,
              rw taken r.0,
              rw taken r.1,
              rw taken (
                  ap (λ q. q ++ queue_frames (acked seq c).m_dest_address (in_flight (acked seq c)))
                    r.2
                  ∙ ap (λ a. c.m_out_queue ++ queue_frames a (in_flight (acked seq c))) r.3),
            )
        | inr dropped ↦ inr (ground (arith, ack_accepted c seq v h), rw dropped refl)
      ]
