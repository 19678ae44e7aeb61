-- ===== src/ClientHandler/Slots/Load.antt =====
-- `loadFrames` of src/ClientHandler.cpp keeps the slots in order.
use miptp_cpp.Prelude.{
  ℕ, zero, suc, ◌+◌, ◌%◌, ◌<◌, ◌≡◌, refl, Option, none, some, List, [], ◌∷◌, length, length-set,
  set, get_elem?, ltb, ltb→lt, ◌==◌, Bool-cases, inl, inr, arith,
}
use miptp_cpp.Outcome.{
  ok, throw, Outcome, M, continue, after, would_block, broken_pipe, timeout, interrupted, error,
  assertion,
}
use miptp_cpp.MiptpFrame.{MiptpFrame, set_msg_size, get_msg_size, frame_max_msg_size}
use miptp_cpp.CrossIpc.{AnonymousSocket, read, is_closed}
use miptp_cpp.ClientHandler.{
  ClientHandler, stage_failure, fill_frame, window_size, sequence_size, sock_read,
}
use miptp_cpp.ClientHandler.Handlers.{load_slot, load_frame, load_loop, catching_load, load_frames}
use miptp_cpp.ClientHandler.Slots.{IsClient, Keeps, continue-IsClient, set_stage-IsClient}

pub get_elem?-lt :
    {A : Type 0} (xs : List A) (i : ℕ) (a : A) → get_elem? xs i ≡ some a → i < length xs
get_elem?-lt [] i a e = ground arith
get_elem?-lt (x ∷ xs) zero a e = omega arith
get_elem?-lt (x ∷ xs) (suc i) a e = omega (arith, get_elem?-lt xs i a e)

load_slot-Keeps :
    (o : Option MiptpFrame) (c : ClientHandler)
    → IsClient c
    → c.m_used_slots < window_size
    → get_elem? c.m_frame_window c.m_used_slots ≡ o
    → IsClient (after (load_slot o c))
unfolding load_slot sock_read
load_slot-Keeps none c v room e = v
load_slot-Keeps (some frame) c v room e = go (read _ c.m_sock).0 (read _ c.m_sock).1
  where
    widened : MiptpFrame
    widened = set_msg_size frame_max_msg_size frame

    store : List ℕ → M ClientHandler Unit
    store bytes d =
        let filled =
          fill_frame bytes c.m_dest_port c.m_source_port
            ((c.m_sequence_base + c.m_used_slots) % sequence_size) widened in
        (
          ok tt,
          record d {
            m_frame_window = set d.m_frame_window c.m_used_slots filled;
            m_used_slots = c.m_used_slots + 1;
            m_total_data_loaded = d.m_total_data_loaded + get_msg_size filled;
          },
        )

    go :
        (r : Outcome (List ℕ)) (s : AnonymousSocket)
        → IsClient (
            after (
              continue store (
                r,
                record c {
                  m_frame_window = set c.m_frame_window c.m_used_slots widened;
                  m_sock = s;
                },
              )))
    go (ok bytes) s = record {
      window = omega arith;
      frames = omega (
        arith,
        get_elem?-lt c.m_frame_window c.m_used_slots frame e,
        length-set c.m_frame_window c.m_used_slots widened,
        length-set (set c.m_frame_window c.m_used_slots widened) c.m_used_slots (
            fill_frame bytes c.m_dest_port c.m_source_port
              ((c.m_sequence_base + c.m_used_slots) % sequence_size) widened),
      );
      base = v.base;
      ack = v.ack;
    }
    go (throw x) s = record {
      window = v.window;
      frames = omega (arith, v.frames, length-set c.m_frame_window c.m_used_slots widened);
      base = v.base;
      ack = v.ack;
    }

load_loop-Keeps : (fuel : ℕ) → Keeps (load_loop fuel)
unfolding load_loop load_frame
load_loop-Keeps zero c v = v
load_loop-Keeps (suc fuel) c v = elim (Bool-cases (ltb c.m_used_slots window_size)) [
  | inl room ↦
      rw (room, load_loop)
        (continue-IsClient _ _
          (load_slot-Keeps (get_elem? c.m_frame_window c.m_used_slots) c v (ltb→lt _ _ room) refl)
          (λ _. load_loop-Keeps fuel))
  | inr full ↦ rw (full, load_loop) v
]

catching_load-IsClient :
    (r : Outcome Unit × ClientHandler) → IsClient (after r) → IsClient (after (catching_load r))
unfolding catching_load
catching_load-IsClient (ok _, c) v = v
catching_load-IsClient (throw would_block, c) v = v
catching_load-IsClient (throw broken_pipe, c) v = elim (Bool-cases (c.m_used_slots == 0)) [
  | inl none_used ↦ rw none_used (set_stage-IsClient stage_failure c v)
  | inr some_used ↦ rw some_used v
]
catching_load-IsClient (throw timeout, c) v = v
catching_load-IsClient (throw interrupted, c) v = v
catching_load-IsClient (throw error, c) v = v
catching_load-IsClient (throw assertion, c) v = v

pub load_frames-Keeps : Keeps load_frames
unfolding load_frames
load_frames-Keeps c v = elim (Bool-cases (is_closed c.m_sock)) [
  | inl closed ↦ rw closed v
  | inr up ↦ rw up (catching_load-IsClient _ (load_loop-Keeps window_size c v))
]
