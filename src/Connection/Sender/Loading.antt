-- ===== src/Connection/Sender/Loading.antt =====
-- `loadFrames` of src/ClientHandler.cpp takes the next bytes of the application, frame by frame.
use miptp_cpp.Prelude.{
  ℕ, zero, suc, ◌+◌, ◌%◌, ◌<◌, ◌≡◌, refl, sym, subst, Option, none, some, List, [], ◌∷◌, All,
  length-set, set, get_elem?, ltb, ltb→lt, ◌==◌, Bool-cases, inl, inr, arith,
}
use miptp_cpp.Outcome.{
  ok, throw, Outcome, M, continue, continue-after, after, would_block, broken_pipe, timeout,
  interrupted, error, assertion,
}
use miptp_cpp.MiptpFrame.{MiptpFrame, set_msg_size, get_msg_size, frame_max_msg_size}
use miptp_cpp.MiptpFrame.Words.{IsFrame}
use miptp_cpp.MiptpFrame.Message.{set_msg_size-IsFrame}
use miptp_cpp.CrossIpc.{AnonymousSocket, read, is_closed}
use miptp_cpp.ClientHandler.{
  ClientHandler, stage_failure, fill_frame, window_size, sequence_size, sock_read, set_stage,
}
use miptp_cpp.ClientHandler.Handlers.{load_slot, load_frame, load_loop, catching_load, load_frames}
use miptp_cpp.ClientHandler.Slots.Load.{get_elem?-lt}
use miptp_cpp.Connection.Fill.{fill_frame-IsFilled, get_source-fill_frame}
use miptp_cpp.Connection.Unread.{unread, ReadNext, read-ReadNext}
use miptp_cpp.Connection.Sender.{Sends, Sender-load, Sender-slot, All-append_left}

All-get :
    {A : Type 0} (P : A → Type 0) (xs : List A) (i : ℕ) (a : A)
    → All P xs
    → get_elem? xs i ≡ some a
    → P a
All-get P [] i a h e = cc
All-get P (x ∷ xs) zero a h e = subst P (let same : x ≡ a = cc in same) h.0
All-get P (x ∷ xs) (suc i) a h e = All-get P xs i a h.1 e

module _ (stream received : List ℕ) (base waits : ℕ) where
  load_slot-Sends :
      (o : Option MiptpFrame) (c : ClientHandler)
      → Sends stream received base waits c
      → c.m_used_slots < window_size
      → get_elem? c.m_frame_window c.m_used_slots ≡ o
      → Sends stream received base waits (after (load_slot o c))
  unfolding load_slot sock_read
  load_slot-Sends none c v room e = v
  load_slot-Sends (some frame) c (v, side) room e =
      go (read frame_max_msg_size c.m_sock).0 (read frame_max_msg_size c.m_sock).1
        (read-ReadNext 1489 c.m_sock.recvs c.m_sock)
    where
      v-frame : IsFrame frame
      v-frame = All-get IsFrame c.m_frame_window c.m_used_slots frame v.frames e

      widened : MiptpFrame
      widened = set_msg_size frame_max_msg_size frame

      seq : ℕ
      seq = (c.m_sequence_base + c.m_used_slots) % sequence_size

      store : List ℕ → M ClientHandler Unit
      store bytes d =
          let filled = fill_frame bytes c.m_dest_port c.m_source_port seq widened in
          (
            ok tt,
            record d {
              m_frame_window = set d.m_frame_window c.m_used_slots filled;
              m_used_slots = c.m_used_slots + 1;
              m_total_data_loaded = d.m_total_data_loaded + get_msg_size filled;
            },
          )

      go :
          (r : Outcome (List ℕ)) (s : AnonymousSocket)
          → ReadNext frame_max_msg_size (unread c.m_sock.recvs) (r, s)
          → Sends stream received base waits (
              after (
                continue store (
                  r,
                  record c {
                    m_frame_window = set c.m_frame_window c.m_used_slots widened;
                    m_sock = s;
                  },
                )))
      go (ok bytes) s (next, few) =
          let read_bytes =
            All-append_left (λ b. b < 256) bytes (unread s.recvs)
              (subst (All (λ b. b < 256)) (sym next) v.bytes) in
          (
            Sender-load
                (Sender-slot v widened c.m_sock.recvs
                  (set_msg_size-IsFrame frame_max_msg_size frame v-frame) refl)
                bytes (fill_frame bytes c.m_dest_port c.m_source_port seq widened) s.recvs room
                (omega (
                  arith,
                  get_elem?-lt c.m_frame_window c.m_used_slots frame e,
                  length-set c.m_frame_window c.m_used_slots widened,
                ))
                (fill_frame-IsFilled bytes c.m_dest_port c.m_source_port seq frame v-frame
                  read_bytes few (omega arith))
                (get_source-fill_frame bytes c.m_dest_port c.m_source_port seq frame v-frame
                  read_bytes)
                next,
            side,
          )
      go (throw x) s same = (
        Sender-slot v widened s.recvs (set_msg_size-IsFrame frame_max_msg_size frame v-frame) same,
        side,
      )

  load_loop-Sends :
      (fuel : ℕ) (c : ClientHandler)
      → Sends stream received base waits c
      → Sends stream received base waits (after (load_loop fuel c))
  unfolding load_loop load_frame
  load_loop-Sends zero c v = v
  load_loop-Sends (suc fuel) c v = elim (Bool-cases (ltb c.m_used_slots window_size)) [
    | inl room ↦
        rw (room, load_loop)
          (continue-after (Sends stream received base waits) _ (load_frame c)
            (load_slot-Sends (get_elem? c.m_frame_window c.m_used_slots) c v (ltb→lt _ _ room) refl)
            (λ _. load_loop-Sends fuel))
    | inr full ↦ rw (full, load_loop) v
  ]

  pub failed-Sends :
      (c : ClientHandler)
      → Sends stream received base waits c
      → Sends stream received base waits (set_stage stage_failure c)
  unfolding set_stage
  failed-Sends c (v, (type, stage)) = (v, (type, inr refl))

  catching_load-Sends :
      (r : Outcome Unit × ClientHandler)
      → Sends stream received base waits (after r)
      → Sends stream received base waits (after (catching_load r))
  unfolding catching_load
  catching_load-Sends (ok _, c) v = v
  catching_load-Sends (throw would_block, c) v = v
  catching_load-Sends (throw broken_pipe, c) v = elim (Bool-cases (c.m_used_slots == 0)) [
    | inl none_used ↦ rw none_used (failed-Sends c v)
    | inr some_used ↦ rw some_used v
  ]
  catching_load-Sends (throw timeout, c) v = v
  catching_load-Sends (throw interrupted, c) v = v
  catching_load-Sends (throw error, c) v = v
  catching_load-Sends (throw assertion, c) v = v

  pub load_frames-Sends :
      (c : ClientHandler)
      → Sends stream received base waits c
      → Sends stream received base waits (after (load_frames c))
  unfolding load_frames
  load_frames-Sends c v = elim (Bool-cases (is_closed c.m_sock)) [
    | inl closed ↦ rw closed v
    | inr up ↦ rw up (catching_load-Sends _ (load_loop-Sends window_size c v))
  ]
