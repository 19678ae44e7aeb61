-- ===== src/ClientHandler/Window.antt =====
-- The sequence arithmetic of the sliding window in src/ClientHandler.cpp.
use miptp_cpp.Prelude.{ℕ, ◌+◌, ◌-◌, ◌%◌, ◌<◌, ◌≡◌, ◌↔◌, true, arith}
use miptp_cpp.ClientHandler.{
  ClientHandler, window_size, sequence_size, seq_inside_window, calc_moves,
}

-- How far `seq` lies ahead of `base` in the circular sequence space.
abbrev pub distance : ℕ → ℕ → ℕ
distance base seq = (seq + sequence_size - base) % sequence_size

-- `seqInsideWindow` holds exactly of the sequence numbers less than a window ahead of the base, and
-- `calcMoves` is how far ahead they are, for a base and a number in the sequence space.
pub seq_inside_window_lem :
    (c : ClientHandler) (seq : ℕ)
    → c.m_sequence_base < sequence_size
    → seq < sequence_size
    → ((seq_inside_window seq c ≡ true) ↔ (distance c.m_sequence_base seq < window_size))
      × (calc_moves seq c ≡ distance c.m_sequence_base seq)
unfolding seq_inside_window calc_moves
seq_inside_window_lem c seq hb hs = ground arith
