-- ===== src/Connection/Pairing.antt =====
-- The addresses and the ports of the two ends of a connection, which no handler of
-- src/ClientHandler.cpp changes once the connection has been made.
use miptp_cpp.Prelude.{ℕ, ◌≡◌, ◌⊎◌, inl, inr, sym, subst, Bool}
use miptp_cpp.Outcome.{continue-after, after}
use miptp_cpp.MiptpFrame.{MiptpFrame}
use miptp_cpp.ClientHandler.{ClientHandler, ClientType, stage_connected, stage_failure}
use miptp_cpp.ClientHandler.Handlers.{handle_sock_at, handle_sock}
use miptp_cpp.ClientHandler.Receive.{timer_at, handle_timer, receive_at, receive_frame}
use miptp_cpp.ClientHandler.Addresses.{
  Addressed, handle_transfer-Addressed, timer_traffic-Addressed, check_connection-Addressed,
  receive_connected-Addressed,
}
use miptp_cpp.Connection.Sender.{IsOpen}
use miptp_cpp.ClientHandler.Addresses.{arm_timer-keeps}

-- The peer's address and port, and the own port.
abbrev Is : ℕ → ℕ → ℕ → ℕ → ℕ → ℕ → Type 0
Is address peer port a q p = (a ≡ address) × (q ≡ peer) × (p ≡ port)

abbrev pub Ends : ℕ → ℕ → ℕ → ClientHandler → Type 0
Ends address peer port = Addressed (Is address peer port)

module _ (address peer port : ℕ) (type : ClientType) (c : ClientHandler) (open_ : IsOpen type c)
    (v : Ends address peer port c) where
  pub handle_sock-Ends :
      (is_port_free : ℕ → Bool) (free_port : ℕ)
      → Ends address peer port (after (handle_sock is_port_free free_port c))
  unfolding handle_sock handle_sock_at
  handle_sock-Ends is_port_free free_port = go open_.1
    where
      go :
          (c.m_stage ≡ stage_connected) ⊎ (c.m_stage ≡ stage_failure)
          → Ends address peer port (after (handle_sock_at c.m_stage is_port_free free_port c))
      go (inl stage) =
          subst (λ s. Ends address peer port (after (handle_sock_at s is_port_free free_port c)))
            (sym stage) (handle_transfer-Addressed (Is address peer port) c.m_type c v)
      go (inr stage) =
          subst (λ s. Ends address peer port (after (handle_sock_at s is_port_free free_port c)))
            (sym stage) v

  pub handle_timer-Ends :
      (is_port_free : ℕ → Bool) (free_port : ℕ)
      → Ends address peer port (after (handle_timer is_port_free free_port c))
  unfolding handle_timer timer_at
  handle_timer-Ends is_port_free free_port =
      continue-after (Ends address peer port) _ (timer_at c.m_stage is_port_free free_port c)
        (go open_.1) (λ _ d w. arm_timer-keeps (Ends address peer port) (λ e t u. u) d w)
    where
      go :
          (c.m_stage ≡ stage_connected) ⊎ (c.m_stage ≡ stage_failure)
          → Ends address peer port (after (timer_at c.m_stage is_port_free free_port c))
      go (inl stage) =
          subst (λ s. Ends address peer port (after (timer_at s is_port_free free_port c)))
            (sym stage)
            (continue-after (Ends address peer port) _ _
              (continue-after (Ends address peer port) _ (handle_sock is_port_free free_port c)
                (handle_sock-Ends is_port_free free_port)
                (λ _ d. timer_traffic-Addressed (Is address peer port) d.m_type d))
              (λ _. check_connection-Addressed (Is address peer port)))
      go (inr stage) =
          subst (λ s. Ends address peer port (after (timer_at s is_port_free free_port c)))
            (sym stage) v

  pub receive_frame-Ends :
      (source : ℕ) (f : MiptpFrame) → Ends address peer port (after (receive_frame 0 source f c))
  unfolding receive_frame receive_at
  receive_frame-Ends source f = go open_.1
    where
      go :
          (c.m_stage ≡ stage_connected) ⊎ (c.m_stage ≡ stage_failure)
          → Ends address peer port (after (receive_at c.m_stage 0 source f c))
      go (inl stage) =
          subst (λ s. Ends address peer port (after (receive_at s 0 source f c))) (sym stage)
            (receive_connected-Addressed (Is address peer port) 0 source f c v)
      go (inr stage) =
          subst (λ s. Ends address peer port (after (receive_at s 0 source f c))) (sym stage) v
