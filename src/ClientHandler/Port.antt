-- ===== src/ClientHandler/Port.antt =====
-- The port that a client of src/ClientHandler.cpp gets: only its application's request sets it.
use miptp_cpp.Prelude.{
  ℕ, ◌≡◌, ◌⊎◌, inl, inr, Bool, true, false, [], ◌∷◌, ltb, ◌==◌, if◌then◌else◌, Bool-cases,
}
use miptp_cpp.Outcome.{
  ok, throw, Outcome, continue-after, after, would_block, broken_pipe, timeout, interrupted, error,
  assertion,
}
use miptp_cpp.MiptpFrame.{MiptpFrame, get_type, request, reply}
use miptp_cpp.ClientHandler.{
  ClientHandler, ClientType, type_null, type_client, type_server, ConnectStage, stage_application,
  stage_listen, stage_wait_reply, stage_connected, stage_failure, send_control, emplace, sock_read,
  sock_write, set_stage, arm_timer,
}
use miptp_cpp.ClientHandler.Addresses.{
  Addressed, arm_timer-keeps, catching_pipe-Addressed, handle_transfer-Addressed,
  timer_traffic-Addressed, check_connection-Addressed, receive_connected-Addressed,
}
use miptp_cpp.ClientHandler.Handlers.{
  is_type_null, read_request, refuse_port, take_port, listen_request, read_dest_address,
  read_dest_port, request_connection, connect_request, application_request, handle_application,
  handle_sock_at, handle_sock,
}
use miptp_cpp.ClientHandler.Receive.{
  timer_at, handle_timer, catching_reply, reply_application, server_connected, receive_listen,
  client_connected, receive_wait_reply, receive_at, receive_frame,
}

-- A port a client may have after a handler: the one that it had, or none, or a free one.
abbrev pub MayHave : (ℕ → Bool) → ℕ → ℕ → Type 0
MayHave is_port_free old port = (port ≡ old) ⊎ (port ≡ 0) ⊎ (is_port_free port ≡ true)

module _ (is_port_free : ℕ → Bool) (old : ℕ) where
  abbrev Held : ClientHandler → Type 0
  Held = Addressed (λ _ _ port. MayHave is_port_free old port)

  take_port-Held :
      (port : ℕ) (c : ClientHandler) → Held c → Held (after (take_port is_port_free port c))
  unfolding take_port refuse_port set_stage sock_write
  take_port-Held port c v = elim (Bool-cases (is_port_free port)) [
    | inl free ↦ rw free (inr (inr free))
    | inr used ↦ rw used (continue-after Held _ _ v (λ _ d w. w))
  ]

  listen_request-Held : (c : ClientHandler) → Held c → Held (after (listen_request is_port_free c))
  unfolding listen_request sock_read
  listen_request-Held c v = elim (Bool-cases (c.m_source_port == 0)) [
    | inl unset ↦ rw unset (continue-after Held _ (sock_read 2 c) v (λ _. take_port-Held _))
    | inr set ↦ rw set v
  ]

  catching_reply-Held :
      (r : Outcome ℕ × ClientHandler) → Held (after r) → Held (after (catching_reply r))
  unfolding catching_reply set_stage
  catching_reply-Held (ok _, c) v = v
  catching_reply-Held (throw would_block, c) v = v
  catching_reply-Held (throw broken_pipe, c) v = v
  catching_reply-Held (throw timeout, c) v = v
  catching_reply-Held (throw interrupted, c) v = v
  catching_reply-Held (throw error, c) v = v
  catching_reply-Held (throw assertion, c) v = v

  reply_application-Held : (c : ClientHandler) → Held c → Held (after (reply_application c))
  unfolding reply_application sock_write
  reply_application-Held c v = catching_reply-Held (sock_write (1 ∷ []) c) v

  arm_timer-Held : (c : ClientHandler) → Held c → Held (after (arm_timer c))
  arm_timer-Held c v = arm_timer-keeps Held (λ d t w. w) c v

  server_connected-Held :
      (b : Bool) (c : ClientHandler) → Held c → Held (after (server_connected b c))
  unfolding server_connected set_stage
  server_connected-Held true c v =
      continue-after Held _ (arm_timer c) (arm_timer-Held c v) (λ _ d w. w)
  server_connected-Held false c v = v

  client_connected-Held :
      (b : Bool) (c : ClientHandler) → Held c → Held (after (client_connected b c))
  unfolding client_connected set_stage
  client_connected-Held true c v = v
  client_connected-Held false c v = v

  receive_listen-Held :
      (source : ℕ) (f : MiptpFrame) (c : ClientHandler)
      → Held c
      → Held (after (receive_listen source f c))
  unfolding receive_listen send_control emplace
  receive_listen-Held source f c v = elim (Bool-cases (get_type f == request)) [
    | inl asked ↦
        rw asked (
          continue-after Held server_connected _ (reply_application-Held _ v) server_connected-Held)
    | inr other ↦ rw other v
  ]

  receive_wait_reply-Held :
      (f : MiptpFrame) (c : ClientHandler) → Held c → Held (after (receive_wait_reply f c))
  unfolding receive_wait_reply
  receive_wait_reply-Held f c v = elim (Bool-cases (get_type f == reply)) [
    | inl replied ↦ rw replied (
        continue-after Held client_connected (reply_application c) (reply_application-Held c v)
          client_connected-Held)
    | inr other ↦ rw other v
  ]

  receive_at-Held :
      (stage : ConnectStage) (upper source : ℕ) (f : MiptpFrame) (c : ClientHandler)
      → Held c
      → Held (after (receive_at stage upper source f c))
  unfolding receive_at
  receive_at-Held stage_application upper source f c v = v
  receive_at-Held stage_listen upper source f c v = receive_listen-Held source f c v
  receive_at-Held stage_wait_reply upper source f c v = receive_wait_reply-Held f c v
  receive_at-Held stage_connected upper source f c v =
      receive_connected-Addressed (λ _ _ port. MayHave is_port_free old port) upper source f c v
  receive_at-Held stage_failure upper source f c v = v

  -- A frame from the network.
  pub receive_frame-Held :
      (upper source : ℕ) (f : MiptpFrame) (c : ClientHandler)
      → Held c
      → Held (after (receive_frame upper source f c))
  unfolding receive_frame
  receive_frame-Held upper source f c v = receive_at-Held c.m_stage upper source f c v

  module _ (free_port : ℕ) (free : (free_port ≡ 0) ⊎ (is_port_free free_port ≡ true)) where
    read_request-Held : (c : ClientHandler) → Held c → Held (after (read_request c))
    unfolding read_request sock_read
    read_request-Held c v = elim (Bool-cases (is_type_null c.m_type)) [
      | inl unset ↦ rw unset (continue-after Held _ (sock_read 1 c) v (λ _ d w. w))
      | inr set ↦ rw set v
    ]

    read_dest_address-Held : (c : ClientHandler) → Held c → Held (after (read_dest_address c))
    unfolding read_dest_address sock_read
    read_dest_address-Held c v = elim (Bool-cases (c.m_dest_address == 0)) [
      | inl unset ↦ rw unset (continue-after Held _ (sock_read 1 c) v (λ _ d w. w))
      | inr set ↦ rw set v
    ]

    read_dest_port-Held : (c : ClientHandler) → Held c → Held (after (read_dest_port c))
    unfolding read_dest_port sock_read
    read_dest_port-Held c v = elim (Bool-cases (c.m_dest_port == 0)) [
      | inl unset ↦ rw unset (continue-after Held _ (sock_read 2 c) v (λ _ d w. w))
      | inr set ↦ rw set v
    ]

    set_port : ClientHandler → ClientHandler
    set_port c = if c.m_source_port == 0 then record c { m_source_port = free_port } else c

    set_port-Held : (c : ClientHandler) → Held c → Held (set_port c)
    unfolding set_port
    set_port-Held c v = elim (Bool-cases (c.m_source_port == 0)) [
      | inl unset ↦ rw unset (inr free)
      | inr set ↦ rw set v
    ]

    request_connection-Held : (c : ClientHandler) → Held c → Held (after (request_connection c))
    unfolding request_connection refuse_port send_control emplace set_stage sock_write
    request_connection-Held c v = elim (Bool-cases (ltb 0 c.m_source_port)) [
      | inl some_port ↦
          rw some_port (continue-after Held _ (arm_timer _) (arm_timer-Held _ v) (λ _ d w. w))
      | inr no_port ↦ rw no_port (continue-after Held _ _ v (λ _ d w. w))
    ]

    connect_request-Held : (c : ClientHandler) → Held c → Held (after (connect_request free_port c))
    unfolding connect_request set_port
    connect_request-Held c v =
        continue-after Held _ (read_dest_address c) (read_dest_address-Held c v) (λ _ d w.
          continue-after Held _ (read_dest_port d) (read_dest_port-Held d w)
            (λ _ e x. request_connection-Held (set_port e) (set_port-Held e x)))

    application_request-Held :
        (type : ClientType) (c : ClientHandler)
        → Held c
        → Held (after (application_request type is_port_free free_port c))
    unfolding application_request
    application_request-Held type_server c v = listen_request-Held c v
    application_request-Held type_client c v = connect_request-Held c v
    application_request-Held type_null c v = v

    handle_sock_at-Held :
        (stage : ConnectStage) (c : ClientHandler)
        → Held c
        → Held (after (handle_sock_at stage is_port_free free_port c))
    unfolding handle_sock_at handle_application
    handle_sock_at-Held stage_application c v =
        catching_pipe-Addressed (λ _ _ port. MayHave is_port_free old port) _
          (continue-after Held _ (read_request c) (read_request-Held c v)
            (λ _ d. application_request-Held d.m_type d))
    handle_sock_at-Held stage_listen c v = v
    handle_sock_at-Held stage_wait_reply c v = v
    handle_sock_at-Held stage_connected c v =
        handle_transfer-Addressed (λ _ _ port. MayHave is_port_free old port) c.m_type c v
    handle_sock_at-Held stage_failure c v = v

    -- What the socket of the application brings.
    pub handle_sock-Held :
        (c : ClientHandler) → Held c → Held (after (handle_sock is_port_free free_port c))
    unfolding handle_sock
    handle_sock-Held c v = handle_sock_at-Held c.m_stage c v

    timer_at-Held :
        (stage : ConnectStage) (c : ClientHandler)
        → Held c
        → Held (after (timer_at stage is_port_free free_port c))
    unfolding timer_at sock_write set_stage
    timer_at-Held stage_application c v = v
    timer_at-Held stage_listen c v = v
    timer_at-Held stage_wait_reply c v = continue-after Held _ _ v (λ _ d w. w)
    timer_at-Held stage_connected c v =
        continue-after Held _ _
          (continue-after Held _ (handle_sock is_port_free free_port c) (handle_sock-Held c v)
            (λ _ d. timer_traffic-Addressed (λ _ _ port. MayHave is_port_free old port) d.m_type d))
          (λ _. check_connection-Addressed (λ _ _ port. MayHave is_port_free old port))
    timer_at-Held stage_failure c v = v

    -- An expired timer.
    pub handle_timer-Held :
        (c : ClientHandler) → Held c → Held (after (handle_timer is_port_free free_port c))
    unfolding handle_timer
    handle_timer-Held c v =
        continue-after Held (λ _. arm_timer) (timer_at c.m_stage is_port_free free_port c)
          (timer_at-Held c.m_stage c v) (λ _. arm_timer-Held)
