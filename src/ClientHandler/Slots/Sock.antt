-- ===== src/ClientHandler/Slots/Sock.antt =====
-- `handleSock` of src/ClientHandler.cpp keeps the slots in order.
use miptp_cpp.Prelude.{ℕ, refl, Bool, [], ◌∷◌, ltb, ◌==◌, if◌then◌else◌, Bool-cases, inl, inr}
use miptp_cpp.Outcome.{modify}
use miptp_cpp.MiptpFrame.{request}
use miptp_cpp.CrossIpc.{le_value}
use miptp_cpp.ClientHandler.{
  ClientHandler, ClientType, type_null, type_server, type_client, ConnectStage, stage_application,
  stage_listen, stage_wait_reply, stage_connected, stage_failure, reply_usedport, send_control,
  sock_read, sock_write, arm_timer, set_stage,
}
use miptp_cpp.ClientHandler.Handlers.{
  is_type_null, read_request, refuse_port, take_port, listen_request, read_dest_address,
  read_dest_port, request_connection, connect_request, application_request, handle_application,
  handle_transfer, handle_sock_at, handle_sock,
}
use miptp_cpp.ClientHandler.Slots.{
  Keeps, continue-IsClient, same, sock_read-Keeps, sock_write-Keeps, set_stage-IsClient,
  send_control-IsClient, arm_timer-Keeps, catching_pipe-IsClient, send_to_sock-Keeps,
}
use miptp_cpp.ClientHandler.Slots.Load.{load_frames-Keeps}

read_request-Keeps : Keeps read_request
unfolding read_request
read_request-Keeps c v = elim (Bool-cases (is_type_null c.m_type)) [
  | inl e ↦ rw e (
      continue-IsClient _ (sock_read 1 c) (sock_read-Keeps 1 c v)
        (λ bytes d w. same d _ w refl refl refl refl))
  | inr e ↦ rw e v
]

refuse_port-Keeps : Keeps refuse_port
unfolding refuse_port
refuse_port-Keeps c v =
    continue-IsClient _ (sock_write (reply_usedport ∷ []) (set_stage stage_failure c))
      (sock_write-Keeps (reply_usedport ∷ []) _ (set_stage-IsClient stage_failure c v)) (λ _ d w. w)

take_port-Keeps : (is_port_free : ℕ → Bool) (port : ℕ) → Keeps (take_port is_port_free port)
unfolding take_port
take_port-Keeps is_port_free port c v = elim (Bool-cases (is_port_free port)) [
  | inl e ↦ rw e (same c _ v refl refl refl refl)
  | inr e ↦ rw e (refuse_port-Keeps c v)
]

listen_request-Keeps : (is_port_free : ℕ → Bool) → Keeps (listen_request is_port_free)
unfolding listen_request
listen_request-Keeps is_port_free c v = elim (Bool-cases (c.m_source_port == 0)) [
  | inl e ↦ rw e (
      continue-IsClient _ (sock_read 2 c) (sock_read-Keeps 2 c v)
        (λ bytes. take_port-Keeps is_port_free (le_value bytes)))
  | inr e ↦ rw e v
]

read_dest_address-Keeps : Keeps read_dest_address
unfolding read_dest_address
read_dest_address-Keeps c v = elim (Bool-cases (c.m_dest_address == 0)) [
  | inl e ↦ rw e (
      continue-IsClient _ (sock_read 1 c) (sock_read-Keeps 1 c v)
        (λ bytes d w. same d _ w refl refl refl refl))
  | inr e ↦ rw e v
]

read_dest_port-Keeps : Keeps read_dest_port
unfolding read_dest_port
read_dest_port-Keeps c v = elim (Bool-cases (c.m_dest_port == 0)) [
  | inl e ↦ rw e (
      continue-IsClient _ (sock_read 2 c) (sock_read-Keeps 2 c v)
        (λ bytes d w. same d _ w refl refl refl refl))
  | inr e ↦ rw e v
]

request_connection-Keeps : Keeps request_connection
unfolding request_connection
request_connection-Keeps c v = elim (Bool-cases (ltb 0 c.m_source_port)) [
  | inl e ↦ rw e (
      continue-IsClient _ (arm_timer (send_control request 0 c))
        (arm_timer-Keeps _ (send_control-IsClient request 0 c v))
        (λ _ d w. set_stage-IsClient stage_wait_reply d w))
  | inr e ↦ rw e (refuse_port-Keeps c v)
]

pick_port :
    (free_port : ℕ)
    → Keeps (
        modify (λ (c : ClientHandler).
          if c.m_source_port == 0 then record c { m_source_port = free_port } else c))
pick_port free_port c v = elim (Bool-cases (c.m_source_port == 0)) [
  | inl e ↦ rw e (same c _ v refl refl refl refl)
  | inr e ↦ rw e v
]

connect_request-Keeps : (free_port : ℕ) → Keeps (connect_request free_port)
unfolding connect_request
connect_request-Keeps free_port c v =
    continue-IsClient _ (read_dest_address c) (read_dest_address-Keeps c v) (λ _ d w.
      continue-IsClient _ (read_dest_port d) (read_dest_port-Keeps d w)
        (λ _ e x. request_connection-Keeps _ (pick_port free_port e x)))

application_request-Keeps :
    (type : ClientType) (is_port_free : ℕ → Bool) (free_port : ℕ)
    → Keeps (application_request type is_port_free free_port)
unfolding application_request
application_request-Keeps type_server is_port_free free_port c v =
    listen_request-Keeps is_port_free c v
application_request-Keeps type_client is_port_free free_port c v =
    connect_request-Keeps free_port c v
application_request-Keeps type_null is_port_free free_port c v = v

handle_transfer-Keeps : (type : ClientType) → Keeps (handle_transfer type)
unfolding handle_transfer
handle_transfer-Keeps type_server c v = send_to_sock-Keeps c v
handle_transfer-Keeps type_client c v = load_frames-Keeps c v
handle_transfer-Keeps type_null c v = v

handle_sock_at-Keeps :
    (stage : ConnectStage) (is_port_free : ℕ → Bool) (free_port : ℕ)
    → Keeps (handle_sock_at stage is_port_free free_port)
unfolding handle_sock_at handle_application
handle_sock_at-Keeps stage_application is_port_free free_port c v = catching_pipe-IsClient _ (
    continue-IsClient _ (read_request c) (read_request-Keeps c v)
      (λ _ d w. application_request-Keeps d.m_type is_port_free free_port d w))
handle_sock_at-Keeps stage_listen is_port_free free_port c v = v
handle_sock_at-Keeps stage_wait_reply is_port_free free_port c v = v
handle_sock_at-Keeps stage_connected is_port_free free_port c v = handle_transfer-Keeps c.m_type c v
handle_sock_at-Keeps stage_failure is_port_free free_port c v = v

pub handle_sock-Keeps :
    (is_port_free : ℕ → Bool) (free_port : ℕ) → Keeps (handle_sock is_port_free free_port)
unfolding handle_sock
handle_sock-Keeps is_port_free free_port c v =
    handle_sock_at-Keeps c.m_stage is_port_free free_port c v
