-- ===== src/ClientHandler/Slots/Timer.antt =====
-- `handleTimer` of src/ClientHandler.cpp keeps the slots in order.
use miptp_cpp.Prelude.{ℕ, refl, Bool, [], ◌∷◌, Bool-cases, inl, inr}
use miptp_cpp.Outcome.{continue}
use miptp_cpp.MiptpFrame.{request}
use miptp_cpp.ClientHandler.Slots.Sock.{handle_sock-Keeps}
use miptp_cpp.ClientHandler.{
  ClientHandler, ClientType, type_null, type_server, type_client, ConnectStage, stage_application,
  stage_listen, stage_wait_reply, stage_connected, stage_failure, reply_timeout, send_control,
  queue_ack, sock_write, set_stage,
}
use miptp_cpp.ClientHandler.Handlers.{handle_sock}
use miptp_cpp.ClientHandler.Receive.{timer_traffic, check_connection, timer_at, handle_timer}
use miptp_cpp.ClientHandler.Slots.{
  IsClient, Keeps, continue-IsClient, same, sock_write-Keeps, set_stage-IsClient,
  send_control-IsClient, arm_timer-Keeps, send_to_sock-Keeps,
}
use miptp_cpp.ClientHandler.Slots.{queue_ack-IsClient, queue_window-IsClient}

timer_traffic-Keeps : (type : ClientType) → Keeps (timer_traffic type)
unfolding timer_traffic
timer_traffic-Keeps type_server c v = send_to_sock-Keeps (queue_ack c) (queue_ack-IsClient c v)
timer_traffic-Keeps type_client c v = queue_window-IsClient c v
timer_traffic-Keeps type_null c v = v

check_connection-IsClient : (c : ClientHandler) → IsClient c → IsClient (check_connection c)
unfolding check_connection set_stage
check_connection-IsClient c v = elim (Bool-cases c.m_connected_reply) [
  | inl e ↦
      rw e (
        same (send_control request 0 c) _ (send_control-IsClient request 0 c v) refl refl refl refl)
  | inr e ↦ rw e (same c _ v refl refl refl refl)
]

timer_at-Keeps :
    (stage : ConnectStage) (is_port_free : ℕ → Bool) (free_port : ℕ)
    → Keeps (timer_at stage is_port_free free_port)
unfolding timer_at
timer_at-Keeps stage_wait_reply is_port_free free_port c v =
    continue-IsClient _ (sock_write (reply_timeout ∷ []) c)
      (sock_write-Keeps (reply_timeout ∷ []) c v) (λ _. set_stage-IsClient stage_failure)
timer_at-Keeps stage_connected is_port_free free_port c v =
    continue-IsClient _
      (continue (λ _ d. timer_traffic d.m_type d) (handle_sock is_port_free free_port c))
      (continue-IsClient _ (handle_sock is_port_free free_port c)
        (handle_sock-Keeps is_port_free free_port c v) (λ _ d w. timer_traffic-Keeps d.m_type d w))
      (λ _. check_connection-IsClient)
timer_at-Keeps stage_application is_port_free free_port c v = v
timer_at-Keeps stage_listen is_port_free free_port c v = v
timer_at-Keeps stage_failure is_port_free free_port c v = v

pub handle_timer-Keeps :
    (is_port_free : ℕ → Bool) (free_port : ℕ) → Keeps (handle_timer is_port_free free_port)
unfolding handle_timer
handle_timer-Keeps is_port_free free_port c v =
    continue-IsClient _ (timer_at c.m_stage is_port_free free_port c)
      (timer_at-Keeps c.m_stage is_port_free free_port c v) (λ _. arm_timer-Keeps)
