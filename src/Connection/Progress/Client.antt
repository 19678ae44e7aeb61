-- ===== src/Connection/Progress/Client.antt =====
-- The sending end of src/ClientHandler.cpp while the connection is up: what an ack and a request do.
use miptp_cpp.Prelude.{
  ℕ, ◌≤◌, ◌<◌, ◌≡◌, inl, inr, refl, sym, ap, subst, ◌∙◌, true, false, List, [], ◌∷◌, ◌++◌, drop,
  ◌==◌, arith,
}
use miptp_cpp.Outcome.{after}
use miptp_cpp.MiptpFrame.{
  MiptpFrame, get_type, get_source, get_sequence_number, request, reply, sack,
}
use miptp_cpp.CrossIpc.{AnonymousSocket}
use miptp_cpp.ClientHandler.{
  ClientHandler, type_client, stage_connected, sequence_size, window_size, control_frame, emplace,
  send_control, queue_frames,
}
use miptp_cpp.ClientHandler.Receive.{
  receive_sack, receive_by_type, receive_keepalive, receive_connected, receive_at, receive_frame,
}
use miptp_cpp.ClientHandler.Slots.{IsClient}
use miptp_cpp.ClientHandler.Slots.Frames.{IsClient-invariant}
use miptp_cpp.ClientHandler.Window.{distance}
use miptp_cpp.ClientHandler.Acks.{in_flight, receive_sack_lem}
use miptp_cpp.Connection.Sender.Acks.{receive_sack-Kept}

-- A connected client, by its peer's address and port, its own port, its socket, its base, its frames in flight and
-- its queue.
pub record Asks (address peer port : ℕ) (sock : AnonymousSocket) (base : ℕ)
    (flying : List MiptpFrame) (queue : List (ℕ × MiptpFrame)) (c : ClientHandler) : Type 0 where
  pub type : c.m_type ≡ type_client
  pub stage : c.m_stage ≡ stage_connected
  pub to : c.m_dest_address ≡ address
  pub to_port : c.m_dest_port ≡ peer
  pub reads : c.m_sock ≡ sock
  pub from_port : c.m_source_port ≡ port
  pub based : c.m_sequence_base ≡ base
  pub flies : in_flight c ≡ flying
  pub queued : c.m_out_queue ≡ queue
  pub slots : IsClient c

module _ (address peer port : ℕ) (sock : AnonymousSocket) (base : ℕ) (flying : List MiptpFrame)
    (queue : List (ℕ × MiptpFrame)) (f : MiptpFrame) (c : ClientHandler)
    (v : Asks address peer port sock base flying queue c) (from : get_source f ≡ peer) where
  receive_ours :
      after (receive_frame 0 address f c)
      ≡ receive_keepalive (get_type f) (receive_by_type type_client 0 f c)
  unfolding receive_frame receive_at receive_connected
  receive_ours =
      let address-eq : (address == c.m_dest_address) ≡ true = ground (arith, v.to) in
      let port-eq : (get_source f == c.m_dest_port) ≡ true = ground (arith, v.to_port, from) in
      ap (λ s. after (receive_at s 0 address f c)) v.stage
      ∙ rw (address-eq, port-eq)
          (ap (λ t. receive_keepalive (get_type f) (receive_by_type t 0 f c)) v.type)

  -- A request is answered.
  pub receive_request-Asks :
      get_type f ≡ request
      → Asks address peer port sock base flying
          (queue ++ (address, control_frame reply peer port 0) ∷ [])
          (after (receive_frame 0 address f c))
  unfolding receive_by_type receive_keepalive send_control emplace
  receive_request-Asks kind =
      let is_request : (get_type f == request) ≡ true = ground (arith, kind) in
      let no_ack : (get_type f == sack) ≡ false = ground (arith, kind) in
      let same : after (receive_frame 0 address f c)
          ≡ record (send_control reply 0 c) { m_connected_reply = true } =
        receive_ours ∙ rw (is_request, no_ack) refl in
      let i = subst IsClient same ((IsClient-invariant c v.slots).2 0 address f) in
      rw same (record {
        type = v.type;
        stage = v.stage;
        to = v.to;
        to_port = v.to_port;
        reads = v.reads;
        from_port = v.from_port;
        based = v.based;
        flies = v.flies;
        queued =
            ap
              (λ q.
                q ++ (c.m_dest_address, control_frame reply c.m_dest_port c.m_source_port 0) ∷ [])
              v.queued
            ∙ rw (v.to, v.to_port, v.from_port) refl;
        slots = i;
      })

  sack-eq :
      get_type f ≡ sack
      → after (receive_frame 0 address f c) ≡ receive_sack (get_sequence_number 0 f) c
  unfolding receive_by_type receive_keepalive
  sack-eq kind =
      let is_sack : (get_type f == sack) ≡ true = ground (arith, kind) in
      let no_request : (get_type f == request) ≡ false = ground (arith, kind) in
      let no_reply : (get_type f == reply) ≡ false = ground (arith, kind) in
      receive_ours ∙ rw (is_sack, no_request, no_reply) refl

  -- An ack in the window takes frames out of it, and the rest is sent again.
  pub receive_ack-Asks :
      (a : ℕ)
      → get_type f ≡ sack
      → get_sequence_number 0 f ≡ a
      → a < sequence_size
      → distance base a ≤ window_size
      → Asks address peer port sock a
          (drop (distance base a) flying)
          (queue ++ queue_frames address (drop (distance base a) flying))
          (after (receive_frame 0 address f c))
  receive_ack-Asks a kind number small near =
      let near' : distance c.m_sequence_base a ≤ window_size =
        subst (λ b. distance b a ≤ window_size) (sym v.based) near in
      let e : after (receive_frame 0 address f c) ≡ receive_sack a c =
        sack-eq kind ∙ ap (λ n. receive_sack n c) number in
      let kept = receive_sack-Kept a c in
      let i = subst IsClient e ((IsClient-invariant c v.slots).2 0 address f) in
      subst
        (Asks address peer port sock a (drop (distance base a) flying)
          (queue ++ queue_frames address (drop (distance base a) flying)))
        (sym e)
        (elim (receive_sack_lem c a v.slots small) [
          | inl (_, flight, at, out) ↦
              let left : in_flight (receive_sack a c) ≡ drop (distance base a) flying =
                flight
                ∙ ap (λ b. drop (distance b a) (in_flight c)) v.based
                ∙ ap (drop (distance base a)) v.flies in
              record {
                type = kept.1 ∙ v.type;
                stage = kept.2 ∙ v.stage;
                to = kept.4 ∙ v.to;
                to_port = kept.5 ∙ v.to_port;
                reads = kept.0 ∙ v.reads;
                from_port = kept.6 ∙ v.from_port;
                based = at;
                flies = left;
                queued =
                    out
                    ∙ ap (λ l. c.m_out_queue ++ queue_frames c.m_dest_address l) left
                    ∙ ap (λ t. c.m_out_queue ++ queue_frames t (drop (distance base a) flying)) v.to
                    ∙ ap (λ q. q ++ queue_frames address (drop (distance base a) flying)) v.queued;
                slots = i;
              }
          | inr (far, _) ↦ absurd (omega (arith, far, near'))
        ])
