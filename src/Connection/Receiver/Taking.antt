-- ===== src/Connection/Receiver/Taking.antt =====
-- `receiveFrame` of src/ClientHandler.cpp at the receiving end, and an ack that leaves the way back.
use miptp_cpp.Prelude.{
  ℕ, ◌+◌, ◌%◌, ◌≤◌, ◌≡◌, ◌⊎◌, inl, inr, ap, sym, subst, ◌∙◌, true, false, ◌&&◌, Option, none, some,
  List, [], ◌∷◌, ◌++◌, append_assoc, take, ◌==◌, ==_iff, if◌then◌else◌, Bool-cases, arith,
}
use miptp_cpp.Outcome.{after}
use miptp_cpp.MiptpFrame.{
  MiptpFrame, get_type, get_source, get_sequence_number, get_msg, get_msg_size, data_packet,
}
use miptp_cpp.ClientHandler.{
  ClientHandler, type_server, stage_connected, stage_failure, sequence_size, queue_ack,
}
use miptp_cpp.ClientHandler.Receive.{
  receive_data, receive_by_type, receive_keepalive, receive_connected, receive_at, receive_frame,
}
use miptp_cpp.Connection.Fill.{IsFilled}
use miptp_cpp.Connection.Numbers.{AckOrder, AckOrder-base, AckOrder-waits}
use miptp_cpp.Connection.Data.{IsControl}
use miptp_cpp.Connection.Sender.Acks.{IsAck}
use miptp_cpp.Connection.Receiver.{
  Receiver, BackWay, Receives, queue_ack-Receives, receive_keepalive-Receives,
}

module _ {before received : List ℕ} {base waits ack : ℕ} {buffer written : List ℕ} where
  -- The message that was waited for.
  Receiver-taken :
      {queue : List (ℕ × MiptpFrame)} (m : List ℕ)
      → Receiver before received base waits ack queue buffer written
      → Receiver before
          (received ++ m)
          base
          (waits + 1)
          ((ack + 1) % sequence_size)
          queue
          (buffer ++ m)
          written
  Receiver-taken m v = record {
    xs = v.xs;
    ack = omega (arith, v.ack);
    way = v.way;
    order = AckOrder-waits base waits (waits + 1) v.xs (omega arith) v.order;
    ahead = omega (arith, v.ahead);
    given =
        sym (append_assoc written buffer m)
        ∙ ap (λ l. l ++ m) v.given
        ∙ append_assoc before received m;
  }

  -- The frame in front leaves the way back: it is control, or an ack that the base may move up to.
  pub Receiver-first :
      (e : ℕ × MiptpFrame) (queue : List (ℕ × MiptpFrame))
      → Receiver before received base waits ack (e ∷ queue) buffer written
      → (IsControl e.1 × Receiver before received base waits ack queue buffer written)
        ⊎ (a : ℕ) × IsAck a e.1
          × (base ≤ a)
          × (a ≤ waits)
          × ((b : ℕ) → b ≤ a → Receiver before received b waits ack queue buffer written)
  Receiver-first e queue v = go v.xs v.way v.order
    where
      without :
          (b : ℕ) (xs : List (Option ℕ))
          → b ≤ waits
          → BackWay xs queue
          → AckOrder b waits xs
          → Receiver before received b waits ack queue buffer written
      without b xs h way order = record {
        xs = xs;
        ack = v.ack;
        way = way;
        order = order;
        ahead = h;
        given = v.given;
      }

      go :
          (xs : List (Option ℕ))
          → BackWay xs (e ∷ queue)
          → AckOrder base waits xs
          → (IsControl e.1 × Receiver before received base waits ack queue buffer written)
            ⊎ (a : ℕ) × IsAck a e.1
              × (base ≤ a)
              × (a ≤ waits)
              × ((b : ℕ) → b ≤ a → Receiver before received b waits ack queue buffer written)
      go [] way order = absurd way
      go (none ∷ xs) way order = inl (way.0, without base xs v.ahead way.1 order)
      go (some a ∷ xs) way order = inr (
        a,
        way.0,
        order.0,
        order.1,
        λ b h. without b xs (omega (arith, order.1)) way.1 (AckOrder-base b a waits xs h order.2),
      )

-- What a frame of data leaves: nothing new has been taken, or the message that was waited for.
abbrev pub Took : List ℕ → List ℕ → ℕ → ℕ → ℕ → List ℕ → ClientHandler → Type 0
Took before received base waits x m c =
    Receives before received base waits c
    ⊎ (x ≡ waits) × Receives before (received ++ m) base (waits + 1) c

module _ (before received : List ℕ) (base waits : ℕ) where
  data-Took :
      (x : ℕ) (m : List ℕ) (f : MiptpFrame) (c : ClientHandler)
      → IsFilled (x % sequence_size) m f
      → waits ≤ x + 10
      → x ≤ waits + 9
      → Receives before received base waits c
      → Took before received base waits x m (receive_data 0 f c)
  unfolding receive_data
  data-Took x m f c d low high (v, side) =
      elim (Bool-cases (get_sequence_number 0 f == c.m_current_ack)) [
        | inl waited ↦
            let same = (==_iff _ _).0 waited in
            let number : x ≡ waits = omega (arith, same, d.number, v.ack) in
            inr (
              number,
              subst
                  (λ b.
                    Receives before (received ++ m) base (waits + 1)
                      (if b then taken else queue_ack c))
                  (sym waited)
                  (
                    subst
                        (λ l.
                          Receiver before (received ++ m) base (waits + 1)
                            ((c.m_current_ack + 1) % sequence_size) c.m_out_queue
                            (c.m_msg_buffer ++ l) c.m_sock.written)
                        (sym d.holds) (Receiver-taken m v),
                    side,
                  ),
            )
        | inr other ↦ inl (
            subst (λ b. Receives before received base waits (if b then taken else queue_ack c))
              (sym other) (queue_ack-Receives before received base waits c (v, side)))
      ]
    where
      taken : ClientHandler
      taken = record c {
        m_current_ack = (c.m_current_ack + 1) % sequence_size;
        m_msg_buffer = c.m_msg_buffer ++ take (get_msg_size f) (get_msg f);
        m_total_data_received = c.m_total_data_received + get_msg_size f;
      }

-- A frame is dropped, or it is taken by its type and then as a sign of the peer.
receive_frame-cases :
    (P : ClientHandler → Type 0) (source : ℕ) (f : MiptpFrame) (c : ClientHandler)
    → (c.m_stage ≡ stage_connected) ⊎ (c.m_stage ≡ stage_failure)
    → P c
    → P (receive_keepalive (get_type f) (receive_by_type c.m_type 0 f c))
    → P (after (receive_frame 0 source f c))
unfolding receive_frame receive_at receive_connected
receive_frame-cases P source f c (inl stage) same taken =
    subst (λ s. P (after (receive_at s 0 source f c))) (sym stage)
      (elim (Bool-cases (source == c.m_dest_address && get_source f == c.m_dest_port)) [
        | inl ours ↦
            subst
              (λ b.
                P (
                  if b then receive_keepalive (get_type f) (receive_by_type c.m_type 0 f c) else c))
              (sym ours) taken
        | inr foreign ↦
            subst
              (λ b.
                P (
                  if b then receive_keepalive (get_type f) (receive_by_type c.m_type 0 f c) else c))
              (sym foreign) same
      ])
receive_frame-cases P source f c (inr stage) same taken =
    subst (λ s. P (after (receive_at s 0 source f c))) (sym stage) same

module _ (before received : List ℕ) (base waits : ℕ) where
  by_type-same :
      (f : MiptpFrame) (c : ClientHandler)
      → IsControl f
      → c.m_type ≡ type_server
      → receive_by_type c.m_type 0 f c ≡ c
  unfolding receive_by_type
  by_type-same f c kind type =
      let no_data : (get_type f == data_packet) ≡ false = ground (arith, kind) in
      ap (λ t. receive_by_type t 0 f c) type ∙ ap (λ b. if b then receive_data 0 f c else c) no_data

  by_type-data :
      (f : MiptpFrame) (c : ClientHandler)
      → get_type f ≡ data_packet
      → c.m_type ≡ type_server
      → receive_by_type c.m_type 0 f c ≡ receive_data 0 f c
  unfolding receive_by_type
  by_type-data f c kind type =
      let is_data : (get_type f == data_packet) ≡ true = ground (arith, kind) in
      ap (λ t. receive_by_type t 0 f c) type ∙ ap (λ b. if b then receive_data 0 f c else c) is_data

  -- A request or a reply.
  pub receive_control-Receives :
      (source : ℕ) (f : MiptpFrame) (c : ClientHandler)
      → IsControl f
      → Receives before received base waits c
      → Receives before received base waits (after (receive_frame 0 source f c))
  receive_control-Receives source f c kind v =
      receive_frame-cases (Receives before received base waits) source f c v.1.1 v (
        receive_keepalive-Receives before received base waits (get_type f)
          (receive_by_type c.m_type 0 f c)
          (subst (Receives before received base waits) (sym (by_type-same f c kind v.1.0)) v))

  keepalive-Took :
      (x type : ℕ) (m : List ℕ) (c : ClientHandler)
      → Took before received base waits x m c
      → Took before received base waits x m (receive_keepalive type c)
  keepalive-Took x type m c (inl v) =
      inl (receive_keepalive-Receives before received base waits type c v)
  keepalive-Took x type m c (inr (e, v)) =
      inr (e, receive_keepalive-Receives before (received ++ m) base (waits + 1) type c v)

  -- A frame of data.
  pub receive_data-Took :
      (source x : ℕ) (m : List ℕ) (f : MiptpFrame) (c : ClientHandler)
      → IsFilled (x % sequence_size) m f
      → waits ≤ x + 10
      → x ≤ waits + 9
      → Receives before received base waits c
      → Took before received base waits x m (after (receive_frame 0 source f c))
  receive_data-Took source x m f c d low high v =
      receive_frame-cases (Took before received base waits x m) source f c v.1.1 (inl v) (
        keepalive-Took x (get_type f) m (receive_by_type c.m_type 0 f c) (
          subst (Took before received base waits x m) (sym (by_type-data f c d.kind v.1.0))
            (data-Took before received base waits x m f c d low high v)))
