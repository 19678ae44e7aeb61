-- ===== src/TransportDeamon/Order.antt =====
-- The order in which src/transport_deamon.cpp writes its frames to the MIP deamon.
use miptp_cpp.Prelude.{
  ℕ, ◌≡◌, inl, inr, List, [], ◌∷◌, ◌++◌, map, Bool-cases, ◌==◌, refl, sym, ap, subst, ◌⊎◌, ◌∙◌,
  append_assoc,
}
use miptp_cpp.Outcome.{
  Outcome, Exception, ok, throw, broken_pipe, would_block, timeout, interrupted, error, assertion,
  after,
}
use miptp_cpp.MiptpFrame.{MiptpFrame}
use miptp_cpp.CrossIpc.{Sent, sent, send_failed, errno_exception}
use miptp_cpp.CrossIpc.Packet.{AnonymousSocketPacket, take_send, send_iovec}
use miptp_cpp.TransportDeamon.{
  TransportDeamon, frame_iovec, after_send, send_frames, send_transport_sock,
}

-- The queue the way `sendTransportSock` writes it.
abbrev pub packets : List (ℕ × MiptpFrame) → List (List (List ℕ))
packets queue = map frame_iovec queue

-- A packet is written, or the call throws.
send_iovec_cases :
    (iov : List (List ℕ)) (results : List Sent) (s : AnonymousSocketPacket)
    → let (result, s') = take_send iov results s in
      ((result ≡ ok tt) × (s'.written ≡ s.written ++ iov ∷ []))
      ⊎ ((e : Exception) × (result ≡ throw e) × (s'.written ≡ s.written))
unfolding take_send
send_iovec_cases iov [] s = inr (would_block, refl, refl)
send_iovec_cases iov (send_failed e ∷ results) s = inr (errno_exception e, refl, refl)
send_iovec_cases iov (sent n ∷ results) s = elim (Bool-cases (n == 0)) [
  | inl none_sent ↦ rw none_sent (inr (broken_pipe, refl, refl))
  | inr some_sent ↦ rw some_sent (inl (refl, refl))
]

after_send-ok :
    (rest : Outcome (Unit {0}) × TransportDeamon) (d : TransportDeamon)
    → after_send (ok tt) rest d ≡ rest
unfolding after_send
after_send-ok rest d = refl

-- What stays is what is there, whatever was thrown.
pub after_send-throw :
    (e : Exception) (rest : Outcome (Unit {0}) × TransportDeamon) (d : TransportDeamon)
    → (after_send (throw e) rest d).1 ≡ d
unfolding after_send
after_send-throw broken_pipe rest d = refl
after_send-throw would_block rest d = refl
after_send-throw timeout rest d = refl
after_send-throw interrupted rest d = refl
after_send-throw error rest d = refl
after_send-throw assertion rest d = refl

abbrev all_packets : TransportDeamon → List (List (List ℕ))
all_packets d = d.transport_sock.written ++ packets d.frame_out_queue

send_frames-in_order :
    (queue : List (ℕ × MiptpFrame)) (d : TransportDeamon)
    → all_packets (send_frames queue d).1 ≡ d.transport_sock.written ++ packets queue
unfolding send_frames send_iovec
send_frames-in_order [] d = refl
send_frames-in_order (f ∷ queue) d =
    let s = d.transport_sock in
    let (result, s') = take_send (frame_iovec f) s.sends s in
    let e = record d { transport_sock = s' } in
    let rest = send_frames queue e in
    let kept = record e { frame_out_queue = f ∷ queue } in
    let target = s.written ++ packets (f ∷ queue) in
    elim (send_iovec_cases (frame_iovec f) s.sends s) [
      | inl (taken, written) ↦
          subst (λ o. all_packets (after_send o rest kept).1 ≡ target) (sym taken)
            (ap (λ o. all_packets (after o)) (after_send-ok rest kept)
              ∙ send_frames-in_order queue e
              ∙ ap (λ l. l ++ packets queue) written
              ∙ append_assoc s.written (frame_iovec f ∷ []) (packets queue))
      | inr (x, thrown, written) ↦
          subst (λ o. all_packets (after_send o rest kept).1 ≡ target) (sym thrown)
            (ap all_packets (after_send-throw x rest kept)
              ∙ ap (λ l. l ++ packets (f ∷ queue)) written)
    ]

-- Whatever the results of `sendmsg`: what has been written, followed by the frames still queued, is
-- what had been written before followed by the queue before. So frames go out in the order of the
-- queue, none is lost, and none is written twice.
pub send_transport_sock-in_order :
    (results : List Sent) (d : TransportDeamon)
    → let d' = (send_transport_sock results d).1 in
      d'.transport_sock.written ++ packets d'.frame_out_queue
      ≡ d.transport_sock.written ++ packets d.frame_out_queue
unfolding send_transport_sock
send_transport_sock-in_order results d =
    send_frames-in_order d.frame_out_queue
      (record d { transport_sock = record (d.transport_sock) { sends = results } })
