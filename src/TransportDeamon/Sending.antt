-- ===== src/TransportDeamon/Sending.antt =====
-- How the loop of `sendTransportSock` of src/transport_deamon.cpp ends.
use miptp_cpp.Prelude.{
  ℕ, ◌<◌, ◌≡◌, List, [], ◌∷◌, ◌++◌, map, All, length, false, ◌==◌, refl, sym, ap, ◌∙◌, append_assoc,
  append-nil, arith,
}
use miptp_cpp.Outcome.{Outcome, ok, throw, broken_pipe, error}
use miptp_cpp.MiptpFrame.{MiptpFrame}
use miptp_cpp.CrossIpc.{Sent, sent, send_failed, ewouldblock, eagain, other_errno, errno_exception}
use miptp_cpp.CrossIpc.Packet.{take_send, send_iovec}
use miptp_cpp.TransportDeamon.{
  TransportDeamon, frame_iovec, after_send, send_frames, send_transport_sock,
}
use miptp_cpp.TransportDeamon.Order.{packets}

-- A result of `sendmsg` that ends the loop, and what the loop makes of it.
abbrev pub IsStop : Sent → Type 0
IsStop (sent n) = n ≡ 0
IsStop (send_failed e) = Unit

abbrev pub verdict : Sent → Outcome (Unit {0})
verdict (sent n) = throw broken_pipe
verdict (send_failed ewouldblock) = ok tt
verdict (send_failed eagain) = ok tt
verdict (send_failed other_errno) = throw error

-- The daemon with these results of `sendmsg` to come, and after these frames have gone out.
abbrev pub sending : List Sent → TransportDeamon → TransportDeamon
sending results d = record d { transport_sock = record (d.transport_sock) { sends = results } }

abbrev pub wrote : List (ℕ × MiptpFrame) → TransportDeamon → TransportDeamon
wrote front d = record d {
  transport_sock = record (d.transport_sock) {
    written = d.transport_sock.written ++ packets front;
  };
}

send_frames-stop :
    (r : Sent) (more : List Sent) (entry : ℕ × MiptpFrame) (queue : List (ℕ × MiptpFrame))
    (d : TransportDeamon)
    → IsStop r
    → send_frames (entry ∷ queue) (sending (r ∷ more) d)
      ≡ (verdict r, record (sending more d) { frame_out_queue = entry ∷ queue })
unfolding send_frames send_iovec take_send errno_exception after_send
send_frames-stop (sent n) more entry queue d h = rw h refl
send_frames-stop (send_failed ewouldblock) more entry queue d h = refl
send_frames-stop (send_failed eagain) more entry queue d h = refl
send_frames-stop (send_failed other_errno) more entry queue d h = refl

-- A frame that the kernel takes is popped, and the loop goes on.
send_frames-sent :
    (n : ℕ) (results : List Sent) (f : ℕ × MiptpFrame) (queue : List (ℕ × MiptpFrame))
    (d : TransportDeamon)
    → 0 < n
    → send_frames (f ∷ queue) (sending (sent n ∷ results) d)
      ≡ send_frames queue (sending results (wrote (f ∷ []) d))
unfolding send_frames send_iovec take_send after_send
send_frames-sent n results f queue d h =
    let some_bytes : (n == 0) ≡ false = ground arith in rw some_bytes refl

wrote-nil : (d : TransportDeamon) → wrote [] d ≡ d
wrote-nil d =
    ap (λ l. record d { transport_sock = record (d.transport_sock) { written = l } })
      (append-nil d.transport_sock.written)

wrote-cons :
    (f : ℕ × MiptpFrame) (front : List (ℕ × MiptpFrame)) (d : TransportDeamon)
    → wrote front (wrote (f ∷ []) d) ≡ wrote (f ∷ front) d
wrote-cons f front d =
    ap (λ l. record d { transport_sock = record (d.transport_sock) { written = l } })
      (append_assoc d.transport_sock.written (frame_iovec f ∷ []) (packets front))

module _ (r : Sent) (more : List Sent) (entry : ℕ × MiptpFrame) (queue : List (ℕ × MiptpFrame))
    (stops : IsStop r) where
  abbrev ended : TransportDeamon → Outcome (Unit {0}) × TransportDeamon
  ended d = (verdict r, record (sending more d) { frame_out_queue = entry ∷ queue })

  send_frames_lem :
      (front : List (ℕ × MiptpFrame)) (ns : List ℕ) (d : TransportDeamon)
      → All (λ n. 0 < n) ns
      → length ns ≡ length front
      → send_frames (front ++ entry ∷ queue) (sending (map sent ns ++ r ∷ more) d)
        ≡ ended (wrote front d)
  send_frames_lem [] [] d h l =
      send_frames-stop r more entry queue d stops ∙ ap ended (sym (wrote-nil d))
  send_frames_lem [] (n ∷ ns) d h l = absurd (omega (arith, l))
  send_frames_lem (f ∷ front) [] d h l = absurd (omega (arith, l))
  send_frames_lem (f ∷ front) (n ∷ ns) d h l =
      send_frames-sent n (map sent ns ++ r ∷ more) f (front ++ entry ∷ queue) d h.0
      ∙ send_frames_lem front ns (wrote (f ∷ []) d) h.1 (omega (arith, l))
      ∙ ap ended (wrote-cons f front d)

  -- If the kernel takes as many packets as there are frames before one, each with a byte at least,
  -- and its next result ends the loop, then just these frames are written, this one and those behind
  -- it stay queued, and the loop returns where the packet would have blocked; where no bytes were
  -- taken it throws a broken pipe, and else an error.
  pub send_transport_sock_lem :
      (front : List (ℕ × MiptpFrame)) (ns : List ℕ) (d : TransportDeamon)
      → All (λ n. 0 < n) ns
      → length ns ≡ length front
      → d.frame_out_queue ≡ front ++ entry ∷ queue
      → send_transport_sock (map sent ns ++ r ∷ more) d
        ≡ (verdict r, record (sending more (wrote front d)) { frame_out_queue = entry ∷ queue })
  unfolding send_transport_sock
  send_transport_sock_lem front ns d h l e =
      ap (λ q. send_frames q (sending (map sent ns ++ r ∷ more) d)) e
      ∙ send_frames_lem front ns d h l
