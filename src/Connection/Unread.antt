-- ===== src/Connection/Unread.antt =====
-- What a socket of src/CrossIPC.cpp has not given to its reader, and the results of a read and a write.
use miptp_cpp.Prelude.{
  ℕ, suc, ◌≤◌, ◌≡◌, inl, inr, refl, sym, ap, ◌∙◌, List, [], ◌∷◌, ◌++◌, length, length-take, take,
  drop, take-append-drop, take_all, append_assoc, ltb, ltb-false→le, ◌==◌, if◌then◌else◌,
  Bool-cases, arith,
}
use miptp_cpp.Outcome.{Outcome, ok, throw}
use miptp_cpp.CrossIpc.{
  AnonymousSocket, Received, received, recv_failed, Sent, sent, send_failed, read, write,
}

-- The bytes that are still to be read.
unfoldable pub unread : List Received → List ℕ
unread [] = []
unread (received bs ∷ rs) = bs ++ unread rs
unread (recv_failed e ∷ rs) = unread rs

-- What a read takes is what comes next, and no more than asked for.
abbrev pub ReadNext : ℕ → List ℕ → Outcome (List ℕ) × AnonymousSocket → Type 0
ReadNext size stream (ok bs, s) = (bs ++ unread s.recvs ≡ stream) × (length bs ≤ size)
ReadNext size stream (throw e, s) = unread s.recvs ≡ stream

piece_left :
    (size : ℕ) (p : List ℕ) (rs : List Received)
    → take size p ++ unread (if ltb size (length p) then received (drop size p) ∷ rs else rs)
      ≡ p ++ unread rs
unfolding unread
piece_left size p rs = elim (Bool-cases (ltb size (length p))) [
  | inl more ↦ rw more (
      sym (append_assoc (take size p) (drop size p) (unread rs))
      ∙ ap (λ l. l ++ unread rs) (take-append-drop size p))
  | inr whole ↦ rw whole (ap (λ l. l ++ unread rs) (take_all size p (ltb-false→le _ _ whole)))
]

pub read-ReadNext :
    (size : ℕ) (rs : List Received) (s : AnonymousSocket)
    → ReadNext (suc size) (unread rs) (read (suc size) (record s { recvs = rs }))
unfolding read unread
read-ReadNext size [] s = refl
read-ReadNext size (received [] ∷ rs) s = refl
read-ReadNext size (received (b ∷ bs) ∷ rs) s =
    (piece_left (suc size) (b ∷ bs) rs, omega (arith, length-take size bs))
read-ReadNext size (recv_failed x ∷ rs) s = refl

-- What a write adds to what has been taken from the writer.
abbrev pub WroteNext : List ℕ → List ℕ → Outcome ℕ × AnonymousSocket → Type 0
WroteNext buf before (ok n, s) = s.written ≡ before ++ take n buf
WroteNext buf before (throw e, s) = s.written ≡ before

sent-WroteNext :
    (buf : List ℕ) (rs : List Sent) (s : AnonymousSocket)
    → WroteNext buf s.written (write buf (record s { sends = rs }))
unfolding write
sent-WroteNext buf [] s = refl
sent-WroteNext buf (send_failed e ∷ rs) s = refl
sent-WroteNext buf (sent n ∷ rs) s = elim (Bool-cases (n == 0)) [
  | inl nothing ↦ rw nothing refl
  | inr some_bytes ↦ rw some_bytes refl
]

pub write-WroteNext : (buf : List ℕ) (s : AnonymousSocket) → WroteNext buf s.written (write buf s)
write-WroteNext buf s = sent-WroteNext buf s.sends s
