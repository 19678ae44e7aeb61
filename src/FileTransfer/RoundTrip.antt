-- ===== src/FileTransfer/RoundTrip.antt =====
-- The receiver of src/file_receiver.cpp reads what the sender of src/file_sender.cpp writes.
use miptp_cpp.Prelude.{
  ℕ, ◌+◌, ◌^◌, ◌<◌, ◌≡◌, refl, sym, ap, subst, ◌∙◌, List, [], ◌∷◌, ◌++◌, length, length-append,
  take, drop, take-length_append, drop-length_append, take-length_self, append_assoc, append-nil,
  arith,
}
use miptp_cpp.Outcome.{ok, Outcome}
use miptp_cpp.CrossIpc.{AnonymousSocket, Sent, sent, write, read_until, size_bytes}
use miptp_cpp.CrossIpc.Stream.{concat, le_value-size_bytes, length-size_bytes}
use miptp_cpp.CrossIpc.Prefix.{streaming, NonEmpty, read_until-streaming}
use miptp_cpp.FileTransfer.{send_file, receive_sized, receive_file}

-- The bytes of the protocol: `<name size> <name> <file size> <file>`.
abbrev pub sized : List ℕ → List ℕ
sized bytes = size_bytes 8 (length bytes) ++ bytes

abbrev pub protocol : List ℕ → List ℕ → List ℕ
protocol filename buffer = sized filename ++ sized buffer

-- A blocking stream socket takes each write whole.
abbrev pub taking : List ℕ → List ℕ → AnonymousSocket → AnonymousSocket
taking filename buffer s = record s {
  sends = sent 8 ∷ sent (length filename) ∷ sent 8 ∷ sent (length buffer) ∷ [];
}

write_taken :
    (buf : List ℕ) (rest : List Sent) (s : AnonymousSocket)
    → 0 < length buf
    → write buf (record s { sends = sent (length buf) ∷ rest })
      ≡ (ok (length buf), record s { sends = rest; written = s.written ++ buf })
unfolding write
write_taken buf rest s h = ground (arith, take-length_self buf)

write_size :
    (n : ℕ) (rest : List Sent) (s : AnonymousSocket)
    → write (size_bytes 8 n) (record s { sends = sent 8 ∷ rest })
      ≡ (ok 8, record s { sends = rest; written = s.written ++ size_bytes 8 n })
write_size n rest s =
    subst
      (λ k.
        write (size_bytes 8 n) (record s { sends = sent k ∷ rest })
        ≡ (ok k, record s { sends = rest; written = s.written ++ size_bytes 8 n }))
      (length-size_bytes 8 n)
      (write_taken (size_bytes 8 n) rest s (omega (arith, length-size_bytes 8 n)))

-- With a name and a file that are not empty and writes that are taken whole, the sender writes the
-- bytes of the protocol, and counts them.
pub send_file_lem :
    (filename buffer : List ℕ) (s : AnonymousSocket)
    → 0 < length filename
    → 0 < length buffer
    → send_file filename buffer (taking filename buffer s) ≡ (
      ok (8 + length filename + 8 + length buffer),
      record s { sends = []; written = s.written ++ protocol filename buffer },
    )
unfolding send_file
send_file_lem filename buffer s hn hb =
    let n = size_bytes 8 (length filename) in
    let m = size_bytes 8 (length buffer) in
    rw
      (write_size (length filename) (sent (length filename) ∷ sent 8 ∷ sent (length buffer) ∷ []) s)
      (rw
        (write_taken filename (sent 8 ∷ sent (length buffer) ∷ [])
          (record s { written = s.written ++ n }) hn)
        (rw
          (write_size (length buffer) (sent (length buffer) ∷ [])
            (record s { written = (s.written ++ n) ++ filename }))
          (rw
            (write_taken buffer [] (record s { written = ((s.written ++ n) ++ filename) ++ m }) hb)
            (ap
              (λ w. (
                ok (8 + length filename + 8 + length buffer),
                record s { sends = []; written = w },
              ))
              (simp append_assoc)))))

-- Reading as many bytes as a part of the stream has gives that part.
read_part :
    (part rest : List ℕ) (pieces : List (List ℕ)) (s : AnonymousSocket)
    → NonEmpty pieces
    → concat pieces ≡ part ++ rest
    → (left : List (List ℕ)) × NonEmpty left
      × (concat left ≡ rest)
      × (read_until (length part) (streaming pieces s) ≡ (ok part, streaming left s))
read_part part rest pieces s ne e =
    let (left, full, c, r) =
      read_until-streaming (length part) pieces s ne
        (omega (arith, ap length e, length-append part rest)) in
    (
      left,
      full,
      c ∙ ap (drop (length part)) e ∙ drop-length_append part rest,
      r
          ∙ ap (λ bs. (ok bs, streaming left s))
              (ap (take (length part)) e ∙ take-length_append part rest),
    )

receive_sized_lem :
    (bytes rest : List ℕ) (pieces : List (List ℕ)) (s : AnonymousSocket)
    → NonEmpty pieces
    → length bytes < 2 ^ 64
    → concat pieces ≡ sized bytes ++ rest
    → (left : List (List ℕ)) × NonEmpty left
      × (concat left ≡ rest)
      × (receive_sized (streaming pieces s) ≡ (ok bytes, streaming left s))
unfolding receive_sized
receive_sized_lem bytes rest pieces s ne h e =
    let size = size_bytes 8 (length bytes) in
    let (mid, ne1, c1, r1) =
      read_part size (bytes ++ rest) pieces s ne (e ∙ append_assoc size bytes rest) in
    let (left, ne2, c2, r2) = read_part bytes rest mid s ne1 c1 in
    let size_read : read_until 8 (streaming pieces s) ≡ (ok size, streaming mid s) =
      ap (λ k. read_until k (streaming pieces s)) (sym (length-size_bytes 8 (length bytes))) ∙ r1 in
    (left, ne2, c2, rw size_read (rw (le_value-size_bytes 8 (length bytes) h) r2))

-- However the stream is cut into pieces: what the receiver reads from a stream that begins with the
-- bytes of the protocol is the name and the file, if their sizes fit 64 bits, and the bytes after
-- them are left.
pub receive_file-protocol :
    (filename buffer rest : List ℕ) (pieces : List (List ℕ)) (s : AnonymousSocket)
    → NonEmpty pieces
    → length filename < 2 ^ 64
    → length buffer < 2 ^ 64
    → concat pieces ≡ protocol filename buffer ++ rest
    → (left : List (List ℕ)) × (concat left ≡ rest)
      × (receive_file (streaming pieces s) ≡ (ok (filename, buffer), streaming left s))
unfolding receive_file
receive_file-protocol filename buffer rest pieces s ne hn hb e =
    let (mid, ne1, c1, r1) =
      receive_sized_lem filename (sized buffer ++ rest) pieces s ne hn
        (e ∙ append_assoc (sized filename) (sized buffer) rest) in
    let (left, ne2, c2, r2) = receive_sized_lem buffer rest mid s ne1 hb c1 in
    (left, c2, rw r1 (rw r2 refl))

-- End to end: if the bytes that the sender wrote to a fresh socket come out of the receiver's, in
-- whatever pieces, the receiver has the name and the file that were sent.
pub receive_file-send_file :
    (filename buffer : List ℕ) (pieces : List (List ℕ)) (s r : AnonymousSocket)
    → 0 < length filename
    → length filename < 2 ^ 64
    → 0 < length buffer
    → length buffer < 2 ^ 64
    → s.written ≡ []
    → NonEmpty pieces
    → concat pieces ≡ (send_file filename buffer (taking filename buffer s)).1.written
    → (receive_file (streaming pieces r)).0 ≡ ok (filename, buffer)
receive_file-send_file filename buffer pieces s r hn hn' hb hb' fresh ne e =
    let wrote =
      ap (λ (q : Outcome ℕ × AnonymousSocket). q.1.written)
        (send_file_lem filename buffer s hn hb) in
    let bytes : concat pieces ≡ protocol filename buffer ++ [] =
      e
      ∙ wrote
      ∙ ap (λ w. w ++ protocol filename buffer) fresh
      ∙ sym (append-nil (protocol filename buffer)) in
    let (left, c, got) = receive_file-protocol filename buffer [] pieces r ne hn' hb' bytes in
    ap (λ (q : Outcome (List ℕ × List ℕ) × AnonymousSocket). q.0) got
