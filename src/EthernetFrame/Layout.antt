-- ===== src/EthernetFrame/Layout.antt =====
-- Where the setters of src/EthernetFrame.cpp put their bytes.
use miptp_cpp.Prelude.{
  ℕ, ◌+◌, ◌-◌, ◌*◌, ◌/◌, ◌%◌, ◌^◌, ◌<◌, ◌≡◌, refl, sym, ◌∙◌, ap, subst, List, [], ◌∷◌, ◌++◌, true,
  false, none, some, length, take, replicate, ltb, ◌==◌, if◌then◌else◌, set, length-append,
  length-replicate, take-length_self, take_all, append_assoc, append-nil, arith,
}
use miptp_cpp.Bytes.{byte, resize, write_at}
use miptp_cpp.EthernetFrame.{
  EthernetFrame, frame_header_size, empty_frame, from_buffer, set_dest, set_source, set_protocol,
  set_msg_size, get_msg_size, set_msg, get_dest, get_source, get_protocol, get_msg, get_size,
  get_data,
}

set-append : (a : List ℕ) (y x : ℕ) (r : List ℕ) → set (a ++ y ∷ r) (length a) x ≡ a ++ x ∷ r
set-append [] y x r = refl
set-append (b ∷ a) y x r = ap (λ l. b ∷ l) (set-append a y x r)

write_at_parts :
    (a b bs c : List ℕ)
    → length b ≡ length bs
    → write_at (length a) bs (a ++ (b ++ c)) ≡ a ++ (bs ++ c)
unfolding write_at
write_at_parts a [] [] c e = refl
write_at_parts a [] (y ∷ bs) c e = absurd (omega (arith, e))
write_at_parts a (x ∷ b) [] c e = absurd (omega (arith, e))
write_at_parts a (x ∷ b) (y ∷ bs) c e =
    let next : length a + 1 ≡ length (a ++ y ∷ []) = omega (arith, length-append a (y ∷ [])) in
    ap (write_at (length a + 1) bs)
      (set-append a x y (b ++ c) ∙ sym (append_assoc a (y ∷ []) (b ++ c)))
    ∙ ap (λ o. write_at o bs ((a ++ y ∷ []) ++ (b ++ c))) next
    ∙ write_at_parts (a ++ y ∷ []) b bs c (omega (arith, e))
    ∙ append_assoc a (y ∷ []) (bs ++ c)

resize_grow : (n : ℕ) (d : List ℕ) → resize (n + length d) d ≡ d ++ replicate n 0
unfolding resize
resize_grow n d =
    ap (λ xs. xs ++ replicate (n + length d - length d) 0) (take_all (n + length d) d (omega arith))
    ∙ ap (λ k. d ++ replicate k 0) (let same : n + length d - length d ≡ n = omega arith in same)

-- The header of a frame, and a frame with it.
pub header : List ℕ → List ℕ → ℕ → List ℕ
header dest source protocol = dest ++ source ++ protocol % 256 ∷ protocol / 256 % 256 ∷ []

-- A frame filled in by every setter.
abbrev pub filled : List ℕ → List ℕ → ℕ → List ℕ → EthernetFrame
filled dest source protocol msg =
    set_msg msg (length msg) (set_protocol protocol (set_source source (set_dest dest empty_frame)))

-- The message of a frame that had none.
filled_msg :
    (d msg : List ℕ)
    → length d ≡ frame_header_size
    → write_at frame_header_size (take (length msg) msg) (resize (length msg + frame_header_size) d)
      ≡ d ++ msg
filled_msg d msg e =
    let n = length msg in
    ap (λ b. write_at frame_header_size b (resize (n + frame_header_size) d)) (take-length_self msg)
    ∙ ap (λ k. write_at k msg (resize (n + k) d)) (sym e)
    ∙ ap (write_at (length d) msg) (resize_grow n d)
    ∙ ap (λ z. write_at (length d) msg (d ++ z)) (sym (append-nil (replicate n 0)))
    ∙ write_at_parts d (replicate n 0) msg [] (length-replicate {A = ℕ} n 0)
    ∙ ap (λ z. d ++ z) (append-nil msg)

set_msg_lem :
    (d msg : List ℕ)
    → length d ≡ frame_header_size
    → set_msg msg (length msg) (record { m_msg_size = 0; m_data = d })
      ≡ record { m_msg_size = length msg; m_data = d ++ msg }
unfolding set_msg set_msg_size get_msg_size
set_msg_lem d [] e = ap (λ m. record { m_msg_size = 0; m_data = m }) (sym (append-nil d))
set_msg_lem d (x ∷ xs) e =
    let n = length (x ∷ xs) in
    let other : (n == 0) ≡ false = ground arith in
    let grows : ((length d + 2 ^ 64 - frame_header_size) % 2 ^ 64 == n) ≡ false =
      ground (arith, e) in
    let writes : ltb 0 n ≡ true = ground arith in
    rw (other, grows, writes)
      (ap (λ m. record { m_msg_size = n; m_data = m }) (filled_msg d (x ∷ xs) e))

abbrev mac_of : List ℕ → List ℕ
mac_of l = byte l 0 ∷ byte l 1 ∷ byte l 2 ∷ byte l 3 ∷ byte l 4 ∷ byte l 5 ∷ []

mac_of-length : (l : List ℕ) → length l ≡ 6 → mac_of l ≡ l
mac_of-length (a ∷ b ∷ c ∷ d ∷ e ∷ f ∷ []) h = refl
mac_of-length (a ∷ b ∷ c ∷ d ∷ e ∷ f ∷ g ∷ l) h = absurd (omega (arith, h))
mac_of-length [] h = absurd (omega (arith, h))
mac_of-length (a ∷ []) h = absurd (omega (arith, h))
mac_of-length (a ∷ b ∷ []) h = absurd (omega (arith, h))
mac_of-length (a ∷ b ∷ c ∷ []) h = absurd (omega (arith, h))
mac_of-length (a ∷ b ∷ c ∷ d ∷ []) h = absurd (omega (arith, h))
mac_of-length (a ∷ b ∷ c ∷ d ∷ e ∷ []) h = absurd (omega (arith, h))

filled_lem :
    (dest source : List ℕ) (protocol : ℕ) (msg : List ℕ)
    → filled (mac_of dest) (mac_of source) protocol msg ≡ record {
      m_msg_size = length msg;
      m_data = header (mac_of dest) (mac_of source) protocol ++ msg;
    }
unfolding set_dest set_source set_protocol write_at empty_frame header
filled_lem dest source protocol msg =
    set_msg_lem (header (mac_of dest) (mac_of source) protocol) msg refl

-- What the getters read from a frame.
pub read_back : ℕ → EthernetFrame → List ℕ × List ℕ × ℕ × List ℕ
read_back upper f = (get_dest f, get_source f, get_protocol upper f, get_msg f)

-- The frame's own bytes make it again, and the getters read what was set.
pub Restored : List ℕ → List ℕ → ℕ → ℕ → List ℕ → Type 0
Restored dest source protocol upper msg =
    let f = filled dest source protocol msg in
    (from_buffer (get_data f) (get_size f) ≡ some f)
    × (read_back upper f ≡ (dest, source, protocol + 65536 * upper, msg))

from_own_bytes :
    (d msg : List ℕ)
    → length d ≡ frame_header_size
    → from_buffer (d ++ msg) (length msg + frame_header_size)
      ≡ some (record { m_msg_size = length msg; m_data = d ++ msg })
unfolding from_buffer
from_own_bytes d msg e =
    let n = length msg + frame_header_size in
    let enough : ltb n frame_header_size ≡ false = ground arith in
    let size : n - frame_header_size ≡ length msg = omega arith in
    ap
      (λ b.
        if b
        then none
        else some (record { m_msg_size = n - frame_header_size; m_data = take n (d ++ msg) }))
      enough
    ∙ ap (λ k. some (record { m_msg_size = k; m_data = take n (d ++ msg) })) size
    ∙ ap (λ l. some (record { m_msg_size = length msg; m_data = l }))
        (take_all n (d ++ msg) (omega (arith, length-append d msg, e)))

from_buffer-mac :
    (dest source : List ℕ) (protocol upper : ℕ) (msg : List ℕ)
    → protocol < 2 ^ 16
    → Restored (mac_of dest) (mac_of source) protocol upper msg
unfolding Restored from_buffer get_data get_size read_back get_dest get_source get_protocol get_msg
    header
from_buffer-mac dest source protocol upper msg p =
    let own = sym (filled_lem dest source protocol msg) in
    subst
      (λ f.
        (from_buffer (get_data f) (get_size f) ≡ some f)
        × (read_back upper f ≡ (mac_of dest, mac_of source, protocol + 65536 * upper, msg)))
      own
      (
        from_own_bytes (header (mac_of dest) (mac_of source) protocol) msg refl,
        ap (λ q. (mac_of dest, mac_of source, q, msg)) (omega arith),
      )

-- A frame that every setter has filled in is cut to its size by the constructor from a buffer, and
-- that frame has the addresses, the message, and the protocol's lower half.
pub from_buffer-filled :
    (dest source : List ℕ) (protocol upper : ℕ) (msg : List ℕ)
    → length dest ≡ 6
    → length source ≡ 6
    → protocol < 2 ^ 16
    → Restored dest source protocol upper msg
from_buffer-filled dest source protocol upper msg d s p =
    subst (λ a. Restored a source protocol upper msg) (mac_of-length dest d)
      (subst (λ b. Restored (mac_of dest) b protocol upper msg) (mac_of-length source s)
        (from_buffer-mac dest source protocol upper msg p))
