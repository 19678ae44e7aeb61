-- ===== src/CrossIpc/Strings.antt =====
-- Strings over a socket, and the text that names a socket for another process, of src/CrossIPC.cpp.
use miptp_cpp.Prelude.{
  ℕ, zero, suc, ◌+◌, ◌-◌, ◌*◌, ◌/◌, ◌%◌, ◌≤◌, ◌<◌, ◌≡◌, refl, ap, ◌∙◌, true, false, List, [], ◌∷◌,
  ◌++◌, All, length, take, drop, ltb, ◌==◌, if◌then◌else◌, length-take, length-drop,
  take-append-drop, Bool-cases, inl, inr, ltb→lt, ltb-false→le, All-append, append_assoc, arith,
}
use miptp_cpp.Outcome.{would_block, Outcome, ok, throw, M, continue}
use miptp_cpp.CrossIpc.{AnonymousSocket, Received, received, recv_failed, read, write, left_over}
use miptp_cpp.CrossIpc.Stream.{read-piece}

-- `writeString(str)`
unfoldable pub write_string : List ℕ → M AnonymousSocket ℕ
write_string str = write str

-- `ss << buf`: what stands before the first null byte.
unfoldable pub c_string : List ℕ → List ℕ
c_string [] = []
c_string (b ∷ bs) = let rest = c_string bs in if b == 0 then [] else b ∷ rest

abbrev pub string_room : ℕ
string_room = 1023

-- The loop of `readString`: it ends with a read that leaves room in the buffer.
read_string_loop : ℕ → List ℕ → M AnonymousSocket (List ℕ)
unfolding c_string
read_string_loop zero got s = (throw would_block, s)
read_string_loop (suc fuel) got s =
    continue
      (λ buf t.
        let all = got ++ c_string buf in
        let more = read_string_loop fuel all t in
        if ltb (length buf) string_room then (ok all, t) else more)
      (read string_room s)

-- How many bytes wait; a read that does not throw takes one at least.
unfoldable pub available : List Received → ℕ
available [] = 0
available (received bs ∷ rs) = length bs + available rs
available (recv_failed e ∷ rs) = available rs

unfoldable pub read_string : M AnonymousSocket (List ℕ)
unfolding read_string_loop available
read_string s = read_string_loop (available s.recvs + 1) [] s

-- `ss << m_fd`, for a descriptor that is not negative: `fuel` is at least the number of digits.
unfoldable pub decimal : ℕ → ℕ → List ℕ
decimal zero n = []
decimal (suc fuel) n =
    let front = decimal fuel (n / 10) in
    if ltb n 10 then (48 + n) ∷ [] else front ++ (48 + n % 10) ∷ []

unfoldable pub to_string : ℕ → List ℕ
unfolding decimal
to_string fd = decimal (fd + 1) fd

-- `std::atoi` on a text of digits.
unfoldable pub atoi_from : ℕ → List ℕ → ℕ
atoi_from value [] = value
atoi_from value (c ∷ cs) =
    let rest = atoi_from (10 * value + (c - 48)) cs in
    if ltb c 48 then value else if ltb 57 c then value else rest

unfoldable pub atoi : List ℕ → ℕ
unfolding atoi_from
atoi text = atoi_from 0 text

IsDigits : List ℕ → Type 0
IsDigits = All (λ c. (48 ≤ c) × (c ≤ 57))

-- A digit more at the end.
atoi_from-append :
    (value d : ℕ) (text : List ℕ)
    → IsDigits text
    → d < 10
    → atoi_from value (text ++ (48 + d) ∷ []) ≡ 10 * atoi_from value text + d
unfolding atoi_from IsDigits
atoi_from-append value d [] h l = ground arith
atoi_from-append value d (c ∷ cs) h l =
    let rest = atoi_from-append (10 * value + (c - 48)) d cs h.1 l in
    let low : ltb c 48 ≡ false = ground (arith, h.0) in
    let high : ltb 57 c ≡ false = ground (arith, h.0) in rw (low, high) rest

decimal-IsDigits : (fuel n : ℕ) → IsDigits (decimal fuel n)
unfolding decimal IsDigits
decimal-IsDigits zero n = tt
decimal-IsDigits (suc fuel) n = elim (Bool-cases (ltb n 10)) [
  | inl small ↦ rw small ((omega arith, (let h : n < 10 = ltb→lt n 10 small in omega arith)), tt)
  | inr large ↦ rw large (
      All-append _ (decimal fuel (n / 10)) _ (decimal-IsDigits fuel (n / 10))
        ((omega arith, omega arith), tt))
]

one_digit : (n : ℕ) → n < 10 → atoi_from 0 ((48 + n) ∷ []) ≡ n
unfolding atoi_from
one_digit n h = ground arith

atoi-decimal : (fuel n : ℕ) → n < fuel → atoi_from 0 (decimal fuel n) ≡ n
unfolding decimal
atoi-decimal zero n h = absurd (omega arith)
atoi-decimal (suc fuel) n h = elim (Bool-cases (ltb n 10)) [
  | inl small ↦ rw small (one_digit n (ltb→lt n 10 small))
  | inr large ↦
      let b = ltb-false→le n 10 large in
      rw large (
        atoi_from-append 0 (n % 10) (decimal fuel (n / 10)) (decimal-IsDigits fuel (n / 10))
          (omega arith)
        ∙ ap (λ v. 10 * v + n % 10) (atoi-decimal fuel (n / 10) (omega arith))
        ∙ omega arith)
]

pub atoi-to_string : (fd : ℕ) → atoi (to_string fd) ≡ fd
unfolding atoi to_string
atoi-to_string fd = atoi-decimal (fd + 1) fd (omega arith)

-- A text without a null byte.
abbrev pub NoNull : List ℕ → Type 0
NoNull = All (λ b. 0 < b)

c_string-NoNull : (str : List ℕ) → NoNull str → c_string str ≡ str
unfolding c_string
c_string-NoNull [] h = refl
c_string-NoNull (b ∷ bs) h =
    let other : (b == 0) ≡ false = ground (arith, h.0) in
    rw other (ap (λ l. b ∷ l) (c_string-NoNull bs h.1))

NoNull-take : (n : ℕ) (str : List ℕ) → NoNull str → NoNull (take n str)
NoNull-take zero str h = tt
NoNull-take (suc n) [] h = tt
NoNull-take (suc n) (b ∷ bs) h = (h.0, NoNull-take n bs h.1)

NoNull-drop : (n : ℕ) (str : List ℕ) → NoNull str → NoNull (drop n str)
NoNull-drop zero str h = h
NoNull-drop (suc n) [] h = tt
NoNull-drop (suc n) (b ∷ bs) h = NoNull-drop n bs h.1

-- One read of a piece that is longer than the buffer.
read_long :
    (str : List ℕ) (s : AnonymousSocket)
    → string_room < length str
    → read string_room (record s { recvs = received str ∷ [] })
      ≡ (ok (take string_room str), record s { recvs = received (drop string_room str) ∷ [] })
unfolding read left_over
read_long [] s h = absurd (omega arith)
read_long (b ∷ bs) s h =
    let more : ltb string_room (length (b ∷ bs)) ≡ true = ground arith in rw more refl

-- How `readString` ends, by what is left of the length beside whole buffers.
pub ending : ℕ → List ℕ → AnonymousSocket → Outcome (List ℕ) × AnonymousSocket
ending rest all s =
    if rest == 0
    then (throw would_block, record s { recvs = [] })
    else (ok all, record s { recvs = [] })

loop-nothing :
    (fuel : ℕ) (got : List ℕ) (s : AnonymousSocket)
    → read_string_loop fuel got (record s { recvs = [] })
      ≡ (throw would_block, record s { recvs = [] })
unfolding read_string_loop read
loop-nothing zero got s = refl
loop-nothing (suc fuel) got s = refl

-- The last read, when what waits fits the buffer.
last_read :
    (fuel : ℕ) (str got : List ℕ) (s : AnonymousSocket)
    → NoNull str
    → 0 < length str
    → length str ≤ string_room
    → read_string_loop (suc fuel) got (record s { recvs = received str ∷ [] })
      ≡ ending (length str % string_room) (got ++ str) s
unfolding read_string_loop ending
last_read fuel str got s h p l =
    rw
      (
        read-piece string_room str [] s (λ e. (let n : length str ≡ 0 = ap length e in omega arith))
            l,
        c_string-NoNull str h,
      )
      (elim (Bool-cases (ltb (length str) string_room)) [
        | inl less ↦
            let b = ltb→lt _ _ less in
            let other : (length str % string_room == 0) ≡ false = ground arith in
            rw (less, other) refl
        | inr full ↦
            let b = ltb-false→le _ _ full in
            let whole : (length str % string_room == 0) ≡ true = ground arith in
            rw (full, whole) (loop-nothing fuel (got ++ str) s)
      ])

read_string_loop-piece :
    (fuel : ℕ) (str got : List ℕ) (s : AnonymousSocket)
    → NoNull str
    → 0 < length str
    → length str < fuel
    → read_string_loop fuel got (record s { recvs = received str ∷ [] })
      ≡ ending (length str % string_room) (got ++ str) s
unfolding read_string_loop
read_string_loop-piece zero str got s h p f = absurd (omega arith)
read_string_loop-piece (suc fuel) str got s h p f =
    elim (Bool-cases (ltb string_room (length str))) [
      | inl long ↦
          let b = ltb→lt _ _ long in
          let front = take string_room str in
          let back = drop string_room str in
          let n : length back ≡ length str - string_room = length-drop string_room str in
          let full : ltb (length front) string_room ≡ false =
            ground (arith, length-take string_room str) in
          let same : length back % string_room ≡ length str % string_room = omega arith in
          rw (read_long str s b, full, c_string-NoNull front (NoNull-take string_room str h))
            (read_string_loop-piece fuel back (got ++ front) s (NoNull-drop string_room str h)
                (omega arith) (omega arith)
              ∙ ap (λ r. ending r ((got ++ front) ++ back) s) same
              ∙ ap (λ all. ending (length str % string_room) all s)
                  (append_assoc got front back
                    ∙ ap (λ l. got ++ l) (take-append-drop string_room str)))
      | inr short ↦ last_read fuel str got s h p (ltb-false→le _ _ short)
    ]

-- A text without null bytes that waits in one piece is read whole, unless its length is a multiple
-- of 1023, the room of the buffer: then `readString` has taken all of it and waits for more, which
-- on a nonblocking socket throws, and the text is lost.
pub read_string_lem :
    (str : List ℕ) (s : AnonymousSocket)
    → NoNull str
    → 0 < length str
    → read_string (record s { recvs = received str ∷ [] }) ≡ ending (length str % string_room) str s
unfolding read_string available
read_string_lem str s h p = read_string_loop-piece (length str + 0 + 1) str [] s h p (omega arith)
