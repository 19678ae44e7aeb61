-- ===== src/AddressTypes.antt =====
-- The addresses as text, of src/AddressTypes.cpp. An address of Ethernet is the list of its six bytes.
use miptp_cpp.Prelude.{
  ℕ, zero, suc, ◌+◌, ◌-◌, ◌*◌, ◌/◌, ◌%◌, ◌≤◌, ◌<◌, ◌≡◌, sym, ap, ◌∙◌, true, false, List, [], ◌∷◌,
  ◌++◌, length, ltb, ◌==◌, if◌then◌else◌, Bool-cases, inl, inr, ltb→lt, ltb-false→le, append-nil,
  append_assoc, arith,
}
use miptp_cpp.CrossIpc.Strings.{to_string}

unfoldable pub to_string_mip_address : ℕ → List ℕ
to_string_mip_address mip = to_string mip

unfoldable pub to_string_port : ℕ → List ℕ
to_string_port port = to_string port

-- `std::hex`: `fuel` is at least the number of digits.
hex_digit : ℕ → ℕ
hex_digit d = if ltb d 10 then b'0' + d else b'a' + (d - 10)

hex : ℕ → ℕ → List ℕ
unfolding hex_digit
hex zero n = []
hex (suc fuel) n =
    let front = hex fuel (n / 16) in
    if ltb n 16 then hex_digit n ∷ [] else front ++ hex_digit (n % 16) ∷ []

unfoldable pub to_string_mac_address : List ℕ → List ℕ
unfolding hex
to_string_mac_address [] = []
to_string_mac_address (b ∷ []) = hex (b + 1) b
to_string_mac_address (b ∷ c ∷ bs) = hex (b + 1) b ++ b':' ∷ to_string_mac_address (c ∷ bs)

-- Reading such a text back, with the value of the digits before it.
parse : ℕ → List ℕ → List ℕ
parse v [] = v ∷ []
parse v (c ∷ cs) =
    let next = v ∷ parse 0 cs in
    let small = parse (16 * v + (c - b'0')) cs in
    let large = parse (16 * v + (c - b'a' + 10)) cs in
    if c == b':' then next else if ltb c b':' then small else large

parse-digit :
    (v d : ℕ) (rest : List ℕ) → d < 16 → parse v (hex_digit d ∷ rest) ≡ parse (16 * v + d) rest
unfolding parse hex_digit
parse-digit v d rest h = elim (Bool-cases (ltb d 10)) [
  | inl small ↦
      let b = ltb→lt d 10 small in
      let colon : (b'0' + d == b':') ≡ false = ground arith in
      let below : ltb (b'0' + d) b':' ≡ true = ground arith in
      rw (small, colon, below) (ap (λ n. parse (16 * v + n) rest) (omega arith))
  | inr large ↦
      let b = ltb-false→le d 10 large in
      let colon : (b'a' + (d - 10) == b':') ≡ false = ground arith in
      let above : ltb (b'a' + (d - 10)) b':' ≡ false = ground arith in
      rw (large, colon, above) (ap (λ n. parse (16 * v + n) rest) (omega arith))
]

parse-hex : (fuel n : ℕ) (rest : List ℕ) → n < fuel → parse 0 (hex fuel n ++ rest) ≡ parse n rest
unfolding hex
parse-hex zero n rest h = absurd (omega arith)
parse-hex (suc fuel) n rest h = elim (Bool-cases (ltb n 16)) [
  | inl small ↦
      rw small (parse-digit 0 n rest (ltb→lt n 16 small) ∙ ap (λ v. parse v rest) (omega arith))
  | inr large ↦
      let b = ltb-false→le n 16 large in
      rw (large, append_assoc (hex fuel (n / 16)) (hex_digit (n % 16) ∷ []) rest)
        (parse-hex fuel (n / 16) (hex_digit (n % 16) ∷ rest) (omega arith)
          ∙ parse-digit (n / 16) (n % 16) rest (omega arith)
          ∙ ap (λ v. parse v rest) (omega arith))
]

parse-to_string : (mac : List ℕ) → 1 ≤ length mac → parse 0 (to_string_mac_address mac) ≡ mac
unfolding to_string_mac_address parse
parse-to_string [] h = absurd (omega arith)
parse-to_string (b ∷ []) h =
    ap (parse 0) (sym (append-nil (hex (b + 1) b))) ∙ parse-hex (b + 1) b [] (omega arith)
parse-to_string (b ∷ c ∷ bs) h =
    parse-hex (b + 1) b (b':' ∷ to_string_mac_address (c ∷ bs)) (omega arith)
    ∙ ap (λ l. b ∷ l) (parse-to_string (c ∷ bs) (omega arith))

-- Two Ethernet addresses have the same text only if they are the same.
pub to_string_mac_address-injective :
    (a b : List ℕ)
    → length a ≡ 6
    → length b ≡ 6
    → to_string_mac_address a ≡ to_string_mac_address b
    → a ≡ b
to_string_mac_address-injective a b l k same =
    sym (parse-to_string a (omega arith)) ∙ ap (parse 0) same ∙ parse-to_string b (omega arith)
