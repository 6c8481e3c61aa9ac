-- ===== src/Net/Printed.antt =====
-- `std::net`: an IPv4 address is read back from what is printed of it.
use barebones_reverse_proxy.Prelude.{
  ℕ, suc, ◌+◌, ◌*◌, ◌/◌, ◌%◌, ◌<◌, ◌≤◌, ◌≡◌, refl, sym, ap, ap₂, ◌∙◌, true, false, ◌&&◌, some, [],
  ◌∷◌, ◌++◌, ltb, ◌==◌, Text, Bool-cases, inl, inr, arith, lt→ltb, le→ltb, ltb→lt, ltb→le,
  append-nil,
}
use barebones_reverse_proxy.Net.{
  v4, digit_value, read_digits, read_number, read_octets, read_separator, read_given_char,
  read_ipv4_addr, parse_ip,
}
use barebones_reverse_proxy.Net.Display.{digits, to_string, ipv4_to_string, ip_to_string}

digit-digit_value : (d : ℕ) → d < 10 → digit_value 10 (b'0' + d) ≡ some d
unfolding digit_value
digit-digit_value d h = ground arith

-- One digit more.
read_digits-digit :
    (acc count d acc' count' : ℕ) (s : Text)
    → d < 10
    → acc * 10 + d ≡ acc'
    → count + 1 ≡ count'
    → read_digits 10 acc count ((b'0' + d) ∷ s) ≡ read_digits 10 acc' count' s
unfolding read_digits
read_digits-digit acc count d acc' count' s h e e' =
    rw (read_digits, digit-digit_value d h) (ap₂ (λ a c. read_digits 10 a c s) e e')

-- The digits of an octet.
to_string-small : (o : ℕ) → o < 10 → to_string o ≡ (b'0' + o) ∷ []
unfolding to_string digits
to_string-small o h = rw (lt→ltb o 10 h)

to_string-middle : (o : ℕ) → 10 ≤ o → o < 100 → to_string o ≡ (b'0' + o / 10) ∷ (b'0' + o % 10) ∷ []
unfolding to_string digits
to_string-middle o h k =
    let small : o / 10 < 10 = omega arith in
    let last : o % 10 < 10 = omega arith in
    rw (le→ltb o 10 h, lt→ltb (o / 10) 10 small, lt→ltb (o % 10) 10 last)

to_string-large :
    (o : ℕ)
    → 100 ≤ o
    → o < 1000
    → to_string o ≡ (b'0' + o / 10 / 10) ∷ (b'0' + o / 10 % 10) ∷ (b'0' + o % 10) ∷ []
unfolding to_string digits
to_string-large o h k =
    let first : o / 10 / 10 < 10 = omega arith in
    let many : 10 ≤ o / 10 = omega arith in
    let ten : 10 ≤ o = omega arith in
    let mid : o / 10 % 10 < 10 = omega arith in
    let last : o % 10 < 10 = omega arith in
    rw (
      le→ltb o 10 ten,
      le→ltb (o / 10) 10 many,
      lt→ltb (o / 10 / 10) 10 first,
      lt→ltb (o / 10 % 10) 10 mid,
      lt→ltb (o % 10) 10 last,
    )

-- Whatever is read so far, the digits end in front of the rest.
abbrev Ends : Text → Type 0
Ends rest = (acc count : ℕ) → read_digits 10 acc count rest ≡ (acc, count, rest)

number-small :
    (o : ℕ) (rest : Text)
    → Ends rest
    → o < 10
    → read_number 10 3 256 false (to_string o ++ rest) ≡ some (o, rest)
unfolding read_number
number-small o rest ends h =
    let e : read_digits 10 0 0 ((b'0' + o) ∷ rest) ≡ (o, 1, rest) =
      read_digits-digit 0 0 o o 1 rest h (omega arith) refl ∙ ends o 1 in
    let below : ltb o 256 ≡ true = lt→ltb o 256 (omega arith) in
    let plain : (true && ((b'0' + o) == b'0') && false) ≡ false = ground arith in
    rw (to_string-small o h, e, below, plain) refl

number-middle :
    (o : ℕ) (rest : Text)
    → Ends rest
    → 10 ≤ o
    → o < 100
    → read_number 10 3 256 false (to_string o ++ rest) ≡ some (o, rest)
unfolding read_number
number-middle o rest ends h k =
    let e : read_digits 10 0 0 ((b'0' + o / 10) ∷ (b'0' + o % 10) ∷ rest) ≡ (o, 2, rest) =
      read_digits-digit 0 0 (o / 10) (o / 10) 1 _ (omega arith) (omega arith) refl
      ∙ read_digits-digit (o / 10) 1 (o % 10) o 2 rest (omega arith) (omega arith) refl
      ∙ ends o 2 in
    let below : ltb o 256 ≡ true = lt→ltb o 256 (omega arith) in
    let first : ((b'0' + o / 10) == b'0') ≡ false = ground arith in
    rw (to_string-middle o h k, e, below, first) refl

number-large :
    (o : ℕ) (rest : Text)
    → Ends rest
    → 100 ≤ o
    → o < 256
    → read_number 10 3 256 false (to_string o ++ rest) ≡ some (o, rest)
unfolding read_number
number-large o rest ends h k =
    let e : read_digits 10 0 0
          ((b'0' + o / 10 / 10) ∷ (b'0' + o / 10 % 10) ∷ (b'0' + o % 10) ∷ rest)
        ≡ (o, 3, rest) =
      read_digits-digit 0 0 (o / 10 / 10) (o / 10 / 10) 1 _ (omega arith) (omega arith) refl
      ∙ read_digits-digit (o / 10 / 10) 1 (o / 10 % 10) (o / 10) 2 _ (omega arith) (omega arith)
          refl
      ∙ read_digits-digit (o / 10) 2 (o % 10) o 3 rest (omega arith) (omega arith) refl
      ∙ ends o 3 in
    let below : ltb o 256 ≡ true = lt→ltb o 256 k in
    let first : ((b'0' + o / 10 / 10) == b'0') ≡ false = ground arith in
    rw (to_string-large o h (omega arith), e, below, first) refl

-- An octet is read back in front of anything that does not go on with a digit.
number-to_string :
    (o : ℕ) (rest : Text)
    → Ends rest
    → o < 256
    → read_number 10 3 256 false (to_string o ++ rest) ≡ some (o, rest)
number-to_string o rest ends h = elim (Bool-cases (ltb o 10)) [
  | inl b ↦ number-small o rest ends (ltb→lt o 10 b)
  | inr b ↦ elim (Bool-cases (ltb o 100)) [
    | inl c ↦ number-middle o rest ends (ltb→le o 10 b) (ltb→lt o 100 c)
    | inr c ↦ number-large o rest ends (ltb→le o 100 c) h
  ]
]

Ends-nil : Ends []
unfolding read_digits
Ends-nil acc count = refl

Ends-dot : (s : Text) → Ends (b'.' ∷ s)
unfolding read_digits digit_value
Ends-dot s acc count = refl

octets-first :
    (n o : ℕ) (rest : Text)
    → Ends rest
    → o < 256
    → read_octets (suc n) true 0 (to_string o ++ rest) ≡ read_octets n false o rest
unfolding read_octets read_separator
octets-first n o rest ends h =
    let zero_up : 0 * 256 + o ≡ o = omega arith in rw (number-to_string o rest ends h, zero_up) refl

octets-next :
    (n acc o acc' : ℕ) (rest : Text)
    → Ends rest
    → o < 256
    → acc * 256 + o ≡ acc'
    → read_octets (suc n) false acc (b'.' ∷ (to_string o ++ rest)) ≡ read_octets n false acc' rest
unfolding read_octets read_separator read_given_char
octets-next n acc o acc' rest ends h e = rw (number-to_string o rest ends h, e) refl

octets-done : (acc : ℕ) → read_octets 0 false acc [] ≡ some (acc, [])
unfolding read_octets
octets-done acc = refl

read_ipv4_addr-ipv4_to_string :
    (a : ℕ) → a < 4_294_967_296 → read_ipv4_addr (ipv4_to_string a) ≡ some (a, [])
unfolding read_ipv4_addr ipv4_to_string
read_ipv4_addr-ipv4_to_string a h =
    let last = to_string (a % 256) in
    octets-first 3 (a / 16777216) _ (Ends-dot _) (omega arith)
    ∙ octets-next 2 (a / 16777216) (a / 65536 % 256) (a / 65536) _ (Ends-dot _) (omega arith)
        (omega arith)
    ∙ octets-next 1 (a / 65536) (a / 256 % 256) (a / 256) _ (Ends-dot _) (omega arith) (omega arith)
    ∙ ap (λ t. read_octets 1 false (a / 256) (b'.' ∷ t)) (sym (append-nil last))
    ∙ octets-next 0 (a / 256) (a % 256) a [] Ends-nil (omega arith) (omega arith)
    ∙ octets-done a

-- An IPv4 address, of at most 32 bits, is read back.
pub parse_ip-ip_to_string :
    (a : ℕ) → a < 4_294_967_296 → parse_ip (ip_to_string (v4 a)) ≡ some (v4 a)
unfolding parse_ip ip_to_string
parse_ip-ip_to_string a h = rw (parse_ip, read_ipv4_addr-ipv4_to_string a h) refl
