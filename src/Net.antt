-- ===== src/Net.antt =====
-- `std::net`: addresses, with the grammar that `str::parse` reads them by, and the parser of
-- unsigned integers. Used by src/parser.rs, src/proxy_protocol.rs, src/security.rs and
-- src/proxy.rs.
pub mod Display
pub mod Printed
mod Tests
use mathlib.Core.List.{foldl}
use barebones_reverse_proxy.Prelude.{
  ℕ, zero, suc, ◌+◌, ◌-◌, ◌*◌, ◌/◌, ◌%◌, Bool, true, false, not, ◌&&◌, ◌||◌, Option, none, some,
  List, [], ◌∷◌, ◌++◌, ltb, leb, ◌==◌, if◌then◌else◌, ◌>>=?◌, Text, length, replicate, is_empty,
  is_ascii_digit, arith, ◌≡◌, ◌↔◌, ◌<◌, Eq,
}

-- An address is the number that its octets or groups spell.
pub data IpAddr : Type 0 where
  v4 v6 : ℕ → IpAddr

abbrev pub ip_eq : IpAddr → IpAddr → Bool
ip_eq (v4 a) (v4 b) = a == b
ip_eq (v6 a) (v6 b) = a == b
ip_eq _ _ = false

pub ip_eq_iff : (a b : IpAddr) → (ip_eq a b ≡ true) ↔ (a ≡ b)
ip_eq_iff (v4 a) (v4 b) = ground arith
ip_eq_iff (v6 a) (v6 b) = ground arith
ip_eq_iff _ _ = ground arith

instance abbrev pub ip_addr_eq : Eq IpAddr
ip_addr_eq = record { beq = ip_eq; beq_iff = ip_eq_iff }

pub record SocketAddr : Type 0 where
  pub ip : IpAddr
  pub port : ℕ

-- The value of a run of decimal digits behind the value read so far.
unfoldable pub decimal : ℕ → Text → Option ℕ
decimal acc [] = some acc
decimal acc (c ∷ s) =
    let rest = decimal (acc * 10 + (c - b'0')) s in if is_ascii_digit c then rest else none

unfoldable pub decimal_digits : Text → Option ℕ
unfolding decimal
decimal_digits [] = none
decimal_digits (c ∷ s) = decimal 0 (c ∷ s)

abbrev below : ℕ → ℕ → Option ℕ
below bound n = if ltb n bound then some n else none

-- `parse::<u16>`, `parse::<u64>` and `parse::<usize>`, by the first value that is out of range.
-- One leading `+` is allowed.
unfoldable pub parse_uint : ℕ → Text → Option ℕ
unfolding decimal_digits
parse_uint bound [] = none
parse_uint bound (c ∷ s) = decimal_digits (if c == b'+' then s else c ∷ s) >>=? below bound

pub parse_uint_lt : (bound : ℕ) (s : Text) (n : ℕ) → parse_uint bound s ≡ some n → n < bound
unfolding parse_uint
parse_uint_lt bound [] n h = absurd (ground arith)
parse_uint_lt bound (c ∷ s) n h = ground arith

-- `char::to_digit`.
digit_value : ℕ → ℕ → Option ℕ
digit_value radix c =
    if is_ascii_digit c
    then below radix (c - b'0')
    else if leb b'a' c && leb c b'z'
    then below radix (c - b'a' + 10)
    else if leb b'A' c && leb c b'Z'
    then below radix (c - b'A' + 10)
    else none

-- A run of digits: its value, how many there are, and what follows.
read_digits : ℕ → ℕ → ℕ → Text → ℕ × ℕ × Text
unfolding digit_value
read_digits radix acc count [] = (acc, count, [])
read_digits radix acc count (c ∷ s) = elim (digit_value radix c) [
  | none ↦ (acc, count, c ∷ s)
  | some d ↦ read_digits radix (acc * radix + d) (count + 1) s
]

abbrev starts_with_zero : Text → Bool
starts_with_zero [] = false
starts_with_zero (c ∷ s) = c == b'0'

-- `Parser::read_number`: at most `max` digits, of a value below `bound`.
read_number : (radix max bound : ℕ) → Bool → Text → Option (ℕ × Text)
unfolding read_digits
read_number radix max bound allow_zero_prefix s =
    let (value, count, rest) = read_digits radix 0 0 s in
    if count == 0 || ltb max count || not (ltb value bound)
    then none
    else if not allow_zero_prefix && starts_with_zero s && ltb 1 count
    then none
    else some (value, rest)

read_given_char : ℕ → Text → Option Text
read_given_char c [] = none
read_given_char c (d ∷ s) = if c == d then some s else none

-- `read_separator`: the separator is wanted before all parts but the first.
read_separator {ℓ} : {A : Type ℓ} → ℕ → Bool → (Text → Option (A × Text)) → Text → Option (A × Text)
unfolding read_given_char
read_separator c first inner s = if first then inner s else (read_given_char c s >>=? inner)

-- The octets of an IPv4 address that are left to read, behind the value of those before.
read_octets : ℕ → Bool → ℕ → Text → Option (ℕ × Text)
unfolding read_separator read_number
read_octets zero first acc s = some (acc, s)
read_octets (suc n) first acc s =
    read_separator b'.' first (read_number 10 3 256 false) s >>=? λ (octet, rest).
    read_octets n false (acc * 256 + octet) rest

read_ipv4_addr : Text → Option (ℕ × Text)
unfolding read_octets
read_ipv4_addr s = read_octets 4 true 0 s

-- The whole text has to be read.
abbrev whole : Option (ℕ × Text) → Option ℕ
whole none = none
whole (some (value, rest)) = if is_empty rest then some value else none

-- `parse::<Ipv4Addr>`.
unfoldable pub parse_ipv4 : Text → Option ℕ
unfolding read_ipv4_addr
parse_ipv4 s = if ltb 15 (length s) then none else whole (read_ipv4_addr s)

-- `read_groups`: at most `n` groups of an IPv6 address, whether the last two came as an IPv4
-- address, and what follows.
read_groups : ℕ → Bool → Text → List ℕ × Bool × Text
unfolding read_separator read_number read_ipv4_addr
read_groups zero first s = ([], false, s)
read_groups (suc n) first s =
    let embedded = if ltb 0 n then read_separator b':' first read_ipv4_addr s else none in
    elim embedded [
      | some (a, rest) ↦ (a / 65536 ∷ a % 65536 ∷ [], true, rest)
      | none ↦ elim (read_separator b':' first (read_number 16 4 65536 true) s) [
        | none ↦ ([], false, s)
        | some (group, rest) ↦
            let (groups, by_ipv4, rest') = read_groups n false rest in
            (group ∷ groups, by_ipv4, rest')
      ]
    ]

abbrev groups_value : List ℕ → ℕ
groups_value = foldl (λ acc g. acc * 65536 + g) 0

-- `read_ipv6_addr`: eight groups, or a head and a tail about `::`.
read_ipv6_addr : Text → Option (ℕ × Text)
unfolding read_groups read_given_char
read_ipv6_addr s =
    let (head, by_ipv4, rest) = read_groups 8 true s in
    if length head == 8
    then some (groups_value head, rest)
    else if by_ipv4
    then none
    else (read_given_char b':' rest >>=? λ r. read_given_char b':' r >>=? λ r'.
        (let (tail, _, rest') = read_groups (8 - (length head + 1)) true r' in
          some
            (groups_value (head ++ (replicate (8 - length head - length tail) 0 ++ tail)), rest')))

-- `parse::<IpAddr>`.
unfoldable pub parse_ip : Text → Option IpAddr
unfolding read_ipv4_addr read_ipv6_addr
parse_ip s = elim (read_ipv4_addr s) [
  | some (a, rest) ↦ if is_empty rest then some (v4 a) else none
  | none ↦ elim (whole (read_ipv6_addr s)) [ none ↦ none | some a ↦ some (v6 a) ]
]
