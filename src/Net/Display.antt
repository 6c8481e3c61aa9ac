-- ===== src/Net/Display.antt =====
-- `Display` of numbers and of `std::net`'s addresses. Used by src/proxy.rs and src/error_pages.rs.
use native.Mathlib.Nat.{pow-succ'}
use barebones_reverse_proxy.Prelude.{
  ℕ, zero, suc, ◌+◌, ◌-◌, ◌*◌, ◌/◌, ◌%◌, ◌^◌, ◌<◌, ◌≤◌, ◌≡◌, refl, sym, ap, subst, ◌∙◌, false, some,
  List, [], ◌∷◌, ◌++◌, ltb, ◌==◌, if◌then◌else◌, Text, lit, take, drop, Bool-cases, lt→ltb, inl,
  inr, arith,
}
use barebones_reverse_proxy.Net.{IpAddr, v4, v6, decimal, decimal_digits, parse_uint}

abbrev digit : ℕ → ℕ
digit d = if ltb d 10 then b'0' + d else b'a' + (d - 10)

-- The digits of a number before those that are written already; `fuel` bounds their count.
unfoldable pub digits : (radix fuel n : ℕ) → Text → Text
digits radix zero n written = written
digits radix (suc fuel) n written =
    let rest = digits radix fuel (n / radix) (digit (n % radix) ∷ written) in
    if ltb n radix then digit n ∷ written else rest

-- `to_string` of an integer of at most 64 bits, which has at most 20 digits.
unfoldable pub to_string : ℕ → Text
to_string n = digits 10 20 n []

-- `{:x}` of 16 bits.
abbrev hex : ℕ → Text
hex n = digits 16 4 n []

unfoldable pub ipv4_to_string : ℕ → Text
unfolding to_string
ipv4_to_string a =
    to_string (a / 16777216)
    ++ (b'.'
        ∷ (to_string (a / 65536 % 256)
            ++ (b'.' ∷ (to_string (a / 256 % 256) ++ (b'.' ∷ to_string (a % 256))))))

-- The last `n` groups of an IPv6 address.
groups_of : ℕ → ℕ → List ℕ
groups_of zero a = []
groups_of (suc n) a = a / 65536 ^ n % 65536 ∷ groups_of n a

-- Where the first longest run of zeros starts, and how long it is: the run that ends here has
-- length `run`, the best so far is at `at`, of length `len`.
longest_run : (index run at len : ℕ) → List ℕ → ℕ × ℕ
longest_run index run at len [] = (at, len)
longest_run index run at len (g ∷ gs) =
    let longer = longest_run (suc index) (suc run) (index - run) (suc run) gs in
    let same = longest_run (suc index) (suc run) at len gs in
    let broken = longest_run (suc index) 0 at len gs in
    if g == 0 then (if ltb len (suc run) then longer else same) else broken

-- `fmt_subslice`.
colons : List ℕ → Text
colons [] = []
colons (g ∷ []) = hex g
colons (g ∷ h ∷ gs) = hex g ++ (b':' ∷ colons (h ∷ gs))

unfoldable pub ipv6_to_string : ℕ → Text
unfolding groups_of longest_run colons
ipv6_to_string a =
    let groups = groups_of 8 a in
    let (at, len) = longest_run 0 0 0 0 groups in
    if a / 4294967296 == 0xffff
    then lit "::ffff:" ++ ipv4_to_string (a % 4294967296)
    else if ltb 1 len
    then colons (take at groups) ++ (lit "::" ++ colons (drop (at + len) groups))
    else colons groups

unfoldable pub ip_to_string : IpAddr → Text
ip_to_string (v4 a) = ipv4_to_string a
ip_to_string (v6 a) = ipv6_to_string a

digits_left : (fuel n : ℕ) → n < 10 ^ suc fuel → n / 10 < 10 ^ fuel
digits_left fuel n h =
    let h' : n < 10 * 10 ^ fuel = subst (λ b. n < b) (pow-succ' 10 fuel) h in omega arith

decimal-digits :
    (fuel n : ℕ) (written : Text)
    → n < 10 ^ fuel
    → decimal 0 (digits 10 fuel n written) ≡ decimal n written
unfolding decimal digits
decimal-digits zero n written h = let h' : n < 1 = h in let e : n ≡ 0 = omega arith in rw e
decimal-digits (suc fuel) n written h = elim (Bool-cases (ltb n 10)) [
  | inl small ↦ rw small (ground arith)
  | inr large ↦ rw large (
      decimal-digits fuel (n / 10) (digit (n % 10) ∷ written) (digits_left fuel n h) ∙ ground arith)
]

-- A printed number begins with a digit.
digits_first :
    (fuel n : ℕ) (written : Text)
    → (c : ℕ) × (s : Text) × (digits 10 (suc fuel) n written ≡ c ∷ s) × ((c == b'+') ≡ false)
unfolding digits
digits_first zero n written = elim (Bool-cases (ltb n 10)) [
  | inl small ↦ (digit n, written, rw small, ground arith)
  | inr large ↦ (digit (n % 10), written, rw large, ground arith)
]
digits_first (suc fuel) n written = elim (Bool-cases (ltb n 10)) [
  | inl small ↦ (digit n, written, rw small, ground arith)
  | inr large ↦
      let (c, s, e, sign) = digits_first fuel (n / 10) (digit (n % 10) ∷ written) in
      (c, s, rw large e, sign)
]

decimal_nil : (n : ℕ) → decimal n [] ≡ some n
unfolding decimal
decimal_nil n = refl

-- A number below a bound that 20 digits reach is read back from what is printed.
pub parse_uint-to_string :
    (bound n : ℕ) → n < bound → bound ≤ 10 ^ 20 → parse_uint bound (to_string n) ≡ some n
unfolding parse_uint to_string decimal_digits
parse_uint-to_string bound n h cap =
    let (c, s, e, sign) = digits_first 19 n [] in
    let small : n < 10 ^ 20 = omega arith in
    let value : decimal 0 (c ∷ s) ≡ decimal n [] =
      ap (decimal 0) (sym e) ∙ decimal-digits 20 n [] small in
    rw (e, sign, value, decimal_nil n, lt→ltb n bound h)
