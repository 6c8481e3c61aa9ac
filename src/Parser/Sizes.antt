-- ===== src/Parser/Sizes.antt =====
-- src/parser.rs, `parse_size_string`: sizes with a unit.
use mathlib.Core.List.{reverse, reverse-append, reverse-reverse}
use barebones_reverse_proxy.Prelude.{
  ℕ, ◌*◌, ◌≡◌, refl, ap, ◌∙◌, Bool, true, false, ◌||◌, some, [], ◌∷◌, ◌++◌, ok, err, if◌then◌else◌,
  Bool-cases, inl, inr, any, ltb, is_empty, Text, trim, trim_start, trim_end, is_whitespace,
  word_mod, checked_mul, arith,
}
use barebones_reverse_proxy.Net.{parse_uint}
use barebones_reverse_proxy.Error.{invalid_security_value}
use barebones_reverse_proxy.Parser.{size_unit, parse_size_string}

any-append : (p : ℕ → Bool) (s t : Text) → any p (s ++ t) ≡ (any p s || any p t)
any-append p [] t = refl
any-append p (c ∷ s) t = ground (arith, any-append p s t)

any-reverse : (p : ℕ → Bool) (s : Text) → any p (reverse s) ≡ any p s
any-reverse p [] = refl
any-reverse p (c ∷ s) =
    ap (any p) (reverse-append (c ∷ []) s)
    ∙ ground (arith, any-append p (reverse s) (c ∷ []), any-reverse p s)

trim_start_lem : (p : ℕ → Bool) (s : Text) → any p s ≡ false → trim_start p s ≡ s
unfolding trim_start
trim_start_lem p [] h = refl
trim_start_lem p (c ∷ s) h = ground arith

-- A text without white space is left as it is.
pub trim_lem : (s : Text) → any is_whitespace s ≡ false → trim s ≡ s
unfolding trim trim_end
trim_lem s h =
    let front = trim_start_lem is_whitespace s h in
    let back = trim_start_lem is_whitespace (reverse s) (any-reverse is_whitespace s ∙ h) in
    rw (front, back) (reverse-reverse s)

-- The units that a letter stands for, in lower or upper case.
pub data SizeUnit : Type 0 where
  kilo mega giga : SizeUnit

abbrev pub letter : SizeUnit → Bool → ℕ
letter kilo upper = if upper then b'K' else b'k'
letter mega upper = if upper then b'M' else b'm'
letter giga upper = if upper then b'G' else b'g'

abbrev pub factor : SizeUnit → ℕ
factor kilo = 1024
factor mega = 1024 * 1024
factor giga = 1024 * 1024 * 1024

letter_lem : (u : SizeUnit) (upper : Bool) → is_whitespace (letter u upper) ≡ false
unfolding is_whitespace
letter_lem kilo true = refl
letter_lem kilo false = refl
letter_lem mega true = refl
letter_lem mega false = refl
letter_lem giga true = refl
letter_lem giga false = refl

size_unit_lem :
    (u : SizeUnit) (upper : Bool) (num : Text)
    → size_unit (num ++ (letter u upper ∷ [])) ≡ (num, factor u)
unfolding size_unit
size_unit_lem kilo true num = simp (size_unit, reverse-append, reverse-reverse)
size_unit_lem kilo false num = simp (size_unit, reverse-append, reverse-reverse)
size_unit_lem mega true num = simp (size_unit, reverse-append, reverse-reverse)
size_unit_lem mega false num = simp (size_unit, reverse-append, reverse-reverse)
size_unit_lem giga true num = simp (size_unit, reverse-append, reverse-reverse)
size_unit_lem giga false num = simp (size_unit, reverse-append, reverse-reverse)

not_empty : (s : Text) (c : ℕ) → is_empty (s ++ (c ∷ [])) ≡ false
not_empty [] c = refl
not_empty (d ∷ s) c = refl

-- A number of the range of `usize` without white space, with the letter k, m or g of either case
-- behind it, is read as that many units of bytes; a product out of the range is refused and never
-- wraps.
pub parse_size_string-unit :
    (u : SizeUnit) (upper : Bool) (num directive : Text) (n : ℕ)
    → any is_whitespace num ≡ false
    → parse_uint word_mod num ≡ some n
    → parse_size_string (num ++ (letter u upper ∷ [])) directive ≡ (
        if ltb (n * factor u) word_mod
        then ok (n * factor u)
        else err (invalid_security_value directive (num ++ (letter u upper ∷ []))))
unfolding parse_size_string checked_mul
parse_size_string-unit u upper num directive n plain parsed =
    let s = num ++ (letter u upper ∷ []) in
    let white : any is_whitespace s ≡ false =
      any-append is_whitespace num (letter u upper ∷ []) ∙ rw (plain, letter_lem u upper) in
    rw (trim_lem s white, not_empty num (letter u upper), size_unit_lem u upper num, parsed)
      (elim (Bool-cases (ltb (n * factor u) word_mod)) [ inl fits ↦ rw fits | inr over ↦ rw over ])
