-- ===== src/Prelude/TextLaws.antt =====
-- Laws of the text operations.
use Prim.Native.Nat.{ℕ}
use mathlib.Core.Path.{◌≡◌, refl, sym, ap, ◌∙◌}
use mathlib.Core.Logic.{◌↔◌, inl, inr}
use mathlib.Core.Bool.{true, false, ◌||◌}
use mathlib.Core.List.{[], ◌∷◌, ◌++◌, reverse, reverse-append, reverse-reverse}
use mathlib.Core.Option.{some}
use native.Mathlib.Omega.{arith}
use barebones_reverse_proxy.Prelude.Tests.{is_some, Option-cases, unwrap_or}
use barebones_reverse_proxy.Prelude.Texts.{
  Text, strip_prefix, starts_with, ends_with, contains_char, before_char, from_char,
}

pub strip_prefix-append : (p s : Text) → strip_prefix p (p ++ s) ≡ some s
unfolding strip_prefix
strip_prefix-append [] s = refl
strip_prefix-append (c ∷ p) s = ground (arith, strip_prefix-append p s)

pub append-strip_prefix : (p s rest : Text) → strip_prefix p s ≡ some rest → s ≡ p ++ rest
unfolding strip_prefix
append-strip_prefix [] s rest h = ground arith
append-strip_prefix (c ∷ p) [] rest h = absurd (ground arith)
append-strip_prefix (c ∷ p) (d ∷ s) rest h = ground (arith, append-strip_prefix p s rest)

-- `starts_with` says that the text is the prefix and a rest.
pub starts_with_iff : (p s : Text) → (starts_with p s ≡ true) ↔ ((rest : Text) × (s ≡ p ++ rest))
unfolding starts_with
starts_with_iff p s = (
  λ h. elim (Option-cases (strip_prefix p s)) [
    | inl e ↦ absurd (ground arith)
    | inr (rest, e) ↦ (rest, append-strip_prefix p s rest e)
  ],
  λ (rest, e). ap (λ t. is_some (strip_prefix p t)) e ∙ ap is_some (strip_prefix-append p rest),
)

pub contains_char-append :
    (c : ℕ) (s t : Text) → contains_char c (s ++ t) ≡ (contains_char c s || contains_char c t)
unfolding contains_char
contains_char-append c [] t = refl
contains_char-append c (d ∷ s) t = ground (arith, contains_char-append c s t)

-- The text before a character has none of it.
pub contains_char-before_char : (c : ℕ) (s : Text) → contains_char c (before_char c s) ≡ false
unfolding contains_char before_char
contains_char-before_char c [] = refl
contains_char-before_char c (d ∷ s) = ground (arith, contains_char-before_char c s)

-- The text is what stands before a character and what stands from it.
pub before_char-from_char : (c : ℕ) (s : Text) → before_char c s ++ unwrap_or (from_char c s) [] ≡ s
unfolding before_char from_char
before_char-from_char c [] = refl
before_char-from_char c (d ∷ s) = ground (arith, before_char-from_char c s)

pub before_char-append :
    (c : ℕ) (s t : Text) → contains_char c s ≡ false → before_char c (s ++ (c ∷ t)) ≡ s
unfolding contains_char before_char
before_char-append c [] t h = ground arith
before_char-append c (d ∷ s) t h = ground (arith, before_char-append c s t)

pub from_char-append :
    (c : ℕ) (s t : Text) → contains_char c s ≡ false → from_char c (s ++ (c ∷ t)) ≡ some (c ∷ t)
unfolding contains_char from_char
from_char-append c [] t h = ground arith
from_char-append c (d ∷ s) t h = ground (arith, from_char-append c s t)

-- `ends_with` says that the text is a rest and the ending.
pub ends_with_iff : (p s : Text) → (ends_with p s ≡ true) ↔ ((init : Text) × (s ≡ init ++ p))
unfolding ends_with
ends_with_iff p s = (
  λ h.
      let (rest, e) = (starts_with_iff (reverse p) (reverse s)).0 h in
      (
        reverse rest,
        sym (reverse-reverse s)
            ∙ ap reverse e
            ∙ reverse-append (reverse p) rest
            ∙ ap (◌++◌ (reverse rest)) (reverse-reverse p),
      ),
  λ (init, e).
      (starts_with_iff (reverse p) (reverse s)).1
        (reverse init, ap reverse e ∙ reverse-append init p),
)
