-- ===== src/Parser/Blocks.antt =====
-- src/parser.rs: what the loop that the blocks share keeps, and which lines it takes.
use barebones_reverse_proxy.Prelude.{
  refl, ℕ, zero, suc, ◌≡◌, sym, subst, true, false, List, [], ◌∷◌, ok, >>=!-eq-ok, if-cases, ◌⊎◌,
  inl, inr, Text, lit, ends_with, arith, take,
}
use barebones_reverse_proxy.Error.{ParseError}
use barebones_reverse_proxy.Parser.{
  Parsed, is_block_terminator, block_directive, read_block, get_directive, validate_semicolon,
  validate_directive_case,
}
use barebones_reverse_proxy.Prelude.{split_whitespace, to_lowercase, trim, text_eq, text_eq_iff}

-- The line ends in a semicolon, and its first word, the directive's name, is in lower case.
pub record IsDirective (line : Text) : Type 0 where
  pub directive : Text
  pub values : List Text
  pub splits : split_whitespace line ≡ directive ∷ values
  pub lower : to_lowercase directive ≡ directive
  pub semicolon : ends_with (lit ";") (trim line) ≡ true

get_directive-words :
    (line directive : Text)
    → get_directive line ≡ ok directive
    → (values : List Text) × (split_whitespace line ≡ directive ∷ values)
unfolding get_directive
get_directive-words line directive h = ground arith

validate_semicolon-ok :
    (line : Text) → validate_semicolon line ≡ ok tt → ends_with (lit ";") (trim line) ≡ true
unfolding validate_semicolon
validate_semicolon-ok line h = ground arith

validate_directive_case-ok :
    (directive : Text)
    → validate_directive_case directive ≡ ok tt
    → text_eq directive (to_lowercase directive) ≡ true
unfolding validate_directive_case
validate_directive_case-ok directive h = ground arith

block_directive-IsDirective :
    (line directive : Text) → block_directive line ≡ ok directive → IsDirective line
unfolding block_directive
block_directive-IsDirective line directive h =
    let (tt, e1, h1) = >>=!-eq-ok (validate_semicolon line) _ h in
    let (name, e2, h2) = >>=!-eq-ok (get_directive line) _ h1 in
    let (tt, e3, h3) = >>=!-eq-ok (validate_directive_case name) _ h2 in
    let (values, splits) = get_directive-words line name e2 in
    record {
      directive = name;
      values = values;
      splits = splits;
      lower = sym ((text_eq_iff name (to_lowercase name)).0 (validate_directive_case-ok name e3));
      semicolon = validate_semicolon-ok line e1;
    }

-- The first `n` lines: the lines of a block, which have the form of a directive and neither end
-- it nor start another, and its terminator.
abbrev pub IsBlock : ℕ → List Text → Type 0
IsBlock n [] = ⊥
IsBlock zero (line ∷ lines) = ⊥
IsBlock (suc zero) (line ∷ lines) = is_block_terminator line ≡ true
IsBlock (suc (suc n)) (line ∷ lines) =
    (is_block_terminator line ≡ false)
    × (ends_with (lit "{") line ≡ false)
    × IsDirective line
    × IsBlock (suc n) lines

IsBlock-cons :
    (m : ℕ) (line : Text) (lines : List Text)
    → is_block_terminator line ≡ false
    → ends_with (lit "{") line ≡ false
    → IsDirective line
    → IsBlock m lines
    → IsBlock (suc m) (line ∷ lines)
IsBlock-cons zero line [] t b d i = absurd i
IsBlock-cons zero line (l ∷ lines) t b d i = absurd i
IsBlock-cons (suc m) line lines t b d i = (t, b, d, i)

-- The line is one of these.
abbrev pub Among : Text → List Text → Type 0
Among line [] = ⊥
Among line (l ∷ lines) = (line ≡ l) ⊎ Among line lines

module _ {S R : Type 0} (close : S → Parsed R) (nested : Text → ParseError)
    (directive_line : S → Text → Text → Parsed S) (unterminated : ParseError) where
  read_block-cases :
      (s : S) (line : Text) (lines : List Text) (r : R) (n : ℕ)
      → read_block close nested directive_line unterminated s (line ∷ lines) ≡ ok (r, n)
      → ((is_block_terminator line ≡ true) × (close s ≡ ok r) × (n ≡ 1))
        ⊎ ((is_block_terminator line ≡ false)
            × (ends_with (lit "{") line ≡ false)
            × ((directive : Text) × (s' : S) × (m : ℕ) × (block_directive line ≡ ok directive)
                × (directive_line s directive line ≡ ok s')
                × (read_block close nested directive_line unterminated s' lines ≡ ok (r, m))
                × (n ≡ suc m)))
  unfolding read_block
  read_block-cases s line lines r n h = elim (if-cases (is_block_terminator line) _ _ h) [
    | inl (t, h1) ↦
        let (r', e, h2) = >>=!-eq-ok (close s) _ h1 in inl (t, ground arith, ground arith)
    | inr (t, h1) ↦ elim (if-cases (ends_with (lit "{") line) _ _ h1) [
      | inl (_, h2) ↦ absurd (ground arith)
      | inr (b, h2) ↦
          let (directive, e1, h3) = >>=!-eq-ok (block_directive line) _ h2 in
          let (s', e2, h4) = >>=!-eq-ok (directive_line s directive line) _ h3 in
          let ((r', m), e3, h5) =
            >>=!-eq-ok (read_block close nested directive_line unterminated s' lines) _ h4 in
          inr (t, b, (directive, s', m, e1, e2, ground arith, ground arith))
    ]
  ]

  -- What every line that the block takes keeps, told that it is one, holds of the variables at the
  -- terminator.
  pub read_block-Among :
      (I : S → Type 0) (all : List Text)
      → ((s : S) (directive line : Text) (s' : S)
          → Among line all
          → block_directive line ≡ ok directive
          → directive_line s directive line ≡ ok s'
          → I s
          → I s')
      → (s : S) (lines : List Text) (r : R) (n : ℕ)
      → ((line : Text) → Among line (take n lines) → Among line all)
      → I s
      → read_block close nested directive_line unterminated s lines ≡ ok (r, n)
      → (s' : S) × I s' × (close s' ≡ ok r)
  unfolding read_block
  read_block-Among I all step s [] r n part i h = absurd (ground arith)
  read_block-Among I all step s (line ∷ lines) r n part i h =
      elim (read_block-cases s line lines r n h) [
        | inl (t, c, e) ↦ (s, i, c)
        | inr (t, b, (directive, s', m, d, e, rest, e')) ↦
            let part' : (l : Text) → Among l (line ∷ take m lines) → Among l all =
              λ l a. part l (subst (λ k. Among l (take k (line ∷ lines))) (sym e') a) in
            read_block-Among I all step s' lines r m (λ l a. part' l (inr a))
              (step s directive line s' (part' line (inl refl)) d e i) rest
      ]

  -- What every line keeps holds of the variables at the terminator.
  pub read_block-keeps :
      (I : S → Type 0)
      → ((s : S) (directive line : Text) (s' : S)
          → directive_line s directive line ≡ ok s'
          → I s
          → I s')
      → (s : S) (lines : List Text) (r : R) (n : ℕ) → I s
      → read_block close nested directive_line unterminated s lines ≡ ok (r, n)
      → (s' : S) × I s' × (close s' ≡ ok r)
  read_block-keeps I step s lines r n i h =
      read_block-Among I (take n lines) (λ s directive line s' _ _ e. step s directive line s' e) s
        lines r n (λ l a. a) i h

  -- If the loop of a block accepts, then it takes a first number of lines, of which the last is the
  -- block's terminator, and each other ends in a semicolon, has a first word in lower case, is no
  -- terminator and does not end in an opening brace.
  pub read_block-IsBlock :
      (s : S) (lines : List Text) (r : R) (n : ℕ)
      → read_block close nested directive_line unterminated s lines ≡ ok (r, n)
      → IsBlock n lines
  unfolding read_block
  read_block-IsBlock s [] r n h = absurd (ground arith)
  read_block-IsBlock s (line ∷ lines) r n h = elim (read_block-cases s line lines r n h) [
    | inl (t, c, e) ↦ subst (λ k. IsBlock k (line ∷ lines)) (sym e) t
    | inr (t, b, (directive, s', m, d, e, rest, e')) ↦
        subst (λ k. IsBlock k (line ∷ lines)) (sym e')
          (IsBlock-cons m line lines t b (block_directive-IsDirective line directive d)
            (read_block-IsBlock s' lines r m rest))
  ]
