-- ===== src/Parser/Blanking.antt =====
-- src/parser.rs, `strip_comments`: what it leaves of a text, and its boundary test.
use barebones_reverse_proxy.Prelude.{
  ℕ, ◌≡◌, ◌≢◌, refl, true, false, ◌||◌, ◌⊎◌, [], ◌∷◌, ◌==◌, Text, contains_char, arith,
}
use barebones_reverse_proxy.Parser.Comments.{
  only_whitespace, is_boundary, Mode, code, line_comment, block_comment, closing, head_is, scan,
  strip_from, strip_comments,
}

-- The second text is the first with some characters, no line end among them, turned to spaces.
abbrev pub Blanks : Text → Text → Type 0
Blanks [] [] = Unit
Blanks (c ∷ s) (d ∷ t) = ((d ≡ c) ⊎ ((d ≡ b' ') × (c ≢ b'\n'))) × Blanks s t
Blanks _ _ = ⊥

-- The second character of a mark is still to come.
abbrev Fits : Mode → Text → Type 0
Fits (closing m) after = (Fits m []) × ((head_is b'/' after || head_is b'*' after) ≡ true)
Fits m after = Unit

abbrev Pushes : Text → ℕ → ℕ × Mode → Type 0
Pushes after c (d, m) = ((d ≡ c) ⊎ ((d ≡ b' ') × (c ≢ b'\n'))) × Fits m after

scan-Pushes :
    (m : Mode) (before : Text) (c : ℕ) (after : Text)
    → Fits m (c ∷ after)
    → Pushes after c (scan m before c after)
unfolding scan
scan-Pushes code before c [] f = ground arith
scan-Pushes code before c (d ∷ after) f = ground arith
scan-Pushes line_comment before c after f = ground arith
scan-Pushes block_comment before c [] f = ground arith
scan-Pushes block_comment before c (d ∷ after) f = ground arith
scan-Pushes (closing code) before c after f = ground arith
scan-Pushes (closing line_comment) before c after f = ground arith
scan-Pushes (closing block_comment) before c after f = ground arith
scan-Pushes (closing (closing m)) before c after f = absurd (ground arith)

strip_from-Blanks : (m : Mode) (before s : Text) → Fits m s → Blanks s (strip_from m before s)
unfolding strip_from
strip_from-Blanks m before [] f = tt
strip_from-Blanks m before (c ∷ after) f =
    let (blank, fits) = scan-Pushes m before c after f in
    (blank, strip_from-Blanks ((scan m before c after).1) (c ∷ before) after fits)

-- Stripping the comments keeps the length of every text and the place of every line end: each
-- character stays as it is or is a character other than a line end that becomes a space.
pub strip_comments-Blanks : (input : Text) → Blanks input (strip_comments input)
unfolding strip_comments
strip_comments-Blanks input = strip_from-Blanks code [] input tt

strip_from-no_slash :
    (before s : Text) → contains_char b'/' s ≡ false → strip_from code before s ≡ s
unfolding strip_from scan contains_char
strip_from-no_slash before [] h = refl
strip_from-no_slash before (c ∷ s) h = ground (arith, strip_from-no_slash (c ∷ before) s)

-- A text without a slash has no comment: it is left as it is.
pub strip_comments-no_slash :
    (input : Text) → contains_char b'/' input ≡ false → strip_comments input ≡ input
unfolding strip_comments
strip_comments-no_slash input h = strip_from-no_slash [] input h

-- Behind a character, the test for the start of a comment is whether that character is a space, a
-- tab, a semicolon or a line feed; the scan over the rest of the line never decides.
pub is_boundary_lem :
    (c : ℕ) (before : Text)
    → is_boundary (c ∷ before) ≡ (c == b' ' || c == b'\t' || c == b';' || c == b'\n')
unfolding is_boundary only_whitespace
is_boundary_lem c before = ground arith
