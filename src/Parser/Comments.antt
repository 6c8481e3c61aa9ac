-- ===== src/Parser/Comments.antt =====
-- src/parser.rs, `strip_comments`.
use barebones_reverse_proxy.Prelude.{
  ℕ, Bool, true, false, ◌&&◌, ◌||◌, [], ◌∷◌, if◌then◌else◌, ◌==◌, Text,
}

-- Whether the characters before the current one, from the nearest on, are blanks up to the line's
-- start: the loop over `temp`.
unfoldable pub only_whitespace : Text → Bool
only_whitespace [] = true
only_whitespace (c ∷ before) =
    let rest = only_whitespace before in
    if c == b'\n' then true else if c == b' ' || c == b'\t' then rest else false

-- `is_boundary`, on the characters before the current one, from the nearest on.
unfoldable pub is_boundary : Text → Bool
is_boundary [] = true
is_boundary (c ∷ before) =
    if c == b' ' || c == b'\t' || c == b';' || c == b'\n'
    then true
    else only_whitespace (c ∷ before)

-- Which of the loops the scan is in; `closing` is on the second character of a comment's mark, with
-- the loop that goes on behind it.
pub data Mode : Type 0 where
  code : Mode
  line_comment : Mode
  block_comment : Mode
  closing : Mode → Mode

abbrev pub head_is : ℕ → Text → Bool
head_is c [] = false
head_is c (d ∷ s) = d == c

-- What is pushed for the current character, and the mode behind it; `before` holds the characters
-- before it, from the nearest on, and `after` those behind it.
unfoldable pub scan : Mode → Text → ℕ → Text → ℕ × Mode
scan code before c after =
    if c == b'/' && (head_is b'/' after || head_is b'*' after) && is_boundary before
    then (b' ', closing (if head_is b'/' after then line_comment else block_comment))
    else (c, code)
scan line_comment before c after = if c == b'\n' then (c, code) else (b' ', line_comment)
scan block_comment before c after =
    if c == b'*' && head_is b'/' after
    then (b' ', closing code)
    else if c == b'\n'
    then (b'\n', block_comment)
    else (b' ', block_comment)
scan (closing m) before c after = (b' ', m)

unfoldable pub strip_from : Mode → Text → Text → Text
strip_from m before [] = []
strip_from m before (c ∷ after) =
    let (pushed, m') = scan m before c after in pushed ∷ strip_from m' (c ∷ before) after

unfoldable pub strip_comments : Text → Text
strip_comments input = strip_from code [] input
