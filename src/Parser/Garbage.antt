-- ===== src/Parser/Garbage.antt =====
-- src/parser.rs, `check_trailing_garbage`.
use mathlib.Core.List.{reverse-append}
use barebones_reverse_proxy.Prelude.{
  ◌≡◌, [], ◌++◌, ok, Bool-cases, inl, inr, Text, lit, ends_with, ends_with_iff, before_char, trim,
  trim_start, trim_end,
}
use barebones_reverse_proxy.Parser.{after_last_semicolon, check_trailing_garbage}

after_last_semicolon-append : (init : Text) → after_last_semicolon (init ++ lit ";") ≡ []
unfolding after_last_semicolon before_char lit
after_last_semicolon-append init = simp (reverse-append)

-- `check_trailing_garbage` accepts every line.
pub check_trailing_garbage_accepts : (line : Text) → check_trailing_garbage line ≡ ok tt
unfolding check_trailing_garbage trim trim_start trim_end
check_trailing_garbage_accepts line = elim (Bool-cases (ends_with (lit ";") (trim line))) [
  | inr e ↦ rw e
  | inl e ↦
      let (init, back) = (ends_with_iff (lit ";") (trim line)).0 e in
      rw (e, back, after_last_semicolon-append init)
]
