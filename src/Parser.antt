-- ===== src/Parser.antt =====
-- src/parser.rs: the checks of one line, the values that a line gives, and the loop that the blocks
-- share. The children model each kind of block, the comments and the whole file.
pub mod RouteBlock
pub mod SecurityBlock
pub mod CacheBlock
pub mod Comments
pub mod TopLevel
mod Blocks
mod Blanking
mod Garbage
mod BlockValues
mod Upstream
mod Sizes
mod Validity
mod Tests
use mathlib.Core.List.{reverse}
use barebones_reverse_proxy.Prelude.{
  ℕ, suc, ◌*◌, Bool, true, false, not, ◌||◌, Option, none, some, List, [], ◌∷◌, if◌then◌else◌,
  Result, ok, err, ok_or, ◌>>=!◌ as ◌>>=◌, ◌==◌, is_empty, Text, lit, text_eq, contains,
  contains_char, starts_with, ends_with, trim, trim_end, split_whitespace, to_lowercase,
  before_char, u16_mod, word_mod, checked_mul,
}
use barebones_reverse_proxy.Net.{parse_uint}
use barebones_reverse_proxy.Error.{
  ParseError, invalid_port, invalid_listen_directive, missing_semicolon, invalid_directive_case,
  unknown_directive, invalid_route_directive, invalid_url_format, invalid_security_value,
}

-- `Result<T, ParseError>`.
abbrev pub Parsed : Type 0 → Type 0
Parsed A = Result A ParseError

infixl 5 ◌>>◌
abbrev pub ◌>>◌ : {A : Type 0} → Parsed (Unit {0}) → Parsed A → Parsed A
m >> k = m >>= λ _. k

unfoldable pub is_valid_url : Text → Bool
is_valid_url url = contains (lit "://") url || starts_with (lit "/") url || contains_char b':' url

-- The words of a line without its semicolons.
unfoldable pub words : Text → List Text
words line = split_whitespace (trim (trim_end (◌==◌ b';') line))

unfoldable pub parse_listen_line : Text → Parsed ℕ
parse_listen_line line = elim (words line) [
  | directive ∷ value ∷ [] ↦ ok_or (parse_uint u16_mod value) (invalid_port value)
  | _ ↦ err invalid_listen_directive
]

unfoldable pub validate_semicolon : Text → Parsed (Unit {0})
validate_semicolon line =
    if not (ends_with (lit ";") (trim line)) then err (missing_semicolon line) else ok tt

unfoldable pub validate_directive_case : Text → Parsed (Unit {0})
validate_directive_case directive =
    if not (text_eq directive (to_lowercase directive))
    then err (invalid_directive_case directive)
    else ok tt

unfoldable pub get_directive : Text → Parsed Text
get_directive line = elim (split_whitespace line) [
  | [] ↦ err (unknown_directive [])
  | directive ∷ _ ↦ ok directive
]

unfoldable pub parse_single_value_directive : Text → Text → Parsed Text
parse_single_value_directive line directive = elim (words line) [
  | _ ∷ value ∷ [] ↦ ok value
  | _ ↦ err (unknown_directive directive)
]

-- `rfind` of the semicolon, and what stands behind it.
unfoldable pub after_last_semicolon : Text → Text
after_last_semicolon trimmed = reverse (before_char b';' (reverse trimmed))

unfoldable pub check_trailing_garbage : Text → Parsed (Unit {0})
check_trailing_garbage line =
    let trimmed = trim line in
    if not (ends_with (lit ";") trimmed)
    then ok tt
    else if not (is_empty (trim (after_last_semicolon trimmed)))
    then err invalid_listen_directive
    else ok tt

unfoldable pub parse_route_block_header : Text → Parsed Text
parse_route_block_header line = elim (split_whitespace line) [
  | route ∷ endpoint ∷ brace ∷ [] ↦
      if not (text_eq route (lit "route")) || not (text_eq brace (lit "{"))
      then err (invalid_route_directive line)
      else if not (is_valid_url endpoint)
      then err (invalid_url_format endpoint)
      else ok endpoint
  | _ ↦ err (invalid_route_directive line)
]

-- The number of a size and its unit in bytes, from the last character.
unfoldable pub size_unit : Text → Text × ℕ
size_unit s = elim (reverse s) [
  | [] ↦ ([], 1)
  | c ∷ rest ↦
      if c == b'k' || c == b'K'
      then (reverse rest, 1024)
      else if c == b'm' || c == b'M'
      then (reverse rest, 1024 * 1024)
      else if c == b'g' || c == b'G'
      then (reverse rest, 1024 * 1024 * 1024)
      else (s, 1)
]

unfoldable pub parse_size_string : Text → Text → Parsed ℕ
parse_size_string text directive_name =
    let s = trim text in
    let refusal : ParseError = invalid_security_value directive_name s in
    if is_empty s
    then err refusal
    else (let (num_str, multiplier) = size_unit s in
        ok_or (parse_uint word_mod num_str) refusal >>= λ num.
        ok_or (checked_mul num multiplier) refusal)

-- The arms `"on" | "yes" | "true"` and `"off" | "no" | "false"`.
unfoldable pub parse_switch : Text → Option Bool
parse_switch value =
    if text_eq value (lit "on") || text_eq value (lit "yes") || text_eq value (lit "true")
    then some true
    else if text_eq value (lit "off") || text_eq value (lit "no") || text_eq value (lit "false")
    then some false
    else none

unfoldable pub is_block_terminator : Text → Bool
is_block_terminator line = text_eq line (lit "}") || text_eq line (lit "};")

-- The checks that open every directive of a block.
unfoldable pub block_directive : Text → Parsed Text
block_directive line = do
  validate_semicolon line
  directive ← get_directive line
  validate_directive_case directive
  check_trailing_garbage line
  ok directive

-- The loop that the blocks share. The lines are those behind the block's first; the result comes
-- with the number of lines that the block takes, its terminator included: the moves of `index`.
module _ {S R : Type 0} (close : S → Parsed R) (nested : Text → ParseError)
    (directive_line : S → Text → Text → Parsed S) (unterminated : ParseError) where
  unfoldable pub read_block : S → List Text → Parsed (R × ℕ)
  read_block s [] = err unterminated
  read_block s (line ∷ lines) =
      if is_block_terminator line
      then (close s >>= λ r. ok (r, 1))
      else if ends_with (lit "{") line
      then err (nested line)
      else (block_directive line >>= λ directive.
          directive_line s directive line >>= λ s'. read_block s' lines >>= λ (r, n). ok (r, suc n))
