-- ===== src/Parser/CacheBlock.antt =====
-- src/parser.rs, `parse_cache_block`.
use barebones_reverse_proxy.Prelude.{
  ℕ, ◌*◌, true, ◌&&◌, ◌||◌, List, ◌++◌, if◌then◌else◌, ok, err, ok_or, ◌>>=!◌ as ◌>>=◌, all,
  is_ascii_digit, Text, lit, text_eq, ends_with, word_mod,
}
use barebones_reverse_proxy.Net.{parse_uint}
use barebones_reverse_proxy.Config.{CacheConfig}
use barebones_reverse_proxy.Error.{
  invalid_security_block, invalid_security_value, unterminated_security_block,
}
use barebones_reverse_proxy.Parser.{
  Parsed, parse_single_value_directive, parse_size_string, parse_switch, read_block,
}

-- The directives that the block's match tells apart.
pub data CacheDirective : Type 0 where
  enabled : CacheDirective
  max_capacity : CacheDirective
  max_file_size : CacheDirective
  default_ttl : CacheDirective
  other : CacheDirective

unfoldable pub cache_directive : Text → CacheDirective
cache_directive directive =
    if text_eq directive (lit "enabled") || text_eq directive (lit "cache")
    then enabled
    else if text_eq directive (lit "max_capacity") || text_eq directive (lit "max_capacity_mb")
    then max_capacity
    else if text_eq directive (lit "max_file_size") || text_eq directive (lit "max_file_size_mb")
    then max_file_size
    else if text_eq directive (lit "default_ttl")
        || text_eq directive (lit "default_ttl_sec")
        || text_eq directive (lit "ttl")
    then default_ttl
    else other

-- The local variables of the loop as it starts.
abbrev pub open_cache : CacheConfig
open_cache = record {
  enabled = true;
  max_capacity_bytes = 64 * 1024 * 1024;
  max_file_size_bytes = 2 * 1024 * 1024;
  default_ttl_sec = 300;
}

-- A bare number counts megabytes under a directive that ends in `_mb`.
unfoldable pub size_text : Text → Text → Text
size_text directive value =
    if ends_with (lit "_mb") directive && all is_ascii_digit value then value ++ lit "M" else value

-- `match directive`.
unfoldable pub cache_line : CacheConfig → Text → Text → Parsed CacheConfig
cache_line c directive line = elim (cache_directive directive) [
  | enabled ↦ do
    value ← parse_single_value_directive line directive
    on ← ok_or (parse_switch value) (invalid_security_value directive value)
    ok (record c { enabled = on })
  | max_capacity ↦ do
    value ← parse_single_value_directive line directive
    size ← parse_size_string (size_text directive value) directive
    ok (record c { max_capacity_bytes = size })
  | max_file_size ↦ do
    value ← parse_single_value_directive line directive
    size ← parse_size_string (size_text directive value) directive
    ok (record c { max_file_size_bytes = size })
  | default_ttl ↦ do
    value ← parse_single_value_directive line directive
    ttl ← ok_or (parse_uint word_mod value) (invalid_security_value directive value)
    ok (record c { default_ttl_sec = ttl })
  | other ↦ err (invalid_security_block line)
]

-- The settings, and the number of lines that the block takes behind its header.
unfoldable pub parse_cache_block : List Text → Parsed (CacheConfig × ℕ)
parse_cache_block lines =
    read_block ok invalid_security_block cache_line unterminated_security_block open_cache lines
