-- ===== src/Parser/SecurityBlock.antt =====
-- src/parser.rs, `parse_security_block`.
use barebones_reverse_proxy.Prelude.{
  ℕ, ◌*◌, Bool, true, false, ◌||◌, Option, none, some, List, if◌then◌else◌, ok, err, ok_or,
  ◌>>=!◌ as ◌>>=◌, is_some, unwrap_or, Text, lit, text_eq, word_mod,
}
use barebones_reverse_proxy.Net.{IpAddr, v4, parse_ip, parse_uint}
use barebones_reverse_proxy.Config.{SecurityConfig}
use barebones_reverse_proxy.Error.{
  invalid_security_block, invalid_security_value, duplicate_security_directive,
  missing_security_directive, unterminated_security_block,
}
use barebones_reverse_proxy.Parser.{
  Parsed, parse_single_value_directive, parse_size_string, read_block,
}

-- The directives that the block's match tells apart.
pub data SecurityDirective : Type 0 where
  proxy_protocol : SecurityDirective
  trusted_upstream : SecurityDirective
  timeout : SecurityDirective
  max_tls_failures : SecurityDirective
  ban_duration : SecurityDirective
  rate_limit : SecurityDirective
  forward_auth : SecurityDirective
  max_body_size : SecurityDirective
  max_header_size : SecurityDirective
  other : SecurityDirective

unfoldable pub security_directive : Text → SecurityDirective
security_directive directive =
    if text_eq directive (lit "proxy_protocol")
    then proxy_protocol
    else if text_eq directive (lit "trusted_upstream")
    then trusted_upstream
    else if text_eq directive (lit "timeout")
    then timeout
    else if text_eq directive (lit "max_tls_failures")
    then max_tls_failures
    else if text_eq directive (lit "ban_duration")
    then ban_duration
    else if text_eq directive (lit "rate_limit_rpm") || text_eq directive (lit "rate_limit")
    then rate_limit
    else if text_eq directive (lit "forward_auth")
    then forward_auth
    else if text_eq directive (lit "max_body_size")
    then max_body_size
    else if text_eq directive (lit "max_header_size")
    then max_header_size
    else other

-- The local variables of the loop.
pub record SecurityBlock : Type 0 where
  pub pp : Option Bool
  pub upstream : Option IpAddr
  pub timeout_ms : Option ℕ
  pub tls_failures : Option ℕ
  pub ban_duration_sec : Option ℕ
  pub rate_limit_rpm : Option ℕ
  pub auth_url : Option Text
  pub body_size : Option ℕ
  pub header_size : Option ℕ

abbrev pub open_security : SecurityBlock
open_security = record {
  pp = none;
  upstream = none;
  timeout_ms = none;
  tls_failures = none;
  ban_duration_sec = none;
  rate_limit_rpm = none;
  auth_url = none;
  body_size = none;
  header_size = none;
}

unfoldable pub close_security : SecurityBlock → Parsed SecurityConfig
close_security b = do
  let pp = unwrap_or b.pp false
  tu ←
      (if pp
        then ok_or b.upstream (missing_security_directive (lit "trusted_upstream"))
        else ok (unwrap_or b.upstream (v4 0)))
  ok (record {
    proxy_protocol = pp;
    trusted_upstream = tu;
    timeout_ms = unwrap_or b.timeout_ms 200;
    max_tls_failures = unwrap_or b.tls_failures 5;
    ban_duration_sec = unwrap_or b.ban_duration_sec 3600;
    rate_limit_rpm = unwrap_or b.rate_limit_rpm 300;
    forward_auth = b.auth_url;
    max_body_size = unwrap_or b.body_size (10 * 1024 * 1024);
    max_header_size = unwrap_or b.header_size (64 * 1024);
  })

-- The value of a directive that may stand once; `seen` is what the block has of it.
unfoldable pub single_use : {A : Type 0} → Option A → Text → Text → Parsed Text
single_use seen directive line = do
  value ← parse_single_value_directive line directive
  if is_some seen then err (duplicate_security_directive directive) else ok value

-- The arms `"on" | "true"` and `"off" | "false"`.
unfoldable pub parse_on_off : Text → Option Bool
parse_on_off value =
    if text_eq value (lit "on") || text_eq value (lit "true")
    then some true
    else if text_eq value (lit "off") || text_eq value (lit "false")
    then some false
    else none

-- `match directive`.
unfoldable pub security_line : SecurityBlock → Text → Text → Parsed SecurityBlock
security_line b directive line = elim (security_directive directive) [
  | proxy_protocol ↦ do
    value ← single_use b.pp directive line
    on ← ok_or (parse_on_off value) (invalid_security_value directive value)
    ok (record b { pp = some on })
  | trusted_upstream ↦ do
    value ← single_use b.upstream directive line
    ip ← ok_or (parse_ip value) (invalid_security_value directive value)
    ok (record b { upstream = some ip })
  | timeout ↦ do
    value ← single_use b.timeout_ms directive line
    ms ← ok_or (parse_uint word_mod value) (invalid_security_value directive value)
    ok (record b { timeout_ms = some ms })
  | max_tls_failures ↦ do
    value ← single_use b.tls_failures directive line
    count ← ok_or (parse_uint word_mod value) (invalid_security_value directive value)
    ok (record b { tls_failures = some count })
  | ban_duration ↦ do
    value ← single_use b.ban_duration_sec directive line
    sec ← ok_or (parse_uint word_mod value) (invalid_security_value directive value)
    ok (record b { ban_duration_sec = some sec })
  | rate_limit ↦ do
    value ← single_use b.rate_limit_rpm directive line
    rpm ← ok_or (parse_uint word_mod value) (invalid_security_value directive value)
    ok (record b { rate_limit_rpm = some rpm })
  | forward_auth ↦ do
    value ← single_use b.auth_url directive line
    ok (record b { auth_url = some value })
  | max_body_size ↦ do
    value ← single_use b.body_size directive line
    size ← parse_size_string value directive
    ok (record b { body_size = some size })
  | max_header_size ↦ do
    value ← single_use b.header_size directive line
    size ← parse_size_string value directive
    ok (record b { header_size = some size })
  | other ↦ err (invalid_security_block line)
]

-- The settings, and the number of lines that the block takes behind its header.
unfoldable pub parse_security_block : List Text → Parsed (SecurityConfig × ℕ)
parse_security_block lines =
    read_block close_security invalid_security_block security_line unterminated_security_block
      open_security lines
