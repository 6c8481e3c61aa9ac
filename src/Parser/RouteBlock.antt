-- ===== src/Parser/RouteBlock.antt =====
-- src/parser.rs, `parse_route_block`.
use barebones_reverse_proxy.Prelude.{
  ℕ, Bool, false, ◌||◌, Option, none, some, List, if◌then◌else◌, ok, err, ok_or, ◌>>=!◌ as ◌>>=◌,
  is_some, is_none, Text, lit, text_eq, starts_with,
}
use barebones_reverse_proxy.Config.{Route}
use barebones_reverse_proxy.Error.{
  ParseError, invalid_route_directive, incomplete_route_cert_block, cert_not_allowed_for_http_route,
  invalid_url_format,
}
use barebones_reverse_proxy.Parser.{
  Parsed, is_valid_url, parse_single_value_directive, parse_switch, read_block,
}

-- The directives that the block's match tells apart.
pub data RouteDirective : Type 0 where
  upstream : RouteDirective
  auth : RouteDirective
  cert : RouteDirective
  key : RouteDirective
  cache : RouteDirective
  intercept_errors : RouteDirective
  other : RouteDirective

unfoldable pub route_directive : Text → RouteDirective
route_directive directive =
    if text_eq directive (lit "upstream") || text_eq directive (lit "forward")
    then upstream
    else if text_eq directive (lit "auth")
    then auth
    else if text_eq directive (lit "cert")
    then cert
    else if text_eq directive (lit "key")
    then key
    else if text_eq directive (lit "cache")
    then cache
    else if text_eq directive (lit "intercept_errors")
    then intercept_errors
    else other

-- The local variables of the loop.
pub record RouteBlock : Type 0 where
  pub forward_endpoint : Option Text
  pub auth_required : Bool
  pub cert_path : Option Text
  pub key_path : Option Text
  pub cached : Option Bool
  pub intercepts : Option Bool

abbrev pub open_route : RouteBlock
open_route = record {
  forward_endpoint = none;
  auth_required = false;
  cert_path = none;
  key_path = none;
  cached = none;
  intercepts = none;
}

unfoldable pub close_route : Text → RouteBlock → Parsed Route
close_route request_endpoint b = do
  forward_endpoint ← ok_or b.forward_endpoint (invalid_route_directive request_endpoint)
  let closed : Parsed Route = ok (record {
    request_endpoint = request_endpoint;
    forward_endpoint = forward_endpoint;
    auth_required = b.auth_required;
    cert_path = b.cert_path;
    key_path = b.key_path;
    cache = b.cached;
    intercept_errors = b.intercepts;
  })
  if starts_with (lit "https://") request_endpoint
      then (if is_none b.cert_path || is_none b.key_path
          then err (incomplete_route_cert_block request_endpoint)
          else closed)
      else if is_some b.cert_path || is_some b.key_path
      then err (cert_not_allowed_for_http_route request_endpoint)
      else closed

-- `match directive`.
unfoldable pub route_line : RouteBlock → Text → Text → Parsed RouteBlock
route_line b directive line =
    let refusal : ParseError = invalid_route_directive line in
    elim (route_directive directive) [
      | upstream ↦ do
        value ← parse_single_value_directive line directive
        if is_valid_url value
            then ok (record b { forward_endpoint = some value })
            else err (invalid_url_format value)
      | auth ↦ do
        value ← parse_single_value_directive line (lit "auth")
        on ← ok_or (parse_switch value) refusal
        ok (record b { auth_required = on })
      | cert ↦ do
        value ← parse_single_value_directive line (lit "cert")
        if is_some b.cert_path then err refusal else ok (record b { cert_path = some value })
      | key ↦ do
        value ← parse_single_value_directive line (lit "key")
        if is_some b.key_path then err refusal else ok (record b { key_path = some value })
      | cache ↦ do
        value ← parse_single_value_directive line (lit "cache")
        on ← ok_or (parse_switch value) refusal
        ok (record b { cached = some on })
      | intercept_errors ↦ do
        value ← parse_single_value_directive line (lit "intercept_errors")
        on ← ok_or (parse_switch value) refusal
        ok (record b { intercepts = some on })
      | other ↦ err refusal
    ]

-- The route, and the number of lines that the block takes behind its header.
unfoldable pub parse_route_block : List Text → Text → Parsed (Route × ℕ)
parse_route_block lines request_endpoint =
    read_block (close_route request_endpoint) invalid_route_directive route_line
      (invalid_route_directive request_endpoint) open_route lines
