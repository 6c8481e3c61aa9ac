-- ===== src/Parser/TopLevel.antt =====
-- src/parser.rs, `parse_proxy_config`.
use barebones_reverse_proxy.Prelude.{
  ℕ, zero, suc, Bool, false, not, ◌&&◌, Option, none, some, List, [], ◌∷◌, ◌++◌, map, if◌then◌else◌,
  ok, err, ok_or, ◌>>=!◌ as ◌>>=◌, is_some, unwrap_or, ◌==◌, any, retain, is_empty, Text, lit,
  text_eq, starts_with, ends_with, trim, split_where, word_mod,
}
use barebones_reverse_proxy.Net.{parse_uint}
use barebones_reverse_proxy.Config.{Config, Route, SecurityConfig, CacheConfig}
use barebones_reverse_proxy.Error.{
  no_listen_directive, too_many_listen_directives, no_route_directive, invalid_route_directive,
  duplicate_request_endpoint, unknown_directive, invalid_workers_value, too_many_workers_directives,
  too_many_logfile_directives, unexpected_block_terminator, invalid_security_block,
  too_many_security_directives, missing_security_directive,
}
use barebones_reverse_proxy.Parser.{
  Parsed, ◌>>◌, parse_listen_line, validate_semicolon, validate_directive_case, get_directive,
  parse_single_value_directive, check_trailing_garbage, parse_route_block_header, parse_switch,
  is_block_terminator,
}
use barebones_reverse_proxy.Parser.Comments.{strip_comments}
use barebones_reverse_proxy.Parser.RouteBlock.{parse_route_block}
use barebones_reverse_proxy.Parser.SecurityBlock.{parse_security_block}
use barebones_reverse_proxy.Parser.CacheBlock.{parse_cache_block}

-- The directives of the top level: what the check of a name leaves for the match behind it.
pub data Directive : Type 0 where
  listen : Directive
  logfile : Directive
  intercept_errors : Directive
  route : Directive
  security : Directive
  workers : Directive
  cache : Directive

unfoldable pub validate_known_top_level_directive : Text → Parsed Directive
validate_known_top_level_directive directive =
    if text_eq directive (lit "listen")
    then ok listen
    else if text_eq directive (lit "route")
    then ok route
    else if text_eq directive (lit "workers")
    then ok workers
    else if text_eq directive (lit "logfile")
    then ok logfile
    else if text_eq directive (lit "security")
    then ok security
    else if text_eq directive (lit "cache")
    then ok cache
    else if text_eq directive (lit "intercept_errors")
    then ok intercept_errors
    else err (unknown_directive directive)

-- `str::lines`, which drop the line ends, and `str::trim` on each; blank lines and those that
-- no_progress with `#` are left out.
unfoldable pub config_lines : Text → List Text
config_lines stripped =
    retain (λ line. not (is_empty line) && not (starts_with (lit "#") line))
      (map trim (split_where (◌==◌ b'\n') stripped))

-- The local variables of the loop. The port is `none` until `listen_found`, the routes stand in
-- the order of the file, and their endpoints are the set `request_endpoints`.
pub record Progress : Type 0 where
  pub listen_port : Option ℕ
  pub routes : List Route
  pub worker_count : Option ℕ
  pub log_path : Option Text
  pub sec : Option SecurityConfig
  pub cache_config : Option CacheConfig
  pub intercepts : Option Bool

abbrev pub no_progress : Progress
no_progress = record {
  listen_port = none;
  routes = [];
  worker_count = none;
  log_path = none;
  sec = none;
  cache_config = none;
  intercepts = none;
}

unfoldable pub endpoint_known : Text → List Route → Bool
endpoint_known endpoint routes = any (λ r. text_eq endpoint r.request_endpoint) routes

-- The arms of `match directive`: the variables behind the line, and how many of the `lines` behind
-- it belong to its block.
unfoldable pub listen_line : Progress → Text → Parsed (Progress × ℕ)
listen_line p line = do
  validate_semicolon line
  check_trailing_garbage line
  if is_some p.listen_port
      then err too_many_listen_directives
      else (parse_listen_line line >>= λ port. ok (record p { listen_port = some port }, 0))

unfoldable pub logfile_line : Progress → Text → Parsed (Progress × ℕ)
logfile_line p line = do
  validate_semicolon line
  check_trailing_garbage line
  if is_some p.log_path
      then err too_many_logfile_directives
      else (parse_single_value_directive line (lit "logfile") >>= λ value.
          ok (record p { log_path = some value }, 0))

unfoldable pub intercept_line : Progress → Text → Parsed (Progress × ℕ)
intercept_line p line = do
  validate_semicolon line
  check_trailing_garbage line
  if is_some p.intercepts
      then err too_many_security_directives
      else (parse_single_value_directive line (lit "intercept_errors") >>= λ value.
          ok_or (parse_switch value) (unknown_directive line) >>= λ on.
          ok (record p { intercepts = some on }, 0))

unfoldable pub workers_line : Progress → Text → Parsed (Progress × ℕ)
workers_line p line = do
  validate_semicolon line
  check_trailing_garbage line
  if is_some p.worker_count
      then err too_many_workers_directives
      else (parse_single_value_directive line (lit "workers") >>= λ value.
          ok_or (parse_uint word_mod value) (invalid_workers_value value) >>= λ n.
          (if n == 0
            then err (invalid_workers_value value)
            else ok (record p { worker_count = some n }, 0)))

unfoldable pub route_section : Progress → Text → List Text → Parsed (Progress × ℕ)
route_section p line lines =
    if not (ends_with (lit "{") line)
    then err (invalid_route_directive line)
    else (parse_route_block_header line >>= λ endpoint.
        (if endpoint_known endpoint p.routes
          then err (duplicate_request_endpoint endpoint)
          else (parse_route_block lines endpoint >>= λ (r, n).
              ok (record p { routes = p.routes ++ (r ∷ []) }, n))))

unfoldable pub security_section : Progress → Text → List Text → Parsed (Progress × ℕ)
security_section p line lines =
    if not (ends_with (lit "{") line)
    then err (invalid_security_block line)
    else if is_some p.sec
    then err too_many_security_directives
    else (parse_security_block lines >>= λ (s, n). ok (record p { sec = some s }, n))

unfoldable pub cache_section : Progress → Text → List Text → Parsed (Progress × ℕ)
cache_section p line lines =
    if not (ends_with (lit "{") line)
    then err (invalid_security_block line)
    else if is_some p.cache_config
    then err too_many_security_directives
    else (parse_cache_block lines >>= λ (c, n). ok (record p { cache_config = some c }, n))

-- `match directive`.
unfoldable pub dispatch : Directive → Progress → Text → List Text → Parsed (Progress × ℕ)
dispatch listen p line lines = listen_line p line
dispatch logfile p line lines = logfile_line p line
dispatch intercept_errors p line lines = intercept_line p line
dispatch route p line lines = route_section p line lines
dispatch security p line lines = security_section p line lines
dispatch workers p line lines = workers_line p line
dispatch cache p line lines = cache_section p line lines

-- One turn of the loop.
unfoldable pub top_level_line : Progress → Text → List Text → Parsed (Progress × ℕ)
top_level_line p line lines =
    if is_block_terminator line
    then err unexpected_block_terminator
    else (get_directive line >>= λ directive.
        validate_directive_case directive
        >> (validate_known_top_level_directive directive >>= λ known. dispatch known p line lines))

-- `while index < lines.len()`; `skip` counts the lines that the last block has taken already.
unfoldable pub read_lines : ℕ → Progress → List Text → Parsed Progress
read_lines skip p [] = ok p
read_lines (suc skip) p (line ∷ lines) = read_lines skip p lines
read_lines zero p (line ∷ lines) =
    top_level_line p line lines >>= λ (p', taken). read_lines taken p' lines

-- Whether `security` names a service that checks credentials.
unfoldable pub has_forward_auth : Option SecurityConfig → Bool
has_forward_auth none = false
has_forward_auth (some s) = is_some s.forward_auth

-- Behind the loop.
unfoldable pub finish : ℕ → Progress → Parsed Config
finish available_parallelism p = do
  port ← ok_or p.listen_port no_listen_directive
  if is_empty p.routes
      then err no_route_directive
      else if any (λ r. r.auth_required) p.routes && not (has_forward_auth p.sec)
      then err (missing_security_directive (lit "forward_auth"))
      else ok (record {
        listen_port = port;
        routes = p.routes;
        workers = unwrap_or p.worker_count available_parallelism;
        logfile = p.log_path;
        security = p.sec;
        cache = p.cache_config;
        intercept_errors = p.intercepts;
      })

unfoldable pub parse_proxy_config : ℕ → Text → Parsed Config
parse_proxy_config available_parallelism input = do
  p ← read_lines 0 no_progress (config_lines (strip_comments input))
  finish available_parallelism p
