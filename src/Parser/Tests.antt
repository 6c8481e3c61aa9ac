-- ===== src/Parser/Tests.antt =====
-- src/parser.rs: runs, and the theorems at concrete inputs.
use barebones_reverse_proxy.Prelude.{
  ◌*◌, true, ◌*◌, ◌≡◌, refl, false, none, List, [], ◌∷◌, ◌++◌, ok, err, ltb, if◌then◌else◌, Text,
  lit, text_eq, contains, contains_char, starts_with, ends_with, trim, trim_start, trim_end,
  is_whitespace, split_where, split_whitespace, drop_empty, strip_prefix, to_lower, before_char,
  to_lowercase, word_mod, arith, retain, take,
}
use barebones_reverse_proxy.Net.{v4, parse_ip, parse_uint, decimal, decimal_digits}
use barebones_reverse_proxy.Config.{SecurityConfig, Config, Route}
use barebones_reverse_proxy.Error.{invalid_route_directive, invalid_security_value}
use barebones_reverse_proxy.Parser.{
  is_valid_url, parse_listen_line, validate_semicolon, validate_directive_case, get_directive,
  parse_single_value_directive, check_trailing_garbage, parse_route_block_header, parse_size_string,
  is_block_terminator, read_block, block_directive, words, after_last_semicolon,
}
use barebones_reverse_proxy.Parser.Comments.{
  is_boundary, only_whitespace, strip_comments, strip_from, scan,
}
use barebones_reverse_proxy.Parser.RouteBlock.{
  route_directive, close_route, route_line, open_route, parse_route_block,
}
use barebones_reverse_proxy.Parser.SecurityBlock.{
  parse_security_block, security_directive, security_line, single_use, parse_on_off, close_security,
}
use barebones_reverse_proxy.Parser.Upstream.{Names, parse_security_block-Names}
use barebones_reverse_proxy.Parser.TopLevel.{
  parse_proxy_config, read_lines, config_lines, top_level_line, validate_known_top_level_directive,
  dispatch, listen_line, route_section, endpoint_known, finish,
}
use barebones_reverse_proxy.Parser.Blocks.{IsBlock, read_block-IsBlock}
use barebones_reverse_proxy.Parser.Blanking.{Blanks, strip_comments-Blanks}
use barebones_reverse_proxy.Parser.Sizes.{mega, parse_size_string-unit}
use barebones_reverse_proxy.Parser.Validity.{IsValid, parse_proxy_config-IsValid}

abbrev file : Text
file =
    lit "listen 8080; // the port\nroute http://home/api {\n  upstream http://localhost:3000;\n}\n"

abbrev parsed : Config
parsed = record {
  listen_port = 8080;
  routes =
      record {
        request_endpoint = lit "http://home/api";
        forward_endpoint = lit "http://localhost:3000";
        auth_required = false;
        cert_path = none;
        key_path = none;
        cache = none;
        intercept_errors = none;
      }
      ∷ [];
  workers = 4;
  logfile = none;
  security = none;
  cache = none;
  intercept_errors = none;
}

file_run : parse_proxy_config 4 file ≡ ok parsed
unfolding lit text_eq contains contains_char starts_with ends_with strip_prefix trim trim_start
    trim_end is_whitespace split_where drop_empty split_whitespace before_char to_lower to_lowercase
    words is_valid_url validate_semicolon validate_directive_case get_directive
    parse_single_value_directive after_last_semicolon check_trailing_garbage is_block_terminator
    block_directive read_block route_directive route_line close_route parse_route_block
    parse_route_block_header parse_listen_line parse_uint decimal decimal_digits retain
    strip_comments strip_from scan is_boundary only_whitespace config_lines
    validate_known_top_level_directive listen_line endpoint_known route_section dispatch
    top_level_line read_lines finish parse_proxy_config
file_run = refl

comment_run : strip_comments (lit "a; /* x\n*/ b//c") ≡ lit "a;     \n   b//c"
unfolding lit strip_comments strip_from scan is_boundary only_whitespace
comment_run = refl

parse_proxy_config-IsValid_example : IsValid parsed
parse_proxy_config-IsValid_example = parse_proxy_config-IsValid 4 file parsed (omega arith) file_run

strip_comments-Blanks_example : Blanks file (strip_comments file)
strip_comments-Blanks_example = strip_comments-Blanks file

parse_size_string-unit_example :
    parse_size_string (lit "10" ++ (b'm' ∷ [])) (lit "max_body_size") ≡ (
      if ltb (10 * (1024 * 1024)) word_mod
      then ok (10 * (1024 * 1024))
      else err (invalid_security_value (lit "max_body_size") (lit "10" ++ (b'm' ∷ []))))
unfolding lit is_whitespace parse_uint
parse_size_string-unit_example =
    parse_size_string-unit mega false (lit "10") (lit "max_body_size") 10 refl refl

abbrev block : List Text
block = lit "upstream http://localhost:3000;" ∷ lit "}" ∷ lit "listen 80;" ∷ []

abbrev endpoint : Text
endpoint = lit "http://home"

abbrev block_route : Route
block_route = record {
  request_endpoint = endpoint;
  forward_endpoint = lit "http://localhost:3000";
  auth_required = false;
  cert_path = none;
  key_path = none;
  cache = none;
  intercept_errors = none;
}

read_block-IsBlock_example : IsBlock 2 block
unfolding lit text_eq contains contains_char starts_with ends_with strip_prefix trim trim_start
    trim_end is_whitespace split_where drop_empty split_whitespace before_char to_lower to_lowercase
    words is_valid_url validate_semicolon validate_directive_case get_directive
    parse_single_value_directive after_last_semicolon check_trailing_garbage is_block_terminator
    block_directive read_block route_directive route_line close_route
read_block-IsBlock_example =
    read_block-IsBlock (close_route endpoint) invalid_route_directive route_line
      (invalid_route_directive endpoint) open_route block block_route 2 refl

abbrev security_block : List Text
security_block =
    lit "trusted_upstream 10.0.0.1;" ∷ lit "proxy_protocol on;" ∷ lit "}" ∷ lit "cache {" ∷ []

abbrev settings : SecurityConfig
settings = record {
  proxy_protocol = true;
  trusted_upstream = v4 167_772_161;
  timeout_ms = 200;
  max_tls_failures = 5;
  ban_duration_sec = 3600;
  rate_limit_rpm = 300;
  forward_auth = none;
  max_body_size = 10 * 1024 * 1024;
  max_header_size = 64 * 1024;
}

security_run : parse_security_block security_block ≡ ok (settings, 3)
unfolding lit text_eq contains contains_char starts_with ends_with strip_prefix trim trim_start
    trim_end is_whitespace split_where drop_empty split_whitespace before_char to_lower to_lowercase
    words is_valid_url validate_semicolon validate_directive_case get_directive
    parse_single_value_directive after_last_semicolon check_trailing_garbage is_block_terminator
    block_directive read_block route_directive route_line close_route parse_security_block
    security_directive security_line single_use parse_on_off close_security parse_ip
security_run = refl

parse_security_block-Names_example : Names (take 3 security_block) (v4 167_772_161)
parse_security_block-Names_example =
    parse_security_block-Names security_block settings 3 security_run refl
