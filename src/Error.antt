-- ===== src/Error.antt =====
-- src/error.rs: the errors of the configuration's parser and of the proxy.
use barebones_reverse_proxy.Prelude.{◌++◌, Text, lit}

pub data ParseError : Type 0 where
  no_listen_directive : ParseError
  invalid_listen_directive : ParseError
  too_many_listen_directives : ParseError
  invalid_port : Text → ParseError
  no_route_directive : ParseError
  invalid_route_directive : Text → ParseError
  duplicate_request_endpoint : Text → ParseError
  missing_semicolon : Text → ParseError
  invalid_url_format : Text → ParseError
  invalid_directive_case : Text → ParseError
  unknown_directive : Text → ParseError
  invalid_workers_value : Text → ParseError
  too_many_workers_directives : ParseError
  too_many_logfile_directives : ParseError
  incomplete_route_cert_block : Text → ParseError
  cert_not_allowed_for_http_route : Text → ParseError
  unexpected_block_terminator : ParseError
  invalid_security_block : Text → ParseError
  too_many_security_directives : ParseError
  duplicate_security_directive : Text → ParseError
  invalid_security_value : Text → Text → ParseError
  missing_security_directive : Text → ParseError
  unterminated_security_block : ParseError

-- A `std::io::Error` stands here as its text.
pub data ProxyError : Type 0 where
  io_failure : Text → ProxyError
  tls_error : Text → ProxyError
  no_matching_route : ProxyError
  upstream_connection_failed : Text → ProxyError

-- `Display`: the text that the log and the errors of a reload show.
unfoldable pub display : ProxyError → Text
display (io_failure e) = lit "IO error: " ++ e
display (tls_error e) = lit "TLS error: " ++ e
display no_matching_route = lit "No matching route"
display (upstream_connection_failed addr) = lit "Failed to connect to upstream: " ++ addr

-- `From<std::io::Error>`.
abbrev pub from_io : Text → ProxyError
from_io e = io_failure e
