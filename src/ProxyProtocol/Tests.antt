-- ===== src/ProxyProtocol/Tests.antt =====
-- src/proxy_protocol.rs: runs, and the theorems at concrete inputs.
use barebones_reverse_proxy.Prelude.{
  ℕ, ◌+◌, ◌≡◌, refl, true, false, none, some, [], ◌∷◌, ◌++◌, map, Text, lit, contains_char,
  starts_with, ends_with, split_where, take, drop, ok, from_utf8, arith,
}
use barebones_reverse_proxy.Config.{SecurityConfig}
use barebones_reverse_proxy.Net.{IpAddr, v4, SocketAddr, parse_ipv4, parse_uint}
use barebones_reverse_proxy.ProxyProtocol.{
  byte, TcpStream, ProxyStream, new, crlf, parse_proxy_protocol_v1, handle_proxy_protocol, Poll,
  ready, pending, poll_read, read_prefix, check_future, finish_check,
}
use barebones_reverse_proxy.ProxyProtocol.Header.{
  header_line, parse_proxy_protocol_v1-header_line, trusted_header,
}
use barebones_reverse_proxy.ProxyProtocol.Replay.{
  bytes, untrusted_replay, unread, poll_read_buffered, drain, drain-unread,
}

abbrev upstream : IpAddr
upstream = v4 2_130_706_433

abbrev stranger : SocketAddr
stranger = record { ip = v4 3_232_235_777; port = 40_000 }

abbrev proxy : SocketAddr
proxy = record { ip = upstream; port = 40_000 }

abbrev settings : SecurityConfig
settings = record {
  proxy_protocol = true;
  trusted_upstream = upstream;
  timeout_ms = 200;
  max_tls_failures = 5;
  ban_duration_sec = 3600;
  rate_limit_rpm = 300;
  forward_auth = none;
  max_body_size = 1024;
  max_header_size = 1024;
}

abbrev line : Text
line =
    lit "PROXY TCP4 "
    ++ (lit "10.0.0.1" ++ (b' ' ∷ (lit "10.0.0.2" ++ (b' ' ∷ (lit "80" ++ (b' ' ∷ lit "443"))))))

line_run : parse_proxy_protocol_v1 (line ++ crlf) ≡ some (v4 167_772_161, 80)
unfolding parse_proxy_protocol_v1 lit starts_with ends_with split_where parse_ipv4 parse_uint
line_run = refl

parse_proxy_protocol_v1-header_line_example :
    parse_proxy_protocol_v1 (header_line (lit "10.0.0.1") (lit "10.0.0.2") (lit "80") (lit "443"))
    ≡ some (v4 167_772_161, 80)
unfolding lit contains_char parse_ipv4 parse_uint
parse_proxy_protocol_v1-header_line_example =
    parse_proxy_protocol_v1-header_line (lit "10.0.0.1") (lit "10.0.0.2") (lit "80") (lit "443")
      167_772_161 167_772_162 80 443 refl refl refl refl refl refl refl refl

trusted_header_example :
    handle_proxy_protocol (map byte line ++ (byte 13 ∷ byte 10 ∷ byte 71 ∷ [])) proxy settings
    ≡ ok (new (byte 71 ∷ []) none, record { ip = v4 167_772_161; port = 80 })
unfolding lit contains_char from_utf8
trusted_header_example =
    trusted_header proxy settings line (byte 71 ∷ []) (v4 167_772_161) 80 refl refl refl
      (omega arith) refl line_run

abbrev request : TcpStream
request = byte b'P' ∷ byte b'O' ∷ byte b'S' ∷ byte b'T' ∷ []

untrusted_replay_example :
    (peeked : Text) × (stranger ≡ stranger)
    × (new (byte b'S' ∷ byte b'T' ∷ []) (some (lit "PO"))
        ≡ new (byte b'S' ∷ byte b'T' ∷ []) (some peeked))
    × (request ≡ bytes peeked (byte b'S' ∷ byte b'T' ∷ []))
    × (starts_with (lit "PROXY") peeked ≡ false)
unfolding handle_proxy_protocol check_future read_prefix finish_check lit starts_with
untrusted_replay_example =
    untrusted_replay stranger settings refl refl request
      (new (byte b'S' ∷ byte b'T' ∷ []) (some (lit "PO"))) stranger refl

abbrev quiet : ℕ → ℕ → Poll × ℕ
quiet remaining n = (pending, n + 1)

abbrev peeked_stream : ProxyStream ℕ
peeked_stream = record {
  inner = 0;
  buffer = some (record { bytes = 80 ∷ 79 ∷ 83 ∷ []; position = 1 });
}

poll_read_buffered_example :
    ((poll_read quiet peeked_stream 1).0 ≡ ready (take 1 (unread peeked_stream)))
    × (unread (poll_read quiet peeked_stream 1).1 ≡ drop 1 (unread peeked_stream))
    × ((poll_read quiet peeked_stream 1).1.inner ≡ 0)
unfolding unread
poll_read_buffered_example =
    poll_read_buffered quiet peeked_stream 1 (omega arith) (λ e. ground arith)

drain-unread_example :
    ((drain quiet (1 ∷ 8 ∷ []) peeked_stream).0 ++ unread (drain quiet (1 ∷ 8 ∷ []) peeked_stream).1
      ≡ unread peeked_stream)
    × ((drain quiet (1 ∷ 8 ∷ []) peeked_stream).1.inner ≡ 0)
drain-unread_example =
    drain-unread quiet (1 ∷ 8 ∷ []) peeked_stream (omega arith, (omega arith, tt))
