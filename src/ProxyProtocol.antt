-- ===== src/ProxyProtocol.antt =====
-- src/proxy_protocol.rs: the PROXY protocol's header, and the stream that plays peeked bytes back.
-- A `TcpStream` is what its reads of one byte will give, in order. `none` is a timeout: the time of
-- the whole future ran out while it waited for a byte.
pub mod Header
pub mod Replay
mod Tests
use barebones_reverse_proxy.Prelude.{
  ℕ, zero, suc, ◌+◌, ◌-◌, Bool, true, false, not, ◌&&◌, ◌||◌, Option, none, some, List, [], ◌∷◌,
  ◌++◌, if◌then◌else◌, ◌>>=?◌, ◌>>=!◌, ok_or, Result, ok, err, ◌==◌, leb, ltb, Text, lit, text_eq,
  starts_with, ends_with, split_where, take, drop, length, u16_mod, from_utf8, get_elem?, is_empty,
}
use barebones_reverse_proxy.Config.{SecurityConfig}
use barebones_reverse_proxy.Net.{IpAddr, v4, ip_eq, SocketAddr, parse_ipv4, parse_uint}

pub data Read : Type 0 where
  byte : ℕ → Read
  eof : Read
  io_error : Text → Read
  stalled : Read

abbrev pub TcpStream : Type 0
TcpStream = List Read

abbrev pub crlf : Text
crlf = 13 ∷ 10 ∷ []

-- `header.split(' ')`, if it has four parts.
abbrev pub four : List Text → Option (Text × Text × Text × Text)
four (a ∷ b ∷ c ∷ d ∷ []) = some (a, b, c, d)
four _ = none

-- `&header[11..header.len() - 2]`, behind the two tests.
abbrev pub payload : Text → Text
payload header = drop 11 (take (length header - 2) header)

abbrev pub is_space : ℕ → Bool
is_space c = c == b' '

unfoldable pub parse_proxy_protocol_v1 : Text → Option (IpAddr × ℕ)
parse_proxy_protocol_v1 header =
    if not (starts_with (lit "PROXY TCP4 ") header)
    then none
    else if not (ends_with crlf header)
    then none
    else (four (split_where is_space (payload header)) >>=? λ (a, b, c, d).
        parse_ipv4 a >>=? λ client_ip. parse_ipv4 b >>=? λ _proxy_ip.
        parse_uint u16_mod c >>=? λ client_port.
        parse_uint u16_mod d >>=? λ _proxy_port. some (v4 client_ip, client_port))

-- `while header_buf.len() < 107`: the count is of the bytes that are still allowed.
unfoldable pub read_header : ℕ → Text → TcpStream → Option (Result (Text × TcpStream) Text)
read_header zero header_buf stream = some (ok (header_buf, stream))
read_header (suc n) header_buf [] = none
read_header (suc n) header_buf (stalled ∷ stream) = none
read_header (suc n) header_buf (io_error e ∷ stream) = some (err e)
read_header (suc n) header_buf (eof ∷ stream) = some (err (lit "EOF before proxy header finished"))
read_header (suc n) header_buf (byte b ∷ stream) =
    let pushed = header_buf ++ (b ∷ []) in
    let rest = read_header n pushed stream in
    if ends_with crlf pushed then some (ok (pushed, stream)) else rest

-- `std::io::Cursor`.
pub record Cursor : Type 0 where
  pub bytes : List ℕ
  pub position : ℕ

pub record ProxyStream (S : Type 0) : Type 0 where
  pub inner : S
  pub buffer : Option Cursor

-- `ProxyStream::new`.
abbrev pub new : {S : Type 0} → S → Option (List ℕ) → ProxyStream S
new inner none = record { inner = inner; buffer = none }
new inner (some bytes) = record {
  inner = inner;
  buffer = some (record { bytes = bytes; position = 0 });
}

abbrev pub Accepted : Type 0
Accepted = Result (ProxyStream TcpStream × SocketAddr) Text

-- Behind the loop of the trusted branch.
unfoldable pub finish_header : Text → TcpStream → Accepted
finish_header header_buf stream =
    if not (ends_with crlf header_buf)
    then err (lit "Proxy header exceeded max length or missing CRLF")
    else (ok_or (from_utf8 header_buf) (lit "Proxy header is not valid UTF-8") >>=! λ header_str.
        ok_or (parse_proxy_protocol_v1 header_str) (lit "Failed to parse Proxy Protocol header")
        >>=! λ (client_ip, client_port).
            ok (new stream none, record { ip = client_ip; port = client_port }))

unfoldable pub parse_future : TcpStream → Option Accepted
parse_future stream = read_header 107 [] stream >>=? λ read.
    some (read >>=! λ (header_buf, rest). finish_header header_buf rest)

-- `while header_buf.len() < prefix.len()`, over what is left of the prefix.
unfoldable pub read_prefix : Text → Text → TcpStream → Option (Result (Text × TcpStream) Text)
read_prefix [] header_buf stream = some (ok (header_buf, stream))
read_prefix (p ∷ ps) header_buf [] = none
read_prefix (p ∷ ps) header_buf (stalled ∷ stream) = none
read_prefix (p ∷ ps) header_buf (io_error e ∷ stream) = some (err e)
read_prefix (p ∷ ps) header_buf (eof ∷ stream) = some (ok (header_buf, eof ∷ stream))
read_prefix (p ∷ ps) header_buf (byte b ∷ stream) =
    let pushed = header_buf ++ (b ∷ []) in
    let rest = read_prefix ps pushed stream in
    if not (b == p) then some (ok (pushed, stream)) else rest

abbrev pub spoof_message : Text
spoof_message = lit "Spoofing attempt: Proxy Protocol header injected from untrusted source"

-- Behind the loop of the untrusted branch.
unfoldable pub finish_check : SocketAddr → Text → TcpStream → Accepted
finish_check peer_addr header_buf stream =
    if starts_with (lit "PROXY") header_buf
    then err spoof_message
    else ok (new stream (some header_buf), peer_addr)

unfoldable pub check_future : SocketAddr → TcpStream → Option Accepted
check_future peer_addr stream = read_prefix (lit "PROXY") [] stream >>=? λ read.
    some (read >>=! λ (header_buf, rest). finish_check peer_addr header_buf rest)

-- `tokio::time::timeout`.
abbrev pub timeout_or : Option Accepted → Text → Accepted
timeout_or none message = err message
timeout_or (some r) message = r

unfoldable pub handle_proxy_protocol : TcpStream → SocketAddr → SecurityConfig → Accepted
handle_proxy_protocol stream peer_addr security_config =
    if not security_config.proxy_protocol
    then ok (new stream none, peer_addr)
    else if ip_eq peer_addr.ip security_config.trusted_upstream
    then timeout_or (parse_future stream) (lit "Timeout reading Proxy Protocol header")
    else timeout_or (check_future peer_addr stream)
        (lit "Timeout checking for fake Proxy Protocol header")

-- What a poll of a stream gives: the bytes put into the buffer, an error, or nothing yet.
pub data Poll : Type 0 where
  ready : List ℕ → Poll
  failed : Text → Poll
  pending : Poll

-- `ProxyStream::poll_read` with room for `remaining` bytes; `poll` is that of the inner stream.
unfoldable pub poll_read :
    {S : Type 0} → (ℕ → S → Poll × S) → ProxyStream S → ℕ → Poll × ProxyStream S
poll_read {S} poll this remaining =
    let (result, inner') = poll remaining this.inner in
    let through : Poll × ProxyStream S = (result, record { inner = inner'; buffer = none }) in
    elim this.buffer [
      | none ↦ through
      | some cursor ↦
          let chunk = take remaining (drop cursor.position cursor.bytes) in
          let position = cursor.position + length chunk in
          if ltb 0 remaining && ltb 0 (length chunk)
          then (
            ready chunk,
            record this {
              buffer =
                  if leb (length cursor.bytes) position
                  then none
                  else some (record cursor { position = position });
            },
          )
          else through
    ]
