-- ===== src/ProxyProtocol/Header.antt =====
-- src/proxy_protocol.rs: what `parse_proxy_protocol_v1` accepts, and the trusted peer's header.
use mathlib.Core.List.{reverse-append}
use barebones_reverse_proxy.Prelude.{
  ℕ, zero, suc, ◌+◌, ◌-◌, ◌≤◌, ◌≡◌, refl, sym, ap, ◌∙◌, true, false, none, some, [], ◌∷◌, ◌++◌, map,
  ok, ◌==◌, Text, lit, starts_with, ends_with, contains_char, split_where, starts_with_iff,
  ends_with_iff, strip_prefix, take, drop, length, length-append, arith, append_assoc, u16_mod,
  from_utf8,
}
use barebones_reverse_proxy.Config.{SecurityConfig}
use barebones_reverse_proxy.Net.{IpAddr, v4, ip_eq, SocketAddr, parse_ipv4, parse_uint}
use barebones_reverse_proxy.ProxyProtocol.{
  byte, TcpStream, new, crlf, payload, is_space, parse_proxy_protocol_v1, read_header,
  finish_header, parse_future, handle_proxy_protocol,
}

-- The prefix and the line end do not overlap.
no_overlap : (init rest : Text) → lit "PROXY TCP4 " ++ rest ≡ init ++ crlf → 11 ≤ length init
unfolding lit
no_overlap [] rest e = absurd (ground arith)
no_overlap (x0 ∷ []) rest e = absurd (ground arith)
no_overlap (x0 ∷ x1 ∷ []) rest e = absurd (ground arith)
no_overlap (x0 ∷ x1 ∷ x2 ∷ []) rest e = absurd (ground arith)
no_overlap (x0 ∷ x1 ∷ x2 ∷ x3 ∷ []) rest e = absurd (ground arith)
no_overlap (x0 ∷ x1 ∷ x2 ∷ x3 ∷ x4 ∷ []) rest e = absurd (ground arith)
no_overlap (x0 ∷ x1 ∷ x2 ∷ x3 ∷ x4 ∷ x5 ∷ []) rest e = absurd (ground arith)
no_overlap (x0 ∷ x1 ∷ x2 ∷ x3 ∷ x4 ∷ x5 ∷ x6 ∷ []) rest e = absurd (ground arith)
no_overlap (x0 ∷ x1 ∷ x2 ∷ x3 ∷ x4 ∷ x5 ∷ x6 ∷ x7 ∷ []) rest e = absurd (ground arith)
no_overlap (x0 ∷ x1 ∷ x2 ∷ x3 ∷ x4 ∷ x5 ∷ x6 ∷ x7 ∷ x8 ∷ []) rest e = absurd (ground arith)
no_overlap (x0 ∷ x1 ∷ x2 ∷ x3 ∷ x4 ∷ x5 ∷ x6 ∷ x7 ∷ x8 ∷ x9 ∷ []) rest e = absurd (ground arith)
no_overlap (x0 ∷ x1 ∷ x2 ∷ x3 ∷ x4 ∷ x5 ∷ x6 ∷ x7 ∷ x8 ∷ x9 ∷ x10 ∷ init) rest e = omega arith

-- If a header begins with the version 1 prefix and ends with a line end, the slice between the two
-- is in bounds.
pub payload_in_bounds :
    (header : Text)
    → starts_with (lit "PROXY TCP4 ") header ≡ true
    → ends_with crlf header ≡ true
    → 11 ≤ length header - 2
payload_in_bounds header s e =
    let (rest, front) = (starts_with_iff (lit "PROXY TCP4 ") header).0 s in
    let (init, back) = (ends_with_iff crlf header).0 e in
    omega (arith, no_overlap init rest (sym front ∙ back), ap length back, length-append init crlf)

-- The line that a proxy sends for a client.
abbrev pub header_line : Text → Text → Text → Text → Text
header_line a b c d =
    lit "PROXY TCP4 " ++ ((a ++ (b' ' ∷ (b ++ (b' ' ∷ (c ++ (b' ' ∷ d)))))) ++ crlf)

take-append : (xs ys : Text) → take (length xs) (xs ++ ys) ≡ xs
take-append [] ys = refl
take-append (x ∷ xs) ys = ap (◌∷◌ x) (take-append xs ys)

payload_lem : (m : Text) → payload (lit "PROXY TCP4 " ++ (m ++ crlf)) ≡ m
unfolding lit
payload_lem m =
    let line = lit "PROXY TCP4 " ++ m in
    let e : length (line ++ crlf) - 2 ≡ length line = omega (arith, length-append line crlf) in
    ap (λ n. drop 11 (take n (line ++ crlf))) e ∙ ap (drop 11) (take-append line crlf)

split_where-append :
    (w rest : Text)
    → contains_char b' ' w ≡ false
    → split_where is_space (w ++ (b' ' ∷ rest)) ≡ w ∷ split_where is_space rest
unfolding split_where contains_char
split_where-append [] rest h = refl
split_where-append (c ∷ w) rest h = ground (arith, split_where-append w rest)

split_where_last : (w : Text) → contains_char b' ' w ≡ false → split_where is_space w ≡ w ∷ []
unfolding split_where contains_char
split_where_last [] h = refl
split_where_last (c ∷ w) h = ground (arith, split_where_last w)

-- A line of the version 1 form, with two IPv4 addresses and two 16-bit ports that contain no space
-- and parse, is read as its first address and its first port.
pub parse_proxy_protocol_v1-header_line :
    (a b c d : Text) (client_ip proxy_ip client_port proxy_port : ℕ)
    → contains_char b' ' a ≡ false
    → contains_char b' ' b ≡ false
    → contains_char b' ' c ≡ false
    → contains_char b' ' d ≡ false
    → parse_ipv4 a ≡ some client_ip
    → parse_ipv4 b ≡ some proxy_ip
    → parse_uint u16_mod c ≡ some client_port
    → parse_uint u16_mod d ≡ some proxy_port
    → parse_proxy_protocol_v1 (header_line a b c d) ≡ some (v4 client_ip, client_port)
unfolding parse_proxy_protocol_v1
parse_proxy_protocol_v1-header_line a b c d _ _ _ _ ha hb hc hd ea eb ec ed =
    let m = a ++ (b' ' ∷ (b ++ (b' ' ∷ (c ++ (b' ' ∷ d))))) in
    let s = (starts_with_iff (lit "PROXY TCP4 ") (header_line a b c d)).1 (m ++ crlf, refl) in
    let e =
      (ends_with_iff crlf (header_line a b c d)).1
        (lit "PROXY TCP4 " ++ m, sym (append_assoc (lit "PROXY TCP4 ") m crlf)) in
    let p : payload (header_line a b c d) ≡ m = payload_lem m in
    let f : split_where is_space m ≡ a ∷ b ∷ c ∷ d ∷ [] =
      split_where-append a _ ha
      ∙ ap (◌∷◌ a) (
          split_where-append b _ hb
          ∙ ap (◌∷◌ b) (split_where-append c _ hc ∙ ap (◌∷◌ c) (split_where_last d hd))) in
    rw (s, e, p, f, ea, eb, ec, ed)

-- A text ends in a line end only if its last character is the line feed.
ends_with-crlf-append :
    (s : Text) (c : ℕ) → (c == 10) ≡ false → ends_with crlf (s ++ (c ∷ [])) ≡ false
unfolding ends_with starts_with strip_prefix
ends_with-crlf-append s c h = rw (reverse-append s (c ∷ [])) (ground arith)

read_header-crlf :
    (n : ℕ) (pushed todo : Text) (rest : TcpStream)
    → contains_char 10 todo ≡ false
    → length todo + 2 ≤ n
    → read_header n pushed (map byte todo ++ (byte 13 ∷ byte 10 ∷ rest))
      ≡ some (ok (pushed ++ (todo ++ crlf), rest))
unfolding read_header contains_char
read_header-crlf zero pushed todo rest h l = absurd (omega arith)
read_header-crlf (suc zero) pushed todo rest h l = absurd (omega arith)
read_header-crlf (suc (suc n)) pushed [] rest h l =
    let joined : (pushed ++ (13 ∷ [])) ++ (10 ∷ []) ≡ pushed ++ crlf =
      append_assoc pushed (13 ∷ []) (10 ∷ []) in
    let whole : ends_with crlf ((pushed ++ (13 ∷ [])) ++ (10 ∷ [])) ≡ true =
      (ends_with_iff crlf _).1 (pushed, joined) in
    rw (ends_with-crlf-append pushed 13 refl, whole, joined)
read_header-crlf (suc (suc n)) pushed (c ∷ todo) rest h l =
    let h1 : (c == 10) ≡ false = ground arith in
    let h2 : contains_char 10 todo ≡ false = ground arith in
    let joined : (pushed ++ (c ∷ [])) ++ (todo ++ crlf) ≡ pushed ++ (c ∷ (todo ++ crlf)) =
      append_assoc pushed (c ∷ []) (todo ++ crlf) in
    rw (ends_with-crlf-append pushed c h1) (
      read_header-crlf (suc n) (pushed ++ (c ∷ [])) todo rest h2 (omega arith)
      ∙ ap (λ t. some (ok (t, rest))) joined)

-- With the protocol enabled, from the trusted upstream: a header line of at most 107 bytes whose
-- only line feed ends it, that is UTF-8 and parses, gives the client's address, and a stream
-- without a buffer that goes on exactly behind the header.
pub trusted_header :
    (peer_addr : SocketAddr) (sec : SecurityConfig) (line : Text) (rest : TcpStream) (ip : IpAddr)
    (port : ℕ)
    → sec.proxy_protocol ≡ true
    → ip_eq peer_addr.ip sec.trusted_upstream ≡ true
    → contains_char 10 line ≡ false
    → length line + 2 ≤ 107
    → from_utf8 (line ++ crlf) ≡ some (line ++ crlf)
    → parse_proxy_protocol_v1 (line ++ crlf) ≡ some (ip, port)
    → handle_proxy_protocol (map byte line ++ (byte 13 ∷ byte 10 ∷ rest)) peer_addr sec
      ≡ ok (new rest none, record { ip = ip; port = port })
unfolding handle_proxy_protocol parse_future finish_header
trusted_header peer_addr sec line rest ip port enabled trusted h l utf8 parsed =
    let read = read_header-crlf 107 [] line rest h l in
    let whole = (ends_with_iff crlf (line ++ crlf)).1 (line, refl) in
    rw (enabled, trusted, read, whole, utf8, parsed)
