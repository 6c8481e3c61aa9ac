-- ===== src/Parser/BlockValues.antt =====
-- src/parser.rs: what the values of an accepted block satisfy.
use barebones_reverse_proxy.Prelude.{
  ℕ, ◌<◌, ◌≡◌, refl, true, Option, none, some, List, ok, is_some, Text, lit, starts_with, word_mod,
  checked_mul, arith,
}
use barebones_reverse_proxy.Net.{parse_uint_lt}
use barebones_reverse_proxy.Config.{Route, SecurityConfig, CacheConfig}
use barebones_reverse_proxy.Parser.{Parsed, is_valid_url, parse_size_string}
use barebones_reverse_proxy.Parser.Blocks.{read_block-keeps}
use barebones_reverse_proxy.Parser.RouteBlock.{
  RouteBlock, route_line, close_route, parse_route_block,
}
use barebones_reverse_proxy.Parser.SecurityBlock.{
  SecurityBlock, SecurityDirective, security_directive, security_line, close_security,
  parse_security_block,
}
use barebones_reverse_proxy.Parser.CacheBlock.{cache_line, parse_cache_block}

abbrev pub Holds {ℓ κ} : {A : Type ℓ} → (A → Type κ) → Option A → Type κ
Holds P none = Unit
Holds P (some a) = P a

abbrev pub RouteIsValid : Route → Type 0
RouteIsValid r =
    (is_valid_url r.request_endpoint ≡ true)
    × (is_valid_url r.forward_endpoint ≡ true)
    × (is_some r.cert_path ≡ starts_with (lit "https://") r.request_endpoint)
    × (is_some r.key_path ≡ starts_with (lit "https://") r.request_endpoint)

abbrev ForwardIsUrl : RouteBlock → Type 0
ForwardIsUrl b = Holds (λ url. is_valid_url url ≡ true) b.forward_endpoint

route_line-keeps :
    (b : RouteBlock) (directive line : Text) (b' : RouteBlock)
    → route_line b directive line ≡ ok b'
    → ForwardIsUrl b
    → ForwardIsUrl b'
unfolding route_line
route_line-keeps b directive line b' h i = ground arith

close_route-RouteIsValid :
    (endpoint : Text) (b : RouteBlock) (r : Route)
    → is_valid_url endpoint ≡ true
    → ForwardIsUrl b
    → close_route endpoint b ≡ ok r
    → RouteIsValid r × (r.request_endpoint ≡ endpoint)
unfolding close_route
close_route-RouteIsValid endpoint b r v i h = ground arith

pub parse_route_block-RouteIsValid :
    (lines : List Text) (endpoint : Text) (r : Route) (n : ℕ)
    → is_valid_url endpoint ≡ true
    → parse_route_block lines endpoint ≡ ok (r, n)
    → RouteIsValid r × (r.request_endpoint ≡ endpoint)
unfolding parse_route_block
parse_route_block-RouteIsValid lines endpoint r n v h =
    let (b, i, c) = read_block-keeps _ _ _ _ ForwardIsUrl route_line-keeps _ lines r n tt h in
    close_route-RouteIsValid endpoint b r v i c

parse_size_string_lt :
    (text directive : Text) (n : ℕ) → parse_size_string text directive ≡ ok n → n < word_mod
unfolding parse_size_string checked_mul
parse_size_string_lt text directive n h = ground arith

abbrev IsWord : ℕ → Type 0
IsWord n = n < word_mod

abbrev pub SecurityIsValid : SecurityConfig → Type 0
SecurityIsValid s =
    (s.timeout_ms < word_mod)
    × (s.max_tls_failures < word_mod)
    × (s.ban_duration_sec < word_mod)
    × (s.rate_limit_rpm < word_mod)
    × (s.max_body_size < word_mod)
    × (s.max_header_size < word_mod)

abbrev WordsFit : SecurityBlock → Type 0
WordsFit b =
    Holds IsWord b.timeout_ms
    × Holds IsWord b.tls_failures
    × Holds IsWord b.ban_duration_sec
    × Holds IsWord b.rate_limit_rpm
    × Holds IsWord b.body_size
    × Holds IsWord b.header_size

-- One arm of the match at a time.
arm-keeps :
    (d : SecurityDirective) (b : SecurityBlock) (directive line : Text) (b' : SecurityBlock)
    → security_directive directive ≡ d
    → security_line b directive line ≡ ok b'
    → WordsFit b
    → WordsFit b'
unfolding security_line
arm-keeps SecurityDirective.proxy_protocol b directive line b' e h (i1, i2, i3, i4, i5, i6) =
    grind (arith, parse_uint_lt, parse_size_string_lt)
arm-keeps SecurityDirective.trusted_upstream b directive line b' e h (i1, i2, i3, i4, i5, i6) =
    grind (arith, parse_uint_lt, parse_size_string_lt)
arm-keeps SecurityDirective.timeout b directive line b' e h (i1, i2, i3, i4, i5, i6) =
    grind (arith, parse_uint_lt, parse_size_string_lt)
arm-keeps SecurityDirective.max_tls_failures b directive line b' e h (i1, i2, i3, i4, i5, i6) =
    grind (arith, parse_uint_lt, parse_size_string_lt)
arm-keeps SecurityDirective.ban_duration b directive line b' e h (i1, i2, i3, i4, i5, i6) =
    grind (arith, parse_uint_lt, parse_size_string_lt)
arm-keeps SecurityDirective.rate_limit b directive line b' e h (i1, i2, i3, i4, i5, i6) =
    grind (arith, parse_uint_lt, parse_size_string_lt)
arm-keeps SecurityDirective.forward_auth b directive line b' e h (i1, i2, i3, i4, i5, i6) =
    grind (arith, parse_uint_lt, parse_size_string_lt)
arm-keeps SecurityDirective.max_body_size b directive line b' e h (i1, i2, i3, i4, i5, i6) =
    grind (arith, parse_uint_lt, parse_size_string_lt)
arm-keeps SecurityDirective.max_header_size b directive line b' e h (i1, i2, i3, i4, i5, i6) =
    grind (arith, parse_uint_lt, parse_size_string_lt)
arm-keeps SecurityDirective.other b directive line b' e h (i1, i2, i3, i4, i5, i6) =
    grind (arith, parse_uint_lt, parse_size_string_lt)

security_line-keeps :
    (b : SecurityBlock) (directive line : Text) (b' : SecurityBlock)
    → security_line b directive line ≡ ok b'
    → WordsFit b
    → WordsFit b'
security_line-keeps b directive line b' =
    arm-keeps (security_directive directive) b directive line b' refl

close_security-SecurityIsValid :
    (b : SecurityBlock) (s : SecurityConfig)
    → WordsFit b
    → close_security b ≡ ok s
    → SecurityIsValid s
unfolding close_security
close_security-SecurityIsValid b s i h = ground arith

pub parse_security_block-SecurityIsValid :
    (lines : List Text) (s : SecurityConfig) (n : ℕ)
    → parse_security_block lines ≡ ok (s, n)
    → SecurityIsValid s
unfolding parse_security_block
parse_security_block-SecurityIsValid lines s n h =
    let (b, i, c) =
      read_block-keeps _ _ _ _ WordsFit security_line-keeps _ lines s n (tt, tt, tt, tt, tt, tt)
        h in
    close_security-SecurityIsValid b s i c

abbrev pub CacheIsValid : CacheConfig → Type 0
CacheIsValid c =
    (c.max_capacity_bytes < word_mod)
    × (c.max_file_size_bytes < word_mod)
    × (c.default_ttl_sec < word_mod)

cache_line-keeps :
    (c : CacheConfig) (directive line : Text) (c' : CacheConfig)
    → cache_line c directive line ≡ ok c'
    → CacheIsValid c
    → CacheIsValid c'
unfolding cache_line
cache_line-keeps c directive line c' h i = grind (arith, parse_uint_lt, parse_size_string_lt)

abbrev kept : CacheConfig → Parsed CacheConfig
kept = ok

ok-keeps : (c c' : CacheConfig) → CacheIsValid c → kept c ≡ ok c' → CacheIsValid c'
ok-keeps c c' i e = ground arith

pub parse_cache_block-CacheIsValid :
    (lines : List Text) (c : CacheConfig) (n : ℕ)
    → parse_cache_block lines ≡ ok (c, n)
    → CacheIsValid c
unfolding parse_cache_block
parse_cache_block-CacheIsValid lines c n h =
    let (c', i, e) =
      read_block-keeps _ _ _ _ CacheIsValid cache_line-keeps _ lines c n
        (omega arith, omega arith, omega arith) h in
    ok-keeps c' c i e
