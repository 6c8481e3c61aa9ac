-- ===== src/Parser/Validity.antt =====
-- src/parser.rs: what an accepted configuration satisfies.
use barebones_reverse_proxy.Prelude.{
  ℕ, zero, suc, ◌<◌, ◌≡◌, refl, sym, subst, true, false, not, ◌||◌, List, [], ◌∷◌, ◌++◌, ok,
  >>=!-eq-ok, if-cases, inl, inr, is_some, any, All, All-append, Text, text_eq, lit, ends_with,
  u16_mod, arith, is_empty,
}
use barebones_reverse_proxy.Net.{parse_uint_lt}
use barebones_reverse_proxy.Config.{Config, Route}
use barebones_reverse_proxy.Parser.{
  is_valid_url, get_directive, validate_directive_case, parse_listen_line, parse_route_block_header,
  is_block_terminator,
}
use barebones_reverse_proxy.Parser.RouteBlock.{parse_route_block}
use barebones_reverse_proxy.Parser.SecurityBlock.{parse_security_block}
use barebones_reverse_proxy.Parser.CacheBlock.{parse_cache_block}
use barebones_reverse_proxy.Parser.Comments.{strip_comments}
use barebones_reverse_proxy.Parser.BlockValues.{
  Holds, RouteIsValid, SecurityIsValid, CacheIsValid, parse_route_block-RouteIsValid,
  parse_security_block-SecurityIsValid, parse_cache_block-CacheIsValid,
}
use barebones_reverse_proxy.Parser.TopLevel.{
  Directive, listen, logfile, intercept_errors, route, security, workers, cache, dispatch,
  validate_known_top_level_directive, Progress, no_progress, endpoint_known, listen_line,
  logfile_line, intercept_line, workers_line, route_section, security_section, cache_section,
  top_level_line, read_lines, has_forward_auth, finish, parse_proxy_config, config_lines,
}

-- No endpoint stands twice.
abbrev pub Distinct : List Route → Type 0
Distinct [] = Unit
Distinct (r ∷ rs) = (endpoint_known r.request_endpoint rs ≡ false) × Distinct rs

abbrev pub IsValid : Config → Type 0
IsValid c =
    (c.listen_port < u16_mod)
    × (0 < c.workers)
    × (is_empty c.routes ≡ false)
    × Distinct c.routes
    × All RouteIsValid c.routes
    × Holds SecurityIsValid c.security
    × Holds CacheIsValid c.cache
    × ((not (any (λ r. r.auth_required) c.routes) || has_forward_auth c.security) ≡ true)

-- The same of the variables of the loop.
abbrev ProgressIsValid : Progress → Type 0
ProgressIsValid p =
    Holds (λ n. n < u16_mod) p.listen_port
    × Holds (λ n. 0 < n) p.worker_count
    × Distinct p.routes
    × All RouteIsValid p.routes
    × Holds SecurityIsValid p.sec
    × Holds CacheIsValid p.cache_config

text_eq_comm : (a b : Text) → text_eq a b ≡ text_eq b a
unfolding text_eq
text_eq_comm [] [] = refl
text_eq_comm [] (y ∷ b) = refl
text_eq_comm (x ∷ a) [] = refl
text_eq_comm (x ∷ a) (y ∷ b) = ground (arith, text_eq_comm a b)

-- A route of a new endpoint keeps the endpoints distinct.
endpoint_known-append :
    (e : Text) (rs : List Route) (r : Route)
    → endpoint_known e (rs ++ (r ∷ [])) ≡ (endpoint_known e rs || text_eq e r.request_endpoint)
unfolding endpoint_known
endpoint_known-append e [] r = ground arith
endpoint_known-append e (q ∷ rs) r = ground (arith, endpoint_known-append e rs r)

Distinct-append :
    (rs : List Route) (r : Route)
    → Distinct rs
    → endpoint_known r.request_endpoint rs ≡ false
    → Distinct (rs ++ (r ∷ []))
unfolding endpoint_known
Distinct-append [] r d h = (refl, tt)
Distinct-append (q ∷ rs) r d h =
    let e = endpoint_known-append q.request_endpoint rs r in
    let c = text_eq_comm q.request_endpoint r.request_endpoint in
    let known : endpoint_known r.request_endpoint rs ≡ false = ground arith in
    (ground arith, Distinct-append rs r d.1 known)

parse_listen_line_lt : (line : Text) (n : ℕ) → parse_listen_line line ≡ ok n → n < u16_mod
unfolding parse_listen_line
parse_listen_line_lt line n h = grind (arith, parse_uint_lt)

listen_line-keeps :
    (p : Progress) (line : Text) (p' : Progress) (n : ℕ)
    → listen_line p line ≡ ok (p', n)
    → ProgressIsValid p
    → ProgressIsValid p'
unfolding listen_line
listen_line-keeps p line p' n h (i1, i2, i3, i4, i5, i6) = grind (arith, parse_listen_line_lt)

logfile_line-keeps :
    (p : Progress) (line : Text) (p' : Progress) (n : ℕ)
    → logfile_line p line ≡ ok (p', n)
    → ProgressIsValid p
    → ProgressIsValid p'
unfolding logfile_line
logfile_line-keeps p line p' n h (i1, i2, i3, i4, i5, i6) = ground arith

intercept_line-keeps :
    (p : Progress) (line : Text) (p' : Progress) (n : ℕ)
    → intercept_line p line ≡ ok (p', n)
    → ProgressIsValid p
    → ProgressIsValid p'
unfolding intercept_line
intercept_line-keeps p line p' n h (i1, i2, i3, i4, i5, i6) = ground arith

workers_line-keeps :
    (p : Progress) (line : Text) (p' : Progress) (n : ℕ)
    → workers_line p line ≡ ok (p', n)
    → ProgressIsValid p
    → ProgressIsValid p'
unfolding workers_line
workers_line-keeps p line p' n h (i1, i2, i3, i4, i5, i6) = ground arith

parse_route_block_header-is_valid_url :
    (line endpoint : Text)
    → parse_route_block_header line ≡ ok endpoint
    → is_valid_url endpoint ≡ true
unfolding parse_route_block_header
parse_route_block_header-is_valid_url line endpoint h = ground arith

security_section-keeps :
    (p : Progress) (line : Text) (lines : List Text) (p' : Progress) (n : ℕ)
    → security_section p line lines ≡ ok (p', n)
    → ProgressIsValid p
    → ProgressIsValid p'
unfolding security_section
security_section-keeps p line lines p' n h i =
    elim (if-cases (not (ends_with (lit "{") line)) _ _ h) [
      | inl (_, e) ↦ absurd (ground arith)
      | inr (_, h1) ↦ elim (if-cases (is_some p.sec) _ _ h1) [
        | inl (_, e) ↦ absurd (ground arith)
        | inr (_, h2) ↦
            let ((b, k), e, h3) = >>=!-eq-ok (parse_security_block lines) _ h2 in
            let v = parse_security_block-SecurityIsValid lines b k e in ground arith
      ]
    ]

cache_section-keeps :
    (p : Progress) (line : Text) (lines : List Text) (p' : Progress) (n : ℕ)
    → cache_section p line lines ≡ ok (p', n)
    → ProgressIsValid p
    → ProgressIsValid p'
unfolding cache_section
cache_section-keeps p line lines p' n h i = elim (if-cases (not (ends_with (lit "{") line)) _ _ h) [
  | inl (_, e) ↦ absurd (ground arith)
  | inr (_, h1) ↦ elim (if-cases (is_some p.cache_config) _ _ h1) [
    | inl (_, e) ↦ absurd (ground arith)
    | inr (_, h2) ↦
        let ((b, k), e, h3) = >>=!-eq-ok (parse_cache_block lines) _ h2 in
        let v = parse_cache_block-CacheIsValid lines b k e in ground arith
  ]
]

route_section-keeps :
    (p : Progress) (line : Text) (lines : List Text) (p' : Progress) (n : ℕ)
    → route_section p line lines ≡ ok (p', n)
    → ProgressIsValid p
    → ProgressIsValid p'
unfolding route_section
route_section-keeps p line lines p' n h (i1, i2, d, v, i5, i6) =
    elim (if-cases (not (ends_with (lit "{") line)) _ _ h) [
      | inl (_, e) ↦ absurd (ground arith)
      | inr (_, h1) ↦
          let (endpoint, e1, h2) = >>=!-eq-ok (parse_route_block_header line) _ h1 in
          elim (if-cases (endpoint_known endpoint p.routes) _ _ h2) [
            | inl (_, e) ↦ absurd (ground arith)
            | inr (new, h3) ↦
                let ((r, k), e3, h4) = >>=!-eq-ok (parse_route_block lines endpoint) _ h3 in
                let url = parse_route_block_header-is_valid_url line endpoint e1 in
                let (rv, same) = parse_route_block-RouteIsValid lines endpoint r k url e3 in
                let fresh = subst (λ u. endpoint_known u p.routes ≡ false) (sym same) new in
                let d' = Distinct-append p.routes r d fresh in
                let v' = All-append RouteIsValid p.routes (r ∷ []) v (rv, tt) in ground arith
          ]
    ]

dispatch-keeps :
    (d : Directive) (p : Progress) (line : Text) (lines : List Text) (p' : Progress) (n : ℕ)
    → dispatch d p line lines ≡ ok (p', n)
    → ProgressIsValid p
    → ProgressIsValid p'
unfolding dispatch
dispatch-keeps listen p line lines p' n = listen_line-keeps p line p' n
dispatch-keeps logfile p line lines p' n = logfile_line-keeps p line p' n
dispatch-keeps intercept_errors p line lines p' n = intercept_line-keeps p line p' n
dispatch-keeps route p line lines p' n = route_section-keeps p line lines p' n
dispatch-keeps security p line lines p' n = security_section-keeps p line lines p' n
dispatch-keeps workers p line lines p' n = workers_line-keeps p line p' n
dispatch-keeps cache p line lines p' n = cache_section-keeps p line lines p' n

top_level_line-keeps :
    (p : Progress) (line : Text) (lines : List Text) (p' : Progress) (n : ℕ)
    → top_level_line p line lines ≡ ok (p', n)
    → ProgressIsValid p
    → ProgressIsValid p'
unfolding top_level_line
top_level_line-keeps p line lines p' n h i = elim (if-cases (is_block_terminator line) _ _ h) [
  | inl (_, e) ↦ absurd (ground arith)
  | inr (_, h1) ↦
      let (directive, e1, h2) = >>=!-eq-ok (get_directive line) _ h1 in
      let (u, e2, h3) = >>=!-eq-ok (validate_directive_case directive) _ h2 in
      let (known, e3, h4) = >>=!-eq-ok (validate_known_top_level_directive directive) _ h3 in
      dispatch-keeps known p line lines p' n h4 i
]

read_lines-keeps :
    (lines : List Text) (skip : ℕ) (p p' : Progress)
    → read_lines skip p lines ≡ ok p'
    → ProgressIsValid p
    → ProgressIsValid p'
unfolding read_lines
read_lines-keeps [] skip p p' h i = ground arith
read_lines-keeps (line ∷ lines) (suc skip) p p' h i = read_lines-keeps lines skip p p' h i
read_lines-keeps (line ∷ lines) zero p p' h i =
    let ((q, taken), e, h1) = >>=!-eq-ok (top_level_line p line lines) _ h in
    read_lines-keeps lines taken q p' h1 (top_level_line-keeps p line lines q taken e i)

finish-IsValid :
    (available_parallelism : ℕ) (p : Progress) (c : Config)
    → 0 < available_parallelism
    → ProgressIsValid p
    → finish available_parallelism p ≡ ok c
    → IsValid c
unfolding finish
finish-IsValid cpus p c pos (i1, i2, i3, i4, i5, i6) h = ground arith

-- If the machine's parallelism is positive and a configuration is accepted, then its port is a
-- 16-bit number, it has at least one worker and one route, no request endpoint stands twice, every
-- route has well-formed URLs, a certificate and a key exactly if its endpoint is https, every
-- number of the security and cache settings fits 64 bits, and a route that needs a login comes with
-- a `forward_auth` service.
pub parse_proxy_config-IsValid :
    (available_parallelism : ℕ) (input : Text) (c : Config)
    → 0 < available_parallelism
    → parse_proxy_config available_parallelism input ≡ ok c
    → IsValid c
unfolding parse_proxy_config
parse_proxy_config-IsValid cpus input c pos h =
    let (p, e, h1) =
      >>=!-eq-ok (read_lines 0 no_progress (config_lines (strip_comments input))) _ h in
    finish-IsValid cpus p c pos (read_lines-keeps _ 0 no_progress p e (tt, tt, tt, tt, tt, tt)) h1
