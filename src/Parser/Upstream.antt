-- ===== src/Parser/Upstream.antt =====
-- src/parser.rs: where the trusted upstream of a security block comes from.
use barebones_reverse_proxy.Prelude.{
  ℕ, ◌≡◌, ◌≢◌, refl, sym, subst, true, Option, some, List, [], ◌∷◌, ok, ok_or, >>=!-eq-ok, ◌>>=!◌,
  Text, arith, take,
}
use barebones_reverse_proxy.Net.{IpAddr, parse_ip}
use barebones_reverse_proxy.Config.{SecurityConfig}
use barebones_reverse_proxy.Error.{invalid_security_value}
use barebones_reverse_proxy.Parser.{words, block_directive, parse_single_value_directive}
use barebones_reverse_proxy.Parser.Blocks.{read_block-Among, Among}
use barebones_reverse_proxy.Parser.SecurityBlock.{
  SecurityDirective, security_directive, SecurityBlock, security_line, single_use, close_security,
  parse_security_block,
}
use barebones_reverse_proxy.Parser.BlockValues.{Holds}

-- A line of the block that names the address.
pub record Names (lines : List Text) (ip : IpAddr) : Type 0 where
  pub line : Text
  pub directive : Text
  pub word : Text
  pub value : Text
  pub among : Among line lines
  pub opens : block_directive line ≡ ok directive
  pub is_upstream : security_directive directive ≡ SecurityDirective.trusted_upstream
  pub splits : words line ≡ word ∷ value ∷ []
  pub parses : parse_ip value ≡ some ip

single_use-words :
    {A : Type 0} (seen : Option A) (directive line value : Text)
    → single_use seen directive line ≡ ok value
    → (word : Text) × (words line ≡ word ∷ value ∷ [])
unfolding single_use parse_single_value_directive
single_use-words seen directive line value h = ground arith

-- The other arms leave the address.
other-upstream :
    (d : SecurityDirective) (b : SecurityBlock) (directive line : Text) (b' : SecurityBlock)
    → security_directive directive ≡ d
    → d ≢ SecurityDirective.trusted_upstream
    → security_line b directive line ≡ ok b'
    → b'.upstream ≡ b.upstream
unfolding security_line
other-upstream SecurityDirective.trusted_upstream b directive line b' e ne h = absurd (ne refl)
other-upstream SecurityDirective.proxy_protocol b directive line b' e ne h = ground arith
other-upstream SecurityDirective.timeout b directive line b' e ne h = ground arith
other-upstream SecurityDirective.max_tls_failures b directive line b' e ne h = ground arith
other-upstream SecurityDirective.ban_duration b directive line b' e ne h = ground arith
other-upstream SecurityDirective.rate_limit b directive line b' e ne h = ground arith
other-upstream SecurityDirective.forward_auth b directive line b' e ne h = ground arith
other-upstream SecurityDirective.max_body_size b directive line b' e ne h = ground arith
other-upstream SecurityDirective.max_header_size b directive line b' e ne h = ground arith
other-upstream SecurityDirective.other b directive line b' e ne h = ground arith

upstream-value :
    (b : SecurityBlock) (directive line : Text) (b' : SecurityBlock)
    → security_directive directive ≡ SecurityDirective.trusted_upstream
    → security_line b directive line ≡ ok b'
    → (value : Text) × (ip : IpAddr) × (single_use b.upstream directive line ≡ ok value)
      × (parse_ip value ≡ some ip)
      × (b'.upstream ≡ some ip)
unfolding security_line
upstream-value b directive line b' e h =
    let (value, e1, h1) = >>=!-eq-ok (single_use b.upstream directive line) _ (arm h) in
    let (ip, e2, h2) =
      >>=!-eq-ok (ok_or (parse_ip value) (invalid_security_value directive value)) _ h1 in
    (value, ip, e1, ground arith, ground arith)
  where
    arm :
        security_line b directive line ≡ ok b'
        → (single_use b.upstream directive line >>=! λ value.
            ok_or (parse_ip value) (invalid_security_value directive value) >>=! λ ip.
            ok (record b { upstream = some ip }))
          ≡ ok b'
    arm k = rw (← k) (rw (security_line, e))

keeps-Named :
    (all : List Text) (d : SecurityDirective) (b : SecurityBlock) (directive line : Text)
    (b' : SecurityBlock)
    → security_directive directive ≡ d
    → Among line all
    → block_directive line ≡ ok directive
    → security_line b directive line ≡ ok b'
    → Holds (Names all) b.upstream
    → Holds (Names all) b'.upstream
keeps-Named all SecurityDirective.trusted_upstream b directive line b' e among opens h i =
    let (value, ip, u, p, same) = upstream-value b directive line b' e h in
    let (word, splits) = single_use-words b.upstream directive line value u in
    subst (Holds (Names all)) (sym same) (record {
      line = line;
      directive = directive;
      word = word;
      value = value;
      among = among;
      opens = opens;
      is_upstream = e;
      splits = splits;
      parses = p;
    })
keeps-Named all SecurityDirective.proxy_protocol b directive line b' e among opens h i =
    subst (Holds (Names all))
      (sym (
        other-upstream SecurityDirective.proxy_protocol b directive line b' e (λ q. ground arith)
          h))
      i
keeps-Named all SecurityDirective.timeout b directive line b' e among opens h i =
    subst (Holds (Names all))
      (sym (other-upstream SecurityDirective.timeout b directive line b' e (λ q. ground arith) h)) i
keeps-Named all SecurityDirective.max_tls_failures b directive line b' e among opens h i =
    subst (Holds (Names all))
      (sym (
        other-upstream SecurityDirective.max_tls_failures b directive line b' e (λ q. ground arith)
          h))
      i
keeps-Named all SecurityDirective.ban_duration b directive line b' e among opens h i =
    subst (Holds (Names all))
      (sym
        (other-upstream SecurityDirective.ban_duration b directive line b' e (λ q. ground arith) h))
      i
keeps-Named all SecurityDirective.rate_limit b directive line b' e among opens h i =
    subst (Holds (Names all))
      (sym
        (other-upstream SecurityDirective.rate_limit b directive line b' e (λ q. ground arith) h))
      i
keeps-Named all SecurityDirective.forward_auth b directive line b' e among opens h i =
    subst (Holds (Names all))
      (sym
        (other-upstream SecurityDirective.forward_auth b directive line b' e (λ q. ground arith) h))
      i
keeps-Named all SecurityDirective.max_body_size b directive line b' e among opens h i =
    subst (Holds (Names all))
      (sym (
        other-upstream SecurityDirective.max_body_size b directive line b' e (λ q. ground arith) h))
      i
keeps-Named all SecurityDirective.max_header_size b directive line b' e among opens h i =
    subst (Holds (Names all))
      (sym (
        other-upstream SecurityDirective.max_header_size b directive line b' e (λ q. ground arith)
          h))
      i
keeps-Named all SecurityDirective.other b directive line b' e among opens h i =
    subst (Holds (Names all))
      (sym (other-upstream SecurityDirective.other b directive line b' e (λ q. ground arith) h)) i

close_security-upstream :
    (b : SecurityBlock) (s : SecurityConfig)
    → close_security b ≡ ok s
    → s.proxy_protocol ≡ true
    → b.upstream ≡ some s.trusted_upstream
unfolding close_security
close_security-upstream b s h on = ground arith

-- If a security block is accepted and turns the PROXY protocol on, then its trusted upstream is the
-- address that a `trusted_upstream` line gives, among the lines that the block takes; it is never a
-- default.
pub parse_security_block-Names :
    (lines : List Text) (s : SecurityConfig) (n : ℕ)
    → parse_security_block lines ≡ ok (s, n)
    → s.proxy_protocol ≡ true
    → Names (take n lines) s.trusted_upstream
unfolding parse_security_block
parse_security_block-Names lines s n h on =
    let (b, i, c) =
      read_block-Among _ _ _ _ (λ b. Holds (Names (take n lines)) b.upstream) (take n lines)
        (λ b d l b' a o e i.
          keeps-Named (take n lines) (security_directive d) b d l b' refl a o e i)
        _ lines s n (λ l a. a) tt h in
    subst (Holds (Names (take n lines))) (close_security-upstream b s c on) i
