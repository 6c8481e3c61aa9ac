-- ===== src/Tls/Resolving.antt =====
-- src/tls.rs: which certificate a host name is served with.
use barebones_reverse_proxy.Prelude.{
  ◌≡◌, ◌↔◌, ◌≢◌, contains_char-append, refl, sym, ap, ◌∙◌, Bool, true, false, not, Option, none,
  some, List, [], ◌∷◌, ◌++◌, if◌then◌else◌, ok, err, >>=!-eq-ok, is_empty, retain, any, Text, lit,
  text_eq, contains_char, strip_prefix-append, before_char-append, insert, Option-cases, inl, inr,
  arith, if-cases,
}
use barebones_reverse_proxy.Config.{Route}
use barebones_reverse_proxy.Tls.{
  CertificateFiles, host_eq, extract_hostname_from_endpoint, ExactCertResolver, new, add, resolve,
  certify, add_routes, is_https, build_tls_acceptor,
}

slash_free :
    (host port : Text)
    → contains_char b'/' host ≡ false
    → contains_char b'/' port ≡ false
    → contains_char b'/' (host ++ (b':' ∷ port)) ≡ false
slash_free host port h p =
    rw (contains_char-append b'/' host (b':' ∷ port), h) (unfold contains_char in p)

not_nil : (host : Text) → host ≢ [] → (if not (is_empty host) then some host else none) ≡ some host
not_nil [] h = absurd (h refl)
not_nil (c ∷ host) h = refl

-- The host name of an https endpoint with a nonempty host without a colon or a slash, a port
-- without a slash and a path is that host.
pub hostname-https :
    (host port path : Text)
    → host ≢ []
    → contains_char b':' host ≡ false
    → contains_char b'/' host ≡ false
    → contains_char b'/' port ≡ false
    → extract_hostname_from_endpoint (lit "https://" ++ ((host ++ (b':' ∷ port)) ++ (b'/' ∷ path)))
      ≡ some host
unfolding extract_hostname_from_endpoint
hostname-https host port path some_host no_colon no_slash no_slash' =
    let authority = host ++ (b':' ∷ port) in
    let plain = slash_free host port no_slash no_slash' in
    rw
      (
        strip_prefix-append (lit "https://") (authority ++ (b'/' ∷ path)),
        before_char-append b'/' authority path plain,
        before_char-append b':' host port no_colon,
      )
      (not_nil host some_host)

any-retain :
    (p : Route → Bool) (routes : List Route) → any p routes ≡ not (is_empty (retain p routes))
unfolding retain
any-retain p [] = refl
any-retain p (r ∷ routes) = ground (arith, any-retain p routes)

module _ (files : CertificateFiles) where
  open files use {CertifiedKey}

  -- The certificate of the last of the routes that have this host name.
  abbrev pub certificate_for : Text → List Route → Option CertifiedKey
  certificate_for host [] = none
  certificate_for host (r ∷ rs) = elim (certificate_for host rs) [
    | some key ↦ some key
    | none ↦ elim (certify files r) [
      | err e ↦ none
      | ok (hostname, key) ↦ if text_eq hostname host then some key else none
    ]
  ]

  choose :
      (b : Bool) (key : CertifiedKey) (o : Option CertifiedKey)
      → (if b then some key else o)
        ≡ elim (if b then some key else none) [ none ↦ o | some k ↦ some k ]
  choose true key o = refl
  choose false key o = refl

  or_none : (o : Option CertifiedKey) → elim o [ none ↦ none | some k ↦ some k ] ≡ o
  or_none none = refl
  or_none (some k) = refl

  add_routes-exact_match :
      (routes : List Route) (resolver last : ExactCertResolver files) (host : Text)
      → add_routes files routes resolver ≡ ok last
      → last.exact_match host ≡ elim (certificate_for host routes) [
        | some key ↦ some key
        | none ↦ resolver.exact_match host
      ]
  unfolding add_routes insert
  add_routes-exact_match [] resolver last host h = ground arith
  add_routes-exact_match (r ∷ rs) resolver last host h =
      let ((hostname, key), e, h1) = >>=!-eq-ok (certify files r) _ h in
      let later = add_routes-exact_match rs (add files hostname key resolver) last host h1 in
      elim (Option-cases (certificate_for host rs)) [
        | inr (found, other) ↦ later ∙ rw other
        | inl nothing ↦
            later ∙ rw (nothing, e) (choose (text_eq hostname host) key (resolver.exact_match host))
      ]

  -- Building succeeds without an acceptor exactly if no route is an https route.
  pub build_tls_acceptor-none :
      (routes : List Route)
      → (build_tls_acceptor files routes ≡ ok none) ↔ (any (is_https files) routes ≡ false)
  unfolding build_tls_acceptor
  build_tls_acceptor-none routes = ground (arith, any-retain (is_https files) routes)

  -- If an acceptor is built, then a client that names a host is served the certificate of the last
  -- https route whose endpoint has exactly that host name, and none if there is no such route; the
  -- names are compared as texts, so a star in an endpoint stands only for itself.
  pub build_tls_acceptor-resolve :
      (routes : List Route) (resolver : ExactCertResolver files) (host : Text)
      → build_tls_acceptor files routes ≡ ok (some resolver)
      → resolve files (some host) resolver ≡ certificate_for host (retain (is_https files) routes)
  unfolding build_tls_acceptor resolve
  build_tls_acceptor-resolve routes resolver host h =
      elim (if-cases (is_empty (retain (is_https files) routes)) _ _ h) [
        | inl (_, e) ↦ absurd (ground arith)
        | inr (_, h1) ↦
            let (last, e, h2) =
              >>=!-eq-ok (add_routes files (retain (is_https files) routes) (new files)) _ h1 in
            let same : last ≡ resolver = ground arith in
            ap (λ r. r.exact_match host) (sym same)
            ∙ add_routes-exact_match (retain (is_https files) routes) (new files) last host e
            ∙ or_none (certificate_for host (retain (is_https files) routes))
      ]
