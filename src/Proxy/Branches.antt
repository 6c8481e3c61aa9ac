-- ===== src/Proxy/Branches.antt =====
-- src/proxy.rs: the branches of the handler that end with a request to the upstream.
use barebones_reverse_proxy.Prelude.{
  ℕ, ◌≡◌, ◌⊎◌, inl, inr, refl, ap, false, Option, none, some, if-cases, Result, ok, err, Text,
  arith, Bool-cases,
}
use barebones_reverse_proxy.Http.{HeaderMaps, Request}
use barebones_reverse_proxy.Lru.{LruCache}
use barebones_reverse_proxy.Cache.{CachedAsset, LruCacheEngine}
use barebones_reverse_proxy.Router.{MatchedRoute}
use barebones_reverse_proxy.Tls.{CertificateFiles}
use barebones_reverse_proxy.Auth.{AuthResult, AuthError, success, denied, authenticate}
use barebones_reverse_proxy.Proxy.{BoxBody, Answer, BoxError, max_body_size}
use barebones_reverse_proxy.Proxy.Forwarding.{build_forwarded}
use barebones_reverse_proxy.Proxy.Answering.{Asked, Flow, reached, returned, answer_of_client}
use barebones_reverse_proxy.Proxy.Screening.{Outside, login_result, login}
use barebones_reverse_proxy.Proxy.Handling.{
  Shared, Handled, look_up, finish, after_build, proxied, missed, after_look_up, asked,
}

module _ (http : HeaderMaps) (Incoming : Type 0) where
  -- The route needs no login, or the service let the request pass with these headers.
  abbrev pub LoggedIn :
      Outside http Incoming
      → Option Text
      → Text
      → Request http Incoming
      → MatchedRoute
      → http.HeaderMap
      → Type 0
  LoggedIn outside auth_provider client_ip req matched auth_headers =
      ((matched.auth_required ≡ false) × (auth_headers ≡ http.new))
      ⊎ ((auth_url : Text) × (auth_provider ≡ some auth_url)
          × (authenticate http Incoming outside.parse_uri outside.service auth_url client_ip
                req.method req.uri req.headers
              ≡ ok (success auth_headers)))

  login_result-ok :
      (failure : Answer http Incoming) (r : Result (AuthResult http Incoming) AuthError)
      (auth_headers : http.HeaderMap)
      → login_result http Incoming failure r ≡ ok auth_headers
      → r ≡ ok (success auth_headers)
  login_result-ok failure (ok (success headers)) auth_headers h = ground arith
  login_result-ok failure (ok (denied response)) auth_headers h = absurd (ground arith)
  login_result-ok failure (err e) auth_headers h = absurd (ground arith)

  pub login-LoggedIn :
      (outside : Outside http Incoming) (auth_provider : Option Text) (client_ip host : Text)
      (req : Request http Incoming) (matched : MatchedRoute) (auth_headers : http.HeaderMap)
      → login http Incoming outside auth_provider client_ip host req matched ≡ ok auth_headers
      → LoggedIn outside auth_provider client_ip req matched auth_headers
  unfolding login
  login-LoggedIn outside none client_ip host req matched auth_headers h =
      elim (Bool-cases matched.auth_required) [
        | inl b ↦ absurd (ground arith)
        | inr b ↦ inl (b, ground arith)
      ]
  login-LoggedIn outside (some url) client_ip host req matched auth_headers h =
      elim (if-cases matched.auth_required _ _ h) [
        | inl (b, e) ↦ inr (url, refl, login_result-ok _ _ auth_headers e)
        | inr (b, e) ↦ inl (b, ground arith)
      ]

  module _ (lru : LruCache (CachedAsset http.HeaderMap)) (files : CertificateFiles) where
    -- A look-up changes nothing of the configuration but the cache.
    pub look_up-keeps :
        (engine : Option (LruCacheEngine lru)) (key : Text) (now : ℕ)
        (shared : Shared http Incoming lru files)
        → ((look_up http Incoming lru files engine key now shared).1.active_config.security
            ≡ shared.active_config.security)
          × ((look_up http Incoming lru files engine key now shared).1.active_config.auth_provider
              ≡ shared.active_config.auth_provider)
    unfolding look_up
    look_up-keeps none key now shared = (refl, refl)
    look_up-keeps (some engine) key now shared = (refl, refl)

    finish-sent :
        (forwarded sent : Request http (BoxBody Incoming)) (flow : Flow http Incoming)
        (shared : Shared http Incoming lru files)
        → (finish http Incoming lru files forwarded flow shared).sent ≡ some sent
        → forwarded ≡ sent
    unfolding finish
    finish-sent forwarded sent (reached answer task) shared h = ground arith
    finish-sent forwarded sent (returned answer task) shared h = ground arith

    after_build-sent :
        (outside : Outside http Incoming) (asked : Asked http)
        (shared : Shared http Incoming lru files)
        (r : Result (Request http (BoxBody Incoming)) BoxError)
        (sent : Request http (BoxBody Incoming))
        → (after_build http Incoming lru files outside asked shared r).sent ≡ some sent
        → r ≡ ok sent
    after_build-sent outside asked shared (ok forwarded) sent h =
        ap ok (finish-sent forwarded sent _ shared h)
    after_build-sent outside asked shared (err e) sent h = absurd (ground arith)

    module _ (outside : Outside http Incoming) (client_ip host : Text) (req : Request http Incoming)
        (sent : Request http (BoxBody Incoming)) where
      proxied-sent :
          (engine : Option (LruCacheEngine lru)) (matched : MatchedRoute)
          (shared : Shared http Incoming lru files)
          (r : Result http.HeaderMap (Answer http Incoming))
          → (proxied http Incoming lru files outside client_ip host engine req matched shared
              r).sent
            ≡ some sent
          → (auth_headers : http.HeaderMap) × (r ≡ ok auth_headers)
            × (build_forwarded http outside.parse_uri matched client_ip
                  (max_body_size shared.active_config.security)
                  auth_headers
                  req
                ≡ ok sent)
      unfolding proxied
      proxied-sent engine matched shared (err answer) h = absurd (ground arith)
      proxied-sent engine matched shared (ok auth_headers) h =
          (auth_headers, refl, after_build-sent outside _ shared _ sent h)

      pub missed-sent :
          (engine : Option (LruCacheEngine lru)) (route : Option MatchedRoute)
          (shared : Shared http Incoming lru files)
          → (missed http Incoming lru files outside client_ip host engine req route shared).sent
            ≡ some sent
          → (matched : MatchedRoute) × (auth_headers : http.HeaderMap) × (route ≡ some matched)
            × (login http Incoming outside shared.active_config.auth_provider client_ip host req
                  matched
                ≡ ok auth_headers)
            × (build_forwarded http outside.parse_uri matched client_ip
                  (max_body_size shared.active_config.security)
                  auth_headers
                  req
                ≡ ok sent)
      unfolding missed
      missed-sent engine none shared h = absurd (ground arith)
      missed-sent engine (some matched) shared h =
          let (auth_headers, l, b) = proxied-sent engine matched shared _ h in
          (matched, auth_headers, refl, l, b)

      -- With a route, a login and a request that is built, the upstream's answer ends the request.
      pub missed-finish :
          (engine : Option (LruCacheEngine lru)) (route : Option MatchedRoute)
          (shared : Shared http Incoming lru files) (matched : MatchedRoute)
          (auth_headers : http.HeaderMap)
          → route ≡ some matched
          → login http Incoming outside shared.active_config.auth_provider client_ip host req
              matched
            ≡ ok auth_headers
          → build_forwarded http outside.parse_uri matched client_ip
              (max_body_size shared.active_config.security)
              auth_headers
              req
            ≡ ok sent
          → missed http Incoming lru files outside client_ip host engine req route shared
            ≡ finish http Incoming lru files sent
                (answer_of_client http Incoming outside.canonical_reason outside.collect
                  (asked http Incoming lru files client_ip host engine req matched
                    shared.active_config)
                  (outside.upstream sent))
                shared
      unfolding missed proxied
      missed-finish engine none shared matched auth_headers routed l b = absurd (ground arith)
      missed-finish engine (some m) shared matched auth_headers routed l b =
          let e : m ≡ matched = ground arith in
          rw (e, l)
            (ap
              (after_build http Incoming lru files outside
                (asked http Incoming lru files client_ip host engine req matched
                  shared.active_config)
                shared)
              b)

      pub after_look_up-sent :
          (go_on : Shared http Incoming lru files → Handled http Incoming lru files)
          (r : Option (CachedAsset http.HeaderMap) × Shared http Incoming lru files)
          → (after_look_up http Incoming lru files go_on r).sent ≡ some sent
          → (after_look_up http Incoming lru files go_on r ≡ go_on r.1)
            × ((go_on r.1).sent ≡ some sent)
      after_look_up-sent go_on (none, shared) h = (refl, h)
      after_look_up-sent go_on (some cached, shared) h = absurd (ground arith)
