-- ===== src/Proxy/Awaited.antt =====
-- src/proxy.rs: for which requests the handler's result depends on an answer that it awaits: of
-- the service for logins, of the upstream, or of the collection of a body.
use barebones_reverse_proxy.Prelude.{
  ℕ, ◌≡◌, ◌⊎◌, inl, inr, refl, ap, subst, ◌∙◌, Bool, true, false, Option, none, some, Result, ok,
  err, List, Text, Bool-cases,
}
use barebones_reverse_proxy.Net.{SocketAddr}
use barebones_reverse_proxy.Security.{SecurityManagerInner, SecurityManager, unlocked}
use barebones_reverse_proxy.Http.{HeaderMaps, Request, Response}
use barebones_reverse_proxy.Lru.{LruCache}
use barebones_reverse_proxy.Cache.{CachedAsset, LruCacheEngine}
use barebones_reverse_proxy.Router.{MatchedRoute, match_route}
use barebones_reverse_proxy.Tls.{CertificateFiles}
use barebones_reverse_proxy.Runtime.{ActiveConfig}
use barebones_reverse_proxy.Auth.{SubRequest}
use barebones_reverse_proxy.Proxy.{
  BoxBody, Answer, BoxError, max_body_size, host_of, content_length, exceeds,
}
use barebones_reverse_proxy.Proxy.Answering.{Asked, Flow, reached, returned}
use barebones_reverse_proxy.Proxy.Screening.{Clock, Outside, screen, login}
use barebones_reverse_proxy.Proxy.Handling.{
  Shared, Handled, path_and_query_of, cache_key, cache_engine_for, look_up, finish, after_build,
  proxied, missed, after_look_up, admitted, after_screen, client_ip_for, handle_request,
}
use barebones_reverse_proxy.Proxy.Screened.{screen-total}
use barebones_reverse_proxy.Proxy.Kept.{
  Leaves, some-injective, after_screen-Leaves, admitted-Leaves,
}

module _ (http : HeaderMaps) (Incoming : Type 0) (lru : LruCache (CachedAsset http.HeaderMap))
    (files : CertificateFiles) where
  -- A request was sent, or the request's route needs a login.
  abbrev pub Asks : Option MatchedRoute → Handled http Incoming lru files → Type 0
  Asks route handled =
      ((sent : Request http (BoxBody Incoming)) × (handled.sent ≡ some sent))
      ⊎ ((matched : MatchedRoute) × (route ≡ some matched) × (matched.auth_required ≡ true))

  finish-Asks :
      (route : Option MatchedRoute) (sent : Request http (BoxBody Incoming))
      (flow : Flow http Incoming) (shared : Shared http Incoming lru files)
      → Asks route (finish http Incoming lru files sent flow shared)
  unfolding finish
  finish-Asks route sent (reached answer task) shared = inl (sent, refl)
  finish-Asks route sent (returned answer task) shared = inl (sent, refl)

  -- The outside with other answers of what is awaited.
  abbrev pub answering :
      Outside http Incoming
      → (SubRequest http Incoming → Result (Response http Incoming) Text)
      → (Request http (BoxBody Incoming) → Result (Response http Incoming) Text)
      → (Incoming → Option (List ℕ))
      → Outside http Incoming
  answering outside service upstream collect = record outside {
    service = service;
    upstream = upstream;
    collect = collect;
  }

  module _ (outside : Outside http Incoming)
      (service : SubRequest http Incoming → Result (Response http Incoming) Text)
      (upstream : Request http (BoxBody Incoming) → Result (Response http Incoming) Text)
      (collect : Incoming → Option (List ℕ)) (client_ip host : Text)
      (req : Request http Incoming) where
    after_build-Asks :
        (route : Option MatchedRoute) (query : Asked http) (after : Shared http Incoming lru files)
        (r : Result (Request http (BoxBody Incoming)) BoxError)
        → Asks route (after_build http Incoming lru files outside query after r)
          ⊎ (after_build http Incoming lru files
                (answering outside service upstream collect)
                query
                after
                r
              ≡ after_build http Incoming lru files outside query after r)
    after_build-Asks route query after (err e) = inr refl
    after_build-Asks route query after (ok forwarded) = inl (finish-Asks route forwarded _ after)

    login-open :
        (any_outside : Outside http Incoming) (auth_provider : Option Text) (matched : MatchedRoute)
        → matched.auth_required ≡ false
        → login http Incoming any_outside auth_provider client_ip host req matched ≡ ok http.new
    unfolding login
    login-open any_outside auth_provider matched b = rw (login, b)

    missed-Asks :
        (engine : Option (LruCacheEngine lru)) (route : Option MatchedRoute)
        (after : Shared http Incoming lru files)
        → Asks route (missed http Incoming lru files outside client_ip host engine req route after)
          ⊎ (missed http Incoming lru files
                (answering outside service upstream collect)
                client_ip
                host
                engine
                req
                route
                after
              ≡ missed http Incoming lru files outside client_ip host engine req route after)
    unfolding missed proxied
    missed-Asks engine none after = inr refl
    missed-Asks engine (some matched) after = elim (Bool-cases matched.auth_required) [
      | inl b ↦ inl (inr (matched, refl, b))
      | inr b ↦
          rw
            (
              login-open outside after.active_config.auth_provider matched b,
              login-open (answering outside service upstream collect)
                  after.active_config.auth_provider matched b,
            )
            (after_build-Asks (some matched) _ after _)
    ]

    after_look_up-Asks :
        (route : Option MatchedRoute)
        (go_on go_on' : Shared http Incoming lru files → Handled http Incoming lru files)
        (r : Option (CachedAsset http.HeaderMap) × Shared http Incoming lru files)
        → Asks route (go_on r.1) ⊎ (go_on' r.1 ≡ go_on r.1)
        → Asks route (after_look_up http Incoming lru files go_on r)
          ⊎ (after_look_up http Incoming lru files go_on' r
              ≡ after_look_up http Incoming lru files go_on r)
    after_look_up-Asks route go_on go_on' (none, after) a = a
    after_look_up-Asks route go_on go_on' (some cached, after) a = inr refl

    admitted-Asks :
        (clock : Clock) (shared : Shared http Incoming lru files)
        → Asks
            (match_route shared.active_config.router host req.uri.path)
            (admitted http Incoming lru files outside clock client_ip host req shared)
          ⊎ (admitted http Incoming lru files
                (answering outside service upstream collect)
                clock
                client_ip
                host
                req
                shared
              ≡ admitted http Incoming lru files outside clock client_ip host req shared)
    unfolding admitted
    admitted-Asks clock shared =
        let route = match_route shared.active_config.router host req.uri.path in
        let engine =
          cache_engine_for http Incoming lru files req.method route shared.active_config in
        let key = cache_key host (path_and_query_of req.uri) in
        let found = look_up http Incoming lru files engine key clock.cached_at shared in
        let other = answering outside service upstream collect in
        elim (Bool-cases (
          exceeds (content_length http req.headers)
            (max_body_size shared.active_config.security))) [
              | inl b ↦ rw b (inr refl)
              | inr b ↦ rw b (
                  after_look_up-Asks route
                    (missed http Incoming lru files outside client_ip host engine req route)
                    (missed http Incoming lru files other client_ip host engine req route) found
                    (missed-Asks engine route found.1))
            ]

  after_screen-Asks :
      (route : Option MatchedRoute)
      (go_on go_on' : Shared http Incoming lru files → Handled http Incoming lru files)
      (shared : Shared http Incoming lru files) (early : Option (Answer http Incoming))
      (manager : SecurityManager) (handled : Handled http Incoming lru files)
      → Asks route (go_on (record shared { security_manager = manager }))
        ⊎ (go_on' (record shared { security_manager = manager })
            ≡ go_on (record shared { security_manager = manager }))
      → after_screen http Incoming lru files go_on shared (some (early, manager)) ≡ some handled
      → Asks route handled
        ⊎ (after_screen http Incoming lru files go_on' shared (some (early, manager))
            ≡ some handled)
  after_screen-Asks route go_on go_on' shared (some answer) manager handled a h = inr h
  after_screen-Asks route go_on go_on' shared none manager handled (inl a) h =
      inl (subst (Asks route) (some-injective h) a)
  after_screen-Asks route go_on go_on' shared none manager handled (inr e) h = inr (ap some e ∙ h)

  -- Given an answer to each call that is awaited, and with a sound lock, the handler does not
  -- panic, and leaves a sound lock and the same configuration, whose cache is as it was or as one
  -- look-up leaves it; a task is spawned only with a request that was sent. Unless a request was
  -- sent to the upstream or the matched route needs a login, the result is the same whatever the
  -- service for logins, the upstream and the collection of a body answer.
  pub handle_request-answers :
      (outside : Outside http Incoming)
      (service : SubRequest http Incoming → Result (Response http Incoming) Text)
      (upstream : Request http (BoxBody Incoming) → Result (Response http Incoming) Text)
      (collect : Incoming → Option (List ℕ)) (clock : Clock) (peer_addr : SocketAddr)
      (is_proxy_protocol : Bool) (req : Request http Incoming) (s : SecurityManagerInner)
      (active : ActiveConfig lru files)
      → (handled : Handled http Incoming lru files) × (s' : SecurityManagerInner) × (handle_request
            http Incoming lru files outside clock peer_addr is_proxy_protocol req
            (record { security_manager = unlocked s; active_config = active })
          ≡ some handled)
        × Leaves http Incoming lru files
            (record { security_manager = unlocked s'; active_config = active })
            handled
        × (Asks (match_route active.router (host_of http req.uri req.headers) req.uri.path) handled
            ⊎ (handle_request http Incoming lru files
                  (answering outside service upstream collect)
                  clock
                  peer_addr
                  is_proxy_protocol
                  req
                  (record { security_manager = unlocked s; active_config = active })
                ≡ some handled))
  unfolding handle_request screen
  handle_request-answers outside service upstream collect clock peer_addr is_proxy_protocol req s
        active =
      let client_ip = client_ip_for http Incoming lru files peer_addr is_proxy_protocol req in
      let host = host_of http req.uri req.headers in
      let (early, s', e) = screen-total http Incoming outside clock client_ip host req.headers s in
      let start : Shared http Incoming lru files = record {
        security_manager = unlocked s;
        active_config = active;
      } in
      let other = answering outside service upstream collect in
      let go_on = admitted http Incoming lru files outside clock client_ip host req in
      let go_on' = admitted http Incoming lru files other clock client_ip host req in
      let (handled, ends, l) =
        after_screen-Leaves http Incoming lru files go_on start early (unlocked s')
          (admitted-Leaves http Incoming lru files outside clock client_ip host req _) in
      let asks =
        after_screen-Asks (match_route active.router host req.uri.path) go_on go_on' start early
          (unlocked s') handled
          (admitted-Asks outside service upstream collect client_ip host req clock _) ends in
      let first = ap (after_screen http Incoming lru files go_on start) e ∙ ends in
      (
        handled,
        s',
        first,
        l,
        elim asks [
          | inl a ↦ inl a
          | inr same ↦ inr (ap (after_screen http Incoming lru files go_on' start) e ∙ same)
        ],
      )
