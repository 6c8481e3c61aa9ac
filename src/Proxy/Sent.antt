-- ===== src/Proxy/Sent.antt =====
-- src/proxy.rs: what stands behind a request that goes to the upstream.
use barebones_reverse_proxy.Prelude.{
  ℕ, ◌≡◌, inl, inr, refl, sym, ap, subst, ◌∙◌, Bool, false, Option, none, some, ◌>>=?◌, if-split,
  ok, Text, arith,
}
use barebones_reverse_proxy.Net.{IpAddr, SocketAddr, parse_ip}
use barebones_reverse_proxy.Security.{
  SecurityManagerInner, SecurityManager, unlocked, check_and_record_request,
}
use barebones_reverse_proxy.Security.Checks.{is_banned}
use barebones_reverse_proxy.Http.{HeaderMaps, Request}
use barebones_reverse_proxy.Lru.{LruCache}
use barebones_reverse_proxy.Cache.{CachedAsset}
use barebones_reverse_proxy.Router.{MatchedRoute, match_route}
use barebones_reverse_proxy.Tls.{CertificateFiles}
use barebones_reverse_proxy.Runtime.{ActiveConfig}
use barebones_reverse_proxy.Proxy.{BoxBody, Answer, max_body_size, host_of, content_length, exceeds}
use barebones_reverse_proxy.Proxy.Forwarding.{build_forwarded}
use barebones_reverse_proxy.Proxy.Answering.{answer_of_client}
use barebones_reverse_proxy.Proxy.Screening.{Clock, Outside, screen, login}
use barebones_reverse_proxy.Proxy.Handling.{
  Shared, Handled, path_and_query_of, cache_key, cache_engine_for, look_up, finish, missed,
  after_look_up, admitted, after_screen, client_ip_for, handle_request, asked, decided, too_large,
}
use barebones_reverse_proxy.Proxy.Screened.{unlisted, screen-none}
use barebones_reverse_proxy.Proxy.Branches.{
  LoggedIn, login-LoggedIn, look_up-keeps, missed-sent, missed-finish, after_look_up-sent,
}

module _ (http : HeaderMaps) (Incoming : Type 0) (lru : LruCache (CachedAsset http.HeaderMap))
    (files : CertificateFiles) (outside : Outside http Incoming) (clock : Clock) where
  -- What a request must have passed for `sent` to go to the upstream.
  pub record Forwards (client_ip : Text) (req : Request http Incoming)
      (active : ActiveConfig lru files) (handled : Handled http Incoming lru files)
      (sent : Request http (BoxBody Incoming)) : Type 0 where
    pub matched : MatchedRoute
    pub auth_headers : http.HeaderMap
    pub within_size :
        exceeds (content_length http req.headers) (max_body_size active.security) ≡ false
    pub routed :
        match_route active.router (host_of http req.uri req.headers) req.uri.path ≡ some matched
    pub logged_in :
        LoggedIn http Incoming outside active.auth_provider client_ip req matched auth_headers
    pub built :
        build_forwarded http outside.parse_uri matched client_ip
          (max_body_size active.security)
          auth_headers
          req
        ≡ ok sent
    pub left : Shared http Incoming lru files
    pub ends :
        handled
        ≡ finish http Incoming lru files sent
            (answer_of_client http Incoming outside.canonical_reason outside.collect
              (asked http Incoming lru files client_ip
                (host_of http req.uri req.headers)
                (cache_engine_for http Incoming lru files req.method
                  (match_route active.router (host_of http req.uri req.headers) req.uri.path)
                  active)
                req
                matched
                left.active_config)
              (outside.upstream sent))
            left

  admitted-Forwards :
      (client_ip : Text) (req : Request http Incoming) (shared : Shared http Incoming lru files)
      (sent : Request http (BoxBody Incoming))
      → (admitted http Incoming lru files outside clock client_ip
          (host_of http req.uri req.headers)
          req
          shared).sent
        ≡ some sent
      → Forwards client_ip req shared.active_config
          (admitted http Incoming lru files outside clock client_ip
            (host_of http req.uri req.headers)
            req
            shared)
          sent
  unfolding admitted
  admitted-Forwards client_ip req shared sent h =
      let host = host_of http req.uri req.headers in
      let size =
        exceeds (content_length http req.headers) (max_body_size shared.active_config.security) in
      let route = match_route shared.active_config.router host req.uri.path in
      let engine = cache_engine_for http Incoming lru files req.method route shared.active_config in
      let key = cache_key host (path_and_query_of req.uri) in
      let go_on = missed http Incoming lru files outside client_ip host engine req route in
      let looked_up = look_up http Incoming lru files engine key clock.cached_at shared in
      elim (if-split (λ (handled : Handled http Incoming lru files). handled.sent ≡ some sent) size
        (decided http Incoming lru files
          (ok (too_large http Incoming lru files outside client_ip host req)) shared)
        (after_look_up http Incoming lru files go_on looked_up) h) [
          | inl (b, e) ↦ absurd (ground arith)
          | inr (b, e) ↦
              let (same_security, same_provider) =
                look_up-keeps http Incoming lru files engine key clock.cached_at shared in
              let (on, e') =
                after_look_up-sent http Incoming lru files outside client_ip host req sent go_on
                  looked_up e in
              let (matched, auth_headers, routed, l, built) =
                missed-sent http Incoming lru files outside client_ip host req sent engine route
                  looked_up.1 e' in
              record {
                matched = matched;
                auth_headers = auth_headers;
                within_size = b;
                routed = routed;
                logged_in =
                    login-LoggedIn http Incoming outside _ client_ip host req matched auth_headers (
                      ap (λ p. login http Incoming outside p client_ip host req matched)
                        (sym same_provider)
                      ∙ l);
                built =
                    ap
                      (λ s.
                        build_forwarded http outside.parse_uri matched client_ip (max_body_size s)
                          auth_headers req)
                      (sym same_security)
                    ∙ built;
                left = looked_up.1;
                ends = rw b (
                    on
                    ∙ missed-finish http Incoming lru files outside client_ip host req sent engine
                        route looked_up.1 matched auth_headers routed l built);
              }
        ]

  after_screen-sent :
      (go_on : Shared http Incoming lru files → Handled http Incoming lru files)
      (shared : Shared http Incoming lru files)
      (r : Option (Option (Answer http Incoming) × SecurityManager))
      (handled : Handled http Incoming lru files) (sent : Request http (BoxBody Incoming))
      → after_screen http Incoming lru files go_on shared r ≡ some handled
      → handled.sent ≡ some sent
      → (manager : SecurityManager) × (r ≡ some (none, manager))
        × (handled ≡ go_on (record shared { security_manager = manager }))
  after_screen-sent go_on shared none handled sent h k = absurd (ground arith)
  after_screen-sent go_on shared (some (none, m)) handled sent h k = (m, refl, ground arith)
  after_screen-sent go_on shared (some (some answer, m)) handled sent h k =
      let e : none ≡ some sent = ap (λ o. o >>=? λ x. x.sent) h ∙ k in absurd (ground arith)

  pub handle_request-Forwards :
      (peer_addr : SocketAddr) (is_proxy_protocol : Bool) (req : Request http Incoming)
      (shared : Shared http Incoming lru files) (handled : Handled http Incoming lru files)
      (sent : Request http (BoxBody Incoming))
      → handle_request http Incoming lru files outside clock peer_addr is_proxy_protocol req shared
        ≡ some handled
      → handled.sent ≡ some sent
      → Forwards
          (client_ip_for http Incoming lru files peer_addr is_proxy_protocol req)
          req
          shared.active_config
          handled
          sent
  unfolding handle_request
  handle_request-Forwards peer_addr is_proxy_protocol req shared handled sent h k =
      let client_ip = client_ip_for http Incoming lru files peer_addr is_proxy_protocol req in
      let host = host_of http req.uri req.headers in
      let (manager, r, e) =
        after_screen-sent (admitted http Incoming lru files outside clock client_ip host req) shared
          (screen http Incoming outside clock client_ip host req.headers shared.security_manager)
          handled sent h k in
      subst (λ h. Forwards client_ip req shared.active_config h sent) (sym e)
        (admitted-Forwards client_ip req (record shared { security_manager = manager }) sent
          (ap (λ x. x.sent) (sym e) ∙ k))

  -- What a request must have passed for `sent` to go to the upstream, with the screening.
  pub record Sent (ip : IpAddr) (client_ip : Text) (req : Request http Incoming)
      (s : SecurityManagerInner) (active : ActiveConfig lru files)
      (handled : Handled http Incoming lru files) (sent : Request http (BoxBody Incoming))
      : Type 0 where
    pub not_banned : is_banned ip clock.blacklist_at s ≡ false
    pub within_rate :
        (n : ℕ) × ((check_and_record_request ip clock.recorded_at (unlisted ip clock s)).0 ≡ ok n)
    pub forwards : Forwards client_ip req active handled sent

  -- If the lock is sound and the client's address parses, then a request is sent to the upstream
  -- only if the address is not banned and within the rate limit, the length that the request
  -- declares is at most the size limit, a route matches, and the route needs no login or the
  -- service granted access; what is sent is built for that route and with the headers of that
  -- login.
  pub handle_request-Sent :
      (peer_addr : SocketAddr) (is_proxy_protocol : Bool) (req : Request http Incoming)
      (s : SecurityManagerInner) (active : ActiveConfig lru files)
      (handled : Handled http Incoming lru files) (sent : Request http (BoxBody Incoming))
      (ip : IpAddr)
      → parse_ip (client_ip_for http Incoming lru files peer_addr is_proxy_protocol req) ≡ some ip
      → handle_request http Incoming lru files outside clock peer_addr is_proxy_protocol req
          (record { security_manager = unlocked s; active_config = active })
        ≡ some handled
      → handled.sent ≡ some sent
      → Sent ip
          (client_ip_for http Incoming lru files peer_addr is_proxy_protocol req)
          req
          s
          active
          handled
          sent
  unfolding handle_request
  handle_request-Sent peer_addr is_proxy_protocol req s active handled sent ip p h k =
      let client_ip = client_ip_for http Incoming lru files peer_addr is_proxy_protocol req in
      let host = host_of http req.uri req.headers in
      let shared : Shared http Incoming lru files = record {
        security_manager = unlocked s;
        active_config = active;
      } in
      let (manager, r, e) =
        after_screen-sent (admitted http Incoming lru files outside clock client_ip host req) shared
          (screen http Incoming outside clock client_ip host req.headers (unlocked s)) handled sent
          h k in
      let (free, (n, counted, same)) =
        screen-none http Incoming outside clock client_ip host req.headers ip s manager p r in
      record {
        not_banned = free;
        within_rate = (n, counted);
        forwards = handle_request-Forwards peer_addr is_proxy_protocol req shared handled sent h k;
      }
