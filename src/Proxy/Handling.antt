-- ===== src/Proxy/Handling.antt =====
-- src/proxy.rs: `handle_request`, the state it leaves, and the tasks it spawns.
use barebones_reverse_proxy.Prelude.{
  ℕ, Bool, true, ◌&&◌, ◌||◌, Option, none, some, ◌∷◌, ◌++◌, if◌then◌else◌, ◌>>=?◌, unwrap_or,
  Result, ok, err, Text, lit, text_eq,
}
use barebones_reverse_proxy.Net.{SocketAddr}
use barebones_reverse_proxy.Net.Display.{ip_to_string}
use barebones_reverse_proxy.Security.{SecurityManager}
use barebones_reverse_proxy.Http.{HeaderMaps, Uri, Request}
use barebones_reverse_proxy.Lru.{LruCache}
use barebones_reverse_proxy.Cache.{CachedAsset, LruCacheEngine, get, insert}
use barebones_reverse_proxy.Router.{MatchedRoute, match_route}
use barebones_reverse_proxy.Tls.{CertificateFiles}
use barebones_reverse_proxy.Runtime.{ActiveConfig}
use barebones_reverse_proxy.Proxy.{
  BoxBody, full, BoxError, max_body_size, client_ip_of, host_of, is_upgrade_request, content_length,
  exceeds, Answer, no_response_444, error_response, with_security_headers, with_inserted,
}
use barebones_reverse_proxy.Proxy.Forwarding.{build_forwarded}
use barebones_reverse_proxy.Proxy.Answering.{
  Task, tunnel, insertion, Asked, Flow, reached, returned, answer_of_client,
}
use barebones_reverse_proxy.Proxy.Screening.{Clock, Outside, screen, login}

-- `req.method() == Method::GET || req.method() == Method::HEAD`.
abbrev pub is_cacheable_method : Text → Bool
is_cacheable_method method = text_eq method (lit "GET") || text_eq method (lit "HEAD")

-- `route_cache_enabled`.
unfoldable pub route_cache_enabled : Option MatchedRoute → Bool
route_cache_enabled matched = unwrap_or (matched >>=? λ r. r.cache) true

unfoldable pub cache_key : Text → Text → Text
cache_key host path_and_query = host ++ (b':' ∷ path_and_query)

abbrev pub path_and_query_of : Uri → Text
path_and_query_of uri = unwrap_or uri.path_and_query (lit "/")

module _ (http : HeaderMaps) (Incoming : Type 0) where
  module _ (lru : LruCache (CachedAsset http.HeaderMap)) (files : CertificateFiles) where
    -- What the request shares with others: the manager at the configuration's address, and the
    -- configuration with the engine of its cache.
    pub record Shared : Type 0 where
      pub security_manager : SecurityManager
      pub active_config : ActiveConfig lru files

    -- The result, the state left, the request sent to the upstream and the task spawned.
    pub record Handled : Type 0 where
      pub result : Result (Answer http Incoming) BoxError
      pub shared : Shared
      pub sent : Option (Request http (BoxBody Incoming))
      pub spawned : Option (Task http)

    abbrev pub decided : Result (Answer http Incoming) BoxError → Shared → Handled
    decided result shared = record { result = result; shared = shared; sent = none; spawned = none }

    -- `cache_engine`: the engine, where the route and the method allow the cache.
    unfoldable pub cache_engine_for :
        Text → Option MatchedRoute → ActiveConfig lru files → Option (LruCacheEngine lru)
    cache_engine_for method matched active =
        if route_cache_enabled matched && is_cacheable_method method
        then active.cache_engine
        else none

    unfoldable pub look_up :
        Option (LruCacheEngine lru)
        → Text
        → ℕ
        → Shared
        → Option (CachedAsset http.HeaderMap) × Shared
    look_up none key now shared = (none, shared)
    look_up (some engine) key now shared =
        let (found, engine') = get lru engine key now in
        (
          found,
          record shared {
            active_config = record shared.active_config { cache_engine = some engine' };
          },
        )

    abbrev pub hit_answer : CachedAsset http.HeaderMap → Answer http Incoming
    hit_answer cached =
        with_inserted http Incoming (lit "x-proxy-cache") (lit "HIT")
          (record { status = cached.status; headers = cached.headers; body = full cached.body })

    -- The end of the handler, where it has not returned before.
    unfoldable pub finish : Request http (BoxBody Incoming) → Flow http Incoming → Shared → Handled
    finish sent (returned answer task) shared = record {
      result = ok answer;
      shared = shared;
      sent = some sent;
      spawned = task;
    }
    finish sent (reached answer task) shared = record {
      result = ok (with_security_headers http Incoming answer);
      shared = shared;
      sent = some sent;
      spawned = task;
    }

    -- What the handler knows of the request when it forwards it.
    abbrev pub asked :
        Text
        → Text
        → Option (LruCacheEngine lru)
        → Request http Incoming
        → MatchedRoute
        → ActiveConfig lru files
        → Asked http
    asked client_ip host engine req matched active = record {
      client_ip = client_ip;
      host = host;
      path_and_query = path_and_query_of req.uri;
      cache_key = cache_key host (path_and_query_of req.uri);
      headers = req.headers;
      upgrade_requested = is_upgrade_request http req.headers;
      matched = matched;
      global_intercept_errors = active.global_intercept_errors;
      max_file_size = engine >>=? λ e. some e.max_file_size_bytes;
    }

    abbrev pub after_build :
        Outside http Incoming
        → Asked http
        → Shared
        → Result (Request http (BoxBody Incoming)) BoxError
        → Handled
    after_build outside asked shared (err e) = decided (err e) shared
    after_build outside asked shared (ok forwarded) =
        finish forwarded
          (answer_of_client http Incoming outside.canonical_reason outside.collect asked
            (outside.upstream forwarded))
          shared

    -- Behind the cache and the authentication, for a route.
    unfoldable pub proxied :
        Outside http Incoming
        → Text
        → Text
        → Option (LruCacheEngine lru)
        → Request http Incoming
        → MatchedRoute
        → Shared
        → Result http.HeaderMap (Answer http Incoming)
        → Handled
    proxied outside client_ip host engine req matched shared (err answer) =
        decided (ok answer) shared
    proxied outside client_ip host engine req matched shared (ok auth_headers) =
        after_build outside (asked client_ip host engine req matched shared.active_config) shared (
          build_forwarded http outside.parse_uri matched client_ip
            (max_body_size shared.active_config.security) auth_headers req)

    -- Behind the cache.
    unfoldable pub missed :
        Outside http Incoming
        → Text
        → Text
        → Option (LruCacheEngine lru)
        → Request http Incoming
        → Option MatchedRoute
        → Shared
        → Handled
    missed outside client_ip host engine req none shared =
        decided (ok (with_security_headers http Incoming (no_response_444 http Incoming))) shared
    missed outside client_ip host engine req (some matched) shared =
        proxied outside client_ip host engine req matched shared (
          login http Incoming outside shared.active_config.auth_provider client_ip host req matched)

    abbrev pub after_look_up :
        (Shared → Handled) → Option (CachedAsset http.HeaderMap) × Shared → Handled
    after_look_up go_on (some cached, shared) = decided (ok (hit_answer cached)) shared
    after_look_up go_on (none, shared) = go_on shared

    abbrev pub too_large :
        Outside http Incoming → Text → Text → Request http Incoming → Answer http Incoming
    too_large outside client_ip host req =
        error_response http Incoming outside.canonical_reason 413
          (lit "The request payload body exceeds the maximum allowed size limit.") client_ip host
          req.headers

    -- Behind the blacklist and the rate limit.
    unfoldable pub admitted :
        Outside http Incoming → Clock → Text → Text → Request http Incoming → Shared → Handled
    admitted outside clock client_ip host req shared =
        let matched = match_route shared.active_config.router host req.uri.path in
        let engine = cache_engine_for req.method matched shared.active_config in
        if exceeds (content_length http req.headers) (max_body_size shared.active_config.security)
        then decided (ok (too_large outside client_ip host req)) shared
        else after_look_up (missed outside client_ip host engine req matched)
            (look_up engine (cache_key host (path_and_query_of req.uri)) clock.cached_at shared)

    abbrev pub after_screen :
        (Shared → Handled)
        → Shared
        → Option (Option (Answer http Incoming) × SecurityManager)
        → Option Handled
    after_screen go_on shared none = none
    after_screen go_on shared (some (some answer, manager)) =
        some (decided (ok answer) (record shared { security_manager = manager }))
    after_screen go_on shared (some (none, manager)) =
        some (go_on (record shared { security_manager = manager }))

    abbrev pub client_ip_for : SocketAddr → Bool → Request http Incoming → Text
    client_ip_for peer_addr is_proxy_protocol req =
        client_ip_of http is_proxy_protocol req.headers (ip_to_string peer_addr.ip)

    unfoldable pub handle_request :
        Outside http Incoming
        → Clock
        → SocketAddr
        → Bool
        → Request http Incoming
        → Shared
        → Option Handled
    handle_request outside clock peer_addr is_proxy_protocol req shared =
        let client_ip = client_ip_for peer_addr is_proxy_protocol req in
        let host = host_of http req.uri req.headers in
        after_screen (admitted outside clock client_ip host req) shared
          (screen http Incoming outside clock client_ip host req.headers shared.security_manager)

    -- A spawned task, at the instant at which it runs. The engine that the task holds is that of the
    -- configuration its request was handled with: no operation on `Shared` replaces it.
    unfoldable pub run_task : Task http → ℕ → Shared → Shared
    run_task (tunnel upstream_addr) now shared = shared
    run_task (insertion key status headers body) now shared =
        elim shared.active_config.cache_engine [
          | none ↦ shared
          | some engine ↦
              let engine' = (insert lru engine key status headers body none now).1 in
              record shared {
                active_config = record shared.active_config { cache_engine = some engine' };
              }
        ]
