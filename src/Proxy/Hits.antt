-- ===== src/Proxy/Hits.antt =====
-- src/proxy.rs: answers from the cache, and how an answer of the upstream becomes one.
use barebones_reverse_proxy.Prelude.{
  ℕ, ◌+◌, ◌-◌, ◌≤◌, ◌<◌, ◌≡◌, ◌∙◌, true, false, Option, none, some, ok, Text, arith,
}
use barebones_reverse_proxy.Http.{HeaderMaps, Request}
use barebones_reverse_proxy.Lru.{LruCache}
use barebones_reverse_proxy.Cache.{CachedAsset, LruCacheEngine}
use barebones_reverse_proxy.Router.{MatchedRoute, match_route}
use barebones_reverse_proxy.Tls.{CertificateFiles}
use barebones_reverse_proxy.Proxy.{max_body_size, content_length, exceeds}
use barebones_reverse_proxy.Proxy.Screening.{Clock, Outside}
use barebones_reverse_proxy.Proxy.Handling.{
  Shared, Handled, path_and_query_of, cache_key, cache_engine_for, look_up, after_look_up, admitted,
  decided,
}
use barebones_reverse_proxy.Prelude.{length, List}
use barebones_reverse_proxy.Cache.{get, insert}
use barebones_reverse_proxy.Cache.Accounting.{IsValid}
use barebones_reverse_proxy.Cache.Insert.{new_asset}
use barebones_reverse_proxy.Cache.Reads.{get-insert}
use barebones_reverse_proxy.Proxy.Answering.{insertion}
use barebones_reverse_proxy.Proxy.Handling.{
  hit_answer, run_task, route_cache_enabled, is_cacheable_method,
}

module _ (http : HeaderMaps) (Incoming : Type 0) (lru : LruCache (CachedAsset http.HeaderMap))
    (files : CertificateFiles) (clock : Clock) (client_ip host : Text) (req : Request http Incoming)
    (shared : Shared http Incoming lru files) where
  abbrev key : Text
  key = cache_key host (path_and_query_of req.uri)

  abbrev route : Option MatchedRoute
  route = match_route shared.active_config.router host req.uri.path

  after_look_up-hit :
      (go_on : Shared http Incoming lru files → Handled http Incoming lru files)
      (r : Option (CachedAsset http.HeaderMap) × Shared http Incoming lru files)
      (asset : CachedAsset http.HeaderMap)
      → r.0 ≡ some asset
      → after_look_up http Incoming lru files go_on r
        ≡ decided http Incoming lru files (ok (hit_answer http Incoming lru files asset)) r.1
  after_look_up-hit go_on (none, left) asset h = absurd (ground arith)
  after_look_up-hit go_on (some cached, left) asset h = ground arith

  look_up-some :
      (found : Option (LruCacheEngine lru)) (engine : LruCacheEngine lru) (k : Text)
      → found ≡ some engine
      → (look_up http Incoming lru files found k clock.cached_at shared).0
        ≡ (get lru engine k clock.cached_at).0
  unfolding look_up
  look_up-some found engine k e = rw e

  -- Past the screening and the size limit, an asset in the cache is the answer.
  pub admitted-hit :
      (outside : Outside http Incoming) (engine : LruCacheEngine lru)
      (asset : CachedAsset http.HeaderMap)
      → exceeds (content_length http req.headers) (max_body_size shared.active_config.security)
        ≡ false
      → route_cache_enabled route ≡ true
      → is_cacheable_method req.method ≡ true
      → shared.active_config.cache_engine ≡ some engine
      → (get lru engine key clock.cached_at).0 ≡ some asset
      → (left : Shared http Incoming lru files) × (admitted http Incoming lru files outside clock
            client_ip host req shared
          ≡ decided http Incoming lru files (ok (hit_answer http Incoming lru files asset)) left)
  unfolding admitted cache_engine_for
  admitted-hit outside engine asset small enabled allowed there found =
      let chosen = cache_engine_for http Incoming lru files req.method route shared.active_config in
      let e : chosen ≡ some engine = rw (enabled, allowed, there) in
      (
        (look_up http Incoming lru files chosen key clock.cached_at shared).1,
        rw small (
            after_look_up-hit _ (look_up http Incoming lru files chosen key clock.cached_at shared)
              asset (look_up-some chosen engine key e ∙ found)),
      )

module _ (http : HeaderMaps) (Incoming : Type 0) (lru : LruCache (CachedAsset http.HeaderMap))
    (files : CertificateFiles) where
  run_task-engine :
      (k : Text) (status : ℕ) (headers : http.HeaderMap) (bytes : List ℕ) (now : ℕ)
      (shared : Shared http Incoming lru files) (engine : LruCacheEngine lru)
      → shared.active_config.cache_engine ≡ some engine
      → (run_task http Incoming lru files
          (insertion k status headers bytes)
          now
          shared).active_config.cache_engine
        ≡ some (insert lru engine k status headers bytes none now).1
  unfolding run_task
  run_task-engine k status headers bytes now shared engine e = rw (run_task, e)

  -- The state behind the insertion of an answer under the key of a request.
  abbrev pub stored_for :
      Text
      → Request http Incoming
      → Shared http Incoming lru files
      → ℕ
      → http.HeaderMap
      → List ℕ
      → ℕ
      → Shared http Incoming lru files
  stored_for host req shared status headers bytes now =
      run_task http Incoming lru files
        (insertion (cache_key host (path_and_query_of req.uri)) status headers bytes) now shared

  -- When an answer has been put into a valid cache with sound locks and a positive number of
  -- entries, within the limits, then a GET or HEAD request for the same host and path, past the
  -- screening, within the size limit, with the cache on for its route or without a route, and
  -- within the configured default time to live, whatever the stored headers say of it, gets that
  -- status, those headers and that body from the cache, and nothing is sent.
  pub insertion-hit :
      (outside : Outside http Incoming) (clock : Clock) (client_ip host : Text)
      (req : Request http Incoming) (shared : Shared http Incoming lru files) (leaked : ℕ)
      (engine : LruCacheEngine lru) (v : IsValid lru leaked engine) (status : ℕ)
      (headers : http.HeaderMap) (bytes : List ℕ) (now : ℕ)
      → shared.active_config.cache_engine ≡ some engine
      → length bytes ≤ engine.max_file_size_bytes
      → leaked + length bytes ≤ engine.max_capacity_bytes
      → engine.inner_poisoned ≡ false
      → engine.memory_poisoned ≡ false
      → 0 < lru.cap engine.inner
      → clock.cached_at - now < engine.default_ttl
      → exceeds (content_length http req.headers) (
          max_body_size
            (stored_for host req shared status headers bytes now).active_config.security)
        ≡ false
      → route_cache_enabled (
          match_route
            (stored_for host req shared status headers bytes now).active_config.router
            host
            req.uri.path)
        ≡ true
      → is_cacheable_method req.method ≡ true
      → (left : Shared http Incoming lru files) × (admitted http Incoming lru files outside clock
            client_ip host req
            (stored_for host req shared status headers bytes now)
          ≡ decided http Incoming lru files
              (ok (
                hit_answer http Incoming lru files (
                  new_asset lru leaked engine v
                    (cache_key host (path_and_query_of req.uri))
                    status
                    headers
                    bytes
                    none
                    now)))
              left)
  insertion-hit outside clock client_ip host req shared leaked engine v status headers bytes now
        there small fits sound sound' room fresh size enabled allowed =
      let key = cache_key host (path_and_query_of req.uri) in
      admitted-hit http Incoming lru files clock client_ip host req _ outside _
        (new_asset lru leaked engine v key status headers bytes none now) size enabled allowed
        (run_task-engine key status headers bytes now shared engine there)
        (get-insert lru leaked engine v key status headers bytes none now clock.cached_at small fits
          sound sound' room fresh)
