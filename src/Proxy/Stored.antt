-- ===== src/Proxy/Stored.antt =====
-- src/proxy.rs: which answers are put into the cache, and under which key.
use barebones_reverse_proxy.Prelude.{
  ℕ, ◌≡◌, refl, sym, ap, ◌∙◌, Bool, true, false, not, ◌&&◌, Option, none, some, List, ◌>>=?◌,
  is_some, Result, ok, err, Text, lit, arith, Bool-cases, Option-cases, &&-true, ==_iff, ◌==◌, inl,
  inr,
}
use barebones_reverse_proxy.Net.{SocketAddr}
use barebones_reverse_proxy.Http.{HeaderMaps, Response, Request, header_text}
use barebones_reverse_proxy.Lru.{LruCache}
use barebones_reverse_proxy.Cache.{CachedAsset}
use barebones_reverse_proxy.Cache.StaticAssets.{is_static_asset}
use barebones_reverse_proxy.Router.{MatchedRoute, should_intercept_errors}
use barebones_reverse_proxy.Runtime.{ActiveConfig}
use barebones_reverse_proxy.Tls.{CertificateFiles}
use barebones_reverse_proxy.Proxy.{BoxBody, host_of, is_error}
use barebones_reverse_proxy.Proxy.Answering.{
  Task, insertion, Asked, Flow, reached, returned, is_no_store, exceeds_max_file_size, is_stored,
  store_answer, answer_of_upstream, answer_of_client,
}
use barebones_reverse_proxy.Proxy.Screening.{Clock, Outside}
use barebones_reverse_proxy.Proxy.Handling.{
  is_cacheable_method, route_cache_enabled, cache_key, path_and_query_of, cache_engine_for, Shared,
  Handled, finish, handle_request,
}
use barebones_reverse_proxy.Proxy.Sent.{handle_request-Forwards}

not-true : (b : Bool) → not b ≡ true → b ≡ false
not-true true h = absurd (ground arith)
not-true false h = refl

is_some-bind :
    {A : Type 0} {B : Type 0} (o : Option A) (f : A → B)
    → is_some (o >>=? λ a. some (f a)) ≡ true
    → is_some o ≡ true
is_some-bind none f h = h
is_some-bind (some a) f h = refl

module _ (http : HeaderMaps) (Incoming : Type 0) (reasons : ℕ → Option Text)
    (collect : Incoming → Option (List ℕ)) where
  abbrev pub task_of : Flow http Incoming → Option (Task http)
  task_of (reached answer task) = task
  task_of (returned answer task) = task

  -- What stands behind an entry that an answer puts into the cache.
  pub record Storable (query : Asked http) (reply : Result (Response http Incoming) Text)
      (key : Text) (status : ℕ) (headers : http.HeaderMap) (bytes : List ℕ) : Type 0 where
    pub resp : Response http Incoming
    pub replied : reply ≡ ok resp
    pub same_key : key ≡ query.cache_key
    pub is_ok : status ≡ 200
    pub same_status : status ≡ resp.status
    pub same_headers : headers ≡ resp.headers
    pub whole : collect resp.body ≡ some bytes
    pub static :
        is_static_asset query.path_and_query (header_text http (lit "content-type") resp.headers)
        ≡ true
    pub may_store : is_no_store http resp.headers ≡ false
    pub small : exceeds_max_file_size http query.max_file_size resp.headers ≡ false
    pub cached : is_some query.max_file_size ≡ true

  is_stored-parts :
      (query : Asked http) (status : ℕ) (headers : http.HeaderMap)
      → is_stored http query status headers ≡ true
      → (is_static_asset query.path_and_query (header_text http (lit "content-type") headers)
          ≡ true)
        × (is_no_store http headers ≡ false)
        × (exceeds_max_file_size http query.max_file_size headers ≡ false)
        × (status ≡ 200)
        × (is_some query.max_file_size ≡ true)
  unfolding is_stored
  is_stored-parts query status headers s =
      let no_store = is_no_store http headers in
      let large = exceeds_max_file_size http query.max_file_size headers in
      let static =
        is_static_asset query.path_and_query (header_text http (lit "content-type") headers) in
      let is_ok = status == 200 in
      let (s3, e5) =
        &&-true (static && not no_store && not large && is_ok) (is_some query.max_file_size) s in
      let (s2, e4) = &&-true (static && not no_store && not large) is_ok s3 in
      let (s1, e3) = &&-true (static && not no_store) (not large) s2 in
      let (e1, e2) = &&-true static (not no_store) s1 in
      (e1, not-true no_store e2, not-true large e3, (==_iff status 200).0 e4, e5)

  store_answer-task :
      (key k : Text) (resp : Response http Incoming) (status : ℕ) (headers : http.HeaderMap)
      (bytes : List ℕ)
      → task_of (store_answer http Incoming collect key resp)
        ≡ some (insertion k status headers bytes)
      → (k ≡ key)
        × (status ≡ resp.status)
        × (headers ≡ resp.headers)
        × (collect resp.body ≡ some bytes)
  unfolding store_answer
  store_answer-task key k resp status headers bytes h = elim (Option-cases (collect resp.body)) [
    | inl e ↦ absurd (ground arith)
    | inr (b, e) ↦ (ground arith, ground arith, ground arith, e ∙ ground arith)
  ]

  answer_of_client-Storable :
      (query : Asked http) (reply : Result (Response http Incoming) Text) (key : Text) (status : ℕ)
      (headers : http.HeaderMap) (bytes : List ℕ)
      → task_of (answer_of_client http Incoming reasons collect query reply)
        ≡ some (insertion key status headers bytes)
      → Storable query reply key status headers bytes
  unfolding answer_of_client answer_of_upstream is_stored
  answer_of_client-Storable query (err e) key status headers bytes h = absurd (ground arith)
  answer_of_client-Storable query (ok resp) key status headers bytes h =
      let tunnelled = resp.status == 101 && query.upgrade_requested in
      let intercepted =
        should_intercept_errors query.matched query.global_intercept_errors
        && is_error resp.status in
      elim (Bool-cases tunnelled) [
        | inl t ↦ absurd (ground arith)
        | inr t ↦ elim (Bool-cases intercepted) [
          | inl i ↦ absurd (ground arith)
          | inr i ↦ elim (Bool-cases (is_stored http query resp.status resp.headers)) [
            | inl s ↦
                let stored = store_answer http Incoming collect query.cache_key resp in
                let e : task_of (answer_of_client http Incoming reasons collect query (ok resp))
                    ≡ task_of stored =
                  rw (t, i, s) in
                let (same_key, same_status, same_headers, whole) =
                  store_answer-task query.cache_key key resp status headers bytes (sym e ∙ h) in
                let (static, may_store, small, is_ok, cached) =
                  is_stored-parts query resp.status resp.headers s in
                record {
                  resp = resp;
                  replied = refl;
                  same_key = same_key;
                  is_ok = same_status ∙ is_ok;
                  same_status = same_status;
                  same_headers = same_headers;
                  whole = whole;
                  static = static;
                  may_store = may_store;
                  small = small;
                  cached = cached;
                }
            | inr s ↦ absurd (ground arith)
          ]
        ]
      ]

  module _ (lru : LruCache (CachedAsset http.HeaderMap)) (files : CertificateFiles) where
    finish-spawned :
        (sent : Request http (BoxBody Incoming)) (flow : Flow http Incoming)
        (shared : Shared http Incoming lru files)
        → (finish http Incoming lru files sent flow shared).spawned ≡ task_of flow
    unfolding finish
    finish-spawned sent (reached answer task) shared = refl
    finish-spawned sent (returned answer task) shared = refl

    -- An engine is there for a request only if the route, the method and the configuration allow it.
    cache_engine_for-some :
        (method : Text) (route : Option MatchedRoute) (active : ActiveConfig lru files)
        → is_some (
            cache_engine_for http Incoming lru files method route active >>=? λ e.
            some e.max_file_size_bytes)
          ≡ true
        → (route_cache_enabled route ≡ true)
          × (is_cacheable_method method ≡ true)
          × (is_some active.cache_engine ≡ true)
    unfolding cache_engine_for
    cache_engine_for-some method route active h =
        elim (Bool-cases (route_cache_enabled route && is_cacheable_method method)) [
          | inl b ↦
              let (enabled, allowed) = &&-true _ _ b in
              let e : is_some (
                    cache_engine_for http Incoming lru files method route active >>=? λ e.
                    some e.max_file_size_bytes)
                  ≡ is_some (active.cache_engine >>=? λ e. some e.max_file_size_bytes) =
                rw b in
              (enabled, allowed, is_some-bind active.cache_engine _ (sym e ∙ h))
          | inr b ↦ absurd (ground arith)
        ]

-- If a request that was sent to the upstream spawns an insertion into the cache, then the upstream
-- answered with status 200, with the inserted headers and a body that was collected whole into the
-- inserted bytes, for a static path, without no-store or private; the key is host and path, the
-- method is GET or HEAD, and the configuration has a cache.
pub handle_request-Storable :
    (http : HeaderMaps) (Incoming : Type 0) (lru : LruCache (CachedAsset http.HeaderMap))
    (files : CertificateFiles) (outside : Outside http Incoming) (clock : Clock)
    (peer_addr : SocketAddr) (is_proxy_protocol : Bool) (req : Request http Incoming)
    (shared : Shared http Incoming lru files) (handled : Handled http Incoming lru files)
    (sent : Request http (BoxBody Incoming)) (key : Text) (status : ℕ) (headers : http.HeaderMap)
    (bytes : List ℕ)
    → handle_request http Incoming lru files outside clock peer_addr is_proxy_protocol req shared
      ≡ some handled
    → handled.sent ≡ some sent
    → handled.spawned ≡ some (insertion key status headers bytes)
    → (resp : Response http Incoming) × (outside.upstream sent ≡ ok resp)
      × (key ≡ cache_key (host_of http req.uri req.headers) (path_and_query_of req.uri))
      × (status ≡ 200)
      × (status ≡ resp.status)
      × (headers ≡ resp.headers)
      × (outside.collect resp.body ≡ some bytes)
      × (is_static_asset
            (path_and_query_of req.uri)
            (header_text http (lit "content-type") resp.headers)
          ≡ true)
      × (is_no_store http resp.headers ≡ false)
      × (is_cacheable_method req.method ≡ true)
      × (is_some shared.active_config.cache_engine ≡ true)
handle_request-Storable http Incoming lru files outside clock peer_addr is_proxy_protocol req shared
      handled sent key status headers bytes h k t =
    let f =
      handle_request-Forwards http Incoming lru files outside clock peer_addr is_proxy_protocol req
        shared handled sent h k in
    let task =
      sym (
        ap (λ x. x.spawned) f.ends
        ∙ finish-spawned http Incoming outside.canonical_reason outside.collect lru files sent _
            f.left)
      ∙ t in
    let s =
      answer_of_client-Storable http Incoming outside.canonical_reason outside.collect _
        (outside.upstream sent) key status headers bytes task in
    let (enabled, allowed, there) =
      cache_engine_for-some http Incoming outside.canonical_reason outside.collect lru files
        req.method _ shared.active_config s.cached in
    (
      s.resp, s.replied, s.same_key, s.is_ok, s.same_status, s.same_headers, s.whole, s.static,
      s.may_store, allowed, there,
    )
