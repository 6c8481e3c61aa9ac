-- ===== src/Proxy/Runs.antt =====
-- src/proxy.rs: any interleaving of requests and spawned tasks, and what the cache can hold then.
use barebones_reverse_proxy.Prelude.{
  ℕ, ◌≡◌, refl, sym, ap, subst, ◌∙◌, Bool, true, false, Option, none, some, List, [], ◌∷◌, ◌++◌,
  All, inl, inr, Text, lit, arith, Option-cases,
}
use barebones_reverse_proxy.Net.{SocketAddr}
use barebones_reverse_proxy.Http.{HeaderMaps, Request, header_text}
use barebones_reverse_proxy.Lru.{LruCache}
use barebones_reverse_proxy.Cache.{CachedAsset, LruCacheEngine, get, insert}
use barebones_reverse_proxy.Cache.StaticAssets.{is_static_asset}
use barebones_reverse_proxy.Cache.Contents.{All-get, All-insert, get-Holds}
use barebones_reverse_proxy.Security.{SecurityManager}
use barebones_reverse_proxy.Tls.{CertificateFiles}
use barebones_reverse_proxy.Proxy.{host_of}
use barebones_reverse_proxy.Proxy.Answering.{Task, tunnel, insertion, is_no_store}
use barebones_reverse_proxy.Proxy.Screening.{Clock, Outside}
use barebones_reverse_proxy.Proxy.Handling.{
  cache_key, path_and_query_of, Shared, Handled, handle_request, run_task,
}
use barebones_reverse_proxy.Proxy.Stored.{handle_request-Storable}
use barebones_reverse_proxy.Proxy.Kept.{Kept, Leaves, handle_request-Leaves}

module _ (http : HeaderMaps) where
  -- What may be served again: an answer with status 200 for a static path, under the key of that
  -- path, that does not forbid it.
  pub record Servable (key : Text) (status : ℕ) (headers : http.HeaderMap) : Type 0 where
    pub host : Text
    pub path : Text
    pub keyed : key ≡ cache_key host path
    pub is_ok : status ≡ 200
    pub static : is_static_asset path (header_text http (lit "content-type") headers) ≡ true
    pub may_store : is_no_store http headers ≡ false

  abbrev pub EntryServable : Text × CachedAsset http.HeaderMap → Type 0
  EntryServable (key, asset) = Servable key asset.status asset.headers

  abbrev pub TaskServable : Task http → Type 0
  TaskServable (tunnel upstream_addr) = Unit
  TaskServable (insertion key status headers bytes) = Servable key status headers

module _ (http : HeaderMaps) (Incoming : Type 0) (lru : LruCache (CachedAsset http.HeaderMap))
    (files : CertificateFiles) where
  -- The shared state, and the tasks that are spawned and have not run yet.
  pub record Running : Type 0 where
    pub shared : Shared http Incoming lru files
    pub pending : List (Task http)

  abbrev pub with_spawned : Option (Task http) → List (Task http) → List (Task http)
  with_spawned none pending = pending
  with_spawned (some task) pending = task ∷ pending

  -- One request that returns, or one pending task, which may be any of them.
  pub data Step : Running → Running → Type 0 where
    serves :
        (r : Running) (outside : Outside http Incoming) (clock : Clock) (peer_addr : SocketAddr)
        (is_proxy_protocol : Bool) (req : Request http Incoming)
        (handled : Handled http Incoming lru files)
        → handle_request http Incoming lru files outside clock peer_addr is_proxy_protocol req
            r.shared
          ≡ some handled
        → Step r
            (record { shared = handled.shared; pending = with_spawned handled.spawned r.pending })
    runs :
        (r : Running) (before after : List (Task http)) (task : Task http) (now : ℕ)
        → r.pending ≡ before ++ (task ∷ after)
        → Step r (record {
          shared = run_task http Incoming lru files task now r.shared;
          pending = before ++ after;
        })

  pub data Reaches (start : Running) : Running → Type 0 where
    starts : Reaches start start
    steps : {r r' : Running} → Reaches start r → Step r r' → Reaches start r'

  abbrev pub CacheServable : Option (LruCacheEngine lru) → Type 0
  CacheServable none = Unit
  CacheServable (some engine) = All (EntryServable http) (lru.entries engine.inner)

  pub record IsServable (r : Running) : Type 0 where
    pub cached : CacheServable r.shared.active_config.cache_engine
    pub to_come : All (TaskServable http) r.pending

  Kept-CacheServable :
      (before after : Shared http Incoming lru files)
      → Kept http Incoming lru files before after
      → CacheServable before.active_config.cache_engine
      → CacheServable after.active_config.cache_engine
  Kept-CacheServable before after k c = elim k.cache [
    | inl same ↦ subst CacheServable (sym same) c
    | inr (engine, key, now, e, e') ↦
        subst CacheServable (sym e')
          (All-get lru (EntryServable http) engine key now (subst CacheServable e c))
  ]

  run_task-CacheServable :
      (task : Task http) (now : ℕ) (shared : Shared http Incoming lru files)
      → TaskServable http task
      → CacheServable shared.active_config.cache_engine
      → CacheServable (run_task http Incoming lru files task now shared).active_config.cache_engine
  unfolding run_task
  run_task-CacheServable (tunnel upstream_addr) now shared t c = c
  run_task-CacheServable (insertion key status headers bytes) now shared t c =
      elim (Option-cases shared.active_config.cache_engine) [
        | inl e ↦ rw (e, run_task) c
        | inr (engine, e) ↦
            let engine' = (insert lru engine key status headers bytes none now).1 in
            let same : (run_task http Incoming lru files (insertion key status headers bytes) now
                  shared).active_config.cache_engine
                ≡ some engine' =
              rw (run_task, e) in
            subst CacheServable (sym same) (
              All-insert lru (EntryServable http) engine key status headers bytes none now t
                (subst CacheServable e c))
      ]

  All-middle :
      (before after : List (Task http)) (task : Task http)
      → All (TaskServable http) (before ++ (task ∷ after))
      → TaskServable http task × All (TaskServable http) (before ++ after)
  All-middle [] after task (here, later) = (here, later)
  All-middle (t ∷ before) after task (here, later) =
      let (this, others) = All-middle before after task later in (this, (here, others))

  -- A request spawns only what may be served.
  spawned-Servable :
      (outside : Outside http Incoming) (clock : Clock) (peer_addr : SocketAddr)
      (is_proxy_protocol : Bool) (req : Request http Incoming)
      (shared : Shared http Incoming lru files) (handled : Handled http Incoming lru files)
      → handle_request http Incoming lru files outside clock peer_addr is_proxy_protocol req shared
        ≡ some handled
      → (manager : SecurityManager)
      → Leaves http Incoming lru files (record shared { security_manager = manager }) handled
      → (task : Task http) → handled.spawned ≡ some task
      → TaskServable http task
  spawned-Servable outside clock peer_addr flag req shared handled h manager l (tunnel addr) t = tt
  spawned-Servable outside clock peer_addr flag req shared handled h manager l
        (insertion key status headers bytes) t =
      elim l.linked [
        | inl nothing ↦ absurd (ground arith)
        | inr (sent, k) ↦
            let (
              resp, replied, keyed, is_ok, same_status, same_headers, whole, static, may_store,
              allowed, there,
            ) =
              handle_request-Storable http Incoming lru files outside clock peer_addr flag req
                shared handled sent key status headers bytes h k t in
            record {
              host = host_of http req.uri req.headers;
              path = path_and_query_of req.uri;
              keyed = keyed;
              is_ok = is_ok;
              static =
                  ap
                    (λ m.
                      is_static_asset (path_and_query_of req.uri)
                        (header_text http (lit "content-type") m))
                    same_headers
                  ∙ static;
              may_store = ap (is_no_store http) same_headers ∙ may_store;
            }
      ]

  with_spawned-All :
      (task : Option (Task http)) (pending : List (Task http))
      → ((t : Task http) → task ≡ some t → TaskServable http t)
      → All (TaskServable http) pending
      → All (TaskServable http) (with_spawned task pending)
  with_spawned-All none pending new a = a
  with_spawned-All (some t) pending new a = (new t refl, a)

  Step-IsServable : {r r' : Running} → Step r r' → IsServable r → IsServable r'
  Step-IsServable (serves r outside clock peer_addr flag req handled h) g =
      let (manager, l) =
        handle_request-Leaves http Incoming lru files outside clock peer_addr flag req r.shared
          handled h in
      record {
        cached = Kept-CacheServable _ handled.shared l.kept g.cached;
        to_come =
            with_spawned-All handled.spawned r.pending
              (spawned-Servable outside clock peer_addr flag req r.shared handled h manager l)
              g.to_come;
      }
  Step-IsServable (runs r before after task now e) g =
      let (this, others) =
        All-middle before after task (subst (All (TaskServable http)) e g.to_come) in
      record { cached = run_task-CacheServable task now r.shared this g.cached; to_come = others }

  Reaches-IsServable : {start r : Running} → Reaches start r → IsServable start → IsServable r
  Reaches-IsServable starts g = g
  Reaches-IsServable (steps before step) g = Step-IsServable step (Reaches-IsServable before g)

  -- After any interleaving of requests and spawned tasks, from a state with no pending task and a
  -- cache whose entries are all servable, whatever the cache gives for a key has status 200, stands
  -- under the key of a static path, and its headers do not forbid to store it.
  pub Reaches-Servable :
      (start r : Running) (engine : LruCacheEngine lru) (key : Text) (now : ℕ)
      (asset : CachedAsset http.HeaderMap)
      → start.pending ≡ []
      → CacheServable start.shared.active_config.cache_engine
      → Reaches start r
      → r.shared.active_config.cache_engine ≡ some engine
      → (get lru engine key now).0 ≡ some asset
      → Servable http key asset.status asset.headers
  Reaches-Servable start r engine key now asset idle c reached there found =
      let g =
        Reaches-IsServable reached
          (record { cached = c; to_come = subst (All (TaskServable http)) (sym idle) tt }) in
      get-Holds lru (EntryServable http) engine key now asset (subst CacheServable there g.cached)
        found
