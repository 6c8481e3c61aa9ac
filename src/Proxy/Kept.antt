-- ===== src/Proxy/Kept.antt =====
-- src/proxy.rs: what the handler leaves of the state that requests share.
use barebones_reverse_proxy.Prelude.{
  ℕ, ◌≡◌, ◌⊎◌, inl, inr, refl, sym, ap, subst, ◌∙◌, Bool, Option, none, some, unwrap_or, Result, ok,
  err, Text, arith, Bool-cases,
}
use barebones_reverse_proxy.Net.{SocketAddr}
use barebones_reverse_proxy.Security.{SecurityManager}
use barebones_reverse_proxy.Http.{HeaderMaps, Request}
use barebones_reverse_proxy.Lru.{LruCache}
use barebones_reverse_proxy.Cache.{CachedAsset, LruCacheEngine}
use barebones_reverse_proxy.Router.{MatchedRoute, match_route}
use barebones_reverse_proxy.Tls.{CertificateFiles}
use barebones_reverse_proxy.Runtime.{ActiveConfig}
use barebones_reverse_proxy.Proxy.{
  BoxBody, Answer, BoxError, max_body_size, content_length, exceeds,
}
use barebones_reverse_proxy.Proxy.Answering.{Asked, Flow, reached, returned}
use barebones_reverse_proxy.Proxy.Screening.{Clock, Outside}
use barebones_reverse_proxy.Proxy.Handling.{
  Shared, Handled, path_and_query_of, cache_key, cache_engine_for, look_up, finish, after_build,
  proxied, missed, after_look_up, admitted, after_screen, handle_request, decided,
}
use barebones_reverse_proxy.Cache.{get}

pub some-injective : {A : Type 0} {a b : A} → some a ≡ some b → a ≡ b
some-injective {A} {a} h = ap (λ o. unwrap_or o a) h

module _ (http : HeaderMaps) (Incoming : Type 0) (lru : LruCache (CachedAsset http.HeaderMap))
    (files : CertificateFiles) where
  -- The same state, but for one look-up in the cache.
  pub record Kept (before after : Shared http Incoming lru files) : Type 0 where
    pub same_manager : after.security_manager ≡ before.security_manager
    pub same_config :
        after.active_config
        ≡ record before.active_config { cache_engine = after.active_config.cache_engine }
    pub cache :
        (after.active_config.cache_engine ≡ before.active_config.cache_engine)
        ⊎ ((engine : LruCacheEngine lru) × (key : Text) × (now : ℕ)
            × (before.active_config.cache_engine ≡ some engine)
            × (after.active_config.cache_engine ≡ some (get lru engine key now).1))

  unchanged : (shared : Shared http Incoming lru files) → Kept shared shared
  unchanged shared = record { same_manager = refl; same_config = refl; cache = inl refl }

  cache_engine_for-eq-some :
      (method : Text) (route : Option MatchedRoute) (active : ActiveConfig lru files)
      (engine : LruCacheEngine lru)
      → cache_engine_for http Incoming lru files method route active ≡ some engine
      → active.cache_engine ≡ some engine
  unfolding cache_engine_for
  cache_engine_for-eq-some method route active engine h = ground arith

  look_up-Kept :
      (engine : Option (LruCacheEngine lru)) (key : Text) (now : ℕ)
      (shared : Shared http Incoming lru files)
      → ((e : LruCacheEngine lru) → engine ≡ some e → shared.active_config.cache_engine ≡ some e)
      → Kept shared (look_up http Incoming lru files engine key now shared).1
  unfolding look_up
  look_up-Kept none key now shared h = unchanged shared
  look_up-Kept (some engine) key now shared h = record {
    same_manager = refl;
    same_config = refl;
    cache = inr (engine, key, now, h engine refl, refl);
  }

  -- What holds of every result of the handler: the state, and that a task comes with a request.
  pub record Leaves (shared : Shared http Incoming lru files)
      (handled : Handled http Incoming lru files) : Type 0 where
    pub kept : Kept shared handled.shared
    pub linked :
        (handled.spawned ≡ none)
        ⊎ ((sent : Request http (BoxBody Incoming)) × (handled.sent ≡ some sent))

  decided-Leaves :
      (result : Result (Answer http Incoming) BoxError)
      (shared after : Shared http Incoming lru files)
      → Kept shared after
      → Leaves shared (decided http Incoming lru files result after)
  decided-Leaves result shared after k = record { kept = k; linked = inl refl }

  finish-Leaves :
      (sent : Request http (BoxBody Incoming)) (flow : Flow http Incoming)
      (shared after : Shared http Incoming lru files)
      → Kept shared after
      → Leaves shared (finish http Incoming lru files sent flow after)
  unfolding finish
  finish-Leaves sent (reached answer task) shared after k = record {
    kept = k;
    linked = inr (sent, refl);
  }
  finish-Leaves sent (returned answer task) shared after k = record {
    kept = k;
    linked = inr (sent, refl);
  }

  module _ (outside : Outside http Incoming) (client_ip host : Text) (req : Request http Incoming)
      (shared after : Shared http Incoming lru files) (k : Kept shared after) where
    after_build-Leaves :
        (query : Asked http) (r : Result (Request http (BoxBody Incoming)) BoxError)
        → Leaves shared (after_build http Incoming lru files outside query after r)
    after_build-Leaves query (err e) = decided-Leaves _ shared after k
    after_build-Leaves query (ok forwarded) = finish-Leaves forwarded _ shared after k

    proxied-Leaves :
        (engine : Option (LruCacheEngine lru)) (matched : MatchedRoute)
        (r : Result http.HeaderMap (Answer http Incoming))
        → Leaves shared
            (proxied http Incoming lru files outside client_ip host engine req matched after r)
    unfolding proxied
    proxied-Leaves engine matched (err answer) = decided-Leaves _ shared after k
    proxied-Leaves engine matched (ok auth_headers) = after_build-Leaves _ _

    missed-Leaves :
        (engine : Option (LruCacheEngine lru)) (route : Option MatchedRoute)
        → Leaves shared
            (missed http Incoming lru files outside client_ip host engine req route after)
    unfolding missed
    missed-Leaves engine none = decided-Leaves _ shared after k
    missed-Leaves engine (some matched) = proxied-Leaves engine matched _

  after_look_up-Leaves :
      (go_on : Shared http Incoming lru files → Handled http Incoming lru files)
      (shared : Shared http Incoming lru files)
      (r : Option (CachedAsset http.HeaderMap) × Shared http Incoming lru files)
      → Kept shared r.1
      → Leaves shared (go_on r.1)
      → Leaves shared (after_look_up http Incoming lru files go_on r)
  after_look_up-Leaves go_on shared (none, after) k l = l
  after_look_up-Leaves go_on shared (some cached, after) k l = decided-Leaves _ shared after k

  pub admitted-Leaves :
      (outside : Outside http Incoming) (clock : Clock) (client_ip host : Text)
      (req : Request http Incoming) (shared : Shared http Incoming lru files)
      → Leaves shared (admitted http Incoming lru files outside clock client_ip host req shared)
  unfolding admitted
  admitted-Leaves outside clock client_ip host req shared =
      let route = match_route shared.active_config.router host req.uri.path in
      let engine = cache_engine_for http Incoming lru files req.method route shared.active_config in
      let key = cache_key host (path_and_query_of req.uri) in
      let k =
        look_up-Kept engine key clock.cached_at shared
          (cache_engine_for-eq-some req.method route shared.active_config) in
      elim (Bool-cases
        (exceeds (content_length http req.headers) (max_body_size shared.active_config.security))) [
          | inl b ↦ rw b (decided-Leaves _ shared shared (unchanged shared))
          | inr b ↦ rw b (
              after_look_up-Leaves _ shared
                (look_up http Incoming lru files engine key clock.cached_at shared) k
                (missed-Leaves outside client_ip host req shared _ k engine route))
        ]

  pub after_screen-Leaves :
      (go_on : Shared http Incoming lru files → Handled http Incoming lru files)
      (shared : Shared http Incoming lru files) (early : Option (Answer http Incoming))
      (manager : SecurityManager)
      → Leaves
          (record shared { security_manager = manager })
          (go_on (record shared { security_manager = manager }))
      → (handled : Handled http Incoming lru files) × (after_screen http Incoming lru files go_on
            shared
            (some (early, manager))
          ≡ some handled)
        × Leaves (record shared { security_manager = manager }) handled
  after_screen-Leaves go_on shared none manager l = (_, refl, l)
  after_screen-Leaves go_on shared (some answer) manager l =
      (_, refl, decided-Leaves (ok answer) _ _ (unchanged _))

  screened-Leaves :
      (go_on : Shared http Incoming lru files → Handled http Incoming lru files)
      (shared : Shared http Incoming lru files)
      (all : (after : Shared http Incoming lru files) → Leaves after (go_on after))
      (r : Option (Option (Answer http Incoming) × SecurityManager))
      (handled : Handled http Incoming lru files)
      → after_screen http Incoming lru files go_on shared r ≡ some handled
      → (manager : SecurityManager) × Leaves (record shared { security_manager = manager }) handled
  screened-Leaves go_on shared all none handled h = absurd (ground arith)
  screened-Leaves go_on shared all (some (early, manager)) handled h =
      let (handled', e, l) = after_screen-Leaves go_on shared early manager (all _) in
      (manager, subst (Leaves _) (some-injective (sym e ∙ h)) l)

  -- Whatever the lock is like, a request that returns leaves the configuration to one look-up.
  pub handle_request-Leaves :
      (outside : Outside http Incoming) (clock : Clock) (peer_addr : SocketAddr)
      (is_proxy_protocol : Bool) (req : Request http Incoming)
      (shared : Shared http Incoming lru files) (handled : Handled http Incoming lru files)
      → handle_request http Incoming lru files outside clock peer_addr is_proxy_protocol req shared
        ≡ some handled
      → (manager : SecurityManager) × Leaves (record shared { security_manager = manager }) handled
  unfolding handle_request
  handle_request-Leaves outside clock peer_addr is_proxy_protocol req shared handled h =
      screened-Leaves _ shared (admitted-Leaves outside clock _ _ req) _ handled h
