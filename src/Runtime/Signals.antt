-- ===== src/Runtime/Signals.antt =====
-- src/server.rs: what any number of reload signals keeps, and the cache behind one.
use barebones_reverse_proxy.Prelude.{
  ◌<◌, usize_add_lem, word_mod, ℕ, ◌+◌, ◌≤◌, ◌≡◌, ◌⊎◌, inl, inr, refl, sym, subst, ◌∙◌, Option,
  none, some, List, [], ◌∷◌, length, Bool-cases, Result, Text, arith,
}
use barebones_reverse_proxy.Config.{CacheConfig}
use barebones_reverse_proxy.Lru.{LruCache}
use barebones_reverse_proxy.Cache
use barebones_reverse_proxy.Cache.{CachedAsset, LruCacheEngine}
use barebones_reverse_proxy.Tls.{CertificateFiles}
use barebones_reverse_proxy.Runtime.{cache_of, Live, reload, reload_all}
use barebones_reverse_proxy.Runtime.Reloading.{reload-Accepted}

module _ {H : Type 0} (lru : LruCache (CachedAsset H)) (files : CertificateFiles)
    (cpus port workers : ℕ) where
  -- The cache of a configuration holds nothing.
  fresh_cache :
      (c : Option CacheConfig)
      → (cache_of lru files c ≡ none)
        ⊎ ((engine : LruCacheEngine lru) × (cache_of lru files c ≡ some engine)
            × (LruCache.entries lru engine.inner ≡ []))
  unfolding cache_of Cache.new
  fresh_cache none = inl refl
  fresh_cache (some c) = elim (Bool-cases c.enabled) [
    | inr off ↦ inl (rw off)
    | inl on ↦ inr (
      Cache.new lru c.max_capacity_bytes c.max_file_size_bytes c.default_ttl_sec,
      rw on,
      lru.new_entries 10_000,
    )
  ]

  abbrev pub Kept : (signals : ℕ) (before after : Live lru files) → Type 0
  Kept signals before after =
      (after.current.security_manager ≡ before.current.security_manager)
      × (after.managers ≡ before.managers)
      × (after.current.generation ≡ after.generation)
      × (before.generation ≤ after.generation)
      × (after.generation ≤ before.generation + signals)

  reload-Kept :
      (contents : Result Text Text) (live : Live lru files)
      → live.current.generation ≡ live.generation
      → live.generation + 1 < word_mod
      → Kept 1 live (reload lru files cpus port workers contents live)
  reload-Kept contents live same room =
      elim (reload-Accepted lru files cpus port workers contents live) [
        | inl rejected ↦
            subst (Kept 1 live) (sym rejected) (refl, refl, same, omega arith, omega arith)
        | inr a ↦ (
          a.manager,
          a.managers,
          a.named,
          omega (arith, a.counted, usize_add_lem live.generation 1 room),
          omega (arith, a.counted, usize_add_lem live.generation 1 room),
        )
      ]

  -- From a live configuration whose generation is the reload thread's count, any sequence of reload
  -- signals that does not take the count out of 64 bits, whatever the file holds at each, keeps the
  -- security manager and all managers as they are, and leaves a configuration whose generation is
  -- the count; the count does not fall and grows by at most one for each signal.
  pub reload_all-Kept :
      (signals : List (Result Text Text)) (live : Live lru files)
      → live.current.generation ≡ live.generation
      → live.generation + length signals < word_mod
      → Kept (length signals) live (reload_all lru files cpus port workers signals live)
  unfolding reload_all
  reload_all-Kept [] live same room = (refl, refl, same, omega arith, omega arith)
  reload_all-Kept (contents ∷ signals) live same room =
      let (m, ms, named, low, high) = reload-Kept contents live same (omega arith) in
      let next = reload lru files cpus port workers contents live in
      let (m', ms', named', low', high') =
        reload_all-Kept signals next named (omega (arith, high)) in
      (m' ∙ m, ms' ∙ ms, named', omega arith, omega arith)

  -- A reload either leaves the live configuration as it is, or leaves it without a cache or with a
  -- cache that has no entries.
  pub reload_empties_cache :
      (contents : Result Text Text) (live : Live lru files)
      → (reload lru files cpus port workers contents live ≡ live)
        ⊎ ((reload lru files cpus port workers contents live).current.cache_engine ≡ none)
        ⊎ ((engine : LruCacheEngine lru) × ((reload lru files cpus port workers contents
                live).current.cache_engine
              ≡ some engine)
            × (LruCache.entries lru engine.inner ≡ []))
  reload_empties_cache contents live =
      elim (reload-Accepted lru files cpus port workers contents live) [
        | inl rejected ↦ inl rejected
        | inr a ↦ inr (elim (fresh_cache a.config.cache) [
          | inl off ↦ inl (a.cache ∙ off)
          | inr (engine, made, nothing) ↦ inr (engine, a.cache ∙ made, nothing)
        ])
      ]
