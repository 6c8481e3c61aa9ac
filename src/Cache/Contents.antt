-- ===== src/Cache/Contents.antt =====
-- src/cache.rs: what holds of every entry goes on holding, whatever `get` and `insert` move or drop.
use barebones_reverse_proxy.Prelude.{
  ℕ, zero, suc, ◌≡◌, sym, ap, ◌∙◌, subst, not, ◌&&◌, ◌||◌, Option, some, List, [], ◌∷◌, All, ltb,
  leb, ◌==◌, inl, inr, Text, text_eq, text_eq_iff, take, length, usize_add, Bool-cases,
  Option-cases, arith,
}
use barebones_reverse_proxy.Lru.{LruCache, lookup, erase, touch, drop_last}
use barebones_reverse_proxy.Cache.{
  CachedAsset, LruCacheEngine, Eviction, popped, evict, store, get, insert, asset_of,
  after_eviction, is_expired,
}

module _ {V : Type 0} (P : Text × V → Type 0) where
  All-erase : (k : Text) (l : List (Text × V)) → All P l → All P (erase k l)
  unfolding erase
  All-erase k [] a = tt
  All-erase k ((j, v) ∷ l) (here, later) = elim (Bool-cases (text_eq j k)) [
    | inl e ↦ rw e later
    | inr e ↦ rw e (here, All-erase k l later)
  ]

  All-lookup : (k : Text) (v : V) (l : List (Text × V)) → All P l → lookup k l ≡ some v → P (k, v)
  unfolding lookup
  All-lookup k v [] a h = absurd (ground arith)
  All-lookup k v ((j, w) ∷ l) (here, later) h = elim (Bool-cases (text_eq j k)) [
    | inl e ↦
        let same : w ≡ v = ground arith in
        subst (λ n. P (n, v)) ((text_eq_iff j k).0 e) (subst (λ x. P (j, x)) same here)
    | inr e ↦ All-lookup k v l later (ground arith)
  ]

  All-touch : (k : Text) (l : List (Text × V)) → All P l → All P (touch k l)
  unfolding touch
  All-touch k l a = elim (Option-cases (lookup k l)) [
    | inl e ↦ let same : touch k l ≡ l = rw (touch, e) in subst (All P) (sym same) a
    | inr (v, e) ↦
        let front : touch k l ≡ (k, v) ∷ erase k l = rw (touch, e) in
        subst (All P) (sym front) (All-lookup k v l a e, All-erase k l a)
  ]

  All-drop_last : (l : List (Text × V)) → All P l → All P (drop_last l)
  unfolding drop_last
  All-drop_last [] a = tt
  All-drop_last (e ∷ []) a = tt
  All-drop_last (e ∷ f ∷ l) (here, later) = (here, All-drop_last (f ∷ l) later)

  All-take : (n : ℕ) (l : List (Text × V)) → All P l → All P (take n l)
  All-take zero l a = tt
  All-take (suc n) [] a = tt
  All-take (suc n) (e ∷ l) (here, later) = (here, All-take n l later)

module _ {H : Type 0} (lru : LruCache (CachedAsset H)) (P : Text × CachedAsset H → Type 0) where
  open lru use {entries, cap, len, get_mut, pop, pop_lru, put}

  pub All-get :
      (engine : LruCacheEngine lru) (key : Text) (now : ℕ)
      → All P (entries engine.inner)
      → All P (entries (get lru engine key now).1.inner)
  unfolding get
  All-get engine key now a =
      let touched : All P (entries (get_mut key engine.inner).1) =
        subst (All P) (sym (lru.get_mut_entries key engine.inner))
          (All-touch P key (entries engine.inner) a) in
      elim (Bool-cases engine.inner_poisoned) [
        | inl p ↦ rw p a
        | inr p ↦ elim (Option-cases (get_mut key engine.inner).0) [
          | inl miss ↦ rw (p, miss) touched
          | inr (item, found) ↦ elim (Bool-cases (is_expired item now)) [
            | inl old ↦
                rw (p, found, old)
                  (subst (All P) (sym (lru.pop_entries key (get_mut key engine.inner).1))
                    (All-erase P key _ touched))
            | inr fresh ↦ rw (p, found, fresh) touched
          ]
        ]
      ]

  evict-All :
      (fuel size max : ℕ) (loop : Eviction lru)
      → All P (entries loop.guard)
      → All P (entries (evict lru fuel size max loop).guard)
  unfolding evict
  evict-All zero size max loop a = a
  evict-All (suc fuel) size max loop a =
      let dropped : All P (entries (pop_lru loop.guard).1) =
        subst (All P) (sym (lru.pop_lru_entries loop.guard)) (All-drop_last P _ a) in
      elim (Bool-cases (ltb max (usize_add loop.memory size) && not (len loop.guard == 0))) [
        | inr stop ↦ rw (evict, stop) a
        | inl go ↦ elim (Option-cases (pop_lru loop.guard).0) [
          | inl empty ↦ rw (evict, go, empty) dropped
          | inr ((k, asset), e) ↦
              rw (evict, go, e) (evict-All fuel size max (popped lru loop asset.size_bytes) dropped)
        ]
      ]

  store-All :
      (engine : LruCacheEngine lru) (key : Text) (asset : CachedAsset H) (loop : Eviction lru)
      → P (key, asset)
      → All P (entries loop.guard)
      → All P (entries (store lru engine key asset loop).1.inner)
  unfolding store
  store-All engine key asset loop new a =
      elim (Bool-cases (leb (usize_add loop.memory asset.size_bytes) engine.max_capacity_bytes)) [
        | inl fits ↦ rw fits (
            subst (All P) (sym (lru.put_entries key asset loop.guard))
              (All-take P (cap loop.guard) _ (new, All-erase P key _ a)))
        | inr full ↦ rw full a
      ]

  pub All-insert :
      (engine : LruCacheEngine lru) (key : Text) (status : ℕ) (headers : H) (body : List ℕ)
      (ttl_override : Option ℕ) (now : ℕ)
      → P (key, asset_of lru engine status headers body ttl_override now)
      → All P (entries engine.inner)
      → All P (entries (insert lru engine key status headers body ttl_override now).1.inner)
  unfolding insert
  All-insert engine key status headers body ttl_override now new a =
      let stored =
        store-All engine key (asset_of lru engine status headers body ttl_override now)
          (after_eviction lru engine (length body)) new
          (evict-All _ (length body) engine.max_capacity_bytes _ a) in
      elim (Bool-cases (ltb engine.max_file_size_bytes (length body))) [
        | inl big ↦ rw big a
        | inr small ↦ elim (Bool-cases (ltb engine.max_capacity_bytes (length body))) [
          | inl big ↦ rw (small, big) a
          | inr fits ↦ elim (Bool-cases (engine.inner_poisoned || engine.memory_poisoned)) [
            | inl bad ↦ rw (small, fits, bad) a
            | inr good ↦ rw (small, fits, good) stored
          ]
        ]
      ]

  -- What `get` gives is one of the entries.
  pub get-Holds :
      (engine : LruCacheEngine lru) (key : Text) (now : ℕ) (asset : CachedAsset H)
      → All P (entries engine.inner)
      → (get lru engine key now).0 ≡ some asset
      → P (key, asset)
  unfolding get
  get-Holds engine key now asset a h = elim (Bool-cases engine.inner_poisoned) [
    | inl p ↦ absurd (ground arith)
    | inr p ↦ elim (Option-cases (get_mut key engine.inner).0) [
      | inl miss ↦ absurd (ground arith)
      | inr (item, found) ↦ elim (Bool-cases (is_expired item now)) [
        | inl old ↦ absurd (ground arith)
        | inr fresh ↦
            let same : item ≡ asset = ground arith in
            let there : lookup key (entries engine.inner) ≡ some asset =
              sym (lru.get_mut_result key engine.inner) ∙ found ∙ ap some same in
            All-lookup P key asset (entries engine.inner) a there
      ]
    ]
  ]
