-- ===== src/Cache/Accounting.antt =====
-- src/cache.rs: `current_memory_bytes` against the bytes that the entries hold.
use barebones_reverse_proxy.Prelude.{
  ℕ, ◌+◌, ◌-◌, ◌≤◌, ◌<◌, ◌≡◌, inl, inr, refl, sym, ap, subst, ◌∙◌, true, false, Option, none, some,
  ◌∷◌, if◌then◌else◌, leb, Bool-cases, Option-cases, tests, length, drop, Text, arith, usize_add,
  usize_add_lem, word_mod,
}
use barebones_reverse_proxy.Lru.{LruCache, lookup, erase}
use barebones_reverse_proxy.Cache
use barebones_reverse_proxy.Cache.{
  CachedAsset, LruCacheEngine, is_expired, store, loop_start, after_eviction, asset_of,
}
use barebones_reverse_proxy.Cache.Entries.{
  Entries, total, total-erase, erase_absent, total-take-drop, length-take-le, length-erase-le,
  total-erase-le, touch_sums, erase-touch,
}

-- `leaked` is the number of bytes that are counted for no entry.
pub record IsValid {H : Type 0} (lru : LruCache (CachedAsset H)) (leaked : ℕ)
    (engine : LruCacheEngine lru) : Type 0 where
  pub accounted : engine.current_memory_bytes ≡ total (LruCache.entries lru engine.inner) + leaked
  pub within : engine.current_memory_bytes ≤ engine.max_capacity_bytes
  pub half : engine.max_capacity_bytes + engine.max_capacity_bytes < word_mod
  pub capped : length (LruCache.entries lru engine.inner) ≤ LruCache.cap lru engine.inner
  pub small_cap : LruCache.cap lru engine.inner < word_mod

module _ {H : Type 0} (lru : LruCache (CachedAsset H)) where
  open lru use {entries, cap, get_mut, pop}

  -- A new engine counts nothing.
  pub new-IsValid :
      (max_capacity max_file ttl : ℕ)
      → max_capacity + max_capacity < word_mod
      → IsValid lru 0 (Cache.new lru max_capacity max_file ttl)
  unfolding Cache.new
  new-IsValid max_capacity max_file ttl half = record {
    accounted = omega (arith, ap total (lru.new_entries 10_000));
    within = omega arith;
    half = half;
    capped = omega (arith, ap length (lru.new_entries 10_000));
    small_cap = omega (arith, lru.new_cap 10_000);
  }

  module _ (leaked : ℕ) (engine : LruCacheEngine lru) (key : Text)
      (v : IsValid lru leaked engine) where
    touched-IsValid : IsValid lru leaked (record engine { inner = (get_mut key engine.inner).1 })
    touched-IsValid =
        let (same, long) = touch_sums key (entries engine.inner) in
        let view = lru.get_mut_entries key engine.inner in
        record {
          accounted = omega (arith, v.accounted, same, ap total view);
          within = v.within;
          half = v.half;
          capped = omega (arith, v.capped, long, ap length view, lru.get_mut_cap key engine.inner);
          small_cap = omega (arith, v.small_cap, lru.get_mut_cap key engine.inner);
        }

    removed-IsValid :
        (item : CachedAsset H)
        → (get_mut key engine.inner).0 ≡ some item
        → IsValid lru leaked (record engine {
          inner = (pop key (get_mut key engine.inner).1).1;
          current_memory_bytes = engine.current_memory_bytes - item.size_bytes;
        })
    removed-IsValid item found =
        let here = sym (lru.get_mut_result key engine.inner) ∙ found in
        let view : entries (pop key (get_mut key engine.inner).1).1
            ≡ erase key (entries engine.inner) =
          lru.pop_entries key (get_mut key engine.inner).1
          ∙ ap (erase key) (lru.get_mut_entries key engine.inner)
          ∙ erase-touch key (entries engine.inner) in
        let same_cap =
          lru.pop_cap key (get_mut key engine.inner).1 ∙ lru.get_mut_cap key engine.inner in
        let size = total-erase key (entries engine.inner) item here in
        record {
          accounted = omega (arith, v.accounted, size, ap total view);
          within = omega (arith, v.within);
          half = v.half;
          capped = omega (
            arith,
            v.capped,
            length-erase-le key (entries engine.inner),
            ap length view,
            same_cap,
          );
          small_cap = omega (arith, v.small_cap, same_cap);
        }

    -- On a valid engine with a sound memory lock, `get` leaves a valid engine with the same number
    -- of bytes that are counted for no entry, whether it hits, misses or removes an expired entry.
    pub get-IsValid :
        (now : ℕ)
        → engine.memory_poisoned ≡ false
        → IsValid lru leaked (Cache.get lru engine key now).1
    unfolding Cache.get
    get-IsValid now sound = elim (Bool-cases engine.inner_poisoned) [
      | inl p ↦ subst (IsValid lru leaked) (ground arith) v
      | inr p ↦ elim (Option-cases (get_mut key engine.inner).0) [
        | inl miss ↦ subst (IsValid lru leaked) (ground arith) touched-IsValid
        | inr (item, found) ↦ elim (Bool-cases (is_expired item now)) [
          | inl old ↦ subst (IsValid lru leaked) (ground arith) (removed-IsValid item found)
          | inr fresh ↦ subst (IsValid lru leaked) (ground arith) touched-IsValid
        ]
      ]
    ]

  module _ (engine : LruCacheEngine lru) (key : Text) (asset : CachedAsset H) (leaked : ℕ)
      (loop : Cache.Eviction lru) (accounted : loop.memory ≡ total (entries loop.guard) + leaked)
      (half : engine.max_capacity_bytes + engine.max_capacity_bytes < word_mod)
      (capped : length (entries loop.guard) ≤ cap loop.guard)
      (small_cap : cap loop.guard < word_mod) (within : loop.memory ≤ engine.max_capacity_bytes)
      (size_fits : asset.size_bytes ≤ engine.max_capacity_bytes) where
    -- The entries with the new one in front, before the crate cuts them to its capacity.
    abbrev pub wanted : Entries H
    wanted = (key, asset) ∷ erase key (entries loop.guard)

    abbrev pub lost : ℕ
    lost = total (drop (cap loop.guard) wanted)

    store_memory :
        (o : Option (CachedAsset H))
        → lookup key (entries loop.guard) ≡ o
        → leb (usize_add loop.memory asset.size_bytes) engine.max_capacity_bytes ≡ true
        → (let memory : ℕ = elim o [
          | none ↦ loop.memory
          | some old ↦ loop.memory - old.size_bytes
        ] in
            usize_add memory asset.size_bytes)
          ≡ total wanted + leaked
    store_memory none e fits = omega (
      arith,
      usize_add_lem loop.memory asset.size_bytes (omega arith),
      ap total (erase_absent key (entries loop.guard) e),
    )
    store_memory (some old) e fits =
        let size = total-erase key (entries loop.guard) old e in
        omega
          (arith, usize_add_lem (loop.memory - old.size_bytes) asset.size_bytes (omega arith), size)

    stored-IsValid :
        leb (usize_add loop.memory asset.size_bytes) engine.max_capacity_bytes ≡ true
        → (memory : ℕ) → memory ≡ total wanted + leaked
        → IsValid lru (leaked + lost) (record engine {
          inner = (lru.put key asset loop.guard).1;
          current_memory_bytes = memory;
        })
    stored-IsValid fits memory e =
        let view = lru.put_entries key asset loop.guard in
        let same_cap = lru.put_cap key asset loop.guard in
        let sum = usize_add_lem loop.memory asset.size_bytes (omega arith) in
        record {
          accounted = omega (arith, e, ap total view, total-take-drop (cap loop.guard) wanted);
          within = omega (tests, e, fits, sum, total-erase-le key (entries loop.guard));
          half = half;
          capped = omega (arith, ap length view, same_cap, length-take-le (cap loop.guard) wanted);
          small_cap = omega (arith, small_cap, same_cap);
        }

    pub store-IsValid :
        IsValid lru
          (leaked
            + (if leb (usize_add loop.memory asset.size_bytes) engine.max_capacity_bytes
                then lost
                else 0))
          (store lru engine key asset loop).1
    unfolding store
    store-IsValid =
        elim (Bool-cases (leb (usize_add loop.memory asset.size_bytes) engine.max_capacity_bytes)) [
          | inl fits ↦ rw fits (
              stored-IsValid fits _ (
                ap
                  (λ o.
                    let memory : ℕ = elim o [
                      | none ↦ loop.memory
                      | some old ↦ loop.memory - old.size_bytes
                    ] in
                    usize_add memory asset.size_bytes)
                  (lru.put_result key asset loop.guard)
                ∙ store_memory (lookup key (entries loop.guard)) refl fits))
          | inr full ↦ rw full (record {
            accounted = omega (arith, accounted);
            within = within;
            half = half;
            capped = capped;
            small_cap = small_cap;
          })
        ]
