-- ===== src/Cache/Reads.antt =====
-- src/cache.rs: what `get` reads, right behind `insert` and later.
use barebones_reverse_proxy.Prelude.{
  ℕ, zero, suc, ◌+◌, ◌-◌, ◌≤◌, ◌<◌, ◌≡◌, ap, ◌∙◌, false, ◌||◌, Option, none, some, List, ◌∷◌,
  if◌then◌else◌, leb, length, take, Text, arith,
}
use barebones_reverse_proxy.Lru.{LruCache, lookup, erase}
use barebones_reverse_proxy.Cache
use barebones_reverse_proxy.Cache.{
  CachedAsset, LruCacheEngine, InsertResult, is_expired, store, after_eviction, insert,
}
use barebones_reverse_proxy.Cache.Entries.{Entries, lookup_self, erase-touch}
use barebones_reverse_proxy.Cache.Accounting.{IsValid}
use barebones_reverse_proxy.Cache.Insert.{new_asset, insert_late, insert_succeeds}

le→leb_false : (a b : ℕ) → b < a → leb a b ≡ false
le→leb_false a b h = ground arith

take_front :
    {H : Type 0} (n : ℕ)
    → 0 < n
    → (key : Text) (a : CachedAsset H) (l : Entries H) → lookup key (take n ((key, a) ∷ l)) ≡ some a
take_front zero h key a l = elim h [ ]
take_front (suc n) h key a l = lookup_self key a (take n l)

module _ {H : Type 0} (lru : LruCache (CachedAsset H)) (engine : LruCacheEngine lru) where
  open lru use {entries, cap}

  -- With a sound lock, `get` gives the entry stored under the key if its time to live has not
  -- passed, and nothing otherwise.
  pub get-lookup :
      (key : Text) (now : ℕ)
      → engine.inner_poisoned ≡ false
      → (Cache.get lru engine key now).0 ≡ elim (lookup key (entries engine.inner)) [
        | none ↦ none
        | some a ↦ if leb a.ttl (now - a.created_at) then none else some a
      ]
  unfolding Cache.get is_expired
  get-lookup key now sound = ground (arith, lru.get_mut_result key engine.inner)

  -- With a sound lock, a `get` that finds an entry whose time to live has passed gives nothing and
  -- takes the entry out of the cache.
  pub get_expired :
      (key : Text) (now : ℕ) (a : CachedAsset H)
      → engine.inner_poisoned ≡ false
      → lookup key (entries engine.inner) ≡ some a
      → a.ttl ≤ now - a.created_at
      → ((Cache.get lru engine key now).0 ≡ none)
        × (entries (Cache.get lru engine key now).1.inner ≡ erase key (entries engine.inner))
  unfolding Cache.get is_expired
  get_expired key now a sound found old =
      let hit : (lru.get_mut key engine.inner).0 ≡ some a =
        lru.get_mut_result key engine.inner ∙ found in
      let gone =
        lru.pop_entries key (lru.get_mut key engine.inner).1
        ∙ ap (erase key) (lru.get_mut_entries key engine.inner)
        ∙ erase-touch key (entries engine.inner) in
      (ground arith, ap entries (expired_inner hit) ∙ gone)
    where
      expired_inner :
          (lru.get_mut key engine.inner).0 ≡ some a
          → (Cache.get lru engine key now).1.inner
            ≡ (lru.pop key (lru.get_mut key engine.inner).1).1
      expired_inner hit = ground (arith, hit, sound, old)

  store_lock :
      (key : Text) (asset : CachedAsset H) (loop : Cache.Eviction lru)
      → (store lru engine key asset loop).1.inner_poisoned ≡ engine.inner_poisoned
  unfolding store
  store_lock key asset loop = ground arith

module _ {H : Type 0} (lru : LruCache (CachedAsset H)) (leaked : ℕ) (engine : LruCacheEngine lru)
    (v : IsValid lru leaked engine) where
  open lru use {entries, cap}

  -- On a valid engine with sound locks and a positive limit of entries, a body that is within the
  -- file limit and for which the leaked bytes leave room is read back by `get` with its status,
  -- headers and body as long as less than its time to live has passed.
  pub get-insert :
      (key : Text) (status : ℕ) (headers : H) (body : List ℕ) (ttl_override : Option ℕ)
      (now later : ℕ)
      → length body ≤ engine.max_file_size_bytes
      → leaked + length body ≤ engine.max_capacity_bytes
      → engine.inner_poisoned ≡ false
      → engine.memory_poisoned ≡ false
      → 0 < cap engine.inner
      → later - now < (new_asset lru leaked engine v key status headers body ttl_override now).ttl
      → (Cache.get lru (insert lru engine key status headers body ttl_override now).1 key later).0
        ≡ some (new_asset lru leaked engine v key status headers body ttl_override now)
  get-insert key status headers body ttl_override now later small fits sound sound' room fresh =
      let a = new_asset lru leaked engine v key status headers body ttl_override now in
      let both : (engine.inner_poisoned || engine.memory_poisoned) ≡ false = ground arith in
      let e = (insert lru engine key status headers body ttl_override now).1 in
      let lock : e.inner_poisoned ≡ false =
        ap (λ r. r.1.inner_poisoned)
          (insert_late lru leaked engine v key status headers body ttl_override now small
            (omega arith) both)
        ∙ store_lock lru engine key a (after_eviction lru engine (length body))
        ∙ sound in
      let (kept, _, _, _, _, stored) =
        insert_succeeds lru leaked engine v key status headers body ttl_override now small fits
          both in
      let front : lookup key (entries e.inner) ≡ some a =
        rw stored (take_front (cap engine.inner) room key a (erase key kept)) in
      get-lookup lru e key later lock ∙ rw (front, le→leb_false a.ttl (later - now) fresh)
