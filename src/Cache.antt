-- ===== src/Cache.antt =====
-- src/cache.rs: the response cache in memory. The crate `lru` is the interface `LruCache`; `H` is
-- hyper's `HeaderMap`, which the cache only stores. Times are nanoseconds of the monotone clock,
-- and a lock is a flag that says whether it is poisoned.
pub mod Entries
pub mod Loop
pub mod Accounting
pub mod Insert
pub mod Reads
pub mod Runs
pub mod Contents
pub mod StaticAssets
mod Tests
use barebones_reverse_proxy.Prelude.{
  ℕ, zero, suc, ◌+◌, ◌-◌, ◌*◌, Bool, true, false, not, ◌&&◌, ◌||◌, Option, none, some, List, [],
  ◌∷◌, ltb, leb, ◌==◌, if◌then◌else◌, unwrap_or, length, Text, lit, text_eq, to_lowercase,
  ends_with, contains, usize_add,
}
use barebones_reverse_proxy.Lru.{LruCache}

pub record CachedAsset (H : Type 0) : Type 0 where
  pub status : ℕ
  pub headers : H
  pub body : List ℕ
  pub created_at : ℕ
  pub ttl : ℕ
  pub size_bytes : ℕ

-- `self.created_at.elapsed() >= self.ttl`.
unfoldable pub is_expired : {H : Type 0} → CachedAsset H → ℕ → Bool
is_expired asset now = leb asset.ttl (now - asset.created_at)

pub record InsertResult : Type 0 where
  pub inserted : Bool
  pub bytes_inserted : ℕ
  pub bytes_evicted : ℕ
  pub items_evicted : ℕ
  pub reason : Option Text

-- The early returns of `insert`.
abbrev pub refused : Text → InsertResult
refused why = record {
  inserted = false;
  bytes_inserted = 0;
  bytes_evicted = 0;
  items_evicted = 0;
  reason = some why;
}

module _ {H : Type 0} (lru : LruCache (CachedAsset H)) where
  open lru use {Cache, new as lru_new, len, get_mut, pop, pop_lru, put}

  pub record LruCacheEngine : Type 0 where
    pub inner : Cache
    pub inner_poisoned : Bool
    pub max_capacity_bytes : ℕ
    pub max_file_size_bytes : ℕ
    pub default_ttl : ℕ
    pub current_memory_bytes : ℕ
    pub memory_poisoned : Bool

  unfoldable pub new : ℕ → ℕ → ℕ → LruCacheEngine
  new max_capacity_bytes max_file_size_bytes default_ttl_sec = record {
    inner = lru_new 10_000;
    inner_poisoned = false;
    max_capacity_bytes = max_capacity_bytes;
    max_file_size_bytes = max_file_size_bytes;
    default_ttl = default_ttl_sec * 1_000_000_000;
    current_memory_bytes = 0;
    memory_poisoned = false;
  }

  unfoldable pub get : LruCacheEngine → Text → ℕ → Option (CachedAsset H) × LruCacheEngine
  unfolding is_expired
  get engine key now =
      if engine.inner_poisoned
      then (none, engine)
      else (let (found, touched) = get_mut key engine.inner in
          elim found [
            | none ↦ (none, record engine { inner = touched })
            | some item ↦
                if is_expired item now
                then (
                  none,
                  record engine {
                    inner = (pop key touched).1;
                    current_memory_bytes =
                        if engine.memory_poisoned
                        then engine.current_memory_bytes
                        else engine.current_memory_bytes - item.size_bytes;
                  },
                )
                else (some item, record engine { inner = touched })
          ])

  -- The variables of the eviction loop.
  pub record Eviction : Type 0 where
    pub guard : Cache
    pub memory : ℕ
    pub bytes_evicted : ℕ
    pub items_evicted : ℕ

  abbrev pub popped : Eviction → ℕ → Eviction
  popped loop size = record {
    guard = (pop_lru loop.guard).1;
    memory = loop.memory - size;
    bytes_evicted = usize_add loop.bytes_evicted size;
    items_evicted = usize_add loop.items_evicted 1;
  }

  -- `while *mem_guard + size_bytes > self.max_capacity_bytes && !guard.is_empty()`.
  unfoldable pub evict : (fuel size_bytes max_capacity_bytes : ℕ) → Eviction → Eviction
  evict zero size_bytes max_capacity_bytes loop = loop
  evict (suc fuel) size_bytes max_capacity_bytes loop =
      elim (ltb max_capacity_bytes (usize_add loop.memory size_bytes)
        && not (len loop.guard == 0)) [
          | false ↦ loop
          | true ↦ elim (pop_lru loop.guard).0 [
            | none ↦ record loop { guard = (pop_lru loop.guard).1 }
            | some (evicted_key, evicted_item) ↦
                evict fuel size_bytes max_capacity_bytes (popped loop evicted_item.size_bytes)
          ]
        ]

  -- Behind the loop: the entry goes in if it fits now.
  unfoldable pub store :
      LruCacheEngine → Text → CachedAsset H → Eviction → InsertResult × LruCacheEngine
  store engine key asset loop =
      if leb (usize_add loop.memory asset.size_bytes) engine.max_capacity_bytes
      then (let (old, stored) = put key asset loop.guard in
          let memory : ℕ = elim old [ none ↦ loop.memory | some o ↦ loop.memory - o.size_bytes ] in
          (
            record {
              inserted = true;
              bytes_inserted = asset.size_bytes;
              bytes_evicted = loop.bytes_evicted;
              items_evicted = loop.items_evicted;
              reason = none;
            },
            record engine {
              inner = stored;
              current_memory_bytes = usize_add memory asset.size_bytes;
            },
          ))
      else (
        record {
          inserted = false;
          bytes_inserted = 0;
          bytes_evicted = loop.bytes_evicted;
          items_evicted = loop.items_evicted;
          reason = some (lit "capacity_full_after_eviction");
        },
        record engine { inner = loop.guard; current_memory_bytes = loop.memory },
      )

  -- The asset that `insert` builds.
  abbrev pub asset_of : LruCacheEngine → ℕ → H → List ℕ → Option ℕ → ℕ → CachedAsset H
  asset_of engine status headers body ttl_override now = record {
    status = status;
    headers = headers;
    body = body;
    created_at = now;
    ttl = unwrap_or ttl_override engine.default_ttl;
    size_bytes = length body;
  }

  abbrev pub loop_start : LruCacheEngine → Eviction
  loop_start engine = record {
    guard = engine.inner;
    memory = engine.current_memory_bytes;
    bytes_evicted = 0;
    items_evicted = 0;
  }

  -- The loop runs at most once for each entry.
  abbrev pub after_eviction : LruCacheEngine → ℕ → Eviction
  after_eviction engine size_bytes =
      evict (len engine.inner) size_bytes engine.max_capacity_bytes (loop_start engine)

  unfoldable pub insert :
      LruCacheEngine → Text → ℕ → H → List ℕ → Option ℕ → ℕ → InsertResult × LruCacheEngine
  insert engine key status headers body ttl_override now =
      if ltb engine.max_file_size_bytes (length body)
      then (refused (lit "exceeds_max_file_size"), engine)
      else if ltb engine.max_capacity_bytes (length body)
      then (refused (lit "exceeds_max_capacity"), engine)
      else if engine.inner_poisoned || engine.memory_poisoned
      then (refused (lit "lock_error"), engine)
      else store engine key (asset_of engine status headers body ttl_override now)
          (after_eviction engine (length body))

  -- `current_memory_bytes`, `entry_count`: 0 if the lock is poisoned.
  unfoldable pub current_memory_bytes : LruCacheEngine → ℕ
  current_memory_bytes engine = if engine.memory_poisoned then 0 else engine.current_memory_bytes

  unfoldable pub entry_count : LruCacheEngine → ℕ
  entry_count engine = if engine.inner_poisoned then 0 else len engine.inner
