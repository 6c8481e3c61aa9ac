-- ===== src/Cache/Tests.antt =====
-- src/cache.rs: runs, and the theorems at concrete inputs, over the listed cache.
use barebones_reverse_proxy.Prelude.{
  ℕ, ◌+◌, ◌≡◌, refl, true, false, none, some, List, [], ◌∷◌, ◌++◌, length, take, Text, lit, text_eq,
  usize_add, arith, to_lowercase, ends_with, contains, starts_with,
}
use barebones_reverse_proxy.Lru.{lookup, erase, get_last?}
use barebones_reverse_proxy.Lru.Listed.{listed}
use barebones_reverse_proxy.Cache.{CachedAsset, LruCacheEngine, new, get, evict, store, insert}
use barebones_reverse_proxy.Cache.StaticAssets.{is_static_asset, is_uncacheable_entrypoint}
use barebones_reverse_proxy.Cache.Entries.{Entries, total}
use barebones_reverse_proxy.Cache.Loop.{Needed}
use barebones_reverse_proxy.Cache.Accounting.{IsValid}
use barebones_reverse_proxy.Cache.Insert.{insert_succeeds, insert_leaks, new_asset, inserted_result}
use barebones_reverse_proxy.Cache.Reads.{get-insert}
use barebones_reverse_proxy.Cache.Runs.{reading, writing, perform_all, new-perform_all-IsValid}

abbrev Asset : Type 0
Asset = CachedAsset Unit

abbrev Engine : Type 0
Engine = LruCacheEngine (listed Asset)

abbrev old_asset : Asset
old_asset = record {
  status = 200;
  headers = tt;
  body = 1 ∷ 2 ∷ [];
  created_at = 5;
  ttl = 10;
  size_bytes = 2;
}

abbrev old_key : Text
old_key = lit "/a.css"

abbrev new_key : Text
new_key = lit "/b.css"

-- An engine of 4 bytes with one entry of 2.
abbrev engine_of : ℕ → Engine
engine_of limit = record {
  inner = record { limit = limit; items = (old_key, old_asset) ∷ [] };
  inner_poisoned = false;
  max_capacity_bytes = 4;
  max_file_size_bytes = 3;
  default_ttl = 100;
  current_memory_bytes = 2;
  memory_poisoned = false;
}

engine-IsValid : IsValid (listed Asset) 0 (engine_of 10)
engine-IsValid = record {
  accounted = refl;
  within = omega arith;
  half = omega arith;
  capped = omega arith;
  small_cap = omega arith;
}

full-IsValid : IsValid (listed Asset) 0 (engine_of 1)
full-IsValid = record {
  accounted = refl;
  within = omega arith;
  half = omega arith;
  capped = omega arith;
  small_cap = omega arith;
}

abbrev body : List ℕ
body = 7 ∷ 8 ∷ 9 ∷ []

eviction_run : (insert (listed Asset) (engine_of 10) new_key 200 tt body none 6).0 ≡ record {
  inserted = true;
  bytes_inserted = 3;
  bytes_evicted = 2;
  items_evicted = 1;
  reason = none;
}
unfolding insert evict store usize_add get_last?
eviction_run = refl

static_run :
    (is_static_asset (lit "/App.CSS") none ≡ true)
    × (is_static_asset (lit "/index.html") (some (lit "text/css")) ≡ false)
unfolding is_static_asset is_uncacheable_entrypoint lit to_lowercase ends_with contains starts_with
    text_eq
static_run = (refl, refl)

new-perform_all-IsValid_example :
    (leaked : ℕ) × IsValid (listed Asset) leaked (
      perform_all
        (listed Asset)
        (writing new_key 200 tt body none 6 ∷ reading new_key 7 ∷ [])
        (new (listed Asset) 4 3 1))
new-perform_all-IsValid_example =
    new-perform_all-IsValid (listed Asset)
      (writing new_key 200 tt body none 6 ∷ reading new_key 7 ∷ []) 4 3 1 (omega arith)

insert_succeeds_example :
    (kept evicted : Entries Unit) × ((old_key, old_asset) ∷ [] ≡ kept ++ evicted)
    × Needed 3 4 0 kept evicted
    × ((insert (listed Asset) (engine_of 10) new_key 200 tt body none 6).0
        ≡ inserted_result
            (listed Asset)
            0
            (engine_of 10)
            engine-IsValid
            new_key
            200
            tt
            body
            none
            6
            (total evicted)
            (length evicted))
    × ((insert (listed Asset) (engine_of 10) new_key 200 tt body none 6).1.inner.items
        ≡ take 10 (
            (
              new_key,
              new_asset (listed Asset) 0 (engine_of 10) engine-IsValid new_key 200 tt body none 6,
            )
            ∷ erase new_key kept))
insert_succeeds_example =
    insert_succeeds (listed Asset) 0 (engine_of 10) engine-IsValid new_key 200 tt body none 6
      (omega arith) (omega arith) refl

get-insert_example :
    (get
      (listed Asset)
      (insert (listed Asset) (engine_of 10) new_key 200 tt body none 6).1
      new_key
      50).0
    ≡ some (new_asset (listed Asset) 0 (engine_of 10) engine-IsValid new_key 200 tt body none 6)
get-insert_example =
    get-insert (listed Asset) 0 (engine_of 10) engine-IsValid new_key 200 tt body none 6 50
      (omega arith) (omega arith) refl refl (omega arith) (omega arith)

abbrev small_body : List ℕ
small_body = 7 ∷ []

insert_leaks_example :
    ((insert (listed Asset) (engine_of 1) new_key 200 tt small_body none 6).0
      ≡ inserted_result
          (listed Asset)
          0
          (engine_of 1)
          full-IsValid
          new_key
          200
          tt
          small_body
          none
          6
          0
          0)
    × ((insert (listed Asset) (engine_of 1) new_key 200 tt small_body none 6).1.current_memory_bytes
        ≡ total (insert (listed Asset) (engine_of 1) new_key 200 tt small_body none 6).1.inner.items
          + 0
          + 2)
unfolding lookup lit text_eq get_last?
insert_leaks_example =
    insert_leaks (listed Asset) 0 (engine_of 1) full-IsValid new_key 200 tt small_body none 6
      (old_key, old_asset) (omega arith) (omega arith) refl refl refl refl
