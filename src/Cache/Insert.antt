-- ===== src/Cache/Insert.antt =====
-- src/cache.rs: `insert` as a whole, on every path: what is counted, when it succeeds, and the bytes
-- that stay counted for an entry which the crate drops by itself.
use barebones_reverse_proxy.Prelude.{
  ℕ, ◌+◌, ◌≤◌, ◌<◌, ◌≡◌, ◌⊎◌, inl, inr, refl, sym, ap, ap₂, subst, ◌∙◌, Bool, true, false, ◌||◌,
  Option, none, some, List, [], ◌∷◌, ◌++◌, if◌then◌else◌, ltb, leb, Bool-cases, tests, le→ltb,
  le→leb, length, take, drop, length-append, Text, lit, arith, usize_add, usize_add_lem,
}
use barebones_reverse_proxy.Lru.{LruCache, lookup, erase, get_last?}
use barebones_reverse_proxy.Cache
use barebones_reverse_proxy.Cache.{
  CachedAsset, LruCacheEngine, InsertResult, is_expired, refused, store, loop_start, after_eviction,
  asset_of, insert,
}
use barebones_reverse_proxy.Cache.Entries.{
  Entries, total, total-append, erase_absent, drop_of_length-le, drop-cons, length-erase-le,
}
use barebones_reverse_proxy.Cache.Loop.{Evicts, Needed, evict-Evicts, evict_room}
use barebones_reverse_proxy.Cache.Accounting.{IsValid, store-IsValid}

if_zero : (b : Bool) (n : ℕ) → n ≡ 0 → (if b then n else 0) ≡ 0
if_zero b n h = ground arith

if_true : (b : Bool) (n : ℕ) → b ≡ true → (if b then n else 0) ≡ n
if_true b n h = ground arith

after_room :
    {H : Type 0} {memory : ℕ} (leaked size max : ℕ) (kept : Entries H)
    → (total kept + leaked + size ≤ max) ⊎ (kept ≡ [])
    → memory ≡ total kept + leaked
    → leaked + size ≤ max
    → memory + size ≤ max
after_room leaked size max kept (inl room) m h = omega arith
after_room leaked size max kept (inr e) m h = omega (arith, ap total e)

room_or_full : (n cap : ℕ) → (n < cap) ⊎ (cap ≤ n)
room_or_full n cap = ground arith

module _ {H : Type 0} (lru : LruCache (CachedAsset H)) (leaked : ℕ) (engine : LruCacheEngine lru)
    (v : IsValid lru leaked engine) where
  open lru use {entries, cap}

  -- The eviction loop, run by `insert` on a valid engine, with enough fuel.
  pub after_eviction-Evicts :
      (size : ℕ)
      → size ≤ engine.max_capacity_bytes
      → Evicts lru size engine.max_capacity_bytes leaked
          (loop_start lru engine)
          (after_eviction lru engine size)
  after_eviction-Evicts size fits =
      evict-Evicts lru size engine.max_capacity_bytes leaked fits v.half (lru.len engine.inner)
        (loop_start lru engine)
        (record {
          memory = v.accounted;
          within = v.within;
          bytes = omega (arith, v.accounted, v.within, v.half);
          items = omega (arith, v.capped, v.small_cap);
        })
        (omega (arith, lru.len_lem engine.inner))

  -- What the loop leaves: no more entries, and no more bytes, than before.
  kept_bounds :
      (size : ℕ)
      → size ≤ engine.max_capacity_bytes
      → (length (entries (after_eviction lru engine size).guard) ≤ length (entries engine.inner))
        × ((after_eviction lru engine size).memory ≤ engine.max_capacity_bytes)
        × (cap (after_eviction lru engine size).guard ≡ cap engine.inner)
  kept_bounds size fits =
      let e = after_eviction-Evicts size fits in
      let kept = entries (after_eviction lru engine size).guard in
      (
        omega (arith, ap length e.splits, length-append kept e.evicted),
        omega (
          arith,
          ap total e.splits,
          total-append kept e.evicted,
          e.accounted,
          v.accounted,
          v.within,
        ),
        e.same_cap,
      )

  module _ (key : Text) (status : ℕ) (headers : H) (body : List ℕ) (ttl_override : Option ℕ)
      (now : ℕ) where
    abbrev pub outcome : InsertResult × LruCacheEngine lru
    outcome = insert lru engine key status headers body ttl_override now

    -- How the four paths of `insert` end.
    insert_paths :
        (P : InsertResult × LruCacheEngine lru → Type 0)
        → ((why : Text) → P (refused why, engine))
        → (length body ≤ engine.max_capacity_bytes
            → length body ≤ engine.max_file_size_bytes
            → P (
                store lru engine key
                  (asset_of lru engine status headers body ttl_override now)
                  (after_eviction lru engine (length body))))
        → P outcome
    unfolding insert
    insert_paths P early late = elim (Bool-cases (ltb engine.max_file_size_bytes (length body))) [
      | inl big ↦ subst P (ground arith) (early (lit "exceeds_max_file_size"))
      | inr small ↦ elim (Bool-cases (ltb engine.max_capacity_bytes (length body))) [
        | inl big ↦ subst P (ground arith) (early (lit "exceeds_max_capacity"))
        | inr fits ↦ elim (Bool-cases (engine.inner_poisoned || engine.memory_poisoned)) [
          | inl bad ↦ subst P (ground arith) (early (lit "lock_error"))
          | inr good ↦ subst P (ground arith) (late (omega (tests, fits)) (omega (tests, small)))
        ]
      ]
    ]

    -- On a valid engine every `insert`, refused or not, leaves a valid engine; the bytes that are
    -- counted for no entry grow only if the number of entries had reached the crate's limit.
    pub insert-IsValid :
        (lost : ℕ) × IsValid lru (leaked + lost) outcome.1
        × ((lost ≡ 0) ⊎ (cap engine.inner ≤ length (entries engine.inner)))
    insert-IsValid =
        insert_paths
          (λ r.
            (lost : ℕ) × IsValid lru (leaked + lost) r.1
            × ((lost ≡ 0) ⊎ (cap engine.inner ≤ length (entries engine.inner))))
          (λ why. (0, subst (λ n. IsValid lru n engine) (omega arith) v, inl refl))
          (λ fits _.
            let size = length body in
            let asset = asset_of lru engine status headers body ttl_override now in
            let loop = after_eviction lru engine size in
            let e = after_eviction-Evicts size fits in
            let (fewer, within, same_cap) = kept_bounds size fits in
            let stored =
              store-IsValid lru engine key asset leaked loop e.accounted v.half
                (omega (arith, fewer, v.capped, same_cap)) (omega (arith, v.small_cap, same_cap))
                within fits in
            (
              _,
              stored,
              elim (room_or_full (length (entries engine.inner)) (cap engine.inner)) [
                | inr full ↦ inr full
                | inl room ↦ inl (
                    if_zero (leb (usize_add loop.memory size) engine.max_capacity_bytes) _ (
                      ap total (
                        drop_of_length-le (cap loop.guard)
                          ((key, asset) ∷ erase key (entries loop.guard))
                          (omega
                            (arith, fewer, same_cap, length-erase-le key (entries loop.guard))))))
              ],
            ))

    abbrev pub new_asset : CachedAsset H
    new_asset = asset_of lru engine status headers body ttl_override now

    abbrev pub inserted_result : (bytes_evicted items_evicted : ℕ) → InsertResult
    inserted_result bytes_evicted items_evicted = record {
      inserted = true;
      bytes_inserted = length body;
      bytes_evicted = bytes_evicted;
      items_evicted = items_evicted;
      reason = none;
    }

    -- Past the guards `insert` is the loop and the store.
    pub insert_late :
        length body ≤ engine.max_file_size_bytes
        → length body ≤ engine.max_capacity_bytes
        → (engine.inner_poisoned || engine.memory_poisoned) ≡ false
        → outcome ≡ store lru engine key new_asset (after_eviction lru engine (length body))
    unfolding insert
    insert_late small fits sound = rw (
      le→ltb engine.max_file_size_bytes (length body) small,
      le→ltb engine.max_capacity_bytes (length body) fits,
      sound,
    )

    -- Into a loop's state with room the store always puts the asset.
    store_room :
        (loop : Cache.Eviction lru)
        → loop.memory + length body ≤ engine.max_capacity_bytes
        → ((store lru engine key new_asset loop).0
            ≡ inserted_result loop.bytes_evicted loop.items_evicted)
          × (entries (store lru engine key new_asset loop).1.inner
              ≡ take (cap loop.guard) ((key, new_asset) ∷ erase key (entries loop.guard)))
    unfolding store
    store_room loop room =
        let sum = usize_add_lem loop.memory (length body) (omega (arith, v.half)) in
        rw
          (
            le→leb (usize_add loop.memory (length body)) engine.max_capacity_bytes
                (omega (arith, sum)),
            store,
          )
          (refl, lru.put_entries key new_asset loop.guard)

    -- On a valid engine with sound locks, where the body is within the file limit and the leaked
    -- bytes leave room for it, `insert` stores the body's asset in front of the entries that it
    -- keeps. What it evicts is the shortest end of the entries in the order of use that makes room,
    -- and the result counts exactly those bytes and items.
    pub insert_succeeds :
        length body ≤ engine.max_file_size_bytes
        → leaked + length body ≤ engine.max_capacity_bytes
        → (engine.inner_poisoned || engine.memory_poisoned) ≡ false
        → (kept evicted : Entries H) × (entries engine.inner ≡ kept ++ evicted)
          × Needed (length body) engine.max_capacity_bytes leaked kept evicted
          × (outcome.0 ≡ inserted_result (total evicted) (length evicted))
          × (entries outcome.1.inner ≡ take (cap engine.inner) ((key, new_asset) ∷ erase key kept))
    insert_succeeds small fits sound =
        let size_fits : length body ≤ engine.max_capacity_bytes = omega arith in
        let loop = after_eviction lru engine (length body) in
        let e = after_eviction-Evicts (length body) size_fits in
        let room : loop.memory + length body ≤ engine.max_capacity_bytes =
          after_room leaked (length body) engine.max_capacity_bytes (entries loop.guard) e.ends
            e.accounted fits in
        let (result, stored) = store_room loop room in
        (
          entries loop.guard,
          e.evicted,
          e.splits,
          e.needed,
          ap (λ r. r.0) (insert_late small size_fits sound)
              ∙ result
              ∙ ap₂ inserted_result (omega (arith, e.bytes)) (omega (arith, e.items)),
          ap (λ r. entries r.1.inner) (insert_late small size_fits sound)
              ∙ stored
              ∙ ap (λ n. take n ((key, new_asset) ∷ erase key (entries loop.guard))) e.same_cap,
        )

    -- On a valid engine with sound locks whose entries have reached the crate's limit, inserting a
    -- new key whose body is within the file limit and fits without an eviction reports nothing
    -- evicted, and the byte count then exceeds the stored entries by the bytes of the least
    -- recently used entry besides those leaked before.
    pub insert_leaks :
        (e : Text × CachedAsset H)
        → length body ≤ engine.max_file_size_bytes
        → engine.current_memory_bytes + length body ≤ engine.max_capacity_bytes
        → (engine.inner_poisoned || engine.memory_poisoned) ≡ false
        → length (entries engine.inner) ≡ cap engine.inner
        → lookup key (entries engine.inner) ≡ none
        → get_last? (entries engine.inner) ≡ some e
        → (outcome.0 ≡ inserted_result 0 0)
          × (outcome.1.current_memory_bytes
              ≡ total (entries outcome.1.inner) + leaked + e.1.size_bytes)
    insert_leaks e small room sound full absent last =
        let l = entries engine.inner in
        let start = loop_start lru engine in
        let fits : length body ≤ engine.max_capacity_bytes = omega arith in
        let path : outcome ≡ store lru engine key new_asset start =
          insert_late small fits sound
          ∙ ap (store lru engine key new_asset) (
              evict_room lru (length body) engine.max_capacity_bytes leaked fits v.half
                (lru.len engine.inner) start room) in
        let stored =
          store-IsValid lru engine key new_asset leaked start v.accounted v.half v.capped
            v.small_cap v.within fits in
        let sum = usize_add_lem engine.current_memory_bytes (length body) (omega (arith, v.half)) in
        let cut : total (drop (cap engine.inner) ((key, new_asset) ∷ erase key l))
            ≡ e.1.size_bytes =
          rw (erase_absent key l absent, ← full, drop-cons (key, new_asset) l e last)
            (omega arith) in
        let lost =
          if_true
            (leb (usize_add engine.current_memory_bytes (length body)) engine.max_capacity_bytes)
            (total (drop (cap engine.inner) ((key, new_asset) ∷ erase key l)))
            (le→leb _ _ (omega (arith, sum))) in
        (
          ap (λ r. r.0) path ∙ (store_room start room).0,
          subst
              (λ r. r.1.current_memory_bytes ≡ total (entries r.1.inner) + leaked + e.1.size_bytes)
              (sym path) (omega (arith, stored.accounted, lost, cut)),
        )
