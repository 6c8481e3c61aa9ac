-- ===== src/Cache/Loop.antt =====
-- src/cache.rs, the eviction loop of `insert`: what it evicts, that it ends by its own test, and that
-- it evicts no more than it has to.
use mathlib.Core.List.{append_assoc}
use barebones_reverse_proxy.Prelude.{
  ℕ, zero, suc, ◌+◌, ◌≤◌, ◌<◌, ◌≡◌, ◌⊎◌, inl, inr, refl, sym, ap, ◌∙◌, false, not, ◌&&◌, List, [],
  ◌∷◌, ◌++◌, ltb, ◌==◌, Bool-cases, Option-cases, tests, le→ltb, &&-true, length, length-append,
  Text, arith, usize_add, usize_add_lem, word_mod, append-nil,
}
use barebones_reverse_proxy.Lru.{LruCache}
use barebones_reverse_proxy.Cache
use barebones_reverse_proxy.Cache.{CachedAsset, popped, evict}
use barebones_reverse_proxy.Cache.Entries.{
  Entries, total, total-append, append-drop_last, nil_of_get_last?,
}

-- The entries fit behind which the new ones do not: `evicted` is the shortest end of the entries, in
-- the order of use, without which `size` bytes fit.
abbrev pub Needed : {H : Type 0} → (size max leaked : ℕ) → Entries H → Entries H → Type 0
Needed size max leaked kept [] = Unit
Needed size max leaked kept (e ∷ evicted) = max < total kept + e.1.size_bytes + leaked + size

Needed-append :
    {H : Type 0} (size max leaked : ℕ) (kept xs ys : Entries H)
    → Needed size max leaked kept xs
    → (xs ≡ [] → Needed size max leaked kept ys)
    → Needed size max leaked kept (xs ++ ys)
Needed-append size max leaked kept [] ys n m = m refl
Needed-append size max leaked kept (x ∷ xs) ys n m = n

module _ {H : Type 0} (lru : LruCache (CachedAsset H)) (size max : ℕ) where
  open lru use {entries, cap, len, pop_lru}

  -- What the loop has done between two states, where `leaked` bytes are counted for no entry.
  pub record Evicts (leaked : ℕ) (before after : Cache.Eviction lru) : Type 0 where
    pub evicted : Entries H
    pub splits : entries before.guard ≡ entries after.guard ++ evicted
    pub accounted : after.memory ≡ total (entries after.guard) + leaked
    pub bytes : after.bytes_evicted ≡ before.bytes_evicted + total evicted
    pub items : after.items_evicted ≡ before.items_evicted + length evicted
    pub same_cap : cap after.guard ≡ cap before.guard
    pub needed : Needed size max leaked (entries after.guard) evicted
    pub ends : (total (entries after.guard) + leaked + size ≤ max) ⊎ (entries after.guard ≡ [])

  stops :
      (leaked : ℕ) (loop : Cache.Eviction lru)
      → loop.memory ≡ total (entries loop.guard) + leaked
      → (total (entries loop.guard) + leaked + size ≤ max) ⊎ (entries loop.guard ≡ [])
      → Evicts leaked loop loop
  stops leaked loop m e = record {
    evicted = [];
    splits = sym (append-nil (entries loop.guard));
    accounted = m;
    bytes = omega arith;
    items = omega arith;
    same_cap = refl;
    needed = tt;
    ends = e;
  }

  -- One round more in front.
  pops :
      (leaked : ℕ) (k : Text) (a : CachedAsset H) (before after : Cache.Eviction lru)
      → entries before.guard ≡ entries (pop_lru before.guard).1 ++ ((k, a) ∷ [])
      → max < total (entries before.guard) + leaked + size
      → before.bytes_evicted + a.size_bytes < word_mod
      → before.items_evicted + 1 < word_mod
      → Evicts leaked (popped lru before a.size_bytes) after
      → Evicts leaked before after
  pops leaked k a before after split full bytes_fit items_fit e = record {
    evicted = e.evicted ++ ((k, a) ∷ []);
    splits = split ∙ rw e.splits (append_assoc (entries after.guard) e.evicted ((k, a) ∷ []));
    accounted = e.accounted;
    bytes = omega (
      arith,
      total-append e.evicted ((k, a) ∷ []),
      e.bytes,
      usize_add_lem before.bytes_evicted a.size_bytes bytes_fit,
    );
    items = omega (
      arith,
      length-append e.evicted ((k, a) ∷ []),
      e.items,
      usize_add_lem before.items_evicted 1 items_fit,
    );
    same_cap = e.same_cap ∙ lru.pop_lru_cap before.guard;
    needed =
        Needed-append size max leaked (entries after.guard) e.evicted ((k, a) ∷ []) e.needed
          (λ none_yet. omega (
            arith,
            full,
            ap total split,
            total-append (entries (pop_lru before.guard).1) ((k, a) ∷ []),
            ap total (
                e.splits
                ∙ ap (◌++◌ (entries after.guard)) none_yet
                ∙ append-nil (entries after.guard)),
          ));
    ends = e.ends;
  }

nil_of_length {ℓ} : {A : Type ℓ} (l : List A) → length l ≡ 0 → l ≡ []
nil_of_length [] h = refl
nil_of_length (x ∷ l) h = absurd (omega arith)

test_false : (max x n : ℕ) → (ltb max x && not (n == 0)) ≡ false → (x ≤ max) ⊎ (n ≡ 0)
test_false max x n h = ground arith

-- What the loop starts from: the bytes are counted, and no sum in it wraps.
pub record Counted {H : Type 0} (lru : LruCache (CachedAsset H)) (max leaked : ℕ)
    (loop : Cache.Eviction lru) : Type 0 where
  pub memory : loop.memory ≡ total (LruCache.entries lru loop.guard) + leaked
  pub within : loop.memory ≤ max
  pub bytes : loop.bytes_evicted + total (LruCache.entries lru loop.guard) < word_mod
  pub items : loop.items_evicted + length (LruCache.entries lru loop.guard) < word_mod

module _ {H : Type 0} (lru : LruCache (CachedAsset H)) (size max leaked : ℕ)
    (size_fits : size ≤ max) (half : max + max < word_mod) where
  open lru use {entries, cap, len, pop_lru}

  popped-Counted :
      (k : Text) (a : CachedAsset H) (loop : Cache.Eviction lru)
      → entries loop.guard ≡ entries (pop_lru loop.guard).1 ++ ((k, a) ∷ [])
      → Counted lru max leaked loop
      → Counted lru max leaked (popped lru loop a.size_bytes)
        × (length (entries loop.guard) ≡ length (entries (pop_lru loop.guard).1) + 1)
        × (total (entries loop.guard) ≡ total (entries (pop_lru loop.guard).1) + a.size_bytes)
  popped-Counted k a loop split c =
      let t : total (entries loop.guard) ≡ total (entries (pop_lru loop.guard).1) + a.size_bytes =
        omega
          (arith, ap total split, total-append (entries (pop_lru loop.guard).1) ((k, a) ∷ [])) in
      let l : length (entries loop.guard) ≡ length (entries (pop_lru loop.guard).1) + 1 =
        omega
          (arith, ap length split, length-append (entries (pop_lru loop.guard).1) ((k, a) ∷ [])) in
      (
        record {
          memory = omega (arith, c.memory);
          within = omega (arith, c.within);
          bytes = omega (
            arith,
            c.bytes,
            usize_add_lem loop.bytes_evicted a.size_bytes (omega (arith, c.bytes)),
          );
          items =
              omega (arith, c.items, usize_add_lem loop.items_evicted 1 (omega (arith, c.items)));
        },
        l,
        t,
      )

  room :
      (loop : Cache.Eviction lru)
      → usize_add loop.memory size ≡ loop.memory + size
      → loop.memory ≡ total (entries loop.guard) + leaked
      → (usize_add loop.memory size ≤ max) ⊎ (len loop.guard ≡ 0)
      → (total (entries loop.guard) + leaked + size ≤ max) ⊎ (entries loop.guard ≡ [])
  room loop sum m (inl fits) = inl (omega arith)
  room loop sum m (inr none_left) =
      inr (nil_of_length (entries loop.guard) (sym (lru.len_lem loop.guard) ∙ none_left))

  pub evict-Evicts :
      (fuel : ℕ) (loop : Cache.Eviction lru)
      → Counted lru max leaked loop
      → length (entries loop.guard) ≤ fuel
      → Evicts lru size max leaked loop (evict lru fuel size max loop)
  unfolding evict
  evict-Evicts zero loop c enough =
      stops lru size max leaked loop c.memory
        (inr (nil_of_length (entries loop.guard) (omega arith)))
  evict-Evicts (suc fuel) loop c enough =
      let sum = usize_add_lem loop.memory size (omega (arith, c.within)) in
      elim (Bool-cases (ltb max (usize_add loop.memory size) && not (len loop.guard == 0))) [
        | inr done ↦
            rw (done, evict)
              (stops lru size max leaked loop c.memory (
                room loop sum c.memory
                  (test_false max (usize_add loop.memory size) (len loop.guard) done)))
        | inl more ↦ elim (Option-cases (pop_lru loop.guard).0) [
          | inl nothing ↦ absurd (
              ground (
                arith,
                lru.len_lem loop.guard,
                nil_of_get_last? (entries loop.guard)
                    (sym (lru.pop_lru_result loop.guard) ∙ nothing),
              ))
          | inr ((k, a), found) ↦
              let split : entries loop.guard ≡ entries (pop_lru loop.guard).1 ++ ((k, a) ∷ []) =
                append-drop_last (entries loop.guard) (k, a)
                  (sym (lru.pop_lru_result loop.guard) ∙ found)
                ∙ ap (λ l. l ++ ((k, a) ∷ [])) (sym (lru.pop_lru_entries loop.guard)) in
              let (c', l, t) = popped-Counted k a loop split c in
              rw (more, evict, found)
                (pops lru size max leaked k a loop _ split
                  (omega (
                    tests,
                    sum,
                    c.memory,
                    (&&-true (ltb max (usize_add loop.memory size)) (not (len loop.guard == 0))
                        more).0,
                  ))
                  (omega (arith, c.bytes, t)) (omega (arith, c.items, l))
                  (evict-Evicts fuel (popped lru loop a.size_bytes) c' (omega arith)))
        ]
      ]

  -- With room enough the loop does nothing.
  pub evict_room :
      (fuel : ℕ) (loop : Cache.Eviction lru)
      → loop.memory + size ≤ max
      → evict lru fuel size max loop ≡ loop
  unfolding evict
  evict_room zero loop room_left = refl
  evict_room (suc fuel) loop room_left =
      let sum = usize_add_lem loop.memory size (omega arith) in
      rw (le→ltb max (usize_add loop.memory size) (omega (arith, sum)), evict)
