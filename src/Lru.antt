-- ===== src/Lru.antt =====
-- The crate `lru`, as src/cache.rs uses it: a bounded map whose entries stand in the order of their
-- last use. `entries` is its `iter`, the most recently used first.
pub mod Listed
use barebones_reverse_proxy.Prelude.{
  ℕ, zero, suc, ◌≡◌, Bool, true, false, Option, none, some, List, [], ◌∷◌, if◌then◌else◌, length,
  take, Text, text_eq,
}

module _ {V : Type 0} where
  unfoldable pub lookup : Text → List (Text × V) → Option V
  lookup k [] = none
  lookup k ((j, v) ∷ l) = if text_eq j k then some v else lookup k l

  unfoldable pub erase : Text → List (Text × V) → List (Text × V)
  erase k [] = []
  erase k ((j, v) ∷ l) = let rest = erase k l in if text_eq j k then l else (j, v) ∷ rest

  unfoldable pub touch : Text → List (Text × V) → List (Text × V)
  unfolding lookup erase
  touch k l = elim (lookup k l) [ none ↦ l | some v ↦ (k, v) ∷ erase k l ]

  unfoldable pub get_last? : List (Text × V) → Option (Text × V)
  get_last? [] = none
  get_last? (e ∷ []) = some e
  get_last? (e ∷ f ∷ l) = get_last? (f ∷ l)

  unfoldable pub drop_last : List (Text × V) → List (Text × V)
  drop_last [] = []
  drop_last (e ∷ []) = []
  drop_last (e ∷ f ∷ l) = e ∷ drop_last (f ∷ l)

-- What the crate documents. `put` on a full cache drops the least recently used entry and does not
-- return it: it returns the old value of the same key, if there was one.
pub record LruCache (V : Type 0) : Type 1 where
  pub Cache : Type 0
  pub new : ℕ → Cache
  pub cap : Cache → ℕ
  pub len : Cache → ℕ
  pub get_mut : Text → Cache → Option V × Cache
  pub pop : Text → Cache → Option V × Cache
  pub pop_lru : Cache → Option (Text × V) × Cache
  pub put : Text → V → Cache → Option V × Cache
  pub entries : Cache → List (Text × V)
  pub new_entries : (n : ℕ) → entries (new n) ≡ []
  pub new_cap : (n : ℕ) → cap (new n) ≡ n
  pub len_lem : (c : Cache) → len c ≡ length (entries c)
  pub get_mut_result : (k : Text) (c : Cache) → (get_mut k c).0 ≡ lookup k (entries c)
  pub get_mut_entries : (k : Text) (c : Cache) → entries (get_mut k c).1 ≡ touch k (entries c)
  pub get_mut_cap : (k : Text) (c : Cache) → cap (get_mut k c).1 ≡ cap c
  pub pop_entries : (k : Text) (c : Cache) → entries (pop k c).1 ≡ erase k (entries c)
  pub pop_cap : (k : Text) (c : Cache) → cap (pop k c).1 ≡ cap c
  pub pop_lru_result : (c : Cache) → (pop_lru c).0 ≡ get_last? (entries c)
  pub pop_lru_entries : (c : Cache) → entries (pop_lru c).1 ≡ drop_last (entries c)
  pub pop_lru_cap : (c : Cache) → cap (pop_lru c).1 ≡ cap c
  pub put_result : (k : Text) (v : V) (c : Cache) → (put k v c).0 ≡ lookup k (entries c)
  pub put_entries :
      (k : Text) (v : V) (c : Cache)
      → entries (put k v c).1 ≡ take (cap c) ((k, v) ∷ erase k (entries c))
  pub put_cap : (k : Text) (v : V) (c : Cache) → cap (put k v c).1 ≡ cap c
