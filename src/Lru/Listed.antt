-- ===== src/Lru/Listed.antt =====
-- The interface to the crate `lru`, met by a list of entries that is cut at a capacity.
use barebones_reverse_proxy.Prelude.{ℕ, refl, List, [], ◌∷◌, length, take, Text}
use barebones_reverse_proxy.Lru.{LruCache, lookup, erase, touch, get_last?, drop_last}

pub record Bounded (V : Type 0) : Type 0 where
  pub limit : ℕ
  pub items : List (Text × V)

abbrev pub listed : (V : Type 0) → LruCache V
listed V = record {
  Cache = Bounded V;
  new = λ n. record { limit = n; items = [] };
  cap = λ c. c.limit;
  len = λ c. length c.items;
  get_mut = λ k c. (lookup k c.items, record c { items = touch k c.items });
  pop = λ k c. (lookup k c.items, record c { items = erase k c.items });
  pop_lru = λ c. (get_last? c.items, record c { items = drop_last c.items });
  put = λ k v c. (lookup k c.items, record c { items = take c.limit ((k, v) ∷ erase k c.items) });
  entries = λ c. c.items;
  new_entries = λ n. refl;
  new_cap = λ n. refl;
  len_lem = λ c. refl;
  get_mut_result = λ k c. refl;
  get_mut_entries = λ k c. refl;
  get_mut_cap = λ k c. refl;
  pop_entries = λ k c. refl;
  pop_cap = λ k c. refl;
  pop_lru_result = λ c. refl;
  pop_lru_entries = λ c. refl;
  pop_lru_cap = λ c. refl;
  put_result = λ k v c. refl;
  put_entries = λ k v c. refl;
  put_cap = λ k v c. refl;
}
