-- ===== src/Cache/Entries.antt =====
-- src/cache.rs: the bytes that a list of entries holds, under the crate's operations on it.
use barebones_reverse_proxy.Prelude.{
  ℕ, zero, suc, ◌+◌, ◌≤◌, ◌≡◌, refl, ap, none, some, List, [], ◌∷◌, ◌++◌, inl, inr, Option-cases,
  length, take, drop, Text, text_eq_iff, arith,
}
use barebones_reverse_proxy.Lru.{lookup, erase, touch, get_last?, drop_last}
use barebones_reverse_proxy.Cache.{CachedAsset}

abbrev pub Entries : Type 0 → Type 0
Entries H = List (Text × CachedAsset H)

module _ {H : Type 0} where
  abbrev pub total : Entries H → ℕ
  total [] = 0
  total (e ∷ l) = e.1.size_bytes + total l

  pub total-append : (xs ys : Entries H) → total (xs ++ ys) ≡ total xs + total ys
  total-append [] ys = omega arith
  total-append (x ∷ xs) ys = omega (arith, total-append xs ys)

  pub append-drop_last :
      (l : Entries H) (e : Text × CachedAsset H)
      → get_last? l ≡ some e
      → l ≡ drop_last l ++ (e ∷ [])
  unfolding get_last? drop_last
  append-drop_last [] e h = absurd (ground arith)
  append-drop_last (x ∷ []) e h = ground arith
  append-drop_last (x ∷ y ∷ l) e h = ap (◌∷◌ x) (append-drop_last (y ∷ l) e h)

  pub nil_of_get_last? : (l : Entries H) → get_last? l ≡ none → l ≡ []
  unfolding get_last?
  nil_of_get_last? [] h = refl
  nil_of_get_last? (x ∷ []) h = absurd (ground arith)
  nil_of_get_last? (x ∷ y ∷ l) h = absurd (ground (arith, nil_of_get_last? (y ∷ l) h))

  pub total-erase :
      (k : Text) (l : Entries H) (a : CachedAsset H)
      → lookup k l ≡ some a
      → total (erase k l) + a.size_bytes ≡ total l
  unfolding lookup erase
  total-erase k [] a h = absurd (ground arith)
  total-erase k ((j, b) ∷ l) a h = ground (arith, total-erase k l a)

  pub length-erase :
      (k : Text) (l : Entries H) (a : CachedAsset H)
      → lookup k l ≡ some a
      → length (erase k l) + 1 ≡ length l
  unfolding lookup erase
  length-erase k [] a h = absurd (ground arith)
  length-erase k ((j, b) ∷ l) a h = ground (arith, length-erase k l a)

  pub erase_absent : (k : Text) (l : Entries H) → lookup k l ≡ none → erase k l ≡ l
  unfolding lookup erase
  erase_absent k [] h = refl
  erase_absent k ((j, b) ∷ l) h = ground (arith, erase_absent k l)

  pub total-take : (n : ℕ) (l : Entries H) → total (take n l) ≤ total l
  total-take zero l = omega arith
  total-take (suc n) [] = omega arith
  total-take (suc n) (x ∷ l) = omega (arith, total-take n l)

  pub length-take-le : (n : ℕ) (l : Entries H) → length (take n l) ≤ n
  length-take-le zero l = omega arith
  length-take-le (suc n) [] = omega arith
  length-take-le (suc n) (x ∷ l) = omega (arith, length-take-le n l)

  -- A lookup sees through an erasure of the same key only what stands behind it.
  pub lookup_self : (k : Text) (a : CachedAsset H) (l : Entries H) → lookup k ((k, a) ∷ l) ≡ some a
  unfolding lookup
  lookup_self k a l = ground (arith, (text_eq_iff k k).1 refl)

  pub total-take-drop : (n : ℕ) (l : Entries H) → total (take n l) + total (drop n l) ≡ total l
  total-take-drop zero l = omega arith
  total-take-drop (suc n) [] = omega arith
  total-take-drop (suc n) (x ∷ l) = omega (arith, total-take-drop n l)

  pub drop_of_length-le : (n : ℕ) (l : Entries H) → length l ≤ n → drop n l ≡ []
  drop_of_length-le zero [] h = refl
  drop_of_length-le zero (x ∷ l) h = absurd (omega arith)
  drop_of_length-le (suc n) [] h = refl
  drop_of_length-le (suc n) (x ∷ l) h = drop_of_length-le n l (omega arith)

  pub length-erase-le : (k : Text) (l : Entries H) → length (erase k l) ≤ length l
  length-erase-le k l = elim (Option-cases (lookup k l)) [
    | inl e ↦ rw (erase_absent k l e) (omega arith)
    | inr (a, e) ↦ omega (arith, length-erase k l a e)
  ]

  pub total-erase-le : (k : Text) (l : Entries H) → total (erase k l) ≤ total l
  total-erase-le k l = elim (Option-cases (lookup k l)) [
    | inl e ↦ rw (erase_absent k l e) (omega arith)
    | inr (a, e) ↦ omega (arith, total-erase k l a e)
  ]

  -- A touch moves an entry and changes no sum.
  pub touch_sums :
      (k : Text) (l : Entries H) → (total (touch k l) ≡ total l) × (length (touch k l) ≡ length l)
  unfolding touch
  touch_sums k l = elim (Option-cases (lookup k l)) [
    | inl e ↦ rw (e, touch) (refl, refl)
    | inr (a, e) ↦
        rw (e, touch) (omega (arith, total-erase k l a e), omega (arith, length-erase k l a e))
  ]

  -- To erase what was just touched is to erase it.
  pub erase-touch : (k : Text) (l : Entries H) → erase k (touch k l) ≡ erase k l
  unfolding touch erase
  erase-touch k l = elim (Option-cases (lookup k l)) [
    | inl e ↦ rw (e, touch)
    | inr (a, e) ↦ rw (e, touch, (text_eq_iff k k).1 refl)
  ]

  -- One entry more than fits: the last one is cut.
  pub drop-cons :
      (x : Text × CachedAsset H) (l : Entries H) (e : Text × CachedAsset H)
      → get_last? l ≡ some e
      → drop (length l) (x ∷ l) ≡ e ∷ []
  unfolding get_last?
  drop-cons x [] e h = absurd (ground arith)
  drop-cons x (y ∷ []) e h = ground arith
  drop-cons x (y ∷ z ∷ l) e h = drop-cons y (z ∷ l) e h
