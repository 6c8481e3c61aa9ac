-- ===== src/Prelude/Maps.antt =====
-- `std::collections::HashMap` as the function from a key to its value, which is all that the
-- program asks of one: it looks up, inserts, removes and retains, and never walks the entries in
-- an order. Keys have a Boolean equality.
use mathlib.Core.Path.{◌≡◌, refl}
use mathlib.Core.Logic.{◌↔◌}
use mathlib.Core.Bool.{Bool, true, false}
use mathlib.Core.Option.{Option, none, some}
use barebones_reverse_proxy.Prelude.Tests.{if◌then◌else◌, ◌>>=?◌}

pub record Eq {ℓ} (A : Type ℓ) : Type ℓ where
  pub beq : A → A → Bool
  pub beq_iff : (x y : A) → (beq x y ≡ true) ↔ (x ≡ y)

abbrev pub HashMap {ℓ κ} : Type ℓ → Type κ → Type (ℓ ⊔ κ)
HashMap K V = K → Option V

module _ {ℓ κ} {K : Type ℓ} {V : Type κ} where
  abbrev pub empty : HashMap K V
  empty k = none

  -- `retain` with a closure that may also change the value: `none` drops the entry.
  abbrev pub retain_map : (V → Option V) → HashMap K V → HashMap K V
  retain_map f m k = m k >>=? f

module _ {ℓ κ} {K : Type ℓ} {V : Type κ} ⦃e : Eq K⦄ where
  unfoldable pub insert : K → V → HashMap K V → HashMap K V
  insert k v m j = if e.beq k j then some v else m j

  unfoldable pub remove : K → HashMap K V → HashMap K V
  remove k m j = if e.beq k j then none else m j

  pub insert_self : (k : K) (v : V) (m : HashMap K V) → insert k v m k ≡ some v
  unfolding insert
  insert_self k v m = rw ((e.beq_iff k k).1 refl)

  pub insert_ne : (k j : K) (v : V) (m : HashMap K V) → e.beq k j ≡ false → insert k v m j ≡ m j
  unfolding insert
  insert_ne k j v m h = rw h

  pub remove_self : (k : K) (m : HashMap K V) → remove k m k ≡ none
  unfolding remove
  remove_self k m = rw ((e.beq_iff k k).1 refl)

  pub remove_ne : (k j : K) (m : HashMap K V) → e.beq k j ≡ false → remove k m j ≡ m j
  unfolding remove
  remove_ne k j m h = rw h
