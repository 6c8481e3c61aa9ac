-- ===== src/Cache/Runs.antt =====
-- src/cache.rs: the engine after any calls of `get` and `insert`, in the order of their locks.
use barebones_reverse_proxy.Prelude.{
  ℕ, ◌+◌, ◌<◌, ◌≡◌, refl, ◌∙◌, Option, false, List, [], ◌∷◌, Text, word_mod, arith,
}
use barebones_reverse_proxy.Lru.{LruCache}
use barebones_reverse_proxy.Cache.{CachedAsset, LruCacheEngine, new, get, insert, store}
use barebones_reverse_proxy.Cache.Accounting.{IsValid, new-IsValid, get-IsValid}
use barebones_reverse_proxy.Cache.Insert.{insert-IsValid}

-- A call with its arguments and the time of its clock.
pub data Operation (H : Type 0) : Type 0 where
  reading : Text → ℕ → Operation H
  writing : Text → ℕ → H → List ℕ → Option ℕ → ℕ → Operation H

module _ {H : Type 0} (lru : LruCache (CachedAsset H)) where
  unfoldable pub perform : Operation H → LruCacheEngine lru → LruCacheEngine lru
  perform (reading key now) engine = (get lru engine key now).1
  perform (writing key status headers body ttl_override now) engine =
      (insert lru engine key status headers body ttl_override now).1

  unfoldable pub perform_all : List (Operation H) → LruCacheEngine lru → LruCacheEngine lru
  perform_all [] engine = engine
  perform_all (o ∷ os) engine = perform_all os (perform o engine)

  -- No call poisons a lock.
  perform_lock :
      (o : Operation H) (engine : LruCacheEngine lru)
      → (perform o engine).memory_poisoned ≡ engine.memory_poisoned
  unfolding perform get insert store
  perform_lock (reading key now) engine = ground arith
  perform_lock (writing key status headers body ttl_override now) engine = ground arith

  perform-IsValid :
      (o : Operation H) (leaked : ℕ) (engine : LruCacheEngine lru)
      → engine.memory_poisoned ≡ false
      → IsValid lru leaked engine
      → (leaked' : ℕ) × IsValid lru leaked' (perform o engine)
  unfolding perform
  perform-IsValid (reading key now) leaked engine sound v =
      (leaked, get-IsValid lru leaked engine key v now sound)
  perform-IsValid (writing key status headers body ttl_override now) leaked engine sound v =
      let (lost, v', _) =
        insert-IsValid lru leaked engine v key status headers body ttl_override now in
      (leaked + lost, v')

  perform_all-IsValid :
      (os : List (Operation H)) (leaked : ℕ) (engine : LruCacheEngine lru)
      → engine.memory_poisoned ≡ false
      → IsValid lru leaked engine
      → (leaked' : ℕ) × IsValid lru leaked' (perform_all os engine)
  unfolding perform_all
  perform_all-IsValid [] leaked engine sound v = (leaked, v)
  perform_all-IsValid (o ∷ os) leaked engine sound v =
      let (leaked', v') = perform-IsValid o leaked engine sound v in
      perform_all-IsValid os leaked' (perform o engine) (perform_lock o engine ∙ sound) v'

  -- After any sequence of `get` and `insert` calls on a new engine whose capacity is below half the
  -- range of `usize`, the byte count is the sizes of the stored entries plus some number of leaked
  -- bytes, it is at most the capacity, and the number of entries is at most the crate's limit.
  pub new-perform_all-IsValid :
      (os : List (Operation H)) (max_capacity max_file ttl : ℕ)
      → max_capacity + max_capacity < word_mod
      → (leaked : ℕ) × IsValid lru leaked (perform_all os (new lru max_capacity max_file ttl))
  unfolding new
  new-perform_all-IsValid os max_capacity max_file ttl half =
      perform_all-IsValid os 0 (new lru max_capacity max_file ttl) refl
        (new-IsValid lru max_capacity max_file ttl half)
