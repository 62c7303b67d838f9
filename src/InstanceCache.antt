-- ===== src/InstanceCache.antt =====
-- src/zuku/instance_cache.h: free values that are kept for reuse, in a queue for every key. What the
-- factory makes is an argument.
mod Examples
use zuku.Base.{
  ℕ, suc, ◌<◌, ◌≡◌, refl, inl, inr, Bool, true, Option, none, some, List, [], ◌∷◌, ◌++◌, arith, ltb,
  if◌then◌else◌, Bool-cases, length, Result, bad_access, ok, err,
}
use zuku.Queues.{find_queue, Queues, put_queue}

abbrev pub min_or : Option ℕ → ℕ
min_or none = 1
min_or (some n) = n

module _ {Key Value : Type 0} (same : Key → Key → Bool) where
  -- `front` and `pop`, on a queue that may be empty
  abbrev pub pop_value : Key → List Value → Queues Key Value → Result (Value × Queues Key Value)
  pop_value key [] values = err bad_access
  pop_value key (value ∷ rest) values = ok (value, put_queue same key rest values)

  -- `Get`. `values_[key]` makes the queue of a new key.
  unfoldable pub get :
      (Key → Value) → Key → Option ℕ → Queues Key Value → Result (Value × Queues Key Value)
  unfolding find_queue put_queue
  get factory key min_cache_size values =
      let cache : List Value = find_queue same key values in
      if ltb (length cache) (min_or min_cache_size)
      then ok (factory key, put_queue same key cache values)
      else pop_value key cache values

  -- `Free`
  unfoldable pub free : Key → Value → Queues Key Value → Queues Key Value
  unfolding find_queue put_queue
  free key value values = put_queue same key (find_queue same key values ++ (value ∷ [])) values

  -- `Clear`
  abbrev pub clear : Queues Key Value → Queues Key Value
  clear values = []

  -- With a least size other than 0, or none, `Get` never reads the front of an empty queue.
  pub get-defined :
      (factory : Key → Value) (key : Key) (min_cache_size : Option ℕ) (values : Queues Key Value)
      → 0 < min_or min_cache_size
      → (value : Value) × (left : Queues Key Value) × (get factory key min_cache_size values
          ≡ ok (value, left))
  unfolding get
  get-defined factory key min_cache_size values least = by_queue (find_queue same key values) refl
    where
      by_queue :
          (queue : List Value)
          → find_queue same key values ≡ queue
          → (value : Value) × (left : Queues Key Value) × (get factory key min_cache_size values
              ≡ ok (value, left))
      by_queue [] e =
          let empty : ltb 0 (min_or min_cache_size) ≡ true = ground arith in
          (factory key, put_queue same key [] values, rw (get, e, empty) refl)
      by_queue (value ∷ rest) e =
          elim (Bool-cases (ltb (suc (length rest)) (min_or min_cache_size))) [
            | inl few ↦
                (factory key, put_queue same key (value ∷ rest) values, rw (get, e, few) refl)
            | inr enough ↦ (value, put_queue same key rest values, rw (get, e, enough) refl)
          ]
