-- ===== src/Base/Outcome.antt =====
-- What a function of the source returns, or why it threw, aborted or failed an assertion.

pub data Error : Type 0 where
  -- `throw std::runtime_error` for a number of dimensions that Realm does not support
  unsupported_dims : Error
  -- `assert` does not hold
  assertion : Error
  -- a vector is read outside of its bounds
  out_of_range : Error
  -- a type of elements that no instance can hold
  unsupported_type : Error
  -- `throw AllocationFailure`
  allocation_failure : Error
  -- a sharding that does not fit the number of its devices
  wrong_sharding : Error
  -- the preconditions of a task are merged twice
  already_merged : Error
  -- a variant or an optional that holds something else, or a null pointer
  bad_access : Error
  -- the value of a view of a future that is not resolved
  unresolved_future : Error
  -- a promise without a user event, or a future without a precondition
  wrong_promise : Error
  -- a reshard for which there is no pattern
  unsupported_reshard : Error
  -- a division by zero
  division_by_zero : Error
  -- a coordinate of a rectangle that was not written is read
  unwritten : Error
  -- a template that does not compile
  ill_formed : Error
  -- the fuel of a loop ran out
  out_of_fuel : Error

pub data Result {ℓ} (A : Type ℓ) : Type ℓ where
  ok : A → Result A
  err : Error → Result A

infixl 5 ◌>>=◌
abbrev pub ◌>>=◌ {ℓ κ} : {A : Type ℓ} {B : Type κ} → Result A → (A → Result B) → Result B
ok a >>= f = f a
err e >>= f = err e
