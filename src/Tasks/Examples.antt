-- ===== src/Tasks/Examples.antt =====
-- Tests of src/zuku/defer.h where an event is the time at which it triggers.
use zuku.Base.{
  ℕ, ◌≤◌, ◌≡◌, refl, sym, subst, inl, inr, false, Option, none, some, List, [], ◌∷◌, arith, Result,
  ok, err,
}
use zuku.Tasks.{Launch, Token, Argument, defer, by_reference, ro_vector, as_store, plain}
use zuku.Store.Access.{Access, done, write, read}
use zuku.Store.{Store}
use zuku.Tasks.Order.{StartsAfter, run_call, deferred_in_order, DeferCall}
use zuku.Tasks.Order.{Launched}
use zuku.Store.Times.{times, times-EventOrder}
use zuku.Store.Views.{Among}

abbrev fresh : Store ℕ
fresh = record {
  has_parent = false;
  parent_notification = none;
  child_rw = none;
  war = none;
  value = some 0;
}

abbrev context : Launch ℕ
context = record {
  processor = 0;
  devices = none;
  control = none;
  stream_ordered = false;
  after = none;
  barrier = some [];
}

-- A task that ends at a time and returns nothing.
abbrev task : ℕ → List (Argument ℕ) → DeferCall ℕ
task effects arguments = record {
  context = context;
  effects = effects;
  arguments = arguments;
  returned = [];
}

abbrev writer : DeferCall ℕ
writer = task 5 (by_reference 0 ∷ [])

abbrev reader : DeferCall ℕ
reader = task 8 (ro_vector (0 ∷ 1 ∷ []) ∷ plain ∷ [])

abbrev next_writer : DeferCall ℕ
next_writer = task 9 (as_store 1 12 ∷ by_reference 0 ∷ [])

-- Every use ends after the start if all of two do.
two_uses :
    (start : ℕ) (u v : ℕ × Access ℕ)
    → start ≤ done u.1
    → start ≤ done v.1
    → (x : ℕ × Access ℕ) → Among x (u ∷ v ∷ [])
    → start ≤ done x.1
two_uses start u v h k x (inl e) = subst (λ (y : ℕ × Access ℕ). start ≤ done y.1) (sym e) h
two_uses start u v h k x (inr (inl e)) = subst (λ (y : ℕ × Access ℕ). start ≤ done y.1) (sym e) k
two_uses start u v h k x (inr (inr e)) = absurd e

one_use :
    (start : ℕ) (u : ℕ × Access ℕ)
    → start ≤ done u.1
    → (x : ℕ × Access ℕ) → Among x (u ∷ [])
    → start ≤ done x.1
one_use start u h x m = two_uses start u u h h x (inr m)

tasks-Launched :
    Launched times (λ a b. a ≤ b) times-EventOrder (writer ∷ reader ∷ next_writer ∷ []) (λ i. fresh)
unfolding Launched defer
tasks-Launched = (
  (refl, one_use 0 (0, write 5 5) (omega arith)),
  (
    (refl, two_uses 5 (0, read 8 8) (1, read 8 8) (omega arith) (omega arith)),
    ((refl, two_uses 8 (1, write 12 12) (0, write 9 9) (omega arith) (omega arith)), tt),
  ),
)

deferred_in_order_example :
    StartsAfter times
      (λ a b. a ≤ b)
      times-EventOrder
      5
      (writer ∷ reader ∷ [])
      next_writer
      (λ i. fresh)
deferred_in_order_example =
    deferred_in_order times (λ a b. a ≤ b) times-EventOrder writer next_writer (reader ∷ [])
      (λ i. fresh) 0 (write 5 5) (write 9 9) tasks-Launched (inl refl) (inr (inl refl)) refl

barrier_of : Result (Token ℕ) → Option (List ℕ)
barrier_of (ok token) = token.barrier
barrier_of (err e) = none

-- The end of a task is added to the barrier of its context.
barrier_test : barrier_of (run_call times writer (λ i. fresh)) ≡ some (5 ∷ [])
unfolding barrier_of defer
barrier_test = refl
