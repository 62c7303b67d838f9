-- ===== src/Futures/Examples.antt =====
-- Tests of src/zuku/future.h and src/zuku/promise.h where an event is the time at which it triggers.
use zuku.Base.{
  ℕ, ◌≤◌, ◌≡◌, refl, inl, inr, none, some, [], ◌∷◌, arith, ◌>>=◌, Result, bad_access, ok, err,
}
use zuku.Store.Views.{Among}
use zuku.Futures.{
  Future, create_deferred_promise, future_precondition, create_concrete_promise, Shared,
  future_after, create_concrete_future, set_place, create_empty, fulfill_promises, to_value,
  Fulfilled, get_value, create_deferred_future, fulfill_promise, future_has_precondition, to_future,
}
use zuku.Store.Times.{times, times-EventOrder}
use zuku.Futures.Fulfil.{read_all, precondition-read_all, fulfill-get_value, fulfill-empty}

abbrev nothing_shared : Shared ℕ
nothing_shared = record { futures = λ p. create_empty; places = λ p. none }

abbrev returned : Future ℕ
returned = future_after 7 (to_value 3)

fulfill-get_value_example :
    let made = create_deferred_promise 20 0 (set_place 3 (some 42) nothing_shared) in
    (given : Future ℕ) × (finished : Fulfilled ℕ) × (create_deferred_future made.0 ≡ ok given)
    × (fulfill_promise times returned made.0 made.1 ≡ ok finished)
    × (get_value 5 finished.shared given.value ≡ ok 42)
    × (given.precondition ≡ some finished.event)
    × (finished.after ≡ future_precondition times returned)
fulfill-get_value_example =
    fulfill-get_value times 20 0 3 42 4 (set_place 3 (some 42) nothing_shared) returned
      (unfold future_has_precondition in refl) refl refl

after_five : (e : ℕ) → Among e (8 ∷ 6 ∷ []) → 5 ≤ e
after_five e (inl h) = omega arith
after_five e (inr (inl h)) = omega arith
after_five e (inr (inr h)) = absurd h

precondition-read_all_example :
    (5 ≤ future_precondition times (read_all times (8 ∷ 6 ∷ []) (future_after 5 (to_value 3))))
    × ((e : ℕ)
        → Among e (8 ∷ 6 ∷ [])
        → e ≤ future_precondition times (read_all times (8 ∷ 6 ∷ []) (future_after 5 (to_value 3))))
precondition-read_all_example =
    precondition-read_all times (λ a b. a ≤ b) times-EventOrder 5 (to_value 3) (8 ∷ 6 ∷ [])
      after_five

-- A value is put in the place that the future of the same promise points to.
value_through : Result ℕ
unfolding create_concrete_promise create_concrete_future fulfill_promises get_value
value_through =
    let made = create_concrete_promise 3 nothing_shared in
    do
      given ← create_concrete_future made.0 7
      shared ← fulfill_promises ((42, made.0) ∷ []) made.1
      get_value 0 shared given.value

value_through_test : value_through ≡ ok 42
unfolding value_through
value_through_test = refl

fulfill-empty_example :
    let made = create_deferred_promise 20 0 nothing_shared in
    (given : Future ℕ) × (finished : Fulfilled ℕ) × (create_deferred_future made.0 ≡ ok given)
    × (fulfill_promise times (future_after 7 (to_future (some 5))) made.0 made.1 ≡ ok finished)
    × (get_value 4 finished.shared given.value ≡ err bad_access)
    × (given.precondition ≡ some finished.event)
fulfill-empty_example =
    fulfill-empty times 20 0 3 (some 5) nothing_shared (future_after 7 (to_future (some 5)))
      (unfold future_has_precondition in refl) refl
