-- ===== src/Futures.antt =====
-- src/zuku/future.h and src/zuku/promise.h: futures, the promises that fulfil them, and the shared
-- objects that both point to. A pointer is a number; what `std::make_shared` and Realm make, a pointer
-- or a user event, is an argument. A future's value is a natural number.
pub mod Fulfil
mod Examples
use zuku.Base.{
  ℕ, zero, suc, Bool, true, false, not, Option, none, some, List, [], ◌∷◌, ◌==◌, if◌then◌else◌,
  ◌>>=◌, Result, bad_access, unresolved_future, wrong_promise, out_of_fuel, ok, err,
}
use zuku.Store.{Events}

-- `Future<T>::Value`: a pointer to another future, null in a future that was made empty, or to the place
-- of a value.
pub data Pointer : Type 0 where
  to_future : (future : Option ℕ) → Pointer
  to_value : (place : ℕ) → Pointer

pub record Future (E : Type 0) : Type 0 where
  pub precondition : Option E
  pub war_precondition : Option E
  pub value : Pointer

-- The shared objects: futures, and places for a value, `std::optional<T>`.
pub record Shared (E : Type 0) : Type 0 where
  pub futures : ℕ → Future E
  pub places : ℕ → Option ℕ

abbrev pub set_future : {E : Type 0} → ℕ → Future E → Shared E → Shared E
set_future p f s = record { futures = λ q. if q == p then f else s.futures q; places = s.places }

abbrev pub set_place : {E : Type 0} → ℕ → Option ℕ → Shared E → Shared E
set_place p v s = record { futures = s.futures; places = λ q. if q == p then v else s.places q }

abbrev pub create_empty : {E : Type 0} → Future E
create_empty = record { precondition = none; war_precondition = none; value = to_future none }

-- `Future(ev, value)`
abbrev pub future_after : {E : Type 0} → E → Pointer → Future E
future_after ev value = record { precondition = some ev; war_precondition = none; value = value }

unfoldable pub future_has_precondition : {E : Type 0} → Future E → Bool
future_has_precondition f = elim f.precondition [
  | some e ↦ true
  | none ↦ elim f.war_precondition [ some e ↦ true | none ↦ false ]
]

-- `Future::Precondition`
unfoldable pub future_precondition : {E : Type 0} → Events E → Future E → E
future_precondition es f = elim f.war_precondition [
  | some e ↦ e
  | none ↦ elim f.precondition [ some e ↦ e | none ↦ es.no_event ]
]

abbrev pub has_deferred_value : {E : Type 0} → Future E → Bool
has_deferred_value f = elim f.value [ to_future p ↦ true | to_value p ↦ false ]

-- `Future::emplace`
abbrev pub emplace_place : {E : Type 0} → ℕ → Future E → Future E
emplace_place place f = record {
  precondition = f.precondition;
  war_precondition = f.war_precondition;
  value = to_value place;
}

abbrev pub present : Option ℕ → Result ℕ
present none = err bad_access
present (some v) = ok v

-- `Future::get_value`, along at most `fuel` pointers
unfoldable pub get_value : {E : Type 0} → ℕ → Shared E → Pointer → Result ℕ
get_value fuel s (to_value place) = present (s.places place)
get_value fuel s (to_future none) = err bad_access
get_value zero s (to_future (some p)) = err out_of_fuel
get_value (suc fuel) s (to_future (some p)) = get_value fuel s (Future.value (s.futures p))

-- A view of a future.
pub record FutureView (E : Type 0) : Type 0 where
  pub precondition : Option E
  pub war_dependency : Option E
  pub value : Pointer

abbrev pub merge_reader : {E : Type 0} → Events E → E → Option E → E
merge_reader es reader none = reader
merge_reader es reader (some war) = es.merge war reader

abbrev pub with_war : {E : Type 0} → Events E → E → Future E → Future E
with_war es reader f = record {
  precondition = f.precondition;
  war_precondition = some (merge_reader es reader f.war_precondition);
  value = f.value;
}

-- `Future::view()` with the user event that it creates
unfoldable pub open_future_view : {E : Type 0} → Events E → E → Future E → FutureView E × Future E
open_future_view es reader f = (
  record { precondition = f.precondition; war_dependency = some reader; value = f.value },
  with_war es reader f,
)

-- `Future::view(task_completion_ev)`
unfoldable pub future_view : {E : Type 0} → Events E → E → Future E → FutureView E × Future E
future_view es done f = (
  record { precondition = f.precondition; war_dependency = none; value = f.value },
  with_war es done f,
)

-- `View::value` on a view of a future
unfoldable pub view_value : {E : Type 0} → Shared E → FutureView E → Result ℕ
view_value s v = elim v.value [
  | to_future p ↦ err unresolved_future
  | to_value place ↦ present (s.places place)
]

pub record Promise (E : Type 0) : Type 0 where
  pub deferred_event : Option E
  pub value : Pointer

-- `create_concrete_promise`
unfoldable pub create_concrete_promise : {E : Type 0} → ℕ → Shared E → Promise E × Shared E
create_concrete_promise place s =
    (record { deferred_event = none; value = to_value place }, set_place place none s)

-- `create_deferred_promise`
unfoldable pub create_deferred_promise : {E : Type 0} → E → ℕ → Shared E → Promise E × Shared E
create_deferred_promise user p s =
    (record { deferred_event = some user; value = to_future (some p) }, set_future p create_empty s)

-- `create_concrete_future` and `create_deferred_future`
unfoldable pub create_concrete_future : {E : Type 0} → Promise E → E → Result (Future E)
create_concrete_future promise ev = elim promise.value [
  | to_future p ↦ err bad_access
  | to_value place ↦ ok (future_after ev (to_value place))
]

unfoldable pub create_deferred_future : {E : Type 0} → Promise E → Result (Future E)
create_deferred_future promise = elim promise.deferred_event [
  | none ↦ err bad_access
  | some user ↦ elim promise.value [
    | to_future p ↦ ok (future_after user (to_future p))
    | to_value place ↦ err bad_access
  ]
]

-- `Promise::emplace` of a value, of a future, and of the place of a value
unfoldable pub emplace_value : {E : Type 0} → ℕ → Promise E → Shared E → Result (Shared E)
emplace_value v promise s = elim promise.value [
  | to_future p ↦ err bad_access
  | to_value place ↦ ok (set_place place (some v) s)
]

abbrev pub emplace_future : {E : Type 0} → Option ℕ → Promise E → Promise E
emplace_future p promise = record { deferred_event = promise.deferred_event; value = to_future p }

abbrev pub emplace_shared : {E : Type 0} → ℕ → Promise E → Shared E → Result (Shared E)
emplace_shared place promise s = elim promise.value [
  | to_value q ↦ err bad_access
  | to_future none ↦ err bad_access
  | to_future (some p) ↦ ok (set_future p (emplace_place place (s.futures p)) s)
]

-- A promise that is fulfilled: the promise, the shared objects, and the user event that is triggered with
-- the event that must come before.
pub record Fulfilled (E : Type 0) : Type 0 where
  pub promise : Promise E
  pub shared : Shared E
  pub event : E
  pub after : E

abbrev pub fulfill_value :
    {E : Type 0} → E → E → Promise E → Shared E → Pointer → Result (Fulfilled E)
fulfill_value user after promise s (to_future p) =
    ok (record { promise = emplace_future p promise; shared = s; event = user; after = after })
fulfill_value user after promise s (to_value place) = do
  shared ← emplace_shared place promise s
  ok (record { promise = promise; shared = shared; event = user; after = after })

-- `FulfillPromise<Future<T>, Promise<T>>`
unfoldable pub fulfill_promise :
    {E : Type 0} → Events E → Future E → Promise E → Shared E → Result (Fulfilled E)
unfolding future_has_precondition future_precondition
fulfill_promise es f promise s = elim promise.deferred_event [
  | none ↦ err wrong_promise
  | some user ↦
      if not (future_has_precondition f)
      then err wrong_promise
      else fulfill_value user (future_precondition es f) promise s f.value
]

-- `FulfillPromise<T, Promise<T>>`
unfoldable pub fulfill_concrete : {E : Type 0} → ℕ → Promise E → Shared E → Result (Shared E)
unfolding emplace_value
fulfill_concrete v promise s = emplace_value v promise s

-- `FulfillPromise<Future<void>, Promise<void>>`: the event to trigger, and the one before it
unfoldable pub fulfill_void : {E : Type 0} → Events E → Future E → Option E → Result (E × E)
unfolding future_has_precondition future_precondition
fulfill_void es f deferred_event =
    if not (future_has_precondition f) then err wrong_promise else elim deferred_event [
      | none ↦ err bad_access
      | some user ↦ ok (user, future_precondition es f)
    ]

-- `FulfillPromises` on results that are values: one promise after another
unfoldable pub fulfill_promises : {E : Type 0} → List (ℕ × Promise E) → Shared E → Result (Shared E)
unfolding fulfill_concrete
fulfill_promises [] s = ok s
fulfill_promises ((v, promise) ∷ rest) s = fulfill_concrete v promise s >>= fulfill_promises rest
