-- ===== src/Futures/Fulfil.antt =====
-- What a future gives once its promise is fulfilled: src/zuku/future.h and src/zuku/promise.h.
use zuku.Base.{
  ℕ, suc, ◌≡◌, refl, sym, subst, inl, inr, true, Option, none, some, List, [], ◌∷◌, arith, ◌==◌,
  bad_access, ok, err,
}
use zuku.Store.{Events}
use zuku.Futures.{
  create_deferred_promise, future_view, create_deferred_future, Future, future_precondition,
  fulfill_promise, Pointer, get_value, future_after, Shared, future_has_precondition, to_future,
  to_value, Fulfilled, with_war, set_future, merge_reader, create_empty, emplace_place,
}
use zuku.Store.Order.{EventOrder}
use zuku.Store.Views.{Among}

number_itself : (p : ℕ) → (p == p) ≡ true
number_itself p = ground arith

-- Let a task promise a future and give out a future of its promise, and let it then return a future
-- whose value is in place. Fulfilling the promise works: the future that was given out has the value,
-- through at most one pointer, and its event is triggered not before the returned future's precondition.
pub fulfill-get_value :
    {E : Type 0} (es : Events E) (user : E) (p place v fuel : ℕ) (s : Shared E) (f : Future E)
    → future_has_precondition f ≡ true
    → f.value ≡ to_value place
    → s.places place ≡ some v
    → let made = create_deferred_promise user p s in
      (given : Future E) × (done : Fulfilled E) × (create_deferred_future made.0 ≡ ok given)
      × (fulfill_promise es f made.0 made.1 ≡ ok done)
      × (get_value (suc fuel) done.shared given.value ≡ ok v)
      × (given.precondition ≡ some done.event)
      × (done.after ≡ future_precondition es f)
unfolding create_deferred_promise create_deferred_future fulfill_promise get_value
fulfill-get_value es user p place v fuel s f has at_place held =
    let empty = set_future p create_empty s in
    (
      future_after user (to_future (some p)),
      record {
        promise = record { deferred_event = some user; value = to_future (some p) };
        shared = set_future p (emplace_place place (empty.futures p)) empty;
        event = user;
        after = future_precondition es f;
      },
      refl,
      rw (has, at_place) refl,
      rw (get_value, number_itself p, get_value, held) refl,
      refl,
      refl,
    )

-- The defect: let a task promise a future, give one out, and then return a future that points to
-- another future. The promise is fulfilled, and the given future's event is triggered, but the given
-- future stays empty, whatever the other one holds.
pub fulfill-empty :
    {E : Type 0} (es : Events E) (user : E) (p fuel : ℕ) (other : Option ℕ) (s : Shared E)
    (f : Future E)
    → future_has_precondition f ≡ true
    → f.value ≡ to_future other
    → let made = create_deferred_promise user p s in
      (given : Future E) × (done : Fulfilled E) × (create_deferred_future made.0 ≡ ok given)
      × (fulfill_promise es f made.0 made.1 ≡ ok done)
      × (get_value (suc fuel) done.shared given.value ≡ err bad_access)
      × (given.precondition ≡ some done.event)
unfolding create_deferred_promise create_deferred_future fulfill_promise get_value
fulfill-empty es user p fuel other s f has points = (
  future_after user (to_future (some p)),
  record {
    promise = record { deferred_event = some user; value = to_future other };
    shared = set_future p create_empty s;
    event = user;
    after = future_precondition es f;
  },
  refl,
  rw (has, points) refl,
  rw (get_value, number_itself p) refl,
  refl,
)

-- Readers of a future, each with the event of its end.
pub read_all : {E : Type 0} → Events E → List E → Future E → Future E
unfolding future_view
read_all es [] f = f
read_all es (e ∷ events) f = read_all es events (future_view es e f).1

module _ {E : Type 0} (es : Events E) (before : E → E → Type 0) (o : EventOrder es before) where
  -- What the war precondition covers stays covered.
  war-read_all :
      (x war : E) (readers : List E) (f : Future E)
      → f.war_precondition ≡ some war
      → before x war
      → before x (future_precondition es (read_all es readers f))
  unfolding read_all future_view
  war-read_all x war [] f e b = unfold future_precondition in rw e b
  war-read_all x war (r ∷ readers) f e b =
      war-read_all x (es.merge war r) readers (with_war es r f) (rw e refl)
        (o.chain _ _ _ b (o.merge_left war r))

  reader_known : (r : E) (war : Option E) → before r (merge_reader es r war)
  reader_known r none = o.same r
  reader_known r (some war) = o.merge_right war r

  among-read_all :
      (e : E) (readers : List E) (f : Future E)
      → Among e readers
      → before e (future_precondition es (read_all es readers f))
  unfolding read_all future_view
  among-read_all e [] f m = absurd m
  among-read_all e (r ∷ readers) f (inl same) =
      war-read_all e (merge_reader es r f.war_precondition) readers (with_war es r f) refl (
        subst (λ y. before y (merge_reader es r f.war_precondition)) (sym same)
          (reader_known r f.war_precondition))
  among-read_all e (r ∷ readers) f (inr m) = among-read_all e readers (with_war es r f) m

  -- Let a future be read by tasks that end after its precondition. Whoever waits for the future
  -- afterwards waits for the precondition and for the end of every reader.
  pub precondition-read_all :
      (ev : E) (value : Pointer) (readers : List E)
      → ((e : E) → Among e readers → before ev e)
      → before ev (future_precondition es (read_all es readers (future_after ev value)))
        × ((e : E)
            → Among e readers
            → before e (future_precondition es (read_all es readers (future_after ev value))))
  unfolding read_all future_view
  precondition-read_all ev value [] l = (unfold future_precondition in o.same ev, λ e m. absurd m)
  precondition-read_all ev value (r ∷ readers) l = (
    war-read_all ev r readers (with_war es r (future_after ev value)) refl (l r (inl refl)),
    λ e m. among-read_all e (r ∷ readers) (future_after ev value) m,
  )
