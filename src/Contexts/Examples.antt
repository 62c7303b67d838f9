-- ===== src/Contexts/Examples.antt =====
-- Tests of `Context` in src/zuku/defer.h where an event is the time at which it triggers.
use zuku.Base.{ℕ, ◌≡◌, refl, false, none, some, [], ◌∷◌, arith}
use zuku.Contexts.{
  launch_of, Context, has_value, is_processor, after, on, drop, field_value, sync_to, is_event,
  drop_lvalue, is_group, on_group,
}
use zuku.Tasks.{Launch}
use zuku.Contexts.Drop.{drop-kinds}

abbrev two_events : Context ℕ
two_events = after 9 (on 2 (after 4 (sync_to [] [])))

dropped_test :
    (has_value is_processor (drop is_processor two_events) ≡ false)
    × (field_value is_event (drop is_processor two_events) ≡ field_value is_event two_events)
dropped_test = drop-kinds is_event is_processor two_events (λ e. ground arith)

-- Of two events that a task is to start after, the newer one counts.
newer_test : Launch.after (launch_of 0 two_events) ≡ some 9
unfolding launch_of
newer_test = refl

processor_test : Launch.processor (launch_of 0 two_events) ≡ 2
unfolding launch_of
processor_test = refl

-- The overload for a context that is kept does not compile where another field stays.
lvalue_test : drop_lvalue is_processor two_events ≡ none
unfolding drop_lvalue
lvalue_test = refl

group_test : drop_lvalue is_group (on_group {E = ℕ} (1 ∷ 2 ∷ []) []) ≡ some []
unfolding drop_lvalue
group_test = refl
