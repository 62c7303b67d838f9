-- ===== src/Store/Views.antt =====
-- Views in src/zuku/future.h: views of a view, and what the destructor triggers.
use mathlib.Core.List.{append-nil, append_assoc}
use zuku.Base.{
  ◌≡◌, refl, sym, ap, ◌∙◌, subst, ◌⊎◌, inl, inr, Option, none, some, List, [], ◌∷◌, ◌++◌, map,
}
use zuku.Store.{Events, View}
use zuku.Store.Order.{EventOrder}

-- `merge_events` on a vector or a set of events
unfoldable pub merge_all : {E : Type 0} → Events E → List E → E
merge_all es [] = es.no_event
merge_all es (e ∷ events) = es.merge e (merge_all es events)

abbrev pub with_views : {E : Type 0} → List E → View E → View E
with_views views v = record {
  precondition = v.precondition;
  war_dependency = v.war_dependency;
  views = views;
  value = v.value;
}

-- `View::DoneAfter`
unfoldable pub done_after : {E : Type 0} → E → View E → View E
done_after event v = with_views (v.views ++ (event ∷ [])) v

-- `View::view(task_completion_ev)`: the new view, then this one
unfoldable pub subview : {E : Type 0} → E → View E → View E × View E
subview done v = (
  record { precondition = v.precondition; war_dependency = none; views = []; value = v.value },
  with_views (v.views ++ (done ∷ [])) v,
)

-- `View::view()` with the user event that it creates
unfoldable pub open_subview : {E : Type 0} → E → View E → View E × View E
open_subview release v = (
  record {
    precondition = v.precondition;
    war_dependency = some release;
    views = [];
    value = v.value;
  },
  with_views (v.views ++ (release ∷ [])) v,
)

-- `View(View&&)`: the new view, then the old one
unfoldable pub moved : {E : Type 0} → View E → View E × View E
moved v = (
  record {
    precondition = v.precondition;
    war_dependency = v.war_dependency;
    views = [];
    value = v.value;
  },
  record { precondition = v.precondition; war_dependency = none; views = v.views; value = none },
)

abbrev pub released : {E : Type 0} → Events E → Option E → List E → Option (E × E) × Option E
released es none views = (none, none)
released es (some user) [] = (some (user, es.no_event), none)
released es (some user) (e ∷ events) =
    (some (user, merge_all es (e ∷ events)), some (merge_all es (e ∷ events)))

-- `~View`: the user event it triggers, with the event that must come before, and the event after
-- which it gives up the value, if that is later
unfoldable pub release : {E : Type 0} → Events E → View E → Option (E × E) × Option E
unfolding merge_all
release es v = released es v.war_dependency v.views

-- What is done with a view before it is destroyed.
pub data Use (E : Type 0) : Type 0 where
  viewed : (done : E) → Use E
  opened : (freed : E) → Use E
  finished : (event : E) → Use E

abbrev pub ends : {E : Type 0} → Use E → E
ends (viewed e) = e
ends (opened e) = e
ends (finished e) = e

pub used_once : {E : Type 0} → Use E → View E → View E
unfolding subview open_subview done_after
used_once (viewed e) v = (subview e v).1
used_once (opened e) v = (open_subview e v).1
used_once (finished e) v = done_after e v

unfoldable pub used : {E : Type 0} → List (Use E) → View E → View E
unfolding used_once
used [] v = v
used (u ∷ us) v = used us (used_once u v)

abbrev pub Among : {A : Type 0} → A → List A → Type 0
Among a [] = ⊥
Among a (x ∷ xs) = (a ≡ x) ⊎ Among a xs

used_once-views :
    {E : Type 0} (u : Use E) (v : View E) → used_once u v ≡ with_views (v.views ++ (ends u ∷ [])) v
unfolding used_once subview open_subview done_after
used_once-views (viewed e) v = refl
used_once-views (opened e) v = refl
used_once-views (finished e) v = refl

used-views :
    {E : Type 0} (us : List (Use E)) (v : View E)
    → used us v ≡ with_views (v.views ++ map ends us) v
unfolding used
used-views [] v = ap (λ vs. with_views vs v) (sym (append-nil v.views))
used-views (u ∷ us) v =
    ap (used us) (used_once-views u v)
    ∙ used-views us (with_views (v.views ++ (ends u ∷ [])) v)
    ∙ ap (λ vs. with_views vs v) (append_assoc v.views (ends u ∷ []) (map ends us))

module _ {E : Type 0} (es : Events E) (before : E → E → Type 0) (o : EventOrder es before) where
  pub before-merge_all : (e : E) (events : List E) → Among e events → before e (merge_all es events)
  unfolding merge_all
  before-merge_all e [] h = absurd h
  before-merge_all e (x ∷ xs) (inl p) =
      subst (λ y. before y (es.merge x (merge_all es xs))) (sym p) (o.merge_left _ _)
  before-merge_all e (x ∷ xs) (inr h) = o.chain _ _ _ (before-merge_all e xs h) (o.merge_right _ _)

  -- Let a view that was made by `view()` be read, lent and marked as used, in any order, and then be
  -- destroyed. Its user event is triggered, and not before every one of these uses has ended.
  pub release-used :
      (us : List (Use E)) (v : View E) (user : E)
      → v.war_dependency ≡ some user
      → v.views ≡ []
      → (end : E) × ((release es (used us v)).0 ≡ some (user, end))
        × ((e : E) → Among e (map ends us) → before e end)
  unfolding release
  release-used us v user w none_yet = rw (used-views us v, w, none_yet) (by_case (map ends us))
    where
      by_case :
          (events : List E)
          → (end : E) × ((released es (some user) events).0 ≡ some (user, end))
            × ((e : E) → Among e events → before e end)
      by_case [] = (es.no_event, refl, λ e h. absurd h)
      by_case (x ∷ xs) = (merge_all es (x ∷ xs), refl, λ e h. before-merge_all e (x ∷ xs) h)

-- The defect: let a view with a user event be used in any way, and then be moved. The old view triggers
-- nothing, and the new one triggers the user event with NO_EVENT: before, perhaps, the uses have ended.
pub release-moved :
    {E : Type 0} (es : Events E) (us : List (Use E)) (v : View E) (user : E)
    → v.war_dependency ≡ some user
    → ((release es (moved (used us v)).1).0 ≡ none)
      × ((release es (moved (used us v)).0).0 ≡ some (user, es.no_event))
unfolding release moved
release-moved es us v user w = rw (used-views us v, w) (refl, refl)
