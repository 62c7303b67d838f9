-- ===== src/Tasks/Accesses.antt =====
-- The arguments of a task as accesses to stores: `ToTaskArgument` and `AddTaskDependencies` of
-- src/zuku/store.h and task.h, against the accesses of one store.
use zuku.Base.{
  ℕ, ◌≡◌, refl, sym, ap, ◌∙◌, Bool, true, false, Option, none, some, List, [], ◌∷◌, ◌++◌, map,
  if◌then◌else◌,
}
use zuku.Store.{
  precondition, Events, view_precondition, child, view, Store, View, open_child, open_view,
  EventPrecondition, effects_or, merged, effects_part, child_of,
}
use zuku.Store.Access.{access, Access, waits, read, write}
use zuku.Tasks.{
  by_reference, by_value, as_store, as_view, rw_vector, ro_vector, plain, Argument, make_children,
  Stores, make_views, to_task_argument, store_args, store_events, put, arg_events, store_event,
  view_event, view_events, Stored,
}
use zuku.Store.Order.{EventOrder}
use zuku.Store.Views.{merge_all}

-- What an argument does to the stores, one after another.
abbrev pub Uses : Type 0 → Type 0
Uses E = List (ℕ × Access E)

abbrev pub uses_of : {E : Type 0} → E → E → Argument E → Uses E
uses_of stream effects (by_reference i) = (i, write stream effects) ∷ []
uses_of stream effects (by_value i) = (i, read stream effects) ∷ []
uses_of stream effects (as_store i user) = (i, write user user) ∷ []
uses_of stream effects (as_view i user) = (i, read user user) ∷ []
uses_of stream effects (rw_vector stores) = map (λ i. (i, write stream effects)) stores
uses_of stream effects (ro_vector stores) = map (λ i. (i, read stream effects)) stores
uses_of stream effects plain = []

abbrev pub uses_of_all : {E : Type 0} → E → E → List (Argument E) → Uses E
uses_of_all stream effects [] = []
uses_of_all stream effects (a ∷ arguments) =
    uses_of stream effects a ++ uses_of_all stream effects arguments

module _ {E : Type 0} (es : Events E) where
  abbrev pub use_store : ℕ × Access E → Stores E → Stores E
  use_store x h = put x.0 (access es x.1 (h x.0)) h

  unfoldable pub use_stores : Uses E → Stores E → Stores E
  use_stores [] h = h
  use_stores (x ∷ xs) h = use_stores xs (use_store x h)

  -- What the accesses wait for, each at its turn.
  unfoldable pub waits_of : Uses E → Stores E → List E
  waits_of [] h = []
  waits_of (x ∷ xs) h = waits es x.1 (h x.0) ∷ waits_of xs (use_store x h)

  use_stores-append :
      (xs ys : Uses E) (h : Stores E) → use_stores (xs ++ ys) h ≡ use_stores ys (use_stores xs h)
  unfolding use_stores
  use_stores-append [] ys h = refl
  use_stores-append (x ∷ xs) ys h = use_stores-append xs ys (use_store x h)

  waits_of-append :
      (xs ys : Uses E) (h : Stores E)
      → waits_of (xs ++ ys) h ≡ waits_of xs h ++ waits_of ys (use_stores xs h)
  unfolding waits_of use_stores
  waits_of-append [] ys h = refl
  waits_of-append (x ∷ xs) ys h =
      ap (◌∷◌ (waits es x.1 (h x.0))) (waits_of-append xs ys (use_store x h))

  make_children-uses :
      (stream effects : E) (stores : List ℕ) (h : Stores E)
      → (make_children es stream effects stores h).1
        ≡ use_stores (map (λ i. (i, write stream effects)) stores) h
  unfolding make_children use_stores access child
  make_children-uses stream effects [] h = refl
  make_children-uses stream effects (i ∷ stores) h = make_children-uses stream effects stores _

  make_views-uses :
      (stream effects : E) (stores : List ℕ) (h : Stores E)
      → (make_views es stream effects stores h).1
        ≡ use_stores (map (λ i. (i, read stream effects)) stores) h
  unfolding make_views use_stores access view
  make_views-uses stream effects [] h = refl
  make_views-uses stream effects (i ∷ stores) h = make_views-uses stream effects stores _

  argument-uses :
      (stream effects : E) (a : Argument E) (h : Stores E)
      → (to_task_argument es stream effects a h).1 ≡ use_stores (uses_of stream effects a) h
  unfolding to_task_argument use_stores access child view open_child open_view
  argument-uses stream effects (by_reference i) h = refl
  argument-uses stream effects (by_value i) h = refl
  argument-uses stream effects (as_store i user) h = refl
  argument-uses stream effects (as_view i user) h = refl
  argument-uses stream effects (rw_vector stores) h = make_children-uses stream effects stores h
  argument-uses stream effects (ro_vector stores) h = make_views-uses stream effects stores h
  argument-uses stream effects plain h = refl

  -- The stores after a task's arguments are those after their accesses.
  pub store_args-uses :
      (stream effects : E) (arguments : List (Argument E)) (h : Stores E)
      → (store_args es stream effects arguments h).1
        ≡ use_stores (uses_of_all stream effects arguments) h
  unfolding store_args
  store_args-uses stream effects [] h = unfold use_stores in refl
  store_args-uses stream effects (a ∷ arguments) h =
      store_args-uses stream effects arguments _
      ∙ ap (use_stores (uses_of_all stream effects arguments)) (argument-uses stream effects a h)
      ∙ sym (use_stores-append (uses_of stream effects a) (uses_of_all stream effects arguments) h)

  -- The events of all stored arguments, in order.
  abbrev pub stored_events : Bool → List (Stored E) → List E
  stored_events stream_ordered [] = []
  stored_events stream_ordered (a ∷ stored) =
      arg_events es stream_ordered a ++ stored_events stream_ordered stored

  module _ (before : E → E → Type 0) (o : EventOrder es before) where
    abbrev pub AtMost : List E → List E → Type 0
    AtMost xs ys = before (merge_all es xs) (merge_all es ys)

    pub at_most_append :
        (xs ys : List E) (c : E)
        → before (merge_all es xs) c
        → before (merge_all es ys) c
        → before (merge_all es (xs ++ ys)) c
    unfolding merge_all
    at_most_append [] ys c g h = h
    at_most_append (x ∷ xs) ys c g h =
        o.least _ _ _ (o.chain _ _ _ (o.merge_left _ _) g)
          (at_most_append xs ys c (o.chain _ _ _ (o.merge_right _ _) g) h)

    pub append_left : (xs ys : List E) → AtMost xs (xs ++ ys)
    unfolding merge_all
    append_left [] ys = o.never _
    append_left (x ∷ xs) ys =
        o.least _ _ _ (o.merge_left _ _) (o.chain _ _ _ (append_left xs ys) (o.merge_right _ _))

    pub append_right : (xs ys : List E) → AtMost ys (xs ++ ys)
    unfolding merge_all
    append_right [] ys = o.same _
    append_right (x ∷ xs) ys = o.chain _ _ _ (append_right xs ys) (o.merge_right _ _)

    append-AtMost :
        (xs xs' ys ys' : List E) → AtMost xs xs' → AtMost ys ys' → AtMost (xs ++ ys) (xs' ++ ys')
    append-AtMost xs xs' ys ys' g h =
        at_most_append xs ys _ (o.chain _ _ _ g (append_left xs' ys'))
          (o.chain _ _ _ h (append_right xs' ys'))

    single : (x : E) → before x (merge_all es (x ∷ []))
    unfolding merge_all
    single x = o.merge_left x es.no_event

    single_least : (x c : E) → before x c → before (merge_all es (x ∷ [])) c
    unfolding merge_all
    single_least x c h = o.least x es.no_event c h (o.never c)

    -- A store or a view without a precondition waits for nothing.
    store-AtMost : (s : Store E) → AtMost (precondition es s ∷ []) (store_event es false s)
    unfolding precondition
    store-AtMost s = by_parts s.war s.child_rw
      where
        by_parts :
            (war rw : Option (EventPrecondition E))
            → AtMost (merged es effects_part war rw ∷ []) (
                if elim war [ some w ↦ true | none ↦ elim rw [ some r ↦ true | none ↦ false ] ]
                then merged es effects_part war rw ∷ []
                else [])
        by_parts none none = single_least _ _ (o.never _)
        by_parts none (some r) = o.same _
        by_parts (some w) none = o.same _
        by_parts (some w) (some r) = o.same _

    view-AtMost : (v : View E) → AtMost (view_precondition es v ∷ []) (view_event es false v)
    unfolding view_precondition
    view-AtMost v = by_parts v.precondition
      where
        by_parts :
            (p : Option (EventPrecondition E))
            → AtMost
                (effects_or es p ∷ [])
                (elim p [ none ↦ [] | some p ↦ (if false then p.stream else p.effects) ∷ [] ])
        by_parts none = single_least _ _ (o.never _)
        by_parts (some p) = o.same _

    children-AtMost :
        (stream effects : E) (stores : List ℕ) (h : Stores E)
        → AtMost
            (waits_of (map (λ i. (i, write stream effects)) stores) h)
            (store_events es false (make_children es stream effects stores h).0)
    unfolding make_children waits_of store_events waits child access
    children-AtMost stream effects [] h = o.same _
    children-AtMost stream effects (i ∷ stores) h =
        append-AtMost (precondition es (child_of none (h i)) ∷ [])
          (store_event es false (child_of none (h i))) _ _ (store-AtMost (child_of none (h i)))
          (children-AtMost stream effects stores (use_store (i, write stream effects) h))

    views-AtMost :
        (stream effects : E) (stores : List ℕ) (h : Stores E)
        → AtMost
            (waits_of (map (λ i. (i, read stream effects)) stores) h)
            (view_events es false (make_views es stream effects stores h).0)
    unfolding make_views waits_of view_events waits view access
    views-AtMost stream effects [] h = o.same _
    views-AtMost stream effects (i ∷ stores) h =
        append-AtMost (view_precondition es (view es stream effects (h i)).0 ∷ [])
          (view_event es false (view es stream effects (h i)).0) _ _
          (view-AtMost (view es stream effects (h i)).0)
          (views-AtMost stream effects stores (use_store (i, read stream effects) h))

    argument-AtMost :
        (stream effects : E) (a : Argument E) (h : Stores E)
        → AtMost
            (waits_of (uses_of stream effects a) h)
            (arg_events es false (to_task_argument es stream effects a h).0)
    unfolding to_task_argument arg_events waits_of waits child view open_child open_view
        view_precondition precondition
    argument-AtMost stream effects (by_reference i) h = store-AtMost (child_of none (h i))
    argument-AtMost stream effects (by_value i) h = view-AtMost (view es stream effects (h i)).0
    argument-AtMost stream effects (as_store i user) h = store-AtMost (child_of (some user) (h i))
    argument-AtMost stream effects (as_view i user) h = view-AtMost (open_view es user (h i)).0
    argument-AtMost stream effects (rw_vector stores) h = children-AtMost stream effects stores h
    argument-AtMost stream effects (ro_vector stores) h = views-AtMost stream effects stores h
    argument-AtMost stream effects plain h = o.same _

    pub arguments-AtMost :
        (stream effects : E) (arguments : List (Argument E)) (h : Stores E)
        → AtMost
            (waits_of (uses_of_all stream effects arguments) h)
            (stored_events false (store_args es stream effects arguments h).0)
    unfolding store_args
    arguments-AtMost stream effects [] h = unfold waits_of in o.same _
    arguments-AtMost stream effects (a ∷ arguments) h =
        rw
          (
            waits_of-append (uses_of stream effects a) (uses_of_all stream effects arguments) h,
            ← argument-uses stream effects a h,
          )
          (append-AtMost _ _ _ _ (argument-AtMost stream effects a h)
            (arguments-AtMost stream effects arguments (to_task_argument es stream effects a h).1))
