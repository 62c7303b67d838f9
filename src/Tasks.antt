-- ===== src/Tasks.antt =====
-- src/zuku/task_base.h, task.h and defer.h: how the arguments of a task become views and children of
-- stores, what the task waits for, and what its token says of its end; and the overloads of
-- ToTaskArgument for stores in src/zuku/store.h. The arguments are stored from the first to the last,
-- which C++ leaves open. A set of events is a list: to merge an event twice changes nothing. What a
-- context holds is a record here; `Contexts` says how it is found. Profiling, the priority, and the
-- tasks that free memory are left out.
pub mod Accesses
pub mod Order
mod Examples
use mathlib.Core.Option
use zuku.Base.{
  ℕ, Bool, true, false, ◌||◌, not, Option, none, some, List, [], ◌∷◌, ◌++◌, map, ◌==◌,
  if◌then◌else◌, ◌>>=◌, Result, already_merged, ok, err,
}
use zuku.Mesh.{DeviceList, contains}
use zuku.Store.{
  Events, Store, View, event_or, child, stream_precondition, view, open_child, open_view,
  precondition,
}
use zuku.Store.Views.{merge_all}
use zuku.Store.Lifetime.{has_precondition}

-- The stores that references point to.
abbrev pub Stores : Type 0 → Type 0
Stores E = ℕ → Store E

abbrev pub put : {E : Type 0} → ℕ → Store E → Stores E → Stores E
put i s h j = if j == i then s else h j

-- An argument with the parameter that takes it: a store by reference, by value, as a store or as a
-- view of its own, with the user event that is created for it; vectors of stores; anything else.
pub data Argument (E : Type 0) : Type 0 where
  by_reference : (store : ℕ) → Argument E
  by_value : (store : ℕ) → Argument E
  as_store : (store : ℕ) (user : E) → Argument E
  as_view : (store : ℕ) (user : E) → Argument E
  rw_vector : (stores : List ℕ) → Argument E
  ro_vector : (stores : List ℕ) → Argument E
  plain : Argument E

-- What the task stores for an argument.
pub data Stored (E : Type 0) : Type 0 where
  stored_store : Store E → Stored E
  stored_view : View E → Stored E
  stored_stores : List (Store E) → Stored E
  stored_views : List (View E) → Stored E
  stored_value : Stored E

pub record TaskBase (E : Type 0) : Type 0 where
  pub individual_preconditions : List E
  pub merged_precondition : Option E

abbrev pub fresh_task : {E : Type 0} → TaskBase E
fresh_task = record { individual_preconditions = []; merged_precondition = none }

abbrev pub add_precondition : {E : Type 0} → E → TaskBase E → TaskBase E
add_precondition event t = record {
  individual_preconditions = t.individual_preconditions ++ (event ∷ []);
  merged_precondition = t.merged_precondition;
}

pub data Returned (E : Type 0) : Type 0 where
  -- `void`
  nothing : Returned E
  -- a value, which the task itself provides
  value : Returned E
  -- a future, with the user event of its promise
  future : (user : E) → Returned E

-- The fields of a context that `_defer` reads.
pub record Launch (E : Type 0) : Type 0 where
  pub processor : ℕ
  pub devices : Option DeviceList
  pub control : Option E
  pub stream_ordered : Bool
  pub after : Option E
  pub barrier : Option (List E)

-- What `_defer` leaves: the stores, the event after which the task starts, if there is a task, the
-- token, and the events of the barrier.
pub record Token (E : Type 0) : Type 0 where
  pub stores : Stores E
  pub starts : Option E
  pub event : E
  pub results : List E
  pub control : Option E
  pub barrier : Option (List E)

module _ {E : Type 0} (es : Events E) where
  -- the events of all, for a set or a vector of one element or more
  abbrev pub merge_preconditions : TaskBase E → Result (TaskBase E)
  merge_preconditions t = elim t.merged_precondition [
    | some merged ↦ err already_merged
    | none ↦ ok (record {
      individual_preconditions = [];
      merged_precondition = elim t.individual_preconditions [
        | [] ↦ none
        | event ∷ [] ↦ some event
        | event ∷ events ↦ some (merge_all es (event ∷ events))
      ];
    })
  ]

  -- the loops over vectors of stores
  pub make_children : E → E → List ℕ → Stores E → List (Store E) × Stores E
  unfolding child
  make_children stream effects [] h = ([], h)
  make_children stream effects (i ∷ stores) h =
      let made = child es stream effects (h i) in
      let rest = make_children stream effects stores (put i made.1 h) in (made.0 ∷ rest.0, rest.1)

  pub make_views : E → E → List ℕ → Stores E → List (View E) × Stores E
  unfolding view
  make_views stream effects [] h = ([], h)
  make_views stream effects (i ∷ stores) h =
      let made = view es stream effects (h i) in
      let rest = make_views stream effects stores (put i made.1 h) in (made.0 ∷ rest.0, rest.1)

  -- `ToTaskArgument`
  unfoldable pub to_task_argument : E → E → Argument E → Stores E → Stored E × Stores E
  unfolding child view open_child open_view make_children make_views
  to_task_argument stream effects (by_reference i) h =
      let made = child es stream effects (h i) in (stored_store made.0, put i made.1 h)
  to_task_argument stream effects (by_value i) h =
      let made = view es stream effects (h i) in (stored_view made.0, put i made.1 h)
  to_task_argument stream effects (as_store i user) h =
      let made = open_child es user (h i) in (stored_store made.0, put i made.1 h)
  to_task_argument stream effects (as_view i user) h =
      let made = open_view es user (h i) in (stored_view made.0, put i made.1 h)
  to_task_argument stream effects (rw_vector stores) h =
      let made = make_children stream effects stores h in (stored_stores made.0, made.1)
  to_task_argument stream effects (ro_vector stores) h =
      let made = make_views stream effects stores h in (stored_views made.0, made.1)
  to_task_argument stream effects plain h = (stored_value, h)

  -- `StoreArgsAndSetPostcondition`
  unfoldable pub store_args : E → E → List (Argument E) → Stores E → List (Stored E) × Stores E
  unfolding to_task_argument
  store_args stream effects [] h = ([], h)
  store_args stream effects (a ∷ arguments) h =
      let made = to_task_argument stream effects a h in
      let rest = store_args stream effects arguments made.1 in (made.0 ∷ rest.0, rest.1)

  -- `AddDeferredPrecondition`, on a store and on a view
  abbrev pub store_event : Bool → Store E → List E
  store_event stream_ordered s =
      if has_precondition s
      then (if stream_ordered then stream_precondition es s else precondition es s) ∷ []
      else []

  abbrev pub view_event : Bool → View E → List E
  view_event stream_ordered v = elim v.precondition [
    | none ↦ []
    | some p ↦ (if stream_ordered then p.stream else p.effects) ∷ []
  ]

  pub store_events : Bool → List (Store E) → List E
  store_events stream_ordered [] = []
  store_events stream_ordered (s ∷ stores) =
      store_event stream_ordered s ++ store_events stream_ordered stores

  pub view_events : Bool → List (View E) → List E
  view_events stream_ordered [] = []
  view_events stream_ordered (v ∷ views) =
      view_event stream_ordered v ++ view_events stream_ordered views

  -- `MaybeAddArgPrecondition`
  unfoldable pub arg_events : Bool → Stored E → List E
  unfolding store_events view_events stream_precondition precondition
  arg_events stream_ordered (stored_store s) = store_event stream_ordered s
  arg_events stream_ordered (stored_view v) = view_event stream_ordered v
  arg_events stream_ordered (stored_stores stores) = store_events stream_ordered stores
  arg_events stream_ordered (stored_views views) = view_events stream_ordered views
  arg_events stream_ordered stored_value = []

  pub add_all : List E → TaskBase E → TaskBase E
  add_all [] t = t
  add_all (event ∷ events) t = add_all events (add_precondition event t)

  -- `AddTaskDependencies`
  unfoldable pub add_dependencies : Bool → List (Stored E) → TaskBase E → TaskBase E
  unfolding add_all arg_events
  add_dependencies stream_ordered [] t = t
  add_dependencies stream_ordered (a ∷ arguments) t =
      add_dependencies stream_ordered arguments (add_all (arg_events stream_ordered a) t)

  -- the constructor of `Task`, on the stored arguments
  unfoldable pub construct_task : Bool → List (Stored E) → Result (TaskBase E)
  unfolding add_dependencies
  construct_task stream_ordered arguments =
      merge_preconditions (add_dependencies stream_ordered arguments fresh_task)

  -- the event after which the task starts
  abbrev pub start_event : Option E → Option E → E
  start_event (some after) (some own) = es.merge after own
  start_event (some after) none = after
  start_event none (some own) = own
  start_event none none = es.no_event

  -- `GetStreamOrderedEvent`
  abbrev pub stream_event : Launch E → E → E
  stream_event c effects = if c.stream_ordered then event_or es c.control else effects

  -- whether a parameter is a store or a view, so that subtasks can use it
  abbrev pub is_deferred : Argument E → Bool
  is_deferred (as_store i user) = true
  is_deferred (as_view i user) = true
  is_deferred a = false

  pub has_deferred_element : List (Argument E) → Bool
  has_deferred_element [] = false
  has_deferred_element (a ∷ arguments) = is_deferred a || has_deferred_element arguments

  -- the futures that `FutureWrappedReturn` makes, by their preconditions
  abbrev pub result_event : E → Returned E → E
  result_event ev nothing = ev
  result_event ev value = ev
  result_event ev (future user) = user

  abbrev pub result_events : E → List (Returned E) → List E
  result_events ev [] = ev ∷ []
  result_events ev (r ∷ returned) = map (result_event ev) (r ∷ returned)

  -- `AddRealmEventPostcondition` on the stored arguments
  pub argument_events : List (Stored E) → List E
  unfolding precondition
  argument_events [] = []
  argument_events (stored_store s ∷ arguments) =
      (if has_precondition s then precondition es s ∷ [] else []) ++ argument_events arguments
  argument_events (stored_view v ∷ arguments) = argument_events arguments
  argument_events (stored_stores stores ∷ arguments) = argument_events arguments
  argument_events (stored_views views ∷ arguments) = argument_events arguments
  argument_events (stored_value ∷ arguments) = argument_events arguments

  -- `all_effects_done_ev`. A function without results has an empty list.
  unfoldable pub all_effects : E → List (Argument E) → List (Returned E) → List (Stored E) → E
  unfolding merge_all has_deferred_element argument_events
  all_effects ev arguments [] stored =
      if not (has_deferred_element arguments)
      then ev
      else merge_all es (ev ∷ (result_events ev [] ++ argument_events stored))
  all_effects ev arguments (r ∷ returned) stored =
      merge_all es (ev ∷ (result_events ev (r ∷ returned) ++ argument_events stored))

  abbrev pub runs_on : Launch E → Bool
  runs_on c = elim c.devices [ none ↦ true | some devices ↦ contains devices c.processor ]

  abbrev pub token_of :
      Launch E
      → E
      → List (Argument E)
      → List (Returned E)
      → List (Stored E) × Stores E
      → TaskBase E
      → Token E
  token_of c ev arguments returned stored task =
      let done = all_effects ev arguments returned stored.0 in
      record {
        stores = stored.1;
        starts = some (start_event c.after task.merged_precondition);
        event = done;
        results = result_events ev returned;
        control = c.control;
        barrier = Option.map (λ events. events ++ (done ∷ [])) c.barrier;
      }

  -- `_defer`: `ev` is the event of the task that Realm spawns.
  unfoldable pub defer :
      Launch E → E → List (Argument E) → List (Returned E) → Stores E → Result (Token E)
  unfolding store_args construct_task all_effects contains
  defer c ev arguments returned h =
      if runs_on c
      then (let stored = store_args (stream_event c ev) ev arguments h in
          construct_task c.stream_ordered stored.0 >>= λ task.
          ok (token_of c ev arguments returned stored task))
      else ok (record {
        stores = h;
        starts = none;
        event = es.no_event;
        results = es.no_event ∷ [];
        control = Option.map (λ control. es.no_event) c.control;
        barrier = c.barrier;
      })
