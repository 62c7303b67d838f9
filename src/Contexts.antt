-- ===== src/Contexts.antt =====
-- `Context` in src/zuku/defer.h: the fields with which a task is deferred, the newest first. A type of
-- field is a kind, and what `if constexpr` decides by it is decided when the context is read.
pub mod Drop
mod Examples
use zuku.Base.{
  ℕ, Bool, true, false, Option, none, some, List, [], ◌∷◌, ◌==◌, if◌then◌else◌, ◌>>=◌, Result,
  ill_formed, ok, err,
}
use zuku.Store.{Events}
use zuku.Mesh.{DeviceList}
use zuku.Tasks.{Launch, defer, Returned, Stores, plain}
use zuku.Store.Views.{merge_all}

pub data Field (E : Type 0) : Type 0 where
  processor : (id : ℕ) → Field E
  processor_group : (ids : List ℕ) → Field E
  return_control : (event : E) → Field E
  stream_order : Field E
  realm_event : (event : E) → Field E
  task_priority : (value : ℕ) → Field E
  device_list : (devices : DeviceList) → Field E
  region_name : (name : ℕ) → Field E
  barrier_reference : (events : List E) → Field E

pub data Kind : Type 0 where
  is_processor is_group is_control is_stream is_event is_priority is_devices is_name is_barrier :
      Kind

abbrev pub kind_number : Kind → ℕ
kind_number is_processor = 0
kind_number is_group = 1
kind_number is_control = 2
kind_number is_stream = 3
kind_number is_event = 4
kind_number is_priority = 5
kind_number is_devices = 6
kind_number is_name = 7
kind_number is_barrier = 8

abbrev pub kind_of : {E : Type 0} → Field E → Kind
kind_of (processor id) = is_processor
kind_of (processor_group ids) = is_group
kind_of (return_control event) = is_control
kind_of stream_order = is_stream
kind_of (realm_event event) = is_event
kind_of (task_priority value) = is_priority
kind_of (device_list devices) = is_devices
kind_of (region_name name) = is_name
kind_of (barrier_reference events) = is_barrier

-- `std::is_same_v<T, Field>`
abbrev pub is_same : {E : Type 0} → Kind → Field E → Bool
is_same kind field = kind_number kind == kind_number (kind_of field)

abbrev pub Context : Type 0 → Type 0
Context E = List (Field E)

-- `add`
unfoldable pub add : {E : Type 0} → List (Field E) → Context E → Context E
add [] context = context
add (field ∷ fields) context = add fields (field ∷ context)

-- `drop` with the fields kept so far, on a context that is used no more
unfoldable pub drop_kept : {E : Type 0} → Kind → List (Field E) → Context E → Context E
unfolding add
drop_kept kind kept [] = add kept []
drop_kept kind kept (field ∷ prev_context) =
    let without = drop_kept kind kept prev_context in
    let with_field = drop_kept kind (field ∷ kept) prev_context in
    if is_same kind field then without else with_field

-- `drop` on a context that is used no more
unfoldable pub drop : {E : Type 0} → Kind → Context E → Context E
unfolding drop_kept
drop kind context = drop_kept kind [] context

-- `drop` on a context that is kept. Where another field is kept, its type is deduced as a reference, for
-- which the context that is built anew does not compile.
unfoldable pub drop_lvalue : {E : Type 0} → Kind → Context E → Option (Context E)
drop_lvalue kind [] = some []
drop_lvalue kind (field ∷ prev_context) =
    let rest = drop_lvalue kind prev_context in if is_same kind field then rest else none

unfoldable pub has_value : {E : Type 0} → Kind → Context E → Bool
has_value kind [] = false
has_value kind (field ∷ prev_context) =
    if is_same kind field then true else has_value kind prev_context

-- `value`, which does not compile without such a field
unfoldable pub field_value : {E : Type 0} → Kind → Context E → Option (Field E)
field_value kind [] = none
field_value kind (field ∷ prev_context) =
    if is_same kind field then some field else field_value kind prev_context

-- `conditional_move_from`
unfoldable pub conditional_move_from : {E : Type 0} → Kind → Context E → Context E → Context E
unfolding field_value
conditional_move_from kind other context = elim (field_value kind other) [
  | none ↦ context
  | some field ↦ field ∷ context
]

-- The builders. `control` is the user event that is created.
abbrev pub on : {E : Type 0} → ℕ → Context E → Context E
on p context = processor p ∷ context

abbrev pub on_group : {E : Type 0} → List ℕ → Context E → Context E
on_group group context = processor_group group ∷ context

abbrev pub split_control_execution : {E : Type 0} → E → Context E → Context E
split_control_execution control context = return_control control ∷ context

abbrev pub stream_ordered : {E : Type 0} → E → Context E → Context E
stream_ordered control context = split_control_execution control (stream_order ∷ context)

abbrev pub after : {E : Type 0} → E → Context E → Context E
after event context = realm_event event ∷ context

abbrev pub priority : {E : Type 0} → ℕ → Context E → Context E
priority value context = task_priority value ∷ context

abbrev pub across : {E : Type 0} → DeviceList → Context E → Context E
across devices context = device_list devices ∷ context

abbrev pub region : {E : Type 0} → ℕ → Context E → Context E
region name context = region_name name ∷ context

abbrev pub sync_to : {E : Type 0} → List E → Context E → Context E
sync_to barrier context = barrier_reference barrier ∷ context

-- `task_context`
unfoldable pub task_context : {E : Type 0} → Context E → Context E
unfolding conditional_move_from
task_context context =
    conditional_move_from is_stream context
      (conditional_move_from is_name context (conditional_move_from is_control context []))

-- What `_defer` reads of a context. `util` is the processor of `Processor::Util()`.
abbrev pub processor_in : {E : Type 0} → ℕ → Option (Field E) → ℕ
processor_in util (some (processor id)) = id
processor_in util other = util

abbrev pub devices_in : {E : Type 0} → Option (Field E) → Option DeviceList
devices_in (some (device_list devices)) = some devices
devices_in other = none

abbrev pub control_in : {E : Type 0} → Option (Field E) → Option E
control_in (some (return_control event)) = some event
control_in other = none

abbrev pub event_in : {E : Type 0} → Option (Field E) → Option E
event_in (some (realm_event event)) = some event
event_in other = none

abbrev pub barrier_in : {E : Type 0} → Option (Field E) → Option (List E)
barrier_in (some (barrier_reference events)) = some events
barrier_in other = none

abbrev pub group_in : {E : Type 0} → Option (Field E) → Option (List ℕ)
group_in (some (processor_group ids)) = some ids
group_in other = none

unfoldable pub launch_of : {E : Type 0} → ℕ → Context E → Launch E
unfolding field_value has_value
launch_of util context = record {
  processor = processor_in util (field_value is_processor context);
  devices = devices_in (field_value is_devices context);
  control = control_in (field_value is_control context);
  stream_ordered = has_value is_stream context;
  after = event_in (field_value is_event context);
  barrier = barrier_in (field_value is_barrier context);
}

-- What a bulk launch leaves: the stores, and the events of its tokens.
module _ {E : Type 0} (es : Events E) (util : ℕ) where
  -- the loop over a group, with the event of each processor's task, on the context without the group
  unfoldable pub defer_each :
      Context E → List (ℕ × E) → List (Returned E) → Stores E → Result (List E × Stores E)
  unfolding launch_of defer
  defer_each context [] returned h = ok ([], h)
  defer_each context ((p, ev) ∷ group) returned h = do
    token ← defer es (launch_of util (on p context)) ev (plain ∷ []) returned h
    rest ← defer_each context group returned token.stores
    ok (token.event ∷ rest.0, rest.1)

  -- `Context::defer` on a group: the event of the token, and the stores
  unfoldable pub defer_group :
      Context E → List (ℕ × E) → List (Returned E) → Stores E → Result (E × Stores E)
  unfolding defer_each merge_all drop_lvalue
  defer_group context group returned h = elim (drop_lvalue is_group context) [
    | none ↦ err ill_formed
    | some rest ↦ defer_each rest group returned h >>= λ done. ok (merge_all es done.0, done.1)
  ]
