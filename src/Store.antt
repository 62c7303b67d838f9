-- ===== src/Store.antt =====
-- src/zuku/store.h and the part of src/zuku/future.h that it uses: which events an access to a store
-- waits for. An event belongs to Realm, so its type `E`, `NO_EVENT` and `merge_events` are parameters;
-- a user event that the code creates is an argument. The value is the identity of the shared object.
pub mod Access
pub mod Order
pub mod Release
pub mod Views
pub mod Lifetime
pub mod Times
mod Examples
use zuku.Base.{ℕ, Bool, true, Option, none, some, List, []}

pub record Events (E : Type 0) : Type 0 where
  pub no_event : E
  pub merge : E → E → E

pub record EventPrecondition (E : Type 0) : Type 0 where
  pub stream : E
  pub effects : E

pub record Store (E : Type 0) : Type 0 where
  pub has_parent : Bool
  pub parent_notification : Option E
  pub child_rw : Option (EventPrecondition E)
  pub war : Option (EventPrecondition E)
  pub value : Option ℕ

-- A view: what it waits for, the user event that its destructor triggers, and its own readers.
pub record View (E : Type 0) : Type 0 where
  pub precondition : Option (EventPrecondition E)
  pub war_dependency : Option E
  pub views : List E
  pub value : Option ℕ

-- An optional precondition's effects event, or `NO_EVENT`.
abbrev pub effects_or : {E : Type 0} → Events E → Option (EventPrecondition E) → E
effects_or es none = es.no_event
effects_or es (some p) = p.effects

-- The merge in `Precondition` and `StreamPrecondition`, on the event that `part` picks.
abbrev pub merged :
    {E : Type 0}
    → Events E
    → (EventPrecondition E → E)
    → Option (EventPrecondition E)
    → Option (EventPrecondition E)
    → E
merged es part (some w) (some r) = es.merge (part w) (part r)
merged es part (some w) none = part w
merged es part none (some r) = part r
merged es part none none = es.no_event

abbrev pub effects_part : {E : Type 0} → EventPrecondition E → E
effects_part p = p.effects

abbrev pub stream_part : {E : Type 0} → EventPrecondition E → E
stream_part p = p.stream

unfoldable pub precondition : {E : Type 0} → Events E → Store E → E
precondition es s = merged es effects_part s.war s.child_rw

unfoldable pub stream_precondition : {E : Type 0} → Events E → Store E → E
stream_precondition es s = merged es stream_part s.war s.child_rw

abbrev pub event_or : {E : Type 0} → Events E → Option E → E
event_or es none = es.no_event
event_or es (some e) = e

unfoldable pub postcondition : {E : Type 0} → Events E → Store E → E
postcondition es s = event_or es s.parent_notification

abbrev pub merge_after :
    {E : Type 0} → Events E → E → E → Option (EventPrecondition E) → EventPrecondition E
merge_after es stream effects none = record { stream = stream; effects = effects }
merge_after es stream effects (some p) = record {
  stream = es.merge stream p.stream;
  effects = es.merge effects p.effects;
}

abbrev pub merge_before :
    {E : Type 0} → Events E → E → E → Option (EventPrecondition E) → EventPrecondition E
merge_before es stream effects none = record { stream = stream; effects = effects }
merge_before es stream effects (some p) = record {
  stream = es.merge p.stream stream;
  effects = es.merge p.effects effects;
}

-- `ReadyAfter`
unfoldable pub ready_after : {E : Type 0} → Events E → E → E → Store E → Store E
ready_after es stream effects s = record {
  has_parent = s.has_parent;
  parent_notification = s.parent_notification;
  child_rw = some (merge_after es stream effects s.child_rw);
  war = none;
  value = s.value;
}

-- The child that both overloads of `child` make, before the parent's `ReadyAfter`.
abbrev pub child_of : {E : Type 0} → Option E → Store E → Store E
child_of notification s = record {
  has_parent = true;
  parent_notification = notification;
  child_rw = s.child_rw;
  war = s.war;
  value = s.value;
}

-- `child(stream, effects)`: the child, then the parent. The optional that the code moves from keeps its
-- events, which `ReadyAfter` merges, since an event is copied when it is moved.
unfoldable pub child : {E : Type 0} → Events E → E → E → Store E → Store E × Store E
unfolding ready_after
child es stream effects s = (child_of none s, ready_after es stream effects s)

-- `child()` with the user event that it creates
unfoldable pub open_child : {E : Type 0} → Events E → E → Store E → Store E × Store E
unfolding ready_after
open_child es user s = (child_of (some user) s, ready_after es user user s)

abbrev pub with_reader : {E : Type 0} → Events E → E → E → Store E → Store E
with_reader es stream effects s = record {
  has_parent = s.has_parent;
  parent_notification = s.parent_notification;
  child_rw = s.child_rw;
  war = some (merge_before es stream effects s.war);
  value = s.value;
}

-- `view(stream, effects)`: the view, then the store
unfoldable pub view : {E : Type 0} → Events E → E → E → Store E → View E × Store E
view es stream effects s = (
  record { precondition = s.child_rw; war_dependency = none; views = []; value = s.value },
  with_reader es stream effects s,
)

-- `view()` with the user event that it creates
unfoldable pub open_view : {E : Type 0} → Events E → E → Store E → View E × Store E
open_view es reader s = (
  record { precondition = s.child_rw; war_dependency = some reader; views = []; value = s.value },
  with_reader es reader reader s,
)

-- `View::Precondition`
unfoldable pub view_precondition : {E : Type 0} → Events E → View E → E
view_precondition es v = effects_or es v.precondition

abbrev pub triggered : {E : Type 0} → Option E → E → Option (E × E)
triggered none before = none
triggered (some user) before = some (user, before)

-- `~Store`: the user event it triggers, with the event that must come before
unfoldable pub destroy : {E : Type 0} → Events E → Store E → Option (E × E)
destroy es s = triggered s.parent_notification (effects_or es s.child_rw)
