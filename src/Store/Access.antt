-- ===== src/Store/Access.antt =====
-- Accesses to one store, in the order in which the tasks are launched: `ToTaskArgument` in
-- src/zuku/store.h turns a read-only argument into a view and a writable one into a child.
use zuku.Base.{Bool, true, false, List, [], ◌∷◌}
use zuku.Store.{Events, Store, precondition, child, view, view_precondition}

-- A task's access, with the events that its launch returns.
pub data Access (E : Type 0) : Type 0 where
  read : (stream effects : E) → Access E
  write : (stream effects : E) → Access E

abbrev pub done : {E : Type 0} → Access E → E
done (read stream effects) = effects
done (write stream effects) = effects

abbrev pub is_write : {E : Type 0} → Access E → Bool
is_write (read stream effects) = false
is_write (write stream effects) = true

-- The store after an access.
unfoldable pub access : {E : Type 0} → Events E → Access E → Store E → Store E
unfolding view child
access es (read stream effects) s = (view es stream effects s).1
access es (write stream effects) s = (child es stream effects s).1

-- The event that the task waits for: the precondition of the view or of the child.
unfoldable pub waits : {E : Type 0} → Events E → Access E → Store E → E
unfolding view child view_precondition precondition
waits es (read stream effects) s = view_precondition es (view es stream effects s).0
waits es (write stream effects) s = precondition es (child es stream effects s).0

unfoldable pub accesses : {E : Type 0} → Events E → List (Access E) → Store E → Store E
unfolding access
accesses es [] s = s
accesses es (a ∷ rest) s = accesses es rest (access es a s)
