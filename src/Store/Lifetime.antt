-- ===== src/Store/Lifetime.antt =====
-- The creation, the moves and the end of a store in src/zuku/store.h.
use zuku.Base.{
  ℕ, ◌≡◌, refl, sym, ◌∙◌, subst, inl, inr, Bool, true, false, ◌&&◌, ◌||◌, not, Option, none, some,
  List, [], ◌∷◌, if◌then◌else◌,
}
use zuku.Store.Access.{access, accesses, waits, done, write, read, is_write, Access}
use zuku.Store.Order.{EventOrder, Launched, waits-accesses}
use zuku.Store.Views.{Among}
use zuku.Store.{precondition, Events, Store, child, view}

-- `Store::Create`, and `CreateEmpty` without a value
abbrev pub create : {E : Type 0} → Option ℕ → Store E
create value = record {
  has_parent = false;
  parent_notification = none;
  child_rw = none;
  war = none;
  value = value;
}

-- `Store::DeferredCreate`
abbrev pub deferred_create : {E : Type 0} → E → ℕ → Store E
deferred_create create_event value = record {
  has_parent = false;
  parent_notification = none;
  child_rw = some (record { stream = create_event; effects = create_event });
  war = none;
  value = some value;
}

-- What a store keeps when it is moved from.
abbrev pub moved_from : {E : Type 0} → Store E → Store E
moved_from v = record {
  has_parent = v.has_parent;
  parent_notification = none;
  child_rw = none;
  war = v.war;
  value = none;
}

-- `operator=(Store&&)` and `Store(Store&&)`: the target is what the source was, and the source is left.
-- What the target was before the assignment is dropped.
abbrev pub assign : {E : Type 0} → Store E → Store E → Store E × Store E
assign target v = (v, moved_from v)

-- `Wait`, once the events have triggered
abbrev pub waited : {E : Type 0} → Store E → Store E
waited s = record {
  has_parent = s.has_parent;
  parent_notification = s.parent_notification;
  child_rw = none;
  war = none;
  value = s.value;
}

abbrev pub has_precondition : {E : Type 0} → Store E → Bool
has_precondition s = elim s.war [
  | some w ↦ true
  | none ↦ elim s.child_rw [ some r ↦ true | none ↦ false ]
]

abbrev pub deletion_of : {E : Type 0} → Bool → Option ℕ → Bool → E → Option (ℕ × E)
deletion_of has_parent none has e = none
deletion_of has_parent (some value) has e = if not has_parent && has then some (value, e) else none

-- `~Store`: the value whose instances it deletes, and the event after which it does so
unfoldable pub deletion : {E : Type 0} → Events E → Store E → Option (ℕ × E)
unfolding precondition
deletion es s = deletion_of s.has_parent s.value (has_precondition s) (precondition es s)

module _ {E : Type 0} (es : Events E) where
  precondition-child :
      (stream effects : E) (s : Store E) → waits es (write stream effects) s ≡ precondition es s
  unfolding waits child precondition
  precondition-child stream effects s = refl

  access-kept :
      (a : Access E) (s : Store E)
      → ((access es a s).has_parent ≡ s.has_parent)
        × ((access es a s).value ≡ s.value)
        × (has_precondition (access es a s) ≡ true)
  unfolding access view child
  access-kept (read stream effects) s = (refl, refl, refl)
  access-kept (write stream effects) s = (refl, refl, refl)

  accesses-kept :
      (a : Access E) (ts : List (Access E)) (s : Store E)
      → ((accesses es (a ∷ ts) s).has_parent ≡ s.has_parent)
        × ((accesses es (a ∷ ts) s).value ≡ s.value)
        × (has_precondition (accesses es (a ∷ ts) s) ≡ true)
  unfolding accesses
  accesses-kept a [] s = access-kept a s
  accesses-kept a (b ∷ ts) s =
      let now = access-kept a s in
      let later = accesses-kept b ts (access es a s) in (later.0 ∙ now.0, later.1 ∙ now.1, later.2)

  deletion_of-owned :
      (parent : Bool) (held : Option ℕ) (has : Bool) (e : E) (value : ℕ)
      → parent ≡ false
      → held ≡ some value
      → has ≡ true
      → deletion_of parent held has e ≡ some (value, e)
  deletion_of-owned parent held has e value root owns pre = rw (owns, root, pre) refl

  or_true : (b : Bool) → (b || true) ≡ true
  or_true true = refl
  or_true false = refl

  module _ (before : E → E → Type 0) (o : EventOrder es before) where
    before-precondition :
        (x : Access E) (ts : List (Access E)) (s : Store E)
        → Launched es before o ts s
        → Among x ts
        → before (done x) (precondition es (accesses es ts s))
    unfolding accesses
    before-precondition x [] s l h = absurd h
    before-precondition x (a ∷ ts) s l (inl e) =
        subst (λ y. before (done y) (precondition es (accesses es (a ∷ ts) s))) (sym e)
          (subst (before (done a))
            (precondition-child es.no_event es.no_event (accesses es ts (access es a s)))
            (waits-accesses es before o a (write es.no_event es.no_event) ts s l
              (or_true (is_write a))))
    before-precondition x (a ∷ ts) s l (inr h) = before-precondition x ts (access es a s) l.1 h

    -- Let tasks be launched on a store that owns its value, each done after what it waits for. The
    -- store's destructor deletes the value's instances, and not before every task is done.
    pub deletion-accesses :
        (a : Access E) (ts : List (Access E)) (s : Store E) (value : ℕ)
        → s.has_parent ≡ false
        → s.value ≡ some value
        → Launched es before o (a ∷ ts) s
        → (end : E) × (deletion es (accesses es (a ∷ ts) s) ≡ some (value, end))
          × ((x : Access E) → Among x (a ∷ ts) → before (done x) end)
    unfolding deletion
    deletion-accesses a ts s value root owns l =
        let (parent, same, has) = accesses-kept a ts s in
        (
          precondition es (accesses es (a ∷ ts) s),
          deletion_of-owned _ _ _ _ value (parent ∙ root) (same ∙ owns) has,
          λ x h. before-precondition x (a ∷ ts) s l h,
        )
