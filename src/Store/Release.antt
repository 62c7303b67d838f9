-- ===== src/Store/Release.antt =====
-- `~Store` in src/zuku/store.h: what a store hands to its parent when it is destroyed.
use zuku.Base.{◌≡◌, refl, ap, ap₂, ◌∙◌, none, some, List, [], ◌∷◌}
use zuku.Store.{
  precondition, open_child, view, ready_after, destroy, Events, Store, with_reader, triggered,
  effects_or,
}
use zuku.Store.Access.{read, accesses, Access, access, read}

abbrev pub reads : {E : Type 0} → List E → List (Access E)
reads [] = []
reads (x ∷ xs) = read x x ∷ reads xs

reads_keep :
    {E : Type 0} (es : Events E) (xs : List E) (s : Store E)
    → ((accesses es (reads xs) s).parent_notification ≡ s.parent_notification)
      × ((accesses es (reads xs) s).child_rw ≡ s.child_rw)
unfolding accesses access view
reads_keep es [] s = (refl, refl)
reads_keep es (x ∷ xs) s = reads_keep es xs (with_reader es x x s)

-- Let a store wait for no writer. After `child()` the store waits for the child's user event
-- only, whatever readers it had; and whatever readers the child has got, its destructor triggers
-- that event after `NO_EVENT`, so that the next writer waits for none of these readers.
pub destroy-reads :
    {E : Type 0} (es : Events E) (user : E) (xs : List E) (s : Store E)
    → s.child_rw ≡ none
    → (precondition es (open_child es user s).1 ≡ user)
      × (destroy es (accesses es (reads xs) (open_child es user s).0) ≡ some (user, es.no_event))
unfolding precondition open_child ready_after destroy
destroy-reads es user xs s e =
    let kept = reads_keep es xs (open_child es user s).0 in
    (rw e refl, ap₂ triggered kept.0 (ap (effects_or es) (kept.1 ∙ e)))
