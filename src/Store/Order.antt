-- ===== src/Store/Order.antt =====
-- The order of the tasks that access one store: src/zuku/store.h, `child`, `view`, `Precondition`.
use zuku.Base.{◌≡◌, Bool, true, false, ◌||◌, Option, none, some, List, [], ◌∷◌}
use zuku.Store.{
  Events, EventPrecondition, Store, precondition, child, view, view_precondition, merge_before,
  effects_or, merge_after, merged, ready_after, effects_part, with_reader,
}
use zuku.Store.Access.{read, write, access, Access, accesses, waits, is_write, done}

-- What Realm documents of events: `before a b` says that `b` does not trigger before `a` has.
pub record EventOrder {E : Type 0} (es : Events E) (before : E → E → Type 0) : Type 0 where
  pub same : (a : E) → before a a
  pub chain : (a b c : E) → before a b → before b c → before a c
  pub never : (a : E) → before es.no_event a
  pub merge_left : (a b : E) → before a (es.merge a b)
  pub merge_right : (a b : E) → before b (es.merge a b)
  pub least : (a b c : E) → before a c → before b c → before (es.merge a b) c

module _ {E : Type 0} (es : Events E) (before : E → E → Type 0) (o : EventOrder es before) where
  -- Each task is done after what it waits for.
  abbrev pub Launched : List (Access E) → Store E → Type 0
  Launched [] s = Unit {0}
  Launched (a ∷ rest) s = before (waits es a s) (done a) × Launched rest (access es a s)

  -- An event of an earlier task, a writer's or a reader's, that the store still knows.
  abbrev pub Behind : Bool → E → Store E → Type 0
  Behind true x s = before x (effects_or es s.child_rw)
  Behind false x s = before x (merged es effects_part s.war s.child_rw)

  pub merged-right :
      (war rw : Option (EventPrecondition E))
      → before (effects_or es rw) (merged es effects_part war rw)
  merged-right none none = o.same es.no_event
  merged-right none (some r) = o.same r.effects
  merged-right (some w) none = o.never w.effects
  merged-right (some w) (some r) = o.merge_right w.effects r.effects

  pub merged-left :
      (war rw : Option (EventPrecondition E))
      → before (effects_or es war) (merged es effects_part war rw)
  merged-left none rw = o.never _
  merged-left (some w) none = o.same w.effects
  merged-left (some w) (some r) = o.merge_left w.effects r.effects

  merged-least :
      (c : E) (war rw : Option (EventPrecondition E))
      → before (effects_or es war) c
      → before (effects_or es rw) c
      → before (merged es effects_part war rw) c
  merged-least c none none hw hr = hw
  merged-least c none (some r) hw hr = hr
  merged-least c (some w) none hw hr = hw
  merged-least c (some w) (some r) hw hr = o.least w.effects r.effects c hw hr

  merge_before_lem :
      (stream effects : E) (war : Option (EventPrecondition E))
      → (before (effects_or es war) (merge_before es stream effects war).effects)
        × (before effects (merge_before es stream effects war).effects)
  merge_before_lem stream effects none = (o.never effects, o.same effects)
  merge_before_lem stream effects (some w) =
      (o.merge_left w.effects effects, o.merge_right w.effects effects)

  pub merge_after_lem :
      (stream effects : E) (rw : Option (EventPrecondition E))
      → (before (effects_or es rw) (merge_after es stream effects rw).effects)
        × (before effects (merge_after es stream effects rw).effects)
  merge_after_lem stream effects none = (o.never effects, o.same effects)
  merge_after_lem stream effects (some r) =
      (o.merge_right effects r.effects, o.merge_left effects r.effects)

  reader-merged :
      (stream effects : E) (s : Store E)
      → before
          (merge_before es stream effects s.war).effects
          (merged es effects_part (some (merge_before es stream effects s.war)) s.child_rw)
  reader-merged stream effects s =
      merged-left (some (merge_before es stream effects s.war)) s.child_rw

  -- A reader keeps what the store knows.
  pub Behind-reader :
      (x stream effects : E) (s : Store E)
      → Behind false x s
      → Behind false x (with_reader es stream effects s)
  Behind-reader x stream effects s h = o.chain _ _ _ h (
      merged-least _ s.war s.child_rw
        (o.chain _ _ _ (merge_before_lem stream effects s.war).0 (reader-merged stream effects s))
        (merged-right (some (merge_before es stream effects s.war)) s.child_rw))

  -- An access keeps what the store knows of the earlier ones.
  pub Behind-step :
      (w : Bool) (x : E) (a : Access E) (s : Store E)
      → before (waits es a s) (done a)
      → Behind w x s
      → Behind w x (access es a s)
  unfolding access waits view child ready_after view_precondition precondition
  Behind-step true x (read stream effects) s l h = h
  Behind-step true x (write stream effects) s l h =
      o.chain _ _ _ h (merge_after_lem stream effects s.child_rw).0
  Behind-step false x (read stream effects) s l h = Behind-reader x stream effects s h
  Behind-step false x (write stream effects) s l h =
      o.chain _ _ _ h (o.chain _ _ _ l (merge_after_lem stream effects s.child_rw).1)

  pub Behind-own : (a : Access E) (s : Store E) → Behind (is_write a) (done a) (access es a s)
  unfolding access view child ready_after
  Behind-own (read stream effects) s =
      o.chain _ _ _ (merge_before_lem stream effects s.war).1 (reader-merged stream effects s)
  Behind-own (write stream effects) s = (merge_after_lem stream effects s.child_rw).1

  pub Behind-waits :
      (w : Bool) (x : E) (b : Access E) (s : Store E)
      → w || is_write b ≡ true
      → Behind w x s
      → before x (waits es b s)
  unfolding waits view child view_precondition precondition
  Behind-waits true x (read stream effects) s c h = h
  Behind-waits true x (write stream effects) s c h = o.chain _ _ _ h (merged-right s.war s.child_rw)
  Behind-waits false x (read stream effects) s c h = absurd (cc c)
  Behind-waits false x (write stream effects) s c h = h

  Behind-accesses :
      (w : Bool) (x : E) (between : List (Access E)) (s : Store E)
      → Launched between s
      → Behind w x s
      → Behind w x (accesses es between s)
  unfolding accesses
  Behind-accesses w x [] s l h = h
  Behind-accesses w x (a ∷ rest) s l h =
      Behind-accesses w x rest (access es a s) l.1 (Behind-step w x a s l.0 h)

  -- Let tasks be launched on a store, each done after what it waits for. If of two tasks one writes,
  -- the later one waits for an event that does not trigger before the earlier one is done.
  pub waits-accesses :
      (a b : Access E) (between : List (Access E)) (s : Store E)
      → Launched (a ∷ between) s
      → is_write a || is_write b ≡ true
      → before (done a) (waits es b (accesses es between (access es a s)))
  waits-accesses a b between s l c =
      Behind-waits (is_write a) (done a) b _ c
        (Behind-accesses (is_write a) (done a) between (access es a s) l.1 (Behind-own a s))
