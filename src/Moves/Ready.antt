-- ===== src/Moves/Ready.antt =====
-- Who waits for what a processor sends and receives: src/zuku/reshard.cc (Reshard), with the functions of
-- the patterns for their source and their target.
use zuku.Base.{
  ℕ, ◌≡◌, refl, sym, subst, inl, inr, Bool, true, false, some, List, [], ◌∷◌, ◌++◌, if◌then◌else◌,
  ◌>>=◌, Result, ok,
}
use zuku.Store.{Events, Store, View, precondition}
use zuku.Reshard.{ReshardConfig, unsupported}
use zuku.Store.Views.{Among, done_after, open_subview}
use zuku.Reshard.{
  scatter_gather, broadcast, gather_shards, scatter_shards, unsupported, no_op, point_to_point,
}
use zuku.Moves.{Manager, Array, released_events, Moved, has_tile}
use zuku.Store.Order.{EventOrder}
use zuku.Moves.Parts.{SentAll, ReceivedAll, done_after-events}
use zuku.ScatterGather.{ScatterGatherConfig}
use zuku.Moves.Patterns.{
  scatter_gather-SentAll, Fits, scatter_gather-ReceivedAll, point_to_point-ReceivedAll,
  point_to_point-SentAll, broadcast-SentAll, gather-SentAll, gather-ReceivedAll, scatter-SentAll,
  scatter-ReceivedAll,
}
use zuku.Moves.Carry.{source_first, finish, from_subview, carry_out, target_first, broadcast_first}
use zuku.Moves.Leaves.{SentOn, broadcast-SentOn}
use zuku.Moves.Sides.{scatter_gather_source, scatter_gather_target}

-- A user event that is triggered only after an event, perhaps through other user events.
pub data Held {E : Type 0} (before : E → E → Type 0) (triggers : List (E × E))
    : E → E → Type 0 where
  ended : (e user end : E) → Among (user, end) triggers → before e end → Held before triggers e user
  through :
      (e u v : E) → Held before triggers e u → Held before triggers u v → Held before triggers e v

module _ {E S : Type 0} (es : Events E) (m : Manager E S) (before : E → E → Type 0)
    (o : EventOrder es before) where
  -- The pattern is carried out. What is received is over before the target is ready, and so is the user
  -- event for the leaves, which waits for all that is sent to them. The user event of the source's view
  -- waits for all that is sent.
  pub record Carried (lent freed : E) (r : Result (Moved E S)) : Type 0 where
    pub moved : Moved E S
    pub returned : r ≡ ok moved
    pub good : m.Good moved.manager
    pub received : (e : E) → Among e moved.received → before e (precondition es moved.dst)
    pub sent : (e : E) → Among e moved.sent → Held before moved.triggers e freed
    pub forwarded :
        (e : E)
        → Among e moved.forwarded
        → Held before moved.triggers e lent × before lent (precondition es moved.dst)

  triggered_now :
      (e user end : E) (triggers : List (E × E))
      → triggers ≡ (user, end) ∷ []
      → before e end
      → Held before triggers e user
  triggered_now e user end triggers t b =
      ended e user end (subst (Among (user, end)) (sym t) (inl refl)) b

  target_first-Carried :
      (lent freed : E) (target : Result (List E × Store E × S))
      (source : S → Result (List E × View E × S))
      → ReceivedAll es m before o target
      → ((s : S) → m.Good s → SentAll es m before o freed (source s))
      → Carried lent freed (target_first es m target source)
  unfolding ReceivedAll SentAll
  target_first-Carried lent freed target source (received, r, g, b) sends =
      let (sent, end, r', g', t, b') = sends received.2 g in
      record {
        moved = finish es m sent received sent.2;
        returned = rw (r, r') refl;
        good = g';
        received = b;
        sent = λ e a. triggered_now e freed end _ t (b' e a);
        forwarded = λ e a. absurd a;
      }

  source_first-Carried :
      (lent freed : E) (source : Result (List E × View E × S))
      (target : S → Result (List E × Store E × S))
      → SentAll es m before o freed source
      → ((s : S) → m.Good s → ReceivedAll es m before o (target s))
      → Carried lent freed (source_first es m source target)
  unfolding ReceivedAll SentAll
  source_first-Carried lent freed source target (sent, end, r, g, t, b) receives =
      let (received, r', g', b') = receives sent.2 g in
      record {
        moved = finish es m sent received received.2;
        returned = rw (r, r') refl;
        good = g';
        received = b';
        sent = λ e a. triggered_now e freed end _ t (b e a);
        forwarded = λ e a. absurd a;
      }

  Among-left : {A : Type 0} (x : A) (xs ys : List A) → Among x xs → Among x (xs ++ ys)
  Among-left x [] ys a = absurd a
  Among-left x (z ∷ xs) ys (inl e) = inl e
  Among-left x (z ∷ xs) ys (inr a) = inr (Among-left x xs ys a)

  Among-right : {A : Type 0} (x : A) (xs ys : List A) → Among x ys → Among x (xs ++ ys)
  Among-right x [] ys a = a
  Among-right x (z ∷ xs) ys a = inr (Among-right x xs ys a)

  Held-left :
      (xs ys : List (E × E)) (e user : E) → Held before xs e user → Held before (xs ++ ys) e user
  Held-left xs ys _ _ (ended e user end a b) = ended e user end (Among-left _ xs ys a) b
  Held-left xs ys _ _ (through e u user h k) =
      through e u user (Held-left xs ys e u h) (Held-left xs ys u user k)

  Held-right :
      (xs ys : List (E × E)) (e user : E) → Held before ys e user → Held before (xs ++ ys) e user
  Held-right xs ys _ _ (ended e user end a b) = ended e user end (Among-right _ xs ys a) b
  Held-right xs ys _ _ (through e u user h k) =
      through e u user (Held-right xs ys e u h) (Held-right xs ys u user k)

  broadcast_first-Carried :
      (lent freed : E) (target : Result (List E × Store E × S × List E × List (E × E)))
      (source : S → Result (List E × View E × S))
      → SentOn es m before o lent target
      → ((s : S) → m.Good s → SentAll es m before o freed (source s))
      → Carried lent freed (broadcast_first es m target source)
  unfolding SentOn SentAll
  broadcast_first-Carried lent freed target source (received, r, g, b, on) sends =
      let (sent, end, r', g', t, b') = sends received.2 g in
      record {
        moved = record {
          dst = received.1;
          manager = sent.2;
          sent = sent.0;
          received = received.0;
          forwarded = received.3;
          triggers = received.4 ++ released_events es m sent.1;
        };
        returned = rw (r, r') refl;
        good = g';
        received = b;
        sent = λ e a. Held-right received.4 _ e freed (triggered_now e freed end _ t (b' e a));
        forwarded = λ e a.
            let (last, among, c, d) = on e a in
            (ended e lent last (Among-left _ received.4 _ among) c, d);
      }

  subview_events :
      (lent freed : E) (src : View E)
      → src.war_dependency ≡ some freed
      → (end : E) × (released_events es m (open_subview lent src).1 ≡ (freed, end) ∷ [])
        × before lent end
  unfolding open_subview done_after
  subview_events lent freed src w = done_after-events es m before o freed lent src w

  -- The source sends from a subview, which ends before the view does.
  from_subview-Carried :
      (lent freed : E) (src : View E) (r : Result (Moved E S))
      → src.war_dependency ≡ some freed
      → Carried lent lent r
      → Carried lent freed (r >>= λ moved. ok (from_subview es m lent src moved))
  from_subview-Carried lent freed src r w c =
      let (end, t, b) = subview_events lent freed src w in
      record {
        moved = from_subview es m lent src c.moved;
        returned = rw c.returned refl;
        good = c.good;
        received = c.received;
        sent = λ e a.
            through e lent freed (Held-left c.moved.triggers _ e lent (c.sent e a))
              (Held-right c.moved.triggers _ lent freed (triggered_now lent freed end _ t b));
        forwarded =
            λ e a. (Held-left c.moved.triggers _ e lent (c.forwarded e a).0, (c.forwarded e a).1);
      }

  unmoved-Carried :
      (lent freed : E) (src : View E) (dst : Store E) (s : S)
      → m.Good s
      → Carried lent freed (ok (finish es m ([], src, s) ([], dst, s) s))
  unmoved-Carried lent freed src dst s g = record {
    moved = finish es m ([], src, s) ([], dst, s) s;
    returned = refl;
    good = g;
    received = λ e a. absurd a;
    sent = λ e a. absurd a;
    forwarded = λ e a. absurd a;
  }

  whole-Carried :
      (lent freed : E) (r : Result (Moved E S))
      → Carried lent freed r
      → Carried lent freed (r >>= λ moved. ok moved)
  whole-Carried lent freed r c = record {
    moved = c.moved;
    returned = rw c.returned refl;
    good = c.good;
    received = c.received;
    sent = c.sent;
    forwarded = c.forwarded;
  }

  scatter_gather-Carried :
      (lent freed : E) (config : ScatterGatherConfig) (src_array dst_array : Array) (src : View E)
      (dst : Store E) (s : S) (sends : Bool)
      → src.war_dependency ≡ some freed
      → m.Good s
      → Carried lent freed (
          source_first es m
            (scatter_gather_source es m config src_array dst_array
              (if sends then (open_subview lent src).0 else src)
              s)
            (λ s. scatter_gather_target es m config src_array dst_array dst s)
          >>= λ moved. ok (if sends then from_subview es m lent src moved else moved))
  unfolding open_subview
  scatter_gather-Carried lent freed config src_array dst_array src dst s true w g =
      from_subview-Carried lent freed src _ w (
        source_first-Carried lent lent _ _
          (scatter_gather-SentAll es m before o lent config src_array dst_array
            (open_subview lent src).0 s refl g)
          (λ s g. scatter_gather-ReceivedAll es m before o config src_array dst_array dst s g))
  scatter_gather-Carried lent freed config src_array dst_array src dst s false w g =
      whole-Carried lent freed _ (
        source_first-Carried lent freed _ _
          (scatter_gather-SentAll es m before o freed config src_array dst_array src s w g)
          (λ s g. scatter_gather-ReceivedAll es m before o config src_array dst_array dst s g))

  -- Let the manager answer every call, and let the source's view have a user event. For a source and for
  -- a target that exist, let the configuration have what the pattern looks up, and for a scatter of
  -- shards let there not be fewer targets than sources. Then the pattern is carried out to its end,
  -- whichever it is, and the manager still answers. Whoever waits for the target's store afterwards waits
  -- for all that it receives, and for the user event of the view that is lent to its leaves, which is
  -- triggered after all that is sent to them. The user event of the source's view is triggered after all
  -- that is sent, perhaps through the user event of a subview.
  pub carry_out-Carried :
      (max_dim p : ℕ) (config : ReshardConfig) (src_array dst_array : Array) (lent freed : E)
      (src : View E) (dst : Store E) (s : S)
      → Fits config max_dim p src_array dst_array
      → src.war_dependency ≡ some freed
      → m.Good s
      → Carried lent freed (carry_out es m max_dim p config src_array dst_array lent src dst s)
  unfolding carry_out
  carry_out-Carried max_dim p unsupported src_array dst_array lent freed src dst s fits w g =
      absurd (fits.supported refl)
  carry_out-Carried max_dim p no_op src_array dst_array lent freed src dst s fits w g =
      unmoved-Carried lent freed src dst s g
  carry_out-Carried max_dim p point_to_point src_array dst_array lent freed src dst s fits w g =
      target_first-Carried lent freed _ _
        (point_to_point-ReceivedAll es m before o src_array dst_array dst s g)
        (λ s g. point_to_point-SentAll es m before o freed src_array dst_array src s w g)
  carry_out-Carried max_dim p (scatter_gather config) src_array dst_array lent freed src dst s fits
        w g =
      scatter_gather-Carried lent freed config src_array dst_array src dst s (has_tile src_array) w
        g
  carry_out-Carried max_dim p (broadcast config) src_array dst_array lent freed src dst s fits w g =
      broadcast_first-Carried lent freed _ _
        (broadcast-SentOn es m before o p lent config src_array dst_array dst s fits.target g)
        (λ s g.
          broadcast-SentAll es m before o max_dim p freed config src_array dst_array src s
            fits.source w g)
  carry_out-Carried max_dim p (gather_shards config) src_array dst_array lent freed src dst s fits w
        g =
      source_first-Carried lent freed _ _
        (gather-SentAll es m before o max_dim p freed config src_array dst_array src s fits.source w
          g)
        (λ s g. gather-ReceivedAll es m before o p config src_array dst_array dst s fits.target g)
  carry_out-Carried max_dim p (scatter_shards config) src_array dst_array lent freed src dst s fits
        w g =
      source_first-Carried lent freed _ _
        (scatter-SentAll es m before o max_dim p freed config src_array dst_array src s fits.source
          w g)
        (λ s g. scatter-ReceivedAll es m before o p config src_array dst_array dst s fits.target g)
