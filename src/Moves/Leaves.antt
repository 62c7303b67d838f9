-- ===== src/Moves/Leaves.antt =====
-- The target of a broadcast, which sends on to its leaves: src/zuku/reshard_broadcast.cc.
use mathlib.Core.List.{append-nil, append_assoc}
use zuku.Base.{
  ℕ, ◌≡◌, refl, ap, inl, true, Option, none, some, List, [], ◌∷◌, ◌++◌, ◌>>=◌, Result, ok,
}
use zuku.Store.{Events, Store, ready_after, View, precondition, effects_or, open_view, view}
use zuku.Store.Views.{Among, merge_all, before-merge_all, release, done_after}
use zuku.Reshard.{broadcast}
use zuku.Moves.{Manager, Array, root_items}
use zuku.Store.Order.{EventOrder, Behind-reader, Behind-own}
use zuku.Tile.{RealmShape}
use zuku.Broadcast.{TargetConfig, BroadcastConfig}
use zuku.Moves.Parts.{receive_item-ReceivedAll, ReceivedAll, ask_all-ok, released-events}
use zuku.Store.Access.{access, read}
use zuku.Moves.Sides.{initial_precondition, broadcast_target, send_leaves, done_after_all}
use zuku.Moves.Patterns.{TargetFits}

module _ {E S : Type 0} (es : Events E) (m : Manager E S) (before : E → E → Type 0)
    (o : EventOrder es before) where
  -- The target's part of a broadcast returns. Its store is ready after what it receives, and is waited for
  -- until a user event that waits for all that is sent to the leaves.
  unfoldable pub SentOn : E → Result (List E × Store E × S × List E × List (E × E)) → Type 0
  SentOn lent r =
      (done : List E × Store E × S × List E × List (E × E)) × (r ≡ ok done)
      × m.Good done.2
      × ((e : E) → Among e done.0 → before e (precondition es done.1))
      × ((e : E)
          → Among e done.3
          → (end : E) × Among (lent, end) done.4
            × before e end
            × before lent (precondition es done.1))

  leaves_done :
      (lent : E) (events views : List E) (v : View E)
      → v.war_dependency ≡ some lent
      → v.views ≡ views
      → (end : E) × ((release es (done_after_all es m events v)).0 ≡ some (lent, end))
        × ((e : E) → Among e (views ++ events) → before e end)
  unfolding release done_after
  leaves_done lent [] [] v w all = (es.no_event, rw (w, all) refl, λ e a. absurd a)
  leaves_done lent [] (x ∷ views) v w all = (
    merge_all es (x ∷ views),
    rw (w, all) refl,
    rw (append-nil views) (λ e a. before-merge_all es before o e (x ∷ views) a),
  )
  leaves_done lent (x ∷ events) views v w all =
      let (end, e, b) =
        leaves_done lent events (views ++ (x ∷ [])) (done_after x v) w
          (ap (λ vs. vs ++ (x ∷ [])) all) in
      (end, e, rw (append_assoc views (x ∷ []) events) at b)

  -- What the store waits for before it is lent, it waits for afterwards.
  lent_lem :
      (x lent : E) (dst : Store E)
      → before x (precondition es dst)
      → before x (precondition es (open_view es lent dst).1)
  unfolding precondition open_view
  lent_lem x lent dst b = Behind-reader es before o x lent lent dst b

  reader_lem : (lent : E) (dst : Store E) → before lent (precondition es (open_view es lent dst).1)
  unfolding precondition open_view access view
  reader_lem lent dst = Behind-own es before o (read lent lent) dst

  send_leaves-SentOn :
      (lent : E) (config : TargetConfig) (dst_array : Array) (tile : ℕ × RealmShape)
      (done : List E × Store E × S) (leaves : List ℕ)
      → config.dst_leaf_shards ≡ leaves
      → m.Good done.2
      → ((e : E) → Among e done.0 → before e (precondition es done.1))
      → SentOn lent (send_leaves es m config dst_array tile lent done)
  unfolding SentOn
  send_leaves-SentOn lent config dst_array tile done [] all g b =
      ((done.0, done.1, done.2, [], []), rw all refl, g, b, λ e a. absurd a)
  send_leaves-SentOn lent config dst_array tile done (leaf ∷ leaves) all g b =
      let opened = open_view es lent done.1 in
      let (events, s', asked, g') =
        ask_all-ok es m before o true (effects_or es (View.precondition opened.0))
          (root_items dst_array dst_array tile.0 tile.1 (leaf ∷ leaves)) done.2 g in
      let (end, ev, c) =
        leaves_done lent events [] opened.0 (unfold open_view in refl) (unfold open_view in refl) in
      (
        (done.0, opened.1, s', events, (lent, end) ∷ []),
        rw
            (
              all,
              asked,
              released-events es m before o (done_after_all es m events opened.0) (lent, end) ev,
            )
            refl,
        g',
        (λ e a. lent_lem e lent done.1 (b e a)),
        λ e a. (end, inl refl, c e a, reader_lem lent done.1),
      )

  initial-ReceivedAll :
      (config : TargetConfig) (src_array dst_array : Array) (tile : ℕ × RealmShape) (dst : Store E)
      (s : S) (src_shard root : Option ℕ)
      → config.src_shard ≡ src_shard
      → config.dst_root_shard ≡ root
      → m.Good s
      → ReceivedAll es m before o (initial_precondition es m config src_array dst_array tile dst s)
  unfolding ReceivedAll
  initial-ReceivedAll config src_array dst_array tile dst s (some shard) root a b g =
      rw a (receive_item-ReceivedAll es m before o _ tile.1 dst s g)
  initial-ReceivedAll config src_array dst_array tile dst s none (some root) a b g =
      rw (a, b) (receive_item-ReceivedAll es m before o _ tile.1 dst s g)
  initial-ReceivedAll config src_array dst_array tile dst s none none a b g =
      (([], ready_after es es.no_event es.no_event dst, s), rw (a, b) refl, g, λ e l. absurd l)

  then-SentOn :
      (lent : E) (target : TargetConfig) (dst_array : Array) (tile : ℕ × RealmShape)
      (r : Result (List E × Store E × S))
      → ReceivedAll es m before o r
      → SentOn lent (r >>= send_leaves es m target dst_array tile lent)
  unfolding ReceivedAll
  then-SentOn lent target dst_array tile r (done, e, g, b) =
      rw e (send_leaves-SentOn lent target dst_array tile done target.dst_leaf_shards refl g b)

  held-SentOn :
      (lent : E) (held : Option (ℕ × RealmShape))
      (f : ℕ × RealmShape → Result (List E × Store E × S × List E × List (E × E))) (dst : Store E)
      (s : S)
      → m.Good s
      → ((tile : ℕ × RealmShape) → held ≡ some tile → SentOn lent (f tile))
      → SentOn lent (elim held [ none ↦ ok ([], dst, s, [], []) | some tile ↦ f tile ])
  unfolding SentOn
  held-SentOn lent none f dst s g h =
      (([], dst, s, [], []), refl, g, (λ x a. absurd a), λ x a. absurd a)
  held-SentOn lent (some tile) f dst s g h = h tile refl

  pub broadcast-SentOn :
      (p : ℕ) (lent : E) (config : BroadcastConfig) (src_array dst_array : Array) (dst : Store E)
      (s : S)
      → ((tile : ℕ × RealmShape)
          → dst_array.held ≡ some tile
          → TargetFits (broadcast config) p src_array dst_array)
      → m.Good s
      → SentOn lent (broadcast_target es m config src_array dst_array lent dst s)
  unfolding broadcast_target
  broadcast-SentOn p lent config src_array dst_array dst s fits g =
      held-SentOn lent dst_array.held _ dst s g (λ tile h.
        let (target, found) = fits tile h in
        rw found (
          then-SentOn lent target dst_array tile _ (
            initial-ReceivedAll target src_array dst_array tile dst s target.src_shard
              target.dst_root_shard refl refl g)))
