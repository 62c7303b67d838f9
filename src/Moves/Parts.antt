-- ===== src/Moves/Parts.antt =====
-- The parts of a source and of a target: src/zuku/reshard_point_to_point.cc,
-- src/zuku/reshard_scatter_gather.cc and the other patterns, as far as they are alike.
use zuku.Base.{
  ℕ, ◌≡◌, refl, sym, ap, subst, inl, inr, Bool, true, false, Option, none, some, List, [], ◌∷◌,
  ◌++◌, Result, ok,
}
use zuku.Store.{Events, Store, ready_after, View, precondition, effects_or}
use zuku.Store.Views.{Among, merge_all, before-merge_all, released, release, done_after}
use zuku.Moves.{
  Manager, ask_all, receive_items, receive_item, released_events, send_items, send_item,
}
use zuku.Store.Order.{EventOrder, merge_after_lem}
use zuku.Tile.{RealmShape}
use zuku.Shards.{ReshardKey}

module _ {E S : Type 0} (es : Events E) (m : Manager E S) (before : E → E → Type 0)
    (o : EventOrder es before) where
  pub ask_all-ok :
      (sends : Bool) (e : E) (items : List (ReshardKey × RealmShape)) (s : S)
      → m.Good s
      → (events : List E) × (s' : S) × (ask_all es m sends e items s ≡ ok (events, s')) × m.Good s'
  unfolding ask_all
  ask_all-ok sends e [] s g = ([], s, refl, g)
  ask_all-ok sends e ((key, bounds) ∷ items) s g =
      let (s1, event, asked, g1) =
        m.answers (record { sends = sends; key = key; shape = bounds; precondition = e }) s g in
      let (events, s2, rest, g2) = ask_all-ok sends e items s1 g1 in
      (event ∷ events, s2, rw (asked, rest) refl, g2)

  -- The target's part returns, and its store is ready after all that is received.
  unfoldable pub ReceivedAll : Result (List E × Store E × S) → Type 0
  ReceivedAll r =
      (done : List E × Store E × S) × (r ≡ ok done)
      × m.Good done.2
      × ((e : E) → Among e done.0 → before e (precondition es done.1))

  -- The source's part returns, and the user event of its view waits for all that is sent.
  unfoldable pub SentAll : E → Result (List E × View E × S) → Type 0
  SentAll user r =
      (done : List E × View E × S) × (end : E) × (r ≡ ok done)
      × m.Good done.2
      × (released_events es m done.1 ≡ (user, end) ∷ [])
      × ((e : E) → Among e done.0 → before e end)

  pub ready_lem : (e : E) (dst : Store E) → before e (precondition es (ready_after es e e dst))
  unfolding ready_after precondition
  ready_lem e dst = (merge_after_lem es before o e e dst.child_rw).1

  pub receive_items-ReceivedAll :
      (items : List (ReshardKey × RealmShape)) (dst : Store E) (s : S)
      → m.Good s
      → ReceivedAll (receive_items es m items dst s)
  unfolding ReceivedAll
  receive_items-ReceivedAll items dst s g =
      let (events, s', asked, g') = ask_all-ok false (precondition es dst) items s g in
      let end : E = merge_all es events in
      (
        (events, ready_after es end end dst, s'),
        rw asked refl,
        g',
        λ e a. o.chain _ _ _ (before-merge_all es before o e events a) (ready_lem end dst),
      )

  pub receive_item-ReceivedAll :
      (key : ReshardKey) (bounds : RealmShape) (dst : Store E) (s : S)
      → m.Good s
      → ReceivedAll (receive_item es m key bounds dst s)
  unfolding ReceivedAll
  receive_item-ReceivedAll key bounds dst s g =
      let (s', event, asked, g') =
        m.answers
          (record { sends = false; key = key; shape = bounds; precondition = precondition es dst })
          s g in
      (
        (event ∷ [], ready_after es event event dst, s'),
        rw asked refl,
        g',
        λ e a. only e event (ready_lem event dst) a,
      )
    where
      only :
          (e event : E)
          → before event (precondition es (ready_after es event event dst))
          → Among e (event ∷ [])
          → before e (precondition es (ready_after es event event dst))
      only e event b (inl same) =
          subst (λ x. before x (precondition es (ready_after es event event dst))) (sym same) b
      only e event b (inr none_else) = absurd none_else

  -- A view's user event waits for what the view was used for last, whatever it was used for before.
  last_use :
      (user x : E) (views : List E)
      → (end : E) × ((released es (some user) (views ++ (x ∷ []))).0 ≡ some (user, end))
        × before x end
  last_use user x [] =
      (merge_all es (x ∷ []), refl, before-merge_all es before o x (x ∷ []) (inl refl))
  last_use user x (v ∷ views) = (
    merge_all es (v ∷ (views ++ (x ∷ []))),
    refl,
    before-merge_all es before o x (v ∷ (views ++ (x ∷ []))) (inr (last_among views)),
  )
    where
      last_among : (views : List E) → Among x (views ++ (x ∷ []))
      last_among [] = inl refl
      last_among (v ∷ views) = inr (last_among views)

  unused :
      (user : E) (views : List E)
      → (end : E) × ((released es (some user) views).0 ≡ some (user, end))
  unused user [] = (es.no_event, refl)
  unused user (v ∷ views) = (merge_all es (v ∷ views), refl)

  pub released-events :
      (v : View E) (trigger : E × E)
      → (release es v).0 ≡ some trigger
      → released_events es m v ≡ trigger ∷ []
  released-events v trigger e =
      ap (λ (t : Option (E × E)). elim t [ none ↦ [] | some trigger ↦ trigger ∷ [] ]) e

  pub done_after-events :
      (user x : E) (src : View E)
      → src.war_dependency ≡ some user
      → (end : E) × (released_events es m (done_after x src) ≡ (user, end) ∷ []) × before x end
  unfolding release done_after
  done_after-events user x src held =
      let (end, e, b) = last_use user x src.views in
      (end, released-events (done_after x src) (user, end) (rw (held, e) refl), b)

  pub send_items-SentAll :
      (user : E) (items : List (ReshardKey × RealmShape)) (src : View E) (s : S)
      → src.war_dependency ≡ some user
      → m.Good s
      → SentAll user (send_items es m items src s)
  unfolding SentAll
  send_items-SentAll user items src s held g =
      let (events, s', asked, g') = ask_all-ok true (effects_or es src.precondition) items s g in
      let (end, e, b) = done_after-events user (merge_all es events) src held in
      (
        (events, done_after (merge_all es events) src, s'),
        end,
        rw asked refl,
        g',
        e,
        λ x a. o.chain _ _ _ (before-merge_all es before o x events a) b,
      )

  pub send_item-SentAll :
      (user : E) (key : ReshardKey) (bounds : RealmShape) (src : View E) (s : S)
      → src.war_dependency ≡ some user
      → m.Good s
      → SentAll user (send_item es m key bounds src s)
  unfolding SentAll
  send_item-SentAll user key bounds src s held g =
      let (s', event, asked, g') =
        m.answers
          (record {
            sends = true;
            key = key;
            shape = bounds;
            precondition = effects_or es src.precondition;
          })
          s g in
      let (end, e, b) = done_after-events user event src held in
      (
        (event ∷ [], done_after event src, s'),
        end,
        rw asked refl,
        g',
        e,
        λ x a. only x event end b a,
      )
    where
      only : (x event end : E) → before event end → Among x (event ∷ []) → before x end
      only x event end b (inl same) = subst (λ y. before y end) (sym same) b
      only x event end b (inr none_else) = absurd none_else

  -- A processor without a tile receives nothing, or sends nothing.
  pub held-ReceivedAll :
      (held : Option (ℕ × RealmShape)) (f : ℕ × RealmShape → Result (List E × Store E × S))
      (dst : Store E) (s : S)
      → m.Good s
      → ((tile : ℕ × RealmShape) → held ≡ some tile → ReceivedAll (f tile))
      → ReceivedAll (elim held [ none ↦ ok ([], dst, s) | some tile ↦ f tile ])
  unfolding ReceivedAll
  held-ReceivedAll none f dst s g h = (([], dst, s), refl, g, λ e a. absurd a)
  held-ReceivedAll (some tile) f dst s g h = h tile refl

  pub held-SentAll :
      (user : E) (held : Option (ℕ × RealmShape))
      (f : ℕ × RealmShape → Result (List E × View E × S)) (src : View E) (s : S)
      → src.war_dependency ≡ some user
      → m.Good s
      → ((tile : ℕ × RealmShape) → held ≡ some tile → SentAll user (f tile))
      → SentAll user (elim held [ none ↦ ok ([], src, s) | some tile ↦ f tile ])
  unfolding SentAll release
  held-SentAll user none f src s w g h =
      let (end, e) = unused user src.views in
      (
        ([], src, s),
        end,
        refl,
        g,
        released-events src (user, end) (rw (w, e) refl),
        λ x a. absurd a,
      )
  held-SentAll user (some tile) f src s w g h = h tile refl
