-- ===== src/Tasks/Order.antt =====
-- The order of tasks that share stores: src/zuku/defer.h, `_defer`, with the arguments of src/zuku/task.h.
use mathlib.Core.Option
use mathlib.Core.List.{append-nil, append_assoc}
use zuku.Base.{
  ℕ, ◌≡◌, refl, sym, ap, ◌∙◌, subst, inl, inr, Bool, true, false, ◌||◌, Option, none, some, List,
  [], ◌∷◌, ◌++◌, arith, ◌==◌, if◌then◌else◌, Bool-cases, ◌>>=◌, Result, ok, err,
}
use zuku.Store.{Events, event_or, Store}
use zuku.Store.Access.{Access, done, is_write, waits}
use zuku.Store.Order.{EventOrder, Behind, Behind-step, Behind-waits, Behind-own}
use zuku.Store.Views.{Among, merge_all}
use zuku.Tasks.{
  Launch, construct_task, defer, Stores, Token, TaskBase, add_all, Argument, Stored,
  add_dependencies, Returned, runs_on, arg_events, store_args, fresh_task, stream_event, token_of,
  start_event, add_precondition, put,
}
use zuku.Tasks.Accesses.{
  Uses, uses_of_all, use_stores, waits_of, stored_events, use_store, arguments-AtMost,
  store_args-uses,
}

-- A call of `_defer`, with the event of the task that Realm spawns for it.
pub record DeferCall (E : Type 0) : Type 0 where
  pub context : Launch E
  pub effects : E
  pub arguments : List (Argument E)
  pub returned : List (Returned E)

module _ {E : Type 0} (es : Events E) where
  abbrev pub run_call : DeferCall E → Stores E → Result (Token E)
  run_call t h = defer es t.context t.effects t.arguments t.returned h

  -- The stores after calls, one after another.
  pub run_calls : List (DeferCall E) → Stores E → Result (Stores E)
  run_calls [] h = ok h
  run_calls (t ∷ ts) h = run_call t h >>= λ token. run_calls ts token.stores

  -- What a call does to the stores: nothing where the task does not run.
  abbrev pub uses : DeferCall E → Uses E
  uses t =
      if runs_on es t.context
      then uses_of_all (stream_event es t.context t.effects) t.effects t.arguments
      else []

  abbrev with_individual : TaskBase E → List E → TaskBase E
  with_individual t events = record {
    individual_preconditions = events;
    merged_precondition = t.merged_precondition;
  }

  with_events : List E → TaskBase E → TaskBase E
  with_events events t = record {
    individual_preconditions = t.individual_preconditions ++ events;
    merged_precondition = t.merged_precondition;
  }

  add_all-events : (events : List E) (t : TaskBase E) → add_all es events t ≡ with_events events t
  unfolding add_all with_events
  add_all-events [] t = ap (with_individual t) (sym (append-nil t.individual_preconditions))
  add_all-events (event ∷ events) t =
      add_all-events events (add_precondition event t)
      ∙ ap (with_individual t) (append_assoc t.individual_preconditions (event ∷ []) events)

  add_dependencies-events :
      (so : Bool) (stored : List (Stored E)) (t : TaskBase E)
      → add_dependencies es so stored t ≡ with_events (stored_events es so stored) t
  unfolding add_dependencies with_events
  add_dependencies-events so [] t =
      ap (with_individual t) (sym (append-nil t.individual_preconditions))
  add_dependencies-events so (a ∷ stored) t =
      add_dependencies-events so stored _
      ∙ ap (λ u. with_events (stored_events es so stored) u) (add_all-events (arg_events es so a) t)
      ∙ ap (with_individual t) (
          append_assoc t.individual_preconditions (arg_events es so a) (stored_events es so stored))

  abbrev merged_of : List E → Option E
  merged_of events = elim events [
    | [] ↦ none
    | event ∷ [] ↦ some event
    | event ∷ events ↦ some (merge_all es (event ∷ events))
  ]

  -- The constructor never finds its preconditions merged.
  construct-merged :
      (so : Bool) (stored : List (Stored E))
      → construct_task es so stored
        ≡ ok (record {
          individual_preconditions = [];
          merged_precondition = merged_of (stored_events es so stored);
        })
  unfolding construct_task with_events
  construct-merged so stored = rw (add_dependencies-events so stored fresh_task) refl

  -- The token of a call whose task runs.
  abbrev pub token_at : DeferCall E → Stores E → Token E
  token_at t h =
      let stored = store_args es (stream_event es t.context t.effects) t.effects t.arguments h in
      token_of es t.context t.effects t.arguments t.returned stored (record {
        individual_preconditions = [];
        merged_precondition = merged_of (stored_events es t.context.stream_ordered stored.0);
      })

  abbrev pub idle_token : DeferCall E → Stores E → Token E
  idle_token t h = record {
    stores = h;
    starts = none;
    event = es.no_event;
    results = es.no_event ∷ [];
    control = Option.map (λ control. es.no_event) t.context.control;
    barrier = t.context.barrier;
  }

  pub runs-token :
      (t : DeferCall E) (h : Stores E)
      → runs_on es t.context ≡ true
      → run_call t h ≡ ok (token_at t h)
  unfolding defer
  runs-token t h runs =
      let built =
        construct-merged t.context.stream_ordered
          (store_args es (stream_event es t.context t.effects) t.effects t.arguments h).0 in
      rw (runs, built) refl

  pub idle-token :
      (t : DeferCall E) (h : Stores E)
      → runs_on es t.context ≡ false
      → run_call t h ≡ ok (idle_token t h)
  unfolding defer
  idle-token t h idle = rw idle refl

  module _ (before : E → E → Type 0) (o : EventOrder es before) where
    -- Each task starts and ends in its turn: Realm starts it after its event, and its own event and the
    -- user events of its arguments do not trigger before it starts. No task is stream-ordered.
    abbrev pub InTurn : DeferCall E → Token E → Type 0
    InTurn t token =
        (t.context.stream_ordered ≡ false)
        × ((x : ℕ × Access E) → Among x (uses t) → before (event_or es token.starts) (done x.1))

    unfoldable pub Launched : List (DeferCall E) → Stores E → Type 0
    Launched [] h = Unit {0}
    Launched (t ∷ ts) h = elim (run_call t h) [
      | ok token ↦ InTurn t token × Launched ts token.stores
      | err e ↦ Unit {0}
    ]

    start-merged :
        (x : E) (after : Option E) (events : List E)
        → before x (merge_all es events)
        → before x (start_event es after (merged_of events))
    unfolding merge_all
    start-merged x none [] h = h
    start-merged x (some after) [] h = o.chain _ _ _ h (o.never after)
    start-merged x none (e ∷ []) h =
        o.chain _ _ _ h (o.least e es.no_event e (o.same e) (o.never e))
    start-merged x (some after) (e ∷ []) h =
        o.chain _ _ _ h
          (o.chain _ _ _ (o.least e es.no_event e (o.same e) (o.never e)) (o.merge_right after e))
    start-merged x none (e ∷ f ∷ events) h = h
    start-merged x (some after) (e ∷ f ∷ events) h = o.chain _ _ _ h (o.merge_right after _)

    -- A store after an access to another one is the same.
    put-other : (i j : ℕ) (s : Store E) (h : Stores E) → (j == i) ≡ false → put i s h j ≡ h j
    put-other i j s h e = rw e refl

    put-same : (i : ℕ) (s : Store E) (h : Stores E) → put i s h i ≡ s
    put-same i s h = let e : (i == i) ≡ true = ground arith in rw e refl

    Behind-use :
        (w : Bool) (x : E) (i : ℕ) (u : ℕ × Access E) (h : Stores E)
        → before (waits es u.1 (h u.0)) (done u.1)
        → Behind es before o w x (h i)
        → Behind es before o w x (use_store es u h i)
    Behind-use w x i u h l b = elim (Bool-cases (i == u.0)) [
      | inl here ↦
          (let same : i ≡ u.0 = ground arith in
            subst (λ j. Behind es before o w x (use_store es u h j)) (sym same)
              (subst (Behind es before o w x) (sym (put-same u.0 _ h)) (
                Behind-step es before o w x u.1 (h u.0) l
                  (subst (λ j. Behind es before o w x (h j)) same b))))
      | inr there ↦ subst (Behind es before o w x) (sym (put-other u.0 i _ h there)) b
    ]

    -- Every access is over after what all of them wait for.
    abbrev Ends : List E → Uses E → Type 0
    Ends ws us = (u : ℕ × Access E) → Among u us → before (merge_all es ws) (done u.1)

    Behind-uses :
        (w : Bool) (x : E) (i : ℕ) (us : Uses E) (h : Stores E)
        → Ends (waits_of es us h) us
        → Behind es before o w x (h i)
        → Behind es before o w x (use_stores es us h i)
    unfolding use_stores waits_of merge_all
    Behind-uses w x i [] h l b = b
    Behind-uses w x i (u ∷ us) h l b =
        Behind-uses w x i us (use_store es u h)
          (λ v a. o.chain _ _ _ (o.merge_right _ _) (l v (inr a)))
          (Behind-use w x i u h (o.chain _ _ _ (o.merge_left _ _) (l u (inl refl))) b)

    -- After a task the stores know its accesses.
    Behind-Among :
        (i : ℕ) (a : Access E) (us : Uses E) (h : Stores E)
        → Ends (waits_of es us h) us
        → Among (i, a) us
        → Behind es before o (is_write a) (done a) (use_stores es us h i)
    unfolding use_stores waits_of merge_all
    Behind-Among i a [] h l m = absurd m
    Behind-Among i a (u ∷ us) h l (inl e) =
        Behind-uses (is_write a) (done a) i us (use_store es u h)
          (λ v m. o.chain _ _ _ (o.merge_right _ _) (l v (inr m)))
          (subst (λ v. Behind es before o (is_write v.1) (done v.1) (use_store es u h v.0)) (sym e)
            (subst (Behind es before o (is_write u.1) (done u.1)) (sym (put-same u.0 _ h))
              (Behind-own es before o u.1 (h u.0))))
    Behind-Among i a (u ∷ us) h l (inr m) =
        Behind-Among i a us (use_store es u h)
          (λ v m. o.chain _ _ _ (o.merge_right _ _) (l v (inr m))) m

    -- A later access waits for what the stores know.
    Behind-waits_of :
        (w : Bool) (x : E) (i : ℕ) (b : Access E) (us : Uses E) (h : Stores E)
        → Ends (waits_of es us h) us
        → Behind es before o w x (h i)
        → Among (i, b) us
        → w || is_write b ≡ true
        → before x (merge_all es (waits_of es us h))
    unfolding waits_of merge_all
    Behind-waits_of w x i b [] h l k m c = absurd m
    Behind-waits_of w x i b (u ∷ us) h l k (inl e) c =
        o.chain _ _ _
          (subst (λ (v : ℕ × Access E). before x (waits es v.1 (h v.0))) e
            (Behind-waits es before o w x b (h i) c k))
          (o.merge_left _ _)
    Behind-waits_of w x i b (u ∷ us) h l k (inr m) c =
        o.chain _ _ _
          (Behind-waits_of w x i b us (use_store es u h)
            (λ v m. o.chain _ _ _ (o.merge_right _ _) (l v (inr m)))
            (Behind-use w x i u h (o.chain _ _ _ (o.merge_left _ _) (l u (inl refl))) k) m c)
          (o.merge_right _ _)

    -- What a call leaves, if it is in its turn.
    Turn : DeferCall E → Stores E → Token E → Type 0
    Turn t h token =
        (token.stores ≡ use_stores es (uses t) h)
        × Ends (waits_of es (uses t) h) (uses t)
        × ((x : E)
            → before x (merge_all es (waits_of es (uses t) h))
            → before x (event_or es token.starts))

    Turn-runs :
        (t : DeferCall E) (h : Stores E)
        → runs_on es t.context ≡ true
        → InTurn t (token_at t h)
        → Turn t h (token_at t h)
    unfolding Turn
    Turn-runs t h runs (plain_order, ends) =
        let se = stream_event es t.context t.effects in
        let stored = store_args es se t.effects t.arguments h in
        let start : E =
          start_event es t.context.after
            (merged_of (stored_events es t.context.stream_ordered stored.0)) in
        let waits : (x : E)
            → before x (merge_all es (waits_of es (uses_of_all se t.effects t.arguments) h))
            → before x start =
          λ x b.
            start-merged x t.context.after (stored_events es t.context.stream_ordered stored.0) (
              subst (λ so. before x (merge_all es (stored_events es so stored.0))) (sym plain_order)
                (o.chain _ _ _ b (arguments-AtMost es before o se t.effects t.arguments h))) in
        rw runs (
          store_args-uses es se t.effects t.arguments h,
          (λ v m. o.chain _ _ _ (waits _ (o.same _)) ((rw runs at ends) v m)),
          waits,
        )

    Turn-idle :
        (t : DeferCall E) (h : Stores E) → runs_on es t.context ≡ false → Turn t h (idle_token t h)
    unfolding Turn use_stores waits_of merge_all
    Turn-idle t h idle = rw idle (refl, (λ v m. absurd m), λ x b. b)

    turn :
        (t : DeferCall E) (h : Stores E)
        → (token : Token E) × (run_call t h ≡ ok token) × (InTurn t token → Turn t h token)
    turn t h = elim (Bool-cases (runs_on es t.context)) [
      | inl runs ↦ (token_at t h, runs-token t h runs, Turn-runs t h runs)
      | inr idle ↦ (idle_token t h, idle-token t h idle, λ l. Turn-idle t h idle)
    ]

    -- The calls return, and then `u` starts after `x`.
    abbrev pub StartsAfter : E → List (DeferCall E) → DeferCall E → Stores E → Type 0
    StartsAfter x ts u h =
        (later : Stores E) × (token : Token E) × (run_calls ts h ≡ ok later)
        × (run_call u later ≡ ok token)
        × before x (event_or es token.starts)

    later-StartsAfter :
        (w : Bool) (x : E) (i : ℕ) (b : Access E) (between : List (DeferCall E)) (u : DeferCall E)
        (h : Stores E)
        → Launched (between ++ (u ∷ [])) h
        → Behind es before o w x (h i)
        → Among (i, b) (uses u)
        → w || is_write b ≡ true
        → StartsAfter x between u h
    unfolding run_calls Launched Turn
    later-StartsAfter w x i b [] u h l k m c =
        let (token, e, f) = turn u h in
        let (in_turn, rest) = rw (e, Launched) at l in
        let (stores, ends, starts) = f in_turn in
        (h, token, refl, e, starts x (Behind-waits_of w x i b (uses u) h ends k m c))
    later-StartsAfter w x i b (t ∷ between) u h l k m c =
        let (token, e, f) = turn t h in
        let (in_turn, rest) = rw (e, Launched) at l in
        let (stores, ends, starts) = f in_turn in
        rw e (
          later-StartsAfter w x i b between u token.stores rest
            (rw stores (Behind-uses w x i (uses t) h ends k)) m c)

    -- Let tasks be deferred one after another, none of them stream-ordered, where a task's event and the
    -- user events of its arguments do not trigger before the task starts. Every call returns. If two
    -- tasks use the same store and one of them writes it, the later one starts only after the event with
    -- which the earlier one's use of the store ends.
    pub deferred_in_order :
        (t u : DeferCall E) (between : List (DeferCall E)) (h : Stores E) (i : ℕ) (a b : Access E)
        → Launched (t ∷ (between ++ (u ∷ []))) h
        → Among (i, a) (uses t)
        → Among (i, b) (uses u)
        → is_write a || is_write b ≡ true
        → StartsAfter (done a) (t ∷ between) u h
    unfolding run_calls Launched Turn
    deferred_in_order t u between h i a b l m n c =
        let (token, e, f) = turn t h in
        let (in_turn, rest) = rw (e, Launched) at l in
        let (stores, ends, starts) = f in_turn in
        rw e (
          later-StartsAfter (is_write a) (done a) i b between u token.stores rest
            (rw stores (Behind-Among i a (uses t) h ends m)) n c)
