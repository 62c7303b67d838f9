-- ===== src/Manager/Remote.antt =====
-- The source's node of a pair of shards on two nodes: src/zuku/reshard_manager.cc,
-- `RendezvousReshardFromLocalSource` and `ReceivePointToPointNames` with an instance.
use mathlib.Core.List.{append-nil, append_assoc, map-append}
use zuku.Base.{
  ℕ, zero, suc, ◌+◌, ◌≡◌, refl, sym, ap, ◌∙◌, subst, ◌⊎◌, inl, inr, true, none, some, List, [], ◌∷◌,
  ◌++◌, arith, length, All, ◌>>=◌, Result, ok,
}
use zuku.Store.{Events}
use zuku.Store.Order.{EventOrder}
use zuku.Manager.{
  Action, PendingOp, Request, reshard_from_source, Entry, Reply, receive_instance, arrive, send_to,
  after_names, with_queues, issue, with_ack, described, instance_from, trigger, exchange,
}
use zuku.Manager.Matched.{
  Side, Copy, Matched, copies, copies-append, Matched-sender, Matched-more, Matched-send, Asked,
  Asked-right, Matched-receiver, Matched-receive,
}
use zuku.Manager.Local.{start, Log, Waiting, tiles, Waiting-snoc}

-- A sender calls, or the names of a target arrive: its barrier and its tile, and the event of the copy
-- that the arrival may start.
pub data Notice (E : Type 0) : Type 0 where
  sends : Request E → Notice E
  names : (barrier : E) (target : ℕ) (post : E) → Notice E

abbrev pub sent_tiles : {E : Type 0} → List (Notice E) → List ℕ
sent_tiles [] = []
sent_tiles (sends q ∷ ns) = q.instance_id ∷ sent_tiles ns
sent_tiles (names barrier target post ∷ ns) = sent_tiles ns

abbrev pub named_tiles : {E : Type 0} → List (Notice E) → List ℕ
named_tiles [] = []
named_tiles (sends q ∷ ns) = named_tiles ns
named_tiles (names barrier target post ∷ ns) = target ∷ named_tiles ns

module _ {E : Type 0} (es : Events E) (advance : E → E) where
  -- The `n`-th phase of a barrier.
  abbrev pub phase : E → ℕ → E
  phase base zero = base
  phase base (suc n) = advance (phase base n)

  abbrev noted : E → ℕ → E → Log E → Entry E → List (Action E) → Log E
  noted barrier target event l entry actions = record {
    entry = entry;
    senders = l.senders;
    receivers =
        l.receivers
        ++ (record { precondition = barrier; instance_id = target; event = event } ∷ []);
    actions = l.actions ++ actions;
  }

  abbrev sent : Request E → Log E → Reply E → Log E
  sent q l reply = record {
    entry = reply.entry;
    senders =
        l.senders
        ++ (record {
          precondition = q.precondition;
          instance_id = q.instance_id;
          event = reply.event;
        }
            ∷ []);
    receivers = l.receivers;
    actions = l.actions ++ reply.actions;
  }

  -- The log gives the `n`-th target the `n`-th phase of the barrier `base`, for which it waits.
  unfoldable pub notice : E → Notice E → Log E → Result (Log E)
  unfolding reshard_from_source receive_instance
  notice base (sends q) l = do
    reply ← reshard_from_source es advance true q l.entry
    ok (sent q l reply)
  notice base (names barrier target post) l = do
    done ← receive_instance es advance barrier target post l.entry
    ok (noted barrier target (phase base (length l.receivers)) l done.0 done.1)

  unfoldable pub notices : E → List (Notice E) → Log E → Result (Log E)
  unfolding notice
  notices base [] l = ok l
  notices base (n ∷ ns) l = notice base n l >>= notices base ns

  -- The names that the entry keeps are the targets that wait.
  abbrev pub Noted : List (PendingOp E) → List (Side E) → Type 0
  Noted [] [] = Unit {0}
  Noted [] (s ∷ ss) = ⊥
  Noted (op ∷ ops) [] = ⊥
  Noted (op ∷ ops) (s ∷ ss) =
      ((op.precondition ≡ s.precondition) × (op.instance_id ≡ s.instance_id)) × Noted ops ss

  Noted-snoc :
      (ops : List (PendingOp E)) (ss : List (Side E)) (op : PendingOp E) (s : Side E)
      → Noted ops ss
      → Noted (op ∷ []) (s ∷ [])
      → Noted (ops ++ (op ∷ [])) (ss ++ (s ∷ []))
  Noted-snoc [] [] op s w v = v
  Noted-snoc [] (x ∷ ss) op s w v = absurd w
  Noted-snoc (x ∷ ops) [] op s w v = absurd w
  Noted-snoc (x ∷ ops) (y ∷ ss) op s (u, w) v = (u, Noted-snoc ops ss op s w v)

  module _ (base : E) where
    -- The targets wait for the phases from `n` on.
    abbrev pub Phased : ℕ → List (Side E) → Type 0
    Phased n [] = Unit {0}
    Phased n (s ∷ ss) = (s.event ≡ phase base n) × Phased (suc n) ss

    Phased-snoc :
        (n : ℕ) (ss : List (Side E)) (s : Side E)
        → Phased n ss
        → s.event ≡ phase base (n + length ss)
        → Phased n (ss ++ (s ∷ []))
    Phased-snoc n [] s p e = (e ∙ ap (phase base) (omega arith), tt)
    Phased-snoc n (x ∷ ss) s (a, p) e =
        (a, Phased-snoc (suc n) ss s p (e ∙ ap (phase base) (omega arith)))

    module _ (before : E → E → Type 0) (o : EventOrder es before) where
      -- The first target that waits has the phase that the next copy arrives at.
      phase-next :
          (n : ℕ) (xs : List (Action E)) (ss ds : List (Side E)) (cs : List (Copy E))
          (ps pd : List (Side E)) (d : Side E)
          → Matched before arrive xs ss ds cs ps (d ∷ pd)
          → Phased n ds
          → d.event ≡ phase base (n + length cs)
      phase-next n xs ss ds [] ps pd d m p =
          (subst (Phased n) m.1 p).0 ∙ ap (phase base) (omega arith)
      phase-next n xs [] ds (c ∷ cs) ps pd d m p = absurd m
      phase-next n xs (s ∷ ss) [] (c ∷ cs) ps pd d m p = absurd m
      phase-next n xs (s ∷ ss) (y ∷ ds) (c ∷ cs) ps pd d (u, m) (a, p) =
          phase-next (suc n) xs ss ds cs ps pd d m p ∙ ap (phase base) (omega arith)

      -- If no target waits, there are as many targets as copies.
      length-Matched :
          (xs : List (Action E)) (ss ds : List (Side E)) (cs : List (Copy E)) (ps : List (Side E))
          → Matched before arrive xs ss ds cs ps []
          → length ds ≡ length cs
      length-Matched xs ss ds [] ps m = ap length m.1
      length-Matched xs [] ds (c ∷ cs) ps m = absurd m
      length-Matched xs (s ∷ ss) [] (c ∷ cs) ps m = absurd m
      length-Matched xs (s ∷ ss) (y ∷ ds) (c ∷ cs) ps (u, m) =
          ap suc (length-Matched xs ss ds cs ps m)

      -- Senders and targets are served in their order; the `n`-th copy arrives at the `n`-th phase.
      pub record IsNoted (l : Log E) : Type 0 where
        pub waiting_senders : List (Side E)
        pub waiting_receivers : List (Side E)
        pub sources_wait : Waiting es advance l.entry.sources waiting_senders
        pub targets_wait : Noted l.entry.targets waiting_receivers
        pub one_side : (waiting_senders ≡ []) ⊎ (waiting_receivers ≡ [])
        pub phased : Phased 0 l.receivers
        pub acked :
            (l.entry.ack_barrier ≡ some (phase base (length (copies l.actions))))
            ⊎ ((l.entry.ack_barrier ≡ none)
                × (waiting_senders ≡ [])
                × (length (copies l.actions) ≡ 0))
        pub matched :
            Matched before arrive l.actions l.senders l.receivers
              (copies l.actions)
              waiting_senders
              waiting_receivers

      abbrev pub Heard : List ℕ → List ℕ → Result (Log E) → Type 0
      Heard senders receivers result =
          (l' : Log E) × (result ≡ ok l')
          × (tiles l'.senders ≡ senders)
          × (tiles l'.receivers ≡ receivers)
          × IsNoted l'

      count :
          (cs : List (Copy E)) (made : List (Action E))
          → length (copies made) ≡ 1
          → suc (length cs) ≡ length (cs ++ copies made)
      count [] made e = sym e
      count (c ∷ cs) made e = ap suc (count cs made e)

      abbrev sent_from :
          Request E → Log E → Entry E → List (Action E) → List (PendingOp E) → Result (Log E)
      sent_from q l named quiet targets =
          send_to es advance true q named targets >>= after_names es advance quiet >>= λ reply.
          ok (sent q l reply)

      send-Next :
          (q : Request E) (l : Log E) (named : Entry E) (quiet : List (Action E))
          (targets : List (PendingOp E)) (ps pd : List (Side E))
          → copies quiet ≡ []
          → Waiting es advance named.sources ps
          → Noted targets pd
          → (ps ≡ []) ⊎ (pd ≡ [])
          → Phased 0 l.receivers
          → named.ack_barrier ≡ some (phase base (length (copies l.actions)))
          → Matched before arrive l.actions l.senders l.receivers (copies l.actions) ps pd
          → Heard
              (tiles l.senders ++ (q.instance_id ∷ []))
              (tiles l.receivers)
              (sent_from q l named quiet targets)
      send-Next q l named quiet [] ps [] silent ws wt one p ack m =
          let same : copies (l.actions ++ (quiet ++ [])) ≡ copies l.actions =
            copies-append l.actions (quiet ++ [])
            ∙ ap (λ x. copies l.actions ++ copies x) (append-nil quiet)
            ∙ ap (λ x. copies l.actions ++ x) silent
            ∙ append-nil (copies l.actions) in
          (
            sent q l (record {
              entry =
                  with_queues
                    (named.sources
                      ++ (record {
                        precondition = q.precondition;
                        to_trigger = some q.new_event;
                        instance_id = q.instance_id;
                      }
                          ∷ []))
                    [] named;
              actions = quiet ++ [];
              event = q.new_event;
            }),
            refl,
            map-append _ l.senders _,
            refl,
            record {
              waiting_senders =
                  ps
                  ++ (record {
                    precondition = q.precondition;
                    instance_id = q.instance_id;
                    event = q.new_event;
                  }
                      ∷ []);
              waiting_receivers = [];
              sources_wait = Waiting-snoc es advance _ ps _ _ ws ((refl, refl, refl), tt);
              targets_wait = tt;
              one_side = inr refl;
              phased = p;
              acked = inl (ack ∙ ap (λ x. some (phase base (length x))) (sym same));
              matched = rw same (
                  Matched-sender before arrive _ l.senders l.receivers _ ps [] _
                    (Matched-more before arrive l.actions _ l.senders l.receivers _ ps [] m));
            },
          )
      send-Next q l named quiet [] ps (d ∷ pd) silent ws wt one p ack m = absurd wt
      send-Next q l named quiet (op ∷ rest) ps [] silent ws wt one p ack m = absurd wt
      send-Next q l named quiet (op ∷ rest) ps (d ∷ pd) silent ws (w, wt) (inr e) p ack m =
          absurd (omega (arith, ap length e))
      send-Next q l named quiet (op ∷ rest) ps (d ∷ pd) silent ws (w, wt) (inl e) p ack m =
          let made : List (Action E) =
            issue es advance named q.instance_id op.instance_id
              (es.merge op.precondition q.precondition) q.post
            ∷ arrive (phase base (length (copies l.actions))) q.post
            ∷ [] in
          let one_more : copies (l.actions ++ (quiet ++ made)) ≡ copies l.actions ++ copies made =
            copies-append l.actions (quiet ++ made)
            ∙ ap (λ x. copies l.actions ++ x) (copies-append quiet made)
            ∙ ap (λ x. copies l.actions ++ (x ++ copies made)) silent in
          (
            sent q l (record {
              entry =
                  with_queues named.sources rest
                    (with_ack (some (advance (phase base (length (copies l.actions))))) named);
              actions = quiet ++ made;
              event = q.post;
            }),
            rw ack refl,
            map-append _ l.senders _,
            refl,
            record {
              waiting_senders = ps;
              waiting_receivers = pd;
              sources_wait = ws;
              targets_wait = wt;
              one_side = inl e;
              phased = p;
              acked = inl (
                  ap (λ x. some x)
                    (ap (phase base)
                      (count (copies l.actions) made refl ∙ ap length (sym one_more))));
              matched =
                  rw (e, one_more)
                    (Matched-send before arrive _ l.senders l.receivers (copies l.actions) pd _ d _
                      (Matched-more before arrive l.actions _ l.senders l.receivers _ [] (d ∷ pd)
                        (rw e at m))
                      (record {
                        from = refl;
                        to = w.1;
                        sender_ready = o.merge_right _ _;
                        receiver_ready =
                            subst (λ x. before x (es.merge op.precondition q.precondition)) w.0
                              (o.merge_left _ _);
                        sender_done = inl refl;
                        receiver_done = inr (
                            subst (λ x. Asked (arrive x q.post) (l.actions ++ (quiet ++ made)))
                              (sym (
                                phase-next 0 l.actions l.senders l.receivers (copies l.actions) ps
                                  pd d m p
                                ∙ ap (phase base) (omega arith)))
                              (Asked-right before arrive _ l.actions _
                                (Asked-right before arrive _ quiet made (inr (inl refl)))));
                      }));
            },
          )

      abbrev named_by : E → ℕ → E → Log E → List (PendingOp E) → Result (Log E)
      named_by barrier target post l ops =
          instance_from es advance barrier target post l.entry ops >>= λ done.
          ok (noted barrier target (phase base (length l.receivers)) l done.0 done.1)

      names_next :
          (barrier : E) (target : ℕ) (post : E) (l : Log E) (ops : List (PendingOp E))
          (ps pd : List (Side E))
          → l.entry.sources ≡ ops
          → Waiting es advance ops ps
          → Noted l.entry.targets pd
          → (ps ≡ []) ⊎ (pd ≡ [])
          → Phased 0 l.receivers
          → (l.entry.ack_barrier ≡ some (phase base (length (copies l.actions))))
            ⊎ ((l.entry.ack_barrier ≡ none) × (ps ≡ []) × (length (copies l.actions) ≡ 0))
          → Matched before arrive l.actions l.senders l.receivers (copies l.actions) ps pd
          → Heard
              (tiles l.senders)
              (tiles l.receivers ++ (target ∷ []))
              (named_by barrier target post l ops)
      names_next barrier target post l [] [] pd e ws wt one p ack m = (
        noted barrier target (phase base (length l.receivers)) l
            (with_queues l.entry.sources
              (l.entry.targets
                ++ (record { precondition = barrier; to_trigger = none; instance_id = target }
                    ∷ []))
              l.entry)
            [],
        refl,
        refl,
        map-append _ l.receivers _,
        record {
          waiting_senders = [];
          waiting_receivers =
              pd
              ++ (record {
                precondition = barrier;
                instance_id = target;
                event = phase base (length l.receivers);
              }
                  ∷ []);
          sources_wait = rw e tt;
          targets_wait = Noted-snoc _ pd _ _ wt ((refl, refl), tt);
          one_side = inl refl;
          phased = Phased-snoc 0 l.receivers _ p (ap (phase base) (omega arith));
          acked = rw (append-nil l.actions) ack;
          matched =
              rw (append-nil l.actions)
                (Matched-receiver before arrive l.actions l.senders l.receivers _ [] pd _ m);
        },
      )
      names_next barrier target post l [] (s ∷ ps) pd e ws wt one p ack m = absurd ws
      names_next barrier target post l (op ∷ rest) [] pd e ws wt one p ack m = absurd ws
      names_next barrier target post l (op ∷ rest) (s ∷ ps) pd e (w, ws) wt (inl n) p ack m =
          absurd (omega (arith, ap length n))
      names_next barrier target post l (op ∷ rest) (s ∷ ps) pd e (w, ws) wt (inr n) p (inr a) m =
          absurd (omega (arith, ap length a.1))
      names_next barrier target post l (op ∷ rest) (s ∷ ps) pd e (w, ws) wt (inr n) p (inl ack) m =
          let made : List (Action E) =
            issue es advance l.entry op.instance_id target (es.merge barrier op.precondition) post
            ∷ arrive (phase base (length (copies l.actions))) post
            ∷ trigger s.event post
            ∷ [] in
          let as_many : length l.receivers ≡ length (copies l.actions) =
            length-Matched l.actions l.senders l.receivers (copies l.actions) (s ∷ ps)
              (rw n at m) in
          (
            noted barrier target (phase base (length l.receivers)) l
                (with_queues rest l.entry.targets
                  (with_ack (some (advance (phase base (length (copies l.actions))))) l.entry))
                made,
            rw (ack, w.2) refl,
            refl,
            map-append _ l.receivers _,
            record {
              waiting_senders = ps;
              waiting_receivers = pd;
              sources_wait = ws;
              targets_wait = wt;
              one_side = inr n;
              phased = Phased-snoc 0 l.receivers _ p (ap (phase base) (omega arith));
              acked = inl (
                  ap (λ x. some (phase base x))
                    (count (copies l.actions) made refl
                      ∙ ap length (sym (copies-append l.actions made))));
              matched =
                  rw (n, copies-append l.actions)
                    (Matched-receive before arrive _ l.senders l.receivers (copies l.actions) ps s _
                      _
                      (Matched-more before arrive l.actions _ l.senders l.receivers _ (s ∷ ps) []
                        (rw n at m))
                      (record {
                        from = w.1;
                        to = refl;
                        sender_ready =
                            subst (λ x. before x (es.merge barrier op.precondition)) w.0
                              (o.merge_right _ _);
                        receiver_ready = o.merge_left _ _;
                        sender_done =
                            inr (Asked-right before arrive _ l.actions made (inr (inr (inl refl))));
                        receiver_done = inr (
                            Asked-right before arrive _ l.actions made
                              (inr (inl (ap (λ x. arrive (phase base x) post) as_many))));
                      }));
            },
          )

      -- The barrier that a sender would make.
      abbrev pub Makes : Notice E → Type 0
      Makes (sends q) = q.new_barrier ≡ base
      Makes (names barrier target post) = Unit {0}

      notice-IsNoted :
          (n : Notice E) (l : Log E)
          → Makes n
          → IsNoted l
          → Heard
              (tiles l.senders ++ sent_tiles (n ∷ []))
              (tiles l.receivers ++ named_tiles (n ∷ []))
              (notice base n l)
      unfolding notice reshard_from_source receive_instance
      notice-IsNoted (sends q) l b v = elim v.acked [
        | inl ack ↦
            rw (append-nil (tiles l.receivers), ack)
              (send-Next q l
                (with_ack (some (phase base (length (copies l.actions)))) (described q l.entry)) []
                l.entry.targets v.waiting_senders v.waiting_receivers refl v.sources_wait
                v.targets_wait v.one_side v.phased refl v.matched)
        | inr (ack, none_waits, none_made) ↦
            rw (append-nil (tiles l.receivers), ack)
              (send-Next q l (with_ack (some q.new_barrier) (described q l.entry))
                (exchange q.new_barrier none ∷ []) l.entry.targets v.waiting_senders
                v.waiting_receivers refl v.sources_wait v.targets_wait v.one_side v.phased
                (ap (λ x. some x) (b ∙ ap (phase base) (sym none_made))) v.matched)
      ]
      notice-IsNoted (names barrier target post) l b v = rw (append-nil (tiles l.senders)) (
          names_next barrier target post l l.entry.sources v.waiting_senders v.waiting_receivers
            refl v.sources_wait v.targets_wait v.one_side v.phased v.acked v.matched)

      sent_tiles-cons :
          (n : Notice E) (ns : List (Notice E))
          → sent_tiles (n ∷ ns) ≡ sent_tiles (n ∷ []) ++ sent_tiles ns
      sent_tiles-cons (sends q) ns = refl
      sent_tiles-cons (names barrier target post) ns = refl

      named_tiles-cons :
          (n : Notice E) (ns : List (Notice E))
          → named_tiles (n ∷ ns) ≡ named_tiles (n ∷ []) ++ named_tiles ns
      named_tiles-cons (sends q) ns = refl
      named_tiles-cons (names barrier target post) ns = refl

      notices-from :
          (ns : List (Notice E)) (l : Log E)
          → All Makes ns
          → IsNoted l
          → Heard
              (tiles l.senders ++ sent_tiles ns)
              (tiles l.receivers ++ named_tiles ns)
              (notices base ns l)
      unfolding notices
      notices-from [] l b v = (l, refl, sym (append-nil _), sym (append-nil _), v)
      notices-from (n ∷ ns) l (here, later) v =
          let (l', e, a, c, v') = notice-IsNoted n l here v in
          rw
            (
              sent_tiles-cons n ns,
              named_tiles-cons n ns,
              e,
              ← append_assoc (tiles l.senders) (sent_tiles (n ∷ [])) (sent_tiles ns),
              ← append_assoc (tiles l.receivers) (named_tiles (n ∷ [])) (named_tiles ns),
              ← a,
              ← c,
            )
            (notices-from ns l' later v')

      -- Let senders call and names of targets arrive on a new entry of the source's node, in any order,
      -- where `base` is the barrier that the first sender makes. No handler fails. The copies serve the
      -- senders and the targets one by one in their order: each copies the sender's tile to the target's
      -- after the sender's precondition and the target's barrier, the sender's event comes with its end,
      -- and its end arrives at the phase of `base` that has the target's number.
      pub notices-IsNoted :
          (ns : List (Notice E))
          → All Makes ns
          → Heard (sent_tiles ns) (named_tiles ns) (notices base ns start)
      notices-IsNoted ns b = notices-from ns start b (record {
        waiting_senders = [];
        waiting_receivers = [];
        sources_wait = tt;
        targets_wait = tt;
        one_side = inl refl;
        phased = tt;
        acked = inr (refl, refl, refl);
        matched = (refl, refl);
      })
