-- ===== src/Manager/Local.antt =====
-- A sender and a receiver on one node: src/zuku/reshard_manager.cc, both rendezvous handlers on one
-- entry, without the exchange of names.
use zuku.Base.{
  ℕ, ◌≡◌, refl, sym, ap, subst, ◌⊎◌, inl, inr, false, none, some, List, [], ◌∷◌, ◌++◌, map, arith,
  length, ◌>>=◌, Result, ok,
}
use mathlib.Core.List.{append-nil, append_assoc, map-append}
use zuku.Store.{Events}
use zuku.Store.Order.{EventOrder}
use zuku.Manager.{
  Entry, PendingOp, Request, Reply, Action, reshard_from_source, reshard_to_target, with_queues,
  send_to, described, after_names, issue, trigger, receive_from, fresh,
}
use zuku.Manager.Matched.{
  Side, Matched, copies, Matched-sender, Matched-receiver, copies-append, Matched-receive,
  Matched-send, Matched-more, Asked-right,
}

pub data Call (E : Type 0) : Type 0 where
  send : Request E → Call E
  receive : Request E → Call E

-- The calls so far, and what they asked for.
pub record Log (E : Type 0) : Type 0 where
  pub entry : Entry E
  pub senders : List (Side E)
  pub receivers : List (Side E)
  pub actions : List (Action E)

abbrev pub tiles : {E : Type 0} → List (Side E) → List ℕ
tiles = map (λ s. s.instance_id)

-- The tiles of the senders among the calls, and those of the receivers.
abbrev pub sending : {E : Type 0} → List (Call E) → List ℕ
sending [] = []
sending (send q ∷ cs) = q.instance_id ∷ sending cs
sending (receive q ∷ cs) = sending cs

abbrev pub receiving : {E : Type 0} → List (Call E) → List ℕ
receiving [] = []
receiving (send q ∷ cs) = receiving cs
receiving (receive q ∷ cs) = q.instance_id ∷ receiving cs

-- The log before the first call.
abbrev pub start : {E : Type 0} → Log E
start = record { entry = fresh; senders = []; receivers = []; actions = [] }

abbrev side : {E : Type 0} → Request E → E → Side E
side q event = record { precondition = q.precondition; instance_id = q.instance_id; event = event }

module _ {E : Type 0} (es : Events E) (advance : E → E) where
  abbrev logged_send : Log E → Request E → Reply E → Log E
  logged_send l q reply = record {
    entry = reply.entry;
    senders = l.senders ++ (side q reply.event ∷ []);
    receivers = l.receivers;
    actions = l.actions ++ reply.actions;
  }

  abbrev logged_receive : Log E → Request E → Reply E → Log E
  logged_receive l q reply = record {
    entry = reply.entry;
    senders = l.senders;
    receivers = l.receivers ++ (side q reply.event ∷ []);
    actions = l.actions ++ reply.actions;
  }

  unfoldable pub call : Call E → Log E → Result (Log E)
  unfolding reshard_from_source reshard_to_target
  call (send q) l = do
    reply ← reshard_from_source es advance false q l.entry
    ok (logged_send l q reply)
  call (receive q) l = do
    reply ← reshard_to_target es advance false q l.entry
    ok (logged_receive l q reply)

  unfoldable pub calls : List (Call E) → Log E → Result (Log E)
  unfolding call
  calls [] l = ok l
  calls (c ∷ cs) l = call c l >>= calls cs

  -- The operations that the entry keeps are the sides that wait.
  abbrev pub Waiting : List (PendingOp E) → List (Side E) → Type 0
  Waiting [] [] = Unit {0}
  Waiting [] (s ∷ ss) = ⊥
  Waiting (op ∷ ops) [] = ⊥
  Waiting (op ∷ ops) (s ∷ ss) =
      ((op.precondition ≡ s.precondition)
        × (op.instance_id ≡ s.instance_id)
        × (op.to_trigger ≡ some s.event))
      × Waiting ops ss

  pub Waiting-snoc :
      (ops : List (PendingOp E)) (ss : List (Side E)) (op : PendingOp E) (s : Side E)
      → Waiting ops ss
      → Waiting (op ∷ []) (s ∷ [])
      → Waiting (ops ++ (op ∷ [])) (ss ++ (s ∷ []))
  Waiting-snoc [] [] op s w v = v
  Waiting-snoc [] (x ∷ ss) op s w v = absurd w
  Waiting-snoc (x ∷ ops) [] op s w v = absurd w
  Waiting-snoc (x ∷ ops) (y ∷ ss) op s (u, w) v = (u, Waiting-snoc ops ss op s w v)

  Waiting-empty : (ss : List (Side E)) → Waiting [] ss → ss ≡ []
  Waiting-empty [] w = refl
  Waiting-empty (s ∷ ss) w = absurd w

  module _ (before : E → E → Type 0) (o : EventOrder es before) where
    -- The senders and the receivers are served in their order, and one side waits for the other.
    pub record IsServed (l : Log E) : Type 0 where
      pub waiting_senders : List (Side E)
      pub waiting_receivers : List (Side E)
      pub sources_wait : Waiting l.entry.sources waiting_senders
      pub targets_wait : Waiting l.entry.targets waiting_receivers
      pub one_side : (waiting_senders ≡ []) ⊎ (waiting_receivers ≡ [])
      pub no_ack : l.entry.ack_barrier ≡ none
      pub matched :
          Matched before trigger l.actions l.senders l.receivers
            (copies l.actions)
            waiting_senders
            waiting_receivers

    -- A result: the log of the tiles that send and receive, in the order of their calls.
    abbrev pub Next : List ℕ → List ℕ → Result (Log E) → Type 0
    Next senders receivers result =
        (l' : Log E) × (result ≡ ok l')
        × (tiles l'.senders ≡ senders)
        × (tiles l'.receivers ≡ receivers)
        × IsServed l'

    abbrev sent : Request E → Log E → List (PendingOp E) → Result (Log E)
    sent q l targets =
        send_to es advance false q (described q l.entry) targets
        >>= after_names es advance []
        >>= λ reply. ok (logged_send l q reply)

    send-Next :
        (q : Request E) (l : Log E) (targets : List (PendingOp E)) (ps pd : List (Side E))
        → Waiting l.entry.sources ps
        → Waiting targets pd
        → (ps ≡ []) ⊎ (pd ≡ [])
        → l.entry.ack_barrier ≡ none
        → Matched before trigger l.actions l.senders l.receivers (copies l.actions) ps pd
        → Next (tiles l.senders ++ (q.instance_id ∷ [])) (tiles l.receivers) (sent q l targets)
    send-Next q l [] ps [] ws wt one ack m = (
      logged_send l q (record {
        entry =
            with_queues
              (l.entry.sources
                ++ (record {
                  precondition = q.precondition;
                  to_trigger = some q.new_event;
                  instance_id = q.instance_id;
                }
                    ∷ []))
              [] (described q l.entry);
        actions = [];
        event = q.new_event;
      }),
      refl,
      map-append _ l.senders _,
      refl,
      record {
        waiting_senders = ps ++ (side q q.new_event ∷ []);
        waiting_receivers = [];
        sources_wait = Waiting-snoc _ ps _ _ ws ((refl, refl, refl), tt);
        targets_wait = tt;
        one_side = inr refl;
        no_ack = ack;
        matched =
            rw (append-nil l.actions)
              (Matched-sender before trigger l.actions l.senders l.receivers _ ps [] _ m);
      },
    )
    send-Next q l [] ps (d ∷ pd) ws wt one ack m = absurd wt
    send-Next q l (op ∷ rest) ps [] ws wt one ack m = absurd wt
    send-Next q l (op ∷ rest) ps (d ∷ pd) ws (w, wt) (inr e) ack m =
        absurd (omega (arith, ap length e))
    send-Next q l (op ∷ rest) ps (d ∷ pd) ws (w, wt) (inl e) ack m = (
      logged_send l q (record {
        entry = with_queues l.entry.sources rest (described q l.entry);
        actions =
            issue es advance (described q l.entry) q.instance_id op.instance_id
              (es.merge op.precondition q.precondition) q.post
            ∷ trigger d.event q.post
            ∷ [];
        event = q.post;
      }),
      rw (w.2, ack) refl,
      map-append _ l.senders _,
      refl,
      record {
        waiting_senders = ps;
        waiting_receivers = pd;
        sources_wait = ws;
        targets_wait = wt;
        one_side = inl e;
        no_ack = ack;
        matched =
            rw (e, copies-append l.actions)
              (Matched-send before trigger _ l.senders l.receivers (copies l.actions) pd _ d _
                (Matched-more before trigger l.actions _ l.senders l.receivers _ [] (d ∷ pd)
                  (rw e at m))
                (record {
                  from = refl;
                  to = w.1;
                  sender_ready = o.merge_right _ _;
                  receiver_ready =
                      subst (λ x. before x (es.merge op.precondition q.precondition)) w.0
                        (o.merge_left _ _);
                  sender_done = inl refl;
                  receiver_done = inr (Asked-right before trigger _ l.actions _ (inr (inl refl)));
                }));
      },
    )

    abbrev received : Request E → Log E → List (PendingOp E) → Result (Log E)
    received q l sources =
        receive_from es advance false q (described q l.entry) sources >>= λ reply.
        ok (logged_receive l q reply)

    receive-Next :
        (q : Request E) (l : Log E) (sources : List (PendingOp E)) (ps pd : List (Side E))
        → Waiting sources ps
        → Waiting l.entry.targets pd
        → (ps ≡ []) ⊎ (pd ≡ [])
        → l.entry.ack_barrier ≡ none
        → Matched before trigger l.actions l.senders l.receivers (copies l.actions) ps pd
        → (l.entry.sources ≡ sources)
        → Next (tiles l.senders) (tiles l.receivers ++ (q.instance_id ∷ [])) (received q l sources)
    receive-Next q l [] [] pd ws wt one ack m e = (
      logged_receive l q (record {
        entry =
            with_queues l.entry.sources
              (l.entry.targets
                ++ (record {
                  precondition = q.precondition;
                  to_trigger = some q.new_event;
                  instance_id = q.instance_id;
                }
                    ∷ []))
              (described q l.entry);
        actions = [];
        event = q.new_event;
      }),
      rw ack refl,
      refl,
      map-append _ l.receivers _,
      record {
        waiting_senders = [];
        waiting_receivers = pd ++ (side q q.new_event ∷ []);
        sources_wait = rw e tt;
        targets_wait = Waiting-snoc _ pd _ _ wt ((refl, refl, refl), tt);
        one_side = inl refl;
        no_ack = ack;
        matched =
            rw (append-nil l.actions)
              (Matched-receiver before trigger l.actions l.senders l.receivers _ [] pd _ m);
      },
    )
    receive-Next q l [] (s ∷ ps) pd ws wt one ack m e = absurd ws
    receive-Next q l (op ∷ rest) [] pd ws wt one ack m e = absurd ws
    receive-Next q l (op ∷ rest) (s ∷ ps) pd (w, ws) wt (inl n) ack m e =
        absurd (omega (arith, ap length n))
    receive-Next q l (op ∷ rest) (s ∷ ps) pd (w, ws) wt (inr n) ack m e = (
      logged_receive l q (record {
        entry = with_queues rest l.entry.targets (described q l.entry);
        actions =
            issue es advance (described q l.entry) op.instance_id q.instance_id
              (es.merge op.precondition q.precondition) q.post
            ∷ trigger s.event q.post
            ∷ [];
        event = q.post;
      }),
      rw w.2 refl,
      refl,
      map-append _ l.receivers _,
      record {
        waiting_senders = ps;
        waiting_receivers = pd;
        sources_wait = ws;
        targets_wait = wt;
        one_side = inr n;
        no_ack = ack;
        matched =
            rw (n, copies-append l.actions)
              (Matched-receive before trigger _ l.senders l.receivers (copies l.actions) ps s _ _
                (Matched-more before trigger l.actions _ l.senders l.receivers _ (s ∷ ps) []
                  (rw n at m))
                (record {
                  from = w.1;
                  to = refl;
                  sender_ready =
                      subst (λ x. before x (es.merge op.precondition q.precondition)) w.0
                        (o.merge_left _ _);
                  receiver_ready = o.merge_right _ _;
                  sender_done = inr (Asked-right before trigger _ l.actions _ (inr (inl refl)));
                  receiver_done = inl refl;
                }));
      },
    )

    -- One call keeps the invariant, and returns.
    pub call-IsServed :
        (c : Call E) (l : Log E)
        → IsServed l
        → Next
            (tiles l.senders ++ sending (c ∷ []))
            (tiles l.receivers ++ receiving (c ∷ []))
            (call c l)
    unfolding call reshard_from_source reshard_to_target
    call-IsServed (send q) l v = rw (append-nil (tiles l.receivers)) (
        send-Next q l l.entry.targets v.waiting_senders v.waiting_receivers v.sources_wait
          v.targets_wait v.one_side v.no_ack v.matched)
    call-IsServed (receive q) l v = rw (append-nil (tiles l.senders)) (
        receive-Next q l l.entry.sources v.waiting_senders v.waiting_receivers v.sources_wait
          v.targets_wait v.one_side v.no_ack v.matched refl)

    sending-cons :
        (c : Call E) (cs : List (Call E)) → sending (c ∷ cs) ≡ sending (c ∷ []) ++ sending cs
    sending-cons (send q) cs = refl
    sending-cons (receive q) cs = refl

    receiving-cons :
        (c : Call E) (cs : List (Call E)) → receiving (c ∷ cs) ≡ receiving (c ∷ []) ++ receiving cs
    receiving-cons (send q) cs = refl
    receiving-cons (receive q) cs = refl

    calls-from :
        (cs : List (Call E)) (l : Log E)
        → IsServed l
        → Next (tiles l.senders ++ sending cs) (tiles l.receivers ++ receiving cs) (calls cs l)
    unfolding calls
    calls-from [] l v = (l, refl, sym (append-nil _), sym (append-nil _), v)
    calls-from (c ∷ cs) l v =
        let (l', e, a, b, v') = call-IsServed c l v in
        let rest = calls-from cs l' v' in
        rw
          (
            sending-cons c cs,
            receiving-cons c cs,
            e,
            ← append_assoc (tiles l.senders) (sending (c ∷ [])) (sending cs),
            ← append_assoc (tiles l.receivers) (receiving (c ∷ [])) (receiving cs),
            ← a,
            ← b,
          )
          rest

    pub start-IsServed : IsServed start
    start-IsServed = record {
      waiting_senders = [];
      waiting_receivers = [];
      sources_wait = tt;
      targets_wait = tt;
      one_side = inl refl;
      no_ack = refl;
      matched = (refl, refl);
    }

    -- Let senders and receivers of one node call on a new entry, in any order. Every call returns. The
    -- copies serve the senders and the receivers one by one in the order of their calls: each copies
    -- the sender's tile to the receiver's after both preconditions, and both calls' events come with
    -- its end; only senders or only receivers wait.
    pub calls-IsServed : (cs : List (Call E)) → Next (sending cs) (receiving cs) (calls cs start)
    calls-IsServed cs = calls-from cs start start-IsServed
