-- ===== src/Manager/Matched.antt =====
-- Copies against the senders and the receivers of an entry, in the order of their calls.
use zuku.Base.{ℕ, ◌≡◌, refl, sym, ap, subst, ◌⊎◌, inl, inr, List, [], ◌∷◌, ◌++◌}
use zuku.Manager.{Action, copy, trigger, arrive, exchange}

-- A sender or a receiver: its precondition, its tile, and the event that its call returned.
pub record Side (E : Type 0) : Type 0 where
  pub precondition : E
  pub instance_id : ℕ
  pub event : E

-- A copy, as it was issued.
pub record Copy (E : Type 0) : Type 0 where
  pub source : ℕ
  pub target : ℕ
  pub after : E
  pub post : E

abbrev pub copies : {E : Type 0} → List (Action E) → List (Copy E)
copies [] = []
copies (copy shape field_size source target after post ∷ actions) =
    record { source = source; target = target; after = after; post = post } ∷ copies actions
copies (trigger event after ∷ actions) = copies actions
copies (arrive barrier after ∷ actions) = copies actions
copies (exchange barrier instance_id ∷ actions) = copies actions

abbrev pub Asked : {E : Type 0} → Action E → List (Action E) → Type 0
Asked a [] = ⊥
Asked a (x ∷ xs) = (a ≡ x) ⊎ Asked a xs

-- `signal` is how a receiver that waits learns of the end of its copy.
module _ {E : Type 0} (before : E → E → Type 0) (signal : E → E → Action E) where
  -- An event is the end of a copy, or an action makes it follow that end.
  abbrev pub Ends : (E → E → Action E) → List (Action E) → E → E → Type 0
  Ends act actions event post = (event ≡ post) ⊎ Asked (act event post) actions

  -- A copy moves the tile of a sender to that of a receiver, after both are ready, and ends both.
  pub record Serves (actions : List (Action E)) (s d : Side E) (c : Copy E) : Type 0 where
    pub from : c.source ≡ s.instance_id
    pub to : c.target ≡ d.instance_id
    pub sender_ready : before s.precondition c.after
    pub receiver_ready : before d.precondition c.after
    pub sender_done : Ends trigger actions s.event c.post
    pub receiver_done : Ends signal actions d.event c.post

  -- The first copies serve the first senders and receivers, one by one, and the others wait.
  abbrev pub Matched :
      List (Action E)
      → List (Side E)
      → List (Side E)
      → List (Copy E)
      → List (Side E)
      → List (Side E)
      → Type 0
  Matched actions ss ds [] ps pd = (ss ≡ ps) × (ds ≡ pd)
  Matched actions [] ds (c ∷ cs) ps pd = ⊥
  Matched actions (s ∷ ss) [] (c ∷ cs) ps pd = ⊥
  Matched actions (s ∷ ss) (d ∷ ds) (c ∷ cs) ps pd =
      Serves actions s d c × Matched actions ss ds cs ps pd

  Asked-left : (a : Action E) (xs ys : List (Action E)) → Asked a xs → Asked a (xs ++ ys)
  Asked-left a [] ys h = absurd h
  Asked-left a (x ∷ xs) ys (inl e) = inl e
  Asked-left a (x ∷ xs) ys (inr h) = inr (Asked-left a xs ys h)

  pub Asked-right : (a : Action E) (xs ys : List (Action E)) → Asked a ys → Asked a (xs ++ ys)
  Asked-right a [] ys h = h
  Asked-right a (x ∷ xs) ys h = inr (Asked-right a xs ys h)

  Ends-more :
      (act : E → E → Action E) (xs ys : List (Action E)) (event post : E)
      → Ends act xs event post
      → Ends act (xs ++ ys) event post
  Ends-more act xs ys event post (inl e) = inl e
  Ends-more act xs ys event post (inr h) = inr (Asked-left _ xs ys h)

  -- More actions change nothing.
  pub Matched-more :
      (xs ys : List (Action E)) (ss ds : List (Side E)) (cs : List (Copy E)) (ps pd : List (Side E))
      → Matched xs ss ds cs ps pd
      → Matched (xs ++ ys) ss ds cs ps pd
  Matched-more xs ys ss ds [] ps pd m = m
  Matched-more xs ys [] ds (c ∷ cs) ps pd m = m
  Matched-more xs ys (s ∷ ss) [] (c ∷ cs) ps pd m = m
  Matched-more xs ys (s ∷ ss) (d ∷ ds) (c ∷ cs) ps pd (v, m) = (
    record {
      from = v.from;
      to = v.to;
      sender_ready = v.sender_ready;
      receiver_ready = v.receiver_ready;
      sender_done = Ends-more trigger xs ys _ _ v.sender_done;
      receiver_done = Ends-more signal xs ys _ _ v.receiver_done;
    },
    Matched-more xs ys ss ds cs ps pd m,
  )

  -- A sender waits.
  pub Matched-sender :
      (xs : List (Action E)) (ss ds : List (Side E)) (cs : List (Copy E)) (ps pd : List (Side E))
      (s : Side E)
      → Matched xs ss ds cs ps pd
      → Matched xs (ss ++ (s ∷ [])) ds cs (ps ++ (s ∷ [])) pd
  Matched-sender xs ss ds [] ps pd s m = (ap (λ ys. ys ++ (s ∷ [])) m.0, m.1)
  Matched-sender xs [] ds (c ∷ cs) ps pd s m = absurd m
  Matched-sender xs (x ∷ ss) [] (c ∷ cs) ps pd s m = absurd m
  Matched-sender xs (x ∷ ss) (d ∷ ds) (c ∷ cs) ps pd s (v, m) =
      (v, Matched-sender xs ss ds cs ps pd s m)

  -- A receiver waits.
  pub Matched-receiver :
      (xs : List (Action E)) (ss ds : List (Side E)) (cs : List (Copy E)) (ps pd : List (Side E))
      (d : Side E)
      → Matched xs ss ds cs ps pd
      → Matched xs ss (ds ++ (d ∷ [])) cs ps (pd ++ (d ∷ []))
  Matched-receiver xs ss ds [] ps pd d m = (m.0, ap (λ ys. ys ++ (d ∷ [])) m.1)
  Matched-receiver xs [] ds (c ∷ cs) ps pd d m = absurd m
  Matched-receiver xs (x ∷ ss) [] (c ∷ cs) ps pd d m = absurd m
  Matched-receiver xs (x ∷ ss) (y ∷ ds) (c ∷ cs) ps pd d (v, m) =
      (v, Matched-receiver xs ss ds cs ps pd d m)

  -- A sender is served with the first receiver that waits.
  pub Matched-send :
      (xs : List (Action E)) (ss ds : List (Side E)) (cs : List (Copy E)) (pd : List (Side E))
      (s d : Side E) (c : Copy E)
      → Matched xs ss ds cs [] (d ∷ pd)
      → Serves xs s d c
      → Matched xs (ss ++ (s ∷ [])) ds (cs ++ (c ∷ [])) [] pd
  Matched-send xs ss ds [] pd s d c m v =
      subst (λ ys. Matched xs (ys ++ (s ∷ [])) ds (c ∷ []) [] pd) (sym m.0)
        (subst (λ ys. Matched xs (s ∷ []) ys (c ∷ []) [] pd) (sym m.1) (v, (refl, refl)))
  Matched-send xs [] ds (k ∷ cs) pd s d c m v = absurd m
  Matched-send xs (x ∷ ss) [] (k ∷ cs) pd s d c m v = absurd m
  Matched-send xs (x ∷ ss) (y ∷ ds) (k ∷ cs) pd s d c (u, m) v =
      (u, Matched-send xs ss ds cs pd s d c m v)

  -- A receiver is served with the first sender that waits.
  pub Matched-receive :
      (xs : List (Action E)) (ss ds : List (Side E)) (cs : List (Copy E)) (ps : List (Side E))
      (s d : Side E) (c : Copy E)
      → Matched xs ss ds cs (s ∷ ps) []
      → Serves xs s d c
      → Matched xs ss (ds ++ (d ∷ [])) (cs ++ (c ∷ [])) ps []
  Matched-receive xs ss ds [] ps s d c m v =
      subst (λ ys. Matched xs ys (ds ++ (d ∷ [])) (c ∷ []) ps []) (sym m.0)
        (subst (λ ys. Matched xs (s ∷ ps) (ys ++ (d ∷ [])) (c ∷ []) ps []) (sym m.1)
          (v, (refl, refl)))
  Matched-receive xs [] ds (k ∷ cs) ps s d c m v = absurd m
  Matched-receive xs (x ∷ ss) [] (k ∷ cs) ps s d c m v = absurd m
  Matched-receive xs (x ∷ ss) (y ∷ ds) (k ∷ cs) ps s d c (u, m) v =
      (u, Matched-receive xs ss ds cs ps s d c m v)

pub copies-append :
    {E : Type 0} (xs ys : List (Action E)) → copies (xs ++ ys) ≡ copies xs ++ copies ys
copies-append [] ys = refl
copies-append (copy shape field_size source target after post ∷ xs) ys =
    ap (◌∷◌ (record { source = source; target = target; after = after; post = post }))
      (copies-append xs ys)
copies-append (trigger event after ∷ xs) ys = copies-append xs ys
copies-append (arrive barrier after ∷ xs) ys = copies-append xs ys
copies-append (exchange barrier instance_id ∷ xs) ys = copies-append xs ys
