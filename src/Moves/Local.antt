-- ===== src/Moves/Local.antt =====
-- The reshard manager of a node that has both sides of every move: src/zuku/reshard_manager.cc with one
-- entry for each key. Events, barriers and tiles come from a supply.
use zuku.Base.{
  ℕ, suc, ◌+◌, ◌*◌, ◌≡◌, refl, inl, inr, Bool, List, [], ◌∷◌, if◌then◌else◌, Bool-cases, ◌>>=◌,
  Result, ok,
}
use zuku.Shards.{ReshardKey, same_key}
use zuku.Store.{Events}
use zuku.Manager.Local.{
  start, Log, Call, call, IsServed, call-IsServed, send, receive, start-IsServed,
}
use zuku.Moves.{Ask, Manager}
use zuku.Store.Order.{EventOrder}
use zuku.Manager.Matched.{Side}
use zuku.Manager.{Request}

-- The calls so far for each key, and their number.
pub record Node (E : Type 0) : Type 0 where
  pub logs : ReshardKey → Log E
  pub number : ℕ

abbrev pub fresh_node : {E : Type 0} → Node E
fresh_node = record { logs = λ key. start; number = 0 }

abbrev pub last_event : {E : Type 0} → Events E → List (Side E) → E
last_event es [] = es.no_event
last_event es (s ∷ []) = s.event
last_event es (s ∷ sides) = last_event es sides

module _ {E : Type 0} (es : Events E) (advance : E → E) (supply : ℕ → E)
    (tile_of : Bool → ReshardKey → ℕ) where
  abbrev request : Ask E → ℕ → Request E
  request q n = record {
    precondition = q.precondition;
    instance_id = tile_of q.sends q.key;
    shape = q.shape;
    field_size = 1;
    new_event = supply (3 * n);
    new_barrier = supply (3 * n + 1);
    post = supply (3 * n + 2);
  }

  abbrev call_of : Ask E → ℕ → Call E
  call_of q n = if q.sends then send (request q n) else receive (request q n)

  -- `ReshardFromLocalSource` and `ReshardToLocalTarget`: the call for the key, and its event. No tile is
  -- smaller than the cutoff of 0 bytes, so that the protocol is never the eager one, which throws.
  unfoldable pub ask_node : Ask E → Node E → Result (Node E × E)
  unfolding same_key call
  ask_node q s = do
    log ← call es advance (call_of q s.number) (s.logs q.key)
    ok (
      record {
        logs = λ key. if same_key key q.key then log else s.logs key;
        number = suc s.number;
      },
      last_event es (if q.sends then log.senders else log.receivers),
    )

  module _ (before : E → E → Type 0) (o : EventOrder es before) where
    -- Every entry serves its senders and receivers in order.
    abbrev pub Serves : Node E → Type 0
    Serves s = (key : ReshardKey) → IsServed es advance before o (s.logs key)

    pub ask_node-Serves :
        (q : Ask E) (s : Node E)
        → Serves s
        → (s' : Node E) × (event : E) × (ask_node q s ≡ ok (s', event)) × Serves s'
    unfolding ask_node
    ask_node-Serves q s v =
        let (log, e, senders, receivers, served) =
          call-IsServed es advance before o (call_of q s.number) (s.logs q.key) (v q.key) in
        (
          record {
            logs = λ key. if same_key key q.key then log else s.logs key;
            number = suc s.number;
          },
          last_event es (if q.sends then log.senders else log.receivers),
          rw e refl,
          λ key. updated key log served,
        )
      where
        updated :
            (key : ReshardKey) (log : Log E)
            → IsServed es advance before o log
            → IsServed es advance before o (if same_key key q.key then log else s.logs key)
        updated key log served = elim (Bool-cases (same_key key q.key)) [
          | inl same ↦ rw same served
          | inr other ↦ rw other (v key)
        ]

    -- The manager as an interface.
    abbrev pub local_manager : Manager E (Node E)
    local_manager = record { ask = ask_node; Good = Serves; answers = ask_node-Serves }

    pub fresh_node-Serves : Serves fresh_node
    fresh_node-Serves key = start-IsServed es advance before o
