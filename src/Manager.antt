-- ===== src/Manager.antt =====
-- src/zuku/reshard_manager.cc and reshard_manager.h: the entry that the manager keeps for a pair of
-- shards, and the handlers that bring senders and receivers together. The map from keys to entries and
-- the lock around each handler are not part of an entry, and neither is the profiling. Handles that Realm makes, a user event, a
-- barrier and the event of a copy, are arguments; `advance` is the next phase of a barrier.

pub mod Matched
pub mod Local
pub mod Remote
mod Examples
use zuku.Base.{
  ℕ, Bool, true, false, Option, none, some, List, [], ◌∷◌, ◌++◌, if◌then◌else◌, ◌>>=◌, Result,
  assertion, ok, err,
}
use zuku.Store.{Events}
use zuku.Tile.{RealmShape}

pub record PendingOp (E : Type 0) : Type 0 where
  pub precondition : E
  pub to_trigger : Option E
  pub instance_id : ℕ

pub record Entry (E : Type 0) : Type 0 where
  pub ready_barrier : Option E
  pub ack_barrier : Option E
  pub shape : RealmShape
  pub field_size : ℕ
  pub sources : List (PendingOp E)
  pub targets : List (PendingOp E)
  pub exists : Bool

-- What a handler asks Realm to do.
pub data Action (E : Type 0) : Type 0 where
  copy : (shape : RealmShape) (field_size source target : ℕ) (after post : E) → Action E
  trigger : (event after : E) → Action E
  arrive : (barrier after : E) → Action E
  -- the task that takes a barrier, and an instance if there is one, to the other node
  exchange : (barrier : E) (instance_id : Option ℕ) → Action E

-- A call for a shard of this node: the array's precondition, its tile, and the new handles.
pub record Request (E : Type 0) : Type 0 where
  pub precondition : E
  pub instance_id : ℕ
  pub shape : RealmShape
  pub field_size : ℕ
  pub new_event : E
  pub new_barrier : E
  pub post : E

-- The entry after a handler, what it asked for, and the event it returns.
pub record Reply (E : Type 0) : Type 0 where
  pub entry : Entry E
  pub actions : List (Action E)
  pub event : E

-- what `operator[]` of the map makes for a new key
abbrev pub fresh : {E : Type 0} → Entry E
fresh = record {
  ready_barrier = none;
  ack_barrier = none;
  shape = record { rank = 1; ranges = [] };
  field_size = 0;
  sources = [];
  targets = [];
  exists = false;
}

-- The first call gives the entry its shape and its field size.
abbrev pub described : {E : Type 0} → Request E → Entry E → Entry E
described q r = record {
  ready_barrier = r.ready_barrier;
  ack_barrier = r.ack_barrier;
  shape = if r.exists then r.shape else q.shape;
  field_size = if r.exists then r.field_size else q.field_size;
  sources = r.sources;
  targets = r.targets;
  exists = true;
}

abbrev pub with_queues : {E : Type 0} → List (PendingOp E) → List (PendingOp E) → Entry E → Entry E
with_queues sources targets r = record {
  ready_barrier = r.ready_barrier;
  ack_barrier = r.ack_barrier;
  shape = r.shape;
  field_size = r.field_size;
  sources = sources;
  targets = targets;
  exists = r.exists;
}

abbrev pub with_ack : {E : Type 0} → Option E → Entry E → Entry E
with_ack ack r = record {
  ready_barrier = r.ready_barrier;
  ack_barrier = ack;
  shape = r.shape;
  field_size = r.field_size;
  sources = r.sources;
  targets = r.targets;
  exists = r.exists;
}

abbrev pub with_ready : {E : Type 0} → Option E → Entry E → Entry E
with_ready ready r = record {
  ready_barrier = ready;
  ack_barrier = r.ack_barrier;
  shape = r.shape;
  field_size = r.field_size;
  sources = r.sources;
  targets = r.targets;
  exists = r.exists;
}

-- A user event that does not exist is not triggered: Realm leaves that undefined.
abbrev pub trigger_op : {E : Type 0} → Option E → E → Result (List (Action E))
trigger_op none after = err assertion
trigger_op (some event) after = ok (trigger event after ∷ [])

module _ {E : Type 0} (es : Events E) (advance : E → E) where
  -- `IssueCopy` on the entry's shape
  abbrev pub issue : Entry E → ℕ → ℕ → E → E → Action E
  issue r source target after post = copy r.shape r.field_size source target after post

  -- `RemoteCopyNextPendingToTarget`, less the event that it returns, which is `post`
  abbrev pub remote_copy :
      Entry E → ℕ → ℕ → E → E → E → Option E → Result (Entry E × List (Action E))
  remote_copy r source target ready precondition post none = err assertion
  remote_copy r source target ready precondition post (some ack) = ok (
    with_ack (some (advance ack)) r,
    issue r source target (es.merge ready precondition) post ∷ arrive ack post ∷ [],
  )

  -- the source's barrier, made and sent to the target's node the first time
  abbrev pub ack_names : Bool → Request E → Entry E → Entry E × List (Action E)
  ack_names false q r = (r, [])
  ack_names true q r = elim r.ack_barrier [
    | none ↦ (with_ack (some q.new_barrier) r, exchange q.new_barrier none ∷ [])
    | some ack ↦ (r, [])
  ]

  -- the source's part once the names are sent: `op` is the front of the pending targets
  abbrev pub send_to : Bool → Request E → Entry E → List (PendingOp E) → Result (Reply E)
  send_to remote q r [] = ok (record {
    entry =
        with_queues
          (r.sources
            ++ (record {
              precondition = q.precondition;
              to_trigger = some q.new_event;
              instance_id = q.instance_id;
            }
                ∷ []))
          [] r;
    actions = [];
    event = q.new_event;
  })
  send_to true q r (op ∷ rest) = do
    done ←
        remote_copy r q.instance_id op.instance_id op.precondition q.precondition q.post
          r.ack_barrier
    ok (record { entry = with_queues done.0.sources rest done.0; actions = done.1; event = q.post })
  send_to false q r (op ∷ rest) = elim r.ack_barrier [
    | some ack ↦ err assertion
    | none ↦ do
      triggered ← trigger_op op.to_trigger q.post
      ok (record {
        entry = with_queues r.sources rest r;
        actions =
            issue r q.instance_id op.instance_id (es.merge op.precondition q.precondition) q.post
            ∷ triggered;
        event = q.post;
      })
  ]

  abbrev pub after_names : List (Action E) → Reply E → Result (Reply E)
  after_names names reply =
      ok (record { entry = reply.entry; actions = names ++ reply.actions; event = reply.event })

  -- `RendezvousReshardFromLocalSource`. `remote`: the target's host is on another node.
  unfoldable pub reshard_from_source : Bool → Request E → Entry E → Result (Reply E)
  reshard_from_source remote q r =
      let (named, names) = ack_names remote q (described q r) in
      send_to remote q named named.targets >>= after_names names

  -- the target's barrier, made the first time, and what is sent to the source's node
  abbrev pub ready_names : Bool → Request E → Entry E → Entry E × List (Action E)
  ready_names false q r = (r, [])
  ready_names true q r =
      let ready : E = elim r.ready_barrier [ none ↦ q.new_barrier | some b ↦ b ] in
      (
        with_ready (some (advance ready)) r,
        exchange ready (some q.instance_id) ∷ arrive ready q.precondition ∷ [],
      )

  -- what the target does without a pending source
  abbrev pub wait_for : Request E → Entry E → Option E → Reply E
  wait_for q r none = record {
    entry =
        with_queues r.sources
          (r.targets
            ++ (record {
              precondition = q.precondition;
              to_trigger = some q.new_event;
              instance_id = q.instance_id;
            }
                ∷ []))
          r;
    actions = [];
    event = q.new_event;
  }
  wait_for q r (some ack) = record {
    entry = with_ack (some (advance ack)) r;
    actions = [];
    event = ack;
  }

  abbrev pub receive_from : Bool → Request E → Entry E → List (PendingOp E) → Result (Reply E)
  receive_from remote q r [] =
      let (named, names) = ready_names remote q r in
      after_names names (wait_for q named named.ack_barrier)
  receive_from remote q r (op ∷ rest) = do
    triggered ← trigger_op op.to_trigger q.post
    ok (record {
      entry = with_queues rest r.targets r;
      actions =
          issue r op.instance_id q.instance_id (es.merge op.precondition q.precondition) q.post
          ∷ triggered;
      event = q.post;
    })

  -- `RendezvousReshardToLocalTarget`. `remote`: the source's host is on another node.
  unfoldable pub reshard_to_target : Bool → Request E → Entry E → Result (Reply E)
  reshard_to_target remote q r =
      let entry = described q r in receive_from remote q entry entry.sources

  abbrev pub instance_from :
      E → ℕ → E → Entry E → List (PendingOp E) → Result (Entry E × List (Action E))
  instance_from barrier target post r [] = ok (
    with_queues r.sources
        (r.targets
          ++ (record { precondition = barrier; to_trigger = none; instance_id = target } ∷ []))
        r,
    [],
  )
  instance_from barrier target post r (op ∷ rest) = do
    done ← remote_copy r op.instance_id target barrier op.precondition post r.ack_barrier
    triggered ← trigger_op op.to_trigger post
    ok (with_queues rest r.targets done.0, done.1 ++ triggered)

  -- `ReceivePointToPointNames` with an instance: the source's node hears of a target.
  unfoldable pub receive_instance : E → ℕ → E → Entry E → Result (Entry E × List (Action E))
  receive_instance barrier target post r = instance_from barrier target post r r.sources

  -- the `while` loop over the pending targets: each gets the next phase of the barrier
  pub clear_targets : E → List (PendingOp E) → Result (E × List (Action E))
  clear_targets ack [] = ok (ack, [])
  clear_targets ack (op ∷ rest) = do
    triggered ← trigger_op op.to_trigger ack
    done ← clear_targets (advance ack) rest
    ok (done.0, triggered ++ done.1)

  -- `ReceivePointToPointNames` without an instance: the target's node hears of the source's barrier.
  unfoldable pub receive_barrier : E → Entry E → Result (Entry E × List (Action E))
  unfolding clear_targets
  receive_barrier barrier r = do
    done ← clear_targets barrier r.targets
    ok (with_ack (some done.0) (with_queues r.sources [] r), done.1)
