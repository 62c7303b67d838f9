-- ===== src/Moves/Examples.antt =====
-- Tests of src/zuku/reshard.cc where an event is the time at which it triggers: a broadcast down a tree,
-- whose second rank receives from the first and sends to the third.
use zuku.Base.{
  ℕ, suc, ◌+◌, ◌≤◌, ◌≡◌, refl, false, Option, none, some, List, [], ◌∷◌, Result, ok, err,
}
use zuku.Moves.Ready.{Carried, carry_out-Carried}
use zuku.Moves.Patterns.{Fits}
use zuku.Moves.{Array, Moved, Manager}
use zuku.Shape.{Sharding}
use zuku.Store.{Store, View}
use zuku.Broadcast.{BroadcastConfig}
use zuku.Tile.{RealmShape}
use zuku.Moves.Local.{Node, ask_node, local_manager, fresh_node, fresh_node-Serves}
use zuku.Reshard.{broadcast}
use zuku.Store.Times.{times, times-EventOrder}
use zuku.Moves.Carry.{carry_out}

abbrev box : RealmShape
box = record { rank = 1; ranges = record { lo = 0; end = 8 } ∷ [] }

abbrev on_devices : ℕ → ℕ → Sharding
on_devices start n = record {
  dims = record { size = 8; sharding = 1; permutation = 0 } ∷ [];
  devices = record { start = start; num_devices = n };
}

abbrev array : ℕ → Sharding → Option (ℕ × RealmShape) → Array
array id sharding held = record {
  unique_id = record { id = id; devices = sharding.devices };
  sharding = sharding;
  held = held;
}

abbrev source : Array
source = array 1 (on_devices 0 1) none

abbrev target : Array
target = array 2 (on_devices 0 4) (some (2, box))

abbrev second_rank : BroadcastConfig
second_rank = record {
  source = none;
  target = some (record { src_shard = none; dst_root_shard = some 0; dst_leaf_shards = 3 ∷ [] });
}

abbrev src : View ℕ
src = record { precondition = none; war_dependency = some 90; views = []; value = some 0 }

abbrev dst : Store ℕ
dst = record {
  has_parent = false;
  parent_notification = none;
  child_rw = some (record { stream = 4; effects = 4 });
  war = none;
  value = some 1;
}

abbrev node : Manager ℕ (Node ℕ)
node = local_manager times suc (λ n. 10 + n) (λ sends key. 0) (λ a b. a ≤ b) times-EventOrder

second_rank-Fits : Fits (broadcast second_rank) 4 2 source target
second_rank-Fits = record {
  supported = λ e. cc e;
  target = λ tile h.
      (record { src_shard = none; dst_root_shard = some 0; dst_leaf_shards = 3 ∷ [] }, refl);
  source = λ tile h. absurd (cc h);
}

carry_out-Carried_example :
    Carried times node
      (λ a b. a ≤ b)
      times-EventOrder
      80
      90
      (carry_out times node 4 2 (broadcast second_rank) source target 80 src dst fresh_node)
carry_out-Carried_example =
    carry_out-Carried times node (λ a b. a ≤ b) times-EventOrder 4 2 (broadcast second_rank) source
      target 80 90 src dst fresh_node second_rank-Fits refl
      (fresh_node-Serves times suc (λ n. 10 + n) (λ sends key. 0) (λ a b. a ≤ b) times-EventOrder)

received_of : Result (Moved ℕ (Node ℕ)) → List ℕ
received_of (ok moved) = moved.received
received_of (err e) = []

-- The call of the receiver finds no sender, and returns the event that is to be triggered.
received_test :
    received_of
      (carry_out times node 4 2 (broadcast second_rank) source target 80 src dst fresh_node)
    ≡ 10 ∷ []
unfolding received_of carry_out ask_node
received_test = refl
