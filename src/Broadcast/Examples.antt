-- ===== src/Broadcast/Examples.antt =====
-- Tests of src/zuku/reshard_broadcast.cc: trees of 6 and of 8 ranks.
use zuku.Base.{ℕ, ◌+◌, ◌/◌, ◌<◌, ◌≡◌, refl, inl, none, some, [], ◌∷◌, arith}
use zuku.Broadcast.Sends.{Receives, Sends, Sends-Receives}
use zuku.Broadcast.{
  get_broadcast_config, get_target_config, TargetConfig, leaves_per_root, BroadcastConfig,
}
use zuku.Broadcast.Tree.{Config, Config-total}
use zuku.Mesh.{DeviceList}
use zuku.Broadcast.Receives.{Receives-Sends, lost_rank}
use zuku.Broadcast.Roots.{extra_source, root_served}

abbrev two : DeviceList
two = record { start = 0; num_devices = 2 }

abbrev four : DeviceList
four = record { start = 0; num_devices = 4 }

abbrev six : DeviceList
six = record { start = 0; num_devices = 6 }

abbrev rank_2 : TargetConfig
rank_2 = record { src_shard = none; dst_root_shard = some 10; dst_leaf_shards = 13 ∷ [] }

rank_2_result : get_target_config 1 10 8 2 ≡ some rank_2
unfolding get_target_config
rank_2_result = refl

rank_4_of_6_test :
    get_target_config 1 10 6 4
    ≡ some (record { src_shard = none; dst_root_shard = some 10; dst_leaf_shards = [] })
unfolding get_target_config
rank_4_of_6_test = refl

Config-total_example : Config 1 10 6 4
Config-total_example = Config-total 1 10 6 4 (omega arith)

Sends-Receives_example : (r' : ℕ) × (2 < r') × (r' < 8) × (13 ≡ 10 + r') × Receives 1 10 8 r' 12
Sends-Receives_example =
    Sends-Receives 1 10 8 2 13 (omega arith)
      (record { config = rank_2; result = rank_2_result; target = inl refl })

Receives-Sends_example : (r : ℕ) × (r < 2) × (10 ≡ 10 + r) × Sends 1 10 8 r 12
Receives-Sends_example =
    Receives-Sends 1 10 3 2 10 (omega arith)
      (record { config = rank_2; result = rank_2_result; root_shard = refl; no_source = refl })

lost_rank_example : ((t : ℕ) → ¬ Sends 1 10 6 4 t) × Receives 1 10 6 5 14
lost_rank_example = lost_rank 1 10 6 4 2 1 (omega arith) refl refl (omega arith) (omega arith)

root_served_example :
    (receiver : BroadcastConfig) × (t : TargetConfig) × (sender : BroadcastConfig)
    × (get_broadcast_config (some 0) (some 3) two six ≡ some receiver)
    × (receiver.target ≡ some t)
    × (t.src_shard ≡ some 1)
    × (3 / leaves_per_root two six < 2)
    × (get_broadcast_config (some 1) (some 1) two six ≡ some sender)
    × (sender.source ≡ some (record { dst_root_shards = 3 ∷ [] }))
root_served_example =
    root_served two six 3 (some 0) (some 1) (omega arith) (omega arith) refl (omega arith)
      (omega arith)

extra_source_test :
    get_broadcast_config (some 3) (some 3) four six ≡ some (record { source = none; target = none })
extra_source_test = extra_source four six 3 (some 3) (omega arith)
