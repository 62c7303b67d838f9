-- ===== src/Shards/Examples.antt =====
-- Tests of src/zuku/reshard_gather_shards.cc and src/zuku/reshard_scatter_shards.cc: 12 elements on the
-- devices 0 to 2, replicated on 3 to 5, and shards scattered from two sources to four or five targets.
use zuku.Base.{
  ℕ, ◌≤◌, ◌<◌, ◌≡◌, refl, ◌≢◌, true, some, [], ◌∷◌, arith, length, get_or, division_by_zero, ok,
  err,
}
use zuku.Mesh.{DeviceList, shard_id}
use zuku.Shards.{
  GatherShardsConfig, UniqueId, scatter_receives, ReshardKey, get_gather_shards_config,
  scatter_sends,
}
use zuku.Tile.{supported_rank, RealmShape}
use zuku.Shape.{Sharding, num_real_dims}
use zuku.Store.Views.{Among}
use zuku.Shards.Gather.{gathered}
use zuku.Shards.Scatter.{unscattered, scattered}

abbrev devices : ℕ → ℕ → DeviceList
devices start n = record { start = start; num_devices = n }

abbrev cut : Sharding
cut = record {
  dims = record { size = 12; sharding = 3; permutation = 0 } ∷ [];
  devices = devices 0 3;
}

abbrev kept : Sharding
kept = record {
  dims = record { size = 12; sharding = 1; permutation = 0 } ∷ [];
  devices = devices 3 3;
}

abbrev piece : RealmShape
piece = record { rank = 1; ranges = [] }

abbrev one : UniqueId
one = record { id = 1; devices = devices 0 3 }

abbrev two : UniqueId
two = record { id = 2; devices = devices 3 3 }

supported_one : supported_rank 3 (num_real_dims cut.dims) ≡ true
unfolding num_real_dims
supported_one = refl

shard_of_two : shard_id cut.devices 2 ≡ some 2
unfolding shard_id
shard_of_two = refl

gathered_example :
    (sender receiver : GatherShardsConfig) × (get_gather_shards_config 3 2 cut kept ≡ ok sender)
    × (get_gather_shards_config 3 4 cut kept ≡ ok receiver)
    × (sender.source_to_target_bounds ≡ some (get_or receiver.target_from_source_bounds 2 piece))
    × (length receiver.target_from_source_bounds ≡ 3)
gathered_example = gathered 3 cut kept 2 4 2 piece supported_one shard_of_two

scattered_example :
    (key : ReshardKey) × (scatter_receives one two (devices 0 2) (devices 2 4) 3 ≡ ok key)
    × (key.src_shard_id < 2)
    × Among key (scatter_sends one two (devices 0 2) (devices 2 4) key.src_shard_id)
scattered_example = scattered one two (devices 0 2) (devices 2 4) 3 refl (omega arith)

unscattered_example :
    (waits : ReshardKey) × (scatter_receives one two (devices 0 2) (devices 2 5) 4 ≡ ok waits)
    × (2 ≤ waits.src_shard_id)
    × ((key : ReshardKey)
        → Among key (scatter_sends one two (devices 0 2) (devices 2 5) 1)
        → key.dst_shard_id ≢ 4)
unscattered_example =
    unscattered one two (devices 0 2) (devices 2 5) 4 1 (omega arith) (omega arith) (omega arith)
      (omega arith)

-- With fewer targets than sources a target divides by zero.
no_target_test : scatter_receives one two (devices 0 4) (devices 4 2) 1 ≡ err division_by_zero
unfolding scatter_receives
no_target_test = refl
