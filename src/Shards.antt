-- ===== src/Shards.antt =====
-- Whole shards that are gathered from all sources or scattered to all targets:
-- src/zuku/reshard_gather_shards.cc and src/zuku/reshard_scatter_shards.cc, with the keys of
-- src/zuku/tiled_array.h under which the reshard manager pairs a sender and a receiver.
pub mod Gather
pub mod Scatter
mod Examples
use zuku.Base.{
  ℕ, zero, suc, ◌+◌, ◌*◌, ◌/◌, Bool, ◌&&◌, Option, none, some, List, [], ◌∷◌, ◌==◌, if◌then◌else◌,
  ◌>>=◌, Result, division_by_zero, ok, err,
}
use zuku.Mesh.{DeviceList, shard_id, contains, size, same_devices}
use zuku.Shape.{Sharding}
use zuku.Tile.{RealmShape, compute_tile_bounds}

pub record UniqueId : Type 0 where
  pub id : ℕ
  pub devices : DeviceList

pub record ReshardKey : Type 0 where
  pub src_id : UniqueId
  pub dst_id : UniqueId
  pub src_shard_id : ℕ
  pub dst_shard_id : ℕ

unfoldable pub same_id : UniqueId → UniqueId → Bool
unfolding same_devices
same_id lhs rhs = lhs.id == rhs.id && same_devices lhs.devices rhs.devices

-- `operator==` on `ReshardKey`
unfoldable pub same_key : ReshardKey → ReshardKey → Bool
unfolding same_id
same_key lhs rhs =
    same_id lhs.src_id rhs.src_id
    && same_id lhs.dst_id rhs.dst_id
    && lhs.src_shard_id == rhs.src_shard_id
    && lhs.dst_shard_id == rhs.dst_shard_id

pub record GatherShardsConfig : Type 0 where
  pub src_shard : Option ℕ
  pub dst_shard : Option ℕ
  pub source_to_target_bounds : Option RealmShape
  pub target_from_source_bounds : List RealmShape

pub record ScatterShardsConfig : Type 0 where
  pub dst_shard : Option ℕ
  pub sender : Bool

-- the loop over the source shards, where `bounds` is what is computed for one of them
unfoldable pub all_bounds : (ℕ → Result RealmShape) → ℕ → ℕ → Result (List RealmShape)
all_bounds bounds shard zero = ok []
all_bounds bounds shard (suc n) = do
  first ← bounds shard
  rest ← all_bounds bounds (shard + 1) n
  ok (first ∷ rest)

abbrev pub own_bounds : (ℕ → Result RealmShape) → Option ℕ → Result (Option RealmShape)
own_bounds bounds none = ok none
own_bounds bounds (some shard) = bounds shard >>= λ shape. ok (some shape)

-- The configuration of a processor, where each source shard sends the same bounds to all targets.
unfoldable pub gather_with :
    (ℕ → Result RealmShape) → ℕ → Sharding → Sharding → Result GatherShardsConfig
unfolding all_bounds shard_id
gather_with bounds p src dst = do
  own ← own_bounds bounds (shard_id src.devices p)
  all ← all_bounds bounds 0 (size src.devices)
  ok (record {
    src_shard = shard_id src.devices p;
    dst_shard = shard_id dst.devices p;
    source_to_target_bounds = own;
    target_from_source_bounds = all;
  })

-- `GetGatherShardsConfig`
unfoldable pub get_gather_shards_config : ℕ → ℕ → Sharding → Sharding → Result GatherShardsConfig
unfolding gather_with compute_tile_bounds
get_gather_shards_config max_dim p src dst =
    gather_with (λ shard. compute_tile_bounds max_dim shard src.dims) p src dst

-- `GetScatterShardsConfig`
unfoldable pub get_scatter_shards_config : ℕ → Sharding → Sharding → ScatterShardsConfig
unfolding shard_id contains
get_scatter_shards_config p src dst = record {
  dst_shard = shard_id dst.devices p;
  sender = contains src.devices p;
}

-- the keys of one sender, shard after shard: `n` targets from `shard` on
abbrev pub keys_from : UniqueId → UniqueId → ℕ → ℕ → ℕ → List ReshardKey
keys_from src_id dst_id source shard zero = []
keys_from src_id dst_id source shard (suc n) =
    record { src_id = src_id; dst_id = dst_id; src_shard_id = source; dst_shard_id = shard }
    ∷ keys_from src_id dst_id source (shard + 1) n

-- the keys of one receiver, shard after shard: `n` sources from `shard` on
abbrev pub keys_to : UniqueId → UniqueId → ℕ → ℕ → ℕ → List ReshardKey
keys_to src_id dst_id target shard zero = []
keys_to src_id dst_id target shard (suc n) =
    record { src_id = src_id; dst_id = dst_id; src_shard_id = shard; dst_shard_id = target }
    ∷ keys_to src_id dst_id target (shard + 1) n

-- The keys that `GatherShardsFromLocalSource` sends under, and those that `GatherShardsToLocalTarget`
-- receives under.
unfoldable pub gather_sends : UniqueId → UniqueId → DeviceList → ℕ → List ReshardKey
gather_sends src_id dst_id dst source = keys_from src_id dst_id source 0 (size dst)

unfoldable pub gather_receives : UniqueId → UniqueId → DeviceList → ℕ → List ReshardKey
gather_receives src_id dst_id src target = keys_to src_id dst_id target 0 (size src)

abbrev pub shards_per_source : DeviceList → DeviceList → ℕ
shards_per_source src dst = size dst / size src

-- The keys that `ScatterShardsFromLocalSource` sends under, for a source shard that exists, so that there
-- are sources to divide by.
unfoldable pub scatter_sends : UniqueId → UniqueId → DeviceList → DeviceList → ℕ → List ReshardKey
scatter_sends src_id dst_id src dst source =
    keys_from src_id dst_id source (shards_per_source src dst * source) (shards_per_source src dst)

-- The key that `ScatterShardsToLocalTarget` receives under. With fewer targets than sources, or without
-- sources, it divides by zero.
unfoldable pub scatter_receives :
    UniqueId → UniqueId → DeviceList → DeviceList → ℕ → Result ReshardKey
scatter_receives src_id dst_id src dst target =
    if shards_per_source src dst == 0
    then err division_by_zero
    else ok (record {
      src_id = src_id;
      dst_id = dst_id;
      src_shard_id = target / shards_per_source src dst;
      dst_shard_id = target;
    })
