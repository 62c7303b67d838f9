-- ===== src/Reshard.antt =====
-- src/zuku/reshard.cc: which pattern of moves a processor follows for two shardings. A processor is its
-- global id. A vector read outside its bounds is undefined in the source; the loop over both vectors of
-- dimensions stops at the end of the shorter one here.
pub mod Pairs
pub mod Pattern
mod Examples
use zuku.Base.{
  ℕ, zero, suc, ◌+◌, ◌-◌, ◌*◌, ◌/◌, ◌%◌, ◌&&◌, not, Option, none, some, List, [], ◌∷◌, map, leb,
  ◌==◌, if◌then◌else◌, length, get_or, ◌>>=◌, Result, out_of_range, out_of_fuel, ok, err,
}
use mathlib.Core.Option
use zuku.Mesh.{DeviceList, contains, shard_id, size}
use zuku.Shape.{
  ShardingDim, Sharding, same_dim, fully_sharded, is_replicated, is_partially_replicated, same_dims,
}
use zuku.Broadcast.{BroadcastConfig, get_broadcast_config}
use zuku.ScatterGather.{ScatterGatherConfig, get_scatter_gather_config}
use zuku.Tile.{Range, is_fake, RealmShape, compute_tile_bounds, compute_tile_index}
use zuku.Shards.{
  GatherShardsConfig, gather_with, ScatterShardsConfig, get_gather_shards_config,
  get_scatter_shards_config,
}
use zuku.Tile.Permuted.{shardings}

-- `ReshardConfigVariant`
pub data ReshardConfig : Type 0 where
  unsupported point_to_point no_op : ReshardConfig
  scatter_gather : ScatterGatherConfig → ReshardConfig
  broadcast : BroadcastConfig → ReshardConfig
  gather_shards : GatherShardsConfig → ReshardConfig
  scatter_shards : ScatterShardsConfig → ReshardConfig

-- `DetermineShardingConfigFullyReplicated`; `none` is fuel that ran out in the broadcast. The test
-- `p - src.start >= dst.size` is on signed numbers, so the start is added to the other side.
unfoldable pub fully_replicated : ℕ → Sharding → Sharding → Option ReshardConfig
unfolding contains shard_id get_broadcast_config
fully_replicated p src dst =
    if leb (size dst.devices) (size src.devices)
    then (if not (contains dst.devices p) && leb (src.devices.start + size dst.devices) p
        then some no_op
        else some point_to_point)
    else Option.map broadcast (
        get_broadcast_config (shard_id src.devices p) (shard_id dst.devices p) src.devices
          dst.devices)

-- the loop over the dimensions: how many differ, and the last one that does
pub differences : List ShardingDim → List ShardingDim → ℕ → ℕ → ℕ → ℕ × ℕ
unfolding same_dim
differences [] ys dim number last = (number, last)
differences (x ∷ xs) [] dim number last = (number, last)
differences (x ∷ xs) (y ∷ ys) dim number last =
    if same_dim x y
    then differences xs ys (dim + 1) number last
    else differences xs ys (dim + 1) (number + 1) dim

abbrev pub in_scatter_gather : Result ScatterGatherConfig → Result ReshardConfig
in_scatter_gather (ok config) = ok (scatter_gather config)
in_scatter_gather (err e) = err e

-- `DetermineScatterGatherConfig`
unfoldable pub determine_scatter_gather : ℕ → ℕ → Sharding → Sharding → Result ReshardConfig
unfolding differences shard_id get_scatter_gather_config
determine_scatter_gather max_dim p src dst =
    let (number, last) = differences src.dims dst.dims 0 0 0 in
    if number == 1
    then in_scatter_gather (
        get_scatter_gather_config max_dim last (shard_id src.devices p) (shard_id dst.devices p) src
          dst)
    else ok unsupported

-- `SliceDim` on one dimension of a rectangle
abbrev pub slice_range : Range → ℕ → ℕ → Range
slice_range r slice_number total_slices =
    let slice_size = (r.end - r.lo) / total_slices in
    let lo = r.lo + slice_size * slice_number in record { lo = lo; end = lo + slice_size }

-- `SliceDim`; a dimension past the rectangle's is undefined in the source and changes nothing here.
unfoldable pub slice_ranges : List Range → ℕ → ℕ → ℕ → List Range
slice_ranges [] slice_number total_slices dim = []
slice_ranges (r ∷ rs) slice_number total_slices zero = slice_range r slice_number total_slices ∷ rs
slice_ranges (r ∷ rs) slice_number total_slices (suc dim) =
    r ∷ slice_ranges rs slice_number total_slices dim

unfoldable pub slice_shape : RealmShape → ℕ → ℕ → ℕ → RealmShape
unfolding slice_ranges
slice_shape shape slice_number total_slices dim = record {
  rank = shape.rank;
  ranges = slice_ranges shape.ranges slice_number total_slices dim;
}

-- `replicated_dim`; `none` is the -1 of the source, with which it reads outside of the vector.
unfoldable pub find_replicated : List ShardingDim → ℕ → Option ℕ
find_replicated [] dim_number = none
find_replicated (dim ∷ dims) dim_number =
    let rest = find_replicated dims (dim_number + 1) in
    if is_fake dim then some dim_number else rest

-- `slice_dim`: the first real dimension, counted among these, that the replicas divide
unfoldable pub find_slice_dim : List ShardingDim → ℕ → ℕ → Option ℕ
find_slice_dim [] replication dim_number = none
find_slice_dim (dim ∷ dims) replication dim_number =
    let rest =
      find_slice_dim dims replication (if is_fake dim then dim_number else dim_number + 1) in
    if not (is_fake dim) && (dim.size % (dim.sharding * replication) == 0)
    then some dim_number
    else rest

-- The part of a shard's tile that one of its replicas moves.
unfoldable pub replica_bounds : ℕ → List ShardingDim → ℕ → ℕ → ℕ → ℕ → Result RealmShape
unfolding slice_shape compute_tile_bounds compute_tile_index
replica_bounds max_dim dims replicated_dim replication slice_dim shard = do
  unsliced ← compute_tile_bounds max_dim shard dims
  let replica_number = get_or (compute_tile_index shard dims) replicated_dim 0
  ok (slice_shape unsliced replica_number replication slice_dim)

abbrev pub in_gather_shards : Result GatherShardsConfig → Result ReshardConfig
in_gather_shards (ok config) = ok (gather_shards config)
in_gather_shards (err e) = err e

abbrev pub sliced_config : ℕ → ℕ → Sharding → Sharding → ℕ → Option ℕ → Result ReshardConfig
sliced_config max_dim p src dst replicated_dim none = ok unsupported
sliced_config max_dim p src dst replicated_dim (some slice_dim) = in_gather_shards (
    gather_with
      (replica_bounds max_dim src.dims replicated_dim (get_or (shardings src.dims) replicated_dim 0)
        slice_dim)
      p src dst)

abbrev pub replicated_config : ℕ → ℕ → Sharding → Sharding → Option ℕ → Result ReshardConfig
replicated_config max_dim p src dst none = err out_of_range
replicated_config max_dim p src dst (some replicated_dim) =
    sliced_config max_dim p src dst replicated_dim
      (find_slice_dim src.dims (get_or (shardings src.dims) replicated_dim 0) 0)

-- `DeterminePartialToReplicatedConfig`
unfoldable pub partial_to_replicated : ℕ → ℕ → Sharding → Sharding → Result ReshardConfig
unfolding find_replicated find_slice_dim replica_bounds gather_with
partial_to_replicated max_dim p src dst =
    replicated_config max_dim p src dst (find_replicated src.dims 0)

-- fuel that ran out in the broadcast is an error
abbrev pub with_fuel : Option ReshardConfig → Result ReshardConfig
with_fuel none = err out_of_fuel
with_fuel (some config) = ok config

-- `DetermineShardingConfig`
unfoldable pub determine_sharding_config : ℕ → ℕ → Sharding → Sharding → Result ReshardConfig
unfolding fully_sharded is_replicated is_partially_replicated get_gather_shards_config
    get_scatter_shards_config fully_replicated partial_to_replicated same_dims
    determine_scatter_gather
determine_sharding_config max_dim p src dst =
    if fully_sharded src && is_replicated dst
    then in_gather_shards (get_gather_shards_config max_dim p src dst)
    else if fully_sharded dst && is_replicated src
    then ok (scatter_shards (get_scatter_shards_config p src dst))
    else if is_replicated src && is_replicated dst
    then with_fuel (fully_replicated p src dst)
    else if is_partially_replicated src && is_replicated dst
    then partial_to_replicated max_dim p src dst
    else if not (length src.dims == length dst.dims)
    then ok unsupported
    else if size src.devices == size dst.devices && same_dims src.dims dst.dims
    then ok point_to_point
    else determine_scatter_gather max_dim p src dst
