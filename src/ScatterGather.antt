-- ===== src/ScatterGather.antt =====
-- src/zuku/reshard_scatter_gather.cc: which slices move between which shards where one dimension is
-- sharded anew. A vector read outside its bounds is undefined in the source and 0 here.
pub mod Slices
pub mod Match
pub mod Exchange
mod Examples
use zuku.Base.{
  ℕ, zero, suc, ◌+◌, ◌-◌, ◌*◌, ◌/◌, Bool, true, false, Option, none, some, List, [], ◌∷◌, ltb, ◌==◌,
  if◌then◌else◌, length, get_or, set, ◌>>=◌, Result, unsupported_dims, assertion, ok, err,
}
use zuku.Shape.{ShardingDim, Sharding, is_partially_replicated}
use zuku.Tile.{Range, RealmShape, compute_tile_index, compute_tile_shard, supported_rank}
use zuku.Tile.Permuted.{shardings}

pub record SliceConfig : Type 0 where
  pub src_shard : ℕ
  pub dst_shard : ℕ
  pub bounds : RealmShape

pub record ScatterGatherConfig : Type 0 where
  pub from_source : List SliceConfig
  pub to_target : List SliceConfig

-- the loop of `MakeTileBoxN`: the index is read at the box's own dimension
pub box_ranges : List ShardingDim → List ℕ → ℕ → List Range
box_ranges [] index box_dim = []
box_ranges (dim ∷ dims) index box_dim =
    let tile_size = dim.size / dim.sharding in
    let lo = get_or index box_dim 0 * tile_size in
    if ltb 0 tile_size
    then record { lo = lo; end = lo + tile_size } ∷ box_ranges dims index (box_dim + 1)
    else box_ranges dims index box_dim

-- `num_box_dims`: the number of dimensions, less the replicated one
pub box_dims : Sharding → ℕ
unfolding is_partially_replicated
box_dims sharding =
    let dims = length sharding.dims in if is_partially_replicated sharding then dims - 1 else dims

-- the box that `MakeTileBoxN` fills, for the `N` that the `switch` takes
pub tile_box : List ℕ → Sharding → RealmShape
unfolding box_ranges box_dims
tile_box index sharding = record {
  rank = if box_dims sharding == 0 then 1 else box_dims sharding;
  ranges = box_ranges sharding.dims index 0;
}

-- `MakeTileBox`
unfoldable pub make_tile_box : ℕ → List ℕ → Sharding → Result RealmShape
unfolding tile_box box_dims
make_tile_box max_dim index sharding =
    if supported_rank max_dim (box_dims sharding)
    then ok (tile_box index sharding)
    else err unsupported_dims

abbrev pub sharding_at : Sharding → ℕ → ℕ
sharding_at s dim = get_or (shardings s.dims) dim 0

-- The slice between two shards: `own` receives from `other`, or sends to it.
abbrev pub slice_config : Bool → ℕ → ℕ → RealmShape → SliceConfig
slice_config true own other bounds = record { src_shard = other; dst_shard = own; bounds = bounds }
slice_config false own other bounds = record { src_shard = own; dst_shard = other; bounds = bounds }

-- The loop over the slices of a larger tile of shard `own`: slice after slice, the box and the shard
-- of the finer array. `receive` says which of the two shards is the source.
pub slice_loop : ℕ → Bool → ℕ → ℕ → List ℕ → ℕ → ℕ → Sharding → Result (List SliceConfig)
unfolding make_tile_box compute_tile_shard
slice_loop max_dim receive own dim index start zero fine = ok []
slice_loop max_dim receive own dim index start (suc slices) fine = do
  let at = set index dim start
  bounds ← make_tile_box max_dim at fine
  rest ← slice_loop max_dim receive own dim index (start + 1) slices fine
  let other = compute_tile_shard at fine.dims
  ok (slice_config receive own other bounds ∷ rest)

-- What a shard of the coarser array exchanges: `slices` boxes of the finer one.
pub coarse_slices : ℕ → Bool → ℕ → ℕ → ℕ → Sharding → Sharding → Result (List SliceConfig)
unfolding slice_loop compute_tile_index
coarse_slices max_dim receive shard dim slices coarse fine =
    let index = compute_tile_index shard coarse.dims in
    slice_loop max_dim receive shard dim index (get_or index dim 0 * slices) slices fine

-- What a shard of the finer array exchanges: its own box, with one shard of the coarser array.
pub fine_slice : ℕ → Bool → ℕ → ℕ → ℕ → Sharding → Sharding → Result (List SliceConfig)
unfolding make_tile_box compute_tile_index compute_tile_shard
fine_slice max_dim receive shard dim slices coarse fine = do
  let index = compute_tile_index shard fine.dims
  bounds ← make_tile_box max_dim index fine
  let other = compute_tile_shard (set index dim (get_or index dim 0 / slices)) coarse.dims
  ok (slice_config receive shard other bounds ∷ [])

abbrev pub if_shard : Option ℕ → (ℕ → Result (List SliceConfig)) → Result (List SliceConfig)
if_shard none f = ok []
if_shard (some shard) f = f shard

-- the branch for `src_sharding > dst_sharding`
pub gather_config :
    ℕ → ℕ → ℕ → Option ℕ → Option ℕ → Sharding → Sharding → Result ScatterGatherConfig
unfolding coarse_slices fine_slice
gather_config max_dim dim slices src_shard dst_shard src dst = do
  sends ← if_shard src_shard (λ shard. fine_slice max_dim false shard dim slices dst src)
  receives ← if_shard dst_shard (λ shard. coarse_slices max_dim true shard dim slices dst src)
  ok (record { from_source = sends; to_target = receives })

-- the branch for `dst_sharding > src_sharding`
pub scatter_config :
    ℕ → ℕ → ℕ → Option ℕ → Option ℕ → Sharding → Sharding → Result ScatterGatherConfig
unfolding coarse_slices fine_slice
scatter_config max_dim dim slices src_shard dst_shard src dst = do
  receives ← if_shard dst_shard (λ shard. fine_slice max_dim true shard dim slices src dst)
  sends ← if_shard src_shard (λ shard. coarse_slices max_dim false shard dim slices src dst)
  ok (record { from_source = sends; to_target = receives })

-- `GetScatterGatherConfig`. The assertion is checked, as in a build without `NDEBUG`.
unfoldable pub get_scatter_gather_config :
    ℕ → ℕ → Option ℕ → Option ℕ → Sharding → Sharding → Result ScatterGatherConfig
unfolding gather_config scatter_config
get_scatter_gather_config max_dim dim src_shard dst_shard src dst =
    let s = sharding_at src dim in
    let d = sharding_at dst dim in
    if s == d
    then err assertion
    else if ltb d s
    then gather_config max_dim dim (s / d) src_shard dst_shard src dst
    else scatter_config max_dim dim (d / s) src_shard dst_shard src dst
