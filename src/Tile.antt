-- ===== src/Tile.antt =====
-- src/zuku/tiled_array.cc: which tile of an array a shard holds, and where the tile lies.
-- A `Realm::Rect` keeps inclusive bounds; `Range` keeps `hi + 1`, so that the empty range
-- `hi = lo - 1` needs no negative number. `max_dim` is `REALM_MAX_DIM` of the Realm build.
pub mod Digits
pub mod Scatter
pub mod Permuted
pub mod RoundTrip
pub mod Shards
pub mod Bounds
pub mod Written
pub mod Partition
mod Examples
use zuku.Base.{
  ℕ, zero, suc, ◌+◌, ◌-◌, ◌*◌, ◌/◌, Bool, true, false, ◌&&◌, ◌||◌, List, [], ◌∷◌, ltb, leb, ◌==◌,
  if◌then◌else◌, length, set, replicate, ◌>>=◌, Result, unsupported_dims, unwritten, ok, err,
}
use zuku.Shape.{ShardingDim, num_real_dims}

pub record Range : Type 0 where
  pub lo : ℕ
  pub end : ℕ

-- `RealmShape`: the dimension `N` of the rectangle, and the bounds that were written to its first
-- coordinates. The others are not initialised.
pub record RealmShape : Type 0 where
  pub rank : ℕ
  pub ranges : List Range

-- the loop that fills `shard_extents` and `permutation`
pub unpermute : List ShardingDim → ℕ → List ℕ → List ℕ → List ℕ × List ℕ
unpermute [] p_dim extents permutation = (extents, permutation)
unpermute (dim ∷ dims) p_dim extents permutation =
    unpermute dims (p_dim + 1) (set extents dim.permutation dim.sharding)
      (set permutation dim.permutation p_dim)

pub stride_from : ℕ → List ℕ → ℕ
stride_from dim_stride [] = dim_stride
stride_from dim_stride (extent ∷ extents) = stride_from (dim_stride * extent) extents

-- the loop that fills `indices`; both vectors have a place for each dimension
pub index_loop : List ℕ → List ℕ → ℕ → ℕ → List ℕ → List ℕ
index_loop [] permutation dim_stride remainder indices = indices
index_loop (extent ∷ extents) [] dim_stride remainder indices = indices
index_loop (extent ∷ extents) (p ∷ permutation) dim_stride remainder indices =
    let stride = dim_stride / extent in
    let dim_index = remainder / stride in
    index_loop extents permutation stride (remainder - dim_index * stride) (set indices p dim_index)

-- `ComputeTileIndex`. A permutation outside the vector is undefined in the source and changes
-- nothing here; `Tile.Permuted.IsPermuted` excludes it.
unfoldable pub compute_tile_index : ℕ → List ShardingDim → List ℕ
unfolding unpermute stride_from index_loop
compute_tile_index index dims =
    let zeros = replicate (length dims) 0 in
    let (extents, permutation) = unpermute dims 0 zeros zeros in
    index_loop extents permutation (stride_from 1 extents) index zeros

pub shard_loop : ℕ → List ℕ → List ShardingDim → ℕ
shard_loop index [] dims = index
shard_loop index (i ∷ indices) [] = index
shard_loop index (i ∷ indices) (dim ∷ dims) = shard_loop (index * dim.sharding + i) indices dims

-- `ComputeTileShard`
unfoldable pub compute_tile_shard : List ℕ → List ShardingDim → ℕ
unfolding shard_loop
compute_tile_shard [] dims = 0
compute_tile_shard (i ∷ indices) [] = i
compute_tile_shard (i ∷ indices) (dim ∷ dims) = shard_loop i indices dims

-- a fake sharding dimension, which only counts replicas
abbrev pub is_fake : ShardingDim → Bool
is_fake dim = dim.size == 1 && ltb 1 dim.sharding

-- the loop that fills `rect`
pub tile_ranges : List ShardingDim → List ℕ → List Range
tile_ranges [] index = []
tile_ranges (dim ∷ dims) [] = []
tile_ranges (dim ∷ dims) (i ∷ index) =
    let rest = tile_ranges dims index in
    let tile_extent = dim.size / dim.sharding in
    if is_fake dim
    then rest
    else record { lo = tile_extent * i; end = tile_extent * i + tile_extent } ∷ rest

-- whether the rectangle is the single point 0
abbrev pub is_point : List ShardingDim → Bool
is_point [] = true
is_point (dim ∷ []) = dim.size == 1
is_point (dim ∷ other ∷ dims) = false

-- `ComputeTileBounds<N>`. With several replica dimensions fewer than `N` coordinates are written, since
-- `NumRealDims` leaves out one of them. The `remainder`, which nothing reads, is left out with its division
-- by the number of devices for each shard: `ShardedArray::Create` throws unless that is 1.
unfoldable pub compute_tile_bounds_n : ℕ → ℕ → List ShardingDim → RealmShape
unfolding compute_tile_index tile_ranges
compute_tile_bounds_n n shard dims =
    if is_point dims
    then record { rank = n; ranges = record { lo = 0; end = 1 } ∷ [] }
    else record { rank = n; ranges = tile_ranges dims (compute_tile_index shard dims) }

-- the dimensions that the `switch` statements of the source accept
abbrev pub supported_rank : ℕ → ℕ → Bool
supported_rank max_dim n = leb n 4 || (n == 5 && leb 5 max_dim)

-- `ComputeTileBounds`
unfoldable pub compute_tile_bounds : ℕ → ℕ → List ShardingDim → Result RealmShape
unfolding compute_tile_bounds_n num_real_dims
compute_tile_bounds max_dim shard dims =
    let n = num_real_dims dims in
    if supported_rank max_dim n
    then ok (compute_tile_bounds_n (if n == 0 then 1 else n) shard dims)
    else err unsupported_dims

-- the product of `hi - lo + 1` over the `N` coordinates. To read one that was not written is an error.
pub size_loop : ℕ → List Range → Result ℕ
size_loop zero ranges = ok 1
size_loop (suc n) [] = err unwritten
size_loop (suc n) (r ∷ rs) = size_loop n rs >>= λ size. ok ((r.end - r.lo) * size)

-- `ComputeRealmShapeSize`
unfoldable pub compute_realm_shape_size : RealmShape → Result ℕ
unfolding size_loop
compute_realm_shape_size shape = size_loop shape.rank shape.ranges
