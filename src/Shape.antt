-- ===== src/Shape.antt =====
-- src/zuku/shape.h: element types, and how an array's dimensions are divided over devices.
-- Sizes and shardings are int64_t in the source and never negative; they are natural numbers here,
-- unbounded. `n / 0` is 0 here and undefined there: `Counts.IsTileable` excludes it.
pub mod Counts
mod Examples
use zuku.Base.{
  ℕ, ◌-◌, ◌*◌, ◌/◌, Bool, true, false, ◌&&◌, List, [], ◌∷◌, ltb, ◌==◌, if◌then◌else◌, length,
}
use zuku.Mesh.{DeviceList, size, same_devices}

pub data SupportedType : Type 0 where
  pred f16 bf16 f32 f64 s8 s16 s32 s64 u8 u16 u32 u64 c64 c128 : SupportedType

unfoldable pub supported_type_size_of : SupportedType → ℕ
supported_type_size_of pred = 1
supported_type_size_of s8 = 1
supported_type_size_of u8 = 1
supported_type_size_of f16 = 2
supported_type_size_of bf16 = 2
supported_type_size_of s16 = 2
supported_type_size_of u16 = 2
supported_type_size_of f32 = 4
supported_type_size_of s32 = 4
supported_type_size_of u32 = 4
supported_type_size_of f64 = 8
supported_type_size_of s64 = 8
supported_type_size_of u64 = 8
supported_type_size_of c64 = 8
supported_type_size_of c128 = 16

pub record ShardingDim : Type 0 where
  pub size : ℕ
  pub sharding : ℕ
  pub permutation : ℕ

-- `operator==` on `ShardingDim`
unfoldable pub same_dim : ShardingDim → ShardingDim → Bool
same_dim lhs rhs =
    lhs.size == rhs.size && lhs.sharding == rhs.sharding && lhs.permutation == rhs.permutation

pub record Sharding : Type 0 where
  pub dims : List ShardingDim
  pub devices : DeviceList

-- `operator==` on the vectors of dimensions
unfoldable pub same_dims : List ShardingDim → List ShardingDim → Bool
unfolding same_dim
same_dims [] [] = true
same_dims [] (y ∷ ys) = false
same_dims (x ∷ xs) [] = false
same_dims (x ∷ xs) (y ∷ ys) = same_dim x y && same_dims xs ys

total_from : ℕ → List ShardingDim → ℕ
total_from sharding [] = sharding
total_from sharding (dim ∷ dims) =
    total_from (if ltb 1 dim.size then sharding * dim.sharding else sharding) dims

-- `Sharding::TotalSharding`
unfoldable pub total_sharding : List ShardingDim → ℕ
unfolding total_from
total_sharding dims = total_from 1 dims

unfoldable pub any_replicated : List ShardingDim → Bool
any_replicated [] = false
any_replicated (dim ∷ dims) = if ltb dim.size dim.sharding then true else any_replicated dims

-- `Sharding::NumRealDims`
unfoldable pub num_real_dims : List ShardingDim → ℕ
unfolding any_replicated
num_real_dims dims = if any_replicated dims then length dims - 1 else length dims

unfoldable pub local_from : ℕ → List ShardingDim → ℕ
local_from size [] = size
local_from size (dim ∷ dims) =
    local_from (if ltb 1 dim.size then size * (dim.size / dim.sharding) else size) dims

-- `Sharding::NumLocalElements`
unfoldable pub num_local_elements : List ShardingDim → ℕ
unfolding local_from
num_local_elements dims = local_from 1 dims

unfoldable pub is_partially_replicated : Sharding → Bool
unfolding total_sharding
is_partially_replicated s =
    ltb 1 (total_sharding s.dims) && ltb (total_sharding s.dims) (DeviceList.num_devices s.devices)

unfoldable pub fully_sharded : Sharding → Bool
unfolding total_sharding
fully_sharded s = total_sharding s.dims == DeviceList.num_devices s.devices

unfoldable pub is_replicated : Sharding → Bool
unfolding total_sharding
is_replicated s = total_sharding s.dims == 1

-- `operator==` on `Sharding`
unfoldable pub same_sharding : Sharding → Sharding → Bool
unfolding same_dims same_devices
same_sharding lhs rhs = same_dims lhs.dims rhs.dims && same_devices lhs.devices rhs.devices

pub record ShardedShape : Type 0 where
  pub type : SupportedType
  pub sharding : Sharding

elements_from : ℕ → List ShardingDim → ℕ
elements_from dim_product [] = dim_product
elements_from dim_product (dim ∷ dims) =
    elements_from (if ltb 1 dim.size then dim_product * dim.size / dim.sharding else dim_product)
      dims

unfoldable pub shard_elements : List ShardingDim → ℕ
unfolding elements_from
shard_elements dims = elements_from 1 dims

unfoldable pub shard_size : ShardedShape → ℕ
unfolding supported_type_size_of shard_elements
shard_size s = supported_type_size_of s.type * shard_elements s.sharding.dims

product_from : ℕ → List ShardingDim → ℕ
product_from dim_product [] = dim_product
product_from dim_product (dim ∷ dims) = product_from (dim_product * dim.size) dims

unfoldable pub full_dimension_product : ShardedShape → ℕ
unfolding product_from
full_dimension_product s = product_from 1 s.sharding.dims
