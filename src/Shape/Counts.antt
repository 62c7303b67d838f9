-- ===== src/Shape/Counts.antt =====
-- How the element counts of a sharding fit together: shards, elements of a shard, elements in all.
use zuku.Base.{
  ℕ, ◌*◌, ◌/◌, ◌<◌, ◌≡◌, refl, sym, ap, ◌∙◌, ◌⊎◌, inl, inr, true, List, [], ◌∷◌, arith, ltb,
  if◌then◌else◌, Bool-cases, All, product, mul-div_cancel,
}
use zuku.Shape.{
  ShardingDim, ShardedShape, total_from, local_from, elements_from, product_from, total_sharding,
  num_local_elements, shard_elements, full_dimension_product,
}

-- A dimension is not empty, and is cut evenly, or has size 1 and is only replicated.
abbrev pub IsTileable : ShardingDim → Type 0
IsTileable dim =
    (0 < dim.sharding)
    × (0 < dim.size)
    × ((dim.size ≡ 1) ⊎ (dim.sharding * (dim.size / dim.sharding) ≡ dim.size))

regroup : (t l s q : ℕ) → t * l * (s * q) ≡ t * s * (l * q)
regroup t l s q = omega arith

step_count :
    (t l : ℕ) (dim : ShardingDim)
    → IsTileable dim
    → t * l * dim.size
      ≡ (if ltb 1 dim.size then t * dim.sharding else t)
        * (if ltb 1 dim.size then l * (dim.size / dim.sharding) else l)
step_count t l dim (hs, hz, inl one) = ground (arith, ap (λ x. t * l * x) one)
step_count t l dim (hs, hz, inr even) = elim (Bool-cases (ltb 1 dim.size)) [
  | inl big ↦
      rw big (ap (λ x. t * l * x) (sym even) ∙ regroup t l dim.sharding (dim.size / dim.sharding))
  | inr small ↦
      let one : dim.size ≡ 1 = ground arith in rw small (ground (arith, ap (λ x. t * l * x) one))
]

product_from-split :
    (dims : List ShardingDim) (t l : ℕ)
    → All IsTileable dims
    → product_from (t * l) dims ≡ total_from t dims * local_from l dims
unfolding product_from total_from local_from
product_from-split [] t l h = refl
product_from-split (dim ∷ dims) t l h =
    ap (λ x. product_from x dims) (step_count t l dim h.0) ∙ product_from-split dims _ _ h.1

-- If every dimension is tileable, the elements of a shard, times the number of distinct shards, are
-- the elements of the whole array.
pub full-total-local :
    (s : ShardedShape)
    → All IsTileable s.sharding.dims
    → full_dimension_product s ≡ total_sharding s.sharding.dims * num_local_elements s.sharding.dims
unfolding full_dimension_product total_sharding num_local_elements
full-total-local s h = product_from-split s.sharding.dims 1 1 h

step_elements :
    (acc : ℕ) (dim : ShardingDim)
    → IsTileable dim
    → ltb 1 dim.size ≡ true
    → acc * dim.size / dim.sharding ≡ acc * (dim.size / dim.sharding)
step_elements acc dim (hs, hz, inl one) big = absurd (ground arith)
step_elements acc dim (hs, hz, inr even) big =
    ap (λ x. acc * x / dim.sharding) (sym even)
    ∙ ap (λ x. x / dim.sharding) (swap acc dim.sharding (dim.size / dim.sharding))
    ∙ mul-div_cancel dim.sharding _ hs
  where
    swap : (a s q : ℕ) → a * (s * q) ≡ s * (a * q)
    swap a s q = omega arith

elements_from-local :
    (dims : List ShardingDim) (acc : ℕ)
    → All IsTileable dims
    → elements_from acc dims ≡ local_from acc dims
unfolding elements_from local_from
elements_from-local [] acc h = refl
elements_from-local (dim ∷ dims) acc h = elim (Bool-cases (ltb 1 dim.size)) [
  | inl big ↦ rw (big, step_elements acc dim h.0 big) (elements_from-local dims _ h.1)
  | inr small ↦ rw small (elements_from-local dims acc h.1)
]

-- If every dimension is tileable, the two ways in which the source counts a shard's elements,
-- dividing each size and dividing the running product, agree.
pub shard_elements-local :
    (dims : List ShardingDim) → All IsTileable dims → shard_elements dims ≡ num_local_elements dims
unfolding shard_elements num_local_elements
shard_elements-local dims h = elements_from-local dims 1 h

-- The extent of a tile along each dimension, 1 along a dimension of size 1.
abbrev pub local_extents : List ShardingDim → List ℕ
local_extents [] = []
local_extents (dim ∷ dims) =
    (if ltb 1 dim.size then dim.size / dim.sharding else 1) ∷ local_extents dims

local_from-product :
    (dims : List ShardingDim) (size : ℕ)
    → local_from size dims ≡ size * product (local_extents dims)
unfolding local_from
local_from-product [] size = omega arith
local_from-product (dim ∷ dims) size = elim (Bool-cases (ltb 1 dim.size)) [
  | inl big ↦ rw big (local_from-product dims _ ∙ omega arith)
  | inr small ↦ rw small (local_from-product dims size ∙ omega arith)
]

pub num_local_elements-product :
    (dims : List ShardingDim) → num_local_elements dims ≡ product (local_extents dims)
unfolding num_local_elements
num_local_elements-product dims = local_from-product dims 1 ∙ omega arith
