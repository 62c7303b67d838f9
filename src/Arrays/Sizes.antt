-- ===== src/Arrays/Sizes.antt =====
-- The size of the tile that ShardedArray::Create of src/zuku/tiled_array.cc makes.
use zuku.Base.{
  ℕ, ◌*◌, ◌/◌, ◌<◌, ◌≡◌, refl, ap, ◌∙◌, ◌⊎◌, inl, inr, Bool, true, false, Option, none, some, List,
  [], ◌∷◌, arith, ltb, leb, ◌==◌, if◌then◌else◌, Bool-cases, All, Result, ok, err,
}
use zuku.Shape.{local_from, ShardingDim, ShardedShape, num_local_elements}
use zuku.Mesh.{size}
use zuku.TileCache.Fifo.{same_tile_shape-IsSame}
use zuku.Shape.Counts.{IsTileable}
use zuku.TileCache.{
  elements_of, num_elements, ArrayTile, Attempt, TileShape, same_tile_shape, TileCache, Deletion,
}
use zuku.Store.{Events}
use zuku.Arrays.{
  tiled_dims, create_array, ShardedArray, Ctor, NextIds, create_local, all_shards, create_bounded,
  with_tile, local_shard,
}
use zuku.TileCache.Create.{TileChange, changes, create-shape}
use zuku.Tile.{RealmShape, compute_tile_bounds}
use zuku.Tile.Written.{none_fit}

unit :
    (c : ℕ) (dim : ShardingDim)
    → IsTileable dim
    → leb dim.sharding dim.size ≡ true
    → ltb 1 dim.size ≡ false
    → c * (dim.size / dim.sharding) ≡ c
unit c dim (a, b, t) fits small =
    let one : dim.size ≡ 1 = ground arith in
    let whole : dim.sharding ≡ 1 = ground arith in rw (one, whole) (omega arith)

too_many :
    (dim : ShardingDim)
    → IsTileable dim
    → leb dim.sharding dim.size ≡ false
    → ltb 1 dim.size ≡ false
too_many dim (a, b, inl one) more = ground arith
too_many dim (a, b, inr whole) more =
    let larger : dim.size < dim.sharding = ground arith in
    absurd (none_fit dim.sharding dim.size (dim.size / dim.sharding) larger b whole)

elements-local :
    (c : ℕ) (dims : List ShardingDim)
    → All IsTileable dims
    → elements_of c (tiled_dims dims) ≡ local_from c dims
unfolding elements_of tiled_dims local_from
elements-local c [] a = refl
elements-local c (dim ∷ dims) (t, a) = elim (Bool-cases (leb dim.sharding dim.size)) [
  | inl fits ↦ rw fits (by_size (λ c. elements-local c dims a) fits (Bool-cases (ltb 1 dim.size)))
  | inr more ↦ rw (more, too_many dim t more) (elements-local c dims a)
]
  where
    by_size :
        ((c : ℕ) → elements_of c (tiled_dims dims) ≡ local_from c dims)
        → leb dim.sharding dim.size ≡ true
        → (ltb 1 dim.size ≡ true) ⊎ (ltb 1 dim.size ≡ false)
        → elements_of (c * (dim.size / dim.sharding)) (tiled_dims dims)
          ≡ local_from (if ltb 1 dim.size then c * (dim.size / dim.sharding) else c) dims
    by_size rest fits (inl big) = rw big (rest _)
    by_size rest fits (inr small) = rw (small, unit c dim t fits small) (rest c)

module _ {E : Type 0} (es : Events E) where
  abbrev HasSize : List ShardingDim → Result (ShardedArray E) → Type 0
  HasSize dims (err error) = Unit {0}
  HasSize dims (ok array) = elim array.tile [
    | none ↦ Unit {0}
    | some tile ↦ num_elements tile.1 ≡ num_local_elements dims
  ]

  num_elements-dims :
      (tile : ArrayTile) (shape : TileShape)
      → same_tile_shape tile.shape shape ≡ true
      → num_elements tile ≡ elements_of 1 shape.dims
  unfolding num_elements
  num_elements-dims tile shape h =
      ap (λ (k : ℕ × List ℕ). elements_of 1 k.1) (same_tile_shape-IsSame.sound tile.shape shape h)

  with_tile-HasSize :
      (shape : ShardedShape) (ctor : Ctor) (shard : ℕ) (ids : NextIds) (cache : TileCache E)
      (deleted : List (Deletion E)) (wanted : TileShape) (tile : Result (E × ArrayTile))
      → elements_of 1 wanted.dims ≡ num_local_elements shape.sharding.dims
      → ((t : E × ArrayTile) → tile ≡ ok t → same_tile_shape t.1.shape wanted ≡ true)
      → HasSize shape.sharding.dims (with_tile shape ctor shard ids cache deleted tile).array
  with_tile-HasSize shape ctor shard ids cache deleted wanted (err error) e f = tt
  with_tile-HasSize shape ctor shard ids cache deleted wanted (ok t) e f =
      num_elements-dims t.1 wanted (f t refl) ∙ e

  create_local-HasSize :
      (cached : Bool) (max_dim : ℕ) (cs : List (TileChange E)) (shape : ShardedShape) (ctor : Ctor)
      (answer : List (Deletion E) → Attempt E) (ids : NextIds) (shard : Option ℕ)
      → All IsTileable shape.sharding.dims
      → HasSize shape.sharding.dims
          (create_local es cached max_dim shape ctor answer
            (changes es cached cs [])
            ids
            shard).array
  create_local-HasSize cached max_dim cs shape ctor answer ids none a = tt
  create_local-HasSize cached max_dim cs shape ctor answer ids (some shard) a =
      by_bounds (compute_tile_bounds max_dim shard shape.sharding.dims)
    where
      by_bounds :
          (bounds : Result RealmShape)
          → HasSize shape.sharding.dims
              (create_bounded es cached max_dim shape ctor answer shard
                (changes es cached cs [])
                ids
                bounds).array
      by_bounds (err error) = tt
      by_bounds (ok bounds) =
          with_tile-HasSize shape ctor shard ids _ _
            (record { type = shape.type; dims = tiled_dims shape.sharding.dims; bounds = bounds }) _
            (elements-local 1 shape.sharding.dims a ∙ unfold num_local_elements in refl)
            (λ t e. create-shape es cached cs _ answer t e)

  create_array-HasSize :
      (cached : Bool) (max_dim : ℕ) (cs : List (TileChange E)) (shape : ShardedShape) (ctor : Ctor)
      (answer : List (Deletion E) → Attempt E) (ids : NextIds)
      → All IsTileable shape.sharding.dims
      → HasSize shape.sharding.dims
          (create_array es cached max_dim shape ctor answer (changes es cached cs []) ids).array
  unfolding create_array
  create_array-HasSize cached max_dim cs shape ctor answer ids a =
      elim (Bool-cases (all_shards 1 shape.sharding.dims == size shape.sharding.devices)) [
        | inl fits ↦ rw fits (
            create_local-HasSize cached max_dim cs shape ctor answer ids
              (local_shard es cached max_dim shape ctor ctor.shard_id) a)
        | inr wrong ↦ rw wrong tt
      ]

  -- Let the sizes be multiples of the shardings, and let tiles be created and freed before in any order,
  -- with a cache of tiles or without. The tile of a new array has as many elements as NumLocalElements counts, also if it comes from the
  -- cache.
  pub create_array-elements :
      (cached : Bool) (max_dim : ℕ) (cs : List (TileChange E)) (shape : ShardedShape) (ctor : Ctor)
      (answer : List (Deletion E) → Attempt E) (ids : NextIds) (array : ShardedArray E)
      (tile : E × ArrayTile)
      → All IsTileable shape.sharding.dims
      → (create_array es cached max_dim shape ctor answer (changes es cached cs []) ids).array
        ≡ ok array
      → array.tile ≡ some tile
      → num_elements tile.1 ≡ num_local_elements shape.sharding.dims
  create_array-elements cached max_dim cs shape ctor answer ids array tile a e t =
      let sized = create_array-HasSize cached max_dim cs shape ctor answer ids a in
      rw (e, t) at sized
