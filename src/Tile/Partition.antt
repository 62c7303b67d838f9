-- ===== src/Tile/Partition.antt =====
-- The tiles of all shards of an array: `ComputeTileBounds` in src/zuku/tiled_array.cc.
use zuku.Base.{
  ℕ, ◌-◌, ◌≤◌, ◌<◌, ◌≡◌, refl, sym, ap, ◌∙◌, subst, ◌↔◌, inl, inr, Bool, true, false, List, [], ◌∷◌,
  arith, ltb, ◌==◌, if◌then◌else◌, Bool-cases, length, All, product, ok,
}
use zuku.Shape.{ShardingDim, num_local_elements, num_real_dims, shard_elements, any_replicated}
use zuku.Tile.{
  is_fake, is_point, compute_tile_index, compute_tile_bounds_n, compute_realm_shape_size, Range,
  tile_ranges, supported_rank, RealmShape, size_loop, compute_tile_bounds,
}
use zuku.Tile.Bounds.{
  Inside, InArray, SameTile, tile_of, tile_of-InRange, Inside-tile_ranges, length-InRange,
  SameTile-eq, SameTile-refl, ranges_size-product, size_loop-ranges,
}
use zuku.Tile.Permuted.{IsPermuted, shardings, length-shardings}
use zuku.Shape.Counts.{IsTileable, num_local_elements-product, shard_elements-local}
use zuku.Tile.RoundTrip.{
  tile_number, length-index, IsIndex, tile_number-index, tile_number-lt, index-tile_number,
}
use zuku.Tile.Digits.{get_or-InRange}
use zuku.Tile.Written.{replicas, length-tile_ranges, fake_lem}

ranges_several :
    (dims : List ShardingDim) (n s : ℕ)
    → is_point dims ≡ false
    → (compute_tile_bounds_n n s dims).ranges ≡ tile_ranges dims (compute_tile_index s dims)
unfolding compute_tile_bounds_n
ranges_several dims n s several = rw several

-- An array of no dimensions, or of a single one of size 1, is the point 0 on every shard.
module _ (dims : List ShardingDim) (inverse : ℕ → ℕ) (v : IsPermuted dims inverse)
    (t : All IsTileable dims) (several : is_point dims ≡ false) where
  -- The rectangle that shard `s` holds.
  abbrev rect : ℕ → List Range
  rect s = (compute_tile_bounds_n (num_real_dims dims) s dims).ranges

  Inside-same :
      (xs : List ℕ) (s : ℕ)
      → InArray xs dims
      → Inside xs (rect s) ↔ SameTile dims (compute_tile_index s dims) (tile_of xs dims)
  Inside-same xs s h =
      subst (λ rs. Inside xs rs ↔ SameTile dims (compute_tile_index s dims) (tile_of xs dims))
        (sym (ranges_several dims _ s several))
        (Inside-tile_ranges dims xs _ t h (length-index dims inverse v s))

  -- All coordinates of a shard's rectangle are written.
  IsWritten : ℕ → Type 0
  IsWritten s = length (rect s) ≡ num_real_dims dims

  rect-IsWritten : (s : ℕ) → replicas dims ≤ 1 → IsWritten s
  unfolding IsWritten
  rect-IsWritten s few =
      rw (ranges_several dims (num_real_dims dims) s several)
        (length-tile_ranges dims _ t (length-index dims inverse v s) few)

  -- Let the dimensions be permuted and tileable, one of them at most a replica dimension, and the array
  -- no single point. A shard's rectangle has all its coordinates written, and it has a point of the array
  -- exactly when the shard's index agrees with the index of the point's tile in every real dimension.
  pub Inside-iff :
      (xs : List ℕ) (s : ℕ)
      → replicas dims ≤ 1
      → InArray xs dims
      → (length (rect s) ≡ num_real_dims dims)
        × (Inside xs (rect s) ↔ SameTile dims (compute_tile_index s dims) (tile_of xs dims))
  unfolding IsWritten
  Inside-iff xs s few h = (rect-IsWritten s few, Inside-same xs s h)

  tile_of-IsIndex : (xs : List ℕ) → InArray xs dims → IsIndex dims (tile_of xs dims)
  tile_of-IsIndex xs h = record {
    full = sym (length-InRange _ _ (tile_of-InRange dims xs t h)) ∙ length-shardings dims;
    below = λ j lt.
        get_or-InRange _ _ j (tile_of-InRange dims xs t h) (omega (arith, length-shardings dims));
  }

  -- Let the dimensions be permuted and tileable, one of them at most a replica dimension, and the array
  -- no single point. Every point of the array lies in the rectangle of a shard that exists, all of whose
  -- coordinates are written.
  pub covered :
      (xs : List ℕ)
      → replicas dims ≤ 1
      → InArray xs dims
      → let s = tile_number dims inverse (tile_of xs dims) in
        (s < product (shardings dims)) × (length (rect s) ≡ num_real_dims dims) × Inside xs (rect s)
  unfolding IsWritten
  covered xs few h =
      let w = tile_of-IsIndex xs h in
      (
        tile_number-lt dims inverse v _ w,
        rect-IsWritten _ few,
        (Inside-same xs _ h).1
            (rw (index-tile_number dims inverse v _ w) (SameTile-refl dims _ w.full)),
      )

  -- Let the dimensions be permuted, tileable and none of them a replica dimension, and the array no
  -- single point. Two existing shards whose rectangles share a point of the array are the same
  -- shard.
  pub disjoint :
      (xs : List ℕ) (s s' : ℕ)
      → All (λ dim. is_fake dim ≡ false) dims
      → s < product (shardings dims)
      → s' < product (shardings dims)
      → InArray xs dims
      → Inside xs (rect s)
      → Inside xs (rect s')
      → s ≡ s'
  disjoint xs s s' real hs hs' h b b' =
      sym (tile_number-index dims inverse v s hs)
      ∙ ap (tile_number dims inverse) (
          SameTile-eq dims _ _ real (length-index dims inverse v s) (same xs s h b)
          ∙ sym (SameTile-eq dims _ _ real (length-index dims inverse v s') (same xs s' h b')))
      ∙ tile_number-index dims inverse v s' hs'
    where
      same :
          (xs : List ℕ) (s : ℕ)
          → InArray xs dims
          → Inside xs (rect s)
          → SameTile dims (compute_tile_index s dims) (tile_of xs dims)
      same xs s h b = (Inside-same xs s h).0 b

-- `N` for an array of no real dimensions is 1.
abbrev rank_of : List ShardingDim → ℕ
rank_of dims = if num_real_dims dims == 0 then 1 else num_real_dims dims

-- The points of the rectangle, read over all `N` coordinates.
abbrev Counts : List ShardingDim → ℕ → Type 0
Counts dims s =
    compute_realm_shape_size (compute_tile_bounds_n (rank_of dims) s dims)
    ≡ ok (num_local_elements dims)

point_elements :
    (dims : List ShardingDim) (s : ℕ) → All IsTileable dims → is_point dims ≡ true → Counts dims s
unfolding compute_realm_shape_size compute_tile_bounds_n num_real_dims any_replicated
point_elements [] s t e = ap ok (sym (num_local_elements-product []))
point_elements (dim ∷ []) s t e =
    let small : ltb 1 dim.size ≡ false = ground arith in
    let count : num_local_elements (dim ∷ []) ≡ 1 =
      num_local_elements-product (dim ∷ []) ∙ rw small refl in
    elim (Bool-cases (ltb dim.size dim.sharding)) [
      | inl fewer ↦ rw (e, fewer, count) refl
      | inr enough ↦ rw (e, enough, count) refl
    ]
point_elements (dim ∷ other ∷ dims) s t e = absurd (cc e)

-- An array that is no single point has a real dimension.
several_real :
    (dims : List ShardingDim)
    → All IsTileable dims
    → is_point dims ≡ false
    → num_real_dims dims == 0 ≡ false
unfolding num_real_dims any_replicated
several_real [] t e = absurd (cc e)
several_real (dim ∷ []) (t, ts) e =
    let real : is_fake dim ≡ false = ground arith in
    let enough : ltb dim.size dim.sharding ≡ false = sym (fake_lem dim t) ∙ real in rw enough refl
several_real (dim ∷ other ∷ dims) t e = at_least_one (any_replicated (dim ∷ other ∷ dims))
  where
    at_least_one :
        (any : Bool)
        → (if any then length (dim ∷ other ∷ dims) - 1 else length (dim ∷ other ∷ dims)) == 0
          ≡ false
    at_least_one true = ground arith
    at_least_one false = ground arith

several_elements :
    (dims : List ShardingDim) (s : ℕ)
    → All IsTileable dims
    → length (compute_tile_index s dims) ≡ length dims
    → replicas dims ≤ 1
    → is_point dims ≡ false
    → Counts dims s
unfolding compute_realm_shape_size compute_tile_bounds_n
several_elements dims s t e few several =
    let is : List ℕ = compute_tile_index s dims in
    let written = length-tile_ranges dims is t e few in
    rw (several, several_real dims t several)
      (subst (λ n. size_loop n (tile_ranges dims is) ≡ ok (num_local_elements dims)) written
        (size_loop-ranges (tile_ranges dims is)
          ∙ ap ok (ranges_size-product dims is t e ∙ sym (num_local_elements-product dims))))

-- Let the dimensions be permuted and tileable, one of them at most a replica dimension, and as many as
-- Realm supports. Every shard gets a rectangle, all of whose coordinates are written, with as many
-- points as the source counts elements of a shard, whichever way it counts them.
pub tile-elements :
    (dims : List ShardingDim) (inverse : ℕ → ℕ) (max_dim s : ℕ)
    → IsPermuted dims inverse
    → All IsTileable dims
    → replicas dims ≤ 1
    → supported_rank max_dim (num_real_dims dims) ≡ true
    → (shape : RealmShape) × (compute_tile_bounds max_dim s dims ≡ ok shape)
      × (compute_realm_shape_size shape ≡ ok (num_local_elements dims))
      × (compute_realm_shape_size shape ≡ ok (shard_elements dims))
tile-elements dims inverse max_dim s v t few supported =
    let e = length-index dims inverse v s in
    let count : Counts dims s = elim (Bool-cases (is_point dims)) [
      | inl point ↦ point_elements dims s t point
      | inr several ↦ several_elements dims s t e few several
    ] in
    (
      compute_tile_bounds_n (rank_of dims) s dims,
      unfold compute_tile_bounds in rw supported refl,
      count,
      count ∙ ap ok (sym (shard_elements-local dims t)),
    )
