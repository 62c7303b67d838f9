-- ===== src/Tile/Written.antt =====
-- Which coordinates of a rectangle `ComputeTileBounds` in src/zuku/tiled_array.cc writes.
use zuku.Base.{
  ℕ, zero, suc, ◌+◌, ◌*◌, ◌/◌, ◌≤◌, ◌<◌, ◌≡◌, refl, sym, ◌∙◌, ◌≢◌, ◌⊎◌, inl, inr, true, false, List,
  [], ◌∷◌, arith, ltb, if◌then◌else◌, Bool-cases, length, All,
}
use zuku.Shape.{num_real_dims, ShardingDim, any_replicated}
use zuku.Tile.{tile_ranges, is_fake}
use zuku.Shape.Counts.{IsTileable}

-- The number of replica dimensions. `NumRealDims` leaves out one at most.
unfoldable pub replicas : List ShardingDim → ℕ
replicas [] = 0
replicas (dim ∷ dims) = let rest = replicas dims in if is_fake dim then suc rest else rest

written_count :
    (dims : List ShardingDim) (is : List ℕ)
    → length is ≡ length dims
    → length (tile_ranges dims is) + replicas dims ≡ length dims
unfolding tile_ranges replicas
written_count [] is e = refl
written_count (dim ∷ dims) [] e = absurd (omega arith)
written_count (dim ∷ dims) (i ∷ is) e =
    let rest = written_count dims is (omega arith) in
    elim (Bool-cases (is_fake dim)) [
      | inl fake ↦ rw fake (omega (arith, rest))
      | inr real ↦ rw real (omega (arith, rest))
    ]

-- A positive number is no multiple of a larger one.
pub none_fit : (s n q : ℕ) → n < s → 0 < n → s * q ≢ n
none_fit s n zero a b e = omega arith
none_fit s n (suc q) a b e = omega arith

-- A tileable dimension with fewer elements than shards has one element.
pub fake_lem : (dim : ShardingDim) → IsTileable dim → is_fake dim ≡ ltb dim.size dim.sharding
fake_lem dim t = elim (Bool-cases (ltb dim.size dim.sharding)) [
  | inl fewer ↦ one_element t.2 fewer
  | inr enough ↦ ground arith
]
  where
    one_element :
        (dim.size ≡ 1) ⊎ (dim.sharding * (dim.size / dim.sharding) ≡ dim.size)
        → ltb dim.size dim.sharding ≡ true
        → is_fake dim ≡ ltb dim.size dim.sharding
    one_element (inl one) fewer = ground arith
    one_element (inr whole) fewer =
        let larger : dim.size < dim.sharding = ground arith in
        absurd (none_fit dim.sharding dim.size (dim.size / dim.sharding) larger t.1 whole)

replicated :
    (dims : List ShardingDim) → All IsTileable dims → any_replicated dims ≡ ltb 0 (replicas dims)
unfolding any_replicated replicas
replicated [] t = refl
replicated (dim ∷ dims) (t, ts) =
    let rest = replicated dims ts in
    elim (Bool-cases (is_fake dim)) [
      | inl fake ↦
          (let fewer : ltb dim.size dim.sharding ≡ true = sym (fake_lem dim t) ∙ fake in
            rw (fake, fewer) (ground arith))
      | inr real ↦
          (let enough : ltb dim.size dim.sharding ≡ false = sym (fake_lem dim t) ∙ real in
            rw (real, enough) rest)
    ]

-- With one replica dimension at most, as many coordinates are written as `NumRealDims` says.
pub length-tile_ranges :
    (dims : List ShardingDim) (is : List ℕ)
    → All IsTileable dims
    → length is ≡ length dims
    → replicas dims ≤ 1
    → length (tile_ranges dims is) ≡ num_real_dims dims
unfolding num_real_dims
length-tile_ranges dims is t e few = elim (Bool-cases (ltb 0 (replicas dims))) [
  | inl some_replica ↦
      (let any : any_replicated dims ≡ true = replicated dims t ∙ some_replica in
        let one : replicas dims ≡ 1 = ground arith in
        rw any (omega (arith, written_count dims is e, one)))
  | inr no_replica ↦
      (let any : any_replicated dims ≡ false = replicated dims t ∙ no_replica in
        let zero_replicas : replicas dims ≡ 0 = ground arith in
        rw any (omega (arith, written_count dims is e, zero_replicas)))
]
