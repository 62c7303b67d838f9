-- ===== src/Tile/Shards.antt =====
-- `ComputeTileShard` against `ComputeTileIndex`, in src/zuku/tiled_array.cc.
use zuku.Base.{
  ℕ, zero, suc, ◌+◌, ◌-◌, ◌*◌, ◌/◌, ◌≤◌, ◌<◌, ◌≡◌, refl, sym, ap, ap₂, ◌∙◌, List, [], ◌∷◌, arith,
  length, get_or, product, mul-div_cancel,
}
use zuku.Shape.{ShardingDim}
use zuku.Tile.{compute_tile_index, compute_tile_shard, shard_loop}
use zuku.Tile.Digits.{value}
use zuku.Tile.Permuted.{IsPermuted, permutations, shardings, length-shardings}
use zuku.Tile.RoundTrip.{
  IsIndex, gather, tile_number, tile_number-index, index-tile_number, tile_number-lt, length-index,
}

-- Every dimension stands at its own place, from place `k` on.
abbrev pub InOrder : ℕ → List ShardingDim → Type 0
InOrder k [] = Unit {0}
InOrder k (dim ∷ dims) = (dim.permutation ≡ k) × InOrder (k + 1) dims

abbrev pub same_place : ℕ → ℕ
same_place p = p

get_or-InOrder :
    (k : ℕ) (dims : List ShardingDim) (j : ℕ)
    → InOrder k dims
    → j < length dims
    → get_or (permutations dims) j 0 ≡ k + j
get_or-InOrder k [] j h lt = absurd (omega arith)
get_or-InOrder k (dim ∷ dims) zero h lt = omega arith
get_or-InOrder k (dim ∷ dims) (suc j) h lt = omega (arith, get_or-InOrder (k + 1) dims j h.1)

pub InOrder-IsPermuted : (dims : List ShardingDim) → InOrder 0 dims → IsPermuted dims same_place
InOrder-IsPermuted dims h = record {
  to_place = λ j lt. omega (arith, get_or-InOrder 0 dims j h);
  to_dim = λ p lt. lt;
  back = λ j lt. omega (arith, get_or-InOrder 0 dims j h);
  forth = λ p lt. omega (arith, get_or-InOrder 0 dims p h);
}

-- `xs` from place `p` on.
gather-drop :
    (k p : ℕ) (zs xs : List ℕ)
    → length xs ≡ k
    → ((i : ℕ) → i < k → get_or zs (p + i) 0 ≡ get_or xs i 0)
    → gather same_place k p zs ≡ xs
unfolding gather
gather-drop zero p zs [] e h = refl
gather-drop zero p zs (x ∷ xs) e h = absurd (omega arith)
gather-drop (suc k) p zs [] e h = absurd (omega arith)
gather-drop (suc k) p zs (x ∷ xs) e h =
    ap₂ ◌∷◌ (ap (λ q. get_or zs q 0) (omega arith) ∙ h 0 (omega arith)) (
      gather-drop k (p + 1) zs xs (omega arith)
        (λ i lt. ap (λ q. get_or zs q 0) (omega arith) ∙ h (suc i) (omega arith)))

gather_self : (k : ℕ) (xs : List ℕ) → length xs ≡ k → gather same_place k 0 xs ≡ xs
gather_self k xs e = gather-drop k 0 xs xs e (λ i lt. ap (λ q. get_or xs q 0) (omega arith))

shard_loop-value :
    (dims : List ShardingDim) (is : List ℕ) (index : ℕ)
    → length is ≡ length dims
    → shard_loop index is dims ≡ index * product (shardings dims) + value (shardings dims) is
unfolding shard_loop value
shard_loop-value [] [] index e = omega arith
shard_loop-value [] (i ∷ is) index e = absurd (omega arith)
shard_loop-value (dim ∷ dims) [] index e = absurd (omega arith)
shard_loop-value (dim ∷ dims) (i ∷ is) index e =
    shard_loop-value dims is (index * dim.sharding + i) (omega arith)
    ∙ regroup index dim.sharding i (product (shardings dims)) (value (shardings dims) is)
  where
    regroup : (a s i p v : ℕ) → (a * s + i) * p + v ≡ a * (s * p) + (i * p + v)
    regroup a s i p v = omega arith

compute_tile_shard-value :
    (dims : List ShardingDim) (is : List ℕ)
    → length is ≡ length dims
    → compute_tile_shard is dims ≡ value (shardings dims) is
unfolding compute_tile_shard value
compute_tile_shard-value [] [] e = refl
compute_tile_shard-value [] (i ∷ is) e = absurd (omega arith)
compute_tile_shard-value (dim ∷ dims) [] e = absurd (omega arith)
compute_tile_shard-value (dim ∷ dims) (i ∷ is) e = shard_loop-value dims is i (omega arith)

shard-tile_number :
    (dims : List ShardingDim) (is : List ℕ)
    → length is ≡ length dims
    → compute_tile_shard is dims ≡ tile_number dims same_place is
unfolding tile_number
shard-tile_number dims is e =
    compute_tile_shard-value dims is e
    ∙ sym (
        ap₂ value (gather_self (length dims) (shardings dims) (length-shardings dims))
          (gather_self (length dims) is e))

module _ (dims : List ShardingDim) (o : InOrder 0 dims) where
  -- If the dimensions are not permuted, the index of a shard that exists gives the shard back.
  pub shard-index :
      (shard : ℕ)
      → shard < product (shardings dims)
      → compute_tile_shard (compute_tile_index shard dims) dims ≡ shard
  shard-index shard h =
      shard-tile_number dims _ (length-index dims same_place (InOrder-IsPermuted dims o) shard)
      ∙ tile_number-index dims same_place (InOrder-IsPermuted dims o) shard h

  -- If the dimensions are not permuted, the shard of an index in range has that index, and exists.
  pub index-shard :
      (index : List ℕ)
      → IsIndex dims index
      → (compute_tile_index (compute_tile_shard index dims) dims ≡ index)
        × (compute_tile_shard index dims < product (shardings dims))
  index-shard index w = (
    ap (λ s. compute_tile_index s dims) (shard-tile_number dims index w.full)
        ∙ index-tile_number dims same_place (InOrder-IsPermuted dims o) index w,
    omega (
      arith,
      shard-tile_number dims index w.full,
      tile_number-lt dims same_place (InOrder-IsPermuted dims o) index w,
    ),
  )

  -- If the dimensions are not permuted, ComputeTileShard and ComputeTileIndex undo each other: the index
  -- of a shard that exists gives the shard back, and the shard of an index in range has that index, and
  -- exists.
  pub compute_tile_shard_inverse :
      (shard : ℕ) (index : List ℕ)
      → shard < product (shardings dims)
      → IsIndex dims index
      → (compute_tile_shard (compute_tile_index shard dims) dims ≡ shard)
        × (compute_tile_index (compute_tile_shard index dims) dims ≡ index)
        × (compute_tile_shard index dims < product (shardings dims))
  compute_tile_shard_inverse shard index h w =
      let back = index-shard index w in (shard-index shard h, back.0, back.1)

-- Two dimensions that swap places, sharded in `a` and in `b`.
abbrev pub swapped : ℕ → ℕ → ℕ → ℕ → List ShardingDim
swapped a b sa sb =
    record { size = sa; sharding = a; permutation = 1 }
    ∷ record { size = sb; sharding = b; permutation = 0 }
    ∷ []

swapped_digits :
    (a b : ℕ)
    → 2 ≤ a
    → 2 ≤ b
    → let s = 1 * b * a / b in (1 / s ≡ 0) × ((1 - 1 / s * s) / (s / a) ≡ 1)
swapped_digits a b ha hb =
    let whole : 1 * b * a / b ≡ a =
      ap (λ t. t / b) (omega arith) ∙ mul-div_cancel b a (omega arith) in
    let low : 1 / a ≡ 0 = grind arith in
    let one : a / a ≡ 1 = grind arith in rw whole (rw (low, one) (refl, omega arith))

swapped_index :
    (a b sa sb : ℕ) → 2 ≤ a → 2 ≤ b → compute_tile_index 1 (swapped a b sa sb) ≡ 1 ∷ 0 ∷ []
unfolding compute_tile_index
swapped_index a b sa sb ha hb =
    ap₂ (λ x y. x ∷ y ∷ []) (swapped_digits a b ha hb).1 (swapped_digits a b ha hb).0

swapped_shard : (a b sa sb : ℕ) → compute_tile_shard (1 ∷ 0 ∷ []) (swapped a b sa sb) ≡ b
unfolding compute_tile_shard
swapped_shard a b sa sb = omega arith

-- If two dimensions swap places and each is sharded in two or more, shard 1 has the index (1, 0),
-- and `ComputeTileShard`, which does not read the permutation, takes that index to shard `b`.
pub shard-index-swapped :
    (a b sa sb : ℕ)
    → 2 ≤ a
    → 2 ≤ b
    → (compute_tile_index 1 (swapped a b sa sb) ≡ 1 ∷ 0 ∷ [])
      × (compute_tile_shard (compute_tile_index 1 (swapped a b sa sb)) (swapped a b sa sb) ≡ b)
shard-index-swapped a b sa sb ha hb =
    let index = swapped_index a b sa sb ha hb in
    (index, ap (λ i. compute_tile_shard i (swapped a b sa sb)) index ∙ swapped_shard a b sa sb)
