-- ===== src/Tile/RoundTrip.antt =====
-- `ComputeTileIndex` in src/zuku/tiled_array.cc, and the numbering of tiles in permuted order.
use zuku.Base.{
  ℕ, zero, suc, ◌+◌, ◌<◌, ◌≡◌, refl, sym, ap, ap₂, ◌∙◌, List, [], ◌∷◌, arith, length, get_or,
  replicate, length-replicate, eq_of_get_or, product,
}
use zuku.Shape.{ShardingDim}
use zuku.Tile.{compute_tile_index}
use zuku.Tile.Digits.{
  digits, value, InRange, value-digits, digits-value, value-lt, length-digits, InRange-of_get_or,
  get_or-InRange,
}
use zuku.Tile.Scatter.{scatter, length-scatter, scatter_hit}
use zuku.Tile.Permuted.{
  IsPermuted, permutations, shardings, extents, places, length-extents, length-places,
  get_or-extents, get_or-places, product-extents, compute_tile_index-scatter,
}

-- The entries of a vector in the order of the permuted places.
unfoldable pub gather : (ℕ → ℕ) → ℕ → ℕ → List ℕ → List ℕ
gather inverse zero p xs = []
gather inverse (suc k) p xs = get_or xs (inverse p) 0 ∷ gather inverse k (p + 1) xs

-- The number of the tile at an index: a mixed radix number over the dimensions in permuted order.
unfoldable pub tile_number : List ShardingDim → (ℕ → ℕ) → List ℕ → ℕ
unfolding gather
tile_number dims inverse index =
    value (gather inverse (length dims) 0 (shardings dims)) (gather inverse (length dims) 0 index)

length-gather : (inverse : ℕ → ℕ) (k p : ℕ) (xs : List ℕ) → length (gather inverse k p xs) ≡ k
unfolding gather
length-gather inverse zero p xs = refl
length-gather inverse (suc k) p xs = ap suc (length-gather inverse k (p + 1) xs)

get_or-gather :
    (inverse : ℕ → ℕ) (k p i : ℕ) (xs : List ℕ)
    → i < k
    → get_or (gather inverse k p xs) i 0 ≡ get_or xs (inverse (p + i)) 0
unfolding gather
get_or-gather inverse zero p i xs h = absurd (omega arith)
get_or-gather inverse (suc k) p zero xs h = ap (λ q. get_or xs (inverse q) 0) (omega arith)
get_or-gather inverse (suc k) p (suc i) xs h =
    get_or-gather inverse k (p + 1) i xs (omega arith)
    ∙ ap (λ q. get_or xs (inverse q) 0) (omega arith)

gather_lem :
    (inverse : ℕ → ℕ) (k i : ℕ) (xs : List ℕ)
    → i < k
    → get_or (gather inverse k 0 xs) i 0 ≡ get_or xs (inverse i) 0
gather_lem inverse k i xs h =
    get_or-gather inverse k 0 i xs h ∙ ap (λ q. get_or xs (inverse q) 0) (omega arith)

-- An index has an entry for each dimension, below its sharding.
pub record IsIndex (dims : List ShardingDim) (index : List ℕ) : Type 0 where
  pub full : length index ≡ length dims
  pub below : (j : ℕ) → j < length dims → get_or index j 0 < get_or (shardings dims) j 0

module _ (dims : List ShardingDim) (inverse : ℕ → ℕ) (v : IsPermuted dims inverse) where
  abbrev n : ℕ
  n = length dims

  abbrev ordered : List ℕ
  ordered = gather inverse n 0 (shardings dims)

  extents-gather : extents dims inverse v ≡ ordered
  extents-gather =
      eq_of_get_or _ _ 0
        (length-extents dims inverse v ∙ sym (length-gather inverse n 0 (shardings dims)))
        (λ p h.
          let lt : p < n = omega (arith, length-extents dims inverse v) in
          get_or-extents dims inverse v p lt ∙ sym (gather_lem inverse n p (shardings dims) lt))

  product-ordered : product ordered ≡ product (shardings dims)
  product-ordered = ap product (sym extents-gather) ∙ product-extents dims inverse v

  -- The digits that the code divides off, in permuted order.
  abbrev code_digits : ℕ → List ℕ
  code_digits shard = digits ordered (product ordered) shard

  index-scatter :
      (shard : ℕ)
      → compute_tile_index shard dims
        ≡ scatter (places dims inverse v) (code_digits shard) (replicate n 0)
  index-scatter shard =
      compute_tile_index-scatter dims inverse v shard
      ∙ ap₂ (λ e s. scatter (places dims inverse v) (digits e s shard) (replicate n 0))
          extents-gather (sym product-ordered)

  length-code_digits : (shard : ℕ) → length (code_digits shard) ≡ n
  length-code_digits shard =
      length-digits ordered _ shard ∙ length-gather inverse n 0 (shardings dims)

  pub length-index : (shard : ℕ) → length (compute_tile_index shard dims) ≡ n
  length-index shard =
      ap length (index-scatter shard)
      ∙ length-scatter (places dims inverse v) _ _
      ∙ length-replicate n 0

  -- The entry of the dimension at place `p` is the digit of that place.
  get_or-index :
      (shard p : ℕ)
      → p < n
      → get_or (compute_tile_index shard dims) (inverse p) 0 ≡ get_or (code_digits shard) p 0
  get_or-index shard p h =
      ap (λ xs. get_or xs (inverse p) 0) (index-scatter shard)
      ∙ rw (get_or-places dims inverse v p h) at (
          scatter_hit (places dims inverse v) (code_digits shard) (replicate n 0) p 0
            (omega (arith, length-places dims inverse v))
            (length-code_digits shard ∙ sym (length-places dims inverse v))
            (omega
              (arith, get_or-places dims inverse v p h, v.to_dim p h, length-replicate {A = ℕ} n 0))
            (λ j lt ne e.
              let hj : j < n = omega (arith, length-places dims inverse v) in
              ne (
                sym (v.forth p h)
                ∙ ap (λ q. get_or (permutations dims) q 0)
                    (sym (get_or-places dims inverse v p h)
                      ∙ sym e
                      ∙ get_or-places dims inverse v j hj)
                ∙ v.forth j hj)))

  gather-index :
      (shard : ℕ) → gather inverse n 0 (compute_tile_index shard dims) ≡ code_digits shard
  gather-index shard =
      eq_of_get_or _ _ 0 (length-gather inverse n 0 _ ∙ sym (length-code_digits shard)) (λ p h.
        let lt : p < n = omega (arith, length-gather inverse n 0 (compute_tile_index shard dims)) in
        gather_lem inverse n p _ lt ∙ get_or-index shard p lt)

  -- If the dimensions are permuted, the index of a shard that exists numbers its tile back to the
  -- shard.
  pub tile_number-index :
      (shard : ℕ)
      → shard < product (shardings dims)
      → tile_number dims inverse (compute_tile_index shard dims) ≡ shard
  unfolding tile_number
  tile_number-index shard h =
      ap (value ordered) (gather-index shard)
      ∙ (value-digits ordered shard (omega (arith, product-ordered))).1

  pub compute_tile_index-IsIndex :
      (shard : ℕ) → shard < product (shardings dims) → IsIndex dims (compute_tile_index shard dims)
  compute_tile_index-IsIndex shard h = record { full = length-index shard; below = low }
    where
      low :
          (j : ℕ) → j < n → get_or (compute_tile_index shard dims) j 0 < get_or (shardings dims) j 0
      low j lt =
          let p : ℕ = get_or (permutations dims) j 0 in
          let hp : p < n = v.to_place j lt in
          rw (v.back j lt) at (
            rw (← get_or-index shard p hp, gather_lem inverse n p (shardings dims) hp) at
              (get_or-InRange ordered (code_digits shard) p
                (value-digits ordered shard (omega (arith, product-ordered))).0
                (omega (arith, length-gather inverse n 0 (shardings dims)))))

  module _ (index : List ℕ) (w : IsIndex dims index) where
    gather-InRange : InRange ordered (gather inverse n 0 index)
    gather-InRange =
        InRange-of_get_or _ _ (length-gather inverse n 0 _ ∙ sym (length-gather inverse n 0 index))
          (λ p h.
            let lt : p < n = omega (arith, length-gather inverse n 0 (shardings dims)) in
            omega (
              arith,
              gather_lem inverse n p index lt,
              gather_lem inverse n p (shardings dims) lt,
              w.below (inverse p) (v.to_dim p lt),
            ))

    pub tile_number-lt : tile_number dims inverse index < product (shardings dims)
    unfolding tile_number
    tile_number-lt = omega (arith, value-lt _ _ gather-InRange, product-ordered)

    -- If the dimensions are permuted and the index has an entry in range for each of them, the shard
    -- with the number of the index's tile has that index.
    pub index-tile_number : compute_tile_index (tile_number dims inverse index) dims ≡ index
    unfolding tile_number
    index-tile_number = eq_of_get_or _ _ 0 (length-index _ ∙ sym w.full) (λ j h.
        let lt : j < n = omega (arith, length-index (tile_number dims inverse index)) in
        let hp : get_or (permutations dims) j 0 < n = v.to_place j lt in
        ap (λ q. get_or (compute_tile_index (tile_number dims inverse index) dims) q 0)
          (sym (v.back j lt))
        ∙ get_or-index _ _ hp
        ∙ ap (λ ds. get_or ds (get_or (permutations dims) j 0) 0)
            (digits-value ordered (gather inverse n 0 index) gather-InRange)
        ∙ gather_lem inverse n _ index hp
        ∙ ap (λ q. get_or index q 0) (v.back j lt))

  -- If the dimensions are permuted, the index of a shard that exists numbers its tile back to the shard,
  -- and the shard with the number of a tile's index, with an entry in range for each dimension, has that
  -- index.
  pub compute_tile_index_inverse :
      (shard : ℕ) (index : List ℕ)
      → shard < product (shardings dims)
      → IsIndex dims index
      → (tile_number dims inverse (compute_tile_index shard dims) ≡ shard)
        × (compute_tile_index (tile_number dims inverse index) dims ≡ index)
  compute_tile_index_inverse shard index h w =
      (tile_number-index shard h, index-tile_number index w)
