-- ===== src/Tile/Permuted.antt =====
-- What the loops of `ComputeTileIndex` leave in `shard_extents`, `permutation` and `indices`.
use zuku.Base.{
  ℕ, zero, suc, ◌+◌, ◌*◌, ◌<◌, ◌≡◌, refl, sym, ap, ◌∙◌, ◌≢◌, List, [], ◌∷◌, arith, length, get_or,
  replicate, length-replicate, eq_of_get_or, product,
}
use zuku.Shape.{ShardingDim}
use zuku.Tile.{unpermute, stride_from, index_loop, compute_tile_index}
use zuku.Tile.Digits.{digits}
use zuku.Tile.Scatter.{scatter, length-scatter, scatter_hit, product-scatter}

abbrev pub permutations : List ShardingDim → List ℕ
permutations [] = []
permutations (dim ∷ dims) = dim.permutation ∷ permutations dims

abbrev pub shardings : List ShardingDim → List ℕ
shardings [] = []
shardings (dim ∷ dims) = dim.sharding ∷ shardings dims

-- The permutation fields are a bijection on the places of the dimensions, with this inverse.
pub record IsPermuted (dims : List ShardingDim) (inverse : ℕ → ℕ) : Type 0 where
  pub to_place : (j : ℕ) → j < length dims → get_or (permutations dims) j 0 < length dims
  pub to_dim : (p : ℕ) → p < length dims → inverse p < length dims
  pub back : (j : ℕ) → j < length dims → inverse (get_or (permutations dims) j 0) ≡ j
  pub forth : (p : ℕ) → p < length dims → get_or (permutations dims) (inverse p) 0 ≡ p

pub length-permutations : (dims : List ShardingDim) → length (permutations dims) ≡ length dims
length-permutations [] = refl
length-permutations (dim ∷ dims) = ap suc (length-permutations dims)

pub length-shardings : (dims : List ShardingDim) → length (shardings dims) ≡ length dims
length-shardings [] = refl
length-shardings (dim ∷ dims) = ap suc (length-shardings dims)

-- The numbers from `k` on.
pub count_up : ℕ → ℕ → List ℕ
count_up zero k = []
count_up (suc n) k = k ∷ count_up n (k + 1)

length-count_up : (n k : ℕ) → length (count_up n k) ≡ n
unfolding count_up
length-count_up zero k = refl
length-count_up (suc n) k = ap suc (length-count_up n (k + 1))

get_or-count_up : (n k i : ℕ) → i < n → get_or (count_up n k) i 0 ≡ k + i
unfolding count_up
get_or-count_up zero k i h = absurd (omega arith)
get_or-count_up (suc n) k zero h = omega arith
get_or-count_up (suc n) k (suc i) h = omega (arith, get_or-count_up n (k + 1) i)

-- Each loop writes one value at each place of a list.
unpermute-scatter :
    (dims : List ShardingDim) (k : ℕ) (extents permutation : List ℕ)
    → unpermute dims k extents permutation ≡ (
      scatter (permutations dims) (shardings dims) extents,
      scatter (permutations dims) (count_up (length dims) k) permutation,
    )
unfolding unpermute scatter count_up
unpermute-scatter [] k extents permutation = refl
unpermute-scatter (dim ∷ dims) k extents permutation = unpermute-scatter dims (k + 1) _ _

index_loop-scatter :
    (es ps : List ℕ) (stride remainder : ℕ) (indices : List ℕ)
    → length es ≡ length ps
    → index_loop es ps stride remainder indices ≡ scatter ps (digits es stride remainder) indices
unfolding index_loop scatter digits
index_loop-scatter [] [] s r xs e = refl
index_loop-scatter [] (p ∷ ps) s r xs e = absurd (omega arith)
index_loop-scatter (x ∷ es) [] s r xs e = absurd (omega arith)
index_loop-scatter (x ∷ es) (p ∷ ps) s r xs e = index_loop-scatter es ps _ _ _ (omega arith)

pub stride_from-product : (es : List ℕ) (s : ℕ) → stride_from s es ≡ s * product es
unfolding stride_from
stride_from-product [] s = omega arith
stride_from-product (e ∷ es) s = stride_from-product es (s * e) ∙ omega arith

get_or-replicate : (n q d : ℕ) → q < n → get_or (replicate n d) q 0 ≡ d
get_or-replicate zero q d h = absurd (omega arith)
get_or-replicate (suc n) zero d h = refl
get_or-replicate (suc n) (suc q) d h = get_or-replicate n q d (omega arith)

product-replicate : (n : ℕ) → product (replicate n 1) ≡ 1
product-replicate zero = refl
product-replicate (suc n) = omega (arith, product-replicate n)

module _ (dims : List ShardingDim) (inverse : ℕ → ℕ) (v : IsPermuted dims inverse) where
  abbrev n : ℕ
  n = length dims

  distinct :
      (i j : ℕ)
      → i < n
      → j < n
      → i ≢ j
      → get_or (permutations dims) j 0 ≢ get_or (permutations dims) i 0
  distinct i j li lj ne e = ne (sym (v.back i li) ∙ ap inverse (sym e) ∙ v.back j lj)

  -- The extents in the order of the permuted places.
  abbrev pub extents : List ℕ
  extents = scatter (permutations dims) (shardings dims) (replicate n 0)

  abbrev pub places : List ℕ
  places = scatter (permutations dims) (count_up n 0) (replicate n 0)

  pub length-extents : length extents ≡ n
  length-extents = length-scatter (permutations dims) _ _ ∙ length-replicate n 0

  pub length-places : length places ≡ n
  length-places = length-scatter (permutations dims) _ _ ∙ length-replicate n 0

  -- What the loop writes at place `p` is the value of the dimension that stands there.
  written :
      (vs xs : List ℕ)
      → length vs ≡ n
      → length xs ≡ n
      → (p : ℕ) → p < n
      → get_or (scatter (permutations dims) vs xs) p 0 ≡ get_or vs (inverse p) 0
  written vs xs e l p h = rw (v.forth p h) at (
      scatter_hit (permutations dims) vs xs (inverse p) 0
        (omega (arith, length-permutations dims, v.to_dim p h))
        (omega (arith, length-permutations dims)) (omega (arith, v.forth p h))
        (λ j lt ne.
          distinct (inverse p) j (v.to_dim p h) (omega (arith, length-permutations dims)) ne))

  pub get_or-extents : (p : ℕ) → p < n → get_or extents p 0 ≡ get_or (shardings dims) (inverse p) 0
  get_or-extents p h = written _ _ (length-shardings dims) (length-replicate n 0) p h

  pub get_or-places : (p : ℕ) → p < n → get_or places p 0 ≡ inverse p
  get_or-places p h =
      written _ _ (length-count_up n 0) (length-replicate n 0) p h
      ∙ get_or-count_up n 0 (inverse p) (v.to_dim p h)
      ∙ omega arith

  -- The extents in permuted order have the product of the shardings.
  pub product-extents : product extents ≡ product (shardings dims)
  product-extents = ap product same ∙ whole
    where
      ones : List ℕ
      ones = scatter (permutations dims) (shardings dims) (replicate n 1)

      length-ones : length ones ≡ n
      length-ones = length-scatter (permutations dims) _ _ ∙ length-replicate n 1

      same : extents ≡ ones
      same = eq_of_get_or extents ones 0 (length-extents ∙ sym length-ones) (λ p h.
          get_or-extents p (omega (arith, length-extents))
          ∙ sym (
              written _ _ (length-shardings dims) (length-replicate n 1) p
                (omega (arith, length-extents))))

      whole : product ones ≡ product (shardings dims)
      whole =
          product-scatter (permutations dims) (shardings dims) (replicate n 1)
            (omega (arith, length-permutations dims, length-shardings dims))
            (λ i lt.
              let h : i < n = omega (arith, length-permutations dims) in
              (
                omega (arith, length-replicate {A = ℕ} n 1, v.to_place i h),
                get_or-replicate n _ 1 (v.to_place i h),
              ))
            (λ i j li lj ne.
              distinct i j (omega (arith, length-permutations dims))
                (omega (arith, length-permutations dims)) ne)
          ∙ ap (λ t. product (shardings dims) * t) (product-replicate n)
          ∙ omega arith

  -- `ComputeTileIndex` scatters the digits of the shard over the dimensions.
  pub compute_tile_index-scatter :
      (index : ℕ)
      → compute_tile_index index dims
        ≡ scatter places (digits extents (product (shardings dims)) index) (replicate n 0)
  unfolding compute_tile_index
  compute_tile_index-scatter index = rw (unpermute-scatter dims 0 (replicate n 0) (replicate n 0)) (
      index_loop-scatter extents places (stride_from 1 extents) index (replicate n 0)
        (length-extents ∙ sym length-places)
      ∙ ap (λ s. scatter places (digits extents s index) (replicate n 0))
          (stride_from-product extents 1 ∙ omega (arith, product-extents)))
