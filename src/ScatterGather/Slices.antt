-- ===== src/ScatterGather/Slices.antt =====
-- The slices that the loops of src/zuku/reshard_scatter_gather.cc list, and when one sharding is
-- finer than another.
use zuku.Base.{
  ℕ, zero, suc, ◌+◌, ◌*◌, ◌≤◌, ◌<◌, ◌≡◌, refl, ap, subst, ◌≢◌, ◌⊎◌, inl, inr, Bool, true, List, [],
  ◌∷◌, arith, length, get_or, set, Result, ok, err,
}
use zuku.Shape.{Sharding}
use zuku.Tile.{compute_tile_shard, supported_rank}
use zuku.Tile.Permuted.{shardings}
use zuku.Tile.Shards.{InOrder}
use zuku.ScatterGather.{SliceConfig, slice_config, make_tile_box, tile_box, box_dims, slice_loop}

-- A slice is among those that a shard exchanges.
abbrev pub Listed : SliceConfig → List SliceConfig → Type 0
Listed slice [] = ⊥
Listed slice (x ∷ xs) = (slice ≡ x) ⊎ Listed slice xs

abbrev pub Offered : SliceConfig → Result (List SliceConfig) → Type 0
Offered slice (ok xs) = Listed slice xs
Offered slice (err e) = ⊥

-- The fine sharding cuts one dimension of the coarse one `k` times finer; neither is permuted.
pub record IsFiner (coarse fine : Sharding) (dim k : ℕ) : Type 0 where
  pub coarse_order : InOrder 0 coarse.dims
  pub fine_order : InOrder 0 fine.dims
  pub same_dims : length coarse.dims ≡ length fine.dims
  pub dim_in : dim < length fine.dims
  pub positive : 0 < k
  pub cut : get_or (shardings fine.dims) dim 0 ≡ get_or (shardings coarse.dims) dim 0 * k
  pub others :
      (j : ℕ) → j ≢ dim → get_or (shardings fine.dims) j 0 ≡ get_or (shardings coarse.dims) j 0

abbrev pub IsSupported : ℕ → Sharding → Type 0
IsSupported max_dim s = supported_rank max_dim (box_dims s) ≡ true

pub make_tile_box-ok :
    (max_dim : ℕ) (s : Sharding) (index : List ℕ)
    → IsSupported max_dim s
    → make_tile_box max_dim index s ≡ ok (tile_box index s)
unfolding make_tile_box
make_tile_box-ok max_dim s index h = rw h

module _ (max_dim : ℕ) (fine : Sharding) (h : IsSupported max_dim fine) where
  -- The slices that the loop makes, without the tests for the number of dimensions.
  pub slices_from : Bool → ℕ → ℕ → List ℕ → ℕ → ℕ → List SliceConfig
  slices_from receive own dim index start zero = []
  slices_from receive own dim index start (suc n) =
      slice_config receive own (compute_tile_shard (set index dim start) fine.dims)
        (tile_box (set index dim start) fine)
      ∷ slices_from receive own dim index (start + 1) n

  pub slice_loop-ok :
      (receive : Bool) (own dim : ℕ) (index : List ℕ) (start n : ℕ)
      → slice_loop max_dim receive own dim index start n fine
        ≡ ok (slices_from receive own dim index start n)
  unfolding slice_loop slices_from
  slice_loop-ok receive own dim index start zero = refl
  slice_loop-ok receive own dim index start (suc n) =
      rw
        (
          make_tile_box-ok max_dim fine (set index dim start) h,
          slice_loop-ok receive own dim index (start + 1) n,
        )
        refl

  pub Listed-intro :
      (receive : Bool) (own dim : ℕ) (index : List ℕ) (start n t : ℕ)
      → t < n
      → Listed
          (slice_config receive own
            (compute_tile_shard (set index dim (start + t)) fine.dims)
            (tile_box (set index dim (start + t)) fine))
          (slices_from receive own dim index start n)
  unfolding slices_from
  Listed-intro receive own dim index start zero t lt = absurd (omega arith)
  Listed-intro receive own dim index start (suc n) zero lt = inl (
      ap
        (λ q.
          slice_config receive own (compute_tile_shard (set index dim q) fine.dims)
            (tile_box (set index dim q) fine))
        (omega arith))
  Listed-intro receive own dim index start (suc n) (suc t) lt = inr (
      subst
        (λ q.
          Listed
            (slice_config receive own (compute_tile_shard (set index dim q) fine.dims)
              (tile_box (set index dim q) fine))
            (slices_from receive own dim index (start + 1) n))
        (omega arith) (Listed-intro receive own dim index (start + 1) n t (omega arith)))

  pub Listed-elim :
      (receive : Bool) (own dim : ℕ) (index : List ℕ) (start n : ℕ) (slice : SliceConfig)
      → Listed slice (slices_from receive own dim index start n)
      → (q : ℕ) × (start ≤ q)
        × (q < start + n)
        × (slice
            ≡ slice_config receive own
                (compute_tile_shard (set index dim q) fine.dims)
                (tile_box (set index dim q) fine))
  unfolding slices_from
  Listed-elim receive own dim index start zero slice l = absurd l
  Listed-elim receive own dim index start (suc n) slice (inl e) =
      (start, omega arith, omega arith, e)
  Listed-elim receive own dim index start (suc n) slice (inr l) =
      let found = Listed-elim receive own dim index (start + 1) n slice l in
      (found.0, omega (arith, found.1), omega (arith, found.2), found.3)
