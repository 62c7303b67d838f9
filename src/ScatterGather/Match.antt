-- ===== src/ScatterGather/Match.antt =====
-- The slices of a fine shard against those of the coarse shards, in both branches of
-- `GetScatterGatherConfig` (src/zuku/reshard_scatter_gather.cc).
use zuku.Base.{
  ℕ, ◌+◌, ◌-◌, ◌*◌, ◌/◌, ◌%◌, ◌<◌, ◌≡◌, refl, sym, ap, ◌∙◌, subst, inl, inr, Bool, true, false, not,
  List, [], ◌∷◌, arith, length, get_or, set, length-set, get_or-set_self, get_or-set_ne, set-get_or,
  set-set, product, div-lt, ok,
}
use native.Mathlib.Decide.{ℕ_discrete}
use zuku.Shape.{Sharding}
use zuku.Tile.{RealmShape, compute_tile_index, compute_tile_shard}
use zuku.Tile.Permuted.{shardings}
use zuku.Tile.RoundTrip.{IsIndex, compute_tile_index-IsIndex}
use zuku.Tile.Shards.{InOrder-IsPermuted, same_place, shard-index, index-shard}
use zuku.ScatterGather.{SliceConfig, slice_config, tile_box, coarse_slices, fine_slice}
use zuku.ScatterGather.Slices.{
  Offered, IsFiner, IsSupported, make_tile_box-ok, slices_from, slice_loop-ok, Listed-intro,
  Listed-elim,
}

quotient_cut : (x s k : ℕ) → 0 < k → x < s * k → (x / k < s) × (x % k < k) × (x / k * k + x % k ≡ x)
quotient_cut x s k h lt = (div-lt x s k lt, grind arith, grind arith)

block_cut : (x s k t : ℕ) → t < k → x < s → ((x * k + t) / k ≡ x) × (x * k + t < s * k)
block_cut x s k t ht hx = (grind arith, grind arith)

module _ (max_dim : ℕ) (coarse fine : Sharding) (dim k : ℕ) (w : IsFiner coarse fine dim k)
    (h : IsSupported max_dim fine) where
  abbrev pub coarse_shards : ℕ
  coarse_shards = product (shardings coarse.dims)

  abbrev pub fine_shards : ℕ
  fine_shards = product (shardings fine.dims)

  -- A fine index gives the coarse index of the tile around it.
  coarse-IsIndex :
      (index : List ℕ)
      → IsIndex fine.dims index
      → IsIndex coarse.dims (set index dim (get_or index dim 0 / k))
  coarse-IsIndex index v = record {
    full = length-set index dim _ ∙ v.full ∙ sym w.same_dims;
    below = λ j lt. elim (ℕ_discrete dim j) [
      | yes e ↦
          subst
            (λ q.
              get_or (set index dim (get_or index dim 0 / k)) q 0
              < get_or (shardings coarse.dims) q 0)
            e
            (rw
              (get_or-set_self index dim (get_or index dim 0 / k) 0
                (omega (arith, v.full, w.dim_in)))
              (quotient_cut _ _ k w.positive
                (subst (λ s. get_or index dim 0 < s) w.cut (v.below dim w.dim_in))).0)
      | no ne ↦
          rw (get_or-set_ne index dim j (get_or index dim 0 / k) 0 ne)
            (omega (arith, w.others j (λ e. ne (sym e)), v.below j (omega (arith, w.same_dims))))
    ];
  }

  -- A coarse index and a place in the tile give a fine index.
  fine-IsIndex :
      (index : List ℕ) (q : ℕ)
      → IsIndex coarse.dims index
      → q < get_or (shardings fine.dims) dim 0
      → IsIndex fine.dims (set index dim q)
  fine-IsIndex index q v below = record {
    full = length-set index dim _ ∙ v.full ∙ w.same_dims;
    below = λ j lt. elim (ℕ_discrete dim j) [
      | yes e ↦
          subst (λ p. get_or (set index dim q) p 0 < get_or (shardings fine.dims) p 0) e
            (rw (get_or-set_self index dim q 0 (omega (arith, v.full, w.dim_in, w.same_dims)))
              below)
      | no ne ↦
          rw (get_or-set_ne index dim j q 0 ne)
            (omega (arith, w.others j (λ e. ne (sym e)), v.below j (omega (arith, w.same_dims))))
    ];
  }

  -- What a fine shard exchanges is one slice.
  pub fine_slice-ok :
      (receive : Bool) (shard : ℕ)
      → let index = compute_tile_index shard fine.dims in
        fine_slice max_dim receive shard dim k coarse fine
        ≡ ok (
            slice_config receive shard
              (compute_tile_shard (set index dim (get_or index dim 0 / k)) coarse.dims)
              (tile_box index fine)
            ∷ [])
  unfolding fine_slice
  fine_slice-ok receive shard = rw (make_tile_box-ok max_dim fine _ h)

  pub coarse_slices-ok :
      (receive : Bool) (shard : ℕ)
      → let index = compute_tile_index shard coarse.dims in
        coarse_slices max_dim receive shard dim k coarse fine
        ≡ ok (slices_from max_dim fine h receive shard dim index (get_or index dim 0 * k) k)
  unfolding coarse_slices
  coarse_slices-ok receive shard = slice_loop-ok max_dim fine h receive shard dim _ _ k

  -- Swapping who receives and who is named swaps nothing in the slice.
  slice_config-swap :
      (receive : Bool) (a b : ℕ) (bounds : RealmShape)
      → slice_config receive a b bounds ≡ slice_config (not receive) b a bounds
  slice_config-swap true a b bounds = refl
  slice_config-swap false a b bounds = refl

  -- A coarse shard offers the slice of each fine index in its tile.
  coarse-listed :
      (receive : Bool) (other : ℕ) (index : List ℕ)
      → IsIndex fine.dims index
      → compute_tile_index other coarse.dims ≡ set index dim (get_or index dim 0 / k)
      → Offered
          (slice_config receive other (compute_tile_shard index fine.dims) (tile_box index fine))
          (coarse_slices max_dim receive other dim k coarse fine)
  coarse-listed receive other index v e =
      let x : ℕ = get_or index dim 0 in
      let cut = quotient_cut x _ k w.positive (subst (λ s. x < s) w.cut (v.below dim w.dim_in)) in
      let inside : dim < length index = omega (arith, v.full, w.dim_in) in
      let start : get_or (set index dim (x / k)) dim 0 ≡ x / k =
        get_or-set_self index dim (x / k) 0 inside in
      let whole : set (set index dim (x / k)) dim (x / k * k + x % k) ≡ index =
        set-set index dim (x / k) (x / k * k + x % k)
        ∙ ap (set index dim) cut.2
        ∙ set-get_or index dim 0 in
      let member =
        Listed-intro max_dim fine h receive other dim (set index dim (x / k)) (x / k * k) k (x % k)
          cut.1 in
      rw (coarse_slices-ok receive other, e, start) (rw whole at member)

  -- Let a fine sharding cut one dimension of a coarse one `k` times finer, neither permuted, in a
  -- number of dimensions that Realm supports. If an existing fine shard receives a slice (or sends
  -- it), the slice names it and a coarse shard that exists, and the coarse shard sends the same
  -- slice (or receives it).
  pub fine-coarse :
      (receive : Bool) (shard : ℕ) (slice : SliceConfig)
      → shard < fine_shards
      → Offered slice (fine_slice max_dim receive shard dim k coarse fine)
      → (other : ℕ) × (other < coarse_shards)
        × ((bounds : RealmShape) × (slice ≡ slice_config receive shard other bounds))
        × Offered slice (coarse_slices max_dim (not receive) other dim k coarse fine)
  fine-coarse receive shard slice lt o =
      let index : List ℕ = compute_tile_index shard fine.dims in
      let v : IsIndex fine.dims index =
        compute_tile_index-IsIndex fine.dims same_place (InOrder-IsPermuted fine.dims w.fine_order)
          shard lt in
      let around = index-shard coarse.dims w.coarse_order _ (coarse-IsIndex index v) in
      let other : ℕ = compute_tile_shard (set index dim (get_or index dim 0 / k)) coarse.dims in
      let back : compute_tile_shard index fine.dims ≡ shard =
        shard-index fine.dims w.fine_order shard lt in
      let member = rw back at (coarse-listed (not receive) other index v around.0) in
      elim (rw (fine_slice-ok receive shard) at o) [
        | inl e ↦ (
          other,
          around.1,
          (tile_box index fine, e),
          subst (λ s. Offered s (coarse_slices max_dim (not receive) other dim k coarse fine))
              (sym (e ∙ slice_config-swap receive shard other (tile_box index fine))) member,
        )
        | inr l ↦ absurd l
      ]

  -- Let a fine sharding cut one dimension of a coarse one `k` times finer, neither permuted, in a
  -- number of dimensions that Realm supports. If an existing coarse shard sends a slice (or receives
  -- it), the slice names it and a fine shard that exists, and the fine shard receives the same slice
  -- (or sends it).
  pub coarse-fine :
      (receive : Bool) (shard : ℕ) (slice : SliceConfig)
      → shard < coarse_shards
      → Offered slice (coarse_slices max_dim receive shard dim k coarse fine)
      → (other : ℕ) × (other < fine_shards)
        × ((bounds : RealmShape) × (slice ≡ slice_config receive shard other bounds))
        × Offered slice (fine_slice max_dim (not receive) other dim k coarse fine)
  coarse-fine receive shard slice lt o =
      let index : List ℕ = compute_tile_index shard coarse.dims in
      let x : ℕ = get_or index dim 0 in
      let v : IsIndex coarse.dims index =
        compute_tile_index-IsIndex coarse.dims same_place
          (InOrder-IsPermuted coarse.dims w.coarse_order) shard lt in
      let found =
        Listed-elim max_dim fine h receive shard dim index (x * k) k slice
          (rw (coarse_slices-ok receive shard) at o) in
      let q : ℕ = found.0 in
      let small : x < get_or (shardings coarse.dims) dim 0 =
        v.below dim (omega (arith, w.dim_in, w.same_dims)) in
      let whole : x * k + (q - x * k) ≡ q = omega (arith, found.1) in
      let cut = block_cut x _ k (q - x * k) (omega (arith, found.1, found.2)) small in
      let at : List ℕ = set index dim q in
      let in_fine : IsIndex fine.dims at =
        fine-IsIndex index q v (omega (arith, w.cut, whole, cut.1)) in
      let inside : dim < length index = omega (arith, v.full, w.dim_in, w.same_dims) in
      let around = index-shard fine.dims w.fine_order at in_fine in
      let other : ℕ = compute_tile_shard at fine.dims in
      let named : compute_tile_shard (set at dim (get_or at dim 0 / k)) coarse.dims ≡ shard =
        rw
          (
            get_or-set_self index dim q 0 inside,
            set-set index dim q (q / k),
            sym (ap (λ t. t / k) whole) ∙ cut.0,
            set-get_or index dim 0,
          )
          (shard-index coarse.dims w.coarse_order shard lt) in
      (
        other,
        around.1,
        (tile_box at fine, found.3),
        rw (fine_slice-ok (not receive) other, around.0, named)
            (inl (found.3 ∙ slice_config-swap receive shard other (tile_box at fine))),
      )
