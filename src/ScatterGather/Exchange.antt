-- ===== src/ScatterGather/Exchange.antt =====
-- `GetScatterGatherConfig` (src/zuku/reshard_scatter_gather.cc) on all processors: who sends a slice
-- and who receives it.
use zuku.Base.{
  ℕ, ◌*◌, ◌/◌, ◌<◌, ◌≡◌, refl, sym, ap, ◌∙◌, subst, ◌↔◌, Bool, true, false, Option, none, some,
  List, [], ◌∷◌, arith, ltb, ◌==◌, get_or, set, mul-div_cancel, Result, ok,
}
use zuku.Shape.{Sharding}
use zuku.ScatterGather.{
  SliceConfig, ScatterGatherConfig, slice_config, sharding_at, gather_config, scatter_config,
  get_scatter_gather_config, coarse_slices, fine_slice, tile_box,
}
use zuku.ScatterGather.Slices.{IsFiner, Listed, IsSupported, slices_from, Offered}
use zuku.ScatterGather.Match.{
  fine_slice-ok, coarse_slices-ok, fine_shards, coarse_shards, fine-coarse, coarse-fine,
}
use zuku.Tile.{compute_tile_shard, compute_tile_index}

-- The slices of a processor's shard, if it has one.
abbrev of_shard : Option ℕ → (ℕ → List SliceConfig) → List SliceConfig
of_shard none f = []
of_shard (some shard) f = f shard

-- Whatever source shard its processor has, a destination shard receives a slice.
abbrev pub Received : ℕ → ℕ → Sharding → Sharding → ℕ → SliceConfig → Type 0
Received max_dim dim src dst shard slice =
    (src_shard : Option ℕ)
    → (config : ScatterGatherConfig) × (get_scatter_gather_config max_dim dim src_shard (some shard)
          src dst
        ≡ ok config)
      × Listed slice config.to_target

-- Whatever destination shard its processor has, a source shard sends a slice.
abbrev pub Sent : ℕ → ℕ → Sharding → Sharding → ℕ → SliceConfig → Type 0
Sent max_dim dim src dst shard slice =
    (dst_shard : Option ℕ)
    → (config : ScatterGatherConfig) × (get_scatter_gather_config max_dim dim (some shard) dst_shard
          src dst
        ≡ ok config)
      × Listed slice config.from_source

module _ (max_dim : ℕ) (coarse fine : Sharding) (dim k : ℕ) (w : IsFiner coarse fine dim k)
    (h : IsSupported max_dim fine) (several : 1 < k) (sharded : 0 < sharding_at coarse dim) where
  fine_list : Bool → ℕ → List SliceConfig
  fine_list receive shard =
      slice_config receive shard
        (compute_tile_shard
          (set (compute_tile_index shard fine.dims) dim
            (get_or (compute_tile_index shard fine.dims) dim 0 / k))
          coarse.dims)
        (tile_box (compute_tile_index shard fine.dims) fine)
      ∷ []

  coarse_list : Bool → ℕ → List SliceConfig
  coarse_list receive shard =
      slices_from max_dim fine h receive shard dim (compute_tile_index shard coarse.dims)
        (get_or (compute_tile_index shard coarse.dims) dim 0 * k) k

  Offered-fine :
      (receive : Bool) (shard : ℕ) (slice : SliceConfig)
      → Listed slice (fine_list receive shard)
        ↔ Offered slice (fine_slice max_dim receive shard dim k coarse fine)
  unfolding fine_list
  Offered-fine receive shard slice =
      rw (fine_slice-ok max_dim coarse fine dim k w h receive shard) (λ l. l, λ l. l)

  Offered-coarse :
      (receive : Bool) (shard : ℕ) (slice : SliceConfig)
      → Listed slice (coarse_list receive shard)
        ↔ Offered slice (coarse_slices max_dim receive shard dim k coarse fine)
  unfolding coarse_list
  Offered-coarse receive shard slice =
      rw (coarse_slices-ok max_dim coarse fine dim k w h receive shard) (λ l. l, λ l. l)

  branch :
      (s d : ℕ)
      → s ≡ d * k
      → 0 < d
      → (s == d ≡ false) × (ltb d s ≡ true) × (d == s ≡ false) × (ltb s d ≡ false) × (s / d ≡ k)
  branch s d e pos =
      let more : d < s = grind arith in
      (
        ground arith,
        ground arith,
        ground arith,
        ground arith,
        ap (λ t. t / d) e ∙ mul-div_cancel d k pos,
      )

  gather_config-ok :
      (p q : Option ℕ)
      → gather_config max_dim dim k p q fine coarse
        ≡ ok (record {
          from_source = of_shard p (fine_list false);
          to_target = of_shard q (coarse_list true);
        })
  unfolding gather_config fine_list coarse_list
  gather_config-ok none none = refl
  gather_config-ok none (some b) = rw (coarse_slices-ok max_dim coarse fine dim k w h true b) refl
  gather_config-ok (some a) none = rw (fine_slice-ok max_dim coarse fine dim k w h false a) refl
  gather_config-ok (some a) (some b) =
      rw
        (
          fine_slice-ok max_dim coarse fine dim k w h false a,
          coarse_slices-ok max_dim coarse fine dim k w h true b,
        )
        refl

  scatter_config-ok :
      (p q : Option ℕ)
      → scatter_config max_dim dim k p q coarse fine
        ≡ ok (record {
          from_source = of_shard p (coarse_list false);
          to_target = of_shard q (fine_list true);
        })
  unfolding scatter_config fine_list coarse_list
  scatter_config-ok none none = refl
  scatter_config-ok none (some b) = rw (fine_slice-ok max_dim coarse fine dim k w h true b) refl
  scatter_config-ok (some a) none = rw (coarse_slices-ok max_dim coarse fine dim k w h false a) refl
  scatter_config-ok (some a) (some b) =
      rw
        (
          fine_slice-ok max_dim coarse fine dim k w h true b,
          coarse_slices-ok max_dim coarse fine dim k w h false a,
        )
        refl

  gather_result :
      (p q : Option ℕ)
      → get_scatter_gather_config max_dim dim p q fine coarse
        ≡ ok (record {
          from_source = of_shard p (fine_list false);
          to_target = of_shard q (coarse_list true);
        })
  unfolding get_scatter_gather_config
  gather_result p q =
      let b = branch (sharding_at fine dim) (sharding_at coarse dim) w.cut sharded in
      rw (b.0, b.1, b.4) (gather_config-ok p q)

  scatter_result :
      (p q : Option ℕ)
      → get_scatter_gather_config max_dim dim p q coarse fine
        ≡ ok (record {
          from_source = of_shard p (coarse_list false);
          to_target = of_shard q (fine_list true);
        })
  unfolding get_scatter_gather_config
  scatter_result p q =
      let b = branch (sharding_at fine dim) (sharding_at coarse dim) w.cut sharded in
      rw (b.2, b.3, b.4) (scatter_config-ok p q)

  from_source-of :
      (a b : ScatterGatherConfig) (slice : SliceConfig) (r : Result ScatterGatherConfig)
      → r ≡ ok a
      → r ≡ ok b
      → Listed slice a.from_source
      → Listed slice b.from_source
  from_source-of a b slice r ea eb l =
      let e : a ≡ b = cc (sym ea ∙ eb) in
      subst (λ (c : ScatterGatherConfig). Listed slice c.from_source) e l

  to_target-of :
      (a b : ScatterGatherConfig) (slice : SliceConfig) (r : Result ScatterGatherConfig)
      → r ≡ ok a
      → r ≡ ok b
      → Listed slice a.to_target
      → Listed slice b.to_target
  to_target-of a b slice r ea eb l =
      let e : a ≡ b = cc (sym ea ∙ eb) in
      subst (λ (c : ScatterGatherConfig). Listed slice c.to_target) e l

  -- Let the target's sharding cut one dimension of the source's `k` times coarser, for `k` at least
  -- 2 and a dimension cut in one part or more, neither permuted, in a number of dimensions that
  -- Realm supports. If a source shard that exists sends a slice, the slice names it and a
  -- destination shard that exists, which receives the same slice, whatever else its processor does.
  pub gather_sent :
      (shard : ℕ) (other_shard : Option ℕ) (config : ScatterGatherConfig) (slice : SliceConfig)
      → shard < fine_shards max_dim coarse fine dim k w h
      → get_scatter_gather_config max_dim dim (some shard) other_shard fine coarse ≡ ok config
      → Listed slice config.from_source
      → (slice.src_shard ≡ shard)
        × (slice.dst_shard < coarse_shards max_dim coarse fine dim k w h)
        × Received max_dim dim fine coarse slice.dst_shard slice
  gather_sent shard other_shard config slice lt e l =
      let own = from_source-of _ _ slice _ e (gather_result (some shard) other_shard) l in
      let (other, below, named, member) =
        fine-coarse max_dim coarse fine dim k w h false shard slice lt
          ((Offered-fine false shard slice).0 own) in
      let to : slice.dst_shard ≡ other = ap (λ (s : SliceConfig). s.dst_shard) named.1 in
      (
        ap (λ (s : SliceConfig). s.src_shard) named.1,
        subst (λ t. t < coarse_shards max_dim coarse fine dim k w h) (sym to) below,
        λ p. (
          _,
          gather_result p (some slice.dst_shard),
          (Offered-coarse true slice.dst_shard slice).1 (
              subst (λ t. Offered slice (coarse_slices max_dim true t dim k coarse fine)) (sym to)
                member),
        ),
      )

  -- Let the target's sharding cut one dimension of the source's `k` times coarser, for `k` at least
  -- 2 and a dimension cut in one part or more, neither permuted, in a number of dimensions that
  -- Realm supports. If a destination shard that exists receives a slice, the slice names it and a
  -- source shard that exists, which sends the same slice, whatever else its processor does.
  pub gather_received :
      (shard : ℕ) (other_shard : Option ℕ) (config : ScatterGatherConfig) (slice : SliceConfig)
      → shard < coarse_shards max_dim coarse fine dim k w h
      → get_scatter_gather_config max_dim dim other_shard (some shard) fine coarse ≡ ok config
      → Listed slice config.to_target
      → (slice.dst_shard ≡ shard)
        × (slice.src_shard < fine_shards max_dim coarse fine dim k w h)
        × Sent max_dim dim fine coarse slice.src_shard slice
  gather_received shard other_shard config slice lt e l =
      let own = to_target-of _ _ slice _ e (gather_result other_shard (some shard)) l in
      let (other, below, named, member) =
        coarse-fine max_dim coarse fine dim k w h true shard slice lt
          ((Offered-coarse true shard slice).0 own) in
      let to : slice.src_shard ≡ other = ap (λ (s : SliceConfig). s.src_shard) named.1 in
      (
        ap (λ (s : SliceConfig). s.dst_shard) named.1,
        subst (λ t. t < fine_shards max_dim coarse fine dim k w h) (sym to) below,
        λ p. (
          _,
          gather_result (some slice.src_shard) p,
          (Offered-fine false slice.src_shard slice).1 (
              subst (λ t. Offered slice (fine_slice max_dim false t dim k coarse fine)) (sym to)
                member),
        ),
      )

  -- Let the target's sharding cut one dimension of the source's `k` times finer, for `k` at least 2
  -- and a dimension cut in one part or more, neither permuted, in a number of dimensions that Realm
  -- supports. If a source shard that exists sends a slice, the slice names it and a destination
  -- shard that exists, which receives the same slice, whatever else its processor does.
  pub scatter_sent :
      (shard : ℕ) (other_shard : Option ℕ) (config : ScatterGatherConfig) (slice : SliceConfig)
      → shard < coarse_shards max_dim coarse fine dim k w h
      → get_scatter_gather_config max_dim dim (some shard) other_shard coarse fine ≡ ok config
      → Listed slice config.from_source
      → (slice.src_shard ≡ shard)
        × (slice.dst_shard < fine_shards max_dim coarse fine dim k w h)
        × Received max_dim dim coarse fine slice.dst_shard slice
  scatter_sent shard other_shard config slice lt e l =
      let own = from_source-of _ _ slice _ e (scatter_result (some shard) other_shard) l in
      let (other, below, named, member) =
        coarse-fine max_dim coarse fine dim k w h false shard slice lt
          ((Offered-coarse false shard slice).0 own) in
      let to : slice.dst_shard ≡ other = ap (λ (s : SliceConfig). s.dst_shard) named.1 in
      (
        ap (λ (s : SliceConfig). s.src_shard) named.1,
        subst (λ t. t < fine_shards max_dim coarse fine dim k w h) (sym to) below,
        λ p. (
          _,
          scatter_result p (some slice.dst_shard),
          (Offered-fine true slice.dst_shard slice).1 (
              subst (λ t. Offered slice (fine_slice max_dim true t dim k coarse fine)) (sym to)
                member),
        ),
      )

  -- Let the target's sharding cut one dimension of the source's `k` times finer, for `k` at least 2
  -- and a dimension cut in one part or more, neither permuted, in a number of dimensions that Realm
  -- supports. If a destination shard that exists receives a slice, the slice names it and a source
  -- shard that exists, which sends the same slice, whatever else its processor does.
  pub scatter_received :
      (shard : ℕ) (other_shard : Option ℕ) (config : ScatterGatherConfig) (slice : SliceConfig)
      → shard < fine_shards max_dim coarse fine dim k w h
      → get_scatter_gather_config max_dim dim other_shard (some shard) coarse fine ≡ ok config
      → Listed slice config.to_target
      → (slice.dst_shard ≡ shard)
        × (slice.src_shard < coarse_shards max_dim coarse fine dim k w h)
        × Sent max_dim dim coarse fine slice.src_shard slice
  scatter_received shard other_shard config slice lt e l =
      let own = to_target-of _ _ slice _ e (scatter_result other_shard (some shard)) l in
      let (other, below, named, member) =
        fine-coarse max_dim coarse fine dim k w h true shard slice lt
          ((Offered-fine true shard slice).0 own) in
      let to : slice.src_shard ≡ other = ap (λ (s : SliceConfig). s.src_shard) named.1 in
      (
        ap (λ (s : SliceConfig). s.dst_shard) named.1,
        subst (λ t. t < coarse_shards max_dim coarse fine dim k w h) (sym to) below,
        λ p. (
          _,
          scatter_result (some slice.src_shard) p,
          (Offered-coarse false slice.src_shard slice).1 (
              subst (λ t. Offered slice (coarse_slices max_dim false t dim k coarse fine)) (sym to)
                member),
        ),
      )
