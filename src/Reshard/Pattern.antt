-- ===== src/Reshard/Pattern.antt =====
-- The pattern that all processors follow: `DetermineShardingConfig` in src/zuku/reshard.cc.
use mathlib.Core.Option
use zuku.Mesh.{size}
use zuku.Reshard.{
  scatter_gather, broadcast, gather_shards, scatter_shards, unsupported, point_to_point, no_op,
  differences, ReshardConfig, fully_replicated, determine_sharding_config, find_slice_dim,
  determine_scatter_gather, partial_to_replicated, replicated_config, with_fuel, find_replicated,
  in_gather_shards, in_scatter_gather, sliced_config,
}
use zuku.Base.{
  ℕ, ◌≡◌, sym, ap, inl, inr, Bool, true, false, ◌&&◌, not, Option, none, some, List, leb, ◌==◌,
  if◌then◌else◌, Bool-cases, length, get_or, Result, ok, err,
}
use zuku.Shape.{
  Sharding, fully_sharded, ShardingDim, is_replicated, is_partially_replicated, same_dims,
}
use zuku.Tile.Permuted.{shardings}
use zuku.Broadcast.{BroadcastConfig}
use zuku.Shards.{GatherShardsConfig}
use zuku.ScatterGather.{ScatterGatherConfig}

-- What a configuration moves: nothing, whole shards to the same place, or in one of the other ways. A
-- processor without a part in a move to the same place does nothing.
pub data Pattern : Type 0 where
  none_at_all same_place trees slices gathers scatters : Pattern

abbrev pub pattern : ReshardConfig → Pattern
pattern unsupported = none_at_all
pattern point_to_point = same_place
pattern no_op = same_place
pattern (scatter_gather config) = slices
pattern (broadcast config) = trees
pattern (gather_shards config) = gathers
pattern (scatter_shards config) = scatters

-- Whether the replicas of the source can share the work.
abbrev pub divided : Option ℕ → List ShardingDim → Pattern
divided none dims = none_at_all
divided (some d) dims = elim (find_slice_dim dims (get_or (shardings dims) d 0) 0) [
  | none ↦ none_at_all
  | some slice_dim ↦ gathers
]

-- The pattern of two shardings, which reads no processor.
pub pattern_of : Sharding → Sharding → Pattern
unfolding fully_sharded is_replicated is_partially_replicated same_dims differences find_replicated
    find_slice_dim
pattern_of src dst =
    if fully_sharded src && is_replicated dst
    then gathers
    else if fully_sharded dst && is_replicated src
    then scatters
    else if is_replicated src && is_replicated dst
    then (if leb (size dst.devices) (size src.devices) then same_place else trees)
    else if is_partially_replicated src && is_replicated dst
    then divided (find_replicated src.dims 0) src.dims
    else if not (length src.dims == length dst.dims)
    then none_at_all
    else if size src.devices == size dst.devices && same_dims src.dims dst.dims
    then same_place
    else (if (differences src.dims dst.dims 0 0 0).0 == 1 then slices else none_at_all)

if_pattern :
    (b : Bool) (x y : Result ReshardConfig) (then_is else_is : Pattern) (config : ReshardConfig)
    → (if b then x else y) ≡ ok config
    → (x ≡ ok config → pattern config ≡ then_is)
    → (y ≡ ok config → pattern config ≡ else_is)
    → pattern config ≡ (if b then then_is else else_is)
if_pattern true x y then_is else_is config e f g = f e
if_pattern false x y then_is else_is config e f g = g e

ok-pattern : (made config : ReshardConfig) → ok made ≡ ok config → pattern config ≡ pattern made
ok-pattern made config e = let same : config ≡ made = cc (sym e) in ap pattern same

in_gather_shards-pattern :
    (r : Result GatherShardsConfig) (config : ReshardConfig)
    → in_gather_shards r ≡ ok config
    → pattern config ≡ gathers
in_gather_shards-pattern (ok g) config e = ok-pattern (gather_shards g) config e
in_gather_shards-pattern (err x) config e = cc e

in_scatter_gather-pattern :
    (r : Result ScatterGatherConfig) (config : ReshardConfig)
    → in_scatter_gather r ≡ ok config
    → pattern config ≡ slices
in_scatter_gather-pattern (ok g) config e = ok-pattern (scatter_gather g) config e
in_scatter_gather-pattern (err x) config e = cc e

broadcast-pattern :
    (r : Option BroadcastConfig) (config : ReshardConfig)
    → with_fuel (Option.map broadcast r) ≡ ok config
    → pattern config ≡ trees
broadcast-pattern none config e = cc e
broadcast-pattern (some b) config e = ok-pattern (broadcast b) config e

no_op-pattern :
    (b : Bool) (config : ReshardConfig)
    → with_fuel (if b then some no_op else some point_to_point) ≡ ok config
    → pattern config ≡ same_place
no_op-pattern true config e = ok-pattern no_op config e
no_op-pattern false config e = ok-pattern point_to_point config e

fully_replicated-pattern :
    (p : ℕ) (src dst : Sharding) (config : ReshardConfig)
    → with_fuel (fully_replicated p src dst) ≡ ok config
    → pattern config ≡ (if leb (size dst.devices) (size src.devices) then same_place else trees)
unfolding fully_replicated
fully_replicated-pattern p src dst config e =
    elim (Bool-cases (leb (size dst.devices) (size src.devices))) [
      | inl more ↦ rw more (no_op-pattern _ config (rw more at e))
      | inr less ↦ rw less (broadcast-pattern _ config (rw less at e))
    ]

divided-pattern :
    (max_dim p : ℕ) (src dst : Sharding) (d : Option ℕ) (config : ReshardConfig)
    → replicated_config max_dim p src dst d ≡ ok config
    → pattern config ≡ divided d src.dims
divided-pattern max_dim p src dst none config e = cc e
divided-pattern max_dim p src dst (some d) config e =
    go (find_slice_dim src.dims (get_or (shardings src.dims) d 0) 0) e
  where
    go :
        (found : Option ℕ)
        → sliced_config max_dim p src dst d found ≡ ok config
        → pattern config ≡ elim found [ none ↦ none_at_all | some slice_dim ↦ gathers ]
    go none e = ok-pattern unsupported config e
    go (some slice_dim) e = in_gather_shards-pattern _ config e

partial_to_replicated-pattern :
    (max_dim p : ℕ) (src dst : Sharding) (config : ReshardConfig)
    → partial_to_replicated max_dim p src dst ≡ ok config
    → pattern config ≡ divided (find_replicated src.dims 0) src.dims
unfolding partial_to_replicated
partial_to_replicated-pattern max_dim p src dst config e =
    divided-pattern max_dim p src dst (find_replicated src.dims 0) config e

determine_scatter_gather-pattern :
    (max_dim p : ℕ) (src dst : Sharding) (config : ReshardConfig)
    → determine_scatter_gather max_dim p src dst ≡ ok config
    → pattern config
      ≡ (if (differences src.dims dst.dims 0 0 0).0 == 1 then slices else none_at_all)
unfolding determine_scatter_gather
determine_scatter_gather-pattern max_dim p src dst config e =
    if_pattern ((differences src.dims dst.dims 0 0 0).0 == 1) _ _ _ _ config e
      (in_scatter_gather-pattern _ config) (ok-pattern unsupported config)

-- Whatever processor asks, a configuration is one of the pattern of the two shardings: all processors
-- follow the same pattern.
pub determine-pattern :
    (max_dim p : ℕ) (src dst : Sharding) (config : ReshardConfig)
    → determine_sharding_config max_dim p src dst ≡ ok config
    → pattern config ≡ pattern_of src dst
unfolding determine_sharding_config pattern_of
determine-pattern max_dim p src dst config e =
    if_pattern (fully_sharded src && is_replicated dst) _ _ _ _ config e
      (in_gather_shards-pattern _ config)
      λ e.
        if_pattern (fully_sharded dst && is_replicated src) _ _ _ _ config e (ok-pattern _ config)
          λ e.
            if_pattern (is_replicated src && is_replicated dst) _ _ _ _ config e
              (fully_replicated-pattern p src dst config)
              λ e.
                if_pattern (is_partially_replicated src && is_replicated dst) _ _ _ _ config e
                  (partial_to_replicated-pattern max_dim p src dst config)
                  λ e.
                    if_pattern (not (length src.dims == length dst.dims)) _ _ _ _ config e
                      (ok-pattern _ config)
                      λ e.
                        if_pattern
                          (size src.devices == size dst.devices && same_dims src.dims dst.dims) _ _
                          _ _ config e (ok-pattern _ config)
                          (determine_scatter_gather-pattern max_dim p src dst config)
