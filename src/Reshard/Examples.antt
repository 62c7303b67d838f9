-- ===== src/Reshard/Examples.antt =====
-- Tests of src/zuku/reshard.cc: a scalar on the devices 0 to 3 that moves to the devices 2 and 3.
use zuku.Base.{ℕ, ◌≡◌, refl, some, [], ◌∷◌, arith, if◌then◌else◌, ok}
use zuku.Shape.{Sharding}
use zuku.Mesh.{device_at, contains}
use zuku.Reshard.{
  fully_replicated, point_to_point, no_op, determine_sharding_config, scatter_shards,
}
use zuku.Reshard.Pairs.{paired}
use zuku.Reshard.Pattern.{pattern, pattern_of, determine-pattern}
use zuku.Shards.{get_scatter_shards_config}

abbrev on : ℕ → ℕ → Sharding
on start n = record { dims = []; devices = record { start = start; num_devices = n } }

paired_example :
    (fully_replicated 1 (on 0 4) (on 2 2) ≡ some point_to_point)
    × (fully_replicated 3 (on 0 4) (on 2 2) ≡ some point_to_point)
    × (fully_replicated 3 (on 0 4) (on 2 2) ≡ (
        if contains (record { start = 2; num_devices = 2 }) 3
        then some point_to_point
        else some no_op))
unfolding device_at
paired_example = paired (on 0 4) (on 2 2) 1 3 (omega arith) (omega arith) (omega arith)

-- A vector on the devices 0 and 1 that is replicated on 1 to 3.
abbrev halves : Sharding
halves = record {
  dims = record { size = 8; sharding = 2; permutation = 0 } ∷ [];
  devices = record { start = 0; num_devices = 2 };
}

abbrev whole : Sharding
whole = record {
  dims = record { size = 8; sharding = 1; permutation = 0 } ∷ [];
  devices = record { start = 1; num_devices = 3 };
}

scatters_test :
    determine_sharding_config 3 1 whole halves
    ≡ ok (scatter_shards (get_scatter_shards_config 1 whole halves))
unfolding determine_sharding_config
scatters_test = refl

determine-pattern_example :
    pattern (scatter_shards (get_scatter_shards_config 1 whole halves)) ≡ pattern_of whole halves
determine-pattern_example = determine-pattern 3 1 whole halves _ scatters_test
