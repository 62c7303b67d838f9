-- ===== src/ScatterGather/Examples.antt =====
-- Tests of src/zuku/reshard_scatter_gather.cc: a matrix cut in 4 and in 2 along its rows.
use zuku.Base.{
  ℕ, zero, suc, ◌+◌, ◌<◌, ◌≡◌, refl, ◌≢◌, inl, inr, none, some, [], ◌∷◌, arith, get_or, ok,
}
use zuku.ScatterGather.{SliceConfig, box_dims, get_scatter_gather_config, ScatterGatherConfig}
use zuku.Tile.{RealmShape}
use zuku.Shape.{Sharding}
use zuku.ScatterGather.Slices.{IsFiner, IsSupported}
use zuku.ScatterGather.Exchange.{
  gather_sent, gather_received, scatter_sent, scatter_received, Received, Sent,
}
use zuku.Tile.Permuted.{shardings}

abbrev fine : Sharding
fine = record {
  dims =
      record { size = 8; sharding = 4; permutation = 0 }
      ∷ record { size = 4; sharding = 2; permutation = 1 }
      ∷ [];
  devices = record { start = 0; num_devices = 8 };
}

abbrev coarse : Sharding
coarse = record {
  dims =
      record { size = 8; sharding = 2; permutation = 0 }
      ∷ record { size = 4; sharding = 2; permutation = 1 }
      ∷ [];
  devices = record { start = 0; num_devices = 4 };
}

same_columns :
    (j : ℕ) → j ≢ 0 → get_or (shardings fine.dims) j 0 ≡ get_or (shardings coarse.dims) j 0
same_columns zero ne = absurd (ne refl)
same_columns (suc j) ne = refl

fine-IsFiner : IsFiner coarse fine 0 2
fine-IsFiner = record {
  coarse_order = (refl, (refl, tt));
  fine_order = (refl, (refl, tt));
  same_dims = refl;
  dim_in = omega arith;
  positive = omega arith;
  cut = refl;
  others = same_columns;
}

fine-IsSupported : IsSupported 4 fine
unfolding box_dims
fine-IsSupported = refl

-- two rows from `lo` on, of the last two columns
abbrev box : ℕ → RealmShape
box lo = record {
  rank = 2;
  ranges = record { lo = lo; end = lo + 2 } ∷ record { lo = 2; end = 4 } ∷ [];
}

abbrev slice_of : ℕ → ℕ → ℕ → SliceConfig
slice_of src dst lo = record { src_shard = src; dst_shard = dst; bounds = box lo }

abbrev one_sent : ScatterGatherConfig
one_sent = record { from_source = slice_of 3 1 2 ∷ []; to_target = [] }

abbrev two_received : ScatterGatherConfig
two_received = record { from_source = []; to_target = slice_of 1 1 0 ∷ slice_of 3 1 2 ∷ [] }

abbrev two_sent : ScatterGatherConfig
two_sent = record { from_source = slice_of 1 1 0 ∷ slice_of 1 3 2 ∷ []; to_target = [] }

abbrev one_received : ScatterGatherConfig
one_received = record { from_source = []; to_target = slice_of 1 3 2 ∷ [] }

one_sent_test : get_scatter_gather_config 4 0 (some 3) none fine coarse ≡ ok one_sent
unfolding get_scatter_gather_config
one_sent_test = refl

two_received_test : get_scatter_gather_config 4 0 none (some 1) fine coarse ≡ ok two_received
unfolding get_scatter_gather_config
two_received_test = refl

two_sent_test : get_scatter_gather_config 4 0 (some 1) none coarse fine ≡ ok two_sent
unfolding get_scatter_gather_config
two_sent_test = refl

one_received_test : get_scatter_gather_config 4 0 none (some 3) coarse fine ≡ ok one_received
unfolding get_scatter_gather_config
one_received_test = refl

gather_sent_example :
    ((slice_of 3 1 2).src_shard ≡ 3) × (1 < 4) × Received 4 0 fine coarse 1 (slice_of 3 1 2)
gather_sent_example =
    gather_sent 4 coarse fine 0 2 fine-IsFiner fine-IsSupported (omega arith) (omega arith) 3 none
      one_sent (slice_of 3 1 2) (omega arith) one_sent_test (inl refl)

gather_received_example :
    ((slice_of 3 1 2).dst_shard ≡ 1) × (3 < 8) × Sent 4 0 fine coarse 3 (slice_of 3 1 2)
gather_received_example =
    gather_received 4 coarse fine 0 2 fine-IsFiner fine-IsSupported (omega arith) (omega arith) 1
      none two_received (slice_of 3 1 2) (omega arith) two_received_test (inr (inl refl))

scatter_sent_example :
    ((slice_of 1 3 2).src_shard ≡ 1) × (3 < 8) × Received 4 0 coarse fine 3 (slice_of 1 3 2)
scatter_sent_example =
    scatter_sent 4 coarse fine 0 2 fine-IsFiner fine-IsSupported (omega arith) (omega arith) 1 none
      two_sent (slice_of 1 3 2) (omega arith) two_sent_test (inr (inl refl))

scatter_received_example :
    ((slice_of 1 3 2).dst_shard ≡ 3) × (1 < 4) × Sent 4 0 coarse fine 1 (slice_of 1 3 2)
scatter_received_example =
    scatter_received 4 coarse fine 0 2 fine-IsFiner fine-IsSupported (omega arith) (omega arith) 3
      none one_received (slice_of 1 3 2) (omega arith) one_received_test (inl refl)
