-- ===== src/Tile/Examples.antt =====
-- Tests of src/zuku/tiled_array.cc on two dimensions that swap places.
use zuku.Base.{
  ℕ, zero, suc, ◌≤◌, ◌<◌, ◌≡◌, refl, ◌↔◌, inr, true, List, [], ◌∷◌, arith, length, get_or, All,
  ◌>>=◌, unwritten, ok, err,
}
use zuku.Tile.{
  compute_tile_shard, compute_tile_index, compute_tile_bounds_n, compute_tile_bounds,
  compute_realm_shape_size, RealmShape, supported_rank,
}
use zuku.Tile.Permuted.{IsPermuted}
use zuku.Tile.Bounds.{InArray, Inside, tile_of, SameTile}
use zuku.Tile.RoundTrip.{tile_number, compute_tile_index_inverse}
use zuku.Shape.{ShardingDim, num_real_dims, num_local_elements, shard_elements}
use zuku.Shape.Counts.{IsTileable}
use zuku.Tile.Shards.{swapped, shard-index-swapped, compute_tile_shard_inverse}
use zuku.Tile.Partition.{covered, Inside-iff, disjoint, tile-elements}
use zuku.Tile.Written.{replicas}

abbrev rows : ShardingDim
rows = record { size = 8; sharding = 2; permutation = 1 }

abbrev columns : ShardingDim
columns = record { size = 6; sharding = 3; permutation = 0 }

abbrev matrix : List ShardingDim
matrix = rows ∷ columns ∷ []

-- the same dimensions, in order
abbrev plain : List ShardingDim
plain =
    record { size = 8; sharding = 2; permutation = 0 }
    ∷ record { size = 6; sharding = 3; permutation = 1 }
    ∷ []

abbrev flip : ℕ → ℕ
flip zero = 1
flip (suc p) = 0

flip_lt : (p : ℕ) → flip p < 2
flip_lt zero = omega arith
flip_lt (suc p) = omega arith

place_lt : (j : ℕ) → j < 2 → get_or (1 ∷ 0 ∷ []) j 0 < 2
place_lt zero h = omega arith
place_lt (suc zero) h = omega arith
place_lt (suc (suc j)) h = absurd (omega arith)

flip_back : (j : ℕ) → j < 2 → flip (get_or (1 ∷ 0 ∷ []) j 0) ≡ j
flip_back zero h = refl
flip_back (suc zero) h = refl
flip_back (suc (suc j)) h = absurd (omega arith)

flip_forth : (p : ℕ) → p < 2 → get_or (1 ∷ 0 ∷ []) (flip p) 0 ≡ p
flip_forth zero h = refl
flip_forth (suc zero) h = refl
flip_forth (suc (suc p)) h = absurd (omega arith)

abbrev matrix-IsPermuted : IsPermuted matrix flip
matrix-IsPermuted = record {
  to_place = place_lt;
  to_dim = λ p h. flip_lt p;
  back = flip_back;
  forth = flip_forth;
}

matrix-IsTileable : All IsTileable matrix
matrix-IsTileable =
    ((omega arith, omega arith, inr refl), ((omega arith, omega arith, inr refl), tt))

abbrev point : List ℕ
point = 5 ∷ 3 ∷ []

point_in : InArray point matrix
point_in = (omega arith, (omega arith, refl))

index_test : compute_tile_index 3 matrix ≡ 1 ∷ 1 ∷ []
unfolding compute_tile_index
index_test = refl

bounds_test :
    compute_tile_bounds 4 3 matrix
    ≡ ok
        (record { rank = 2; ranges = record { lo = 4; end = 8 } ∷ record { lo = 2; end = 4 } ∷ [] })
unfolding compute_tile_bounds
bounds_test = refl

Inside-3 : Inside point (compute_tile_bounds_n (num_real_dims matrix) 3 matrix).ranges
unfolding compute_tile_bounds_n
Inside-3 = ((omega arith, omega arith), ((omega arith, omega arith), tt))

no_replicas : replicas matrix ≤ 1
unfolding replicas
no_replicas = omega arith

Inside-iff_example :
    (length (compute_tile_bounds_n (num_real_dims matrix) 3 matrix).ranges ≡ num_real_dims matrix)
    × (Inside point (compute_tile_bounds_n (num_real_dims matrix) 3 matrix).ranges
        ↔ SameTile matrix (compute_tile_index 3 matrix) (tile_of point matrix))
Inside-iff_example =
    Inside-iff matrix flip matrix-IsPermuted matrix-IsTileable refl point 3 no_replicas point_in

covered_example :
    (tile_number matrix flip (tile_of point matrix) < 6)
    × (length
          (compute_tile_bounds_n
            (num_real_dims matrix)
            (tile_number matrix flip (tile_of point matrix))
            matrix).ranges
        ≡ num_real_dims matrix)
    × Inside point
        (compute_tile_bounds_n
          (num_real_dims matrix)
          (tile_number matrix flip (tile_of point matrix))
          matrix).ranges
covered_example =
    covered matrix flip matrix-IsPermuted matrix-IsTileable refl point no_replicas point_in

disjoint_example : tile_number matrix flip (tile_of point matrix) ≡ 3
disjoint_example =
    disjoint matrix flip matrix-IsPermuted matrix-IsTileable refl point
      (tile_number matrix flip (tile_of point matrix)) 3 (refl, (refl, tt)) covered_number
      (omega arith) point_in covered_rect Inside-3
  where
    covered_number : tile_number matrix flip (tile_of point matrix) < 6
    covered_number =
        (covered matrix flip matrix-IsPermuted matrix-IsTileable refl point no_replicas point_in).0

    covered_rect :
        Inside point
          (compute_tile_bounds_n
            (num_real_dims matrix)
            (tile_number matrix flip (tile_of point matrix))
            matrix).ranges
    covered_rect =
        (covered matrix flip matrix-IsPermuted matrix-IsTileable refl point no_replicas point_in).2

supported_matrix : supported_rank 4 (num_real_dims matrix) ≡ true
unfolding num_real_dims
supported_matrix = refl

tile-elements_example :
    (shape : RealmShape) × (compute_tile_bounds 4 3 matrix ≡ ok shape)
    × (compute_realm_shape_size shape ≡ ok (num_local_elements matrix))
    × (compute_realm_shape_size shape ≡ ok (shard_elements matrix))
tile-elements_example =
    tile-elements matrix flip 4 3 matrix-IsPermuted matrix-IsTileable no_replicas supported_matrix

-- With two replica dimensions a rectangle of two dimensions has one of them written.
abbrev replicated_twice : List ShardingDim
replicated_twice =
    record { size = 8; sharding = 2; permutation = 0 }
    ∷ record { size = 1; sharding = 2; permutation = 1 }
    ∷ record { size = 1; sharding = 2; permutation = 2 }
    ∷ []

unwritten_test :
    (compute_tile_bounds 4 0 replicated_twice >>= compute_realm_shape_size) ≡ err unwritten
unfolding compute_tile_bounds compute_realm_shape_size
unwritten_test = refl

index_in : (j : ℕ) → j < 2 → get_or (1 ∷ 2 ∷ []) j 0 < get_or (2 ∷ 3 ∷ []) j 0
index_in zero h = omega arith
index_in (suc zero) h = omega arith
index_in (suc (suc j)) h = absurd (omega arith)

compute_tile_index_inverse_example :
    (tile_number matrix flip (compute_tile_index 4 matrix) ≡ 4)
    × (compute_tile_index (tile_number matrix flip (1 ∷ 2 ∷ [])) matrix ≡ 1 ∷ 2 ∷ [])
compute_tile_index_inverse_example =
    compute_tile_index_inverse matrix flip matrix-IsPermuted 4 (1 ∷ 2 ∷ []) (omega arith)
      (record { full = refl; below = index_in })

compute_tile_shard_inverse_example :
    (compute_tile_shard (compute_tile_index 4 plain) plain ≡ 4)
    × (compute_tile_index (compute_tile_shard (1 ∷ 2 ∷ []) plain) plain ≡ 1 ∷ 2 ∷ [])
    × (compute_tile_shard (1 ∷ 2 ∷ []) plain < 6)
compute_tile_shard_inverse_example =
    compute_tile_shard_inverse plain (refl, (refl, tt)) 4 (1 ∷ 2 ∷ []) (omega arith)
      (record { full = refl; below = index_in })

shard-index-swapped_example :
    (compute_tile_index 1 (swapped 2 3 8 6) ≡ 1 ∷ 0 ∷ [])
    × (compute_tile_shard (compute_tile_index 1 (swapped 2 3 8 6)) (swapped 2 3 8 6) ≡ 3)
shard-index-swapped_example = shard-index-swapped 2 3 8 6 (omega arith) (omega arith)
