-- ===== src/Shape/Examples.antt =====
-- Tests of src/zuku/shape.h on a dimension of 12 elements, cut in 3, that is kept on 2 replicas.
use zuku.Base.{◌*◌, ◌≡◌, refl, inl, inr, List, [], ◌∷◌, arith, All}
use zuku.Shape.{
  ShardingDim, ShardedShape, num_real_dims, full_dimension_product, shard_elements,
  num_local_elements, f32, total_sharding,
}
use zuku.Shape.Counts.{IsTileable, shard_elements-local, full-total-local}

abbrev replicated : List ShardingDim
replicated =
    record { size = 12; sharding = 3; permutation = 0 }
    ∷ record { size = 1; sharding = 2; permutation = 1 }
    ∷ []

abbrev shape : ShardedShape
shape = record {
  type = f32;
  sharding = record { dims = replicated; devices = record { start = 0; num_devices = 6 } };
}

replicated-IsTileable : All IsTileable replicated
replicated-IsTileable =
    ((omega arith, omega arith, inr refl), ((omega arith, omega arith, inl refl), tt))

real_test : num_real_dims replicated ≡ 1
unfolding num_real_dims
real_test = refl

dimension_product_test :
    full_dimension_product shape ≡ total_sharding replicated * num_local_elements replicated
dimension_product_test = full-total-local shape replicated-IsTileable

shard_elements_test : shard_elements replicated ≡ num_local_elements replicated
shard_elements_test = shard_elements-local replicated replicated-IsTileable
