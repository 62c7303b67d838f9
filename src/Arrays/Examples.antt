-- ===== src/Arrays/Examples.antt =====
-- Tests of ShardedArray::Create in src/zuku/tiled_array.cc: 8 elements on the devices 0 and 1.
use zuku.Base.{ℕ, max, ◌≡◌, refl, inr, true, none, some, List, [], ◌∷◌, arith, All, ok}
use zuku.Shape.{f32, ShardedShape, num_local_elements}
use zuku.Arrays.{
  Processor, Ctor, ShardedArray, create_array, allocate_next_global_id, same_global_id_key, key_of,
}
use zuku.Shape.Counts.{IsTileable}
use zuku.Arrays.Ids.{drawn, IdCall, allocate_all, allocate-drawn}
use zuku.TileCache.{num_elements, ArrayTile, Attempt, int32, Deletion}
use zuku.Store.{Events}
use zuku.Mesh.{DeviceList}
use zuku.TileCache.Create.{changes}
use zuku.Arrays.Sizes.{create_array-elements}

abbrev times : Events ℕ
times = record { no_event = 0; merge = max }

abbrev granted : Attempt ℕ
granted = record { ready = 6; instance_id = some 9; success = true }

abbrev always_granted : List (Deletion ℕ) → Attempt ℕ
always_granted deleted = granted

abbrev pair : DeviceList
pair = record { start = 0; num_devices = 2 }

abbrev cpu : Processor
cpu = record { type = 1; local_id = 1; global_id = 1 }

abbrev vector_shape : ShardedShape
vector_shape = record {
  type = f32;
  sharding = record {
    dims = record { size = 8; sharding = 2; permutation = 0 } ∷ [];
    devices = pair;
  };
}

abbrev arguments : Ctor
arguments = record { assigned_id = none; shard_id = none; processor = cpu }

abbrev made_tile : ArrayTile
made_tile = record {
  instance_id = some 9;
  shape = record {
    type = f32;
    dims = 4 ∷ [];
    bounds = record { rank = 1; ranges = record { lo = 4; end = 8 } ∷ [] };
  };
  type = int32;
}

abbrev made_array : ShardedArray ℕ
made_array = record {
  mesh_unique_id = 0;
  shape = vector_shape;
  shard_id = some 1;
  tile = some (6, made_tile);
}

created :
    (create_array times true 3 vector_shape arguments always_granted
      (changes times true [] [])
      []).array
    ≡ ok made_array
unfolding create_array changes
created = refl

vector-IsTileable : All IsTileable vector_shape.sharding.dims
vector-IsTileable = ((omega arith, omega arith, inr refl), tt)

create_array-elements_example :
    num_elements made_tile ≡ num_local_elements vector_shape.sharding.dims
create_array-elements_example =
    create_array-elements times true 3 [] vector_shape arguments always_granted [] made_array
      (6, made_tile) vector-IsTileable created refl

abbrev calls : List IdCall
calls =
    record { processor = cpu; devices = pair; assigned_id = none }
    ∷ record { processor = cpu; devices = pair; assigned_id = some 7 }
    ∷ record {
      processor = cpu;
      devices = record { start = 1; num_devices = 2 };
      assigned_id = none;
    }
    ∷ []

allocate-drawn_example :
    (allocate_next_global_id cpu pair none (allocate_all calls [])).0
    ≡ drawn (key_of cpu pair) calls
allocate-drawn_example = allocate-drawn calls cpu pair

drawn_test : drawn (key_of cpu pair) calls ≡ 1
unfolding drawn same_global_id_key
drawn_test = refl
