-- ===== src/Mesh/Examples.antt =====
-- Tests of src/zuku/mesh.h on the devices 4 to 9.
use zuku.Base.{◌<◌, ◌≡◌, refl, ◌↔◌, true, none, some, arith, get_or}
use zuku.Mesh.{contains_list, vector, shard_id, DeviceList, slice, device_at}
use zuku.Mesh.Shards.{shard_id_iff, slice-contained}

abbrev six : DeviceList
six = record { start = 4; num_devices = 6 }

shard_id_test : shard_id six 3 ≡ none
unfolding shard_id
shard_id_test = refl

shard_id_iff_example : (shard_id six 7 ≡ some 3) ↔ ((3 < 6) × (device_at six 3 ≡ 7))
shard_id_iff_example = shard_id_iff six 7 3

slice_test :
    (contains_list six (slice six 2 3) ≡ true) × (device_at (slice six 2 3) 1 ≡ device_at six 3)
slice_test = slice-contained six 2 3 1 (omega arith)

vector_test : get_or (vector six) 2 0 ≡ 6
unfolding vector
vector_test = refl
