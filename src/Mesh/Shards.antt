-- ===== src/Mesh/Shards.antt =====
-- Devices and the shard numbers that a device list gives them.
use zuku.Base.{ℕ, zero, suc, ◌+◌, ◌≤◌, ◌<◌, ◌≡◌, refl, ap, ◌↔◌, true, some, arith, length, get_or}
use zuku.Mesh.{
  DeviceList, size, stop, device_at, contains, contains_list, slice, shard_id, vector, iota,
}

-- A device has shard number `s` exactly when `s` is in range and the device stands at place `s`.
pub shard_id_iff :
    (l : DeviceList) (device_id s : ℕ)
    → (shard_id l device_id ≡ some s) ↔ ((s < size l) × (device_at l s ≡ device_id))
unfolding shard_id device_at
shard_id_iff l device_id s = ground arith

-- A device has a shard number exactly when the list contains it.
pub contains-iff-shard :
    (l : DeviceList) (d : ℕ) → (contains l d ≡ true) ↔ ((l.start ≤ d) × (d < stop l))
unfolding contains
contains-iff-shard l d = ground arith

-- A slice that ends inside the list is contained in it, and its devices are those of the list
-- from the offset on.
pub slice-contained :
    (l : DeviceList) (offset n i : ℕ)
    → offset + n ≤ size l
    → (contains_list l (slice l offset n) ≡ true)
      × (device_at (slice l offset n) i ≡ device_at l (offset + i))
unfolding slice contains_list device_at
slice-contained l offset n i h = (ground arith, omega arith)

length-iota : (n v : ℕ) → length (iota n v) ≡ n
unfolding iota
length-iota zero v = refl
length-iota (suc n) v = ap suc (length-iota n (v + 1))

get_or-iota : (n v i d : ℕ) → i < n → get_or (iota n v) i d ≡ v + i
unfolding iota
get_or-iota zero v i d h = absurd (omega arith)
get_or-iota (suc n) v zero d h = omega arith
get_or-iota (suc n) v (suc i) d h = omega (arith, get_or-iota n (v + 1) i d)

-- The materialised vector has one entry for each device, the device of its place.
vector-devices :
    (l : DeviceList) (i d : ℕ)
    → i < size l
    → (length (vector l) ≡ size l) × (get_or (vector l) i d ≡ device_at l i)
unfolding vector device_at
vector-devices l i d h = (length-iota _ _, get_or-iota _ _ i d h)
