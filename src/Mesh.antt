-- ===== src/Mesh.antt =====
-- src/zuku/mesh.h: a contiguous range of devices. Device numbers are int64_t in the source; those
-- of a mesh are never negative, so they are natural numbers here.
pub mod Shards
mod Examples
use zuku.Base.{
  ℕ, zero, suc, ◌+◌, ◌-◌, Bool, ◌&&◌, ◌||◌, not, Option, none, some, List, [], ◌∷◌, ltb, leb, ◌==◌,
  if◌then◌else◌,
}

-- `class DeviceList`
pub record DeviceList : Type 0 where
  pub start : ℕ
  pub num_devices : ℕ

abbrev pub stop : DeviceList → ℕ
stop l = l.start + l.num_devices

abbrev pub size : DeviceList → ℕ
size l = l.num_devices

-- `operator[]`
unfoldable pub device_at : DeviceList → ℕ → ℕ
device_at l idx = l.start + idx

unfoldable pub contains : DeviceList → ℕ → Bool
contains l device_id = leb l.start device_id && ltb device_id (stop l)

-- `Contains(const DeviceList&)`
unfoldable pub contains_list : DeviceList → DeviceList → Bool
contains_list l other = leb l.start other.start && leb (stop other) (stop l)

unfoldable pub slice : DeviceList → ℕ → ℕ → DeviceList
slice l offset num_devices = record { start = l.start + offset; num_devices = num_devices }

-- `operator==`
unfoldable pub same_devices : DeviceList → DeviceList → Bool
same_devices l other = l.start == other.start && l.num_devices == other.num_devices

-- `operator!=`
unfoldable pub differ : DeviceList → DeviceList → Bool
differ l other = not (l.start == other.start) || not (l.num_devices == other.num_devices)

-- The subtraction runs only where the list contains the device, so it does not go below 0.
unfoldable pub shard_id : DeviceList → ℕ → Option ℕ
unfolding contains
shard_id l device_id = if contains l device_id then some (device_id - l.start) else none

unfoldable pub empty : DeviceList → Bool
empty l = l.num_devices == 0

-- `std::iota` over a vector of `n` places
iota : ℕ → ℕ → List ℕ
iota zero value = []
iota (suc n) value = value ∷ iota n (value + 1)

unfoldable pub vector : DeviceList → List ℕ
unfolding iota
vector l = iota l.num_devices l.start
