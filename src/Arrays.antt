-- ===== src/Arrays.antt =====
-- src/zuku/tiled_array.cc and tiled_array.h: the ids of sharded arrays and ShardedArray::Create. The
-- counts of allocations, which only the message of a failure reads, are left out, as are names, and the
-- memory, which only Realm reads.
pub mod Ids
pub mod Sizes
mod Examples
use zuku.Base.{
  ℕ, ◌+◌, ◌*◌, ◌/◌, Bool, ◌&&◌, Option, none, some, List, [], ◌∷◌, leb, ◌==◌, if◌then◌else◌, Error,
  Result, wrong_sharding, ok, err,
}
use zuku.TileCache.{create_tile, TileCache, Attempt, ArrayTile, Deletion}
use zuku.Shape.{ShardedShape, ShardingDim}
use zuku.Store.{Events}
use zuku.Mesh.{size, same_devices, DeviceList, shard_id}
use zuku.Tile.{compute_tile_bounds, RealmShape}

pub record Processor : Type 0 where
  pub type : ℕ
  pub local_id : ℕ
  pub global_id : ℕ

pub record GlobalIdKey : Type 0 where
  pub devices : DeviceList
  pub local_proc_id : ℕ
  pub proc_type : ℕ

-- `operator==` on `GlobalIdKey`
unfoldable pub same_global_id_key : GlobalIdKey → GlobalIdKey → Bool
unfolding same_devices
same_global_id_key lhs rhs =
    same_devices rhs.devices lhs.devices
    && lhs.local_proc_id == rhs.local_proc_id
    && rhs.proc_type == lhs.proc_type

-- `next_ids`
abbrev pub NextIds : Type 0
NextIds = List (GlobalIdKey × ℕ)

unfoldable pub next_id : GlobalIdKey → NextIds → ℕ
unfolding same_global_id_key
next_id key [] = 0
next_id key ((k, n) ∷ ids) = if same_global_id_key key k then n else next_id key ids

unfoldable pub count_up : GlobalIdKey → NextIds → NextIds
unfolding same_global_id_key
count_up key [] = (key, 1) ∷ []
count_up key ((k, n) ∷ ids) =
    if same_global_id_key key k then (k, n + 1) ∷ ids else (k, n) ∷ count_up key ids

abbrev pub key_of : Processor → DeviceList → GlobalIdKey
key_of p devices = record { devices = devices; local_proc_id = p.local_id; proc_type = p.type }

-- `AllocateNextGlobalId`
unfoldable pub allocate_next_global_id : Processor → DeviceList → Option ℕ → NextIds → ℕ × NextIds
unfolding next_id count_up
allocate_next_global_id p devices (some assigned_id) ids = (assigned_id, ids)
allocate_next_global_id p devices none ids =
    (next_id (key_of p devices) ids, count_up (key_of p devices) ids)

pub record Ctor : Type 0 where
  pub assigned_id : Option ℕ
  pub shard_id : Option ℕ
  pub processor : Processor

-- An array, with the event after which its tile can be used.
pub record ShardedArray (E : Type 0) : Type 0 where
  pub mesh_unique_id : ℕ
  pub shape : ShardedShape
  pub shard_id : Option ℕ
  pub tile : Option (E × ArrayTile)

-- What ShardedArray::Create leaves.
pub record NewArray (E : Type 0) : Type 0 where
  pub cache : TileCache E
  pub ids : NextIds
  pub deleted : List (Deletion E)
  pub array : Result (ShardedArray E)

pub all_shards : ℕ → List ShardingDim → ℕ
all_shards total [] = total
all_shards total (dim ∷ dims) = all_shards (total * dim.sharding) dims

pub tiled_dims : List ShardingDim → List ℕ
tiled_dims [] = []
tiled_dims (dim ∷ dims) =
    let rest = tiled_dims dims in
    if leb dim.sharding dim.size then dim.size / dim.sharding ∷ rest else rest

-- the constructor of `ShardedArray`
abbrev pub construct :
    {E : Type 0}
    → ShardedShape
    → Ctor
    → Option ℕ
    → Option (E × ArrayTile)
    → NextIds
    → ShardedArray E × NextIds
construct shape ctor shard tile ids =
    let given =
      allocate_next_global_id ctor.processor shape.sharding.devices ctor.assigned_id ids in
    (record { mesh_unique_id = given.0; shape = shape; shard_id = shard; tile = tile }, given.1)

abbrev pub nothing_made : {E : Type 0} → TileCache E → NextIds → Error → NewArray E
nothing_made cache ids error = record { cache = cache; ids = ids; deleted = []; array = err error }

-- the array around the tile that was created
abbrev pub with_tile :
    {E : Type 0}
    → ShardedShape
    → Ctor
    → ℕ
    → NextIds
    → TileCache E
    → List (Deletion E)
    → Result (E × ArrayTile)
    → NewArray E
with_tile shape ctor shard ids cache deleted (err error) = record {
  cache = cache;
  ids = ids;
  deleted = deleted;
  array = err error;
}
with_tile shape ctor shard ids cache deleted (ok tile) =
    let made = construct shape ctor (some shard) (some tile) ids in
    record { cache = cache; ids = made.1; deleted = deleted; array = ok made.0 }

module _ {E : Type 0} (es : Events E) (cached : Bool) (max_dim : ℕ) where
  abbrev pub create_bounded :
      ShardedShape
      → Ctor
      → (List (Deletion E) → Attempt E)
      → ℕ
      → TileCache E
      → NextIds
      → Result RealmShape
      → NewArray E
  create_bounded shape ctor answer shard cache ids (err error) = nothing_made cache ids error
  create_bounded shape ctor answer shard cache ids (ok bounds) =
      let made =
        create_tile es cached
          (record { type = shape.type; dims = tiled_dims shape.sharding.dims; bounds = bounds })
          answer cache in
      with_tile shape ctor shard ids made.cache made.deleted made.tile

  abbrev pub create_local :
      ShardedShape
      → Ctor
      → (List (Deletion E) → Attempt E)
      → TileCache E
      → NextIds
      → Option ℕ
      → NewArray E
  create_local shape ctor answer cache ids none =
      let made = construct shape ctor none none ids in
      record { cache = cache; ids = made.1; deleted = []; array = ok made.0 }
  create_local shape ctor answer cache ids (some shard) =
      create_bounded shape ctor answer shard cache ids
        (compute_tile_bounds max_dim shard shape.sharding.dims)

  -- The shard of the constructor's arguments, or that of the processor in the array's devices.
  abbrev pub local_shard : ShardedShape → Ctor → Option ℕ → Option ℕ
  local_shard shape ctor (some shard) = some shard
  local_shard shape ctor none = shard_id shape.sharding.devices ctor.processor.global_id

  -- `ShardedArray::Create`
  unfoldable pub create_array :
      ShardedShape → Ctor → (List (Deletion E) → Attempt E) → TileCache E → NextIds → NewArray E
  unfolding all_shards tiled_dims create_tile compute_tile_bounds shard_id allocate_next_global_id
  create_array shape ctor answer cache ids =
      if all_shards 1 shape.sharding.dims == size shape.sharding.devices
      then create_local shape ctor answer cache ids (local_shard shape ctor ctor.shard_id)
      else nothing_made cache ids wrong_sharding
