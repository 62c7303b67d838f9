-- ===== src/TileCache.antt =====
-- src/zuku/tiled_array.cc and tiled_array.h: tiles, their creation, and the cache of free tiles of one
-- processor. `cached` says whether ZUKU_USE_TILE_CACHE is defined. What Realm answers to a request for
-- an instance is an argument.
pub mod Fifo
pub mod Create
mod Examples
use zuku.Base.{
  ℕ, ◌*◌, Bool, true, false, ◌&&◌, Option, none, some, List, [], ◌∷◌, ◌++◌, ◌==◌, if◌then◌else◌,
  Result, unsupported_type, allocation_failure, ok, err,
}
use zuku.Queues.{Queues, find_queue, put_queue}
use zuku.Store.{Events}
use zuku.Shape.{
  pred, f16, bf16, f32, f64, s8, s16, s32, s64, u8, u16, u32, u64, c64, c128,
  supported_type_size_of, SupportedType,
}
use zuku.Tile.{RealmShape}

pub record TileShape : Type 0 where
  pub type : SupportedType
  pub dims : List ℕ
  pub bounds : RealmShape

-- the value of an enumerator
abbrev pub type_value : SupportedType → ℕ
type_value pred = 0
type_value f16 = 1
type_value bf16 = 2
type_value f32 = 3
type_value f64 = 4
type_value s8 = 5
type_value s16 = 6
type_value s32 = 7
type_value s64 = 8
type_value u8 = 9
type_value u16 = 10
type_value u32 = 11
type_value u64 = 12
type_value c64 = 13
type_value c128 = 14

pub same_dim_sizes : List ℕ → List ℕ → Bool
same_dim_sizes [] [] = true
same_dim_sizes [] (y ∷ ys) = false
same_dim_sizes (x ∷ xs) [] = false
same_dim_sizes (x ∷ xs) (y ∷ ys) = x == y && same_dim_sizes xs ys

-- `operator==` on `TileShape`, which does not read the bounds
unfoldable pub same_tile_shape : TileShape → TileShape → Bool
unfolding same_dim_sizes
same_tile_shape lhs rhs =
    type_value lhs.type == type_value rhs.type && same_dim_sizes lhs.dims rhs.dims

pub data RealmType : Type 0 where
  int8 int16 int32 int64 : RealmType

abbrev pub realm_type_size : RealmType → ℕ
realm_type_size int8 = 1
realm_type_size int16 = 2
realm_type_size int32 = 4
realm_type_size int64 = 8

-- `ToRealmTypeVariant`
unfoldable pub to_realm_type : SupportedType → Result RealmType
to_realm_type pred = ok int8
to_realm_type s8 = ok int8
to_realm_type u8 = ok int8
to_realm_type f16 = ok int16
to_realm_type bf16 = ok int16
to_realm_type s16 = ok int16
to_realm_type u16 = ok int16
to_realm_type f32 = ok int32
to_realm_type s32 = ok int32
to_realm_type u32 = ok int32
to_realm_type f64 = ok int64
to_realm_type s64 = ok int64
to_realm_type u64 = ok int64
to_realm_type c64 = ok int64
to_realm_type c128 = err unsupported_type

pub record ArrayTile : Type 0 where
  pub instance_id : Option ℕ
  pub shape : TileShape
  pub type : RealmType

unfoldable pub elements_of : ℕ → List ℕ → ℕ
elements_of count [] = count
elements_of count (dim ∷ dims) = elements_of (count * dim) dims

unfoldable pub num_elements : ArrayTile → ℕ
unfolding elements_of
num_elements tile = elements_of 1 tile.shape.dims

unfoldable pub byte_size : ArrayTile → ℕ
unfolding num_elements supported_type_size_of
byte_size tile = num_elements tile * supported_type_size_of tile.shape.type

-- An instance that is to be destroyed after an event.
pub record Deletion (E : Type 0) : Type 0 where
  pub instance_id : ℕ
  pub after : E

abbrev pub delete_instance : {E : Type 0} → Option ℕ → E → List (Deletion E)
delete_instance none after = []
delete_instance (some id) after = record { instance_id = id; after = after } ∷ []

-- `DeferredDeleteInstances`
abbrev pub deferred_delete : {E : Type 0} → ArrayTile → E → List (Deletion E)
deferred_delete tile after = delete_instance tile.instance_id after

-- the cache of a processor: per shape the free tiles, each with the event after which it is free
abbrev pub TileCache : Type 0 → Type 0
TileCache E = Queues TileShape (E × ArrayTile)

abbrev pub pop_tile :
    {E : Type 0}
    → TileShape
    → TileCache E
    → List (E × ArrayTile)
    → Option (E × ArrayTile) × TileCache E
pop_tile shape cache [] = (none, cache)
pop_tile shape cache (front ∷ rest) = (some front, put_queue same_tile_shape shape rest cache)

unfoldable pub get_tile :
    {E : Type 0} → Bool → TileShape → TileCache E → Option (E × ArrayTile) × TileCache E
unfolding find_queue put_queue same_tile_shape
get_tile false shape cache = (none, cache)
get_tile true shape cache = pop_tile shape cache (find_queue same_tile_shape shape cache)

unfoldable pub free_tile :
    {E : Type 0} → Bool → ArrayTile → E → TileCache E → TileCache E × List (Deletion E)
unfolding find_queue put_queue same_tile_shape
free_tile false tile free cache = (cache, deferred_delete tile free)
free_tile true tile free cache = (
  put_queue same_tile_shape tile.shape
      (find_queue same_tile_shape tile.shape cache ++ ((free, tile) ∷ [])) cache,
  [],
)

pub delete_all : {E : Type 0} → List (E × ArrayTile) → List (Deletion E)
delete_all [] = []
delete_all ((free, tile) ∷ tiles) = deferred_delete tile free ++ delete_all tiles

pub delete_queues : {E : Type 0} → TileCache E → List (Deletion E)
unfolding delete_all
delete_queues [] = []
delete_queues ((shape, tiles) ∷ cache) = delete_all tiles ++ delete_queues cache

unfoldable pub clear_tiles : {E : Type 0} → Bool → TileCache E → TileCache E × List (Deletion E)
unfolding delete_queues
clear_tiles false cache = (cache, [])
clear_tiles true cache = ([], delete_queues cache)

-- What Realm answers to a request for an instance.
pub record Attempt (E : Type 0) : Type 0 where
  pub ready : E
  pub instance_id : Option ℕ
  pub success : Bool

-- `TryAllocation`: a rectangle without dimensions needs no instance
abbrev pub try_allocation : {E : Type 0} → Events E → RealmShape → Attempt E → Attempt E
try_allocation es shape attempt =
    if shape.rank == 0
    then record { ready = es.no_event; instance_id = none; success = true }
    else attempt

-- The cache after the creation of a tile, what was deleted, and the tile with the event after which it
-- can be used.
pub record Made (E : Type 0) : Type 0 where
  pub cache : TileCache E
  pub deleted : List (Deletion E)
  pub tile : Result (E × ArrayTile)

abbrev pub new_tile : {E : Type 0} → TileShape → RealmType → Attempt E → Result (E × ArrayTile)
new_tile shape type attempt =
    if attempt.success
    then ok
        (attempt.ready, record { instance_id = attempt.instance_id; shape = shape; type = type })
    else err allocation_failure

-- The two attempts, with the cache cleared between them: what Realm answers can depend on the instances
-- whose deletion was asked for before.
abbrev pub allocate :
    {E : Type 0}
    → Events E
    → Bool
    → TileShape
    → (List (Deletion E) → Attempt E)
    → TileCache E
    → Result RealmType
    → Made E
allocate es cached shape answer cache (err error) = record {
  cache = cache;
  deleted = [];
  tile = err error;
}
allocate es cached shape answer cache (ok type) =
    if (try_allocation es shape.bounds (answer [])).success
    then record {
      cache = cache;
      deleted = [];
      tile = new_tile shape type (try_allocation es shape.bounds (answer []));
    }
    else record {
      cache = (clear_tiles cached cache).0;
      deleted = (clear_tiles cached cache).1;
      tile =
          new_tile shape type
            (try_allocation es shape.bounds (answer (clear_tiles cached cache).1));
    }

abbrev pub cached_or :
    {E : Type 0}
    → Events E
    → Bool
    → TileShape
    → (List (Deletion E) → Attempt E)
    → Option (E × ArrayTile) × TileCache E
    → Made E
cached_or es cached shape answer (some tile, cache) = record {
  cache = cache;
  deleted = [];
  tile = ok tile;
}
cached_or es cached shape answer (none, cache) =
    allocate es cached shape answer cache (to_realm_type shape.type)

-- `ArrayTile::Create`
unfoldable pub create_tile :
    {E : Type 0}
    → Events E
    → Bool
    → TileShape
    → (List (Deletion E) → Attempt E)
    → TileCache E
    → Made E
unfolding get_tile clear_tiles to_realm_type
create_tile es cached shape answer cache =
    cached_or es cached shape answer (get_tile cached shape cache)
