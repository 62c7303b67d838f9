-- ===== src/Lib.antt =====
-- zuku: sharded arrays and futures on top of the Realm runtime. The development models the parts of
-- src/zuku that decide which processor holds which part of an array, what moves between processors
-- when an array is sharded anew, and which events an access to a store waits for.
--
-- Mesh: a contiguous list of devices (src/zuku/mesh.h, DeviceList).
-- Processors: how processors are numbered and found (src/zuku/processor.cc: Init, RemoteProc, GetProc,
--   GetAttachedHost).
-- Shape: element types, dimensions and shardings with their counts (src/zuku/shape.h).
-- Tile: the tile that a shard holds (src/zuku/tiled_array.cc: ComputeTileIndex, ComputeTileShard,
--   ComputeTileBounds, ComputeRealmShapeSize; src/zuku/realm_variants.h: RealmShape). Its children
--   follow the proofs: mixed radix digits, the vectors filled at permuted places, round trips, bounds,
--   the coordinates that are written, and the partition of the array.
-- Broadcast: the trees along which a replicated array is sent (src/zuku/reshard_broadcast.cc:
--   GetTargetConfig, GetBroadcastConfig).
-- ScatterGather: the slices that move when one dimension is sharded anew
--   (src/zuku/reshard_scatter_gather.cc: MakeTileBox, GetScatterGatherConfig). Its two branches do the
--   same with source and target exchanged: `fine_slice` is what a shard of the finer sharding
--   exchanges, `coarse_slices` what one of the coarser sharding does.
-- Store: the events of src/zuku/store.h and the part of src/zuku/future.h that it uses. Store.Access
--   says how a task's argument becomes a view or a child (ToTaskArgument).
--   Store.Views has the rest of a view: its subviews, moves and its destructor,
--   Store.Lifetime the creation, moves and the end of a store.
-- Tasks: what a deferred task stores, waits for and returns (src/zuku/task_base.h, src/zuku/task.h,
--   src/zuku/defer.h: _defer; src/zuku/store.h: ToTaskArgument). Tasks.Accesses relates the arguments
--   to the accesses of Store.Access.
-- Contexts: the fields with which a task is deferred, and launches on a group (src/zuku/defer.h: Context).
-- Futures: futures, their views and promises (src/zuku/future.h, src/zuku/promise.h).
-- Shards: whole shards that go to all targets or come from all sources, and the keys under which a
--   sender and a receiver meet (src/zuku/reshard_gather_shards.cc, src/zuku/reshard_scatter_shards.cc,
--   src/zuku/tiled_array.h: ReshardKey).
-- Reshard: the choice of a pattern (src/zuku/reshard.cc: DetermineShardingConfig and all that it calls).
-- Moves: how a processor carries out a pattern (src/zuku/reshard.cc: Reshard, and the functions that
--   the files of the patterns have for its source and its target). The reshard manager is an interface,
--   which Moves.Local fills with the handlers of Manager, where both sides are on one node.
-- Manager: the entry of a key in the reshard manager and the handlers that match the senders and the
--   receivers of that key (src/zuku/reshard_manager.cc). Manager.Matched says what it is that copies
--   serve senders and receivers in order; Manager.Local has both on one node, Manager.Remote the node of
--   the source when the target is on another.
-- Queues: a map from keys to queues, as std::unordered_map and std::queue make it.
-- TileCache: free tiles and the creation of tiles (src/zuku/tiled_array.cc: GetTile, FreeTile,
--   ClearTiles, ArrayTile::Create; src/zuku/tiled_array.h: TileShape). It is the cache of one processor;
--   whether ZUKU_USE_TILE_CACHE is defined is the parameter `cached`.
-- InstanceCache: free values in queues (src/zuku/instance_cache.h).
-- Arrays: the ids of arrays and ShardedArray::Create, which asks Tile for the bounds of a shard and
--   TileCache for a tile (src/zuku/tiled_array.cc).
-- Base: vectors with reads and writes by index, Boolean tests, results with errors.
--
-- Mesh gives the devices of a Shape's sharding; Tile numbers the tiles of a sharding; ScatterGather
-- asks Tile for the index, the shard and the box of every slice; Broadcast uses the sizes of two
-- device lists only. Reshard picks one of ScatterGather, Broadcast and Shards; these decide the keys,
-- Moves makes the calls, and Manager brings the two calls for a key together. Contexts gives Tasks what it
-- launches with, and Tasks turns the arguments into views and children of Store.
--
-- Numbers that are int64_t in the source and never negative are natural numbers, unbounded. A
-- `Realm::Rect` has inclusive bounds; a range here keeps the first coordinate behind its end, so that
-- the empty range needs no negative number, and a rectangle has the coordinates that were written to it.
-- To read another one, to divide by zero and to instantiate a template that does not compile is `err`.
-- `REALM_MAX_DIM` is the parameter `max_dim`. An exception or
-- a failed assertion is `err`. Loops over vectors are structural; the three `while` loops of
-- GetTargetConfig take fuel, the number of leaves + 1, the power of two + 1, and half the split + 1:
-- a power of two doubles, and a split halves, in every turn. `get_value` of a future takes as fuel the
-- number of pointers to follow, of which one is enough for a future that a promise gave out.
--
-- Realm is outside of the repository. Its events are a parameter of Store and of Manager, with
-- `NO_EVENT` and `merge_events`; Store.Order names what is documented of their order. The next phase of
-- a barrier is the parameter `advance`, of which nothing is assumed; what Realm answers to a request
-- for an instance is an `Attempt`, which can depend on the deletions that it was asked for before. A user
-- event or a pointer that the code creates is an argument.
--
-- Not modelled are the map from keys to entries in the reshard manager, the counts of allocations,
-- links of promises, vectors of futures and the deferred release of memory. Start-up, profiling,
-- hashing, printing, and the templates that choose overloads and start Realm tasks are not modelled:
-- they call Realm or the C++ type system and decide nothing that the parts above read.
pub mod Base
pub mod Mesh
pub mod Shape
pub mod Tile
pub mod Broadcast
pub mod ScatterGather
pub mod Store
pub mod Reshard
pub mod Manager
pub mod Shards
pub mod Queues
pub mod TileCache
pub mod Tasks
pub mod Moves
pub mod Contexts
pub mod Futures
pub mod Arrays
pub mod Processors
pub mod InstanceCache
