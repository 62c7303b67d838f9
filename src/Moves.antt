-- ===== src/Moves.antt =====
-- How a processor carries out a configuration: src/zuku/reshard.cc (Reshard), the functions that
-- reshard_point_to_point.cc, reshard_scatter_gather.cc, reshard_broadcast.cc, reshard_gather_shards.cc
-- and reshard_scatter_shards.cc call for its source and its target. Here is what they are made of,
-- Moves.Sides has each pattern's source and target, Moves.Carry puts them together. The reshard manager
-- is an interface here, and a set of events is a list. User events that are created are arguments.
pub mod Sides
pub mod Carry
pub mod Parts
pub mod Patterns
pub mod Leaves
pub mod Ready
pub mod Local
mod Examples
use zuku.Base.{
  ℕ, ◌≡◌, Bool, true, false, Option, none, some, List, [], ◌∷◌, map, ◌>>=◌, Result, out_of_range,
  ok, err,
}
use zuku.Store.{precondition, Store, Events, View, ready_after, effects_or, open_view}
use zuku.Tile.{RealmShape, compute_tile_bounds}
use zuku.Shards.{
  UniqueId, ReshardKey, scatter_receives, gather_sends, gather_receives, scatter_sends,
  GatherShardsConfig,
}
use zuku.ScatterGather.{SliceConfig, ScatterGatherConfig}
use zuku.Store.Views.{open_subview, done_after, release, merge_all}
use zuku.Reshard.{
  determine_sharding_config, ReshardConfig, scatter_gather, broadcast, gather_shards,
  scatter_shards, unsupported, no_op, point_to_point,
}
use zuku.Shape.{Sharding}
use zuku.Broadcast.{TargetConfig, BroadcastConfig}
use zuku.Mesh.{shard_id}

-- An array, with the shard and the bounds of the tile of this processor, if there is one.
pub record Array : Type 0 where
  pub unique_id : UniqueId
  pub sharding : Sharding
  pub held : Option (ℕ × RealmShape)

-- A call of the reshard manager: of `ReshardFromLocalSource` or of `ReshardToLocalTarget`, with the
-- precondition of the source's view or of the target's store.
pub record Ask (E : Type 0) : Type 0 where
  pub sends : Bool
  pub key : ReshardKey
  pub shape : RealmShape
  pub precondition : E

-- The manager: what a call leaves, and the event that it returns. Where what it keeps is good, it returns.
pub record Manager (E S : Type 0) : Type 1 where
  pub ask : Ask E → S → Result (S × E)
  pub Good : S → Type 0
  pub answers :
      (q : Ask E) (s : S) → Good s → (s' : S) × (event : E) × (ask q s ≡ ok (s', event)) × Good s'

-- What a processor leaves: the target's store, the manager, the events of what it sends of the source,
-- of what it receives, and of what it sends on from the target to the leaves of a broadcast, and the
-- user events that it triggers, each with the event that must come before.
pub record Moved (E S : Type 0) : Type 0 where
  pub dst : Store E
  pub manager : S
  pub sent : List E
  pub received : List E
  pub forwarded : List E
  pub triggers : List (E × E)

abbrev pub has_tile : Array → Bool
has_tile a = elim a.held [ none ↦ false | some tile ↦ true ]

abbrev pub key_between : Array → Array → ℕ → ℕ → ReshardKey
key_between src dst src_shard dst_shard = record {
  src_id = src.unique_id;
  dst_id = dst.unique_id;
  src_shard_id = src_shard;
  dst_shard_id = dst_shard;
}

abbrev pub Items : Type 0
Items = List (ReshardKey × RealmShape)

-- The keys and bounds of the slices of a scatter-gather.
abbrev pub slice_items : Array → Array → List SliceConfig → Items
slice_items src dst =
    map (λ (c : SliceConfig). (key_between src dst c.src_shard c.dst_shard, c.bounds))

-- Those of the shards that a source sends to in a broadcast, and a target to its leaves.
abbrev pub root_items : Array → Array → ℕ → RealmShape → List ℕ → Items
root_items src dst shard bounds = map (λ dst_shard. (key_between src dst shard dst_shard, bounds))

-- Those of all targets, or all sources, with their bounds.
abbrev pub with_bounds : List ReshardKey → RealmShape → Items
with_bounds keys bounds = map (λ key. (key, bounds)) keys

abbrev pub zip_bounds : List ReshardKey → List RealmShape → Result Items
zip_bounds [] bounds = ok []
zip_bounds (key ∷ keys) [] = err out_of_range
zip_bounds (key ∷ keys) (b ∷ bounds) = do rest ← zip_bounds keys bounds; ok ((key, b) ∷ rest)

unfoldable pub tile_items : ℕ → Sharding → List ReshardKey → Result Items
unfolding compute_tile_bounds
tile_items max_dim dst [] = ok []
tile_items max_dim dst (key ∷ keys) = do
  bounds ← compute_tile_bounds max_dim (ReshardKey.dst_shard_id key) dst.dims
  rest ← tile_items max_dim dst keys
  ok ((key, bounds) ∷ rest)

module _ {E S : Type 0} (es : Events E) (m : Manager E S) where
  -- the loops that call the manager for one key after another and collect the events
  unfoldable pub ask_all : Bool → E → Items → S → Result (List E × S)
  ask_all sends precondition [] s = ok ([], s)
  ask_all sends precondition ((key, bounds) ∷ items) s = do
    now ← m.ask (record { sends = sends; key = key; shape = bounds; precondition = precondition }) s
    rest ← ask_all sends precondition items now.0
    ok (now.1 ∷ rest.0, rest.1)

  abbrev pub released_events : View E → List (E × E)
  released_events v = elim (release es v).0 [ none ↦ [] | some trigger ↦ trigger ∷ [] ]

  -- The source's part of every pattern but point to point: it sends all items, and marks the view as
  -- used until all are sent.
  abbrev pub send_items : Items → View E → S → Result (List E × View E × S)
  send_items items src s = do
    done ← ask_all true (effects_or es src.precondition) items s
    ok (done.0, done_after (merge_all es done.0) src, done.1)

  -- The target's part of a scatter-gather and of a gather of shards.
  abbrev pub receive_items : Items → Store E → S → Result (List E × Store E × S)
  receive_items items dst s = do
    done ← ask_all false (precondition es dst) items s
    ok (done.0, ready_after es (merge_all es done.0) (merge_all es done.0) dst, done.1)

  -- The target's part where it receives one item.
  abbrev pub receive_item : ReshardKey → RealmShape → Store E → S → Result (List E × Store E × S)
  receive_item key bounds dst s = do
    done ←
        m.ask
          (record { sends = false; key = key; shape = bounds; precondition = precondition es dst })
          s
    ok (done.1 ∷ [], ready_after es done.1 done.1 dst, done.0)

  -- The point-to-point source, which sends one item.
  abbrev pub send_item : ReshardKey → RealmShape → View E → S → Result (List E × View E × S)
  send_item key bounds src s = do
    done ←
        m.ask
          (record {
            sends = true;
            key = key;
            shape = bounds;
            precondition = effects_or es src.precondition;
          })
          s
    ok (done.1 ∷ [], done_after done.1 src, done.0)
