-- ===== src/Moves/Sides.antt =====
-- The source and the target of each pattern: src/zuku/reshard_point_to_point.cc,
-- src/zuku/reshard_scatter_gather.cc, src/zuku/reshard_broadcast.cc, src/zuku/reshard_gather_shards.cc and
-- src/zuku/reshard_scatter_shards.cc.
use zuku.Base.{
  ℕ, true, none, some, List, [], ◌∷◌, ◌>>=◌, Result, wrong_sharding, bad_access, ok, err,
}
use zuku.Store.{precondition, Store, Events, View, ready_after, effects_or, open_view}
use zuku.Tile.{RealmShape}
use zuku.Shards.{scatter_receives, gather_sends, gather_receives, scatter_sends, GatherShardsConfig}
use zuku.ScatterGather.{ScatterGatherConfig}
use zuku.Store.Views.{done_after, release, merge_all}
use zuku.Broadcast.{TargetConfig, BroadcastConfig}
use zuku.Mesh.{shard_id}
use zuku.Moves.{
  ask_all, released_events, send_items, receive_items, receive_item, send_item, Array, Manager,
  key_between, slice_items, root_items, with_bounds, zip_bounds, tile_items,
}

module _ {E S : Type 0} (es : Events E) (m : Manager E S) where
  -- `ReshardPointToPoint`
  unfoldable pub point_to_point_target : Array → Array → Store E → S → Result (List E × Store E × S)
  unfolding ready_after precondition
  point_to_point_target src dst_array dst s = elim dst_array.held [
    | none ↦ ok ([], dst, s)
    | some tile ↦ receive_item es m (key_between src dst_array tile.0 tile.0) tile.1 dst s
  ]

  unfoldable pub point_to_point_source : Array → Array → View E → S → Result (List E × View E × S)
  unfolding done_after
  point_to_point_source src_array dst src s = elim src_array.held [
    | none ↦ ok ([], src, s)
    | some tile ↦ send_item es m (key_between src_array dst tile.0 tile.0) tile.1 src s
  ]

  -- `ReshardScatterGatherToLocalTarget`, if there is a tile
  unfoldable pub scatter_gather_target :
      ScatterGatherConfig → Array → Array → Store E → S → Result (List E × Store E × S)
  unfolding ask_all ready_after precondition merge_all
  scatter_gather_target config src dst_array dst s = elim dst_array.held [
    | none ↦ ok ([], dst, s)
    | some tile ↦ receive_items es m (slice_items src dst_array config.to_target) dst s
  ]

  -- `ReshardScatterGatherFromLocalSource`, if there is a tile
  unfoldable pub scatter_gather_source :
      ScatterGatherConfig → Array → Array → View E → S → Result (List E × View E × S)
  unfolding ask_all done_after merge_all
  scatter_gather_source config src_array dst src s = elim src_array.held [
    | none ↦ ok ([], src, s)
    | some tile ↦ send_items es m (slice_items src_array dst config.from_source) src s
  ]

  -- `GatherShardsToLocalTarget` and `GatherShardsFromLocalSource`, if there is a tile
  unfoldable pub gather_target :
      GatherShardsConfig → Array → Array → Store E → S → Result (List E × Store E × S)
  unfolding ask_all ready_after precondition merge_all gather_receives
  gather_target config src dst_array dst s = elim dst_array.held [
    | none ↦ ok ([], dst, s)
    | some tile ↦ elim config.dst_shard [
      | none ↦ err wrong_sharding
      | some shard ↦
          zip_bounds (gather_receives src.unique_id dst_array.unique_id src.sharding.devices shard)
            config.target_from_source_bounds
          >>= λ items. receive_items es m items dst s
    ]
  ]

  unfoldable pub gather_source :
      ℕ → GatherShardsConfig → Array → Array → View E → S → Result (List E × View E × S)
  unfolding ask_all done_after merge_all gather_sends shard_id
  gather_source p config src_array dst src s = elim src_array.held [
    | none ↦ ok ([], src, s)
    | some tile ↦ elim config.src_shard [
      | none ↦ err wrong_sharding
      | some given ↦ elim (shard_id src_array.sharding.devices p) [
        | none ↦ err bad_access
        | some shard ↦ elim config.source_to_target_bounds [
          | none ↦ err bad_access
          | some bounds ↦
              send_items es m
                (with_bounds
                  (gather_sends src_array.unique_id dst.unique_id dst.sharding.devices shard)
                  bounds)
                src s
        ]
      ]
    ]
  ]

  -- `ScatterShardsToLocalTarget` and `ScatterShardsFromLocalSource`, if there is a tile
  unfoldable pub scatter_target : ℕ → Array → Array → Store E → S → Result (List E × Store E × S)
  unfolding ready_after precondition scatter_receives shard_id
  scatter_target p src dst_array dst s = elim dst_array.held [
    | none ↦ ok ([], dst, s)
    | some tile ↦ elim (shard_id dst_array.sharding.devices p) [
      | none ↦ err bad_access
      | some shard ↦
          scatter_receives src.unique_id dst_array.unique_id src.sharding.devices
            dst_array.sharding.devices shard
          >>= λ key. receive_item es m key tile.1 dst s
    ]
  ]

  unfoldable pub scatter_source : ℕ → ℕ → Array → Array → View E → S → Result (List E × View E × S)
  unfolding ask_all done_after merge_all scatter_sends shard_id tile_items
  scatter_source max_dim p src_array dst src s = elim src_array.held [
    | none ↦ ok ([], src, s)
    | some tile ↦ elim (shard_id src_array.sharding.devices p) [
      | none ↦ err bad_access
      | some shard ↦
          tile_items max_dim dst.sharding (
            scatter_sends src_array.unique_id dst.unique_id src_array.sharding.devices
              dst.sharding.devices shard)
          >>= λ items. send_items es m items src s
    ]
  ]

  -- what `ReshardBroadcastToLocalTarget` receives before it sends to its leaves
  abbrev pub initial_precondition :
      TargetConfig → Array → Array → ℕ × RealmShape → Store E → S → Result (List E × Store E × S)
  initial_precondition config src dst_array tile dst s = elim config.src_shard [
    | some shard ↦ receive_item es m (key_between src dst_array shard tile.0) tile.1 dst s
    | none ↦ elim config.dst_root_shard [
      | some root ↦ receive_item es m (key_between dst_array dst_array root tile.0) tile.1 dst s
      | none ↦ ok ([], ready_after es es.no_event es.no_event dst, s)
    ]
  ]

  -- the loop over the leaves, each with its own DoneAfter
  abbrev pub done_after_all : List E → View E → View E
  done_after_all [] v = v
  done_after_all (e ∷ events) v = done_after_all events (done_after e v)

  abbrev pub send_leaves :
      TargetConfig
      → Array
      → ℕ × RealmShape
      → E
      → List E × Store E × S
      → Result (List E × Store E × S × List E × List (E × E))
  send_leaves config dst_array tile reader done = elim config.dst_leaf_shards [
    | [] ↦ ok (done.0, done.1, done.2, [], [])
    | leaf ∷ leaves ↦
        let opened = open_view es reader done.1 in
        (do
          leaf_events ←
              ask_all es m true (effects_or es (View.precondition opened.0))
                (root_items dst_array dst_array tile.0 tile.1 (leaf ∷ leaves)) done.2
          ok (
            done.0,
            opened.1,
            leaf_events.1,
            leaf_events.0,
            released_events es m (done_after_all leaf_events.0 opened.0),
          ))
  ]

  -- `ReshardBroadcastToLocalTarget`, if there is a tile
  unfoldable pub broadcast_target :
      BroadcastConfig
      → Array
      → Array
      → E
      → Store E
      → S
      → Result (List E × Store E × S × List E × List (E × E))
  unfolding ask_all ready_after precondition open_view done_after release
  broadcast_target config src dst_array reader dst s = elim dst_array.held [
    | none ↦ ok ([], dst, s, [], [])
    | some tile ↦ elim config.target [
      | none ↦ err bad_access
      | some target ↦
          initial_precondition target src dst_array tile dst s
          >>= send_leaves target dst_array tile reader
    ]
  ]

  -- `ReshardBroadcastFromLocalSource`, if there is a tile
  unfoldable pub broadcast_source :
      BroadcastConfig → Array → Array → View E → S → Result (List E × View E × S)
  unfolding ask_all done_after merge_all
  broadcast_source config src_array dst src s = elim src_array.held [
    | none ↦ ok ([], src, s)
    | some tile ↦ elim config.source [
      | none ↦ err bad_access
      | some source ↦
          send_items es m (root_items src_array dst tile.0 tile.1 source.dst_root_shards) src s
    ]
  ]
