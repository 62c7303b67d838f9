-- ===== src/Moves/Patterns.antt =====
-- The parts of each pattern return: the functions of src/zuku/reshard_point_to_point.cc,
-- src/zuku/reshard_scatter_gather.cc, src/zuku/reshard_broadcast.cc, src/zuku/reshard_gather_shards.cc and
-- src/zuku/reshard_scatter_shards.cc for their source and their target.
use zuku.Base.{ℕ, ◌≡◌, some, List, ok}
use zuku.Store.{Events, Store, View}
use zuku.Reshard.{ReshardConfig, unsupported}
use zuku.Reshard.{
  scatter_gather, broadcast, gather_shards, scatter_shards, unsupported, no_op, point_to_point,
}
use zuku.Moves.{Manager, Array, zip_bounds, tile_items}
use zuku.Store.Order.{EventOrder}
use zuku.Tile.{RealmShape}
use zuku.Shards.{
  ReshardKey, gather_receives, scatter_sends, GatherShardsConfig, ScatterShardsConfig,
  scatter_receives,
}
use zuku.Broadcast.{SourceConfig, TargetConfig, BroadcastConfig}
use zuku.Mesh.{shard_id}
use zuku.Moves.Parts.{
  held-ReceivedAll, held-SentAll, receive_item-ReceivedAll, send_item-SentAll, SentAll, ReceivedAll,
  receive_items-ReceivedAll, send_items-SentAll,
}
use zuku.ScatterGather.{ScatterGatherConfig}
use zuku.Moves.Sides.{
  scatter_gather_target, scatter_gather_source, gather_source, broadcast_source, scatter_source,
  point_to_point_source, gather_target, scatter_target, point_to_point_target,
}

-- What a pattern needs of its configuration: the lookups of a source and of a target that exist, and for
-- a scatter of shards a number of targets for each source that is not 0, by which the target divides.
abbrev pub TargetFits : ReshardConfig → ℕ → Array → Array → Type 0
TargetFits unsupported p src dst = ⊥
TargetFits no_op p src dst = Unit {0}
TargetFits point_to_point p src dst = Unit {0}
TargetFits (scatter_gather config) p src dst = Unit {0}
TargetFits (broadcast config) p src dst = (target : TargetConfig) × (config.target ≡ some target)
TargetFits (gather_shards config) p src dst =
    (shard : ℕ) × (items : List (ReshardKey × RealmShape)) × (config.dst_shard ≡ some shard)
    × (zip_bounds (gather_receives src.unique_id dst.unique_id src.sharding.devices shard)
          config.target_from_source_bounds
        ≡ ok items)
TargetFits (scatter_shards config) p src dst =
    (shard : ℕ) × (key : ReshardKey) × (shard_id dst.sharding.devices p ≡ some shard)
    × (scatter_receives src.unique_id dst.unique_id src.sharding.devices dst.sharding.devices shard
        ≡ ok key)

abbrev pub SourceFits : ReshardConfig → ℕ → ℕ → Array → Array → Type 0
SourceFits unsupported max_dim p src dst = ⊥
SourceFits no_op max_dim p src dst = Unit {0}
SourceFits point_to_point max_dim p src dst = Unit {0}
SourceFits (scatter_gather config) max_dim p src dst = Unit {0}
SourceFits (broadcast config) max_dim p src dst =
    (source : SourceConfig) × (config.source ≡ some source)
SourceFits (gather_shards config) max_dim p src dst =
    (given : ℕ) × (shard : ℕ) × (bounds : RealmShape) × (config.src_shard ≡ some given)
    × (shard_id src.sharding.devices p ≡ some shard)
    × (config.source_to_target_bounds ≡ some bounds)
SourceFits (scatter_shards config) max_dim p src dst =
    (shard : ℕ) × (items : List (ReshardKey × RealmShape)) × (shard_id src.sharding.devices p
      ≡ some shard)
    × (tile_items max_dim dst.sharding (
          scatter_sends src.unique_id dst.unique_id src.sharding.devices dst.sharding.devices shard)
        ≡ ok items)

pub record Fits (config : ReshardConfig) (max_dim p : ℕ) (src dst : Array) : Type 0 where
  pub supported : config ≡ unsupported → ⊥
  pub target : (tile : ℕ × RealmShape) → dst.held ≡ some tile → TargetFits config p src dst
  pub source : (tile : ℕ × RealmShape) → src.held ≡ some tile → SourceFits config max_dim p src dst

module _ {E S : Type 0} (es : Events E) (m : Manager E S) (before : E → E → Type 0)
    (o : EventOrder es before) where
  pub point_to_point-ReceivedAll :
      (src_array dst_array : Array) (dst : Store E) (s : S)
      → m.Good s
      → ReceivedAll es m before o (point_to_point_target es m src_array dst_array dst s)
  unfolding point_to_point_target
  point_to_point-ReceivedAll src_array dst_array dst s g =
      held-ReceivedAll es m before o dst_array.held _ dst s g
        (λ tile h. receive_item-ReceivedAll es m before o _ tile.1 dst s g)

  pub point_to_point-SentAll :
      (user : E) (src_array dst_array : Array) (src : View E) (s : S)
      → src.war_dependency ≡ some user
      → m.Good s
      → SentAll es m before o user (point_to_point_source es m src_array dst_array src s)
  unfolding point_to_point_source
  point_to_point-SentAll user src_array dst_array src s w g =
      held-SentAll es m before o user src_array.held _ src s w g
        (λ tile h. send_item-SentAll es m before o user _ tile.1 src s w g)

  pub scatter_gather-ReceivedAll :
      (config : ScatterGatherConfig) (src_array dst_array : Array) (dst : Store E) (s : S)
      → m.Good s
      → ReceivedAll es m before o (scatter_gather_target es m config src_array dst_array dst s)
  unfolding scatter_gather_target
  scatter_gather-ReceivedAll config src_array dst_array dst s g =
      held-ReceivedAll es m before o dst_array.held _ dst s g
        (λ tile h. receive_items-ReceivedAll es m before o _ dst s g)

  pub scatter_gather-SentAll :
      (user : E) (config : ScatterGatherConfig) (src_array dst_array : Array) (src : View E) (s : S)
      → src.war_dependency ≡ some user
      → m.Good s
      → SentAll es m before o user (scatter_gather_source es m config src_array dst_array src s)
  unfolding scatter_gather_source
  scatter_gather-SentAll user config src_array dst_array src s w g =
      held-SentAll es m before o user src_array.held _ src s w g
        (λ tile h. send_items-SentAll es m before o user _ src s w g)

  pub gather-ReceivedAll :
      (p : ℕ) (config : GatherShardsConfig) (src_array dst_array : Array) (dst : Store E) (s : S)
      → ((tile : ℕ × RealmShape)
          → dst_array.held ≡ some tile
          → TargetFits (gather_shards config) p src_array dst_array)
      → m.Good s
      → ReceivedAll es m before o (gather_target es m config src_array dst_array dst s)
  unfolding gather_target
  gather-ReceivedAll p config src_array dst_array dst s fits g =
      held-ReceivedAll es m before o dst_array.held _ dst s g (λ tile h.
        let (shard, items, e, all) = fits tile h in
        rw (e, all) (receive_items-ReceivedAll es m before o items dst s g))

  pub gather-SentAll :
      (max_dim p : ℕ) (user : E) (config : GatherShardsConfig) (src_array dst_array : Array)
      (src : View E) (s : S)
      → ((tile : ℕ × RealmShape)
          → src_array.held ≡ some tile
          → SourceFits (gather_shards config) max_dim p src_array dst_array)
      → src.war_dependency ≡ some user
      → m.Good s
      → SentAll es m before o user (gather_source es m p config src_array dst_array src s)
  unfolding gather_source
  gather-SentAll max_dim p user config src_array dst_array src s fits w g =
      held-SentAll es m before o user src_array.held _ src s w g (λ tile h.
        let (given, shard, bounds, e, own, all) = fits tile h in
        rw (e, own, all) (send_items-SentAll es m before o user _ src s w g))

  pub scatter-ReceivedAll :
      (p : ℕ) (config : ScatterShardsConfig) (src_array dst_array : Array) (dst : Store E) (s : S)
      → ((tile : ℕ × RealmShape)
          → dst_array.held ≡ some tile
          → TargetFits (scatter_shards config) p src_array dst_array)
      → m.Good s
      → ReceivedAll es m before o (scatter_target es m p src_array dst_array dst s)
  unfolding scatter_target
  scatter-ReceivedAll p config src_array dst_array dst s fits g =
      held-ReceivedAll es m before o dst_array.held _ dst s g (λ tile h.
        let (shard, key, own, computed) = fits tile h in
        rw (own, computed) (receive_item-ReceivedAll es m before o key tile.1 dst s g))

  pub scatter-SentAll :
      (max_dim p : ℕ) (user : E) (config : ScatterShardsConfig) (src_array dst_array : Array)
      (src : View E) (s : S)
      → ((tile : ℕ × RealmShape)
          → src_array.held ≡ some tile
          → SourceFits (scatter_shards config) max_dim p src_array dst_array)
      → src.war_dependency ≡ some user
      → m.Good s
      → SentAll es m before o user (scatter_source es m max_dim p src_array dst_array src s)
  unfolding scatter_source
  scatter-SentAll max_dim p user config src_array dst_array src s fits w g =
      held-SentAll es m before o user src_array.held _ src s w g (λ tile h.
        let (shard, items, own, all) = fits tile h in
        rw (own, all) (send_items-SentAll es m before o user items src s w g))

  pub broadcast-SentAll :
      (max_dim p : ℕ) (user : E) (config : BroadcastConfig) (src_array dst_array : Array)
      (src : View E) (s : S)
      → ((tile : ℕ × RealmShape)
          → src_array.held ≡ some tile
          → SourceFits (broadcast config) max_dim p src_array dst_array)
      → src.war_dependency ≡ some user
      → m.Good s
      → SentAll es m before o user (broadcast_source es m config src_array dst_array src s)
  unfolding broadcast_source
  broadcast-SentAll max_dim p user config src_array dst_array src s fits w g =
      held-SentAll es m before o user src_array.held _ src s w g (λ tile h.
        let (source, e) = fits tile h in rw e (send_items-SentAll es m before o user _ src s w g))
