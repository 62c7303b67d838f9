-- ===== src/Moves/Carry.antt =====
-- `Reshard` of src/zuku/reshard.cc, which visits the configuration, and the function of each pattern that
-- calls its source and its target.
use zuku.Base.{ℕ, List, [], ◌++◌, if◌then◌else◌, ◌>>=◌, Result, unsupported_reshard, ok, err}
use zuku.Store.{Store, Events, View, open_view}
use zuku.Store.Views.{open_subview, release}
use zuku.Reshard.{
  determine_sharding_config, ReshardConfig, scatter_gather, broadcast, gather_shards,
  scatter_shards, unsupported, no_op, point_to_point,
}
use zuku.Moves.{released_events, Array, Manager, Moved, has_tile}
use zuku.Moves.Sides.{
  point_to_point_target, point_to_point_source, scatter_gather_target, scatter_gather_source,
  gather_target, gather_source, scatter_target, scatter_source, broadcast_target, broadcast_source,
}

module _ {E S : Type 0} (es : Events E) (m : Manager E S) where
  -- The end of the view that was sent from.
  abbrev pub finish : List E × View E × S → List E × Store E × S → S → Moved E S
  finish sent received s = record {
    dst = received.1;
    manager = s;
    sent = sent.0;
    received = received.0;
    forwarded = [];
    triggers = released_events es m sent.1;
  }

  -- the target, and then the source
  abbrev pub target_first :
      Result (List E × Store E × S) → (S → Result (List E × View E × S)) → Result (Moved E S)
  target_first target source = do
    received ← target
    sent ← source received.2
    ok (finish sent received sent.2)

  -- the source, and then the target
  abbrev pub source_first :
      Result (List E × View E × S) → (S → Result (List E × Store E × S)) → Result (Moved E S)
  source_first source target = do
    sent ← source
    received ← target sent.2
    ok (finish sent received received.2)

  -- `ReshardScatterGather` sends from a subview, which ends before its view does.
  abbrev pub from_subview : E → View E → Moved E S → Moved E S
  from_subview user src moved = record {
    dst = moved.dst;
    manager = moved.manager;
    sent = moved.sent;
    received = moved.received;
    forwarded = moved.forwarded;
    triggers = moved.triggers ++ released_events es m (open_subview user src).1;
  }

  abbrev pub broadcast_first :
      Result (List E × Store E × S × List E × List (E × E))
      → (S → Result (List E × View E × S))
      → Result (Moved E S)
  broadcast_first target source = do
    received ← target
    sent ← source received.2
    ok (record {
      dst = received.1;
      manager = sent.2;
      sent = sent.0;
      received = received.0;
      forwarded = received.3;
      triggers = received.4 ++ released_events es m sent.1;
    })

  -- `Reshard`, on the configuration that was determined. `user` is the user event of the subview or
  -- of the view for the leaves.
  unfoldable pub carry_out :
      ℕ → ℕ → ReshardConfig → Array → Array → E → View E → Store E → S → Result (Moved E S)
  unfolding point_to_point_target point_to_point_source scatter_gather_target scatter_gather_source
      gather_target gather_source scatter_target scatter_source broadcast_target broadcast_source
      open_subview release
  carry_out max_dim p unsupported src_array dst_array user src dst s = err unsupported_reshard
  carry_out max_dim p no_op src_array dst_array user src dst s =
      ok (finish ([], src, s) ([], dst, s) s)
  carry_out max_dim p point_to_point src_array dst_array user src dst s =
      target_first (point_to_point_target es m src_array dst_array dst s)
        (λ s. point_to_point_source es m src_array dst_array src s)
  carry_out max_dim p (scatter_gather config) src_array dst_array user src dst s =
      source_first
        (scatter_gather_source es m config src_array dst_array
          (if has_tile src_array then (open_subview user src).0 else src) s)
        (λ s. scatter_gather_target es m config src_array dst_array dst s)
      >>= λ moved. ok (if has_tile src_array then from_subview user src moved else moved)
  carry_out max_dim p (broadcast config) src_array dst_array user src dst s =
      broadcast_first (broadcast_target es m config src_array dst_array user dst s)
        (λ s. broadcast_source es m config src_array dst_array src s)
  carry_out max_dim p (gather_shards config) src_array dst_array user src dst s =
      source_first (gather_source es m p config src_array dst_array src s)
        (λ s. gather_target es m config src_array dst_array dst s)
  carry_out max_dim p (scatter_shards config) src_array dst_array user src dst s =
      source_first (scatter_source es m max_dim p src_array dst_array src s)
        (λ s. scatter_target es m p src_array dst_array dst s)

  -- `Reshard`
  unfoldable pub reshard : ℕ → ℕ → Array → Array → E → View E → Store E → S → Result (Moved E S)
  unfolding determine_sharding_config carry_out
  reshard max_dim p src_array dst_array user src dst s = do
    config ← determine_sharding_config max_dim p src_array.sharding dst_array.sharding
    carry_out max_dim p config src_array dst_array user src dst s

  -- `Reshard` from a store, which lends a view of itself with the user event `reader`: the source's store
  -- and what is left
  unfoldable pub reshard_store :
      ℕ → ℕ → Array → Array → E → E → Store E → Store E → S → Result (Store E × Moved E S)
  unfolding open_view reshard
  reshard_store max_dim p src_array dst_array user reader src dst s =
      let opened = open_view es reader src in
      reshard max_dim p src_array dst_array user opened.0 dst s >>= λ moved. ok (opened.1, moved)
