-- ===== src/Shards/Gather.antt =====
-- A sender and a receiver of gathered shards: src/zuku/reshard_gather_shards.cc.
use zuku.Base.{
  ℕ, zero, suc, ◌+◌, ◌<◌, ◌≡◌, refl, sym, ap, ◌∙◌, true, Option, none, some, List, [], ◌∷◌, arith,
  ◌==◌, if◌then◌else◌, length, get_or, Result, ok,
}
use zuku.Mesh.{shard_id, size}
use zuku.Shape.{Sharding, num_real_dims, ShardingDim}
use zuku.Shards.{all_bounds, GatherShardsConfig, get_gather_shards_config, own_bounds, gather_with}
use zuku.Tile.{RealmShape, supported_rank, compute_tile_bounds, compute_tile_bounds_n}
use zuku.Mesh.Shards.{shard_id_iff}

-- A shard whose bounds are computed stands in the list at its place.
all_bounds-place :
    (bounds : ℕ → Result RealmShape) (shape : ℕ → RealmShape)
    → ((s : ℕ) → bounds s ≡ ok (shape s))
    → (n shard : ℕ)
    → (all : List RealmShape) × (all_bounds bounds shard n ≡ ok all)
      × (length all ≡ n)
      × ((i : ℕ) (d : RealmShape) → i < n → get_or all i d ≡ shape (shard + i))
unfolding all_bounds
all_bounds-place bounds shape known zero shard = ([], refl, refl, λ i d h. absurd (omega arith))
all_bounds-place bounds shape known (suc n) shard =
    let rest = all_bounds-place bounds shape known n (shard + 1) in
    (shape shard ∷ rest.0, rw (known shard, rest.1) refl, ap suc rest.2, place rest.0 rest.3)
  where
    place :
        (all : List RealmShape)
        → ((i : ℕ) (d : RealmShape) → i < n → get_or all i d ≡ shape (shard + 1 + i))
        → (i : ℕ) (d : RealmShape) → i < suc n
        → get_or (shape shard ∷ all) i d ≡ shape (shard + i)
    place all h zero d lt = ap shape (omega arith)
    place all h (suc i) d lt = h i d (omega arith) ∙ ap shape (omega arith)

own-total :
    (bounds : ℕ → Result RealmShape) (shape : ℕ → RealmShape)
    → ((s : ℕ) → bounds s ≡ ok (shape s))
    → (shard : Option ℕ) → (own : Option RealmShape) × (own_bounds bounds shard ≡ ok own)
own-total bounds shape known none = (none, refl)
own-total bounds shape known (some s) = (some (shape s), rw (known s) refl)

gathered_with :
    (bounds : ℕ → Result RealmShape) (shape : ℕ → RealmShape)
    → ((s : ℕ) → bounds s ≡ ok (shape s))
    → (src dst : Sharding) (p q shard : ℕ) (d : RealmShape) → shard_id src.devices p ≡ some shard
    → (sender receiver : GatherShardsConfig) × (gather_with bounds p src dst ≡ ok sender)
      × (gather_with bounds q src dst ≡ ok receiver)
      × (sender.source_to_target_bounds ≡ some (get_or receiver.target_from_source_bounds shard d))
      × (length receiver.target_from_source_bounds ≡ size src.devices)
unfolding gather_with
gathered_with bounds shape known src dst p q shard d e =
    let (all, made, full, place) = all_bounds-place bounds shape known (size src.devices) 0 in
    let own = own-total bounds shape known (shard_id src.devices q) in
    let inside = ((shard_id_iff src.devices p shard).0 e).0 in
    (
      record {
        src_shard = shard_id src.devices p;
        dst_shard = shard_id dst.devices p;
        source_to_target_bounds = some (shape shard);
        target_from_source_bounds = all;
      },
      record {
        src_shard = shard_id src.devices q;
        dst_shard = shard_id dst.devices q;
        source_to_target_bounds = own.0;
        target_from_source_bounds = all;
      },
      rw (e, known shard, made) refl,
      rw (own.1, made) refl,
      ap some (ap shape (omega arith) ∙ sym (place shard d inside)),
      full,
    )

bounds_known :
    (max_dim s : ℕ) (dims : List ShardingDim)
    → supported_rank max_dim (num_real_dims dims) ≡ true
    → compute_tile_bounds max_dim s dims
      ≡ ok
          (compute_tile_bounds_n (if num_real_dims dims == 0 then 1 else num_real_dims dims) s dims)
unfolding compute_tile_bounds
bounds_known max_dim s dims h = rw h refl

-- If Realm supports the source's dimensions, every processor gets a configuration, and the processor of
-- a source shard sends the bounds under which every processor expects that shard.
pub gathered :
    (max_dim : ℕ) (src dst : Sharding) (p q shard : ℕ) (d : RealmShape)
    → supported_rank max_dim (num_real_dims src.dims) ≡ true
    → shard_id src.devices p ≡ some shard
    → (sender receiver : GatherShardsConfig) × (get_gather_shards_config max_dim p src dst
        ≡ ok sender)
      × (get_gather_shards_config max_dim q src dst ≡ ok receiver)
      × (sender.source_to_target_bounds ≡ some (get_or receiver.target_from_source_bounds shard d))
      × (length receiver.target_from_source_bounds ≡ size src.devices)
gathered max_dim src dst p q shard d h e =
    unfold get_gather_shards_config in
    gathered_with (λ s. compute_tile_bounds max_dim s src.dims)
      (λ s.
        compute_tile_bounds_n (if num_real_dims src.dims == 0 then 1 else num_real_dims src.dims) s
          src.dims)
      (λ s. bounds_known max_dim s src.dims h) src dst p q shard d e
