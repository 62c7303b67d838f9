-- ===== src/Reshard/Pairs.antt =====
-- The pairs of a source and a destination shard: `DetermineShardingConfigFullyReplicated` in
-- src/zuku/reshard.cc.
use zuku.Base.{ℕ, ◌≤◌, ◌<◌, ◌≡◌, some, arith, if◌then◌else◌}
use zuku.Mesh.{size, contains, device_at}
use zuku.Shape.{Sharding}
use zuku.Reshard.{fully_replicated, point_to_point, no_op}

-- If a replicated array has at least as many source as destination shards, the processors of source
-- shard `d` and of destination shard `d` both take part point to point, for every destination shard;
-- and the processor of a source shard behind the last destination shard takes part point to point
-- if it holds a destination device, and not at all if not.
pub paired :
    (src dst : Sharding) (d s : ℕ)
    → size dst.devices ≤ size src.devices
    → d < size dst.devices
    → size dst.devices ≤ s
    → (fully_replicated (device_at src.devices d) src dst ≡ some point_to_point)
      × (fully_replicated (device_at dst.devices d) src dst ≡ some point_to_point)
      × (fully_replicated (device_at src.devices s) src dst ≡ (
          if contains dst.devices (device_at src.devices s)
          then some point_to_point
          else some no_op))
unfolding fully_replicated contains device_at
paired src dst d s more hd hs = (ground arith, ground arith, ground arith)
