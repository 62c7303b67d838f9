-- ===== src/Broadcast.antt =====
-- src/zuku/reshard_broadcast.cc: the trees along which a replicated array is broadcast.
-- A `while` loop takes fuel, and `none` means that the fuel ran out. The
-- fuel is one more than the number of leaves, than the power of two, and than half the split: the
-- power doubles and the splits halve until they pass it.
pub mod Split
pub mod Leaves
pub mod Tree
pub mod Sends
pub mod Receives
pub mod Roots
mod Examples
use zuku.Base.{
  ℕ, zero, suc, ◌+◌, ◌-◌, ◌*◌, ◌/◌, ◌%◌, min, ◌&&◌, Option, none, some, List, [], ◌∷◌, map, ltb,
  leb, ◌==◌, if◌then◌else◌,
}
use mathlib.Core.Option
use zuku.Mesh.{DeviceList, size, slice}

pub record SourceConfig : Type 0 where
  pub dst_root_shards : List ℕ

pub record TargetConfig : Type 0 where
  pub src_shard : Option ℕ
  pub dst_root_shard : Option ℕ
  pub dst_leaf_shards : List ℕ

pub record BroadcastConfig : Type 0 where
  pub source : Option SourceConfig
  pub target : Option TargetConfig

-- `while (power < num_leaves) power *= 2`
pub power_loop : ℕ → ℕ → ℕ → Option ℕ
power_loop zero num_leaves power = none
power_loop (suc fuel) num_leaves power =
    let rest = power_loop fuel num_leaves (power * 2) in
    if ltb power num_leaves then rest else some power

-- The search for `my_rank` by halving; the result is `split_start` and `split_size`.
pub split_loop : ℕ → ℕ → ℕ → ℕ → Option (ℕ × ℕ)
split_loop zero my_rank split_start split_size = none
split_loop (suc fuel) my_rank split_start split_size =
    let half = split_size / 2 in
    let rest =
      split_loop fuel my_rank
        (if ltb split_start my_rank then split_start + half else split_start - half) half in
    if split_start == my_rank then some (split_start, split_size) else rest

-- The loop that collects the targets, in order.
pub leaf_loop : ℕ → ℕ → ℕ → ℕ → ℕ → Option (List ℕ)
leaf_loop zero dest_root_shard num_leaves next_leaf split_size = none
leaf_loop (suc fuel) dest_root_shard num_leaves next_leaf split_size =
    let rest =
      Option.map (◌∷◌ (dest_root_shard + next_leaf))
        (leaf_loop fuel dest_root_shard num_leaves (next_leaf - split_size / 2) (split_size / 2)) in
    if ltb next_leaf num_leaves && ltb 0 split_size then rest else some []

-- what an even rank does once the split is found
pub even_config : ℕ → ℕ → ℕ → ℕ → ℕ → ℕ → Option TargetConfig
unfolding leaf_loop
even_config src_shard dest_root_shard num_leaves my_rank split_start split_size =
    let my_source = dest_root_shard + my_rank - split_size in
    let half = split_size / 2 in
    Option.map
      (λ targets.
        if ltb 0 my_rank
        then record { src_shard = none; dst_root_shard = some my_source; dst_leaf_shards = targets }
        else record {
          src_shard = some src_shard;
          dst_root_shard = none;
          dst_leaf_shards = targets;
        })
      (leaf_loop (half + 1) dest_root_shard num_leaves (split_start + half) half)

abbrev pub bind {ℓ κ} : {A : Type ℓ} {B : Type κ} → Option A → (A → Option B) → Option B
bind none f = none
bind (some a) f = f a

-- `GetTargetConfig`. Of the destination devices it reads the number only.
unfoldable pub get_target_config : ℕ → ℕ → ℕ → ℕ → Option TargetConfig
unfolding power_loop split_loop even_config
get_target_config src_shard dest_root_shard num_leaves my_rank =
    if my_rank % 2 == 1
    then some (record {
      src_shard = none;
      dst_root_shard = some (dest_root_shard + my_rank - 1);
      dst_leaf_shards = [];
    })
    else bind (power_loop (num_leaves + 1) num_leaves 1) (λ power.
      bind (split_loop (power + 1) my_rank 0 power)
        (λ s. even_config src_shard dest_root_shard num_leaves my_rank s.0 s.1))

abbrev pub leaves_per_root : DeviceList → DeviceList → ℕ
leaves_per_root src dst = (size dst + size src - 1) / size src

-- The target of a destination shard, which `GetBroadcastConfig` computes unless it returns before, for a
-- source shard that takes no part.
pub target_of : ℕ → DeviceList → DeviceList → Option TargetConfig
unfolding get_target_config slice
target_of dst_shard src dst =
    let leaves = leaves_per_root src dst in
    let my_src_shard = dst_shard / leaves in
    let my_rank = dst_shard - my_src_shard * leaves in
    let num_leaves = min leaves (size dst - my_src_shard * leaves) in
    let tree_offset = my_src_shard * leaves in
    get_target_config my_src_shard tree_offset (size (slice dst tree_offset num_leaves)) my_rank

-- `target` of the result: absent without a destination shard
pub with_target : Option SourceConfig → Option ℕ → DeviceList → DeviceList → Option BroadcastConfig
unfolding target_of
with_target source none src dst = some (record { source = source; target = none })
with_target source (some d) src dst =
    Option.map (λ t. record { source = source; target = some t }) (target_of d src dst)

-- `GetBroadcastConfig`, on the device lists of the two shardings
unfoldable pub get_broadcast_config :
    Option ℕ → Option ℕ → DeviceList → DeviceList → Option BroadcastConfig
unfolding with_target
get_broadcast_config none dst_shard src dst = with_target none dst_shard src dst
get_broadcast_config (some s) dst_shard src dst =
    let dst_partner_shard = s * leaves_per_root src dst in
    if leb (size dst) dst_partner_shard
    then some (record { source = none; target = none })
    else with_target (some (record { dst_root_shards = dst_partner_shard ∷ [] })) dst_shard src dst
