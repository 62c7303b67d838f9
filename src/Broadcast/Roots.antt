-- ===== src/Broadcast/Roots.antt =====
-- The roots of the trees and the source shards that feed them: `GetBroadcastConfig` in
-- src/zuku/reshard_broadcast.cc.
use zuku.Base.{
  ℕ, ◌+◌, ◌-◌, ◌*◌, ◌/◌, ◌≤◌, ◌<◌, min, ◌≡◌, refl, ap, ◌∙◌, false, Option, none, some, [], ◌∷◌,
  arith, leb, div-lt,
}
use zuku.Mesh.{DeviceList, size, slice}
use zuku.Broadcast.{
  TargetConfig, get_broadcast_config, with_target, target_of, get_target_config, leaves_per_root,
  SourceConfig, BroadcastConfig,
}
use zuku.Broadcast.Tree.{Config-total, tree_config}

-- A tree of a destination shard belongs to a source shard that exists.
tree_exists : (m n d : ℕ) → 0 < m → d < n → d / ((n + m - 1) / m) < m
tree_exists m n d hm hd = div-lt d m ((n + m - 1) / m) (omega (arith, covers))
  where
    covers : n ≤ m * ((n + m - 1) / m)
    covers = grind arith

rank_zero :
    (src root n r : ℕ)
    → r ≡ 0
    → 0 < n
    → (t : TargetConfig) × (get_target_config src root n r ≡ some t) × (t.src_shard ≡ some src)
rank_zero src root n r z pos =
    let f = Config-total src root n r (omega arith) in
    (tree_config src root n r f.i, f.result, ground arith)

leaves_pos : (m n d : ℕ) → 0 < m → d < n → 0 < (n + m - 1) / m
leaves_pos m n d hm hd = grind arith

quotient_lem : (d l : ℕ) → 0 < l → (d / l * l ≤ d) × (d < d / l * l + l)
quotient_lem d l hl = (grind arith, grind arith)

-- A destination shard has a rank in its tree.
in_tree : (l n d : ℕ) → 0 < l → d < n → d - d / l * l < min l (n - d / l * l)
in_tree l n d hl hd = let (low, cut) = quotient_lem d l hl in omega (arith, low, cut)

root_target :
    (src dst : DeviceList) (d : ℕ)
    → 0 < size src
    → d < size dst
    → d / leaves_per_root src dst * leaves_per_root src dst ≡ d
    → (t : TargetConfig) × (target_of d src dst ≡ some t)
      × (t.src_shard ≡ some (d / leaves_per_root src dst))
unfolding target_of slice
root_target src dst d hs hd e =
    rank_zero (d / leaves_per_root src dst) (d / leaves_per_root src dst * leaves_per_root src dst)
      (min (leaves_per_root src dst)
        (size dst - d / leaves_per_root src dst * leaves_per_root src dst))
      (d - d / leaves_per_root src dst * leaves_per_root src dst) (omega arith)
      (omega (arith, leaves_pos (size src) (size dst) d hs hd))

-- A source shard takes part if its tree does not begin behind the last destination shard; a processor
-- without a source shard takes part.
abbrev pub Participates : Option ℕ → DeviceList → DeviceList → Type 0
Participates none src dst = Unit {0}
Participates (some s) src dst = s * leaves_per_root src dst < size dst

-- What a processor that takes part sends.
abbrev source_of : Option ℕ → DeviceList → DeviceList → Option SourceConfig
source_of none src dst = none
source_of (some s) src dst = some (record { dst_root_shards = s * leaves_per_root src dst ∷ [] })

participant :
    (own other : Option ℕ) (src dst : DeviceList)
    → Participates own src dst
    → get_broadcast_config own other src dst ≡ with_target (source_of own src dst) other src dst
unfolding get_broadcast_config
participant none other src dst h = refl
participant (some s) other src dst h =
    let begins : leb (size dst) (s * leaves_per_root src dst) ≡ false = ground arith in
    rw begins refl

-- A destination shard of the array, if the processor has one, has a target.
some_target :
    (src dst : DeviceList) (d : ℕ)
    → 0 < size src
    → d < size dst
    → (t : TargetConfig) × (target_of d src dst ≡ some t)
unfolding target_of slice
some_target src dst d hs hd =
    let l : ℕ = leaves_per_root src dst in
    let f =
      Config-total (d / l) (d / l * l) (min l (size dst - d / l * l)) (d - d / l * l)
        (in_tree l (size dst) d (leaves_pos (size src) (size dst) d hs hd) hd) in
    (tree_config (d / l) (d / l * l) (min l (size dst - d / l * l)) (d - d / l * l) f.i, f.result)

abbrev pub IsShard : Option ℕ → DeviceList → Type 0
IsShard none dst = Unit {0}
IsShard (some d) dst = d < size dst

sends_to_root :
    (src dst : DeviceList) (s : ℕ) (other : Option ℕ)
    → 0 < size src
    → s * leaves_per_root src dst < size dst
    → IsShard other dst
    → (config : BroadcastConfig) × (get_broadcast_config (some s) other src dst ≡ some config)
      × (config.source ≡ some (record { dst_root_shards = s * leaves_per_root src dst ∷ [] }))
unfolding with_target
sends_to_root src dst s none hs begins h = (
  record {
    source = some (record { dst_root_shards = s * leaves_per_root src dst ∷ [] });
    target = none;
  },
  participant (some s) none src dst begins,
  refl,
)
sends_to_root src dst s (some d) hs begins h =
    let (t, e) = some_target src dst d hs h in
    (
      record {
        source = some (record { dst_root_shards = s * leaves_per_root src dst ∷ [] });
        target = some t;
      },
      participant (some s) (some d) src dst begins ∙ rw e refl,
      refl,
    )

-- Let a destination shard be the first of its tree, and its processor hold no source shard or one whose
-- tree does not begin behind the last destination shard. The configuration of this processor receives
-- the shard from a source shard that exists, and the configuration of the processor of that source
-- shard, whatever destination shard that processor holds, sends it there and nowhere else.
pub root_served :
    (src dst : DeviceList) (d : ℕ) (own other : Option ℕ)
    → 0 < size src
    → d < size dst
    → d / leaves_per_root src dst * leaves_per_root src dst ≡ d
    → Participates own src dst
    → IsShard other dst
    → (receiver : BroadcastConfig) × (t : TargetConfig) × (sender : BroadcastConfig)
      × (get_broadcast_config own (some d) src dst ≡ some receiver)
      × (receiver.target ≡ some t)
      × (t.src_shard ≡ some (d / leaves_per_root src dst))
      × (d / leaves_per_root src dst < size src)
      × (get_broadcast_config (some (d / leaves_per_root src dst)) other src dst ≡ some sender)
      × (sender.source ≡ some (record { dst_root_shards = d ∷ [] }))
unfolding with_target
root_served src dst d own other hs hd e takes_part valid =
    let (t, found, from) = root_target src dst d hs hd e in
    let (sender, sends, there) =
      sends_to_root src dst (d / leaves_per_root src dst) other hs (omega (arith, e)) valid in
    (
      record { source = source_of own src dst; target = some t },
      t,
      sender,
      participant own (some d) src dst takes_part ∙ rw found refl,
      refl,
      from,
      tree_exists (size src) (size dst) d hs hd,
      sends,
      there ∙ ap (λ n. some (record { dst_root_shards = n ∷ [] })) e,
    )

-- The defect: a source shard whose tree would begin behind the last destination shard gets no target
-- either, also where its processor holds a destination shard, which then receives nothing.
pub extra_source :
    (src dst : DeviceList) (s : ℕ) (dst_shard : Option ℕ)
    → size dst ≤ s * leaves_per_root src dst
    → get_broadcast_config (some s) dst_shard src dst
      ≡ some (record { source = none; target = none })
unfolding get_broadcast_config
extra_source src dst s dst_shard h = ground arith
