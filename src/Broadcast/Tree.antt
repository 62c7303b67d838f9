-- ===== src/Broadcast/Tree.antt =====
-- What `GetTargetConfig` in src/zuku/reshard_broadcast.cc computes for a rank, and its fuel.
use zuku.Base.{
  ℕ, ◌+◌, ◌-◌, ◌%◌, ◌≤◌, ◌<◌, ◌≡◌, ◌⊎◌, inl, inr, true, false, none, some, arith, ◌==◌,
  if◌then◌else◌, Bool-cases,
}
use zuku.Broadcast.{TargetConfig, get_target_config, power_loop, split_loop, even_config}
use zuku.Broadcast.Split.{pow2, IsSplit, Found, split-Found, power_loop-pow2, half_pow2}
use zuku.Broadcast.Leaves.{targets, below_rank, leaf_loop-targets}

-- The configuration of a rank whose split is `pow2 i`.
abbrev pub tree_config : ℕ → ℕ → ℕ → ℕ → ℕ → TargetConfig
tree_config src root n r i =
    if r == 0
    then record {
      src_shard = some src;
      dst_root_shard = none;
      dst_leaf_shards = targets root n r i;
    }
    else record {
      src_shard = none;
      dst_root_shard = some (root + r - pow2 i);
      dst_leaf_shards = targets root n r i;
    }

even_config-tree :
    (src root n r i : ℕ) → even_config src root n r r (pow2 i) ≡ some (tree_config src root n r i)
unfolding even_config
even_config-tree src root n r i = rw (leaf_loop-targets i root n r) (ground arith)

-- The configuration that a rank gets, and the split that it stands for.
pub record Config (src root n r : ℕ) : Type 0 where
  pub k : ℕ
  pub i : ℕ
  pub c : ℕ
  pub enough : n ≤ pow2 k
  pub least : half_pow2 k < n
  pub split : IsSplit k r i c
  pub result : get_target_config src root n r ≡ some (tree_config src root n r i)

odd_config :
    (src root n r : ℕ)
    → r % 2 == 1 ≡ true
    → get_target_config src root n r ≡ some (tree_config src root n r 0)
unfolding get_target_config below_rank
odd_config src root n r odd = ground arith

-- Every rank of a tree gets a configuration: that of the greatest power of two that divides it, or,
-- for the root, of the least power of two that is not below the number of ranks.
pub Config-total : (src root n r : ℕ) → r < n → Config src root n r
Config-total src root n r h = elim (Bool-cases (r % 2 == 1)) [
  | inl odd ↦ record {
    k = power.0;
    i = 0;
    c = r;
    enough = power.2;
    least = least power.0 power.3;
    split = record { multiple = omega arith; last = inr (ground arith); small = omega arith };
    result = odd_config src root n r odd;
  }
  | inr even ↦
      let found = split-Found power.0 r (omega (arith, power.2)) in
      record {
        k = power.0;
        i = found.i;
        c = found.c;
        enough = power.2;
        least = least power.0 power.3;
        split = found.split;
        result = even_result even found;
      }
]
  where
    power :
        (k : ℕ) × (power_loop (n + 1) n (pow2 0) ≡ some (pow2 k))
        × (n ≤ pow2 k)
        × ((k ≡ 0) ⊎ (half_pow2 k < n))
    power = power_loop-pow2 (n + 1) n 0 (omega arith) (omega arith)

    least : (k : ℕ) → (k ≡ 0) ⊎ (half_pow2 k < n) → half_pow2 k < n
    least k (inl e) = rw e (omega arith)
    least k (inr l) = l

    even_result :
        r % 2 == 1 ≡ false
        → (found : Found power.0 r (split_loop (pow2 power.0 + 1) r 0 (pow2 power.0)))
        → get_target_config src root n r ≡ some (tree_config src root n r found.i)
    even_result even found =
        unfold get_target_config in
        rw (even, power.1, found.result) (even_config-tree src root n r found.i)
