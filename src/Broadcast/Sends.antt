-- ===== src/Broadcast/Sends.antt =====
-- Who sends to whom in a broadcast tree: `GetTargetConfig` in src/zuku/reshard_broadcast.cc.
use zuku.Base.{
  ℕ, zero, suc, ◌+◌, ◌-◌, ◌*◌, ◌%◌, ◌≤◌, ◌<◌, ◌≡◌, sym, ap, ◌∙◌, subst, ◌⊎◌, inl, inr, none, some,
  arith, ltb, ltb→lt, lt→ltb, Bool-cases,
}
use zuku.Broadcast.{TargetConfig, get_target_config}
use zuku.Broadcast.Split.{pow2, pow2_pos, IsSplit, pow2_unique, half_pow2, pow2_multiple, pow2_mono}
use zuku.Broadcast.Leaves.{targets, below_rank, below_rank-intro, below_rank-elim, Target}
use zuku.Broadcast.Tree.{Config, Config-total, tree_config}

-- Rank `r` sends to a shard.
pub record Sends (src root n r t : ℕ) : Type 0 where
  pub config : TargetConfig
  pub result : get_target_config src root n r ≡ some config
  pub target : Target t config.dst_leaf_shards

-- Rank `r` receives from a destination shard, and not from the source.
pub record Receives (src root n r p : ℕ) : Type 0 where
  pub config : TargetConfig
  pub result : get_target_config src root n r ≡ some config
  pub root_shard : config.dst_root_shard ≡ some p
  pub no_source : config.src_shard ≡ none

pub targets-tree :
    (src root n r i : ℕ) → (tree_config src root n r i).dst_leaf_shards ≡ targets root n r i
targets-tree src root n r i = ground arith

pub split_power :
    (r i c k i' c' : ℕ) → 0 < r → r ≡ c * pow2 i → c % 2 ≡ 1 → IsSplit k r i' c' → i' ≡ i
split_power r i c k i' c' pos e odd s = go s.last
  where
    go : ((i' ≡ k) × (c' ≡ 0)) ⊎ (c' % 2 ≡ 1) → i' ≡ i
    go (inl (at_root, none_left)) =
        let zero_rank : r ≡ 0 * pow2 i' = rw (← none_left) s.multiple in absurd (omega arith)
    go (inr odd') = (pow2_unique i' i c' c odd' odd (sym s.multiple ∙ e)).0

pub odd-le : (c p : ℕ) → c % 2 ≡ 1 → p ≤ c * p
odd-le zero p h = absurd (omega arith)
odd-le (suc c) p h = grind arith

-- A rank that is an odd multiple of `pow2 i` receives from the rank `pow2 i` before it.
pub Receives-split :
    (src root n r i c : ℕ)
    → r < n
    → 0 < r
    → r ≡ c * pow2 i
    → c % 2 ≡ 1
    → Receives src root n r (root + (r - pow2 i))
Receives-split src root n r i c h pos e odd = record {
  config = tree_config src root n r f.i;
  result = f.result;
  root_shard = shard f.i (split_power r i c f.k f.i f.c pos e odd f.split);
  no_source = ground arith;
}
  where
    f : Config src root n r
    f = Config-total src root n r h

    shard :
        (i' : ℕ)
        → i' ≡ i
        → (tree_config src root n r i').dst_root_shard ≡ some (root + (r - pow2 i))
    shard i' same = rw same (ground (arith, odd-le c (pow2 i) odd))

pub pow2-le-half : (j i : ℕ) → j < i → pow2 j ≤ half_pow2 i
pow2-le-half j zero h = absurd (omega arith)
pow2-le-half j (suc i) h = pow2_mono j i (omega arith)

-- The rank that lies a smaller power after a multiple of a power of two is an odd multiple.
odd_after :
    (r i c j : ℕ) → r ≡ c * pow2 i → j < i → (d : ℕ) × (d % 2 ≡ 1) × (r + pow2 j ≡ d * pow2 j)
odd_after r i c j e h =
    let m = pow2_multiple j i h in
    (2 * (c * m.0) + 1, omega arith, rw (e, m.2) (regroup c m.0 (pow2 j)))
  where
    regroup : (c m p : ℕ) → c * (2 * m * p) + p ≡ (2 * (c * m) + 1) * p
    regroup c m p = omega arith

-- What the targets of a rank are.
pub Sends-Target :
    (src root n r t : ℕ) (f : Config src root n r)
    → Sends src root n r t
    → Target t (targets root n r f.i)
Sends-Target src root n r t f s =
    let e : s.config ≡ tree_config src root n r f.i = cc (sym s.result ∙ f.result) in
    subst (Target t)
      (ap (λ (x : TargetConfig). x.dst_leaf_shards) e ∙ targets-tree src root n r f.i) s.target

-- If rank `r` of a tree sends to a shard, that is the shard of a later rank of the tree, which
-- receives from rank `r` and from nowhere else.
pub Sends-Receives :
    (src root n r t : ℕ)
    → r < n
    → Sends src root n r t
    → (r' : ℕ) × (r < r') × (r' < n) × (t ≡ root + r') × Receives src root n r' (root + r)
Sends-Receives src root n r t h s = elim (Bool-cases (ltb (r + half_pow2 f.i) n)) [
  | inl more ↦
      let found = below_rank-elim (root + r) f.i t (rw more at (Sends-Target src root n r t f s)) in
      later found.0 found.1 found.2 (ltb→lt _ _ more)
  | inr out ↦ absurd (rw out at (Sends-Target src root n r t f s))
]
  where
    f : Config src root n r
    f = Config-total src root n r h

    later :
        (j : ℕ)
        → j < f.i
        → t ≡ root + r + pow2 j
        → r + half_pow2 f.i < n
        → (r' : ℕ) × (r < r') × (r' < n) × (t ≡ root + r') × Receives src root n r' (root + r)
    later j lt e more =
        let odd = odd_after r f.i f.c j f.split.multiple lt in
        let below : r + pow2 j < n = omega (arith, pow2-le-half j f.i lt) in
        (
          r + pow2 j,
          omega (arith, pow2_pos j),
          below,
          omega arith,
          subst (λ p. Receives src root n (r + pow2 j) (root + p)) (omega arith)
              (Receives-split src root n (r + pow2 j) j odd.0 below (omega (arith, pow2_pos j))
                odd.2 odd.1),
        )

-- A rank with its first target in range sends to every rank a smaller power after it.
pub Sends-after :
    (src root n r j : ℕ) (f : Config src root n r)
    → j < f.i
    → r + half_pow2 f.i < n
    → Sends src root n r (root + (r + pow2 j))
Sends-after src root n r j f lt more = record {
  config = tree_config src root n r f.i;
  result = f.result;
  target = subst (Target (root + (r + pow2 j))) (sym (targets-tree src root n r f.i)) (
      rw (lt→ltb _ _ more) (
        subst (λ t. Target t (below_rank (root + r) f.i)) (omega arith)
          (below_rank-intro (root + r) f.i j lt)));
}
