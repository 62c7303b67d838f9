-- ===== src/Broadcast/Receives.antt =====
-- Whether what a rank of a broadcast tree waits for is sent: `GetTargetConfig` in
-- src/zuku/reshard_broadcast.cc.
use zuku.Base.{
  ℕ, zero, suc, ◌+◌, ◌-◌, ◌*◌, ◌/◌, ◌%◌, ◌≤◌, ◌<◌, ◌≡◌, sym, ap, ◌∙◌, subst, ◌⊎◌, inl, inr, false,
  none, some, arith, ltb, ◌==◌, Bool-cases,
}
use native.Mathlib.Decide.{dec_lt}
use zuku.Broadcast.{TargetConfig}
use zuku.Broadcast.Split.{pow2, pow2_pos, half_pow2, pow2_divides, pow2_multiple, pow2_mono}
use zuku.Broadcast.Leaves.{half_pow2_lem}
use zuku.Broadcast.Tree.{Config, Config-total, tree_config}
use zuku.Broadcast.Sends.{
  Sends, Receives, odd-le, split_power, Sends-after, Sends-Target, Receives-split,
}

-- The two parts of a configuration that a receiving rank reads.
received :
    (src root n r' p i : ℕ) (config : TargetConfig)
    → config ≡ tree_config src root n r' i
    → config.dst_root_shard ≡ some p
    → config.src_shard ≡ none
    → (0 < r') × (p ≡ root + r' - pow2 i)
received src root n r' p i config e d s = elim (Bool-cases (r' == 0)) [
  | inl z ↦ let w : none ≡ some src = sym s ∙ ap (λ (x : TargetConfig). x.src_shard) e ∙ rw z in cc
  | inr nz ↦
      let w : some p ≡ some (root + r' - pow2 i) =
        sym d ∙ ap (λ (x : TargetConfig). x.dst_root_shard) e ∙ rw nz in
      (ground arith, cc w)
]

halve : (c p r' : ℕ) → c % 2 ≡ 1 → r' ≡ c * p → r' - p ≡ c / 2 * (2 * p)
halve c p r' h e =
    let two : c ≡ 2 * (c / 2) + 1 = omega arith in
    ap (λ t. t - p) (e ∙ ap (λ t. t * p) two) ∙ step (c / 2)
  where
    step : (d : ℕ) → (2 * d + 1) * p - p ≡ d * (2 * p)
    step d = omega arith

-- The rank that a rank receives from: its split is a greater power.
parent_greater :
    (src root n r' j c : ℕ)
    → r' < n
    → c % 2 ≡ 1
    → r' ≡ c * pow2 j
    → (f : Config src root n (r' - pow2 j)) → j < f.i
parent_greater src root n r' j c h odd e f = go f.split.last
  where
    go : ((f.i ≡ f.k) × (f.c ≡ 0)) ⊎ (f.c % 2 ≡ 1) → j < f.i
    go (inl (at_root, none_left)) = elim (dec_lt j f.i) [
      | yes lt ↦ lt
      | no ge ↦ absurd (
          omega (
            arith,
            pow2_mono f.i j (omega arith),
            ap pow2 at_root,
            f.enough,
            odd-le c (pow2 j) odd,
          ))
    ]
    go (inr odd') =
        pow2_divides f.i j f.c (c / 2) odd' (sym f.split.multiple ∙ halve c (pow2 j) r' odd e)

-- A rank that receives from another rank: who that is.
record Parent (src root n r' p : ℕ) : Type 0 where
  j : ℕ
  c : ℕ
  odd : c % 2 ≡ 1
  multiple : r' ≡ c * pow2 j
  shard : p ≡ root + (r' - pow2 j)

parent : (src root n r' p : ℕ) → r' < n → Receives src root n r' p → Parent src root n r' p
parent src root n r' p h v = go f.split.last
  where
    f : Config src root n r'
    f = Config-total src root n r' h

    same : v.config ≡ tree_config src root n r' f.i
    same = cc (sym v.result ∙ f.result)

    facts : (0 < r') × (p ≡ root + r' - pow2 f.i)
    facts = received src root n r' p f.i v.config same v.root_shard v.no_source

    go : ((f.i ≡ f.k) × (f.c ≡ 0)) ⊎ (f.c % 2 ≡ 1) → Parent src root n r' p
    go (inl (at_root, none_left)) =
        let zero_rank : r' ≡ 0 * pow2 f.i = rw (← none_left) f.split.multiple in
        absurd (omega (arith, facts.0))
    go (inr odd) = record {
      j = f.i;
      c = f.c;
      odd = odd;
      multiple = f.split.multiple;
      shard = omega (arith, facts.1, f.split.multiple, odd-le f.c (pow2 f.i) odd);
    }

half-lt : (i : ℕ) → half_pow2 i < pow2 i
half-lt zero = omega arith
half-lt (suc i) = omega (arith, pow2_pos i)

-- In a tree of `pow2 k` ranks every rank has its first target in range.
full_tree :
    (src root k r : ℕ) → r < pow2 k → (f : Config src root (pow2 k) r) → r + half_pow2 f.i < pow2 k
full_tree src root k r h f = go f.split.last
  where
    times : (a b p : ℕ) → a ≤ b → a * p ≤ b * p
    times a b p le = grind arith

    fits : (c q p half : ℕ) → half < p → c * p < q * p → c * p + half < q * p
    fits c q p half lt below = elim (dec_lt c q) [
      | yes less ↦ let above : (c + 1) * p ≤ q * p = times (c + 1) q p (omega arith) in omega arith
      | no more ↦ let over : q * p ≤ c * p = times q c p (omega arith) in absurd (omega arith)
    ]

    go : ((f.i ≡ f.k) × (f.c ≡ 0)) ⊎ (f.c % 2 ≡ 1) → r + half_pow2 f.i < pow2 k
    go (inl (at_root, none_left)) =
        let zero_rank : r ≡ 0 * pow2 f.i = rw (← none_left) f.split.multiple in
        omega (arith, ap half_pow2 at_root, f.least)
    go (inr odd) = elim (dec_lt f.i k) [
      | yes lt ↦
          let m = pow2_multiple f.i k lt in
          omega (
            arith,
            f.split.multiple,
            m.2,
            fits f.c (2 * m.0) (pow2 f.i) (half_pow2 f.i) (half-lt f.i)
                (omega (arith, m.2, f.split.multiple)),
          )
      | no ge ↦ absurd (
          omega (arith, pow2_mono k f.i (omega arith), odd-le f.c (pow2 f.i) odd, f.split.multiple))
    ]

-- If the number of ranks is a power of two, every rank that receives from another receives from an
-- earlier rank of its tree, which sends to it.
pub Receives-Sends :
    (src root k r' p : ℕ)
    → r' < pow2 k
    → Receives src root (pow2 k) r' p
    → (r : ℕ) × (r < r') × (p ≡ root + r) × Sends src root (pow2 k) r (root + r')
Receives-Sends src root k r' p h v =
    let a = parent src root (pow2 k) r' p h v in
    let le : pow2 a.j ≤ r' = omega (arith, odd-le a.c (pow2 a.j) a.odd, a.multiple) in
    let below : r' - pow2 a.j < pow2 k = omega arith in
    let f = Config-total src root (pow2 k) (r' - pow2 a.j) below in
    (
      r' - pow2 a.j,
      omega (arith, pow2_pos a.j),
      a.shard,
      subst (λ t. Sends src root (pow2 k) (r' - pow2 a.j) (root + t)) (omega arith)
          (Sends-after src root (pow2 k) (r' - pow2 a.j) a.j f
            (parent_greater src root (pow2 k) r' a.j a.c h a.odd a.multiple f)
            (full_tree src root k _ below f)),
    )

-- The defect: if an even rank is an odd multiple of `pow2 i`, has a later rank in its tree, and has none
-- `pow2 i / 2` after it, it sends to nobody, and the next rank still waits for it.
pub lost_rank :
    (src root n r i c : ℕ)
    → 0 < i
    → c % 2 ≡ 1
    → r ≡ c * pow2 i
    → r + 1 < n
    → n ≤ r + pow2 i / 2
    → ((t : ℕ) → ¬ Sends src root n r t) × Receives src root n (r + 1) (root + r)
lost_rank src root n r i c pos odd e next short = (none_sent, waits)
  where
    present : 0 < r
    present = omega (arith, odd-le c (pow2 i) odd, pow2_pos i)

    f : Config src root n r
    f = Config-total src root n r (omega arith)

    none_sent : (t : ℕ) → ¬ Sends src root n r t
    none_sent t s =
        let same : f.i ≡ i = split_power r i c f.k f.i f.c present e odd f.split in
        let out : ltb (r + half_pow2 f.i) n ≡ false =
          too_far (omega (arith, ap half_pow2 same, half_pow2_lem i)) in
        rw out at (Sends-Target src root n r t f s)
      where
        too_far : n ≤ r + half_pow2 f.i → ltb (r + half_pow2 f.i) n ≡ false
        too_far h = ground arith

    odd_next : (i : ℕ) → 0 < i → r ≡ c * pow2 i → (r + 1) % 2 ≡ 1
    odd_next zero p e = absurd (omega arith)
    odd_next (suc i) p e = parity (c * pow2 i) (e ∙ regroup c (pow2 i))
      where
        regroup : (c p : ℕ) → c * (2 * p) ≡ 2 * (c * p)
        regroup c p = omega arith

        parity : (m : ℕ) → r ≡ 2 * m → (r + 1) % 2 ≡ 1
        parity m e = omega arith

    waits : Receives src root n (r + 1) (root + r)
    waits =
        subst (λ q. Receives src root n (r + 1) (root + q)) (omega arith)
          (Receives-split src root n (r + 1) 0 (r + 1) next (omega arith) (omega arith)
            (odd_next i pos e))
