-- ===== src/Broadcast/Leaves.antt =====
-- The targets that a rank sends to: all the ranks below it in its tree, or none of them.
use zuku.Base.{
  ℕ, zero, suc, ◌+◌, ◌-◌, ◌/◌, ◌≤◌, ◌<◌, ◌≡◌, refl, ap, ap₂, ◌∙◌, ◌⊎◌, inl, inr, some, List, [],
  ◌∷◌, arith, ltb, if◌then◌else◌, ltb→lt, Bool-cases,
}
use mathlib.Core.Option
use native.Mathlib.Decide.{ℕ_discrete}
use zuku.Broadcast.{leaf_loop}
use zuku.Broadcast.Split.{pow2, pow2_pos, lt-pow2, half_pow2}

-- `base + pow2 (i - 1)`, ..., `base + 2`, `base + 1`.
unfoldable pub below_rank : ℕ → ℕ → List ℕ
below_rank base zero = []
below_rank base (suc i) = (base + pow2 i) ∷ below_rank base i

module _ (fuel root n next size : ℕ) where
  leaf_more :
      next < n
      → 0 < size
      → leaf_loop (suc fuel) root n next size
        ≡ Option.map (◌∷◌ (root + next)) (leaf_loop fuel root n (next - size / 2) (size / 2))
  unfolding leaf_loop
  leaf_more h pos = ground arith

  leaf_stop : (n ≤ next) ⊎ (size ≡ 0) → leaf_loop (suc fuel) root n next size ≡ some []
  unfolding leaf_loop
  leaf_stop h = ground arith

pub half_pow2_lem : (i : ℕ) → pow2 i / 2 ≡ half_pow2 i
half_pow2_lem zero = refl
half_pow2_lem (suc i) = omega arith

half_mono : (i : ℕ) → half_pow2 i ≤ half_pow2 (suc i)
half_mono zero = omega arith
half_mono (suc i) = omega arith

le-half_pow2 : (i : ℕ) → i ≤ half_pow2 i
le-half_pow2 zero = omega arith
le-half_pow2 (suc i) = omega (arith, lt-pow2 i)

-- From a first target in range, the loop collects every rank below.
leaf_loop-all :
    (i fuel root n r next : ℕ)
    → i < fuel
    → (0 < i → next ≡ r + half_pow2 i)
    → (0 < i → r + half_pow2 i < n)
    → leaf_loop fuel root n next (half_pow2 i) ≡ some (below_rank (root + r) i)
unfolding below_rank
leaf_loop-all i zero root n r next f e h = absurd (omega arith)
leaf_loop-all zero (suc fuel) root n r next f e h = leaf_stop fuel root n next 0 (inr refl)
leaf_loop-all (suc i) (suc fuel) root n r next f e h =
    leaf_more fuel root n next (pow2 i) (omega (arith, h (omega arith), e (omega arith)))
      (pow2_pos i)
    ∙ ap₂ (λ m l. Option.map (◌∷◌ (root + m)) l) (e (omega arith))
        (ap (leaf_loop fuel root n (next - pow2 i / 2)) (half_pow2_lem i)
          ∙ leaf_loop-all i fuel root n r _ (omega arith) (step i (e (omega arith)))
              (λ p. omega (arith, half_mono i, h (omega arith))))
    ∙ ap (λ t. some (t ∷ below_rank (root + r) i)) (omega arith)
  where
    step : (i : ℕ) → next ≡ r + pow2 i → 0 < i → next - pow2 i / 2 ≡ r + half_pow2 i
    step zero e p = absurd (omega arith)
    step (suc i) e p = omega arith

-- What a rank at the split `pow2 i` sends to.
abbrev pub targets : ℕ → ℕ → ℕ → ℕ → List ℕ
targets root n r i = if ltb (r + half_pow2 i) n then below_rank (root + r) i else []

pub leaf_loop-targets :
    (i root n r : ℕ)
    → leaf_loop (pow2 i / 2 + 1) root n (r + pow2 i / 2) (pow2 i / 2) ≡ some (targets root n r i)
leaf_loop-targets i root n r =
    rw half_pow2_lem (ap (λ f. leaf_loop f root n (r + half_pow2 i) (half_pow2 i)) fuel ∙ cases)
  where
    fuel : half_pow2 i + 1 ≡ suc (half_pow2 i)
    fuel = omega arith

    cases :
        leaf_loop (suc (half_pow2 i)) root n (r + half_pow2 i) (half_pow2 i)
        ≡ some (targets root n r i)
    cases = elim (Bool-cases (ltb (r + half_pow2 i) n)) [
      | inl more ↦ rw more (
          leaf_loop-all i (suc (half_pow2 i)) root n r _ (omega (arith, le-half_pow2 i)) (λ p. refl)
            (λ p. ltb→lt _ _ more))
      | inr out ↦ rw out (leaf_stop (half_pow2 i) root n _ _ (inl (ground arith)))
    ]

-- A shard is among the targets.
abbrev pub Target : ℕ → List ℕ → Type 0
Target t [] = ⊥
Target t (x ∷ xs) = (t ≡ x) ⊎ Target t xs

-- The ranks below are those at the smaller powers of two.
pub below_rank-intro : (base i j : ℕ) → j < i → Target (base + pow2 j) (below_rank base i)
unfolding below_rank
below_rank-intro base zero j h = absurd (omega arith)
below_rank-intro base (suc i) j h = elim (ℕ_discrete j i) [
  | yes e ↦ inl (ap (λ k. base + pow2 k) e)
  | no ne ↦ inr (below_rank-intro base i j (omega arith))
]

pub below_rank-elim :
    (base i t : ℕ) → Target t (below_rank base i) → (j : ℕ) × (j < i) × (t ≡ base + pow2 j)
unfolding below_rank
below_rank-elim base zero t h = absurd h
below_rank-elim base (suc i) t (inl e) = (i, omega arith, e)
below_rank-elim base (suc i) t (inr h) =
    let (j, lt, e) = below_rank-elim base i t h in (j, omega arith, e)
