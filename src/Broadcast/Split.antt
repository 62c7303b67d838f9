-- ===== src/Broadcast/Split.antt =====
-- The powers of two that the broadcast tree is cut by, and the split that a rank ends with.
use zuku.Base.{
  ℕ, zero, suc, ◌+◌, ◌-◌, ◌*◌, ◌/◌, ◌%◌, ◌≤◌, ◌<◌, ◌≡◌, refl, sym, ap, ap₂, ◌∙◌, subst, ◌⊎◌, inl,
  inr, Option, some, arith, ltb, ltb→lt, Bool-cases,
}
use native.Mathlib.Decide.{ℕ_discrete}
use zuku.Broadcast.{power_loop, split_loop}

abbrev pub pow2 : ℕ → ℕ
pow2 zero = 1
pow2 (suc j) = 2 * pow2 j

pub pow2_pos : (j : ℕ) → 0 < pow2 j
pow2_pos zero = omega arith
pow2_pos (suc j) = omega (arith, pow2_pos j)

pub lt-pow2 : (j : ℕ) → j < pow2 j
lt-pow2 zero = omega arith
lt-pow2 (suc j) = omega (arith, lt-pow2 j)

-- The half of a power of two: the next one, and 0 of the last.
abbrev pub half_pow2 : ℕ → ℕ
half_pow2 zero = 0
half_pow2 (suc i) = pow2 i

-- With fuel for the distance, the loop ends at a power of two that is not below the leaves, and
-- whose half is, unless it ends where it began.
pub power_loop-pow2 :
    (fuel n i : ℕ)
    → 0 < fuel
    → n < pow2 i + fuel
    → (k : ℕ) × (power_loop fuel n (pow2 i) ≡ some (pow2 k))
      × (n ≤ pow2 k)
      × ((k ≡ i) ⊎ (half_pow2 k < n))
unfolding power_loop
power_loop-pow2 zero n i f h = absurd (omega arith)
power_loop-pow2 (suc fuel) n i f h = elim (Bool-cases (ltb (pow2 i) n)) [
  | inl more ↦
      let below : pow2 i < n = ltb→lt _ _ more in
      let twice : pow2 i * 2 ≡ pow2 (suc i) = omega arith in
      let found = power_loop-pow2 fuel n (suc i) (omega arith) (omega (arith, pow2_pos i)) in
      (found.0, rw (more, twice) found.1, found.2, inr (halved i found.0 below found.3))
  | inr done ↦ (i, rw done, ground arith, inl refl)
]
  where
    halved : (i k : ℕ) → pow2 i < n → (k ≡ suc i) ⊎ (half_pow2 k < n) → half_pow2 k < n
    halved i k b (inl e) = rw e b
    halved i k b (inr h) = h

-- A number is a multiple of a power of two: an odd one, or the power is the one that the search
-- began with.
pub record IsSplit (k r i c : ℕ) : Type 0 where
  pub multiple : r ≡ c * pow2 i
  pub last : ((i ≡ k) × (c ≡ 0)) ⊎ (c % 2 ≡ 1)
  pub small : i ≤ k

module _ (fuel r start size : ℕ) where
  split_stop : start ≡ r → split_loop (suc fuel) r start size ≡ some (r, size)
  unfolding split_loop
  split_stop e = ground arith

  split_up :
      start < r
      → split_loop (suc fuel) r start size ≡ split_loop fuel r (start + size / 2) (size / 2)
  unfolding split_loop
  split_up h = ground arith

  split_down :
      r < start
      → split_loop (suc fuel) r start size ≡ split_loop fuel r (start - size / 2) (size / 2)
  unfolding split_loop
  split_down h = ground arith

-- A rank that the search stands at, goes up for, or goes down for.
three_way : (a b : ℕ) → (a ≡ b) ⊎ ((a < b) ⊎ (b < a))
three_way a b = grind arith

-- How a split that was found for a smaller power counts for a greater one.
pub record Found (k r : ℕ) (run : Option (ℕ × ℕ)) : Type 0 where
  pub i : ℕ
  pub c : ℕ
  pub result : run ≡ some (r, pow2 i)
  pub split : IsSplit k r i c

-- The search from a multiple of a power of two that is less than the power away from the rank.
split_from :
    (k j a fuel r : ℕ)
    → j < fuel
    → j ≤ k
    → r < a * pow2 j + pow2 j
    → a * pow2 j < r + pow2 j
    → ((j ≡ k) × (a ≡ 0)) ⊎ (a % 2 ≡ 1)
    → Found k r (split_loop fuel r (a * pow2 j) (pow2 j))
split_from k j a zero r f hk lo hi s = absurd (omega arith)
split_from k zero a (suc fuel) r f hk lo hi s =
    let e : a * pow2 0 ≡ r = omega arith in
    record {
      i = 0;
      c = a;
      result = split_stop fuel r (a * pow2 0) (pow2 0) e;
      split = record { multiple = sym e; last = s; small = omega arith };
    }
split_from k (suc j) a (suc fuel) r f hk lo hi s = elim (three_way (a * pow2 (suc j)) r) [
  | inl e ↦ record {
    i = suc j;
    c = a;
    result = split_stop fuel r _ _ e;
    split = record { multiple = sym e; last = s; small = hk };
  }
  | inr (inl up) ↦
      subst (Found k r)
        (sym
          (split_up fuel r _ _ up ∙ ap₂ (split_loop fuel r) (up_start a (pow2 j)) (half (pow2 j))))
        (split_from k j (2 * a + 1) fuel r (omega arith) (omega arith) (omega arith) (omega arith)
          (inr (omega arith)))
  | inr (inr down) ↦
      let pos : 0 < a = positive a (pow2 (suc j)) r down in
      subst (Found k r)
        (sym (
          split_down fuel r _ _ down
          ∙ ap₂ (split_loop fuel r) (down_start a (pow2 j) pos) (half (pow2 j))))
        (split_from k j (2 * (a - 1) + 1) fuel r (omega arith) (omega arith)
          (low (a - 1) (pow2 j) r (subst (λ t. r < t * (2 * pow2 j)) (above a pos) down))
          (high (a - 1) (pow2 j) r
            (subst (λ t. t * (2 * pow2 j) < r + 2 * pow2 j) (above a pos) hi))
          (inr (omega arith)))
]
  where
    half : (p : ℕ) → 2 * p / 2 ≡ p
    half p = omega arith

    up_start : (a p : ℕ) → a * (2 * p) + 2 * p / 2 ≡ (2 * a + 1) * p
    up_start a p = omega arith

    positive : (a p r : ℕ) → r < a * p → 0 < a
    positive zero p r h = absurd (omega arith)
    positive (suc a) p r h = omega arith

    above : (a : ℕ) → 0 < a → a ≡ a - 1 + 1
    above a h = omega arith

    down_step : (b p : ℕ) → (b + 1) * (2 * p) - 2 * p / 2 ≡ (2 * b + 1) * p
    down_step b p = omega arith

    down_start : (a p : ℕ) → 0 < a → a * (2 * p) - 2 * p / 2 ≡ (2 * (a - 1) + 1) * p
    down_start a p h = ap (λ t. t * (2 * p) - 2 * p / 2) (above a h) ∙ down_step (a - 1) p

    low : (b p r : ℕ) → r < (b + 1) * (2 * p) → r < (2 * b + 1) * p + p
    low b p r h = omega arith

    high : (b p r : ℕ) → (b + 1) * (2 * p) < r + 2 * p → (2 * b + 1) * p < r + p
    high b p r h = omega arith

-- With the root's power above it, a rank ends at an odd multiple of a power of two, and rank 0 where
-- it began.
pub split-Found : (k r : ℕ) → r < pow2 k → Found k r (split_loop (pow2 k + 1) r 0 (pow2 k))
split-Found k r h =
    subst (λ start. Found k r (split_loop (pow2 k + 1) r start (pow2 k))) none_left
      (split_from k k 0 (pow2 k + 1) r (omega (arith, lt-pow2 k)) (omega arith) (omega arith)
        (omega arith) (inl (refl, refl)))
  where
    none_left : 0 * pow2 k ≡ 0
    none_left = omega arith

odd_even : (c d p : ℕ) → c % 2 ≡ 1 → c * 1 ≡ d * (2 * p) → ⊥
odd_even c d p h e = parity (d * p) (e ∙ regroup)
  where
    regroup : d * (2 * p) ≡ 2 * (d * p)
    regroup = omega arith

    parity : (m : ℕ) → c * 1 ≡ 2 * m → ⊥
    parity m e = omega arith

-- The odd multiple of a power of two that a number is determines the power.
pub pow2_unique :
    (i j c d : ℕ) → c % 2 ≡ 1 → d % 2 ≡ 1 → c * pow2 i ≡ d * pow2 j → (i ≡ j) × (c ≡ d)
pow2_unique zero zero c d hc hd e = (refl, omega arith)
pow2_unique zero (suc j) c d hc hd e = absurd (odd_even c d (pow2 j) hc e)
pow2_unique (suc i) zero c d hc hd e = absurd (odd_even d c (pow2 i) hd (sym e))
pow2_unique (suc i) (suc j) c d hc hd e =
    let rest = pow2_unique i j c d hc hd (omega arith) in (ap suc rest.0, rest.1)

-- An odd multiple of a power of two is divided by a greater power only.
pub pow2_divides : (i j c d : ℕ) → c % 2 ≡ 1 → c * pow2 i ≡ d * pow2 (suc j) → j < i
pow2_divides zero j c d hc e = absurd (odd_even c d (pow2 j) hc e)
pow2_divides (suc i) zero c d hc e = omega arith
pow2_divides (suc i) (suc j) c d hc e = omega (arith, pow2_divides i j c d hc (omega arith))

-- A greater power of two is an even multiple of a smaller one.
pub pow2_multiple : (j i : ℕ) → j < i → (m : ℕ) × (0 < m) × (pow2 i ≡ 2 * m * pow2 j)
pow2_multiple j zero h = absurd (omega arith)
pow2_multiple j (suc i) h = elim (ℕ_discrete j i) [
  | yes e ↦ (1, omega arith, rw e (omega arith))
  | no ne ↦
      let m = pow2_multiple j i (omega arith) in (2 * m.0, omega (arith, m.1), omega (arith, m.2))
]

pub pow2_mono : (j i : ℕ) → j ≤ i → pow2 j ≤ pow2 i
pow2_mono j zero h = rw (zero_of j h) (omega arith)
  where
    zero_of : (j : ℕ) → j ≤ 0 → j ≡ 0
    zero_of j h = omega arith
pow2_mono j (suc i) h = elim (ℕ_discrete j (suc i)) [
  | yes e ↦ rw e (omega arith)
  | no ne ↦ omega (arith, pow2_mono j i (omega arith))
]
