-- ===== src/Queues.antt =====
-- A map from keys to queues, as `std::unordered_map<Key, std::queue<Value>>`, whose keys are compared by
-- a Boolean test.
use zuku.Base.{
  ◌≡◌, refl, sym, ◌∙◌, ◌⊎◌, inl, inr, Bool, true, false, List, [], ◌∷◌, if◌then◌else◌, Bool-cases,
}

-- The test holds exactly for the keys with the same identity.
pub record IsSame {K A : Type 0} (same : K → K → Bool) (identity : K → A) : Type 0 where
  pub sound : (i j : K) → same i j ≡ true → identity i ≡ identity j
  pub complete : (i j : K) → identity i ≡ identity j → same i j ≡ true

abbrev pub Queues : Type 0 → Type 0 → Type 0
Queues K V = List (K × List V)

module _ {K A : Type 0} (same : K → K → Bool) (identity : K → A) (s : IsSame same identity) where
  pub same-cong : (i j k : K) → same j k ≡ true → same i j ≡ same i k
  same-cong i j k e = elim (Bool-cases (same i j)) [
    | inl x ↦ x ∙ sym (s.complete i k (s.sound i j x ∙ s.sound j k e))
    | inr x ↦ elim (Bool-cases (same i k)) [
      | inl y ↦ absurd (cc (sym x ∙ s.complete i j (s.sound i k y ∙ sym (s.sound j k e))))
      | inr y ↦ x ∙ sym y
    ]
  ]

module _ {K V : Type 0} (same : K → K → Bool) where
  -- The queue of a key, empty if there is none.
  unfoldable pub find_queue : K → Queues K V → List V
  find_queue k [] = []
  find_queue k ((i, vs) ∷ q) = if same k i then vs else find_queue k q

  unfoldable pub put_queue : K → List V → Queues K V → Queues K V
  put_queue k ws [] = (k, ws) ∷ []
  put_queue k ws ((i, vs) ∷ q) = if same k i then (i, ws) ∷ q else (i, vs) ∷ put_queue k ws q

  module _ {A : Type 0} (identity : K → A) (s : IsSame same identity) where
    pub find-put :
        (j k : K) (ws : List V) (q : Queues K V)
        → find_queue j (put_queue k ws q) ≡ (if same j k then ws else find_queue j q)
    unfolding find_queue put_queue
    find-put j k ws [] = refl
    find-put j k ws ((i, vs) ∷ q) = elim (Bool-cases (same k i)) [
      | inl here ↦ rw (here, same-cong same identity s j k i here) (merged (same j i))
      | inr there ↦
          rw (there, find-put j k ws q)
            (swapped (Bool-cases (same j i)) (Bool-cases (same j k)) there)
    ]
      where
        merged :
            (b : Bool)
            → (if b then ws else find_queue j q)
              ≡ (if b then ws else (if b then vs else find_queue j q))
        merged true = refl
        merged false = refl

        swapped :
            (same j i ≡ true) ⊎ (same j i ≡ false)
            → (same j k ≡ true) ⊎ (same j k ≡ false)
            → same k i ≡ false
            → (if same j i then vs else (if same j k then ws else find_queue j q))
              ≡ (if same j k then ws else (if same j i then vs else find_queue j q))
        swapped (inl x) (inl y) there =
            absurd (cc (sym there ∙ s.complete k i (sym (s.sound j k y) ∙ s.sound j i x)))
        swapped (inl x) (inr y) there = rw (x, y) refl
        swapped (inr x) y there = rw x refl
