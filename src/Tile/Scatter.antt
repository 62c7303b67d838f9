-- ===== src/Tile/Scatter.antt =====
-- A loop that writes one value at each place of a list of places.
use zuku.Base.{
  ℕ, zero, suc, ◌*◌, ◌<◌, ◌≡◌, refl, sym, ap, ◌∙◌, ◌≢◌, List, [], ◌∷◌, arith, length, get_or, set,
  length-set, get_or-set_self, get_or-set_ne, product, product-set,
}

module _ {ℓ} {A : Type ℓ} where
  unfoldable pub scatter : List ℕ → List A → List A → List A
  scatter [] vs xs = xs
  scatter (p ∷ ps) [] xs = xs
  scatter (p ∷ ps) (v ∷ vs) xs = scatter ps vs (set xs p v)

  pub length-scatter : (ps : List ℕ) (vs xs : List A) → length (scatter ps vs xs) ≡ length xs
  unfolding scatter
  length-scatter [] vs xs = refl
  length-scatter (p ∷ ps) [] xs = refl
  length-scatter (p ∷ ps) (v ∷ vs) xs = length-scatter ps vs (set xs p v) ∙ length-set xs p v

  -- A place that is not written keeps its value.
  scatter_skip :
      (ps : List ℕ) (vs xs : List A) (q : ℕ) (d : A)
      → ((i : ℕ) → i < length ps → get_or ps i 0 ≢ q)
      → get_or (scatter ps vs xs) q d ≡ get_or xs q d
  unfolding scatter
  scatter_skip [] vs xs q d h = refl
  scatter_skip (p ∷ ps) [] xs q d h = refl
  scatter_skip (p ∷ ps) (v ∷ vs) xs q d h =
      scatter_skip ps vs (set xs p v) q d (λ i lt. h (suc i) (omega arith))
      ∙ get_or-set_ne xs p q v d (h 0 (omega arith))

  -- A place that is written once holds what was written.
  pub scatter_hit :
      (ps : List ℕ) (vs xs : List A) (i : ℕ) (d : A)
      → i < length ps
      → length vs ≡ length ps
      → get_or ps i 0 < length xs
      → ((j : ℕ) → j < length ps → i ≢ j → get_or ps j 0 ≢ get_or ps i 0)
      → get_or (scatter ps vs xs) (get_or ps i 0) d ≡ get_or vs i d
  unfolding scatter
  scatter_hit [] vs xs i d h e r ne = absurd (omega arith)
  scatter_hit (p ∷ ps) [] xs i d h e r ne = absurd (omega arith)
  scatter_hit (p ∷ ps) (v ∷ vs) xs zero d h e r ne =
      scatter_skip ps vs (set xs p v) p d (λ j lt. ne (suc j) (omega arith) (omega arith))
      ∙ get_or-set_self xs p v d r
  scatter_hit (p ∷ ps) (v ∷ vs) xs (suc i) d h e r ne =
      scatter_hit ps vs (set xs p v) i d (omega arith) (omega arith)
        (omega (arith, length-set xs p v)) (λ j lt n. ne (suc j) (omega arith) (omega arith))

-- Writing every value once into a vector that holds 1 there multiplies the products.
pub product-scatter :
    (ps vs xs : List ℕ)
    → length vs ≡ length ps
    → ((i : ℕ) → i < length ps → (get_or ps i 0 < length xs) × (get_or xs (get_or ps i 0) 0 ≡ 1))
    → ((i j : ℕ) → i < length ps → j < length ps → i ≢ j → get_or ps j 0 ≢ get_or ps i 0)
    → product (scatter ps vs xs) ≡ product vs * product xs
unfolding scatter
product-scatter [] [] xs e one ne = omega arith
product-scatter [] (v ∷ vs) xs e one ne = absurd (omega arith)
product-scatter (p ∷ ps) [] xs e one ne = absurd (omega arith)
product-scatter (p ∷ ps) (v ∷ vs) xs e one ne =
    product-scatter ps vs (set xs p v) (omega arith)
      (λ i lt. (
        omega (arith, length-set xs p v, (one (suc i) (omega arith)).0),
        get_or-set_ne xs p (get_or ps i 0) v 0
              (λ c. ne 0 (suc i) (omega arith) (omega arith) (omega arith) (sym c))
            ∙ (one (suc i) (omega arith)).1,
      ))
      (λ i j li lj n. ne (suc i) (suc j) (omega arith) (omega arith) (omega arith))
    ∙ ap (λ t. product vs * t) (product-set xs p v (one 0 (omega arith)).0 (one 0 (omega arith)).1)
    ∙ regroup (product vs) v (product xs)
  where
    regroup : (a b c : ℕ) → a * (b * c) ≡ b * a * c
    regroup a b c = omega arith
