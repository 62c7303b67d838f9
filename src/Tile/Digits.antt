-- ===== src/Tile/Digits.antt =====
-- Mixed radix numbers: the digits that `ComputeTileIndex` takes off, and the number that digits
-- stand for.
use zuku.Base.{
  ℕ, zero, suc, ◌+◌, ◌-◌, ◌*◌, ◌/◌, ◌<◌, ◌≡◌, refl, ap, ap₂, ◌∙◌, List, [], ◌∷◌, arith, length,
  get_or, product, mul-div_cancel, div-lt,
}

-- The digits of a remainder, as the source divides them off.
unfoldable pub digits : List ℕ → ℕ → ℕ → List ℕ
digits [] stride remainder = []
digits (e ∷ es) stride remainder =
    let s = stride / e in (remainder / s) ∷ digits es s (remainder - remainder / s * s)

-- The number that digits stand for, the first digit most significant.
unfoldable pub value : List ℕ → List ℕ → ℕ
value [] ds = 0
value (e ∷ es) [] = 0
value (e ∷ es) (d ∷ ds) = d * product es + value es ds

-- Every digit is below its radix.
abbrev pub InRange : List ℕ → List ℕ → Type 0
InRange [] [] = Unit
InRange [] (d ∷ ds) = ⊥
InRange (e ∷ es) [] = ⊥
InRange (e ∷ es) (d ∷ ds) = (d < e) × InRange es ds

factor_pos : (r e p : ℕ) → r < e * p → (0 < e) × (0 < p)
factor_pos r zero p h = absurd (omega arith)
factor_pos r (suc e) zero h = absurd (grind arith)
factor_pos r (suc e) (suc p) h = (omega arith, omega arith)

sub_mul-mod : (r p : ℕ) → 0 < p → (r - r / p * p < p) × (r / p * p + (r - r / p * p) ≡ r)
sub_mul-mod r p h = (grind arith, grind arith)

digits_step :
    (e r : ℕ) (es : List ℕ)
    → 0 < e
    → digits (e ∷ es) (product (e ∷ es)) r
      ≡ (r / product es) ∷ digits es (product es) (r - r / product es * product es)
unfolding digits
digits_step e r es h = rw (mul-div_cancel e (product es) h)

-- The digits of a number below the product are in range and stand for the number.
pub value-digits :
    (es : List ℕ) (r : ℕ)
    → r < product es
    → InRange es (digits es (product es) r) × (value es (digits es (product es) r) ≡ r)
unfolding value
value-digits [] r h = unfold digits in (tt, omega arith)
value-digits (e ∷ es) r h =
    let pos : (0 < e) × (0 < product es) = factor_pos r e (product es) h in
    let cut : (r - r / product es * product es < product es)
        × (r / product es * product es + (r - r / product es * product es) ≡ r) =
      sub_mul-mod r (product es) pos.1 in
    let rest = value-digits es (r - r / product es * product es) cut.0 in
    rw (digits_step e r es pos.0) (
      (div-lt r e (product es) h, rest.0),
      ap (λ t. r / product es * product es + t) rest.1 ∙ cut.1,
    )

-- Digits in range stand for a number below the product.
pub value-lt : (es ds : List ℕ) → InRange es ds → value es ds < product es
unfolding value
value-lt [] [] h = omega arith
value-lt [] (d ∷ ds) h = absurd h
value-lt (e ∷ es) [] h = absurd h
value-lt (e ∷ es) (d ∷ ds) h = bound d e (product es) (value es ds) h.0 (value-lt es ds h.1)
  where
    bound : (d e p v : ℕ) → d < e → v < p → d * p + v < e * p
    bound d e p v hd hv = grind arith

quotient : (d p v : ℕ) → v < p → ((d * p + v) / p ≡ d) × (d * p + v - (d * p + v) / p * p ≡ v)
quotient d p v h = let q : (d * p + v) / p ≡ d = grind arith in (q, rw q (omega arith))

-- The digits of the number that digits in range stand for are those digits.
pub digits-value : (es ds : List ℕ) → InRange es ds → digits es (product es) (value es ds) ≡ ds
unfolding value
digits-value [] [] h = unfold digits in refl
digits-value [] (d ∷ ds) h = absurd h
digits-value (e ∷ es) [] h = absurd h
digits-value (e ∷ es) (d ∷ ds) h =
    let low = value-lt es ds h.1 in
    let q = quotient d (product es) (value es ds) low in
    digits_step e (value (e ∷ es) (d ∷ ds)) es (omega arith)
    ∙ ap₂ ◌∷◌ q.0 (ap (digits es (product es)) q.1 ∙ digits-value es ds h.1)

pub length-digits : (es : List ℕ) (s r : ℕ) → length (digits es s r) ≡ length es
unfolding digits
length-digits [] s r = refl
length-digits (e ∷ es) s r = ap suc (length-digits es (s / e) _)

-- Digits are in range as soon as each is.
pub InRange-of_get_or :
    (es ds : List ℕ)
    → length es ≡ length ds
    → ((i : ℕ) → i < length es → get_or ds i 0 < get_or es i 0)
    → InRange es ds
InRange-of_get_or [] [] e h = tt
InRange-of_get_or [] (d ∷ ds) e h = absurd (omega arith)
InRange-of_get_or (x ∷ es) [] e h = absurd (omega arith)
InRange-of_get_or (x ∷ es) (d ∷ ds) e h =
    (h 0 (omega arith), InRange-of_get_or es ds (omega arith) (λ i lt. h (suc i) (omega arith)))

pub get_or-InRange :
    (es ds : List ℕ) (i : ℕ) → InRange es ds → i < length es → get_or ds i 0 < get_or es i 0
get_or-InRange [] ds i h lt = absurd (omega arith)
get_or-InRange (e ∷ es) [] i h lt = absurd h
get_or-InRange (e ∷ es) (d ∷ ds) zero h lt = h.0
get_or-InRange (e ∷ es) (d ∷ ds) (suc i) h lt = get_or-InRange es ds i h.1 (omega arith)
