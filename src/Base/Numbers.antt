-- ===== src/Base/Numbers.antt =====
-- Products of vectors, and the laws of `*` and `/` that the components share.
use Prim.Native.Nat.{ℕ, zero, suc, ◌*◌, ◌/◌, ◌<◌}
use mathlib.Core.Path.{◌≡◌, ap, ◌∙◌}
use mathlib.Core.List.{List, [], ◌∷◌}
use native.Mathlib.Omega.{arith}
use zuku.Base.Lists.{length, get_or, set}

abbrev pub product : List ℕ → ℕ
product [] = 1
product (x ∷ xs) = x * product xs

pub mul-div_cancel : (a b : ℕ) → 0 < a → a * b / a ≡ b
mul-div_cancel a b h = grind arith

pub div-lt : (r a b : ℕ) → r < a * b → r / b < a
div-lt r a b h = grind arith

-- Replacing a factor 1 multiplies the product.
pub product-set :
    (xs : List ℕ) (i v : ℕ)
    → i < length xs
    → get_or xs i 0 ≡ 1
    → product (set xs i v) ≡ v * product xs
product-set [] i v h e = absurd (omega arith)
product-set (x ∷ xs) zero v h e = grind arith
product-set (x ∷ xs) (suc i) v h e =
    ap (λ t. x * t) (product-set xs i v (omega arith) e) ∙ omega arith
