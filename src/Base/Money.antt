-- ===== src/Base/Money.antt =====
-- Amounts of money. A JavaScript number that stands for an amount is read as an exact decimal with
-- up to four places: an integer of ten-thousandths, so that 1 rupee is `pos 10000` and the tests
-- against 0.01 are tests against `pos 100`. `Math.round(x * 100) / 100` rounds half towards +∞.
use prime_detailer_backend.Base.Int.{ℤ, pos, negsuc, pos_part, sub_ℕ, ◌+ℤ◌, ◌-ℤ◌, ◌≤ℤ◌}
use Prim.Native.Nat.{ℕ, ◌+◌, ◌*◌, ◌/◌, ◌≤◌, ◌<◌}
use mathlib.Core.Path.{◌≡◌}
use mathlib.Core.List.{List, [], ◌∷◌}
use native.Mathlib.Omega.{arith}

-- The magnitude of a rounded amount: hundredths, counted in ten-thousandths.
abbrev pub cents : ℕ → ℕ
cents n = 100 * (n / 100)

unfoldable pub round2 : ℤ → ℤ
round2 (pos n) = pos (cents (n + 50))
round2 (negsuc n) = sub_ℕ 0 (cents (n + 50))

-- Rounding moves an amount by half a hundredth at most.
pub round2_bounds : (x : ℤ) → (round2 x ≤ℤ x +ℤ pos 50) × (x ≤ℤ round2 x +ℤ pos 50)
unfolding round2 ◌+ℤ◌
round2_bounds (pos n) = ground arith
round2_bounds (negsuc n) = ground arith

pub round2_idempotent : (x : ℤ) → round2 (round2 x) ≡ round2 x
unfolding round2
round2_idempotent (pos n) = ground arith
round2_idempotent (negsuc n) = ground arith

-- An amount in whole hundredths.
abbrev pub IsCents : ℤ → Type 0
IsCents x = round2 x ≡ x

pub round2_mono : (x y : ℤ) → x ≤ℤ y → round2 x ≤ℤ round2 y
unfolding round2
round2_mono (pos n) (pos m) h = ground arith
round2_mono (pos n) (negsuc m) h = ground arith
round2_mono (negsuc n) (pos m) h = ground arith
round2_mono (negsuc n) (negsuc m) h = ground arith

pub IsCents-+ℤ : (x y : ℤ) → IsCents x → IsCents y → IsCents (x +ℤ y)
unfolding round2 ◌+ℤ◌
IsCents-+ℤ (pos n) (pos m) h k = ground arith
IsCents-+ℤ (pos n) (negsuc m) h k = ground arith
IsCents-+ℤ (negsuc n) (pos m) h k = ground arith
IsCents-+ℤ (negsuc n) (negsuc m) h k = ground arith

unfoldable pub sum : List ℤ → ℤ
sum [] = pos 0
sum (x ∷ xs) = x +ℤ sum xs

pub IsCents--ℤ : (x y : ℤ) → IsCents x → IsCents y → IsCents (x -ℤ y)
unfolding round2 ◌-ℤ◌
IsCents--ℤ (pos n) (pos m) h k = ground arith
IsCents--ℤ (pos n) (negsuc m) h k = ground arith
IsCents--ℤ (negsuc n) (pos m) h k = ground arith
IsCents--ℤ (negsuc n) (negsuc m) h k = ground arith

-- `Math.round(x / k * 100) / 100` of an exact quotient, half towards +∞; `x / 0` is not used.
unfoldable pub round2_div : ℤ → ℕ → ℤ
round2_div (pos n) k = pos (100 * ((n + 50 * k) / (100 * k)))
round2_div (negsuc n) k = sub_ℕ 0 (100 * ((n + 50 * k) / (100 * k)))

-- k shares of a rounded quotient differ from the whole by half a hundredth each at most.
pub round2_div_bounds :
    (n k : ℕ)
    → 0 < k
    → (k * pos_part (round2_div (pos n) k) ≤ n + 50 * k)
      × (n ≤ k * pos_part (round2_div (pos n) k) + 50 * k)
unfolding round2_div
round2_div_bounds n k h = grind arith

pub round2_div_nonneg : (x : ℤ) (k : ℕ) → pos 0 ≤ℤ x → pos 0 ≤ℤ round2_div x k
unfolding round2_div
round2_div_nonneg (pos n) k h = omega arith
round2_div_nonneg (negsuc n) k h = absurd (omega arith)

pub round2_div-IsCents : (x : ℤ) (k : ℕ) → IsCents (round2_div x k)
unfolding round2 round2_div
round2_div-IsCents (pos n) k = ground arith
round2_div-IsCents (negsuc n) k = ground arith
