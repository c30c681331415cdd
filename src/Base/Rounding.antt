-- ===== src/Base/Rounding.antt =====
-- `Math.round` of a quotient, and its bounds.
use sfinx_backend.Base.{ℕ, ◌+◌, ◌*◌, ◌/◌, ◌≤◌, ◌<◌, ◌≡◌, arith}
use native.Mathlib.Nat.{
  le_trans, div-lt_iff_lt-mul, le-div_iff_mul-le, div-mul-le_self, div-eq_of_lt-le,
}

-- `Math.round(x / y)` for y > 0.
abbrev pub round_div : ℕ → ℕ → ℕ
round_div x y = (2 * x + y) / (2 * y)

pub round_div-le : (a x y : ℕ) → 0 < y → x ≤ a * y → round_div x y ≤ a
round_div-le a x y h le =
    let below : (2 * x + y) / (2 * y) < a + 1 =
      (div-lt_iff_lt-mul {k = 2 * y} {x = 2 * x + y} {y = a + 1} (omega arith)).1 (omega arith) in
    omega arith

pub round_div_mono : (x x' y : ℕ) → 0 < y → x ≤ x' → round_div x y ≤ round_div x' y
round_div_mono x x' y h le =
    (le-div_iff_mul-le (omega arith)).1
      (le_trans (div-mul-le_self (2 * x + y) (2 * y)) (omega arith))

-- The quotient is found between two multiples.
pub mul_quotient : (a d x : ℕ) → a * d ≤ x → x < (a + 1) * d → x / d ≡ a
mul_quotient a d x lo hi = div-eq_of_lt-le d lo hi

pub round_div-mul : (a y : ℕ) → 0 < y → round_div (a * y) y ≡ a
round_div-mul a y h = mul_quotient a (2 * y) (2 * (a * y) + y) (omega arith) (omega arith)
