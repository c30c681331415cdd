-- ===== src/Contest/Rating/Changes.antt =====
-- The changes of the ratings after they are normalised.
use sfinx_backend.Base.{
  ℕ, ◌+◌, ◌-◌, ◌*◌, ◌/◌, ◌≡◌, ◌≤◌, ◌<◌, refl, inl, inr, true, List, [], ◌∷◌, arith, map, ltb,
  ltb→lt, Bool-cases,
}
use sfinx_backend.Base.Int.{ℤ, pos, negsuc, ◌-ℤ◌, ◌≤ℤ◌, pos_part, neg_part, +ℤ_parts, -ℤ_parts}
use sfinx_backend.Base.Lists.{length}
use native.Mathlib.Nat.{div-lt_iff_lt-mul, le-div_iff_mul-le}
use sfinx_backend.Contest.Rating.{RatingData, sum_deltas, lower_by, ceil_div, normalize_deltas}

-- As many times the rounded-up quotient as the divisor is no less than the dividend.
le-mul-ceil_div : (x n : ℕ) → 0 < n → x ≤ n * ceil_div x n
le-mul-ceil_div x n positive =
    let above : (x + n - 1) / n < ceil_div x n + 1 = omega arith in
    let bound =
      (div-lt_iff_lt-mul {k = n} {x = x + n - 1} {y = ceil_div x n + 1} positive).0 above in
    grind (arith, bound)

-- Fewer times the divisor are less than the dividend.
pub mul-lt_of_lt-ceil_div : (x n k : ℕ) → 0 < n → k < ceil_div x n → n * k < x
mul-lt_of_lt-ceil_div x n k positive below =
    let whole : (k + 1) * n ≤ x + n - 1 = (le-div_iff_mul-le positive).0 (omega arith) in
    grind (arith, whole)

pub sum_deltas-lower_by :
    (k : ℕ) (es : List RatingData)
    → pos_part (sum_deltas (map (lower_by k) es)) + neg_part (sum_deltas es) + length es * k
      ≡ neg_part (sum_deltas (map (lower_by k) es)) + pos_part (sum_deltas es)
sum_deltas-lower_by k [] = omega arith
sum_deltas-lower_by k (e ∷ es) =
    let step = +ℤ_parts (e.delta -ℤ pos k) (sum_deltas (map (lower_by k) es)) in
    let lowered = -ℤ_parts e.delta (pos k) in
    let before = +ℤ_parts e.delta (sum_deltas es) in
    grind (arith, step, lowered, before, sum_deltas-lower_by k es)

pub positive_length :
    (es : List RatingData) → ltb 0 (pos_part (sum_deltas es)) ≡ true → 0 < length es
positive_length [] h = ground (arith, h)
positive_length (e ∷ es) h = omega arith

pub sign : (z : ℤ) → 0 < pos_part z → neg_part z ≡ 0
sign (pos n) h = refl
sign (negsuc n) h = absurd (omega arith)

-- Normalising leaves a sum of changes that is not positive: it changes nothing if the sum was not
-- positive, and otherwise takes the same number from the change of every participant.
pub normalize_deltas_sum :
    (es : List RatingData)
    → (sum_deltas (normalize_deltas es) ≤ℤ pos 0)
      × (sum_deltas es ≤ℤ pos 0 → normalize_deltas es ≡ es)
      × (0 < pos_part (sum_deltas es)
          → (k : ℕ) × (0 < k) × (normalize_deltas es ≡ map (lower_by k) es))
unfolding normalize_deltas
normalize_deltas_sum es = elim (Bool-cases (ltb 0 (pos_part (sum_deltas es)))) [
  | inr low ↦ (rw low (ground (arith, low)), λ h. rw low refl, λ h. absurd (ground (arith, low, h)))
  | inl high ↦
      let k = ceil_div (pos_part (sum_deltas es)) (length es) in
      let enough =
        le-mul-ceil_div (pos_part (sum_deltas es)) (length es) (positive_length es high) in
      let taken = sum_deltas-lower_by k es in
      (
        rw high (grind (arith, enough, taken)),
        λ h. absurd (ground (arith, high, h, sign (sum_deltas es) (ltb→lt _ _ high))),
        λ h. (k, grind (arith, enough, h), rw high refl),
      )
]
