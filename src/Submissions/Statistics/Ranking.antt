-- ===== src/Submissions/Statistics/Ranking.antt =====
-- The encoded scores order users by score, and then by who solved last earlier.
use sfinx_backend.Base.{
  ℕ, ◌+◌, ◌*◌, ◌/◌, ◌≡◌, ◌≤◌, ◌<◌, ◌^◌, ◌↔◌, ◌⊎◌, inl, inr, Option, arith, or_else, true, ltb, ◌-◌,
  Bool-cases,
}
use sfinx_backend.Base.Int.{pos, ltb_ℤ}
use sfinx_backend.Submissions.Statistics.{encoded_score}

-- The time in seconds has at most ten digits.
abbrev pub IsTime : Option ℕ → Type 0
IsTime t = or_else t 0 / 1000 ≤ 9999999999

abbrev seconds : Option ℕ → ℕ
seconds t = or_else t 0 / 1000

encoded_score-pos :
    (score : ℕ) (t : Option ℕ)
    → IsTime t
    → encoded_score score t ≡ pos (score * 10000000000 + (9999999999 - seconds t))
unfolding encoded_score
encoded_score-pos score t a = ground (arith, a)

apart :
    (m n x y : ℕ)
    → x ≤ 9999999999
    → y ≤ 9999999999
    → m * 10000000000 + (9999999999 - x) < n * 10000000000 + (9999999999 - y)
    → (m < n) ⊎ ((m ≡ n) × (y < x))
apart m n x y a b h = elim (Bool-cases (ltb m n)) [
  | inl less ↦ inl (ground (arith, less))
  | inr not_less ↦ inr (ground (arith, not_less), ground (arith, not_less))
]

-- Among times of at most ten digits, a user is encoded higher than another exactly when the score
-- is greater, or when it is the same and the last problem was solved in an earlier second; up to
-- the score 900718 the encoding is below 2^53, so that a double holds it exactly.
pub encoded_score-lt :
    (score score' : ℕ) (t t' : Option ℕ)
    → IsTime t
    → IsTime t'
    → ((ltb_ℤ (encoded_score score t) (encoded_score score' t') ≡ true)
        ↔ ((score < score') ⊎ ((score ≡ score') × (or_else t' 0 / 1000 < or_else t 0 / 1000))))
      × (score ≤ 900718
          → (n : ℕ) × (encoded_score score t ≡ pos n) × (n < 2 ^ 53) × (n / 10000000000 ≡ score))
encoded_score-lt score score' t t' a b =
    let left = encoded_score-pos score t a in
    let right = encoded_score-pos score' t' b in
    (
      (
        λ h. apart score score' (seconds t) (seconds t') a b (ground (arith, left, right, h)),
        λ h. elim h [
          | inl less ↦ ground (arith, left, right, less)
          | inr (same, earlier) ↦ ground (arith, left, right, same, earlier)
        ],
      ),
      λ small. (
        score * 10000000000 + (9999999999 - seconds t),
        left,
        omega (arith, small),
        omega (arith, a),
      ),
    )
