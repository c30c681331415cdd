-- ===== src/Contest/Rating/Deltas.antt =====
-- The rating changes of a whole contest.
use sfinx_backend.Base.{
  ℕ, ◌<◌, ◌≡◌, refl, inl, inr, Bool, Option, List, [], ◌∷◌, arith, map, ltb, ltb→lt, or_else,
  Bool-cases, sym,
}
use sfinx_backend.Base.Int.{ℤ, pos, ◌-ℤ◌, ◌≤ℤ◌, pos_part, eq_of_parts, -ℤ_parts}
use sfinx_backend.Base.Lists.{All, length}
use sfinx_backend.Contest.Rating.{
  ceil_div, Entry, RatingData, sum_deltas, lower_by, normalize_deltas, delta_to, rate_entry,
  rank_participants, calculate_ratings,
}
use sfinx_backend.Contest.Rating.Search.{IsCrossing, find_target_rating-IsCrossing}
use sfinx_backend.Contest.Rating.Changes.{
  normalize_deltas_sum, sum_deltas-lower_by, positive_length, sign, mul-lt_of_lt-ceil_div,
}

sub_zero : (z : ℤ) → z -ℤ pos 0 ≡ z
sub_zero z = eq_of_parts (z -ℤ pos 0) z (omega (arith, -ℤ_parts z (pos 0)))

lower_by_zero : (es : List RatingData) → map (lower_by 0) es ≡ es
lower_by_zero [] = refl
lower_by_zero (e ∷ es) = rw (sub_zero e.delta, lower_by_zero es) refl

lowered :
    (es : List RatingData)
    → (k : ℕ) × (normalize_deltas es ≡ map (lower_by k) es)
      × (sum_deltas es ≤ℤ pos 0 → k ≡ 0)
      × ((fewer : ℕ) → fewer < k → 0 < pos_part (sum_deltas (map (lower_by fewer) es)))
unfolding normalize_deltas
lowered es = elim (Bool-cases (ltb 0 (pos_part (sum_deltas es)))) [
  | inl high ↦
      let k = ceil_div (pos_part (sum_deltas es)) (length es) in
      (
        k,
        rw high refl,
        λ h. absurd (ground (arith, high, h, sign (sum_deltas es) (ltb→lt _ _ high))),
        λ fewer below.
            let short =
              mul-lt_of_lt-ceil_div (pos_part (sum_deltas es)) (length es) fewer
                (positive_length es high) below in
            let taken = sum_deltas-lower_by fewer es in
            omega (arith, short, taken, sign (sum_deltas es) (ltb→lt _ _ high)),
      )
  | inr low ↦ (0, rw low (sym (lower_by_zero es)), λ h. refl, λ fewer below. absurd (omega arith))
]

module _ (too_high : ℕ → ℕ → ℕ → Bool) (ratings : ℕ → Option ℕ) where
  -- The change of a participant: half the way to a rating where its expected rank crosses its
  -- middle rank, less a number.
  abbrev pub IsRated : ℕ → RatingData → Type 0
  IsRated k e =
      (target : ℕ) × IsCrossing (too_high e.actual_rank e.current_rating) 1 8000 target
      × (e.delta ≡ delta_to target e.current_rating -ℤ pos k)
      × (e.current_rating ≡ or_else (ratings e.user_id) 1500)

  rated :
      (k : ℕ) (ranked : List (Entry × ℕ))
      → All (IsRated k) (map (lower_by k) (map (rate_entry too_high ratings) ranked))
  unfolding rate_entry
  rated k [] = tt
  rated k (((user, p), rank) ∷ ranked) =
      let current = or_else (ratings user) 1500 in
      let (target, found, crossing) = find_target_rating-IsCrossing (too_high rank current) in
      ((target, crossing, rw found refl, refl), rated k ranked)

  -- The changes before they are normalised.
  abbrev pub first_changes : List Entry → List RatingData
  first_changes participants = map (rate_entry too_high ratings) (rank_participants participants)

  -- The change of every rated participant, before the new rating is kept from falling below 1, is
  -- half the way to a rating where the comparison changes, less the same number for all: zero if
  -- the changes did not add up to more than zero, and otherwise the least number that makes it so.
  pub calculate_ratings-IsRated :
      (participants : List Entry)
      → (k : ℕ) × All (IsRated k) (calculate_ratings too_high ratings participants)
        × (sum_deltas (calculate_ratings too_high ratings participants) ≤ℤ pos 0)
        × (sum_deltas (first_changes participants) ≤ℤ pos 0 → k ≡ 0)
        × ((fewer : ℕ)
            → fewer < k
            → 0 < pos_part (sum_deltas (map (lower_by fewer) (first_changes participants))))
  unfolding calculate_ratings
  calculate_ratings-IsRated participants =
      let (k, same, nothing, least) = lowered (first_changes participants) in
      (
        k,
        rw same (rated k (rank_participants participants)),
        (normalize_deltas_sum (first_changes participants)).0,
        nothing,
        least,
      )
