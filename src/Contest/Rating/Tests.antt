-- ===== src/Contest/Rating/Tests.antt =====
-- Ranks and rating changes of concrete participants.
use sfinx_backend.Base.{
  ◌-◌, ◌<◌, Option, ℕ, suc, ◌*◌, ◌≡◌, refl, Bool, some, none, List, [], ◌∷◌, map, ltb,
}
use sfinx_backend.Base.Int.{pos, negsuc, ◌≤ℤ◌, pos_part}
use sfinx_backend.Base.Lists.{All, count_by}
use sfinx_backend.Contest.Rating.{
  Entry, is_before, rank_participants, find_target_rating, RatingData, sum_deltas, lower_by,
  calculate_ratings,
}
use sfinx_backend.Contest.Rating.Ranks.{active, rank_participants_counts}
use sfinx_backend.Contest.Rating.Search.{IsCrossing, find_target_rating-IsCrossing}
use sfinx_backend.Contest.Rating.Deltas.{IsRated, first_changes, calculate_ratings-IsRated}

abbrev participant : ℕ → ℕ → ℕ → Entry
participant user solved tries = (
  user,
  record {
    total_score = 100 * solved;
    solved_count = solved;
    finish_time = 60;
    problem_scores = [];
    total_submissions = tries;
    last_submission_at = none;
    started_at = 0;
  },
)

-- Users 2 and 4 are tied in front; user 3 never submitted.
abbrev field_of_four : List Entry
field_of_four = participant 1 1 3 ∷ participant 2 2 2 ∷ participant 3 0 0 ∷ participant 4 2 5 ∷ []

rank_participants_counts_example :
    All
      (λ (r : Entry × ℕ). r.1 ≡ suc (count_by (λ q. is_before q r.0) (active field_of_four)))
      (rank_participants field_of_four)
rank_participants_counts_example = rank_participants_counts field_of_four

-- The third rank follows two first ones.
ranks_skip :
    map {B = ℕ × ℕ} (λ (r : Entry × ℕ). (r.0.0, r.1)) (rank_participants field_of_four)
    ≡ (2, 1) ∷ (4, 1) ∷ (1, 3) ∷ []
unfolding rank_participants
ranks_skip = refl

abbrev above_1600 : ℕ → Bool
above_1600 r = ltb 1600 r

find_target_rating-IsCrossing_example :
    (r : ℕ) × (find_target_rating above_1600 ≡ some r) × IsCrossing above_1600 1 8000 r
find_target_rating-IsCrossing_example = find_target_rating-IsCrossing above_1600

abbrev changes : List RatingData
changes =
    record { user_id = 1; current_rating = 1500; actual_rank = 1; delta = pos 50 }
    ∷ record { user_id = 2; current_rating = 1400; actual_rank = 2; delta = negsuc 44 }
    ∷ []

abbrev unrated : ℕ → Option ℕ
unrated user = none

abbrev above_by_rank : ℕ → ℕ → ℕ → Bool
above_by_rank rank current r = ltb (2000 - 100 * rank) r

calculate_ratings-IsRated_example :
    (k : ℕ) × All
      (IsRated above_by_rank unrated k)
      (calculate_ratings above_by_rank unrated field_of_four)
    × (sum_deltas (calculate_ratings above_by_rank unrated field_of_four) ≤ℤ pos 0)
    × (sum_deltas (first_changes above_by_rank unrated field_of_four) ≤ℤ pos 0 → k ≡ 0)
    × ((fewer : ℕ)
        → fewer < k
        → 0
          < pos_part (
              sum_deltas
                (map (lower_by fewer) (first_changes above_by_rank unrated field_of_four))))
calculate_ratings-IsRated_example = calculate_ratings-IsRated above_by_rank unrated field_of_four
