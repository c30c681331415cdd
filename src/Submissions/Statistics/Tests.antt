-- ===== src/Submissions/Statistics/Tests.antt =====
-- Statistics on list tables: the theorems at concrete inputs.
use sfinx_backend.Base.{
  ℕ, ◌/◌, ◌≡◌, ◌≤◌, ◌<◌, ◌^◌, ◌↔◌, ◌⊎◌, refl, true, Option, some, [], ◌∷◌, arith, ◌==◌, same_pair,
  or_else, if◌then◌else◌,
}
use sfinx_backend.Base.Int.{ℤ, pos, ltb_ℤ}
use sfinx_backend.Base.Table.{Table, number_table, pair_table}
use sfinx_backend.Submissions.Progress.{UserProblemProgress, first_attempt, solved}
use sfinx_backend.Submissions.Statistics.{
  ProblemDifficulty, easy, hard, UserStatistics, no_statistics, Weights, Db, encoded_score,
}
use sfinx_backend.Submissions.Statistics.Ranking.{encoded_score-lt}

abbrev statistics : Table ℕ UserStatistics ◌==◌
statistics = number_table UserStatistics

abbrev rankings : Table ℕ ℤ ◌==◌
rankings = number_table ℤ

abbrev progresses : Table (ℕ × ℕ) UserProblemProgress same_pair
progresses = pair_table UserProblemProgress

abbrev difficulty_of : ℕ → Option ProblemDifficulty
difficulty_of p = if p == 4 then some hard else some easy

abbrev weights : Weights
weights = record { weight_easy = 10; weight_medium = 20; weight_hard = 30 }

abbrev solved_row : UserProblemProgress
solved_row = record (first_attempt 5) { progress = solved }

-- User 8 has solved the easy problem 3 and tries the hard problem 4.
abbrev db : Db statistics rankings progresses difficulty_of weights
unfolding number_table pair_table
db = record {
  statistics_rows = (
    (8, record no_statistics { global_score = 10; total_solved = 1; solved_easy = 1 }) ∷ [],
    (refl, tt),
  );
  ranking = ([], tt);
  progress_rows = (((8, 3), solved_row) ∷ ((8, 4), first_attempt 6) ∷ [], (refl, (refl, tt)));
}

encoded_score-lt_example :
    ((ltb_ℤ (encoded_score 40 (some 9000)) (encoded_score 40 (some 7000)) ≡ true) ↔ (
      (40 < 40)
      ⊎ ((◌≡◌ {A = ℕ} 40 40) × (or_else (some 7000) 0 / 1000 < or_else (some 9000) 0 / 1000))))
    × (40 ≤ 900718
        → (n : ℕ) × (encoded_score 40 (some 9000) ≡ pos n) × (n < 2 ^ 53) × (n / 10000000000 ≡ 40))
encoded_score-lt_example =
    encoded_score-lt 40 40 (some 9000) (some 7000) (omega arith) (omega arith)
