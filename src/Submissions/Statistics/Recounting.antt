-- ===== src/Submissions/Statistics/Recounting.antt =====
-- Counting up with each solved problem gives what counting again gives.
use sfinx_backend.Base.{ℕ, ◌≡◌, Bool, false, Option, none, some, ◌==◌, same_pair}
use sfinx_backend.Base.Int.{ℤ}
use sfinx_backend.Base.Table.{Table}
use sfinx_backend.Submissions.Progress.{UserProblemProgress, is_solved}
use sfinx_backend.Submissions.Statistics.{
  ProblemDifficulty, UserStatistics, Weights, recounted, Db, statistics_of, sync_redis_ranking,
  update_user_statistic, solved_count, recalculate_global_score,
}

module _ (statistics : Table ℕ UserStatistics ◌==◌) (rankings : Table ℕ ℤ ◌==◌)
    (progresses : Table (ℕ × ℕ) UserProblemProgress same_pair)
    (difficulty_of : ℕ → Option ProblemDifficulty) (w : Weights) where
  abbrev St : Type 0
  St = Db statistics rankings progresses difficulty_of w

  abbrev row : St → ℕ → UserStatistics
  row db user = statistics_of statistics rankings progresses difficulty_of w db user

  abbrev count : progresses.Rows → ℕ → ProblemDifficulty → ℕ
  count rows user d = solved_count statistics rankings progresses difficulty_of w rows user d

  -- The statistics of a user are what counting again would write.
  abbrev pub IsReconciled : St → ℕ → Type 0
  IsReconciled db user = recounted w (count db.progress_rows user) (row db user) ≡ row db user

  -- The progress row of a user and a problem is overwritten.
  abbrev pub judged : St → ℕ → ℕ → UserProblemProgress → St
  judged db user problem p = record db {
    progress_rows = progresses.save db.progress_rows (user, problem) p;
  }

  abbrev pub is_solved_row : Option UserProblemProgress → Bool
  is_solved_row none = false
  is_solved_row (some p) = is_solved p.progress

  update : St → ℕ → ℕ → ℕ → St
  update db now user problem =
      update_user_statistic statistics rankings progresses difficulty_of w db now user problem false

  recalculate : St → ℕ → St
  recalculate db user =
      recalculate_global_score statistics rankings progresses difficulty_of w db user

  sync : St → ℕ → Option ℕ → St
  sync db user score =
      sync_redis_ranking statistics rankings progresses difficulty_of w db user score
