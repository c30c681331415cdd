-- ===== src/Submissions/Statistics.antt =====
-- src/modules/submissions/services/user-statistics.service.ts: the statistics of a user, counted up
-- with each solved problem or counted again from the progress rows, and the ranking in Redis.
pub mod Recounting
pub mod Ranking
mod Tests
use sfinx_backend.Base.{
  ℕ, ◌+◌, ◌*◌, ◌/◌, ◌&&◌, Bool, true, false, Option, none, some, ltb, ◌==◌, same_pair, or_else,
  if◌then◌else◌,
}
use sfinx_backend.Base.Int.{ℤ, sub_ℕ}
use sfinx_backend.Base.Table.{Table}
use sfinx_backend.Submissions.Progress.{UserProblemProgress, is_solved}

-- src/modules/problems/enums/problem-difficulty.enum.ts
pub data ProblemDifficulty : Type 0 where
  easy medium hard : ProblemDifficulty

abbrev pub same_difficulty : ProblemDifficulty → ProblemDifficulty → Bool
same_difficulty easy d = elim d [ easy ↦ true | _ ↦ false ]
same_difficulty medium d = elim d [ medium ↦ true | _ ↦ false ]
same_difficulty hard d = elim d [ hard ↦ true | _ ↦ false ]

-- entities/user-statistics.entity.ts; times are milliseconds
pub record UserStatistics : Type 0 where
  pub global_score : ℕ
  pub total_solved : ℕ
  pub total_attempts : ℕ
  pub solved_easy : ℕ
  pub solved_medium : ℕ
  pub solved_hard : ℕ
  pub last_solve_at : Option ℕ
  pub contest_rating : ℕ
  pub contests_participated : ℕ

-- The columns' defaults.
abbrev pub no_statistics : UserStatistics
no_statistics = record {
  global_score = 0;
  total_solved = 0;
  total_attempts = 0;
  solved_easy = 0;
  solved_medium = 0;
  solved_hard = 0;
  last_solve_at = none;
  contest_rating = 1500;
  contests_participated = 0;
}

-- The system parameters PROBLEM_WEIGHT_EASY, PROBLEM_WEIGHT_MEDIUM and PROBLEM_WEIGHT_HARD.
pub record Weights : Type 0 where
  pub weight_easy : ℕ
  pub weight_medium : ℕ
  pub weight_hard : ℕ

abbrev pub weight_of : Weights → ProblemDifficulty → ℕ
weight_of w easy = w.weight_easy
weight_of w medium = w.weight_medium
weight_of w hard = w.weight_hard

-- `SET global_score = global_score + …, …`
abbrev pub counted_up : ℕ → ℕ → ProblemDifficulty → UserStatistics → UserStatistics
counted_up now weight d s =
    let up = record s {
      global_score = s.global_score + weight;
      total_solved = s.total_solved + 1;
      last_solve_at = some now;
    } in
    elim d [
      | easy ↦ record up { solved_easy = s.solved_easy + 1 }
      | medium ↦ record up { solved_medium = s.solved_medium + 1 }
      | hard ↦ record up { solved_hard = s.solved_hard + 1 }
    ]

-- The columns that `recalculateGlobalScore` upserts, from the solved problems by difficulty.
abbrev pub recounted : Weights → (ProblemDifficulty → ℕ) → UserStatistics → UserStatistics
recounted w count s = record s {
  global_score =
      count easy * w.weight_easy + count medium * w.weight_medium + count hard * w.weight_hard;
  total_solved = count easy + count medium + count hard;
  solved_easy = count easy;
  solved_medium = count medium;
  solved_hard = count hard;
}

-- `score * 1e10 + (MAX_TIMESTAMP - lastSolveTime)`, with the time in seconds
unfoldable pub encoded_score : ℕ → Option ℕ → ℤ
encoded_score score last_solve_at =
    sub_ℕ (score * 10000000000 + 9999999999) (or_else last_solve_at 0 / 1000)

abbrev pub is_of_difficulty : ProblemDifficulty → Option ProblemDifficulty → Bool
is_of_difficulty d none = false
is_of_difficulty d (some e) = same_difficulty d e

-- `rankings` is a sorted set, by its members; `difficulty_of` reads the table of problems.
module _ (statistics : Table ℕ UserStatistics ◌==◌) (rankings : Table ℕ ℤ ◌==◌)
    (progresses : Table (ℕ × ℕ) UserProblemProgress same_pair)
    (difficulty_of : ℕ → Option ProblemDifficulty) (w : Weights) where
  pub record Db : Type 0 where
    pub statistics_rows : statistics.Rows
    pub ranking : rankings.Rows
    pub progress_rows : progresses.Rows

  -- A solved problem of the user that has the difficulty.
  abbrev pub solves : ℕ → ProblemDifficulty → ℕ × ℕ → UserProblemProgress → Bool
  solves user d (u, problem) p =
      u == user && (is_solved p.progress && is_of_difficulty d (difficulty_of problem))

  abbrev pub statistics_of : Db → ℕ → UserStatistics
  statistics_of db user = or_else (statistics.find db.statistics_rows user) no_statistics

  -- The score is given, or read when it is absent.
  unfoldable pub sync_redis_ranking : Db → ℕ → Option ℕ → Db
  sync_redis_ranking db user score =
      let s = statistics_of db user in
      record db {
        ranking =
            rankings.save db.ranking user
              (encoded_score (or_else score s.global_score) s.last_solve_at);
      }

  -- `redis_fails` says that the ranking could not be written, which is only logged.
  unfoldable pub update_user_statistic : Db → ℕ → ℕ → ℕ → Bool → Db
  update_user_statistic db now user problem redis_fails = elim (difficulty_of problem) [
    | none ↦ db
    | some d ↦
        if ltb 0 (weight_of w d)
        then (let counted = record db {
          statistics_rows =
              statistics.save db.statistics_rows user
                (counted_up now (weight_of w d) d (statistics_of db user));
        } in
            if redis_fails then counted else sync_redis_ranking counted user none)
        else db
  ]

  abbrev pub solved_count : progresses.Rows → ℕ → ProblemDifficulty → ℕ
  solved_count rows user d = progresses.count rows (solves user d)

  unfoldable pub recalculate_global_score : Db → ℕ → Db
  recalculate_global_score db user =
      let s = recounted w (solved_count db.progress_rows user) (statistics_of db user) in
      sync_redis_ranking (record db { statistics_rows = statistics.save db.statistics_rows user s })
        user (some s.global_score)

  unfoldable pub increment_total_attempts : Db → ℕ → Db
  increment_total_attempts db user = elim (statistics.find db.statistics_rows user) [
    | none ↦ db
    | some s ↦ record db {
      statistics_rows =
          statistics.save db.statistics_rows user
            (record s { total_attempts = s.total_attempts + 1 });
    }
  ]
