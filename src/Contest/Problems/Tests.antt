-- ===== src/Contest/Problems/Tests.antt =====
-- Reordering on list tables: the theorem at a concrete input.
use sfinx_backend.Base.{ℕ, ◌≡◌, refl, Option, some, [], ◌∷◌, ◌==◌, same_pair}
use sfinx_backend.Base.Int.{pos}
use sfinx_backend.Base.Table.{Table, number_table, pair_table}
use sfinx_backend.Contest.{Contest, Problem, draft}
use sfinx_backend.Contest.Problems.{ContestProblem, Db}

abbrev contests : Table ℕ Contest ◌==◌
contests = number_table Contest

abbrev problems : Table ℕ Problem ◌==◌
problems = number_table Problem

abbrev contest_problems : Table (ℕ × ℕ) ContestProblem same_pair
contest_problems = pair_table ContestProblem

abbrev max_order_index : contest_problems.Rows → ℕ → Option ℕ
max_order_index rows contest = some 1

abbrev weekly : Contest
weekly = record {
  title = "Weekly";
  slug = "weekly";
  start_time = 100;
  end_time = 6_000_100;
  status = draft;
  participant_count = pos 0;
  max_participants = 0;
  duration_minutes = 100;
}

-- Problems 5 and 6 of contest 1, labelled A and B.
abbrev db : Db contests problems contest_problems max_order_index
unfolding number_table pair_table
db = record {
  contest_rows = ((1, weekly) ∷ [], (refl, tt));
  problem_rows = ([], tt);
  contest_problem_rows = (
    ((1, 5), record { points = 100; order_index = 0; label = 65 })
        ∷ ((1, 6), record { points = 200; order_index = 1; label = 66 })
        ∷ [],
    (refl, (refl, tt)),
  );
}

weekly_there : contests.find db.contest_rows 1 ≡ some weekly
unfolding db number_table
weekly_there = refl
