-- ===== src/Submissions/Progress/Tests.antt =====
-- Progress on list tables: the theorems at concrete inputs.
use sfinx_backend.Base.{ℕ, ◌≡◌, refl, none, some, List, [], ◌∷◌, arith, ◌==◌, same_pair}
use sfinx_backend.Base.Table.{Table, number_table, pair_table}
use sfinx_backend.Submissions.{pending, accepted}
use sfinx_backend.Submissions.Progress.{
  Submission, UserProblemProgress, Verdict, Db, first_attempt, solved,
  update_submission_after_judge,
}
use sfinx_backend.Submissions.Progress.Solving.{
  Step, submits, verdicts, IsAnnounced, steps_after, steps_after-IsAnnounced,
}
use sfinx_backend.Submissions.Progress.Accepted.{IsTallied, update_submission_after_judge-IsTallied}

abbrev submissions : Table ℕ Submission ◌==◌
submissions = number_table Submission

abbrev progresses : Table (ℕ × ℕ) UserProblemProgress same_pair
progresses = pair_table UserProblemProgress

-- Submission 1 of user 7 to problem 3 waits for its verdict.
abbrev waiting : Submission
waiting = record {
  user = 7;
  problem = 3;
  status = pending;
  passed_testcases = 0;
  total_testcases = 0;
  runtime_ms = none;
  memory_kb = none;
  judged_at = none;
}

abbrev db : Db submissions progresses
unfolding number_table pair_table
db = record {
  submission_rows = ((1, waiting) ∷ [], (refl, tt));
  progress_rows = (((7, 3), first_attempt 10) ∷ [], (refl, tt));
  events = [];
}

abbrev accepts : Verdict
accepts = record { verdict = accepted; passed = 2; total = 2; runtime = some 40; memory = some 900 }

abbrev history : List Step
history = verdicts 20 1 accepts ∷ submits 30 7 3 ∷ verdicts 40 1 accepts ∷ []

db-IsAnnounced : IsAnnounced submissions progresses db
unfolding number_table pair_table
db-IsAnnounced key = ground arith

steps_after-IsAnnounced_example :
    IsAnnounced submissions progresses (steps_after submissions progresses db history)
steps_after-IsAnnounced_example =
    steps_after-IsAnnounced submissions progresses history db db-IsAnnounced

db-IsTallied : IsTallied submissions progresses db
unfolding number_table pair_table
db-IsTallied = record { has_progress = λ id s h. ground arith; tallied = λ key p h. ground arith }

update_submission_after_judge-IsTallied_example :
    IsTallied submissions progresses
      (update_submission_after_judge submissions progresses 20 1 accepts db)
update_submission_after_judge-IsTallied_example =
    update_submission_after_judge-IsTallied submissions progresses 20 1 accepts db db-IsTallied

-- A row that is solved with a best runtime of 50.
abbrev solved_row : UserProblemProgress
solved_row = record (first_attempt 10) {
  progress = solved;
  first_solved_at = some 15;
  best_runtime_ms = some 50;
}

abbrev solved_rows : progresses.Rows
unfolding pair_table
solved_rows = (((7, 3), solved_row) ∷ [], (refl, tt))

solved_there : progresses.find solved_rows (7, 3) ≡ some solved_row
unfolding pair_table
solved_there = refl
