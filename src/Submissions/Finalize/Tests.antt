-- ===== src/Submissions/Finalize/Tests.antt =====
-- Finalize jobs on list tables: the theorems at concrete inputs.
use sfinx_backend.Base.{
  ℕ, ◌≡◌, ◌↔◌, refl, true, false, Option, none, some, List, [], ◌∷◌, ◌==◌, same_pair,
}
use sfinx_backend.Base.Lists.{length, All}
use sfinx_backend.Base.Table.{Table, number_table, pair_table}
use sfinx_backend.Redis.Locks.{LockValue}
use sfinx_backend.Submissions.{accepted, pending}
use sfinx_backend.Submissions.Verdict.{Problem}
use sfinx_backend.Submissions.Callbacks.{Tracking, live_meta}
use sfinx_backend.Submissions.Progress.{Submission, UserProblemProgress, Db, first_attempt}
use sfinx_backend.Submissions.Finalize.{Judge0Response, accepted_status, Job, answers}
use sfinx_backend.Submissions.Finalize.Verdicts.{W, run, payloads, is_passed, finalizer_accepts}

abbrev results : Table ℕ Judge0Response ◌==◌
results = number_table Judge0Response

abbrev seen : Table ℕ (Unit {0}) ◌==◌
seen = number_table Unit

abbrev locks : Table ℕ LockValue ◌==◌
locks = number_table LockValue

abbrev submissions : Table ℕ Submission ◌==◌
submissions = number_table Submission

abbrev progresses : Table (ℕ × ℕ) UserProblemProgress same_pair
progresses = pair_table UserProblemProgress

abbrev rows_of : List (ℕ × Judge0Response) → List Judge0Response
rows_of [] = []
rows_of ((index, r) ∷ rs) = r ∷ rows_of rs

abbrev hgetall : results.Rows → List Judge0Response
unfolding number_table
hgetall s = rows_of s.0

abbrev no_results : results.Rows
unfolding number_table
no_results = ([], tt)

abbrev no_seen : seen.Rows
unfolding number_table
no_seen = ([], tt)

-- Problem 3 is the only one.
abbrev find_problem : ℕ → Option Problem
find_problem id = elim (id == 3) [
  | true ↦ some (record { time_limit_ms = 1000; memory_limit_kb = 64 })
  | false ↦ none
]

abbrev response : ℕ → Judge0Response
response token = record {
  token = token;
  time = some 10;
  memory = some 20;
  status = accepted_status;
}

-- Submission 1 of user 7 to problem 3, whose two tests have been judged.
abbrev waiting : Submission
waiting = record {
  user = 7;
  problem = 3;
  status = pending;
  passed_testcases = 0;
  total_testcases = 0;
  runtime_ms = none;
  memory_kb = none;
  judged_at = none;
}

abbrev tracking : Tracking results seen locks
unfolding number_table
tracking = record {
  meta = record { total = some 2; received = some 2; problem_id = some 3 };
  meta_expires_at = some 3_600_000;
  results_by_index = ((0, response 20) ∷ (1, response 21) ∷ [], (refl, (refl, tt)));
  seen_tokens = ((20, tt) ∷ (21, tt) ∷ [], (refl, (refl, tt)));
  lock_keys = ([], tt);
  finalize_queue = [];
}

abbrev db : Db submissions progresses
unfolding number_table pair_table
db = record {
  submission_rows = ((1, waiting) ∷ [], (refl, tt));
  progress_rows = (((7, 3), first_attempt 10) ∷ [], (refl, tt));
  events = [];
}

abbrev world : W results seen locks hgetall no_results no_seen find_problem submissions progresses
unfolding tracking db
world = record { tracking = tracking; db = db; published = [] }

abbrev job : Job
job = record {
  submission = 1;
  is_interview = false;
  is_submit = true;
  now = 90;
  redis = answers;
  database_fails = false;
  publish_fails = false;
}

abbrev failing_job : Job
failing_job = record job { database_fails = true }

tracked_problem : (live_meta results seen locks 90 world.tracking).problem_id ≡ some 3
unfolding world
tracked_problem = refl

waiting_there : submissions.find world.db.submission_rows 1 ≡ some waiting
unfolding world number_table
waiting_there = refl

abbrev limits : Problem
limits = record { time_limit_ms = 1000; memory_limit_kb = 64 }

finalizer_accepts_example :
    (s' : Submission) × (submissions.find
        (run results seen locks hgetall no_results no_seen find_problem submissions progresses job
          world).1.db.submission_rows
        1
      ≡ some s')
    × (s'.judged_at ≡ some 90)
    × (s'.total_testcases
        ≡ length (
            payloads results seen locks hgetall no_results no_seen find_problem submissions
              progresses world))
    × ((s'.status ≡ accepted)
        ↔ All
            (λ r.
              is_passed results seen locks hgetall no_results no_seen find_problem submissions
                progresses r
              ≡ true)
            (payloads results seen locks hgetall no_results no_seen find_problem submissions
              progresses world))
finalizer_accepts_example =
    finalizer_accepts results seen locks hgetall no_results no_seen find_problem submissions
      progresses job world 3 limits waiting refl refl refl refl tracked_problem refl waiting_there
      refl
