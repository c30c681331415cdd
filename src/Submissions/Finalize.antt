-- ===== src/Submissions/Finalize.antt =====
-- The finalize job: finalizer of src/modules/submissions/services/callback-processor.service.ts,
-- submission-result-builder.service.ts and the map of the judge's statuses. HGETALL, which lists
-- the payloads of a hash, is a parameter.
pub mod Verdicts
mod Tests
use sfinx_backend.Base.{
  ℕ, suc, ◌+◌, ◌*◌, Bool, true, false, Option, none, some, List, [], ◌∷◌, ◌++◌, map, ltb, ◌==◌,
  same_pair, if◌then◌else◌, Result, ok, throws, not_found, internal_error,
}
use sfinx_backend.Base.Rounding.{round_div}
use sfinx_backend.Base.Table.{Table}
use sfinx_backend.Redis.Locks.{LockValue}
use sfinx_backend.Submissions.{
  SubmissionStatus, pending, being_run, accepted, wrong_answer, time_limit_exceeded,
  memory_limit_exceeded, runtime_error, compilation_error, unknown_error,
}
use sfinx_backend.Submissions.Verdict.{TestResult, Problem, SubmissionStats, calculate_stats}
use sfinx_backend.Submissions.Callbacks.{Tracking, no_meta, live_meta}
use sfinx_backend.Submissions.Progress.{
  Submission, UserProblemProgress, Verdict, Db, update_submission_after_judge,
}

-- The statuses of Judge0, by their ids from 1 to 14.
pub data Judge0Status : Type 0 where
  in_queue processing accepted_status wrong_answer_status time_limit compilation : Judge0Status
  sigsegv sigxfsz sigfpe sigabrt nzec other_error internal exec_format : Judge0Status

unfoldable pub judge0_status_map : Judge0Status → SubmissionStatus
judge0_status_map in_queue = pending
judge0_status_map processing = being_run
judge0_status_map accepted_status = accepted
judge0_status_map wrong_answer_status = wrong_answer
judge0_status_map time_limit = time_limit_exceeded
judge0_status_map compilation = compilation_error
judge0_status_map sigsegv = runtime_error
judge0_status_map sigxfsz = memory_limit_exceeded
judge0_status_map sigfpe = runtime_error
judge0_status_map sigabrt = runtime_error
judge0_status_map nzec = runtime_error
judge0_status_map other_error = runtime_error
judge0_status_map internal = unknown_error
judge0_status_map exec_format = unknown_error

pub record Judge0Response : Type 0 where
  pub token : ℕ
  pub time : Option ℕ
  pub memory : Option ℕ
  pub status : Judge0Status

abbrev pub build_test_result : Judge0Response → TestResult
unfolding judge0_status_map
build_test_result r = record {
  status = judge0_status_map r.status;
  time = r.time;
  memory = r.memory;
  token = r.token;
}

pub record SubmissionResult : Type 0 where
  pub status : SubmissionStatus
  -- hundredths of a percent in run mode, where nothing is divided by zero tests
  pub score : Option ℕ
  pub passed_tests : ℕ
  pub total_tests : ℕ
  pub runtime : Option ℕ
  pub memory : Option ℕ

-- `x > 0 ? x : undefined`
abbrev pub if_positive : ℕ → Option ℕ
if_positive n = if ltb 0 n then some n else none

unfoldable pub build_submission_result_for_submit_mode :
    List TestResult → Problem → SubmissionResult
unfolding calculate_stats
build_submission_result_for_submit_mode results p =
    let stats = calculate_stats results p in
    record {
      status = stats.overall_status;
      score = some (
          if ltb 0 stats.total_tests
          then round_div (100 * stats.passed_tests) stats.total_tests
          else 0);
      passed_tests = stats.passed_tests;
      total_tests = stats.total_tests;
      runtime = if_positive stats.sum_runtime;
      memory = if_positive stats.sum_memory;
    }

unfoldable pub build_submission_result_for_run_mode : List TestResult → Problem → SubmissionResult
unfolding calculate_stats
build_submission_result_for_run_mode results p =
    let stats = calculate_stats results p in
    record {
      status = stats.overall_status;
      score =
          if ltb 0 stats.total_tests
          then some (round_div (10_000 * stats.passed_tests) stats.total_tests)
          else none;
      passed_tests = stats.passed_tests;
      total_tests = stats.total_tests;
      runtime = some stats.sum_runtime;
      memory = some stats.sum_memory;
    }

abbrev pub verdict_of : SubmissionResult → Verdict
verdict_of r = record {
  verdict = r.status;
  passed = r.passed_tests;
  total = r.total_tests;
  runtime = r.runtime;
  memory = r.memory;
}

-- How the two reads and the deletion of the keys end. A deletion that throws has deleted all keys or
-- none, since it is one command.
pub data RedisOutcome : Type 0 where
  answers read_throws : RedisOutcome
  delete_throws : Bool → RedisOutcome

-- Whether the keys are gone after it.
abbrev pub keys_gone : RedisOutcome → Bool
keys_gone answers = true
keys_gone read_throws = false
keys_gone (delete_throws gone) = gone

-- A run of the job: its submission, its mode, the time, and how Redis, the database and the channel
-- of results behave.
pub record Job : Type 0 where
  pub submission : ℕ
  pub is_interview : Bool
  pub is_submit : Bool
  pub now : ℕ
  pub redis : RedisOutcome
  pub database_fails : Bool
  pub publish_fails : Bool

module _ (results : Table ℕ Judge0Response ◌==◌) (seen : Table ℕ (Unit {0}) ◌==◌)
    (locks : Table ℕ LockValue ◌==◌) (hgetall : results.Rows → List Judge0Response)
    (no_results : results.Rows) (no_seen : seen.Rows) (find_problem : ℕ → Option Problem)
    (submissions : Table ℕ Submission ◌==◌)
    (progresses : Table (ℕ × ℕ) UserProblemProgress same_pair) where
  pub record World : Type 0 where
    pub tracking : Tracking results seen locks
    pub db : Db submissions progresses
    -- the results published on the channel
    pub published : List (ℕ × SubmissionResult)

  -- `del` of the three keys
  abbrev pub cleanup : World → World
  cleanup w = record w {
    tracking = record w.tracking {
      meta = no_meta;
      meta_expires_at = none;
      results_by_index = no_results;
      seen_tokens = no_seen;
    };
  }

  -- The last step, on the tables that the steps before it leave.
  abbrev pub publish_finalize : Job → SubmissionResult → World → Result Bool × World
  publish_finalize j answer w =
      if j.publish_fails
      then (throws internal_error, w)
      else (ok true, record w { published = w.published ++ (j.submission, answer) ∷ [] })

  -- After the keys are gone, with the payloads that were read.
  abbrev pub conclude : Job → List TestResult → Problem → World → Result Bool × World
  unfolding build_submission_result_for_submit_mode build_submission_result_for_run_mode
      update_submission_after_judge
  conclude j tests p w =
      if j.is_submit
      then (let answer = build_submission_result_for_submit_mode tests p in
          if j.database_fails
          then (throws internal_error, w)
          else publish_finalize j answer (record w {
            db =
                update_submission_after_judge submissions progresses j.now j.submission
                  (verdict_of answer) w.db;
          }))
      else publish_finalize j (build_submission_result_for_run_mode tests p) w

  -- What is done with what was read. A missing problem id is parsed as NaN, which the database
  -- refuses.
  abbrev pub aggregate : Job → World → Result Bool × World
  unfolding conclude
  aggregate j w = elim (live_meta results seen locks j.now w.tracking).problem_id [
    | none ↦ (throws internal_error, cleanup w)
    | some id ↦ elim (find_problem id) [
      | none ↦ (throws not_found, cleanup w)
      | some p ↦
          conclude j (map build_test_result (hgetall w.tracking.results_by_index)) p (cleanup w)
    ]
  ]

  -- The answer says whether a result was published.
  unfoldable pub finalizer : Job → World → Result Bool × World
  unfolding aggregate
  finalizer j w = if j.is_interview then (ok false, w) else elim j.redis [
    | read_throws ↦ (throws internal_error, w)
    | delete_throws gone ↦ (throws internal_error, if gone then cleanup w else w)
    | answers ↦ aggregate j w
  ]
