-- ===== src/Submissions/Verdict.antt =====
-- src/modules/submissions/services/submission-stats-calculator.service.ts: the verdict on a
-- submission. A time is a number of thousandths of the seconds that the code adds up, memory is in
-- kilobytes; a missing one compares as false and adds 0.
pub mod Totals
pub mod Failure
mod Tests
use sfinx_backend.Base.{
  ℕ, suc, ◌+◌, ◌&&◌, Bool, false, Option, none, some, List, [], ◌∷◌, ltb, ◌==◌, or_else,
  if◌then◌else◌,
}
use sfinx_backend.Base.Lists.{length}
use sfinx_backend.Submissions.{
  SubmissionStatus, accepted, time_limit_exceeded, memory_limit_exceeded, unknown_error,
  is_accepted, is_runtime_error,
}

pub record TestResult : Type 0 where
  pub status : SubmissionStatus
  pub time : Option ℕ
  pub memory : Option ℕ
  pub token : ℕ

-- The fields of a problem that the calculation reads.
pub record Problem : Type 0 where
  pub time_limit_ms : ℕ
  pub memory_limit_kb : ℕ

pub record SubmissionStats : Type 0 where
  pub overall_status : SubmissionStatus
  pub passed_tests : ℕ
  pub total_tests : ℕ
  pub sum_runtime : ℕ
  pub sum_memory : ℕ
  pub first_failed_test : Option TestResult

-- `Number(x) > limit`
abbrev pub exceeds : Option ℕ → ℕ → Bool
exceeds none limit = false
exceeds (some n) limit = ltb limit n

abbrev pub check_time_limit_exceeded : TestResult → Problem → TestResult
check_time_limit_exceeded r p =
    if is_runtime_error r.status
    then (if exceeds r.time p.time_limit_ms then record r { status = time_limit_exceeded } else r)
    else r

abbrev pub check_memory_limit_exceeded : TestResult → Problem → TestResult
check_memory_limit_exceeded r p =
    if is_runtime_error r.status
    then (if exceeds r.memory p.memory_limit_kb
        then record r { status = memory_limit_exceeded }
        else r)
    else r

abbrev pub determine_overall_status : ℕ → ℕ → Option TestResult → SubmissionStatus
determine_overall_status passed total first_failed =
    if passed == total
    then accepted
    else elim first_failed [ none ↦ unknown_error | some r ↦ r.status ]

-- The variables of the loop over the results.
pub record Tally : Type 0 where
  pub passed : ℕ
  pub runtime : ℕ
  pub memory_used : ℕ
  pub first_failed : Option TestResult

abbrev pub no_results : Tally
no_results = record { passed = 0; runtime = 0; memory_used = 0; first_failed = none }

abbrev pub tally_result : Problem → Tally → TestResult → Tally
tally_result p t r =
    let summed = record t {
      runtime = t.runtime + or_else r.time 0;
      memory_used = t.memory_used + or_else r.memory 0;
    } in
    if is_accepted r.status
    then record summed { passed = t.passed + 1 }
    else (let checked = check_memory_limit_exceeded (check_time_limit_exceeded r p) p in
        elim t.first_failed [
          | none ↦ record summed { first_failed = some checked }
          | some f ↦ summed
        ])

unfoldable pub tally_results : Problem → Tally → List TestResult → Tally
tally_results p t [] = t
tally_results p t (r ∷ rs) = tally_results p (tally_result p t r) rs

unfoldable pub calculate_stats : List TestResult → Problem → SubmissionStats
unfolding tally_results
calculate_stats results p =
    let t = tally_results p no_results results in
    record {
      overall_status = determine_overall_status t.passed (length results) t.first_failed;
      passed_tests = t.passed;
      total_tests = length results;
      sum_runtime = t.runtime;
      sum_memory = t.memory_used;
      first_failed_test = t.first_failed;
    }
