-- ===== src/Submissions/Progress.antt =====
-- src/modules/submissions/services/user-progress.service.ts and updateSubmissionAfterJudge of
-- submissions.service.ts: what a verdict changes. Measured times and sizes are numbers, and 0 is
-- falsy.
pub mod Solving
pub mod Accepted
pub mod Attempts
pub mod Best
mod Tests
use sfinx_backend.Base.{
  ℕ, ◌+◌, ◌&&◌, not, Bool, true, false, Option, none, some, List, [], ◌∷◌, ◌++◌, ltb, ◌==◌,
  same_pair, if◌then◌else◌,
}
use sfinx_backend.Base.Table.{Table}
use sfinx_backend.Submissions.{SubmissionStatus, is_accepted}

-- enums/progress-status.enum.ts
pub data ProgressStatus : Type 0 where
  attempted solved not_started : ProgressStatus

abbrev pub is_solved : ProgressStatus → Bool
is_solved s = elim s [ solved ↦ true | _ ↦ false ]

-- The description of the result, a text, is left out.
pub record Submission : Type 0 where
  pub user : ℕ
  pub problem : ℕ
  pub status : SubmissionStatus
  pub passed_testcases : ℕ
  pub total_testcases : ℕ
  pub runtime_ms : Option ℕ
  pub memory_kb : Option ℕ
  pub judged_at : Option ℕ

pub record UserProblemProgress : Type 0 where
  pub progress : ProgressStatus
  pub total_attempts : ℕ
  pub total_accepted : ℕ
  pub best_submission : Option ℕ
  pub best_runtime_ms : Option ℕ
  pub best_memory_kb : Option ℕ
  pub first_attempted_at : ℕ
  pub first_solved_at : Option ℕ
  pub last_attempted_at : Option ℕ

-- A verdict as `updateSubmissionAfterJudge` is given it.
pub record Verdict : Type 0 where
  pub verdict : SubmissionStatus
  pub passed : ℕ
  pub total : ℕ
  pub runtime : Option ℕ
  pub memory : Option ℕ

-- The events that are emitted, each with the submission, its user and its problem.
pub data SubmissionEvent : Type 0 where
  judged : ℕ → ℕ → ℕ → SubmissionStatus → SubmissionEvent
  was_accepted : ℕ → ℕ → ℕ → SubmissionEvent
  problem_solved : ℕ → ℕ → ℕ → SubmissionEvent

-- `!best || (measured && measured < best)`
abbrev pub is_better : Option ℕ → Option ℕ → Bool
is_better measured none = true
is_better none (some best) = best == 0
is_better (some m) (some best) = if best == 0 then true else not (m == 0) && ltb m best

abbrev pub first_attempt : ℕ → UserProblemProgress
first_attempt now = record {
  progress = attempted;
  total_attempts = 1;
  total_accepted = 0;
  best_submission = none;
  best_runtime_ms = none;
  best_memory_kb = none;
  first_attempted_at = now;
  first_solved_at = none;
  last_attempted_at = some now;
}

-- The row after an accepted submission.
abbrev pub record_best : ℕ → Verdict → UserProblemProgress → UserProblemProgress
record_best id v p =
    let faster = is_better v.runtime p.best_runtime_ms in
    record p {
      best_runtime_ms = if faster then v.runtime else p.best_runtime_ms;
      best_submission = if faster then some id else p.best_submission;
      best_memory_kb = if is_better v.memory p.best_memory_kb then v.memory else p.best_memory_kb;
    }

abbrev pub mark_solved : ℕ → UserProblemProgress → UserProblemProgress
mark_solved now p =
    if is_solved p.progress then p else record p { progress = solved; first_solved_at = some now }

abbrev pub leave_not_started : ProgressStatus → ProgressStatus
leave_not_started not_started = attempted
leave_not_started attempted = attempted
leave_not_started solved = solved

abbrev pub judged_progress : ℕ → ℕ → Verdict → UserProblemProgress → UserProblemProgress
judged_progress now id v p =
    if is_accepted v.verdict
    then record_best id v (mark_solved now (record p { total_accepted = p.total_accepted + 1 }))
    else record p { progress = leave_not_started p.progress }

module _ (submissions : Table ℕ Submission ◌==◌)
    (progresses : Table (ℕ × ℕ) UserProblemProgress same_pair) where
  pub record Db : Type 0 where
    pub submission_rows : submissions.Rows
    pub progress_rows : progresses.Rows
    -- the events emitted so far, the oldest first
    pub events : List SubmissionEvent

  unfoldable pub update_progress_on_submit : ℕ → ℕ → ℕ → Db → Db
  update_progress_on_submit now user problem db =
      let row : UserProblemProgress = elim (progresses.find db.progress_rows (user, problem)) [
        | none ↦ first_attempt now
        | some p ↦ record p { total_attempts = p.total_attempts + 1; last_attempted_at = some now }
      ] in
      record db { progress_rows = progresses.save db.progress_rows (user, problem) row }

  -- Whether the problem is newly solved is the second answer.
  unfoldable pub update_progress_after_judge :
      ℕ → ℕ → ℕ → ℕ → Verdict → progresses.Rows → (Option ProgressStatus × Bool) × progresses.Rows
  update_progress_after_judge now user problem id v rows =
      elim (progresses.find rows (user, problem)) [
        | none ↦ ((none, false), rows)
        | some p ↦ (
          (
            some (judged_progress now id v p).progress,
            is_accepted v.verdict && not (is_solved p.progress),
          ),
          progresses.save rows (user, problem) (judged_progress now id v p),
        )
      ]

  abbrev pub emitted : ℕ → Submission → Verdict → Bool → List SubmissionEvent
  emitted id s v newly_solved =
      judged id s.user s.problem v.verdict
        ∷ (if is_accepted v.verdict then was_accepted id s.user s.problem ∷ [] else [])
      ++ (if newly_solved then problem_solved id s.user s.problem ∷ [] else [])

  abbrev pub judged_submission : ℕ → Verdict → Submission → Submission
  judged_submission now v s = record s {
    status = v.verdict;
    passed_testcases = v.passed;
    runtime_ms = v.runtime;
    memory_kb = v.memory;
    total_testcases = v.total;
    judged_at = some now;
  }

  unfoldable pub judge : ℕ → ℕ → Verdict → Submission → Db → Db
  unfolding update_progress_after_judge
  judge now id v s db =
      let (answer, rows) = update_progress_after_judge now s.user s.problem id v db.progress_rows in
      record {
        submission_rows = submissions.save db.submission_rows id (judged_submission now v s);
        progress_rows = rows;
        events = db.events ++ emitted id s v answer.1;
      }

  -- A submission that is missing or already judged is left as it is.
  unfoldable pub update_submission_after_judge : ℕ → ℕ → Verdict → Db → Db
  unfolding judge
  update_submission_after_judge now id v db = elim (submissions.find db.submission_rows id) [
    | none ↦ db
    | some s ↦ elim s.judged_at [ some t ↦ db | none ↦ judge now id v s db ]
  ]
