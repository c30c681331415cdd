-- ===== src/Submissions.antt =====
-- src/modules/submissions: judging a submission, from the callbacks of the judge to the verdict.
pub mod Verdict
pub mod Callbacks
pub mod Progress
pub mod Finalize
pub mod Statistics
use sfinx_backend.Base.{Bool, true, false}

-- enums/submission-status.enum.ts
pub data SubmissionStatus : Type 0 where
  pending being_run accepted wrong_answer time_limit_exceeded memory_limit_exceeded :
      SubmissionStatus
  runtime_error compilation_error unknown_error : SubmissionStatus

-- `status === SubmissionStatus.ACCEPTED`
abbrev pub is_accepted : SubmissionStatus → Bool
is_accepted s = elim s [ accepted ↦ true | _ ↦ false ]

-- `status === SubmissionStatus.RUNTIME_ERROR`
abbrev pub is_runtime_error : SubmissionStatus → Bool
is_runtime_error s = elim s [ runtime_error ↦ true | _ ↦ false ]
