-- ===== src/Contest.antt =====
-- src/modules/contest: the entities that its services write, and the tables that their
-- repositories stand for. Dates are numbers of milliseconds; points and scores are numbers.
pub mod Status
pub mod Participants
pub mod Scoring
pub mod Rating
pub mod Problems
pub mod Editing
use Prim.Native.String.{String}
use sfinx_backend.Base.{ℕ, Bool, true, false, Option, List, ◌==◌, same_pair}
use sfinx_backend.Base.Int.{ℤ}
use sfinx_backend.Base.Table.{Table}

-- enums/contest-status.enum.ts
pub data ContestStatus : Type 0 where
  draft scheduled running ended cancelled : ContestStatus

abbrev pub same_status : ContestStatus → ContestStatus → Bool
same_status draft draft = true
same_status scheduled scheduled = true
same_status running running = true
same_status ended ended = true
same_status cancelled cancelled = true
same_status _ _ = false

-- entities/contest.entity.ts. The participant count is an integer column that is decremented with
-- no test.
pub record Contest : Type 0 where
  pub title : String
  pub slug : String
  pub start_time : ℕ
  pub end_time : ℕ
  pub status : ContestStatus
  pub participant_count : ℤ
  pub max_participants : ℕ
  pub duration_minutes : ℕ

-- entities/contest-participant.entity.ts: `ProblemScore`, with the score in hundredths and the
-- times in milliseconds.
pub record ProblemScore : Type 0 where
  pub score : ℕ
  pub submissions : ℕ
  pub last_submit_time : Option ℕ
  pub first_ac_time : Option ℕ

-- `problemScores` is an object keyed by problem id. `total_score` is in hundredths, as its column
-- of scale 2 is; `finish_time` is a sum of milliseconds.
pub record ContestParticipant : Type 0 where
  pub total_score : ℕ
  pub solved_count : ℕ
  pub finish_time : ℕ
  pub problem_scores : List (ℕ × ProblemScore)
  pub total_submissions : ℕ
  pub last_submission_at : Option ℕ
  pub started_at : ℕ

-- What the services send to BullMQ and to the event emitter.
pub data Effect : Type 0 where
  contest_created contest_updated contest_deleted : ℕ → Effect
  rate_job : ℕ → Effect

-- problems/entities/problem.entity.ts: the columns that the contest services read or write.
pub record Problem : Type 0 where
  pub is_premium : Bool
  pub is_active : Bool
  pub is_draft : Bool
