-- ===== src/Contest/Participants.antt =====
-- src/modules/contest/services/contest.service.ts: joining and leaving a contest, one call after
-- another.
pub mod Counting
pub mod Joining
mod Tests
use sfinx_backend.Base.{
  ℕ, ◌≡◌, Bool, not, ◌&&◌, Option, none, some, List, [], ◌∷◌, Result, ok, Exception, not_found,
  bad_request, ◌>>=◌, ◌>>◌, throw_if, or_throw, is_some, ltb, leb, ◌==◌, same_pair, if◌then◌else◌,
}
use sfinx_backend.Base.Int.{ℤ, pos, ◌+ℤ◌, ◌-ℤ◌, ltb_ℤ}
use sfinx_backend.Base.Table.{Table}
use sfinx_backend.Contest.{Contest, ContestParticipant, scheduled, running, same_status}

-- `contestId = :contestId`
abbrev pub is_in : ℕ → ℕ × ℕ → ContestParticipant → Bool
is_in contest (c, user) p = c == contest

-- `count({ where: { contestId, userId } })`
abbrev pub is_row : ℕ → ℕ → ℕ × ℕ → ContestParticipant → Bool
is_row contest user key p = same_pair key (contest, user)

-- The row that `joinContest` creates.
abbrev pub new_participant : ℕ → ContestParticipant
new_participant now = record {
  total_score = 0;
  solved_count = 0;
  finish_time = 0;
  problem_scores = [];
  total_submissions = 0;
  last_submission_at = none;
  started_at = now;
}

module _ (contests : Table ℕ Contest ◌==◌)
    (participants : Table (ℕ × ℕ) ContestParticipant same_pair) where
  pub record Db : Type 0 where
    pub contest_rows : contests.Rows
    pub participant_rows : participants.Rows

  -- `increment` and `decrement` of `participantCount`
  abbrev pub count_by : (ℤ → ℤ) → contests.Rows → ℕ → contests.Rows
  count_by f s id = elim (contests.find s id) [
    | none ↦ s
    | some c ↦ contests.save s id (record c { participant_count = f c.participant_count })
  ]

  abbrev join_new : Db → ℕ → ℕ → ℕ → Contest → Result (ContestParticipant × Db)
  join_new db now contest user c = do
    throw_if (not (same_status c.status scheduled) && not (same_status c.status running))
        bad_request
    throw_if (ltb 0 c.max_participants && not (ltb_ℤ c.participant_count (pos c.max_participants)))
        bad_request
    ok (
      new_participant now,
      record {
        participant_rows =
            participants.save db.participant_rows (contest, user) (new_participant now);
        contest_rows = count_by (λ n. n +ℤ pos 1) db.contest_rows contest;
      },
    )

  pub join_contest : Db → ℕ → ℕ → ℕ → Result (ContestParticipant × Db)
  join_contest db now contest user = do
    c ← or_throw (contests.find db.contest_rows contest) not_found
    elim (participants.find db.participant_rows (contest, user)) [
      | some existing ↦ ok (existing, db)
      | none ↦ join_new db now contest user c
    ]

  -- `result.affected === 0` when there was no such row.
  pub unregister_from_contest : Db → ℕ → ℕ → Result Db
  unregister_from_contest db contest user = do
    c ← or_throw (contests.find db.contest_rows contest) not_found
    throw_if (not (same_status c.status scheduled)) bad_request
    throw_if (not (is_some (participants.find db.participant_rows (contest, user)))) not_found
    ok (record {
      participant_rows = participants.delete db.participant_rows (contest, user);
      contest_rows = count_by (λ n. n -ℤ pos 1) db.contest_rows contest;
    })

  pub is_user_registered : Db → ℕ → ℕ → Bool
  is_user_registered db contest user =
      ltb 0 (participants.count db.participant_rows (is_row contest user))
