-- ===== src/Contest/Status.antt =====
-- src/modules/contest/services/contest.service.ts: the operations that move a contest through its
-- states. `belongs` says which problems belong to a contest (the subquery of
-- `publishContestProblems`); the caches are not modelled.
pub mod Transitions
pub mod Operations
pub mod Runs
pub mod Sweep
mod Tests
use sfinx_backend.Base.{
  ℕ, ◌-◌, ◌*◌, ◌≡◌, Bool, true, false, not, ◌&&◌, ◌||◌, Option, none, some, List, [], ◌∷◌, Result,
  ok, throws, Exception, not_found, bad_request, ◌>>=◌, ◌>>◌, throw_if, or_throw, ltb, leb, ◌==◌,
  if◌then◌else◌,
}
use sfinx_backend.Base.Table.{Table}
use sfinx_backend.Contest.{
  Contest, ContestStatus, draft, scheduled, running, ended, cancelled, same_status, Problem, Effect,
  contest_updated, contest_deleted, rate_job,
}

-- `durationMinutes < 15` and `> 1440 * 7`, with both sides in milliseconds.
unfoldable pub validate_contest_timing : ℕ → ℕ → Result (Unit {0})
validate_contest_timing start_time end_time = do
  throw_if (leb end_time start_time) bad_request
  throw_if (ltb (end_time - start_time) (15 * 60000)) bad_request
  throw_if (ltb (1440 * 7 * 60000) (end_time - start_time)) bad_request

-- `UPDATE problems SET is_draft = false WHERE id IN (…) AND is_draft = true`
abbrev pub publish : (ℕ → Bool) → ℕ → Problem → Problem
publish belongs id p = if belongs id && p.is_draft then record p { is_draft = false } else p

-- `SET status = RUNNING WHERE status = SCHEDULED AND startTime <= :now`
abbrev pub start_due : ℕ → ℕ → Contest → Contest
start_due now id c =
    if same_status c.status scheduled && leb c.start_time now
    then record c { status = running }
    else c

-- `SET status = ENDED WHERE status = RUNNING AND endTime <= :now`
abbrev pub end_due : ℕ → ℕ → Contest → Contest
end_due now id c =
    if same_status c.status running && leb c.end_time now then record c { status = ended } else c

module _ (contests : Table ℕ Contest ◌==◌) (problems : Table ℕ Problem ◌==◌) where
  pub record Db : Type 0 where
    pub contest_rows : contests.Rows
    pub problem_rows : problems.Rows
    pub effects : List Effect

  pub get_contest_by_id : Db → ℕ → Result Contest
  get_contest_by_id db id = or_throw (contests.find db.contest_rows id) not_found

  abbrev pub set_status : Db → ℕ → Contest → ContestStatus → Db
  set_status db id c st = record db {
    contest_rows = contests.save db.contest_rows id (record c { status = st });
  }

  pub publish_contest_problems : (ℕ → ℕ → Bool) → Db → ℕ → Db
  publish_contest_problems belongs db id = record db {
    problem_rows = problems.update_all db.problem_rows (publish (belongs id));
  }

  pub start_contest : (ℕ → ℕ → Bool) → Db → ℕ → Result Db
  unfolding get_contest_by_id
  start_contest belongs db id = do
    c ← get_contest_by_id db id
    throw_if (not (same_status c.status scheduled)) bad_request
    ok (publish_contest_problems belongs (set_status db id c running) id)

  pub end_contest : Db → ℕ → ℕ → Result Db
  unfolding get_contest_by_id
  end_contest db now id = do
    c ← get_contest_by_id db id
    throw_if (not (same_status c.status running) && not (same_status c.status scheduled))
        bad_request
    throw_if (same_status c.status scheduled && ltb now c.end_time) bad_request
    let db' = set_status db id c ended
    ok (record db' { effects = rate_job id ∷ db'.effects })

  pub cancel_contest : Db → ℕ → Result Db
  unfolding get_contest_by_id
  cancel_contest db id = do
    c ← get_contest_by_id db id
    throw_if (same_status c.status ended) bad_request
    let db' = set_status db id c cancelled
    ok (record db' { effects = contest_updated id ∷ db'.effects })

  pub delete_contest : Db → ℕ → Result Db
  unfolding get_contest_by_id
  delete_contest db id = do
    c ← get_contest_by_id db id
    throw_if (not (same_status c.status draft) && not (same_status c.status cancelled)) bad_request
    ok (record db {
      contest_rows = contests.delete db.contest_rows id;
      effects = contest_deleted id ∷ db.effects;
    })

  -- `started` are the ids that the first statement returns.
  pub publish_all : (ℕ → ℕ → Bool) → Db → List ℕ → Db
  publish_all belongs db [] = db
  publish_all belongs db (id ∷ ids) =
      publish_all belongs (publish_contest_problems belongs db id) ids

  pub update_contest_statuses : (ℕ → ℕ → Bool) → (contests.Rows → List ℕ) → Db → ℕ → Db
  update_contest_statuses belongs started db now =
      let begun = contests.update_all db.contest_rows (start_due now) in
      let published =
        publish_all belongs (record db { contest_rows = begun }) (started db.contest_rows) in
      record published { contest_rows = contests.update_all published.contest_rows (end_due now) }

  pub is_contest_running : Db → ℕ → Result Bool
  unfolding get_contest_by_id
  is_contest_running db id = do c ← get_contest_by_id db id; ok (same_status c.status running)

-- The administrator's role slug is `admin`; others see problems once the contest runs.
pub can_view_problems : Contest → Bool → Bool
can_view_problems c is_admin =
    if is_admin then true else same_status c.status running || same_status c.status ended
