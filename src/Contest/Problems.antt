-- ===== src/Contest/Problems.antt =====
-- src/modules/contest/services/contest.service.ts: the problems of a contest. A label is the code
-- of its character, and the greatest order index of a contest is what a query answers.
pub mod Order
mod Tests
use sfinx_backend.Base.{
  ℕ, suc, ◌+◌, ◌%◌, ◌||◌, not, Bool, true, false, Option, none, some, List, [], ◌∷◌, ◌==◌,
  same_pair, is_some, or_else, if◌then◌else◌, Result, ok, not_found, bad_request, conflict, ◌>>=◌,
  ◌>>◌, throw_if, or_throw,
}
use sfinx_backend.Base.Table.{Table}
use sfinx_backend.Contest.{Contest, Problem, running, ended, same_status}

pub record ContestProblem : Type 0 where
  pub points : ℕ
  pub order_index : ℕ
  pub label : ℕ

pub record AddContestProblem : Type 0 where
  pub problem_id : ℕ
  pub points : Option ℕ
  pub order_index : Option ℕ
  pub label : Option ℕ

-- `String.fromCharCode(65 + index)`
abbrev pub get_default_label : ℕ → ℕ
get_default_label index = (65 + index) % 65_536

-- `contest.status === RUNNING || contest.status === ENDED`
abbrev pub is_frozen : Contest → Bool
is_frozen c = same_status c.status running || same_status c.status ended

module _ (contests : Table ℕ Contest ◌==◌) (problems : Table ℕ Problem ◌==◌)
    (contest_problems : Table (ℕ × ℕ) ContestProblem same_pair)
    (max_order_index : contest_problems.Rows → ℕ → Option ℕ) where
  pub record Db : Type 0 where
    pub contest_rows : contests.Rows
    pub problem_rows : problems.Rows
    pub contest_problem_rows : contest_problems.Rows

  abbrev pub next_index : Db → ℕ → ℕ
  next_index db contest = elim (max_order_index db.contest_problem_rows contest) [
    | none ↦ 0
    | some m ↦ suc m
  ]

  abbrev pub added_problem : Db → ℕ → AddContestProblem → ContestProblem
  added_problem db contest dto =
      let index = or_else dto.order_index (next_index db contest) in
      record {
        points = or_else dto.points 100;
        order_index = index;
        label = or_else dto.label (get_default_label index);
      }

  unfoldable pub add_problem_to_contest : Db → ℕ → AddContestProblem → Result Db
  add_problem_to_contest db contest dto = do
    p ← or_throw (problems.find db.problem_rows dto.problem_id) not_found
    throw_if p.is_premium bad_request
    throw_if (not p.is_active) bad_request
    throw_if (is_some (contest_problems.find db.contest_problem_rows (contest, dto.problem_id)))
        conflict
    ok (record db {
      contest_problem_rows =
          contest_problems.save db.contest_problem_rows (contest, dto.problem_id)
            (added_problem db contest dto);
    })

  -- `result.affected === 0` when there was no such row.
  unfoldable pub remove_problem_from_contest : Db → ℕ → ℕ → Result Db
  remove_problem_from_contest db contest problem = do
    c ← or_throw (contests.find db.contest_rows contest) not_found
    throw_if (is_frozen c) bad_request
    throw_if (not (is_some (contest_problems.find db.contest_problem_rows (contest, problem))))
        not_found
    ok (record db {
      contest_problem_rows = contest_problems.delete db.contest_problem_rows (contest, problem);
    })

  -- `update({ contestId, problemId }, { orderIndex, label })`: a missing row is left missing.
  abbrev pub place : ℕ → contest_problems.Rows → ℕ → ℕ → contest_problems.Rows
  place contest rows problem i = elim (contest_problems.find rows (contest, problem)) [
    | none ↦ rows
    | some cp ↦
        contest_problems.save rows (contest, problem)
          (record cp { order_index = i; label = get_default_label i })
  ]

  unfoldable pub place_all : ℕ → ℕ → List ℕ → contest_problems.Rows → contest_problems.Rows
  place_all contest i [] rows = rows
  place_all contest i (p ∷ ps) rows = place_all contest (suc i) ps (place contest rows p i)

  unfoldable pub reorder_contest_problems : Db → ℕ → List ℕ → Result Db
  unfolding place_all
  reorder_contest_problems db contest order = do
    c ← or_throw (contests.find db.contest_rows contest) not_found
    throw_if (is_frozen c) bad_request
    ok (record db { contest_problem_rows = place_all contest 0 order db.contest_problem_rows })
