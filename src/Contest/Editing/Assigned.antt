-- ===== src/Contest/Editing/Assigned.antt =====
-- The problems that a request gives a contest.
use Prim.Native.String.{String}
use sfinx_backend.Base.{
  ℕ, suc, ◌≡◌, refl, inl, inr, true, Option, none, some, List, [], ◌∷◌, arith, ◌==◌, same_pair,
  is_some, or_else, if◌then◌else◌, Bool-cases, Option-cases, Result, ok, Result-cases,
}
use sfinx_backend.Base.Table.{Table}
use sfinx_backend.Contest.{Contest, Problem}
use sfinx_backend.Contest.Problems.{
  ContestProblem, AddContestProblem, get_default_label, Db, added_problem, add_problem_to_contest,
}
use sfinx_backend.Contest.Editing.{with_defaults, add_problems}

-- The row that a request gives a problem.
abbrev pub assigned_row : ℕ → AddContestProblem → ContestProblem
assigned_row i p = record {
  points = or_else p.points 100;
  order_index = or_else p.order_index i;
  label = or_else p.label (get_default_label i);
}

abbrev pub assigned : ℕ → ℕ → List AddContestProblem → Option ContestProblem
assigned q i [] = none
assigned q i (p ∷ ps) =
    let rest = assigned q (suc i) ps in if p.problem_id == q then some (assigned_row i p) else rest

-- The rows of other contests, and of this one where a request gives a problem none.
abbrev or_row : Option ContestProblem → Option ContestProblem → Option ContestProblem
or_row none old = old
or_row (some cp) old = some cp

module _ (slugify : String → String) (contests : Table ℕ Contest ◌==◌)
    (problems : Table ℕ Problem ◌==◌) (contest_problems : Table (ℕ × ℕ) ContestProblem same_pair)
    (max_order_index : contest_problems.Rows → ℕ → Option ℕ) where
  abbrev St : Type 0
  St = Db contests problems contest_problems max_order_index

  -- The rows after a problem was added.
  abbrev with_problem : St → ℕ → AddContestProblem → St
  with_problem db contest dto = record db {
    contest_problem_rows =
        contest_problems.save db.contest_problem_rows (contest, dto.problem_id)
          (added_problem contests problems contest_problems max_order_index db contest dto);
  }

  add_problem_to_contest-ok :
      (db db' : St) (contest : ℕ) (dto : AddContestProblem)
      → add_problem_to_contest contests problems contest_problems max_order_index db contest dto
        ≡ ok db'
      → (contest_problems.find db.contest_problem_rows (contest, dto.problem_id) ≡ none)
        × (db' ≡ with_problem db contest dto)
  unfolding add_problem_to_contest
  add_problem_to_contest-ok db db' contest dto h =
      elim (Option-cases (problems.find db.problem_rows dto.problem_id)) [
        | inl unknown ↦ absurd (ground (arith, h, unknown))
        | inr (p, known) ↦ elim (Bool-cases p.is_premium) [
          | inl premium ↦ absurd (ground (arith, h, known, premium))
          | inr ordinary ↦ elim (Bool-cases p.is_active) [
            | inr inactive ↦ absurd (ground (arith, h, known, ordinary, inactive))
            | inl active ↦
                elim (Option-cases
                  (contest_problems.find db.contest_problem_rows (contest, dto.problem_id))) [
                    | inr (cp, there) ↦ absurd (ground (arith, h, known, ordinary, active, there))
                    | inl new ↦ (new, ground (arith, h, known, ordinary, active, new))
                  ]
          ]
        ]
      ]

  abbrev adding : St → ℕ → ℕ → List AddContestProblem → Result St
  adding = add_problems slugify contests problems contest_problems max_order_index

  -- The first problem was added, then the rest.
  adding_first :
      (p : AddContestProblem) (ps : List AddContestProblem) (db db' : St) (contest i : ℕ)
      → adding db contest i (p ∷ ps) ≡ ok db'
      → (contest_problems.find db.contest_problem_rows (contest, p.problem_id) ≡ none)
        × (adding (with_problem db contest (with_defaults i p)) contest (suc i) ps ≡ ok db')
  unfolding add_problems
  adding_first p ps db db' contest i h =
      elim (Result-cases (
        add_problem_to_contest contests problems contest_problems max_order_index db contest
          (with_defaults i p))) [
            | inl (e, failed) ↦ absurd (ground (arith, h, failed))
            | inr (mid, step) ↦
                let (new, same) =
                  add_problem_to_contest-ok db mid contest (with_defaults i p) step in
                let rest : adding mid contest (suc i) ps ≡ ok db' = rw step at h in
                (new, rw same at rest)
          ]

  adding_first_there :
      (p : AddContestProblem) (db : St) (contest i q : ℕ)
      → (p.problem_id == q) ≡ true
      → is_some (
          contest_problems.find
            (with_problem db contest (with_defaults i p)).contest_problem_rows
            (contest, q))
        ≡ true
  adding_first_there p db contest i q same =
      let row =
        added_problem contests problems contest_problems max_order_index db contest
          (with_defaults i p) in
      ground (
        arith,
        same,
        contest_problems.find-save db.contest_problem_rows (contest, p.problem_id) (contest, q) row,
      )

  not_assigned_again :
      (ps : List AddContestProblem) (db db' : St) (contest i q : ℕ)
      → adding db contest i ps ≡ ok db'
      → is_some (contest_problems.find db.contest_problem_rows (contest, q)) ≡ true
      → assigned q i ps ≡ none
  not_assigned_again [] db db' contest i q h there = refl
  not_assigned_again (p ∷ ps) db db' contest i q h there =
      let (new, rest) = adding_first p ps db db' contest i h in
      let row =
        added_problem contests problems contest_problems max_order_index db contest
          (with_defaults i p) in
      let saved =
        contest_problems.find-save db.contest_problem_rows (contest, p.problem_id) (contest, q)
          row in
      let still : is_some (
            contest_problems.find (with_problem db contest (with_defaults i p)).contest_problem_rows
              (contest, q))
          ≡ true =
        ground (arith, saved, there) in
      let later =
        not_assigned_again ps (with_problem db contest (with_defaults i p)) db' contest (suc i) q
          rest still in
      elim (Bool-cases (p.problem_id == q)) [
        | inl same ↦ absurd (ground (arith, same, new, there))
        | inr other ↦ ground (arith, other, later)
      ]

  -- Each problem of a request that succeeds gets its row, and no other row changes.
  pub add_problems_assigns :
      (ps : List AddContestProblem) (db db' : St) (contest i d q : ℕ)
      → adding db contest i ps ≡ ok db'
      → (db'.contest_rows ≡ db.contest_rows)
        × (contest_problems.find db'.contest_problem_rows (d, q) ≡ (
            let old = contest_problems.find db.contest_problem_rows (d, q) in
            if contest == d then or_row (assigned q i ps) old else old))
  unfolding add_problems
  add_problems_assigns [] db db' contest i d q h = ground (arith, h)
  add_problems_assigns (p ∷ ps) db db' contest i d q h =
      let (new, rest) = adding_first p ps db db' contest i h in
      let mid = with_problem db contest (with_defaults i p) in
      let (same_rows, found) = add_problems_assigns ps mid db' contest (suc i) d q rest in
      let row =
        added_problem contests problems contest_problems max_order_index db contest
          (with_defaults i p) in
      let saved =
        contest_problems.find-save db.contest_problem_rows (contest, p.problem_id) (d, q) row in
      (
        same_rows,
        elim (Bool-cases (contest == d)) [
          | inr elsewhere ↦ ground (arith, found, saved, elsewhere)
          | inl here ↦ elim (Bool-cases (p.problem_id == q)) [
            | inr other ↦ ground (arith, found, saved, here, other)
            | inl same ↦
                let there = adding_first_there p db contest i q same in
                let once = not_assigned_again ps mid db' contest (suc i) q rest there in
                ground (arith, found, saved, here, same, once)
          ]
        ],
      )
