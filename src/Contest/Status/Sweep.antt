-- ===== src/Contest/Status/Sweep.antt =====
-- What the scheduled sweep and a start leave behind.
use sfinx_backend.Base.{
  ℕ, ◌≤◌, ◌≡◌, sym, ◌∙◌, inl, inr, Bool, true, false, Option, none, some, List, arith, ok, ◌==◌,
  Option-cases,
}
use sfinx_backend.Base.Table.{Table, map_row}
use sfinx_backend.Contest.{Contest, ContestStatus, scheduled, running, same_status, Problem}
use sfinx_backend.Contest.Status.{
  Db, start_contest, start_due, end_due, update_contest_statuses, publish, publish_contest_problems,
}
use sfinx_backend.Contest.Status.Runs.{find-sweep}

-- A contest that has nothing left to do at a time.
abbrev pub IsSettled : ℕ → Contest → Type 0
IsSettled now c =
    (c.status ≡ scheduled → ¬ (c.start_time ≤ now)) × (c.status ≡ running → ¬ (c.end_time ≤ now))

IsSettled-row :
    (now id : ℕ) (o : Option Contest) (c : Contest)
    → map_row (end_due now id) (map_row (start_due now id) o) ≡ some c
    → IsSettled now c
IsSettled-row now id none c h = (λ a b. cc, λ a b. cc)
IsSettled-row now id (some old) c h = (λ a b. ground arith, λ a b. ground arith)

same_status_eq : (s t : ContestStatus) → same_status s t ≡ true → s ≡ t
same_status_eq s t h = ground arith

published_row :
    (belongs : ℕ → Bool) (p : ℕ) (o : Option Problem) (row : Problem)
    → map_row (publish belongs p) o ≡ some row
    → belongs p ≡ true
    → row.is_draft ≡ false
published_row belongs p none row h is_in = cc
published_row belongs p (some old) row h is_in = ground arith

module _ (contests : Table ℕ Contest ◌==◌) (problems : Table ℕ Problem ◌==◌)
    (belongs : ℕ → ℕ → Bool) (started : contests.Rows → List ℕ) where
  -- After the sweep no contest is scheduled with its start time passed, and none is running with
  -- its end time passed; one that was both late to start and late to end has ended.
  pub update_contest_statuses-IsSettled :
      (db : Db contests problems) (now id : ℕ) (c : Contest)
      → contests.find
          (update_contest_statuses contests problems belongs started db now).contest_rows
          id
        ≡ some c
      → IsSettled now c
  update_contest_statuses-IsSettled db now id c h =
      IsSettled-row now id (contests.find db.contest_rows id) c
        (sym (find-sweep contests problems belongs started db now id) ∙ h)

  -- A start that succeeds runs a contest that was scheduled, and publishes its problems: each of
  -- them is no draft afterwards, and the other problems are as they were.
  pub start_contest_publishes :
      (db db' : Db contests problems) (id : ℕ)
      → start_contest contests problems belongs db id ≡ ok db'
      → (c : Contest) × (contests.find db.contest_rows id ≡ some c)
        × (c.status ≡ scheduled)
        × (contests.find db'.contest_rows id ≡ some (record c { status = running }))
        × ((p : ℕ) (row : Problem)
            → problems.find db'.problem_rows p ≡ some row
            → belongs id p ≡ true
            → row.is_draft ≡ false)
        × ((p : ℕ)
            → belongs id p ≡ false
            → problems.find db'.problem_rows p ≡ problems.find db.problem_rows p)
  unfolding start_contest publish_contest_problems
  start_contest_publishes db db' id h = elim (Option-cases (contests.find db.contest_rows id)) [
    | inl missing ↦ absurd (ground arith)
    | inr (c, found) ↦
        let all = problems.find-update_all db.problem_rows (publish (belongs id)) in
        let rows : db'.problem_rows ≡ problems.update_all db.problem_rows (publish (belongs id)) =
          ground arith in
        (
          c,
          found,
          same_status_eq c.status scheduled (ground arith),
          ground (arith, contests.find-save db.contest_rows id id (record c { status = running })),
          λ p row at_p is_in.
              published_row (belongs id) p _ row (sym (all p) ∙ rw rows at at_p) is_in,
          λ p is_out. ground (arith, all p, Option-cases (problems.find db.problem_rows p)),
        )
  ]
