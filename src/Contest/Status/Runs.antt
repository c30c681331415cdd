-- ===== src/Contest/Status/Runs.antt =====
-- Every sequence of lifecycle operations follows the state machine of Transitions.
use sfinx_backend.Base.{
  ℕ, ◌≡◌, refl, inl, inr, Bool, Option, none, some, List, [], ◌∷◌, arith, state_after, ◌==◌,
  Option-cases,
}
use sfinx_backend.Base.Table.{Table, map_row}
use sfinx_backend.Contest.{Contest, running, ended, cancelled, Problem}
use sfinx_backend.Contest.Status.{
  Db, start_contest, end_contest, cancel_contest, delete_contest, start_due, end_due,
  update_contest_statuses, publish_contest_problems, publish_all,
}
use sfinx_backend.Contest.Status.Transitions.{
  Moves-trans, Outcome, Outcome-trans, ended_Outcome, start_due-Moves, end_due-Moves,
}
use sfinx_backend.Contest.Status.Operations.{
  stay_Outcome, start_contest-Outcome, cancel_contest-Outcome, end_contest-Outcome,
  delete_contest-Outcome,
}

-- The lifecycle operations, as calls.
pub data Call : Type 0 where
  starts cancels removes : ℕ → Call
  ends : ℕ → ℕ → Call
  sweeps : ℕ → Call

module _ (contests : Table ℕ Contest ◌==◌) (problems : Table ℕ Problem ◌==◌)
    (belongs : ℕ → ℕ → Bool) (started : contests.Rows → List ℕ) where
  pub step : Db contests problems → Call → Db contests problems
  step db (starts id) = state_after db (start_contest contests problems belongs db id)
  step db (cancels id) = state_after db (cancel_contest contests problems db id)
  step db (removes id) = state_after db (delete_contest contests problems db id)
  step db (ends now id) = state_after db (end_contest contests problems db now id)
  step db (sweeps now) = update_contest_statuses contests problems belongs started db now

  pub run : Db contests problems → List Call → Db contests problems
  run db [] = db
  run db (c ∷ cs) = run (step db c) cs

  abbrev at : Db contests problems → ℕ → Option Contest
  at db id = contests.find db.contest_rows id

  publish_all-contest_rows :
      (db : Db contests problems) (ids : List ℕ)
      → (publish_all contests problems belongs db ids).contest_rows ≡ db.contest_rows
  unfolding publish_all publish_contest_problems
  publish_all-contest_rows db [] = refl
  publish_all-contest_rows db (id ∷ ids) =
      publish_all-contest_rows (publish_contest_problems contests problems belongs db id) ids

  -- The sweep starts what is due and then ends what is due.
  pub find-sweep :
      (db : Db contests problems) (now j : ℕ)
      → at (update_contest_statuses contests problems belongs started db now) j
        ≡ map_row (end_due now j) (map_row (start_due now j) (at db j))
  unfolding update_contest_statuses
  find-sweep db now j =
      rw (contests.find-update_all, publish_all-contest_rows, contests.find-update_all)

  sweep-Outcome :
      (db : Db contests problems) (now j : ℕ) (c : Contest)
      → at db j ≡ some c
      → Outcome c.status (at (update_contest_statuses contests problems belongs started db now) j)
  sweep-Outcome db now j c h =
      rw (find-sweep db now j, h)
        (Moves-trans (start_due-Moves now j c) (end_due-Moves now j (start_due now j c)))

  pub step-Outcome :
      (call : Call) (db : Db contests problems) (j : ℕ) (c : Contest)
      → at db j ≡ some c
      → Outcome c.status (at (step db call) j)
  unfolding step
  step-Outcome (starts id) db j c h = start_contest-Outcome contests problems belongs db id j c h
  step-Outcome (cancels id) db j c h = cancel_contest-Outcome contests problems belongs db id j c h
  step-Outcome (removes id) db j c h = delete_contest-Outcome contests problems belongs db id j c h
  step-Outcome (ends now id) db j c h =
      end_contest-Outcome contests problems belongs db now id j c h
  step-Outcome (sweeps now) db j c h = sweep-Outcome db now j c h

  step_missing :
      (call : Call) (db : Db contests problems) (j : ℕ)
      → at db j ≡ none
      → at (step db call) j ≡ none
  unfolding step start_contest end_contest cancel_contest delete_contest publish_contest_problems
  step_missing (starts id) db j h = elim (Option-cases (at db id)) [
    | inl missing ↦ rw missing h
    | inr (old, found) ↦
        ground (arith, contests.find-save db.contest_rows id j (record old { status = running }))
  ]
  step_missing (cancels id) db j h = elim (Option-cases (at db id)) [
    | inl missing ↦ rw missing h
    | inr (old, found) ↦
        ground (arith, contests.find-save db.contest_rows id j (record old { status = cancelled }))
  ]
  step_missing (removes id) db j h = elim (Option-cases (at db id)) [
    | inl missing ↦ rw missing h
    | inr (old, found) ↦ ground (arith, contests.find-delete db.contest_rows id j)
  ]
  step_missing (ends now id) db j h = elim (Option-cases (at db id)) [
    | inl missing ↦ rw missing h
    | inr (old, found) ↦
        ground (arith, contests.find-save db.contest_rows id j (record old { status = ended }))
  ]
  step_missing (sweeps now) db j h = rw (find-sweep db now j, h)

  run_missing :
      (calls : List Call) (db : Db contests problems) (j : ℕ)
      → at db j ≡ none
      → at (run db calls) j ≡ none
  unfolding run
  run_missing [] db j h = h
  run_missing (call ∷ calls) db j h = run_missing calls (step db call) j (step_missing call db j h)

  -- Whatever sequence of starts, ends, cancellations, deletions and sweeps is made, a contest moves
  -- only from scheduled to running or ended, from running to ended, and from any state but ended
  -- to cancelled; it is deleted only after it has got to draft or cancelled.
  pub run-Outcome :
      (calls : List Call) (db : Db contests problems) (j : ℕ) (c : Contest)
      → contests.find db.contest_rows j ≡ some c
      → Outcome c.status (contests.find (run db calls).contest_rows j)
  unfolding run
  run-Outcome [] db j c h = stay_Outcome contests problems belongs db j c h
  run-Outcome (call ∷ calls) db j c h =
      let now_there = step-Outcome call db j c h in
      elim (Option-cases (at (step db call) j)) [
        | inl gone ↦ rw (run_missing calls (step db call) j gone) (rw gone at now_there)
        | inr (c', found) ↦
            Outcome-trans (at (run (step db call) calls) j) (rw found at now_there)
              (run-Outcome calls (step db call) j c' found)
      ]

  -- An ended contest stays: no sequence of starts, ends, cancellations, deletions and sweeps
  -- removes it or gives it another status.
  pub run_ended :
      (calls : List Call) (db : Db contests problems) (j : ℕ) (c : Contest)
      → contests.find db.contest_rows j ≡ some c
      → c.status ≡ ended
      → (c' : Contest) × (contests.find (run db calls).contest_rows j ≡ some c')
        × (c'.status ≡ ended)
  run_ended calls db j c h over = ended_Outcome c.status _ over (run-Outcome calls db j c h)
