-- ===== src/Contest/Status/Operations.antt =====
-- startContest, cancelContest, endContest and deleteContest each take a contest along the state
-- machine of Transitions.
use sfinx_backend.Base.{
  ℕ, ◌≡◌, ◌⊎◌, inl, inr, Bool, not, ◌&&◌, Option, some, arith, state_after, ◌==◌, Bool-cases,
  Option-cases, ltb,
}
use mathlib.Core.Path.{subst}
use sfinx_backend.Base.Table.{Table}
use sfinx_backend.Contest.{
  Contest, ContestStatus, draft, scheduled, running, ended, cancelled, same_status, Problem,
}
use sfinx_backend.Contest.Status.{
  Db, start_contest, end_contest, cancel_contest, delete_contest, publish_contest_problems,
}
use sfinx_backend.Contest.Status.Transitions.{
  cancel, Moves, stay, move, Outcome, started_Moves, finished_Moves, deleted_Moves,
}

module _ (contests : Table ℕ Contest ◌==◌) (problems : Table ℕ Problem ◌==◌)
    (belongs : ℕ → ℕ → Bool) where
  abbrev at : Db contests problems → ℕ → Option Contest
  at db id = contests.find db.contest_rows id

  pub stay_Outcome :
      (db : Db contests problems) (j : ℕ) (c : Contest)
      → at db j ≡ some c
      → Outcome c.status (at db j)
  stay_Outcome db j c h = rw h (stay c.status)

  save_Outcome :
      (db : Db contests problems) (id j : ℕ) (old c : Contest) (s : ContestStatus)
      → at db id ≡ some old
      → Moves old.status s
      → at db j ≡ some c
      → Outcome c.status
          (contests.find (contests.save db.contest_rows id (record old { status = s })) j)
  save_Outcome db id j old c s found m h = elim (Bool-cases (id == j)) [
    | inl same ↦
        let e : old.status ≡ c.status = ground arith in
        rw (contests.find-save db.contest_rows id j (record old { status = s }), same)
          (subst (λ t. Moves t s) e m)
    | inr other ↦
        rw (contests.find-save db.contest_rows id j (record old { status = s }), other, h)
          (stay c.status)
  ]

  pub start_contest-Outcome :
      (db : Db contests problems) (id j : ℕ) (c : Contest)
      → at db j ≡ some c
      → Outcome c.status (at (state_after db (start_contest contests problems belongs db id)) j)
  unfolding start_contest publish_contest_problems
  start_contest-Outcome db id j c h = elim (Option-cases (at db id)) [
    | inl missing ↦ rw missing (stay_Outcome db j c h)
    | inr (old, found) ↦ elim (Bool-cases (same_status old.status scheduled)) [
      | inl ready ↦
          rw (found, ready)
            (save_Outcome db id j old c running found (started_Moves old.status ready) h)
      | inr not_ready ↦ rw (found, not_ready) (stay_Outcome db j c h)
    ]
  ]

  pub cancel_contest-Outcome :
      (db : Db contests problems) (id j : ℕ) (c : Contest)
      → at db j ≡ some c
      → Outcome c.status (at (state_after db (cancel_contest contests problems db id)) j)
  unfolding cancel_contest
  cancel_contest-Outcome db id j c h = elim (Option-cases (at db id)) [
    | inl missing ↦ rw missing (stay_Outcome db j c h)
    | inr (old, found) ↦ elim (Bool-cases (same_status old.status ended)) [
      | inl over ↦ rw (found, over) (stay_Outcome db j c h)
      | inr open_still ↦
          rw (found, open_still)
            (save_Outcome db id j old c cancelled found
              (move (cancel old.status open_still) (stay cancelled)) h)
    ]
  ]

  pub end_contest-Outcome :
      (db : Db contests problems) (now id j : ℕ) (c : Contest)
      → at db j ≡ some c
      → Outcome c.status (at (state_after db (end_contest contests problems db now id)) j)
  unfolding end_contest
  end_contest-Outcome db now id j c h = elim (Option-cases (at db id)) [
    | inl missing ↦ rw missing (stay_Outcome db j c h)
    | inr (old, found) ↦
        elim (Bool-cases
          (not (same_status old.status running) && not (same_status old.status scheduled))) [
            | inl neither ↦ rw (found, neither) (stay_Outcome db j c h)
            | inr either ↦
                elim (Bool-cases (same_status old.status scheduled && ltb now old.end_time)) [
                  | inl early ↦ rw (found, either, early) (stay_Outcome db j c h)
                  | inr due ↦
                      rw (found, either, due)
                        (save_Outcome db id j old c ended found (finished_Moves old.status either)
                          h)
                ]
          ]
  ]

  pub delete_contest-Outcome :
      (db : Db contests problems) (id j : ℕ) (c : Contest)
      → at db j ≡ some c
      → Outcome c.status (at (state_after db (delete_contest contests problems db id)) j)
  unfolding delete_contest
  delete_contest-Outcome db id j c h = elim (Option-cases (at db id)) [
    | inl missing ↦ rw missing (stay_Outcome db j c h)
    | inr (old, found) ↦
        elim (Bool-cases
          (not (same_status old.status draft) && not (same_status old.status cancelled))) [
            | inl neither ↦ rw (found, neither) (stay_Outcome db j c h)
            | inr either ↦
                rw (found, either)
                  (let gone = contests.find-delete db.contest_rows id j in
                    elim (Bool-cases (id == j)) [
                      | inl same ↦
                          let e : old.status ≡ c.status = ground arith in
                          rw (gone, same)
                            (subst (λ s. Moves s draft ⊎ Moves s cancelled) e
                              (deleted_Moves old.status either))
                      | inr other ↦ rw (gone, other) (stay_Outcome db j c h)
                    ])
          ]
  ]
