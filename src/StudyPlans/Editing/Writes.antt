-- ===== src/StudyPlans/Editing/Writes.antt =====
-- What the writes of an edit do to the estimated days.
use sfinx_backend.Base.{
  if◌then◌else◌, ℕ, ◌≡◌, ◌≢◌, sym, ap, ◌∙◌, inl, inr, Bool, none, some, List, arith, ◌==◌, ==_iff,
  Bool-cases, Option-cases,
}
use mathlib.Core.Option.{some-injective}
use sfinx_backend.Base.Table.{Table}
use sfinx_backend.StudyPlans.{StudyPlan}
use sfinx_backend.StudyPlans.Editing.{StudyPlanItem, ReorderItemDto, moved, Db, sync_estimated_days}
use sfinx_backend.StudyPlans.Editing.Days.{IsGreatest, SameItems, same-IsGreatest, IsEstimated}

module _ (plans : Table ℕ StudyPlan ◌==◌) (items : Table ℕ StudyPlanItem ◌==◌)
    (problem_exists : ℕ → Bool) (greatest_day : items.Rows → ℕ → ℕ) where
  abbrev St : Type 0
  St = Db plans items problem_exists greatest_day

  -- A write to the items of one plan, followed by the sync of that plan.
  pub synced_estimates :
      ((rows : items.Rows) (plan : ℕ) → IsGreatest items rows plan (greatest_day rows plan))
      → (db : St) (rows : items.Rows) (plan : ℕ)
      → IsEstimated plans items problem_exists greatest_day db
      → ((other : ℕ) → other ≢ plan → SameItems items db.item_rows rows other)
      → IsEstimated plans items problem_exists greatest_day (
          sync_estimated_days plans items problem_exists greatest_day
            (record db { item_rows = rows })
            plan)
  synced_estimates greatest db rows plan inv same other p h =
      let found =
        plans.find-update_all db.plan_rows
          (λ id q. if id == plan then record q { estimated_days = greatest_day rows plan } else q)
          other in
      elim (Option-cases (plans.find db.plan_rows other)) [
        | inl missing ↦ absurd (ground (arith, found, missing, h))
        | inr (q, there) ↦ elim (Bool-cases (other == plan)) [
          | inl here ↦
              let e : other ≡ plan = (==_iff other plan).0 here in
              let days : p.estimated_days ≡ greatest_day rows plan =
                ground (arith, found, there, here, h) in
              rw (e, days) (greatest rows plan)
          | inr elsewhere ↦
              let days : p ≡ q = ground (arith, found, there, elsewhere, h) in
              let ne : other ≢ plan = λ e. ground (arith, elsewhere, e) in
              rw days (
                same-IsGreatest items db.item_rows rows other q.estimated_days (same other ne)
                  (inv other q there))
        ]
      ]

  pub kept_estimates :
      (db : St) (plan : ℕ) (p q : StudyPlan)
      → IsEstimated plans items problem_exists greatest_day db
      → plans.find db.plan_rows plan ≡ some p
      → q.estimated_days ≡ p.estimated_days
      → IsEstimated plans items problem_exists greatest_day
          (record db { plan_rows = plans.save db.plan_rows plan q })
  kept_estimates db plan p q inv found days other r h =
      let saved = plans.find-save db.plan_rows plan other q in
      elim (Bool-cases (plan == other)) [
        | inl here ↦
            let e : plan ≡ other = (==_iff plan other).0 here in
            let same : q ≡ r = ground (arith, saved, here, h) in
            let g : IsGreatest items db.item_rows plan q.estimated_days =
              rw days (inv plan p found) in
            rw (← e, ← same) g
        | inr elsewhere ↦ inv other r (ground (arith, saved, elsewhere, h))
      ]

  pub removed_estimates :
      (db : St) (plan : ℕ)
      → IsEstimated plans items problem_exists greatest_day db
      → IsEstimated plans items problem_exists greatest_day (record {
        plan_rows = plans.delete db.plan_rows plan;
        item_rows = items.delete_where db.item_rows (λ id item. item.study_plan_id == plan);
      })
  removed_estimates db plan inv other p h =
      let deleted = plans.find-delete db.plan_rows plan other in
      elim (Bool-cases (plan == other)) [
        | inl here ↦ absurd (ground (arith, deleted, here, h))
        | inr elsewhere ↦
            same-IsGreatest items db.item_rows
              (items.delete_where db.item_rows (λ id item. item.study_plan_id == plan)) other
              p.estimated_days
              (λ id item mine.
                let dropped =
                  items.find-delete_where db.item_rows (λ id item. item.study_plan_id == plan) id in
                (
                  λ there. ground (arith, dropped, there, mine, elsewhere),
                  λ left. elim (Option-cases (items.find db.item_rows id)) [
                    | inl none_there ↦ absurd (ground (arith, dropped, none_there, left))
                    | inr (old, there) ↦ ground (arith, dropped, there, left)
                  ],
                ))
              (inv other p (ground (arith, deleted, elsewhere, h)))
      ]

  -- Writes to the items of one plan.
  pub saved_same :
      (rows : items.Rows) (id plan other : ℕ) (new : StudyPlanItem)
      → items.find rows id ≡ none
      → new.study_plan_id ≡ plan
      → other ≢ plan
      → SameItems items rows (items.save rows id new) other
  saved_same rows id plan other new fresh mine ne i item its =
      let saved = items.find-save rows id i new in
      elim (Bool-cases (id == i)) [
        | inl here ↦ (
          λ there. absurd (ground (arith, here, fresh, there)),
          λ left.
              let e : new ≡ item = ground (arith, saved, here, left) in
              absurd (ne (sym its ∙ sym (ap (λ x. x.study_plan_id) e) ∙ mine)),
        )
        | inr elsewhere ↦ (
          λ there. ground (arith, saved, elsewhere, there),
          λ left. ground (arith, saved, elsewhere, left),
        )
      ]

  pub deleted_same :
      (rows : items.Rows) (id plan other : ℕ) (old : StudyPlanItem)
      → items.find rows id ≡ some old
      → old.study_plan_id ≡ plan
      → other ≢ plan
      → SameItems items rows (items.delete rows id) other
  deleted_same rows id plan other old found mine ne i item its =
      let deleted = items.find-delete rows id i in
      elim (Bool-cases (id == i)) [
        | inl here ↦ (
          λ there.
              let e : old ≡ item = ground (arith, here, found, there) in
              absurd (ne (sym its ∙ sym (ap (λ x. x.study_plan_id) e) ∙ mine)),
          λ left. absurd (ground (arith, deleted, here, left)),
        )
        | inr elsewhere ↦ (
          λ there. ground (arith, deleted, elsewhere, there),
          λ left. ground (arith, deleted, elsewhere, left),
        )
      ]

  pub moved_plan :
      (plan : ℕ) (rs : List ReorderItemDto) (id : ℕ) (item : StudyPlanItem)
      → (moved plan rs id item).study_plan_id ≡ item.study_plan_id
  moved_plan plan rs id item = ground arith

  pub moved_same :
      (rows : items.Rows) (plan other : ℕ) (rs : List ReorderItemDto)
      → other ≢ plan
      → SameItems items rows (items.update_all rows (moved plan rs)) other
  moved_same rows plan other rs ne id item its =
      let updated = items.find-update_all rows (moved plan rs) id in
      elim (Option-cases (items.find rows id)) [
        | inl missing ↦ (
          λ there. absurd (ground (arith, missing, there)),
          λ left. absurd (ground (arith, updated, missing, left)),
        )
        | inr (old, found) ↦ elim (Bool-cases (old.study_plan_id == plan)) [
          | inl mine ↦
              let at_plan : old.study_plan_id ≡ plan = (==_iff old.study_plan_id plan).0 mine in
              (
                λ there.
                    let e : old ≡ item = ground (arith, found, there) in
                    absurd (ne (sym its ∙ sym (ap (λ x. x.study_plan_id) e) ∙ at_plan)),
                λ left.
                    let after : items.find (items.update_all rows (moved plan rs)) id
                        ≡ some (moved plan rs id old) =
                      rw found at updated in
                    let e = some-injective _ _ (sym after ∙ left) in
                    absurd (
                      ne (
                        sym its
                        ∙ sym (ap (λ x. x.study_plan_id) e)
                        ∙ moved_plan plan rs id old
                        ∙ at_plan)),
              )
          | inr others ↦ (
            λ there. ground (arith, updated, found, others, there),
            λ left. ground (arith, updated, found, others, left),
          )
        ]
      ]
