-- ===== src/StudyPlans/Editing/Estimates.antt =====
-- The estimated days stay right.
use sfinx_backend.Base.{
  ◌&&◌, or_else, ℕ, refl, inl, inr, Bool, ◌==◌, ==_iff, is_some, Bool-cases, Option-cases,
  state_after,
}
use sfinx_backend.Base.Table.{Table}
use sfinx_backend.StudyPlans.{StudyPlan, published, archived}
use sfinx_backend.StudyPlans.Editing.{
  StudyPlanItem, moved, Db, remove, publish, archive, add_item, has_items, has_duplicates, ids,
  remove_item, reorder_items,
}
use sfinx_backend.StudyPlans.Editing.Days.{
  Edit, removes, publishes, archives, adds, drops, reorders, IsGreatest, IsEstimated, edited,
  IsFresh,
}
use sfinx_backend.StudyPlans.Editing.Writes.{
  synced_estimates, kept_estimates, removed_estimates, saved_same, deleted_same, moved_same,
}

module _ (plans : Table ℕ StudyPlan ◌==◌) (items : Table ℕ StudyPlanItem ◌==◌)
    (problem_exists : ℕ → Bool) (greatest_day : items.Rows → ℕ → ℕ) where
  abbrev St : Type 0
  St = Db plans items problem_exists greatest_day

  -- Whatever edits come, each plan's estimated days are the greatest day number of its items, and
  -- zero where it has none: an edit that succeeds keeps this true, one that throws leaves the rows.
  -- The hypotheses: the query answers the greatest day number, and a new item's identifier is new.
  pub edited-IsEstimated :
      ((rows : items.Rows) (plan : ℕ) → IsGreatest items rows plan (greatest_day rows plan))
      → (e : Edit) (db : St) → IsFresh plans items problem_exists greatest_day e db
      → IsEstimated plans items problem_exists greatest_day db
      → IsEstimated plans items problem_exists greatest_day
          (state_after db (edited plans items problem_exists greatest_day e db))
  unfolding remove publish archive add_item remove_item reorder_items
  edited-IsEstimated greatest (removes plan) db fresh inv =
      elim (Bool-cases (is_some (plans.find db.plan_rows plan))) [
        | inl there ↦
            rw (remove, there)
              (removed_estimates plans items problem_exists greatest_day db plan inv)
        | inr missing ↦ rw (remove, missing) inv
      ]
  edited-IsEstimated greatest (publishes plan) db fresh inv =
      elim (Option-cases (plans.find db.plan_rows plan)) [
        | inl missing ↦ rw (publish, missing) inv
        | inr (p, there) ↦
            elim (Bool-cases
              (items.count db.item_rows (λ id item. item.study_plan_id == plan) == 0)) [
                | inl none_there ↦ rw (publish, there, none_there) inv
                | inr some_there ↦
                    rw (publish, there, some_there)
                      (kept_estimates plans items problem_exists greatest_day db plan p
                        (record p { plan_status = published }) inv there refl)
              ]
      ]
  edited-IsEstimated greatest (archives plan) db fresh inv =
      elim (Option-cases (plans.find db.plan_rows plan)) [
        | inl missing ↦ rw (archive, missing) inv
        | inr (p, there) ↦
            rw (archive, there)
              (kept_estimates plans items problem_exists greatest_day db plan p
                (record p { plan_status = archived }) inv there refl)
      ]
  edited-IsEstimated greatest (adds id plan dto) db fresh inv =
      let new : StudyPlanItem = record {
        study_plan_id = plan;
        problem_id = dto.problem_id;
        day_number = dto.day_number;
        order_index = or_else dto.order_index 0;
      } in
      let rows = items.save db.item_rows id new in
      elim (Bool-cases (is_some (plans.find db.plan_rows plan))) [
        | inr missing ↦ rw (add_item, missing) inv
        | inl there ↦ elim (Bool-cases (problem_exists dto.problem_id)) [
          | inr unknown ↦ rw (add_item, there, unknown) inv
          | inl known ↦
              elim (Bool-cases (
                is_some (
                  items.find_where db.item_rows (λ i item.
                    (item.study_plan_id == plan) && (item.problem_id == dto.problem_id))))) [
                      | inl again ↦ rw (add_item, there, known, again) inv
                      | inr first ↦
                          rw (add_item, there, known, first)
                            (synced_estimates plans items problem_exists greatest_day greatest db
                              rows plan inv
                              (λ other ne.
                                saved_same plans items problem_exists greatest_day db.item_rows id
                                  plan other new fresh refl ne))
                    ]
        ]
      ]
  edited-IsEstimated greatest (drops plan id) db fresh inv =
      elim (Option-cases (items.find db.item_rows id)) [
        | inl missing ↦ rw (remove_item, state_after, missing) inv
        | inr (old, found) ↦ elim (Bool-cases (old.study_plan_id == plan)) [
          | inr foreign ↦ rw (remove_item, state_after, found, foreign) inv
          | inl mine ↦
              let e = (==_iff old.study_plan_id plan).0 mine in
              rw (remove_item, state_after, found, mine)
                (synced_estimates plans items problem_exists greatest_day greatest db
                  (items.delete db.item_rows id) plan inv
                  (λ other ne.
                    deleted_same plans items problem_exists greatest_day db.item_rows id plan other
                      old found e ne))
        ]
      ]
  edited-IsEstimated greatest (reorders plan rs) db fresh inv =
      elim (Bool-cases (is_some (plans.find db.plan_rows plan))) [
        | inr missing ↦ rw (reorder_items, missing) inv
        | inl there ↦
            elim (Bool-cases (has_items plans items problem_exists greatest_day db plan (ids rs))) [
              | inr foreign ↦ rw (reorder_items, there, foreign) inv
              | inl known ↦ elim (Bool-cases (has_duplicates (ids rs))) [
                | inl twice ↦ rw (reorder_items, there, known, twice) inv
                | inr once ↦
                    rw (reorder_items, there, known, once)
                      (synced_estimates plans items problem_exists greatest_day greatest db
                        (items.update_all db.item_rows (moved plan rs)) plan inv
                        (λ other ne.
                          moved_same plans items problem_exists greatest_day db.item_rows plan other
                            rs ne))
              ]
            ]
      ]
