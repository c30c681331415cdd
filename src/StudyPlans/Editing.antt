-- ===== src/StudyPlans/Editing.antt =====
-- src/modules/study-plans/services/study-plan.service.ts: publishing, archiving and removing
-- plans, and editing their items, whose notes are left out. The query for the greatest day number
-- of a plan is a parameter.
pub mod Days
pub mod Writes
pub mod Estimates
mod Tests
use sfinx_backend.Base.{
  ℕ, ◌&&◌, not, Bool, true, false, Option, none, some, List, [], ◌∷◌, ◌==◌, is_some, or_else,
  if◌then◌else◌, Result, ok, not_found, bad_request, ◌>>=◌, ◌>>◌, throw_if, or_throw,
}
use sfinx_backend.Base.Lists.{contains}
use sfinx_backend.Base.Table.{Table}
use sfinx_backend.StudyPlans.{StudyPlan, published, archived}

-- entities/study-plan-item.entity.ts
pub record StudyPlanItem : Type 0 where
  pub study_plan_id : ℕ
  pub problem_id : ℕ
  pub day_number : ℕ
  pub order_index : ℕ

pub record AddStudyPlanItemDto : Type 0 where
  pub problem_id : ℕ
  pub day_number : ℕ
  pub order_index : Option ℕ

-- dto/reorder-items.dto.ts
pub record ReorderItemDto : Type 0 where
  pub id : ℕ
  pub day_number : ℕ
  pub order_index : ℕ

abbrev pub ids : List ReorderItemDto → List ℕ
ids [] = []
ids (r ∷ rs) = r.id ∷ ids rs

-- `uniqueIds.size !== itemIds.length`
abbrev pub has_duplicates : List ℕ → Bool
has_duplicates [] = false
has_duplicates (x ∷ xs) = if contains x xs then true else has_duplicates xs

-- The row of the join for an item.
abbrev pub new_place : ℕ → List ReorderItemDto → Option ReorderItemDto
new_place id [] = none
new_place id (r ∷ rs) = if r.id == id then some r else new_place id rs

-- `SET day_number = v.day_number, order_index = v.order_index WHERE spi.id = v.id AND
-- spi.study_plan_id = $4`
abbrev pub moved : ℕ → List ReorderItemDto → ℕ → StudyPlanItem → StudyPlanItem
moved plan rs id item =
    if item.study_plan_id == plan
    then elim (new_place id rs) [
      | none ↦ item
      | some r ↦ record item { day_number = r.day_number; order_index = r.order_index }
    ]
    else item

module _ (plans : Table ℕ StudyPlan ◌==◌) (items : Table ℕ StudyPlanItem ◌==◌)
    (problem_exists : ℕ → Bool) (greatest_day : items.Rows → ℕ → ℕ) where
  pub record Db : Type 0 where
    pub plan_rows : plans.Rows
    pub item_rows : items.Rows

  abbrev pub sync_estimated_days : Db → ℕ → Db
  sync_estimated_days db plan = record db {
    plan_rows = plans.update_all db.plan_rows (λ id p.
        if id == plan then record p { estimated_days = greatest_day db.item_rows plan } else p);
  }

  -- Items go with their plan (`onDelete: 'CASCADE'`).
  unfoldable pub remove : Db → ℕ → Result Db
  remove db plan = do
    throw_if (not (is_some (plans.find db.plan_rows plan))) not_found
    ok (record {
      plan_rows = plans.delete db.plan_rows plan;
      item_rows = items.delete_where db.item_rows (λ id item. item.study_plan_id == plan);
    })

  unfoldable pub publish : Db → ℕ → Result Db
  publish db plan = do
    p ← or_throw (plans.find db.plan_rows plan) not_found
    throw_if (items.count db.item_rows (λ id item. item.study_plan_id == plan) == 0) bad_request
    ok (record db {
      plan_rows = plans.save db.plan_rows plan (record p { plan_status = published });
    })

  unfoldable pub archive : Db → ℕ → Result Db
  archive db plan = do
    p ← or_throw (plans.find db.plan_rows plan) not_found
    ok (record db {
      plan_rows = plans.save db.plan_rows plan (record p { plan_status = archived });
    })

  -- `id` is the identifier of the new item.
  unfoldable pub add_item : Db → ℕ → ℕ → AddStudyPlanItemDto → Result Db
  add_item db id plan dto = do
    throw_if (not (is_some (plans.find db.plan_rows plan))) not_found
    throw_if (not (problem_exists dto.problem_id)) not_found
    throw_if
        (is_some (
          items.find_where db.item_rows
            (λ i item. (item.study_plan_id == plan) && (item.problem_id == dto.problem_id))))
        bad_request
    ok (
        sync_estimated_days
          (record db {
            item_rows = items.save db.item_rows id (record {
              study_plan_id = plan;
              problem_id = dto.problem_id;
              day_number = dto.day_number;
              order_index = or_else dto.order_index 0;
            });
          })
          plan)

  -- Whether the plan has the item.
  abbrev pub has_item : Db → ℕ → ℕ → Bool
  has_item db plan id = elim (items.find db.item_rows id) [
    | none ↦ false
    | some item ↦ item.study_plan_id == plan
  ]

  -- `result.affected === 0` when there was no such row.
  unfoldable pub remove_item : Db → ℕ → ℕ → Result Db
  remove_item db plan id = do
    throw_if (not (has_item db plan id)) not_found
    ok (sync_estimated_days (record db { item_rows = items.delete db.item_rows id }) plan)

  abbrev pub has_items : Db → ℕ → List ℕ → Bool
  has_items db plan [] = true
  has_items db plan (id ∷ more) = has_item db plan id && has_items db plan more

  unfoldable pub reorder_items : Db → ℕ → List ReorderItemDto → Result Db
  reorder_items db plan rs = do
    throw_if (not (is_some (plans.find db.plan_rows plan))) not_found
    throw_if (not (has_items db plan (ids rs))) bad_request
    throw_if (has_duplicates (ids rs)) bad_request
    ok (
        sync_estimated_days
          (record db { item_rows = items.update_all db.item_rows (moved plan rs) }) plan)
