-- ===== src/StudyPlans/Editing/Days.antt =====
-- The estimated days of a plan against the day numbers of its items.
use sfinx_backend.Base.{ℕ, ◌≤◌, ◌≡◌, ◌↔◌, Bool, none, some, List, ◌==◌, Result}
use sfinx_backend.Base.Table.{Table}
use sfinx_backend.StudyPlans.{StudyPlan}
use sfinx_backend.StudyPlans.Editing.{
  StudyPlanItem, AddStudyPlanItemDto, ReorderItemDto, Db, remove, publish, archive, add_item,
  remove_item, reorder_items,
}

-- The calls that edit a plan: the plan and what else they are given.
pub data Edit : Type 0 where
  removes publishes archives : ℕ → Edit
  adds : ℕ → ℕ → AddStudyPlanItemDto → Edit
  drops : ℕ → ℕ → Edit
  reorders : ℕ → List ReorderItemDto → Edit

module _ (items : Table ℕ StudyPlanItem ◌==◌) where
  -- `COALESCE(MAX(day_number), 0)` over the items of a plan.
  pub record IsGreatest (rows : items.Rows) (plan m : ℕ) : Type 0 where
    pub bounds :
        (id : ℕ) (item : StudyPlanItem)
        → items.find rows id ≡ some item
        → item.study_plan_id ≡ plan
        → item.day_number ≤ m
    pub least :
        (n : ℕ)
        → ((id : ℕ) (item : StudyPlanItem)
            → items.find rows id ≡ some item
            → item.study_plan_id ≡ plan
            → item.day_number ≤ n)
        → m ≤ n

  -- A plan has the same items in both.
  abbrev pub SameItems : items.Rows → items.Rows → ℕ → Type 0
  SameItems rows rows' plan =
      (id : ℕ) (item : StudyPlanItem)
      → item.study_plan_id ≡ plan
      → (items.find rows id ≡ some item) ↔ (items.find rows' id ≡ some item)

  pub same-IsGreatest :
      (rows rows' : items.Rows) (plan m : ℕ)
      → SameItems rows rows' plan
      → IsGreatest rows plan m
      → IsGreatest rows' plan m
  same-IsGreatest rows rows' plan m same g = record {
    bounds = λ id item h mine. g.bounds id item ((same id item mine).1 h) mine;
    least = λ n above. g.least n (λ id item h mine. above id item ((same id item mine).0 h) mine);
  }

module _ (plans : Table ℕ StudyPlan ◌==◌) (items : Table ℕ StudyPlanItem ◌==◌)
    (problem_exists : ℕ → Bool) (greatest_day : items.Rows → ℕ → ℕ) where
  abbrev St : Type 0
  St = Db plans items problem_exists greatest_day

  abbrev pub IsEstimated : St → Type 0
  IsEstimated db =
      (plan : ℕ) (p : StudyPlan)
      → plans.find db.plan_rows plan ≡ some p
      → IsGreatest items db.item_rows plan p.estimated_days

  abbrev pub edited : Edit → St → Result St
  edited (removes plan) db = remove plans items problem_exists greatest_day db plan
  edited (publishes plan) db = publish plans items problem_exists greatest_day db plan
  edited (archives plan) db = archive plans items problem_exists greatest_day db plan
  edited (adds id plan dto) db = add_item plans items problem_exists greatest_day db id plan dto
  edited (drops plan id) db = remove_item plans items problem_exists greatest_day db plan id
  edited (reorders plan rs) db = reorder_items plans items problem_exists greatest_day db plan rs

  -- The database gives a new item an identifier that no item has.
  abbrev pub IsFresh : Edit → St → Type 0
  IsFresh (adds id plan dto) db = items.find db.item_rows id ≡ none
  IsFresh _ db = Unit
