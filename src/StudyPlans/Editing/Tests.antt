-- ===== src/StudyPlans/Editing/Tests.antt =====
-- Editing plans on list tables: the theorem at a concrete input.
use mathlib.Core.Option.{none-ne-some}
use sfinx_backend.Base.{
  ℕ, ◌≤◌, ◌≡◌, refl, ap, ◌∙◌, Bool, true, false, some, List, [], ◌∷◌, ◌==◌, ==_iff, if◌then◌else◌,
  arith, max, inl, inr, Bool-cases, state_after,
}
use sfinx_backend.Base.Int.{pos}
use sfinx_backend.Base.Table.{Table, number_table}
use sfinx_backend.StudyPlans.{StudyPlan, published}
use sfinx_backend.StudyPlans.Editing.{StudyPlanItem, ReorderItemDto, Db, reorder_items}
use sfinx_backend.StudyPlans.Editing.Days.{IsGreatest, IsEstimated, edited, reorders}
use sfinx_backend.StudyPlans.Editing.Estimates.{edited-IsEstimated}

abbrev plans : Table ℕ StudyPlan ◌==◌
plans = number_table StudyPlan

abbrev items : Table ℕ StudyPlanItem ◌==◌
items = number_table StudyPlanItem

abbrev any_problem : ℕ → Bool
any_problem id = true

abbrev greatest_in : ℕ → List (ℕ × StudyPlanItem) → ℕ
greatest_in plan [] = 0
greatest_in plan ((id, item) ∷ rows) =
    let rest = greatest_in plan rows in
    if item.study_plan_id == plan then max item.day_number rest else rest

abbrev greatest_day : items.Rows → ℕ → ℕ
unfolding number_table
greatest_day rows plan = greatest_in plan rows.0

greatest_bounds :
    (rows : items.Rows) (plan id : ℕ) (item : StudyPlanItem)
    → items.find rows id ≡ some item
    → item.study_plan_id ≡ plan
    → item.day_number ≤ greatest_day rows plan
unfolding number_table greatest_day
greatest_bounds ([], u) plan id item h mine = absurd (none-ne-some item h)
greatest_bounds ((k, v) ∷ l, u) plan id item h mine =
    let rest = greatest_bounds (l, u.1) plan id item in
    elim (Bool-cases (id == k)) [
      | inl here ↦
          let e : v ≡ item = ground (arith, here, h) in
          let own : v.study_plan_id ≡ plan = ap (λ x. x.study_plan_id) e ∙ mine in
          let kept = (==_iff v.study_plan_id plan).1 own in rw (← e) (ground (arith, kept))
      | inr elsewhere ↦
          let later = rest (ground (arith, elsewhere, h)) mine in ground (arith, later)
    ]

greatest_least :
    (rows : items.Rows) (plan n : ℕ)
    → ((id : ℕ) (item : StudyPlanItem)
        → items.find rows id ≡ some item
        → item.study_plan_id ≡ plan
        → item.day_number ≤ n)
    → greatest_day rows plan ≤ n
unfolding number_table greatest_day
greatest_least ([], u) plan n above = omega arith
greatest_least ((k, v) ∷ l, u) plan n above =
    let first = above k v (ground (arith, (==_iff k k).1 refl)) in
    let rest =
      greatest_least (l, u.1) plan n
        (λ id item h mine. above id item (ground (arith, u.0, h, ==_iff id k)) mine) in
    ground (arith, first, rest, ==_iff v.study_plan_id plan)

greatest : (rows : items.Rows) (plan : ℕ) → IsGreatest items rows plan (greatest_day rows plan)
greatest rows plan = record { bounds = greatest_bounds rows plan; least = greatest_least rows plan }

abbrev basics : StudyPlan
basics = record {
  plan_status = published;
  is_premium = false;
  enrollment_count = pos 1;
  estimated_days = 3;
}

-- Study plan 1 has a problem on day 1 and one on day 3.
abbrev db : Db plans items any_problem greatest_day
unfolding number_table
db = record {
  plan_rows = ((1, basics) ∷ [], (refl, tt));
  item_rows = (
    (10, record { study_plan_id = 1; problem_id = 5; day_number = 1; order_index = 0 })
        ∷ (11, record { study_plan_id = 1; problem_id = 6; day_number = 3; order_index = 0 })
        ∷ [],
    (refl, (refl, tt)),
  );
}

db-IsEstimated : IsEstimated plans items any_problem greatest_day db
unfolding number_table db greatest_day
db-IsEstimated plan p h = elim (Bool-cases (plan == 1)) [
  | inl here ↦
      let e : plan ≡ 1 = (==_iff plan 1).0 here in
      let same : basics ≡ p = ground (arith, here, h) in rw (e, ← same) (greatest db.item_rows 1)
  | inr elsewhere ↦ absurd (ground (arith, elsewhere, h))
]

-- Item 11 moves to day 2.
abbrev to_day_two : List ReorderItemDto
to_day_two = record { id = 11; day_number = 2; order_index = 4 } ∷ []

after_reorder :
    state_after db (reorder_items plans items any_problem greatest_day db 1 to_day_two) ≡ record {
      plan_rows = plans.save db.plan_rows 1 (record basics { estimated_days = 2 });
      item_rows =
          items.save db.item_rows 11
            (record { study_plan_id = 1; problem_id = 6; day_number = 2; order_index = 4 });
    }
unfolding number_table reorder_items greatest_day db
after_reorder = refl

edited-IsEstimated_example :
    IsEstimated plans items any_problem greatest_day
      (state_after db (edited plans items any_problem greatest_day (reorders 1 to_day_two) db))
edited-IsEstimated_example =
    edited-IsEstimated plans items any_problem greatest_day greatest (reorders 1 to_day_two) db tt
      db-IsEstimated
