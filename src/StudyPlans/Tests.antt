-- ===== src/StudyPlans/Tests.antt =====
-- Study plans on list tables: the theorems at concrete inputs.
use sfinx_backend.Base.{
  ℕ, ◌≡◌, ◌↔◌, refl, Bool, true, false, some, List, [], ◌∷◌, arith, ◌==◌, same_pair,
}
use sfinx_backend.Base.Int.{pos}
use sfinx_backend.Base.Lists.{count_by, All}
use sfinx_backend.Base.Table.{Table, number_table, pair_table}
use sfinx_backend.StudyPlans.{
  StudyPlan, StudyPlanEnrollment, published, new_enrollment, is_completed, Db,
  sync_enrollment_progress,
}
use sfinx_backend.StudyPlans.Counting.{AllCounted, enrolls, after_call, after_call-AllCounted}
use sfinx_backend.StudyPlans.Progress.{sync_enrollment_progress_completes}

abbrev plans : Table ℕ StudyPlan ◌==◌
plans = number_table StudyPlan

abbrev enrollments : Table (ℕ × ℕ) StudyPlanEnrollment same_pair
enrollments = pair_table StudyPlanEnrollment

abbrev items : ℕ → List ℕ
items plan = 3 ∷ 4 ∷ []

-- User 8 has solved both problems.
abbrev solved : ℕ → ℕ → Bool
solved user problem = user == 8

abbrev basics : StudyPlan
basics = record {
  plan_status = published;
  is_premium = false;
  enrollment_count = pos 1;
  estimated_days = 3;
}

abbrev db : Db plans enrollments items solved
unfolding number_table pair_table
db = record {
  plan_rows = ((1, basics) ∷ [], (refl, tt));
  enrollment_rows = (((1, 8), new_enrollment) ∷ [], (refl, tt));
}

db-AllCounted : AllCounted plans enrollments items solved db
unfolding number_table pair_table
db-AllCounted plan p h = ground arith

after_call-AllCounted_example :
    AllCounted plans enrollments items solved
      (after_call plans enrollments items solved (enrolls 50 1 9 false) db)
after_call-AllCounted_example =
    after_call-AllCounted plans enrollments items solved (enrolls 50 1 9 false) db db-AllCounted

enrolled_there : enrollments.find db.enrollment_rows (1, 8) ≡ some new_enrollment
unfolding number_table pair_table db
enrolled_there = refl

sync_enrollment_progress_completes_example :
    let db' = sync_enrollment_progress plans enrollments items solved db 60 1 8 in
    (is_completed new_enrollment.status ≡ true → db' ≡ db)
    × (is_completed new_enrollment.status ≡ false
        → (q : StudyPlanEnrollment) × (enrollments.find db'.enrollment_rows (1, 8) ≡ some q)
          × (q.solved_count ≡ count_by (solved 8) (items 1))
          × ((is_completed q.status ≡ true) ↔ All (λ x. solved 8 x ≡ true) (items 1))
          × (is_completed q.status ≡ true → q.completed_at ≡ some 60))
sync_enrollment_progress_completes_example =
    sync_enrollment_progress_completes plans enrollments items solved db 60 1 8 3 (4 ∷ [])
      new_enrollment enrolled_there refl
