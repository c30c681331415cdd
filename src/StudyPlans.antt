-- ===== src/StudyPlans.antt =====
-- src/modules/study-plans/services/study-plan-enrollment.service.ts: enrolling in a plan and the
-- progress of an enrollment.
pub mod Counting
pub mod Editing
pub mod Progress
mod Tests
use sfinx_backend.Base.{
  ℕ, ◌+◌, ◌&&◌, not, Bool, true, false, Option, none, some, List, [], ◌∷◌, leb, ◌==◌, same_pair,
  is_some, if◌then◌else◌, Result, ok, not_found, bad_request, forbidden, ◌>>=◌, ◌>>◌, throw_if,
  or_throw,
}
use sfinx_backend.Base.Int.{ℤ, pos, ◌+ℤ◌, ◌-ℤ◌}
use sfinx_backend.Base.Lists.{length, count_by}
use sfinx_backend.Base.Table.{Table}

-- enums/study-plan-status.enum.ts, enums/enrollment-status.enum.ts
pub data StudyPlanStatus : Type 0 where
  draft published archived : StudyPlanStatus

pub data EnrollmentStatus : Type 0 where
  active completed abandoned : EnrollmentStatus

abbrev pub is_published : StudyPlanStatus → Bool
is_published s = elim s [ published ↦ true | _ ↦ false ]

abbrev pub is_completed : EnrollmentStatus → Bool
is_completed s = elim s [ completed ↦ true | _ ↦ false ]

pub record StudyPlan : Type 0 where
  pub plan_status : StudyPlanStatus
  pub is_premium : Bool
  pub enrollment_count : ℤ
  pub estimated_days : ℕ

pub record StudyPlanEnrollment : Type 0 where
  pub status : EnrollmentStatus
  pub current_day : ℕ
  pub solved_count : ℕ
  pub last_activity_at : Option ℕ
  pub completed_at : Option ℕ

abbrev pub new_enrollment : StudyPlanEnrollment
new_enrollment = record {
  status = active;
  current_day = 1;
  solved_count = 0;
  last_activity_at = none;
  completed_at = none;
}

-- The enrollment with the number of solved problems that the query counts, out of a total.
abbrev pub synced : ℕ → ℕ → ℕ → StudyPlanEnrollment → StudyPlanEnrollment
synced now solved total e =
    let counted = record e { solved_count = solved; last_activity_at = some now } in
    if leb total solved
    then record counted { status = completed; completed_at = some now }
    else counted

-- `items` are the problems of a plan, distinct by the table's unique constraint, and `solved` says
-- whether the progress row of a user and a problem says solved.
module _ (plans : Table ℕ StudyPlan ◌==◌)
    (enrollments : Table (ℕ × ℕ) StudyPlanEnrollment same_pair) (items : ℕ → List ℕ)
    (solved : ℕ → ℕ → Bool) where
  pub record Db : Type 0 where
    pub plan_rows : plans.Rows
    pub enrollment_rows : enrollments.Rows

  -- `increment` and `decrement` of `enrollmentCount`
  abbrev pub change_count : (ℤ → ℤ) → plans.Rows → ℕ → plans.Rows
  change_count f s id = elim (plans.find s id) [
    | none ↦ s
    | some p ↦ plans.save s id (record p { enrollment_count = f p.enrollment_count })
  ]

  unfoldable pub sync_enrollment_progress : Db → ℕ → ℕ → ℕ → Db
  sync_enrollment_progress db now plan user =
      elim (enrollments.find db.enrollment_rows (plan, user)) [
        | none ↦ db
        | some e ↦ if is_completed e.status then db else elim (items plan) [
          | [] ↦ db
          | problem ∷ more ↦ record db {
            enrollment_rows =
                enrollments.save db.enrollment_rows (plan, user)
                  (synced now (count_by (solved user) (problem ∷ more)) (length (problem ∷ more))
                    e);
          }
        ]
      ]

  unfoldable pub enroll : Db → ℕ → ℕ → ℕ → Bool → Result Db
  unfolding sync_enrollment_progress
  enroll db now plan user user_is_premium = do
    p ← or_throw (plans.find db.plan_rows plan) not_found
    throw_if (not (is_published p.plan_status)) bad_request
    throw_if (p.is_premium && not user_is_premium) forbidden
    throw_if (is_some (enrollments.find db.enrollment_rows (plan, user))) bad_request
    ok (
        sync_enrollment_progress
          (record {
            enrollment_rows = enrollments.save db.enrollment_rows (plan, user) new_enrollment;
            plan_rows = change_count (λ n. n +ℤ pos 1) db.plan_rows plan;
          })
          now plan user)

  -- `result.affected === 0` when there was no such row.
  unfoldable pub unenroll : Db → ℕ → ℕ → Result Db
  unenroll db plan user = do
    throw_if (not (is_some (enrollments.find db.enrollment_rows (plan, user)))) not_found
    ok (record {
      enrollment_rows = enrollments.delete db.enrollment_rows (plan, user);
      plan_rows = change_count (λ n. n -ℤ pos 1) db.plan_rows plan;
    })
