-- ===== src/StudyPlans/Counting.antt =====
-- The enrollment count of a plan against its enrollments.
use sfinx_backend.Base.{
  ℕ, ◌≡◌, ◌⊎◌, ◌&&◌, not, refl, inl, inr, Bool, none, some, List, ◌∷◌, arith, ◌==◌, same_pair,
  Bool-cases, Option-cases, state_after,
}
use sfinx_backend.Base.Int.{pos, ◌+ℤ◌, ◌-ℤ◌}
use sfinx_backend.Base.Lists.{List-cases, length, count_by}
use sfinx_backend.Base.Table.{Table}
use sfinx_backend.StudyPlans.{
  StudyPlan, StudyPlanEnrollment, Db, change_count, synced, new_enrollment, is_completed,
  is_published, sync_enrollment_progress, enroll, unenroll,
}

-- `study_plan_id = :id`
abbrev pub is_in : ℕ → ℕ × ℕ → StudyPlanEnrollment → Bool
is_in plan (p, user) e = p == plan

-- The three calls that change enrollments: the time, the plan, the user, whether it is premium.
pub data Call : Type 0 where
  enrolls : ℕ → ℕ → ℕ → Bool → Call
  unenrolls : ℕ → ℕ → Call
  syncs : ℕ → ℕ → ℕ → Call

module _ (plans : Table ℕ StudyPlan ◌==◌)
    (enrollments : Table (ℕ × ℕ) StudyPlanEnrollment same_pair) (items : ℕ → List ℕ)
    (solved : ℕ → ℕ → Bool) where
  abbrev St : Type 0
  St = Db plans enrollments items solved

  abbrev pub AllCounted : St → Type 0
  AllCounted db =
      (plan : ℕ) (p : StudyPlan)
      → plans.find db.plan_rows plan ≡ some p
      → p.enrollment_count ≡ pos (enrollments.count db.enrollment_rows (is_in plan))

  -- What a call leaves; one that throws changes nothing.
  abbrev pub after_call : Call → St → St
  after_call (enrolls now plan user premium) db =
      state_after db (enroll plans enrollments items solved db now plan user premium)
  after_call (unenrolls plan user) db =
      state_after db (unenroll plans enrollments items solved db plan user)
  after_call (syncs now plan user) db =
      sync_enrollment_progress plans enrollments items solved db now plan user

  -- A sync leaves everything, or overwrites the row of an enrollment that is there.
  abbrev Overwrites : ℕ → ℕ → St → St → Type 0
  Overwrites plan user db db' =
      (e e' : StudyPlanEnrollment) × (enrollments.find db.enrollment_rows (plan, user) ≡ some e)
      × (db' ≡ record db { enrollment_rows = enrollments.save db.enrollment_rows (plan, user) e' })

  sync_cases :
      (now plan user : ℕ) (db : St)
      → (sync_enrollment_progress plans enrollments items solved db now plan user ≡ db)
        ⊎ Overwrites plan user db
            (sync_enrollment_progress plans enrollments items solved db now plan user)
  unfolding sync_enrollment_progress
  sync_cases now plan user db =
      elim (Option-cases (enrollments.find db.enrollment_rows (plan, user))) [
        | inl missing ↦ inl (rw (sync_enrollment_progress, missing) refl)
        | inr (e, there) ↦ elim (Bool-cases (is_completed e.status)) [
          | inl done ↦ inl (rw (sync_enrollment_progress, there, done) refl)
          | inr going ↦ elim (List-cases (items plan)) [
            | inl empty ↦ inl (rw (sync_enrollment_progress, there, going, empty) refl)
            | inr (x, xs, some_items) ↦ inr (
              e,
              synced now (count_by (solved user) (x ∷ xs)) (length (x ∷ xs)) e,
              there,
              rw (sync_enrollment_progress, there, going, some_items) refl,
            )
          ]
        ]
      ]

  sync-AllCounted :
      (now plan user : ℕ) (db : St)
      → AllCounted db
      → AllCounted (sync_enrollment_progress plans enrollments items solved db now plan user)
  sync-AllCounted now plan user db all = elim (sync_cases now plan user db) [
    | inl same ↦ rw same all
    | inr (e, e', there, overwritten) ↦ rw overwritten (λ j p h. ground (
      arith,
      there,
      all j p h,
      enrollments.count-save db.enrollment_rows (plan, user) e' (is_in j),
    ))
  ]

  enrolled-AllCounted :
      (plan user : ℕ) (q : StudyPlan) (db : St)
      → plans.find db.plan_rows plan ≡ some q
      → enrollments.find db.enrollment_rows (plan, user) ≡ none
      → AllCounted db
      → AllCounted (record {
        enrollment_rows = enrollments.save db.enrollment_rows (plan, user) new_enrollment;
        plan_rows = change_count plans enrollments items solved (λ n. n +ℤ pos 1) db.plan_rows plan;
      })
  unfolding ◌+ℤ◌
  enrolled-AllCounted plan user q db found fresh all j p h = ground (
    arith,
    found,
    fresh,
    h,
    all j p,
    all plan q found,
    plans.find-save db.plan_rows plan j
        (record q { enrollment_count = q.enrollment_count +ℤ pos 1 }),
    enrollments.count-save db.enrollment_rows (plan, user) new_enrollment (is_in j),
  )

  enroll-AllCounted :
      (now plan user : ℕ) (premium : Bool) (db : St)
      → AllCounted db
      → AllCounted (after_call (enrolls now plan user premium) db)
  unfolding enroll
  enroll-AllCounted now plan user premium db all =
      elim (Option-cases (plans.find db.plan_rows plan)) [
        | inl no_plan ↦ rw (enroll, no_plan) all
        | inr (q, found) ↦ elim (Bool-cases (is_published q.plan_status)) [
          | inr hidden ↦ rw (enroll, found, hidden) all
          | inl shown ↦ elim (Bool-cases (q.is_premium && not premium)) [
            | inl refused ↦ rw (enroll, found, shown, refused) all
            | inr allowed ↦ elim (Option-cases (enrollments.find db.enrollment_rows (plan, user))) [
              | inr (e, there) ↦ rw (enroll, found, shown, allowed, there) all
              | inl fresh ↦
                  rw (enroll, found, shown, allowed, fresh)
                    (sync-AllCounted now plan user
                      (record {
                        enrollment_rows =
                            enrollments.save db.enrollment_rows (plan, user) new_enrollment;
                        plan_rows =
                            change_count plans enrollments items solved (λ n. n +ℤ pos 1)
                              db.plan_rows plan;
                      })
                      (enrolled-AllCounted plan user q db found fresh all))
            ]
          ]
        ]
      ]

  unenroll-AllCounted :
      (plan user : ℕ) (db : St) → AllCounted db → AllCounted (after_call (unenrolls plan user) db)
  unfolding unenroll ◌-ℤ◌
  unenroll-AllCounted plan user db all j p h =
      elim (Option-cases (enrollments.find db.enrollment_rows (plan, user))) [
        | inl missing ↦ ground (arith, missing, h, all j p)
        | inr (e, there) ↦ elim (Option-cases (plans.find db.plan_rows plan)) [
          | inl no_plan ↦ ground (
            arith,
            there,
            no_plan,
            h,
            all j p,
            enrollments.count-delete db.enrollment_rows (plan, user) (is_in j),
          )
          | inr (q, found) ↦ ground (
            arith,
            there,
            found,
            h,
            all j p,
            all plan q found,
            plans.find-save db.plan_rows plan j
                (record q { enrollment_count = q.enrollment_count -ℤ pos 1 }),
            enrollments.count-delete db.enrollment_rows (plan, user) (is_in j),
          )
        ]
      ]

  -- Enrolling, leaving and syncing, refused calls included, keep the enrollment count of every plan
  -- equal to its number of enrollments.
  pub after_call-AllCounted : (c : Call) (db : St) → AllCounted db → AllCounted (after_call c db)
  after_call-AllCounted (enrolls now plan user premium) db all =
      enroll-AllCounted now plan user premium db all
  after_call-AllCounted (unenrolls plan user) db all = unenroll-AllCounted plan user db all
  after_call-AllCounted (syncs now plan user) db all = sync-AllCounted now plan user db all
