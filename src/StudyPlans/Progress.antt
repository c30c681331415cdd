-- ===== src/StudyPlans/Progress.antt =====
-- When an enrollment is completed.
use sfinx_backend.Base.{
  ℕ, ◌≡◌, ◌≤◌, ◌↔◌, refl, inl, inr, Bool, true, false, some, List, [], ◌∷◌, arith, leb, leb→le,
  ◌==◌, same_pair, same_pair_iff, Bool-cases,
}
use sfinx_backend.Base.Lists.{length, count_by, count_by-le-length, All}
use sfinx_backend.Base.Table.{Table}
use sfinx_backend.StudyPlans.{
  StudyPlan, StudyPlanEnrollment, Db, synced, is_completed, sync_enrollment_progress,
}

count_by-All_iff :
    (p : ℕ → Bool) (xs : List ℕ) → (length xs ≤ count_by p xs) ↔ All (λ x. p x ≡ true) xs
count_by-All_iff p [] = (λ h. tt, λ h. omega arith)
count_by-All_iff p (x ∷ xs) =
    let (to_all, of_all) = count_by-All_iff p xs in
    elim (Bool-cases (p x)) [
      | inl holds ↦
          (λ h. (holds, to_all (ground (arith, h, holds))), λ h. ground (arith, holds, of_all h.1))
      | inr fails ↦ (
        λ h. absurd (ground (arith, h, fails, count_by-le-length p xs)),
        λ h. absurd (ground (arith, fails, h.0)),
      )
    ]

synced_lem :
    (now n total : ℕ) (e : StudyPlanEnrollment)
    → is_completed e.status ≡ false
    → ((synced now n total e).solved_count ≡ n)
      × ((is_completed (synced now n total e).status ≡ true) ↔ (total ≤ n))
      × (is_completed (synced now n total e).status ≡ true
          → (synced now n total e).completed_at ≡ some now)
synced_lem now n total e going = elim (Bool-cases (leb total n)) [
  | inl full ↦ rw full (refl, (λ h. leb→le total n full, λ h. refl), λ h. refl)
  | inr short ↦ rw short (
    refl,
    (λ h. absurd (ground (arith, h, going)), λ h. absurd (ground (arith, short, h))),
    λ h. absurd (ground (arith, h, going)),
  )
]

module _ (plans : Table ℕ StudyPlan ◌==◌)
    (enrollments : Table (ℕ × ℕ) StudyPlanEnrollment same_pair) (items : ℕ → List ℕ)
    (solved : ℕ → ℕ → Bool) where
  -- A sync of an enrollment that is not completed, in a plan with problems: it stores the number of
  -- solved problems, and the enrollment is completed, now, exactly when every problem of the plan
  -- is solved. One that is completed stays as it is, whatever is solved or added later.
  pub sync_enrollment_progress_completes :
      (db : Db plans enrollments items solved) (now plan user first : ℕ) (more : List ℕ)
      (e : StudyPlanEnrollment)
      → enrollments.find db.enrollment_rows (plan, user) ≡ some e
      → items plan ≡ first ∷ more
      → let db' = sync_enrollment_progress plans enrollments items solved db now plan user in
        (is_completed e.status ≡ true → db' ≡ db)
        × (is_completed e.status ≡ false
            → (q : StudyPlanEnrollment) × (enrollments.find db'.enrollment_rows (plan, user)
                ≡ some q)
              × (q.solved_count ≡ count_by (solved user) (items plan))
              × ((is_completed q.status ≡ true) ↔ All (λ x. solved user x ≡ true) (items plan))
              × (is_completed q.status ≡ true → q.completed_at ≡ some now))
  unfolding sync_enrollment_progress
  sync_enrollment_progress_completes db now plan user first more e there problems =
      let row = synced now (count_by (solved user) (first ∷ more)) (length (first ∷ more)) e in
      let stats =
        synced_lem now (count_by (solved user) (first ∷ more)) (length (first ∷ more)) e in
      let (to_all, of_all) = count_by-All_iff (solved user) (first ∷ more) in
      (
        λ done. rw (sync_enrollment_progress, there, done) refl,
        λ going.
            let (count, enough, at_now) = stats going in
            rw (problems, sync_enrollment_progress, there, going, problems)
              (
                row,
                ground (
                  arith,
                  (same_pair_iff (plan, user) (plan, user)).1 refl,
                  enrollments.find-save db.enrollment_rows (plan, user) (plan, user) row,
                ),
                count,
                (λ done. to_all (enough.0 done), λ all. enough.1 (of_all all)),
                at_now,
              ),
      )
