-- ===== src/Submissions/Finalize/Verdicts.antt =====
-- What a finalize job stores, and what happens when it is tried again.
use sfinx_backend.Base.{
  ℕ, ◌≡◌, ◌↔◌, refl, inl, inr, Bool, true, false, Option, none, some, List, [], ◌∷◌, map, arith,
  ◌∙◌, ◌==◌, ==_iff, same_pair, Result, Bool-cases,
}
use sfinx_backend.Base.Lists.{length, All}
use sfinx_backend.Base.Table.{Table}
use sfinx_backend.Redis.Locks.{LockValue}
use sfinx_backend.Submissions.{accepted}
use sfinx_backend.Submissions.Verdict.{Problem}
use sfinx_backend.Submissions.Verdict.Totals.{passes, calculate_stats_totals}
use sfinx_backend.Submissions.Verdict.Failure.{calculate_stats_accepts}
use sfinx_backend.Submissions.Callbacks.{no_meta, live_meta}
use sfinx_backend.Submissions.Progress.{
  Submission, UserProblemProgress, Db, judged_submission, judge,
}
use sfinx_backend.Submissions.Progress.Solving.{newly_judged}
use sfinx_backend.Submissions.Finalize.{
  Judge0Response, build_test_result, SubmissionResult, Job, World, conclude, aggregate, finalizer,
  answers, verdict_of, build_submission_result_for_submit_mode,
}

length-map : {A B : Type 0} (f : A → B) (xs : List A) → length (map f xs) ≡ length xs
length-map f [] = refl
length-map f (x ∷ xs) = ground (arith, length-map f xs)

All-map_iff :
    {A B : Type 0} (P : B → Type 0) (f : A → B) (xs : List A)
    → All P (map f xs) ↔ All (λ x. P (f x)) xs
All-map_iff P f [] = (λ h. tt, λ h. tt)
All-map_iff P f (x ∷ xs) =
    let (there, back) = All-map_iff P f xs in (λ h. (h.0, there h.1), λ h. (h.0, back h.1))

module _ (results : Table ℕ Judge0Response ◌==◌) (seen : Table ℕ (Unit {0}) ◌==◌)
    (locks : Table ℕ LockValue ◌==◌) (hgetall : results.Rows → List Judge0Response)
    (no_results : results.Rows) (no_seen : seen.Rows) (find_problem : ℕ → Option Problem)
    (submissions : Table ℕ Submission ◌==◌)
    (progresses : Table (ℕ × ℕ) UserProblemProgress same_pair) where
  abbrev pub W : Type 0
  W = World results seen locks hgetall no_results no_seen find_problem submissions progresses

  abbrev pub run : Job → W → Result Bool × W
  run j w =
      finalizer results seen locks hgetall no_results no_seen find_problem submissions progresses j
        w

  -- The world without the keys of the submission, with other tables and messages.
  abbrev emptied : W → Db submissions progresses → List (ℕ × SubmissionResult) → W
  emptied w db published = record {
    tracking = record {
      meta = no_meta;
      meta_expires_at = none;
      results_by_index = no_results;
      seen_tokens = no_seen;
      lock_keys = w.tracking.lock_keys;
      finalize_queue = w.tracking.finalize_queue;
    };
    db = db;
    published = published;
  }

  abbrev LeavesEmptied : W → Result Bool × W → Type 0
  LeavesEmptied w out =
      (r : Result Bool) × (db : Db submissions progresses) × (published : List
        (ℕ × SubmissionResult))
      × (out ≡ (r, emptied w db published))

  -- The payloads that a job reads, and those that the judge accepted.
  abbrev pub payloads : W → List Judge0Response
  payloads w = hgetall w.tracking.results_by_index

  abbrev pub is_passed : Judge0Response → Bool
  is_passed r = passes (build_test_result r)

  run_judges :
      (j : Job) (w : W) (id : ℕ) (p : Problem) (s : Submission)
      → j.is_interview ≡ false
      → j.is_submit ≡ true
      → j.redis ≡ answers
      → j.database_fails ≡ false
      → (live_meta results seen locks j.now w.tracking).problem_id ≡ some id
      → find_problem id ≡ some p
      → submissions.find w.db.submission_rows j.submission ≡ some s
      → s.judged_at ≡ none
      → (run j w).1.db
        ≡ judge submissions progresses j.now j.submission
            (verdict_of
              (build_submission_result_for_submit_mode (map build_test_result (payloads w)) p))
            s
            w.db
  unfolding finalizer conclude
  run_judges j w id p s judged_code submits up works tracked found there fresh =
      let answer = build_submission_result_for_submit_mode (map build_test_result (payloads w)) p in
      let judged =
        newly_judged submissions progresses j.now j.submission (verdict_of answer) s w.db there
          fresh in
      elim (Bool-cases j.publish_fails) [
        | inl silent ↦
            rw (finalizer, judged_code, up, aggregate, tracked, found, submits, works, silent)
              judged
        | inr heard ↦
            rw (finalizer, judged_code, up, aggregate, tracked, found, submits, works, heard) judged
      ]

  -- A finalize job of a submission that waits for its verdict, when its problem is there and Redis
  -- and the database work, stores the verdict: the submission is judged now, on as many tests as there
  -- are results, and it is accepted exactly when the judge accepted every one of them.
  pub finalizer_accepts :
      (j : Job) (w : W) (id : ℕ) (p : Problem) (s : Submission)
      → j.is_interview ≡ false
      → j.is_submit ≡ true
      → j.redis ≡ answers
      → j.database_fails ≡ false
      → (live_meta results seen locks j.now w.tracking).problem_id ≡ some id
      → find_problem id ≡ some p
      → submissions.find w.db.submission_rows j.submission ≡ some s
      → s.judged_at ≡ none
      → (s' : Submission) × (submissions.find (run j w).1.db.submission_rows j.submission ≡ some s')
        × (s'.judged_at ≡ some j.now)
        × (s'.total_testcases ≡ length (payloads w))
        × ((s'.status ≡ accepted) ↔ All (λ r. is_passed r ≡ true) (payloads w))
  unfolding judge build_submission_result_for_submit_mode
  finalizer_accepts j w id p s judged_code submits up works tracked found there fresh =
      let tests = map build_test_result (payloads w) in
      let stored = run_judges j w id p s judged_code submits up works tracked found there fresh in
      let row =
        judged_submission submissions progresses j.now
          (verdict_of (build_submission_result_for_submit_mode tests p)) s in
      let (accepts, all) = calculate_stats_accepts p tests in
      let (to_payloads, of_payloads) =
        All-map_iff (λ t. passes t ≡ true) build_test_result (payloads w) in
      let ran = (calculate_stats_totals p tests).1 in
      (
        row,
        rw stored (
            ground (
              arith,
              (==_iff j.submission j.submission).1 refl,
              submissions.find-save w.db.submission_rows j.submission j.submission row,
            )),
        refl,
        ran ∙ length-map build_test_result (payloads w),
        (λ h. to_payloads (accepts h), λ h. all (of_payloads h)),
      )
