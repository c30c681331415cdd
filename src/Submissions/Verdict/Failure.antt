-- ===== src/Submissions/Verdict/Failure.antt =====
-- Which verdict a submission gets: acceptance, or the status of its first failing test.
use sfinx_backend.Base.{
  ◌&&◌, ◌≡◌, ◌⊎◌, ap, ◌<◌, ◌↔◌, refl, inl, inr, true, false, none, some, List, [], ◌∷◌, ◌++◌, arith,
  ==_iff, if◌then◌else◌, Bool-cases,
}
use sfinx_backend.Base.Lists.{length, count_by, All, count_by-le-length}
use sfinx_backend.Submissions.{
  SubmissionStatus, accepted, time_limit_exceeded, memory_limit_exceeded, is_accepted,
  is_runtime_error,
}
use sfinx_backend.Submissions.Verdict.{
  TestResult, Problem, Tally, no_results, exceeds, tally_result, tally_results, calculate_stats,
  check_time_limit_exceeded, check_memory_limit_exceeded,
}
use sfinx_backend.Submissions.Verdict.Totals.{passes, tally_results-passed, count_by-All}

-- The status that a failing test stands for: a crash that went over a limit is that limit's.
abbrev pub blamed : Problem → TestResult → SubmissionStatus
blamed p r =
    if is_runtime_error r.status && exceeds r.time p.time_limit_ms
    then time_limit_exceeded
    else if is_runtime_error r.status && exceeds r.memory p.memory_limit_kb
    then memory_limit_exceeded
    else r.status

module _ (p : Problem) where
  tally_results-kept :
      (rs : List TestResult) (t : Tally) (f : TestResult)
      → t.first_failed ≡ some f
      → (tally_results p t rs).first_failed ≡ some f
  unfolding tally_results
  tally_results-kept [] t f h = h
  tally_results-kept (r ∷ rs) t f h =
      tally_results-kept rs (tally_result p t r) f (elim (Bool-cases (passes r)) [
        | inl pass ↦ ground (arith, pass, h)
        | inr fail ↦ ground (arith, fail, h)
      ])

  tally_results-first :
      (before after : List TestResult) (r : TestResult) (t : Tally)
      → All (λ q. passes q ≡ true) before
      → passes r ≡ false
      → t.first_failed ≡ none
      → (tally_results p t (before ++ r ∷ after)).first_failed
        ≡ some (check_memory_limit_exceeded (check_time_limit_exceeded r p) p)
  unfolding tally_results
  tally_results-first [] after r t all fail h =
      tally_results-kept after (tally_result p t r)
        (check_memory_limit_exceeded (check_time_limit_exceeded r p) p) (ground (arith, fail, h))
  tally_results-first (q ∷ before) after r t (pass, all) fail h =
      tally_results-first before after r (tally_result p t q) all fail (ground (arith, pass, h))

  count_by-failing :
      (before after : List TestResult) (r : TestResult)
      → passes r ≡ false
      → count_by passes (before ++ r ∷ after) < length (before ++ r ∷ after)
  count_by-failing [] after r fail = ground (arith, fail, count_by-le-length passes after)
  count_by-failing (q ∷ before) after r fail = ground (arith, count_by-failing before after r fail)

  blamed_lem :
      (r : TestResult)
      → (check_memory_limit_exceeded (check_time_limit_exceeded r p) p).status ≡ blamed p r
  blamed_lem r = elim (Bool-cases (is_runtime_error r.status)) [
    | inr other ↦ ground (arith, other)
    | inl crash ↦ elim (Bool-cases (exceeds r.time p.time_limit_ms)) [
      | inl late ↦ ground (arith, crash, late)
      | inr quick ↦ ground (arith, crash, quick)
    ]
  ]

  same_token :
      (r : TestResult)
      → (check_memory_limit_exceeded (check_time_limit_exceeded r p) p).token ≡ r.token
  same_token r = elim (Bool-cases (is_runtime_error r.status)) [
    | inr other ↦ ground (arith, other)
    | inl crash ↦ elim (Bool-cases (exceeds r.time p.time_limit_ms)) [
      | inl late ↦ ground (arith, crash, late)
      | inr quick ↦ ground (arith, crash, quick)
    ]
  ]

  -- The verdict of a run whose first failing test is the given one is what that test stands for,
  -- whatever the later tests did, and the test is reported.
  pub calculate_stats_blames :
      (before after : List TestResult) (r : TestResult)
      → All (λ q. passes q ≡ true) before
      → passes r ≡ false
      → ((calculate_stats (before ++ r ∷ after) p).overall_status ≡ blamed p r)
        × ((f : TestResult) × ((calculate_stats (before ++ r ∷ after) p).first_failed_test ≡ some f)
            × (f.status ≡ blamed p r)
            × (f.token ≡ r.token))
  unfolding calculate_stats
  calculate_stats_blames before after r all fail =
      let rs = before ++ r ∷ after in
      let first = tally_results-first before after r no_results all fail refl in
      let (passed, ran, used) = tally_results-passed p rs no_results in
      let less = count_by-failing before after r fail in
      let blame = blamed_lem r in
      let status : (calculate_stats rs p).overall_status ≡ blamed p r =
        ground (arith, first, passed, less, blame) in
      (
        status,
        (check_memory_limit_exceeded (check_time_limit_exceeded r p) p, first, blame, same_token r),
      )

  blamed-rejected : (r : TestResult) → passes r ≡ false → is_accepted (blamed p r) ≡ false
  blamed-rejected r fail = elim (Bool-cases (is_runtime_error r.status)) [
    | inr other ↦ ground (arith, other, fail)
    | inl crash ↦ elim (Bool-cases (exceeds r.time p.time_limit_ms)) [
      | inl late ↦ ground (arith, crash, late)
      | inr quick ↦ elim (Bool-cases (exceeds r.memory p.memory_limit_kb)) [
        | inl big ↦ ground (arith, crash, quick, big)
        | inr small ↦ ground (arith, crash, quick, small, fail)
      ]
    ]
  ]

  abbrev FailsFirst : List TestResult → Type 0
  FailsFirst rs =
      (before : List TestResult) × (r : TestResult) × (after : List TestResult) × (rs
        ≡ before ++ r ∷ after)
      × All (λ q. passes q ≡ true) before
      × (passes r ≡ false)

  first_failure : (rs : List TestResult) → All (λ q. passes q ≡ true) rs ⊎ FailsFirst rs
  first_failure [] = inl tt
  first_failure (q ∷ rs) = elim (Bool-cases (passes q)) [
    | inr fail ↦ inr ([], q, rs, refl, tt, fail)
    | inl pass ↦ elim (first_failure rs) [
      | inl all ↦ inl (pass, all)
      | inr (before, r, after, split, all, fail) ↦
          inr (q ∷ before, r, after, ap (λ l. q ∷ l) split, (pass, all), fail)
    ]
  ]

  -- A submission is accepted exactly when every test passed.
  pub calculate_stats_accepts :
      (rs : List TestResult)
      → ((calculate_stats rs p).overall_status ≡ accepted) ↔ All (λ r. passes r ≡ true) rs
  unfolding calculate_stats
  calculate_stats_accepts rs = (accepted_all, all_accepted)
    where
      accepted_all :
          (calculate_stats rs p).overall_status ≡ accepted → All (λ r. passes r ≡ true) rs
      accepted_all h = elim (first_failure rs) [
        | inl all ↦ all
        | inr (before, r, after, split, all, fail) ↦
            let (status, report) = calculate_stats_blames before after r all fail in
            absurd (ground (arith, split, h, status, blamed-rejected r fail))
      ]

      all_accepted :
          All (λ r. passes r ≡ true) rs → (calculate_stats rs p).overall_status ≡ accepted
      all_accepted all =
          let (passed, ran, used) = tally_results-passed p rs no_results in
          let every = count_by-All rs all in
          ground (arith, passed, every, ==_iff (length rs) (length rs))
