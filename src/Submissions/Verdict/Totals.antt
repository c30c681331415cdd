-- ===== src/Submissions/Verdict/Totals.antt =====
-- The totals of a verdict, and when it is an acceptance.
use sfinx_backend.Base.{
  ◌+◌, ◌≡◌, ◌≤◌, refl, inl, inr, Bool, true, List, [], ◌∷◌, arith, or_else, if◌then◌else◌,
  Bool-cases, Option-cases,
}
use sfinx_backend.Base.Lists.{length, sum_by, count_by, All, count_by-le-length}
use sfinx_backend.Submissions.{is_accepted}
use sfinx_backend.Submissions.Verdict.{
  TestResult, Problem, Tally, no_results, tally_result, tally_results, calculate_stats,
}

abbrev pub passes : TestResult → Bool
passes r = is_accepted r.status

pub count_by-All :
    (rs : List TestResult) → All (λ r. passes r ≡ true) rs → count_by passes rs ≡ length rs
count_by-All [] all = refl
count_by-All (r ∷ rs) (pass, all) = ground (arith, pass, count_by-All rs all)

module _ (p : Problem) where
  tally_result-passed :
      (t : Tally) (r : TestResult)
      → ((tally_result p t r).passed ≡ t.passed + (if passes r then 1 else 0))
        × ((tally_result p t r).runtime ≡ t.runtime + or_else r.time 0)
        × ((tally_result p t r).memory_used ≡ t.memory_used + or_else r.memory 0)
  tally_result-passed t r = elim (Bool-cases (passes r)) [
    | inl pass ↦ ground (arith, pass)
    | inr fail ↦ elim (Option-cases t.first_failed) [
      | inl none_yet ↦ ground (arith, fail, none_yet)
      | inr (f, there) ↦ ground (arith, fail, there)
    ]
  ]

  pub tally_results-passed :
      (rs : List TestResult) (t : Tally)
      → ((tally_results p t rs).passed ≡ t.passed + count_by passes rs)
        × ((tally_results p t rs).runtime ≡ t.runtime + sum_by (λ r. or_else r.time 0) rs)
        × ((tally_results p t rs).memory_used ≡ t.memory_used + sum_by (λ r. or_else r.memory 0) rs)
  unfolding tally_results
  tally_results-passed [] t = ground arith
  tally_results-passed (r ∷ rs) t =
      let (passed, ran, used) = tally_result-passed t r in
      let (passed', ran', used') = tally_results-passed rs (tally_result p t r) in
      (ground (arith, passed, passed'), ground (arith, ran, ran'), ground (arith, used, used'))

  -- The counts and sums of a verdict are those of its results, and no more tests pass than ran.
  pub calculate_stats_totals :
      (rs : List TestResult)
      → ((calculate_stats rs p).passed_tests ≡ count_by passes rs)
        × ((calculate_stats rs p).total_tests ≡ length rs)
        × ((calculate_stats rs p).passed_tests ≤ (calculate_stats rs p).total_tests)
        × ((calculate_stats rs p).sum_runtime ≡ sum_by (λ r. or_else r.time 0) rs)
        × ((calculate_stats rs p).sum_memory ≡ sum_by (λ r. or_else r.memory 0) rs)
  unfolding calculate_stats
  calculate_stats_totals rs =
      let (passed, ran, used) = tally_results-passed rs no_results in
      (
        omega (arith, passed),
        refl,
        ground (arith, passed, count_by-le-length passes rs),
        omega (arith, ran),
        omega (arith, used),
      )
