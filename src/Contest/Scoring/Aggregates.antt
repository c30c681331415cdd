-- ===== src/Contest/Scoring/Aggregates.antt =====
-- A participant's totals against the scores of its problems.
use sfinx_backend.Base.{
  ℕ, ◌+◌, ◌≤◌, ◌≡◌, ◌≢◌, refl, Bool, true, false, Option, none, some, List, [], ◌∷◌, arith, ◌==◌,
  is_some, if◌then◌else◌,
}
use sfinx_backend.Base.Lists.{sum_by, count_by}
use sfinx_backend.Contest.{Contest, ContestParticipant, ProblemScore}
use sfinx_backend.Contest.Scoring.{
  no_score, score_of, set_score, updated_score, time_taken, is_solved, entry_score,
  apply_participant_update,
}

score_of-set_score :
    (p j : ℕ) (ps : ProblemScore) (l : List (ℕ × ProblemScore))
    → score_of j (set_score p ps l) ≡ (if j == p then ps else score_of j l)
score_of-set_score p j ps [] = ground arith
score_of-set_score p j ps ((q, old) ∷ l) = ground (arith, score_of-set_score p j ps l)

-- A sum over the problems moves by what the written entry moves.
sum_by-set_score :
    (f : ProblemScore → ℕ) (p : ℕ) (ps : ProblemScore) (l : List (ℕ × ProblemScore))
    → f no_score ≡ 0
    → sum_by (λ e. f e.1) (set_score p ps l) + f (score_of p l) ≡ sum_by (λ e. f e.1) l + f ps
sum_by-set_score f p ps [] z = ground (arith, z)
sum_by-set_score f p ps ((q, old) ∷ l) z = ground (arith, sum_by-set_score f p ps l z)

count_by-set_score :
    (f : ProblemScore → Bool) (p : ℕ) (ps : ProblemScore) (l : List (ℕ × ProblemScore))
    → f no_score ≡ false
    → count_by (λ e. f e.1) (set_score p ps l) + (if f (score_of p l) then 1 else 0)
      ≡ count_by (λ e. f e.1) l + (if f ps then 1 else 0)
count_by-set_score f p ps [] z = ground (arith, z)
count_by-set_score f p ps ((q, old) ∷ l) z = ground (arith, count_by-set_score f p ps l z)

abbrev submissions_of : ℕ × ProblemScore → ℕ
submissions_of (q, ps) = ps.submissions

-- The totals are those of the problems, for a contest that begins at `start`.
pub record IsAggregated (start : ℕ) (p : ContestParticipant) : Type 0 where
  pub total : p.total_score ≡ sum_by entry_score p.problem_scores
  pub solved : p.solved_count ≡ count_by is_solved p.problem_scores
  pub finish : p.finish_time ≡ sum_by (time_taken start) p.problem_scores
  pub attempts : p.total_submissions ≡ sum_by submissions_of p.problem_scores

module _ (p : ContestParticipant) (problem new_score now : ℕ) where
  abbrev current : ProblemScore
  current = score_of problem p.problem_scores

  abbrev written : Bool → List (ℕ × ProblemScore)
  written accepted =
      set_score problem (updated_score current accepted new_score now) p.problem_scores

  submissions_written :
      (accepted : Bool)
      → sum_by submissions_of (written accepted) ≡ sum_by submissions_of p.problem_scores + 1
  unfolding updated_score
  submissions_written accepted = ground (
    arith,
    sum_by-set_score (λ (s : ProblemScore). s.submissions) problem
        (updated_score current accepted new_score now) p.problem_scores refl,
  )

  -- Every judged submission, accepted or not, keeps the participant's totals equal to the sum of
  -- the problem scores, the number of solved problems, the sum of the times to the first accepted
  -- submissions and the number of submissions.
  pub apply_participant_update-IsAggregated :
      (accepted : Bool) (c : Contest)
      → IsAggregated c.start_time p
      → IsAggregated c.start_time (
          apply_participant_update p problem accepted new_score now
            (if accepted then some c else none))
  unfolding apply_participant_update updated_score
  apply_participant_update-IsAggregated true c v = record {
    total = refl;
    solved = refl;
    finish = refl;
    attempts = omega (arith, submissions_written true, v.attempts);
  }
  apply_participant_update-IsAggregated false c v =
      let rejected = updated_score current false new_score now in
      record {
        total = omega (
          arith,
          v.total,
          sum_by-set_score (λ (s : ProblemScore). s.score) problem rejected p.problem_scores refl,
        );
        solved = omega (
          arith,
          v.solved,
          count_by-set_score (λ (s : ProblemScore). is_some s.first_ac_time) problem rejected
              p.problem_scores refl,
        );
        finish = omega (
          arith,
          v.finish,
          sum_by-set_score (λ (s : ProblemScore). time_taken c.start_time (problem, s)) problem
              rejected p.problem_scores refl,
        );
        attempts = omega (arith, submissions_written false, v.attempts);
      }

  new_scores :
      (accepted : Bool) (contest : Option Contest)
      → (apply_participant_update p problem accepted new_score now contest).problem_scores
        ≡ written accepted
  unfolding apply_participant_update
  new_scores accepted none = refl
  new_scores true (some c) = refl
  new_scores false (some c) = refl

  -- The problem keeps the best score that it ever got, an accepted submission makes its score at
  -- least the new one, the time of its first accepted submission never changes once it is set and
  -- is set by an accepted one, and no other problem's entry changes.
  pub apply_participant_update_keeps_best :
      (accepted : Bool) (contest : Option Contest)
      → let now_scores =
          (apply_participant_update p problem accepted new_score now contest).problem_scores in
        let before = score_of problem p.problem_scores in
        let after = score_of problem now_scores in
        (before.score ≤ after.score)
        × (accepted ≡ true → new_score ≤ after.score)
        × ((t : ℕ) → before.first_ac_time ≡ some t → after.first_ac_time ≡ some t)
        × (accepted ≡ true → is_some after.first_ac_time ≡ true)
        × ((j : ℕ) → j ≢ problem → score_of j now_scores ≡ score_of j p.problem_scores)
  unfolding updated_score
  apply_participant_update_keeps_best accepted contest =
      let found = λ (j : ℕ).
        score_of-set_score problem j (updated_score current accepted new_score now)
          p.problem_scores in
      let rows = new_scores accepted contest in
      rw rows (
        ground (arith, found problem),
        λ a. ground (arith, found problem),
        λ t e. ground (arith, found problem),
        λ a. ground (arith, found problem),
        λ j ne. ground (arith, found j),
      )
