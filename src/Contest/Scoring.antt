-- ===== src/Contest/Scoring.antt =====
-- src/modules/contest: what a judged submission does to its participant
-- (services/contest-leaderboard.service.ts) and what it is worth
-- (strategies/ioi-ranking.strategy.ts, the one strategy that is registered). Scores are in
-- hundredths. The decay rate, a float, is the fraction `decay_num / decay_den`, and the formula is
-- computed exactly where the code rounds to doubles in between.
pub mod Score
pub mod Aggregates
mod Tests
use sfinx_backend.Base.{
  ℕ, zero, suc, ◌+◌, ◌-◌, ◌*◌, ◌/◌, ◌≡◌, Bool, true, false, ◌&&◌, ◌||◌, not, Option, none, some,
  List, [], ◌∷◌, max, min, ltb, leb, ◌==◌, is_some, if◌then◌else◌,
}
use sfinx_backend.Base.Lists.{sum_by, count_by}
use sfinx_backend.Base.Rounding.{round_div}
use sfinx_backend.Contest.{Contest, ContestParticipant, ProblemScore}

pub record Decay : Type 0 where
  pub decay_num : ℕ
  pub decay_den : ℕ

-- `calculateScore`, in hundredths of a point.
pub calculate_score : Decay → ℕ → ℕ → ℕ → ℕ → ℕ
calculate_score rate points duration start now =
    if leb duration 0 || leb points 0
    then 100 * points
    else let spent = (now - start) * rate.decay_num in
      let whole = 60000 * duration * rate.decay_den in
      round_div (100 * points * (whole - min spent whole)) whole

abbrev pub no_score : ProblemScore
no_score = record { score = 0; submissions = 0; last_submit_time = none; first_ac_time = none }

-- `problemScores[problemId] ?? { … }`
abbrev pub score_of : ℕ → List (ℕ × ProblemScore) → ProblemScore
score_of p [] = no_score
score_of p ((q, ps) ∷ l) = if p == q then ps else score_of p l

-- `{ ...problemScores, [problemId]: updatedScore }`
abbrev pub set_score : ℕ → ProblemScore → List (ℕ × ProblemScore) → List (ℕ × ProblemScore)
set_score p ps [] = (p, ps) ∷ []
set_score p ps ((q, old) ∷ l) = if p == q then (q, ps) ∷ l else (q, old) ∷ set_score p ps l

abbrev pub first_time : Option ℕ → ℕ → Option ℕ
first_time none now = some now
first_time (some t) now = some t

pub updated_score : ProblemScore → Bool → ℕ → ℕ → ProblemScore
updated_score current accepted new_score now =
    if accepted
    then record {
      score = max new_score current.score;
      submissions = current.submissions + 1;
      last_submit_time = some now;
      first_ac_time = first_time current.first_ac_time now;
    }
    else record current { submissions = current.submissions + 1; last_submit_time = some now }

-- `Math.max(0, acTime - startTime)`; subtraction stops at 0 here.
abbrev pub time_taken : ℕ → ℕ × ProblemScore → ℕ
time_taken start (q, ps) = elim ps.first_ac_time [ none ↦ 0 | some t ↦ t - start ]

abbrev pub is_solved : ℕ × ProblemScore → Bool
is_solved (q, ps) = is_some ps.first_ac_time

abbrev pub entry_score : ℕ × ProblemScore → ℕ
entry_score (q, ps) = ps.score

-- The contest is there whenever the submission is accepted.
pub apply_participant_update :
    ContestParticipant → ℕ → Bool → ℕ → ℕ → Option Contest → ContestParticipant
unfolding updated_score
apply_participant_update p problem accepted new_score now contest =
    let scores =
      set_score problem (updated_score (score_of problem p.problem_scores) accepted new_score now)
        p.problem_scores in
    let counted = record p {
      total_submissions = p.total_submissions + 1;
      last_submission_at = some now;
      problem_scores = scores;
    } in
    elim contest [
      | none ↦ counted
      | some c ↦
          if accepted
          then record counted {
            total_score = sum_by entry_score scores;
            solved_count = count_by is_solved scores;
            finish_time = sum_by (time_taken c.start_time) scores;
          }
          else counted
    ]
