-- ===== src/Contest/Scoring/Tests.antt =====
-- Scoring: runs of the code, and the theorems at concrete inputs.
use sfinx_backend.Base.{◌≡◌, refl, true, some, [], ◌∷◌}
use sfinx_backend.Base.Int.{pos}
use sfinx_backend.Contest.{Contest, ContestParticipant, ProblemScore, running}
use sfinx_backend.Contest.Scoring.{Decay, calculate_score, apply_participant_update}
use sfinx_backend.Contest.Scoring.Aggregates.{IsAggregated, apply_participant_update-IsAggregated}

-- A tenth of the points decays over the contest.
abbrev tenth : Decay
tenth = record { decay_num = 1; decay_den = 10 }

-- Half of 90 minutes passed: 100 points are worth 95.
half_way : calculate_score tenth 100 90 0 2_700_000 ≡ 9500
unfolding calculate_score
half_way = refl

abbrev weekly : Contest
weekly = record {
  title = "Weekly";
  slug = "weekly";
  start_time = 0;
  end_time = 5_400_000;
  status = running;
  participant_count = pos 1;
  max_participants = 0;
  duration_minutes = 90;
}

abbrev solved_once : ProblemScore
solved_once = record {
  score = 9500;
  submissions = 2;
  last_submit_time = some 2_700_000;
  first_ac_time = some 2_700_000;
}

abbrev alice : ContestParticipant
alice = record {
  total_score = 9500;
  solved_count = 1;
  finish_time = 2_700_000;
  problem_scores = (7, solved_once) ∷ [];
  total_submissions = 2;
  last_submission_at = some 2_700_000;
  started_at = 0;
}

alice-IsAggregated : IsAggregated 0 alice
alice-IsAggregated = record { total = refl; solved = refl; finish = refl; attempts = refl }

apply_participant_update-IsAggregated_example :
    IsAggregated 0 (apply_participant_update alice 8 true 9000 3_000_000 (some weekly))
apply_participant_update-IsAggregated_example =
    apply_participant_update-IsAggregated alice 8 9000 3_000_000 true weekly alice-IsAggregated
