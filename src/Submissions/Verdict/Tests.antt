-- ===== src/Submissions/Verdict/Tests.antt =====
-- Verdicts on concrete results.
use sfinx_backend.Base.{◌≡◌, ◌↔◌, true, some, none, List, [], ◌∷◌}
use sfinx_backend.Base.Lists.{All}
use sfinx_backend.Submissions.{accepted, runtime_error, wrong_answer}
use sfinx_backend.Submissions.Verdict.{TestResult, Problem, calculate_stats}
use sfinx_backend.Submissions.Verdict.Totals.{passes}
use sfinx_backend.Submissions.Verdict.Failure.{calculate_stats_accepts}

abbrev limits : Problem
limits = record { time_limit_ms = 1000; memory_limit_kb = 64 }

abbrev passing : TestResult
passing = record { status = accepted; time = some 10; memory = some 20; token = 1 }

-- A crash after the time limit.
abbrev crashing : TestResult
crashing = record { status = runtime_error; time = some 1001; memory = none; token = 2 }

abbrev wrong : TestResult
wrong = record { status = wrong_answer; time = none; memory = some 5; token = 3 }

abbrev run : List TestResult
run = passing ∷ crashing ∷ wrong ∷ []

calculate_stats_accepts_example :
    ((calculate_stats run limits).overall_status ≡ accepted) ↔ All (λ r. passes r ≡ true) run
calculate_stats_accepts_example = calculate_stats_accepts limits run
