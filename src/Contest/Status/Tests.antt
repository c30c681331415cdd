-- ===== src/Contest/Status/Tests.antt =====
-- The lifecycle on list tables: runs of the code, and the theorems at concrete inputs.
use sfinx_backend.Base.{
  ℕ, ◌≡◌, refl, Bool, true, false, List, [], ◌∷◌, ok, throws, bad_request, state_after, ◌==◌,
  if◌then◌else◌,
}
use sfinx_backend.Base.Int.{pos}
use sfinx_backend.Base.Table.{Table, number_table}
use sfinx_backend.Contest.{Contest, scheduled, ended, Problem}
use sfinx_backend.Contest.Status.{
  Db, validate_contest_timing, start_contest, publish_contest_problems,
}
use sfinx_backend.Contest.Status.Transitions.{Outcome}
use sfinx_backend.Contest.Status.Runs.{starts, ends, run, run-Outcome}

abbrev contests : Table ℕ Contest ◌==◌
contests = number_table Contest

abbrev problems : Table ℕ Problem ◌==◌
problems = number_table Problem

abbrev weekly : Contest
weekly = record {
  title = "Weekly";
  slug = "weekly";
  start_time = 100;
  end_time = 6_000_100;
  status = scheduled;
  participant_count = pos 0;
  max_participants = 0;
  duration_minutes = 100;
}

abbrev old_contest : Contest
old_contest = record weekly { status = ended }

abbrev hidden : Problem
hidden = record { is_premium = false; is_active = true; is_draft = true }

-- Problem 7 belongs to contest 1.
abbrev belongs : ℕ → ℕ → Bool
belongs contest p = if contest == 1 then p == 7 else false

abbrev no_ids : contests.Rows → List ℕ
no_ids s = []

abbrev db : Db contests problems
unfolding number_table
db = record {
  contest_rows = ((1, weekly) ∷ (2, old_contest) ∷ [], (refl, (refl, tt)));
  problem_rows = ((7, hidden) ∷ (8, hidden) ∷ [], (refl, (refl, tt)));
  effects = [];
}

-- Fifteen minutes are enough, and one millisecond less is not.
shortest : validate_contest_timing 0 900_000 ≡ ok tt
unfolding validate_contest_timing
shortest = refl

too_short : validate_contest_timing 0 899_999 ≡ throws bad_request
unfolding validate_contest_timing
too_short = refl

started_db : Db contests problems
unfolding start_contest publish_contest_problems number_table
started_db = state_after db (start_contest contests problems belongs db 1)

run-Outcome_example : Outcome scheduled (
    contests.find
      (run contests problems belongs no_ids db (starts 1 ∷ ends 50 1 ∷ [])).contest_rows
      1)
unfolding number_table
run-Outcome_example =
    run-Outcome contests problems belongs no_ids (starts 1 ∷ ends 50 1 ∷ []) db 1 weekly refl
