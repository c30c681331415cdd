-- ===== src/Contest/Editing/Tests.antt =====
-- Creating and updating contests on list tables: the theorems at concrete inputs.
use Prim.Native.String.{String}
use mathlib.Core.Option.{none-ne-some}
use sfinx_backend.Base.{
  ℕ, ◌≡◌, refl, true, false, Option, none, some, [], ◌∷◌, ◌==◌, same_pair, ok, throws, conflict,
  state_after,
}
use sfinx_backend.Base.Decimal.{decimal}
use sfinx_backend.Base.Table.{Table, number_table, pair_table}
use sfinx_backend.Contest.{Contest, Problem, scheduled, contest_created}
use sfinx_backend.Contest.Problems.{ContestProblem, AddContestProblem, Db}
use sfinx_backend.Contest.Status.{validate_contest_timing}
use sfinx_backend.Contest.Editing.{
  CreateContestDto, UpdateContestDto, generate_unique_slug, create_contest, update_contest,
}
use sfinx_backend.Contest.Editing.Assigned.{assigned}
use sfinx_backend.Contest.Editing.Rows.{IsSound, creates, updates}
use sfinx_backend.Contest.Editing.Slugs.{generate_unique_slug_free}
use sfinx_backend.Contest.Editing.Soundness.{edit, edit-IsSound, update_contest_replaces}

abbrev contests : Table ℕ Contest ◌==◌
contests = number_table Contest

abbrev problems : Table ℕ Problem ◌==◌
problems = number_table Problem

abbrev contest_problems : Table (ℕ × ℕ) ContestProblem same_pair
contest_problems = pair_table ContestProblem

abbrev max_order_index : contest_problems.Rows → ℕ → Option ℕ
max_order_index rows contest = none

-- All titles here make the same slug.
abbrev slugify : String → String
slugify title = "weekly"

abbrev St : Type 0
St = Db contests problems contest_problems max_order_index

abbrev active : Problem
active = record { is_premium = false; is_active = true; is_draft = true }

abbrev empty : St
unfolding number_table pair_table
empty = record {
  contest_rows = ([], tt);
  problem_rows = ((5, active) ∷ (6, active) ∷ [], (refl, (refl, tt)));
  contest_problem_rows = ([], tt);
}

abbrev asks : ℕ → AddContestProblem
asks problem = record { problem_id = problem; points = none; order_index = none; label = none }

abbrev weekly : CreateContestDto
weekly = record {
  title = "Weekly";
  start_time = 100;
  end_time = 6_000_100;
  max_participants = none;
  status = some scheduled;
  problems = some (asks 5 ∷ []);
}

abbrev db : St
unfolding number_table pair_table create_contest
db =
    state_after empty
      (create_contest slugify contests problems contest_problems max_order_index empty 1 weekly).1

abbrev update : UpdateContestDto
update = record {
  title = some "weekly!";
  start_time = none;
  end_time = some 9_000_100;
  max_participants = none;
  status = none;
  problems = some (asks 6 ∷ asks 5 ∷ []);
}

abbrev updated : St
unfolding number_table pair_table create_contest update_contest
updated =
    state_after db
      (update_contest slugify contests problems contest_problems max_order_index db 1 update).1

-- Another contest gets a number, and the same contest keeps its slug.
second_slug :
    generate_unique_slug slugify contests problems contest_problems max_order_index db.contest_rows
      "Weekly" none
    ≡ some "weekly-1"
unfolding generate_unique_slug number_table pair_table create_contest validate_contest_timing
    decimal
second_slug = refl

own_slug :
    generate_unique_slug slugify contests problems contest_problems max_order_index db.contest_rows
      "Weekly"
      (some 1)
    ≡ some "weekly"
unfolding generate_unique_slug number_table pair_table create_contest validate_contest_timing
own_slug = refl

-- A problem that is listed twice.
listed_twice :
    create_contest slugify contests problems contest_problems max_order_index empty 1
      (record weekly { problems = some (asks 5 ∷ asks 5 ∷ []) })
    ≡ (contest_created 1 ∷ [], throws conflict)
unfolding create_contest number_table pair_table validate_contest_timing
listed_twice = refl

generate_unique_slug_free_example :
    (slug : String) × (generate_unique_slug slugify contests problems contest_problems
        max_order_index db.contest_rows "Weekly"
        (some 1)
      ≡ some slug)
    × ((id : ℕ) (c : Contest)
        → contests.find db.contest_rows id ≡ some c
        → c.slug ≡ slug
        → some 1 ≡ some id)
generate_unique_slug_free_example =
    generate_unique_slug_free slugify contests problems contest_problems max_order_index
      db.contest_rows "Weekly" (some 1)

none-IsSound : IsSound contests empty.contest_rows
unfolding number_table empty
none-IsSound = record {
  apart = λ i j c d ha hb same. absurd (none-ne-some c ha);
  timed = λ i c h. absurd (none-ne-some c h);
}

edit-IsSound_example :
    IsSound contests
      (state_after empty
        (edit slugify contests problems contest_problems max_order_index empty
          (creates 1 weekly)).1).contest_rows
edit-IsSound_example =
    edit-IsSound slugify contests problems contest_problems max_order_index empty (creates 1 weekly)
      none-IsSound

update_done :
    (edit slugify contests problems contest_problems max_order_index db (updates 1 update)).1
    ≡ ok updated
unfolding number_table pair_table create_contest update_contest validate_contest_timing
update_done = refl

update_contest_replaces_example :
    contest_problems.find updated.contest_problem_rows (1, 6) ≡ assigned 6 0 (asks 6 ∷ asks 5 ∷ [])
update_contest_replaces_example =
    update_contest_replaces slugify contests problems contest_problems max_order_index db updated 1
      update 1 6 update_done
