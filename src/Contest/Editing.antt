-- ===== src/Contest/Editing.antt =====
-- src/modules/contest/services/contest.service.ts: creating and updating contests. `slugify`, a
-- third-party package, is a parameter. A method that throws leaves the rows as they were, since
-- it runs in a transaction, but events that it emitted before are out. Descriptions, rules and
-- the ranking type are left out, as is the update that changes no column.
pub mod Slugs
pub mod Rows
pub mod Assigned
pub mod Outcomes
pub mod Soundness
mod Tests
use Prim.Native.String.{String, ◌++◌}
use text.Mathlib.Text.{◌==◌ as ◌==ˢ◌}
use sfinx_backend.Base.{
  ℕ, zero, suc, ◌+◌, ◌-◌, ◌&&◌, ◌||◌, not, Bool, true, false, Option, none, some, List, [], ◌∷◌,
  ◌==◌, same_pair, is_some, or_else, if◌then◌else◌, Result, ok, throws, bad_request, not_found,
  internal_error, ◌>>=◌, ◌>>◌, throw_if, or_throw,
}
use sfinx_backend.Base.Decimal.{decimal}
use sfinx_backend.Base.Int.{pos}
use sfinx_backend.Base.Rounding.{round_div}
use sfinx_backend.Base.Table.{Table}
use sfinx_backend.Contest.{
  Contest, ContestStatus, draft, Problem, Effect, contest_created, contest_updated,
}
use sfinx_backend.Contest.Problems.{
  ContestProblem, AddContestProblem, get_default_label, is_frozen, Db, add_problem_to_contest,
}
use sfinx_backend.Contest.Status.{validate_contest_timing}

-- dto/create-contest.dto.ts
pub record CreateContestDto : Type 0 where
  pub title : String
  pub start_time : ℕ
  pub end_time : ℕ
  pub max_participants : Option ℕ
  pub status : Option ContestStatus
  pub problems : Option (List AddContestProblem)

-- dto/update-contest.dto.ts
pub record UpdateContestDto : Type 0 where
  pub title : Option String
  pub start_time : Option ℕ
  pub end_time : Option ℕ
  pub max_participants : Option ℕ
  pub status : Option ContestStatus
  pub problems : Option (List AddContestProblem)

-- `${baseSlug}-${counter}`
abbrev pub numbered : String → ℕ → String
numbered base counter = base ++ "-" ++ decimal counter

-- `contest.slug = :slug`, and `contest.id != :excludeId` where there is one (ids are positive)
abbrev pub has_slug : Option ℕ → String → ℕ → Contest → Bool
has_slug none slug id c = c.slug ==ˢ slug
has_slug (some exclude) slug id c = (c.slug ==ˢ slug) && not (id == exclude)

-- `Math.round((endTime - startTime) / 60000)`
abbrev pub duration : ℕ → ℕ → ℕ
duration start end = round_div (end - start) 60000

-- What the loop over `dto.problems` fills in at an index.
abbrev pub with_defaults : ℕ → AddContestProblem → AddContestProblem
with_defaults i p = record p {
  points = some (or_else p.points 100);
  label = some (or_else p.label (get_default_label i));
  order_index = some (or_else p.order_index i);
}

module _ (slugify : String → String) (contests : Table ℕ Contest ◌==◌)
    (problems : Table ℕ Problem ◌==◌) (contest_problems : Table (ℕ × ℕ) ContestProblem same_pair)
    (max_order_index : contest_problems.Rows → ℕ → Option ℕ) where
  abbrev pub St : Type 0
  St = Db contests problems contest_problems max_order_index

  -- The loop that looks for a free slug, on fuel.
  unfoldable pub free_slug : ℕ → contests.Rows → Option ℕ → String → String → ℕ → Option String
  free_slug zero rows exclude base slug counter = none
  free_slug (suc fuel) rows exclude base slug counter =
      elim (contests.find_where rows (has_slug exclude slug)) [
        | none ↦ some slug
        | some taken ↦ free_slug fuel rows exclude base (numbered base counter) (counter + 1)
      ]

  -- One round more than there are contests.
  unfoldable pub generate_unique_slug : contests.Rows → String → Option ℕ → Option String
  unfolding free_slug
  generate_unique_slug rows title exclude =
      let base = slugify title in
      free_slug (suc (contests.count rows (λ id c. true))) rows exclude base base 1

  unfoldable pub add_problems : St → ℕ → ℕ → List AddContestProblem → Result St
  unfolding add_problem_to_contest
  add_problems db contest i [] = ok db
  add_problems db contest i (p ∷ ps) = do
    db' ←
        add_problem_to_contest contests problems contest_problems max_order_index db contest
          (with_defaults i p)
    add_problems db' contest (suc i) ps

  abbrev pub new_contest : CreateContestDto → String → Contest
  new_contest dto slug = record {
    title = dto.title;
    slug = slug;
    start_time = dto.start_time;
    end_time = dto.end_time;
    status = or_else dto.status draft;
    participant_count = pos 0;
    max_participants = or_else dto.max_participants 0;
    duration_minutes = duration dto.start_time dto.end_time;
  }

  -- The timing and the slug of a new contest.
  abbrev pub checked_contest : St → CreateContestDto → Result Contest
  unfolding generate_unique_slug
  checked_contest db dto = do
    validate_contest_timing dto.start_time dto.end_time
    slug ← or_throw (generate_unique_slug db.contest_rows dto.title none) internal_error
    ok (new_contest dto slug)

  -- The events that are out, and the rows under the identifier `id` of the new contest.
  unfoldable pub create_contest : St → ℕ → CreateContestDto → List Effect × Result St
  unfolding checked_contest add_problems
  create_contest db id dto = elim (checked_contest db dto) [
    | throws e ↦ ([], throws e)
    | ok c ↦ (
      contest_created id ∷ [],
      add_problems (record db { contest_rows = contests.save db.contest_rows id c }) id 0
          (or_else dto.problems []),
    )
  ]

  -- The slug after an update: a new one where there is a title.
  abbrev pub updated_slug : St → ℕ → Contest → Option String → Result String
  unfolding generate_unique_slug
  updated_slug db id c none = ok c.slug
  updated_slug db id c (some title) =
      or_throw (generate_unique_slug db.contest_rows title (some id)) internal_error

  abbrev pub updated_contest : Contest → UpdateContestDto → String → Contest
  updated_contest c dto slug =
      let start = or_else dto.start_time c.start_time in
      let end = or_else dto.end_time c.end_time in
      record c {
        title = or_else dto.title c.title;
        slug = slug;
        start_time = start;
        end_time = end;
        status = or_else dto.status c.status;
        max_participants = or_else dto.max_participants c.max_participants;
        duration_minutes =
            if is_some dto.start_time || is_some dto.end_time
            then duration start end
            else c.duration_minutes;
      }

  -- The old problems make room for the new ones, if the request has any.
  abbrev pub replace_problems : St → ℕ → Option (List AddContestProblem) → Result St
  unfolding add_problems
  replace_problems db id none = ok db
  replace_problems db id (some ps) =
      add_problems
        (record db {
          contest_problem_rows =
              contest_problems.delete_where db.contest_problem_rows (λ k cp. k.0 == id);
        })
        id 0 ps

  abbrev pub update_rows : St → ℕ → UpdateContestDto → Result St
  unfolding updated_slug replace_problems
  update_rows db id dto = do
    c ← or_throw (contests.find db.contest_rows id) not_found
    throw_if (is_frozen c) bad_request
    validate_contest_timing (or_else dto.start_time c.start_time) (or_else dto.end_time c.end_time)
    slug ← updated_slug db id c dto.title
    replace_problems
        (record db { contest_rows = contests.save db.contest_rows id (updated_contest c dto slug) })
        id dto.problems

  unfoldable pub update_contest : St → ℕ → UpdateContestDto → List Effect × Result St
  unfolding update_rows
  update_contest db id dto = elim (update_rows db id dto) [
    | throws e ↦ ([], throws e)
    | ok db' ↦ (contest_updated id ∷ [], ok db')
  ]
