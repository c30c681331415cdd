-- ===== src/Contest/Editing/Soundness.antt =====
-- What requests keep true of the contests, and the problems that they leave.
use Prim.Native.String.{String}
use sfinx_backend.Base.{
  ℕ, ◌≡◌, inl, inr, Option, none, some, List, [], arith, ◌==◌, same_pair, or_else, if◌then◌else◌,
  Result, ok, Result-cases, state_after,
}
use sfinx_backend.Base.Table.{Table}
use sfinx_backend.Contest.{Contest, Problem, Effect}
use sfinx_backend.Contest.Problems.{ContestProblem, Db}
use sfinx_backend.Contest.Editing.{
  UpdateContestDto, add_problems, checked_contest, create_contest, updated_contest, update_rows,
  update_contest,
}
use sfinx_backend.Contest.Editing.Assigned.{assigned, add_problems_assigns}
use sfinx_backend.Contest.Editing.Rows.{Edit, creates, updates, IsSound, save-IsSound}
use sfinx_backend.Contest.Editing.Outcomes.{
  checked_contest-ok, updated_contest-IsTimed, updated_slug_own, replace_problems-contest_rows,
  replaced_rows, saved_contest, update_rows-ok,
}

module _ (slugify : String → String) (contests : Table ℕ Contest ◌==◌)
    (problems : Table ℕ Problem ◌==◌) (contest_problems : Table (ℕ × ℕ) ContestProblem same_pair)
    (max_order_index : contest_problems.Rows → ℕ → Option ℕ) where
  abbrev St : Type 0
  St = Db contests problems contest_problems max_order_index

  -- What a request answers, and the rows after it.
  abbrev pub edit : St → Edit → List Effect × Result St
  edit db (creates id dto) =
      create_contest slugify contests problems contest_problems max_order_index db id dto
  edit db (updates id dto) =
      update_contest slugify contests problems contest_problems max_order_index db id dto

  -- Whatever requests come, contests keep distinct slugs, last from 15 minutes to 7 days, and have
  -- their duration in minutes in its column: a request that succeeds keeps this true of the rows,
  -- and one that throws leaves them.
  pub edit-IsSound :
      (db : St) (e : Edit)
      → IsSound contests db.contest_rows
      → IsSound contests (state_after db (edit db e).1).contest_rows
  unfolding create_contest update_contest
  edit-IsSound db (creates id dto) inv =
      elim (Result-cases
        (checked_contest slugify contests problems contest_problems max_order_index db dto)) [
          | inl (e, refused) ↦ rw (create_contest, refused) inv
          | inr (c, checked) ↦
              let (timed, own) =
                checked_contest-ok slugify contests problems contest_problems max_order_index db dto
                  c checked in
              let saved =
                save-IsSound contests db.contest_rows id c inv timed
                  (λ j d there same. absurd (cc (own j d there same))) in
              let mid : St = record db { contest_rows = contests.save db.contest_rows id c } in
              elim (Result-cases (
                add_problems slugify contests problems contest_problems max_order_index mid id 0
                  (or_else dto.problems []))) [
                    | inl (e, failed) ↦ rw (create_contest, checked, failed) inv
                    | inr (db', added) ↦
                        let (same, row) =
                          add_problems_assigns slugify contests problems contest_problems
                            max_order_index (or_else dto.problems []) mid db' id 0 0 0 added in
                        rw (create_contest, checked, added, same) saved
                  ]
        ]
  edit-IsSound db (updates id dto) inv =
      elim (Result-cases
        (update_rows slugify contests problems contest_problems max_order_index db id dto)) [
          | inl (e, refused) ↦ rw (update_contest, refused) inv
          | inr (db', done) ↦
              let (c, slug, found, timing, search, replaced) =
                update_rows-ok slugify contests problems contest_problems max_order_index db db' id
                  dto done in
              let same =
                replace_problems-contest_rows slugify contests problems contest_problems
                  max_order_index
                  (saved_contest slugify contests problems contest_problems max_order_index db id c
                    dto slug)
                  db' id dto.problems replaced in
              let timed =
                updated_contest-IsTimed slugify contests problems contest_problems max_order_index c
                  dto slug (inv.timed id c found) timing in
              let own =
                updated_slug_own slugify contests problems contest_problems max_order_index db id c
                  dto.title slug inv found search in
              rw (update_contest, done, same)
                (save-IsSound contests db.contest_rows id
                  (updated_contest slugify contests problems contest_problems max_order_index c dto
                    slug)
                  inv timed own)
        ]

  -- An update whose request lists problems, and that succeeds, leaves the contest exactly those,
  -- each with its points, label and place, and leaves the problems of other contests as they were;
  -- an update that lists none leaves all problems.
  pub update_contest_replaces :
      (db db' : St) (id : ℕ) (dto : UpdateContestDto) (d q : ℕ)
      → (edit db (updates id dto)).1 ≡ ok db'
      → contest_problems.find db'.contest_problem_rows (d, q) ≡ (
          let old = contest_problems.find db.contest_problem_rows (d, q) in
          elim dto.problems [ none ↦ old | some ps ↦ if id == d then assigned q 0 ps else old ])
  unfolding update_contest
  update_contest_replaces db db' id dto d q h =
      elim (Result-cases
        (update_rows slugify contests problems contest_problems max_order_index db id dto)) [
          | inl (e, refused) ↦ absurd (ground (arith, h, refused))
          | inr (db'', done) ↦
              let e : db'' ≡ db' = ground (arith, h, done) in
              let (c, slug, found, timing, search, replaced) =
                update_rows-ok slugify contests problems contest_problems max_order_index db db'' id
                  dto done in
              rw (← e) (
                replaced_rows slugify contests problems contest_problems max_order_index
                  (saved_contest slugify contests problems contest_problems max_order_index db id c
                    dto slug)
                  db'' id dto.problems d q replaced)
        ]
