-- ===== src/Contest/Editing/Outcomes.antt =====
-- How creating and updating a contest can have succeeded.
use Prim.Native.String.{String}
use sfinx_backend.Base.{
  ℕ, ◌≡◌, refl, sym, ◌∙◌, inl, inr, Option, none, some, List, arith, ◌==◌, same_pair, or_else,
  if◌then◌else◌, Bool-cases, Option-cases, ok, Result-cases,
}
use mathlib.Core.Option.{some-injective}
use sfinx_backend.Base.Table.{Table}
use sfinx_backend.Contest.{Contest, Problem}
use sfinx_backend.Contest.Problems.{ContestProblem, AddContestProblem, is_frozen, Db}
use sfinx_backend.Contest.Status.{validate_contest_timing}
use sfinx_backend.Contest.Editing.{
  CreateContestDto, UpdateContestDto, new_contest, checked_contest, updated_slug, updated_contest,
  replace_problems, update_rows, generate_unique_slug,
}
use sfinx_backend.Contest.Editing.Assigned.{assigned, add_problems_assigns}
use sfinx_backend.Contest.Editing.Slugs.{generate_unique_slug_free}
use sfinx_backend.Contest.Editing.Rows.{IsTimed, validate_contest_timing-ok, IsSound}

module _ (slugify : String → String) (contests : Table ℕ Contest ◌==◌)
    (problems : Table ℕ Problem ◌==◌) (contest_problems : Table (ℕ × ℕ) ContestProblem same_pair)
    (max_order_index : contest_problems.Rows → ℕ → Option ℕ) where
  abbrev St : Type 0
  St = Db contests problems contest_problems max_order_index

  pub free_slug_own :
      (rows : contests.Rows) (title slug : String) (exclude : Option ℕ)
      → generate_unique_slug slugify contests problems contest_problems max_order_index rows title
          exclude
        ≡ some slug
      → (j : ℕ) (d : Contest) → contests.find rows j ≡ some d
      → d.slug ≡ slug
      → exclude ≡ some j
  free_slug_own rows title slug exclude h j d there same =
      let (found, search, own) =
        generate_unique_slug_free slugify contests problems contest_problems max_order_index rows
          title exclude in
      let e = some-injective _ _ (sym search ∙ h) in own j d there (same ∙ sym e)

  pub checked_contest-ok :
      (db : St) (dto : CreateContestDto) (c : Contest)
      → checked_contest slugify contests problems contest_problems max_order_index db dto ≡ ok c
      → IsTimed c
        × ((j : ℕ) (d : Contest)
            → contests.find db.contest_rows j ≡ some d
            → d.slug ≡ c.slug
            → none ≡ some j)
  unfolding checked_contest
  checked_contest-ok db dto c h =
      elim (Result-cases (validate_contest_timing dto.start_time dto.end_time)) [
        | inl (e, late) ↦ absurd (ground (arith, h, late))
        | inr (done, timing) ↦
            elim (Option-cases (
              generate_unique_slug slugify contests problems contest_problems max_order_index
                db.contest_rows dto.title none)) [
                  | inl nothing ↦ absurd (ground (arith, h, timing, nothing))
                  | inr (slug, search) ↦
                      let made : new_contest slugify contests problems contest_problems
                            max_order_index dto slug
                          ≡ c =
                        ground (arith, h, timing, search) in
                      let (long, short) =
                        validate_contest_timing-ok dto.start_time dto.end_time timing in
                      let own = free_slug_own db.contest_rows dto.title slug none search in
                      rw (← made) (
                        record { long_enough = long; short_enough = short; in_minutes = refl },
                        own,
                      )
                ]
      ]

  pub updated_contest-IsTimed :
      (c : Contest) (dto : UpdateContestDto) (slug : String)
      → IsTimed c
      → validate_contest_timing
          (or_else dto.start_time c.start_time)
          (or_else dto.end_time c.end_time)
        ≡ ok tt
      → IsTimed
          (updated_contest slugify contests problems contest_problems max_order_index c dto slug)
  updated_contest-IsTimed c dto slug timed timing =
      let (long, short) = validate_contest_timing-ok _ _ timing in
      record {
        long_enough = long;
        short_enough = short;
        in_minutes = elim (Option-cases dto.start_time) [
          | inl kept ↦ elim (Option-cases dto.end_time) [
            | inl kept' ↦ rw (kept, kept') timed.in_minutes
            | inr (end, changed) ↦ rw (kept, changed) refl
          ]
          | inr (start, changed) ↦ rw changed refl
        ];
      }

  pub updated_slug_own :
      (db : St) (id : ℕ) (c : Contest) (title : Option String) (slug : String)
      → IsSound contests db.contest_rows
      → contests.find db.contest_rows id ≡ some c
      → updated_slug slugify contests problems contest_problems max_order_index db id c title
        ≡ ok slug
      → (j : ℕ) (d : Contest) → contests.find db.contest_rows j ≡ some d
      → d.slug ≡ slug
      → j ≡ id
  unfolding updated_slug
  updated_slug_own db id c none slug inv found h j d there same =
      let kept : c.slug ≡ slug = ground (arith, h) in
      inv.apart j id d c there found (same ∙ sym kept)
  updated_slug_own db id c (some title) slug inv found h j d there same =
      elim (Option-cases (
        generate_unique_slug slugify contests problems contest_problems max_order_index
          db.contest_rows title (some id))) [
            | inl nothing ↦ absurd (ground (arith, h, nothing))
            | inr (new, search) ↦
                let e : new ≡ slug = ground (arith, h, search) in
                let own =
                  free_slug_own db.contest_rows title new (some id) search j d there
                    (same ∙ sym e) in
                sym (some-injective _ _ own)
          ]

  pub replace_problems-contest_rows :
      (db db' : St) (id : ℕ) (ps : Option (List AddContestProblem))
      → replace_problems slugify contests problems contest_problems max_order_index db id ps
        ≡ ok db'
      → db'.contest_rows ≡ db.contest_rows
  unfolding replace_problems
  replace_problems-contest_rows db db' id none h = ground (arith, h)
  replace_problems-contest_rows db db' id (some ps) h =
      (add_problems_assigns slugify contests problems contest_problems max_order_index ps
        (record db {
          contest_problem_rows =
              contest_problems.delete_where db.contest_problem_rows (λ k cp. k.0 == id);
        })
        db' id 0 0 0 h).0

  pub replaced_rows :
      (db db' : St) (id : ℕ) (problems_asked : Option (List AddContestProblem)) (d q : ℕ)
      → replace_problems slugify contests problems contest_problems max_order_index db id
          problems_asked
        ≡ ok db'
      → contest_problems.find db'.contest_problem_rows (d, q) ≡ (
          let old = contest_problems.find db.contest_problem_rows (d, q) in
          elim problems_asked [ none ↦ old | some ps ↦ if id == d then assigned q 0 ps else old ])
  unfolding replace_problems
  replaced_rows db db' id none d q h = ground (arith, h)
  replaced_rows db db' id (some ps) d q h =
      let cleared =
        contest_problems.find-delete_where db.contest_problem_rows (λ k cp. k.0 == id) (d, q) in
      let (same, found) =
        add_problems_assigns slugify contests problems contest_problems max_order_index ps
          (record db {
            contest_problem_rows =
                contest_problems.delete_where db.contest_problem_rows (λ k cp. k.0 == id);
          })
          db' id 0 d q h in
      elim (Bool-cases (id == d)) [
        | inr elsewhere ↦
            elim (Option-cases (contest_problems.find db.contest_problem_rows (d, q))) [
              | inl none_there ↦ ground (arith, elsewhere, found, cleared, none_there)
              | inr (cp, there) ↦ ground (arith, elsewhere, found, cleared, there)
            ]
        | inl here ↦
            let empty : contest_problems.find
                  (contest_problems.delete_where db.contest_problem_rows (λ k cp. k.0 == id)) (d, q)
                ≡ none =
              elim (Option-cases (contest_problems.find db.contest_problem_rows (d, q))) [
                | inl none_there ↦ ground (arith, here, cleared, none_there)
                | inr (cp, there) ↦ ground (arith, here, cleared, there)
              ] in
            elim (Option-cases (assigned q 0 ps)) [
              | inl none_asked ↦ ground (arith, here, found, empty, none_asked)
              | inr (cp, asked) ↦ ground (arith, here, found, empty, asked)
            ]
      ]

  -- The rows between the two writes of an update.
  abbrev pub saved_contest : St → ℕ → Contest → UpdateContestDto → String → St
  saved_contest db id c dto slug = record db {
    contest_rows =
        contests.save db.contest_rows id
          (updated_contest slugify contests problems contest_problems max_order_index c dto slug);
  }

  pub update_rows-ok :
      (db db' : St) (id : ℕ) (dto : UpdateContestDto)
      → update_rows slugify contests problems contest_problems max_order_index db id dto ≡ ok db'
      → (c : Contest) × (slug : String) × (contests.find db.contest_rows id ≡ some c)
        × (validate_contest_timing
              (or_else dto.start_time c.start_time)
              (or_else dto.end_time c.end_time)
            ≡ ok tt)
        × (updated_slug slugify contests problems contest_problems max_order_index db id c dto.title
            ≡ ok slug)
        × (replace_problems slugify contests problems contest_problems max_order_index
              (saved_contest db id c dto slug)
              id
              dto.problems
            ≡ ok db')
  unfolding update_rows
  update_rows-ok db db' id dto h = elim (Option-cases (contests.find db.contest_rows id)) [
    | inl missing ↦ absurd (ground (arith, h, missing))
    | inr (c, found) ↦ elim (Bool-cases (is_frozen c)) [
      | inl frozen ↦ absurd (ground (arith, h, found, frozen))
      | inr open_yet ↦
          elim (Result-cases (
            validate_contest_timing (or_else dto.start_time c.start_time)
              (or_else dto.end_time c.end_time))) [
                | inl (e, late) ↦ absurd (ground (arith, h, found, open_yet, late))
                | inr (done, timing) ↦
                    elim (Result-cases (
                      updated_slug slugify contests problems contest_problems max_order_index db id
                        c dto.title)) [
                          | inl (e, nothing) ↦
                              absurd (ground (arith, h, found, open_yet, timing, nothing))
                          | inr (slug, search) ↦
                              let h₁ = rw (found, open_yet, timing, search) at h in
                              (c, slug, found, timing, search, h₁)
                        ]
              ]
    ]
  ]
