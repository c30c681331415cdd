-- ===== src/Contest/Editing/Rows.antt =====
-- What creating and updating keep true of the contests.
use sfinx_backend.Base.{
  ℕ, ◌+◌, ◌-◌, ◌*◌, ◌≤◌, ◌≡◌, inl, inr, some, arith, leb, ltb, ◌==◌, Bool-cases, ok,
}
use sfinx_backend.Base.Table.{Table}
use sfinx_backend.Contest.{Contest}
use sfinx_backend.Contest.Status.{validate_contest_timing}
use sfinx_backend.Contest.Editing.{CreateContestDto, UpdateContestDto, duration}

-- From 15 minutes to 7 days long, with the duration in minutes in its column.
pub record IsTimed (c : Contest) : Type 0 where
  pub long_enough : c.start_time + 900_000 ≤ c.end_time
  pub short_enough : c.end_time ≤ c.start_time + 604_800_000
  pub in_minutes : c.duration_minutes ≡ duration c.start_time c.end_time

pub validate_contest_timing-ok :
    (start end : ℕ)
    → validate_contest_timing start end ≡ ok tt
    → (start + 900_000 ≤ end) × (end ≤ start + 604_800_000)
unfolding validate_contest_timing
validate_contest_timing-ok start end h = elim (Bool-cases (leb end start)) [
  | inl backwards ↦ absurd (ground (arith, h, backwards))
  | inr after ↦ elim (Bool-cases (ltb (end - start) (15 * 60000))) [
    | inl short ↦ absurd (ground (arith, h, after, short))
    | inr long ↦ elim (Bool-cases (ltb (1440 * 7 * 60000) (end - start))) [
      | inl too_long ↦ absurd (ground (arith, h, after, long, too_long))
      | inr fits ↦ ground (arith, after, long, fits)
    ]
  ]
]

-- The two requests: an identifier and a DTO.
pub data Edit : Type 0 where
  creates : ℕ → CreateContestDto → Edit
  updates : ℕ → UpdateContestDto → Edit

module _ (contests : Table ℕ Contest ◌==◌) where
  -- Contests have distinct slugs, and each is timed.
  pub record IsSound (rows : contests.Rows) : Type 0 where
    pub apart :
        (i j : ℕ) (c d : Contest)
        → contests.find rows i ≡ some c
        → contests.find rows j ≡ some d
        → c.slug ≡ d.slug
        → i ≡ j
    pub timed : (i : ℕ) (c : Contest) → contests.find rows i ≡ some c → IsTimed c

  pub save-IsSound :
      (rows : contests.Rows) (id : ℕ) (c : Contest)
      → IsSound rows
      → IsTimed c
      → ((j : ℕ) (d : Contest) → contests.find rows j ≡ some d → d.slug ≡ c.slug → j ≡ id)
      → IsSound (contests.save rows id c)
  save-IsSound rows id c inv timed own = record {
    apart = λ i j a b ha hb same. elim (Bool-cases (id == i)) [
      | inl at_i ↦ elim (Bool-cases (id == j)) [
        | inl at_j ↦ ground (arith, at_i, at_j)
        | inr not_j ↦ ground (
          arith,
          at_i,
          not_j,
          ha,
          hb,
          same,
          own j b,
          contests.find-save rows id i c,
          contests.find-save rows id j c,
        )
      ]
      | inr not_i ↦ elim (Bool-cases (id == j)) [
        | inl at_j ↦ ground (
          arith,
          at_j,
          not_i,
          ha,
          hb,
          same,
          own i a,
          contests.find-save rows id i c,
          contests.find-save rows id j c,
        )
        | inr not_j ↦ ground (
          arith,
          not_i,
          not_j,
          ha,
          hb,
          same,
          inv.apart i j a b,
          contests.find-save rows id i c,
          contests.find-save rows id j c,
        )
      ]
    ];
    timed = λ i a ha. elim (Bool-cases (id == i)) [
      | inl here ↦
          let e : c ≡ a = ground (arith, here, ha, contests.find-save rows id i c) in rw (← e) timed
      | inr other ↦ inv.timed i a (ground (arith, other, ha, contests.find-save rows id i c))
    ];
  }
