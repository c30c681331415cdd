-- ===== src/Contest/Editing/Slugs.antt =====
-- The slug of a contest is found, and no other contest has it.
use Prim.Native.String.{String, ◌++◌, count}
use text.Mathlib.Text.{◌==◌ as ◌==ˢ◌}
use text.Mathlib.TextEquality.{eq_iff}
use text.Mathlib.TextLemmas.{length-append, append_cancel_left}
use sfinx_backend.Base.{
  ℕ, zero, suc, ◌+◌, ◌≤◌, ◌<◌, ◌≡◌, ◌≢◌, ap, sym, inl, inr, true, false, Option, none, some, arith,
  ◌==◌, same_pair, Option-cases, Bool-cases, ==_iff,
}
use sfinx_backend.Base.Decimal.{decimal, decimal_injective}
use sfinx_backend.Base.Pigeons.{Taken, pigeonhole}
use sfinx_backend.Base.Table.{Table}
use sfinx_backend.Contest.{Contest, Problem}
use sfinx_backend.Contest.Problems.{ContestProblem}
use sfinx_backend.Contest.Editing.{numbered, has_slug, free_slug, generate_unique_slug}

-- The slugs that are tried: the base, and the base with 1, 2 and so on.
abbrev candidate : String → ℕ → String
candidate base zero = base
candidate base (suc i) = numbered base (suc i)

base≢numbered : (base : String) (n : ℕ) → base ≢ numbered base n
base≢numbered base n same =
    let size = ap count same in
    let whole = length-append base ("-" ++ decimal n) in
    let dash = length-append "-" (decimal n) in absurd (omega (arith, size, whole, dash))

candidate_injective : (base : String) (i j : ℕ) → candidate base i ≡ candidate base j → i ≡ j
candidate_injective base zero zero same = omega arith
candidate_injective base zero (suc j) same = absurd (base≢numbered base (suc j) same)
candidate_injective base (suc i) zero same = absurd (base≢numbered base (suc i) (sym same))
candidate_injective base (suc i) (suc j) same =
    let ends = append_cancel_left base ("-" ++ decimal (suc i)) ("-" ++ decimal (suc j)) same in
    decimal_injective (suc i) (suc j) (append_cancel_left "-" _ _ ends)

has_slug-slug :
    (exclude : Option ℕ) (slug : String) (id : ℕ) (c : Contest)
    → has_slug exclude slug id c ≡ true
    → c.slug ≡ slug
has_slug-slug none slug id c h = (eq_iff c.slug slug).0 h
has_slug-slug (some e) slug id c h = (eq_iff c.slug slug).0 (ground (arith, h))

excluded :
    (exclude : Option ℕ) (slug : String) (id : ℕ) (c : Contest)
    → (c.slug ==ˢ slug) ≡ true
    → has_slug exclude slug id c ≡ false
    → exclude ≡ some id
excluded none slug id c equal missed = absurd (ground (arith, equal, missed))
excluded (some e) slug id c equal missed =
    ap some (sym ((==_iff id e).0 (ground (arith, equal, missed))))

module _ (slugify : String → String) (contests : Table ℕ Contest ◌==◌)
    (problems : Table ℕ Problem ◌==◌) (contest_problems : Table (ℕ × ℕ) ContestProblem same_pair)
    (max_order_index : contest_problems.Rows → ℕ → Option ℕ) where
  abbrev free : ℕ → contests.Rows → Option ℕ → String → String → ℕ → Option String
  free = free_slug slugify contests problems contest_problems max_order_index

  next_round :
      (fuel i : ℕ) (rows : contests.Rows) (exclude : Option ℕ) (base : String) (p : ℕ × Contest)
      {r : Option String}
      → contests.find_where rows (has_slug exclude (candidate base i)) ≡ some p
      → free (suc fuel) rows exclude base (candidate base i) (suc i) ≡ r
      → free fuel rows exclude base (candidate base (suc i)) (suc (suc i)) ≡ r
  unfolding free_slug
  next_round fuel i rows exclude base p hit h =
      let counter : suc i + 1 ≡ suc (suc i) = omega arith in
      rw counter at (rw (hit, free_slug) at h)

  exhausted :
      (fuel i j : ℕ) (rows : contests.Rows) (exclude : Option ℕ) (base : String)
      → free fuel rows exclude base (candidate base i) (suc i) ≡ none
      → i ≤ j
      → j < i + fuel
      → Taken contests (λ c. c.slug) rows (candidate base j)
  unfolding free_slug
  exhausted zero i j rows exclude base h low high = absurd (omega arith)
  exhausted (suc fuel) i j rows exclude base h low high =
      elim (Option-cases (contests.find_where rows (has_slug exclude (candidate base i)))) [
        | inl unused ↦ absurd (ground (arith, unused, h))
        | inr ((id, c), hit) ↦ elim (Bool-cases (i == j)) [
          | inl same ↦
              let e : i ≡ j = (==_iff i j).0 same in
              let (found, named) =
                contests.find_where-some rows (has_slug exclude (candidate base i)) id c hit in
              rw (← e) (id, c, found, has_slug-slug exclude (candidate base i) id c named)
          | inr other ↦
              exhausted fuel (suc i) j rows exclude base
                (next_round fuel i rows exclude base (id, c) hit h) (ground (arith, other))
                (omega arith)
        ]
      ]

  found_free :
      (fuel i : ℕ) (rows : contests.Rows) (exclude : Option ℕ) (base slug : String)
      → free fuel rows exclude base (candidate base i) (suc i) ≡ some slug
      → contests.find_where rows (has_slug exclude slug) ≡ none
  unfolding free_slug
  found_free zero i rows exclude base slug h = absurd (ground (arith, h))
  found_free (suc fuel) i rows exclude base slug h =
      elim (Option-cases (contests.find_where rows (has_slug exclude (candidate base i)))) [
        | inl unused ↦
            let e : candidate base i ≡ slug = ground (arith, unused, h) in rw (← e) unused
        | inr (p, hit) ↦
            found_free fuel (suc i) rows exclude base slug
              (next_round fuel i rows exclude base p hit h)
      ]

  -- The search for a slug ends for every title, and no contest, other than the one left out, has
  -- the slug that it gives.
  pub generate_unique_slug_free :
      (rows : contests.Rows) (title : String) (exclude : Option ℕ)
      → (slug : String) × (generate_unique_slug slugify contests problems contest_problems
            max_order_index rows title exclude
          ≡ some slug)
        × ((id : ℕ) (c : Contest)
            → contests.find rows id ≡ some c
            → c.slug ≡ slug
            → exclude ≡ some id)
  unfolding generate_unique_slug
  generate_unique_slug_free rows title exclude =
      let all = contests.count rows (λ id c. true) in
      let base = slugify title in
      elim (Option-cases (free (suc all) rows exclude base (candidate base 0) 1)) [
        | inr (slug, h) ↦ (
          slug,
          h,
          λ id c there named.
              let missed =
                contests.find_where-none rows (has_slug exclude slug) id c
                  (found_free (suc all) 0 rows exclude base slug h) there in
              let equal = (eq_iff c.slug slug).1 named in excluded exclude slug id c equal missed,
        )
        | inl none_left ↦
            let bound =
              pigeonhole contests (λ c. c.slug) (suc all) (candidate base) rows
                (candidate_injective base)
                (λ j below.
                  exhausted (suc all) 0 j rows exclude base none_left (omega arith)
                    (omega arith)) in
            absurd (omega (arith, bound))
      ]
