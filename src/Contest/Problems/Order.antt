-- ===== src/Contest/Problems/Order.antt =====
-- Where the problems of a contest stand after a reordering.
use sfinx_backend.Base.{
  ℕ, suc, ◌≡◌, refl, inl, inr, true, false, Option, none, some, List, [], ◌∷◌, arith, ◌==◌,
  same_pair, same_pair_iff, if◌then◌else◌, Bool-cases, Option-cases, ok, throws, bad_request, ◌∙◌,
  ap,
}
use sfinx_backend.Base.Table.{Table, map_row}
use sfinx_backend.Contest.{Contest, Problem}
use sfinx_backend.Contest.Problems.{
  ContestProblem, get_default_label, is_frozen, Db, place, place_all, reorder_contest_problems,
}

-- The last position of a problem in a list whose first position is the given one.
abbrev pub last_position : ℕ → ℕ → List ℕ → Option ℕ
last_position p i [] = none
last_position p i (q ∷ qs) = elim (last_position p (suc i) qs) [
  | some k ↦ some k
  | none ↦ if q == p then some i else none
]

abbrev pub placed : Option ℕ → ContestProblem → ContestProblem
placed none cp = cp
placed (some i) cp = record cp { order_index = i; label = get_default_label i }

module _ (contests : Table ℕ Contest ◌==◌) (problems : Table ℕ Problem ◌==◌)
    (contest_problems : Table (ℕ × ℕ) ContestProblem same_pair)
    (max_order_index : contest_problems.Rows → ℕ → Option ℕ) where
  find-place :
      (contest p i d q : ℕ) (rows : contest_problems.Rows)
      → contest_problems.find
          (place contests problems contest_problems max_order_index contest rows p i)
          (d, q)
        ≡ map_row
            (λ cp. if same_pair (contest, p) (d, q) then placed (some i) cp else cp)
            (contest_problems.find rows (d, q))
  find-place contest p i d q rows = elim (Option-cases (contest_problems.find rows (contest, p))) [
    | inl missing ↦ elim (Option-cases (contest_problems.find rows (d, q))) [
      | inl none_there ↦ ground (arith, missing, none_there)
      | inr (cp, there) ↦ ground (arith, missing, there, same_pair_iff (contest, p) (d, q))
    ]
    | inr (cp, row) ↦ elim (Option-cases (contest_problems.find rows (d, q))) [
      | inl none_there ↦ ground (
        arith,
        row,
        none_there,
        same_pair_iff (contest, p) (d, q),
        contest_problems.find-save rows (contest, p) (d, q) (placed (some i) cp),
      )
      | inr (other, there) ↦ ground (
        arith,
        row,
        there,
        same_pair_iff (contest, p) (d, q),
        contest_problems.find-save rows (contest, p) (d, q) (placed (some i) cp),
      )
    ]
  ]

  abbrev pub moved : ℕ → ℕ → ℕ → Option ℕ → ContestProblem → ContestProblem
  moved contest d q position cp = if contest == d then placed position cp else cp

  moved_twice :
      (contest p i d q : ℕ) (ps : List ℕ) (cp : ContestProblem)
      → moved contest d q
          (last_position q (suc i) ps)
          (if same_pair (contest, p) (d, q) then placed (some i) cp else cp)
        ≡ moved contest d q (last_position q i (p ∷ ps)) cp
  moved_twice contest p i d q ps cp = elim (Bool-cases (contest == d)) [
    | inr other ↦ ground (arith, other)
    | inl same ↦ elim (Option-cases (last_position q (suc i) ps)) [
      | inr (k, later) ↦ elim (Bool-cases (p == q)) [
        | inl here ↦ rw (later, same, here) refl
        | inr elsewhere ↦ rw (later, same, elsewhere) refl
      ]
      | inl last ↦ elim (Bool-cases (p == q)) [
        | inl here ↦ rw (last, same, here) refl
        | inr elsewhere ↦ rw (last, same, elsewhere) refl
      ]
    ]
  ]

  find-place_all :
      (contest i d q : ℕ) (ps : List ℕ) (rows : contest_problems.Rows)
      → contest_problems.find
          (place_all contests problems contest_problems max_order_index contest i ps rows)
          (d, q)
        ≡ map_row (moved contest d q (last_position q i ps)) (contest_problems.find rows (d, q))
  unfolding place_all
  find-place_all contest i d q [] rows = elim (Option-cases (contest_problems.find rows (d, q))) [
    | inl missing ↦ ground (arith, missing)
    | inr (cp, there) ↦ ground (arith, there)
  ]
  find-place_all contest i d q (p ∷ ps) rows =
      let next = place contests problems contest_problems max_order_index contest rows p i in
      let rest = find-place_all contest (suc i) d q ps next in
      let first = find-place contest p i d q rows in
      elim (Option-cases (contest_problems.find rows (d, q))) [
        | inl missing ↦ rest ∙ rw (first, missing) refl
        | inr (cp, there) ↦ rest ∙ rw (first, there) (ap some (moved_twice contest p i d q ps cp))
      ]

  -- Reordering the problems of a contest, before it runs, puts each problem that is in the list at
  -- its last position there, with the label of that position, and leaves its points, all problems
  -- that are not in the list and all other contests as they are. A running or ended contest is
  -- refused.
  pub reorder_contest_problems_places :
      (db : Db contests problems contest_problems max_order_index) (contest : ℕ) (c : Contest)
      (order : List ℕ)
      → contests.find db.contest_rows contest ≡ some c
      → (is_frozen c ≡ true
          → reorder_contest_problems contests problems contest_problems max_order_index db contest
              order
            ≡ throws bad_request)
        × (is_frozen c ≡ false
            → (db' : Db contests problems contest_problems max_order_index)
              × (reorder_contest_problems contests problems contest_problems max_order_index db
                    contest order
                  ≡ ok db')
              × ((d q : ℕ)
                  → contest_problems.find db'.contest_problem_rows (d, q)
                    ≡ map_row
                        (moved contest d q (last_position q 0 order))
                        (contest_problems.find db.contest_problem_rows (d, q))))
  unfolding reorder_contest_problems
  reorder_contest_problems_places db contest c order found = (
    λ frozen. rw (reorder_contest_problems, found, frozen) refl,
    λ editable. (
      record db {
        contest_problem_rows =
            place_all contests problems contest_problems max_order_index contest 0 order
              db.contest_problem_rows;
      },
      rw (reorder_contest_problems, found, editable) refl,
      λ d q. find-place_all contest 0 d q order db.contest_problem_rows,
    ),
  )
