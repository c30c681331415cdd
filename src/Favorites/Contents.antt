-- ===== src/Favorites/Contents.antt =====
-- The problems of a list: adding and removing.
use sfinx_backend.Base.{
  ℕ, ◌≡◌, not, inl, inr, Bool, true, false, some, List, [], ◌∷◌, ◌++◌, arith, ◌==◌, same_pair,
  Option-cases, ok, throws, bad_request,
}
use sfinx_backend.Base.Lists.{keep_if, contains}
use sfinx_backend.Base.Table.{Table}
use sfinx_backend.Favorites.{FavoriteList, SavedFavoriteList, Db, add_problem, remove_problem}

keep_if-append :
    (p : ℕ) (xs : List ℕ) → contains p xs ≡ false → keep_if (λ q. not (q == p)) (xs ++ p ∷ []) ≡ xs
keep_if-append p [] absent = ground arith
keep_if-append p (x ∷ xs) absent = ground (arith, keep_if-append p xs)

contains-append : (p : ℕ) (xs : List ℕ) → contains p (xs ++ p ∷ []) ≡ true
contains-append p [] = ground arith
contains-append p (x ∷ xs) = ground (arith, contains-append p xs)

module _ (lists : Table ℕ FavoriteList ◌==◌) (saves : Table (ℕ × ℕ) SavedFavoriteList same_pair)
    (problem_exists : ℕ → Bool) where
  -- What an accepted call of `add_problem` has found and written.
  record IsAdded (db db' : Db lists saves problem_exists) (id problem user : ℕ) : Type 0 where
    pub list : FavoriteList
    pub found : lists.find db.list_rows id ≡ some list
    pub own : (list.owner == user) ≡ true
    pub known : problem_exists problem ≡ true
    pub absent : contains problem list.problems ≡ false
    pub written : db' ≡ record db {
      list_rows =
          lists.save db.list_rows id (record list { problems = list.problems ++ problem ∷ [] });
    }

  add_problem-IsAdded :
      (db db' : Db lists saves problem_exists) (id problem user : ℕ)
      → add_problem lists saves problem_exists db id problem user ≡ ok db'
      → IsAdded db db' id problem user
  unfolding add_problem
  add_problem-IsAdded db db' id problem user h = elim (Option-cases (lists.find db.list_rows id)) [
    | inl missing ↦ absurd (ground (arith, missing, h))
    | inr (l, found) ↦ record {
      list = l;
      found = found;
      own = ground (arith, found, h);
      known = ground (arith, found, h);
      absent = ground (arith, found, h);
      written = ground (arith, found, h);
    }
  ]

  -- Once a problem has been added to a list, adding it again is refused, and removing it gives
  -- every list back as it was before.
  pub add_problem-remove_problem :
      (db db' : Db lists saves problem_exists) (id problem user : ℕ)
      → add_problem lists saves problem_exists db id problem user ≡ ok db'
      → (add_problem lists saves problem_exists db' id problem user ≡ throws bad_request)
        × (db'' : Db lists saves problem_exists) × (remove_problem lists saves problem_exists db' id
              problem user
            ≡ ok db'')
        × ((j : ℕ) → lists.find db''.list_rows j ≡ lists.find db.list_rows j)
  unfolding add_problem remove_problem
  add_problem-remove_problem db db' id problem user h =
      let a = add_problem-IsAdded db db' id problem user h in
      let longer = record a.list { problems = a.list.problems ++ problem ∷ [] } in
      let kept = keep_if (λ q. not (q == problem)) longer.problems in
      let there : lists.find db'.list_rows id ≡ some longer =
        ground (arith, a.written, lists.find-save db.list_rows id id longer) in
      (
        ground (arith, there, a.own, a.known, contains-append problem a.list.problems),
        record db' { list_rows = lists.save db'.list_rows id (record a.list { problems = kept }) },
        ground (arith, there, a.own),
        λ j. ground (
          arith,
          a.written,
          a.found,
          keep_if-append problem a.list.problems a.absent,
          lists.find-save db.list_rows id j longer,
          lists.find-save db'.list_rows id j (record a.list { problems = kept }),
        ),
      )
