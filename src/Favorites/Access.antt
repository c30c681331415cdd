-- ===== src/Favorites/Access.antt =====
-- Who may read, save and change a list.
use sfinx_backend.Base.{
  ℕ, ◌≡◌, ◌↔◌, Bool, true, false, Option, some, arith, ◌==◌, same_pair, ok, throws, forbidden,
}
use sfinx_backend.Base.Table.{Table}
use sfinx_backend.Favorites.{
  FavoriteList, SavedFavoriteList, Db, may_read, find_one, update, remove, add_problem,
  remove_problem, save_list,
}

module _ (lists : Table ℕ FavoriteList ◌==◌) (saves : Table (ℕ × ℕ) SavedFavoriteList same_pair)
    (problem_exists : ℕ → Bool) where
  -- A list is shown exactly to its owner and, if it is public, to everybody; to others the answer
  -- is that access is forbidden, and they can neither change it nor, if it is private, save it.
  pub find_one-IsGuarded :
      (db : Db lists saves problem_exists) (id user : ℕ) (l : FavoriteList)
      → lists.find db.list_rows id ≡ some l
      → ((find_one lists saves problem_exists db id (some user) ≡ ok l)
          ↔ (may_read l (some user) ≡ true))
        × (may_read l (some user) ≡ false
            → (find_one lists saves problem_exists db id (some user) ≡ throws forbidden)
              × ((now : ℕ)
                  → save_list lists saves problem_exists db now id user ≡ throws forbidden))
        × ((l.owner == user) ≡ false
            → (p : Option Bool) (problem : ℕ)
            → (update lists saves problem_exists db id user p ≡ throws forbidden)
              × (remove lists saves problem_exists db id user ≡ throws forbidden)
              × (add_problem lists saves problem_exists db id problem user ≡ throws forbidden)
              × (remove_problem lists saves problem_exists db id problem user ≡ throws forbidden))
  unfolding find_one save_list update remove add_problem remove_problem
  find_one-IsGuarded db id user l found = (
    (λ h. ground (arith, found, h), λ h. ground (arith, found, h)),
    λ h. (ground (arith, found, h), λ now. ground (arith, found, h)),
    λ h p problem. (
      ground (arith, found, h),
      ground (arith, found, h),
      ground (arith, found, h),
      ground (arith, found, h),
    ),
  )
