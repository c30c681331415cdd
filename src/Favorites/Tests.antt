-- ===== src/Favorites/Tests.antt =====
-- Favorite lists on list tables: the theorems at concrete inputs.
use sfinx_backend.Base.{
  ℕ, ◌≡◌, refl, Bool, true, false, some, [], ◌∷◌, arith, ◌==◌, same_pair, ltb, state_after, ok,
}
use sfinx_backend.Base.Int.{pos}
use sfinx_backend.Base.Table.{Table, number_table, pair_table}
use sfinx_backend.Favorites.{FavoriteList, SavedFavoriteList, Db, add_problem}
use sfinx_backend.Favorites.Counts.{IsCounted}
use sfinx_backend.Favorites.Counting.{saves_list, after_call, after_call-IsCounted}

abbrev lists : Table ℕ FavoriteList ◌==◌
lists = number_table FavoriteList

abbrev saves : Table (ℕ × ℕ) SavedFavoriteList same_pair
saves = pair_table SavedFavoriteList

abbrev problem_exists : ℕ → Bool
problem_exists p = ltb p 10

-- User 7 has two lists; user 8 has saved the first one.
abbrev shared : FavoriteList
shared = record {
  owner = 7;
  is_public = true;
  is_default = false;
  saved_count = pos 1;
  problems = 3 ∷ [];
}

abbrev hidden : FavoriteList
hidden = record shared { is_public = false; saved_count = pos 0 }

abbrev db : Db lists saves problem_exists
unfolding number_table pair_table
db = record {
  list_rows = ((1, shared) ∷ (2, hidden) ∷ [], (refl, (refl, tt)));
  saved_rows = (((8, 1), record { saved_at = 5 }) ∷ [], (refl, tt));
}

db-IsCounted : IsCounted lists saves problem_exists db
unfolding number_table pair_table db
db-IsCounted = record { counted = λ id l h. ground arith; has_list = λ key row h. ground arith }

after_call-IsCounted_example :
    IsCounted lists saves problem_exists
      (after_call lists saves problem_exists (saves_list 60 1 9) db)
after_call-IsCounted_example =
    after_call-IsCounted lists saves problem_exists (saves_list 60 1 9) db tt db-IsCounted

abbrev db' : Db lists saves problem_exists
db' = state_after db (add_problem lists saves problem_exists db 1 4 7)

added : add_problem lists saves problem_exists db 1 4 7 ≡ ok db'
unfolding add_problem number_table db
added = refl

hidden_found : lists.find db.list_rows 2 ≡ some hidden
unfolding number_table db
hidden_found = refl
