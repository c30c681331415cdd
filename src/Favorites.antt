-- ===== src/Favorites.antt =====
-- src/modules/favorite-list/services/favorite-list.service.ts: lists of problems that users keep
-- and save from each other. Names, descriptions and icons are left out, and so are the listings.
pub mod Counts
pub mod Counting
pub mod Contents
pub mod Access
mod Tests
use sfinx_backend.Base.{
  ℕ, ◌&&◌, not, Bool, true, false, Option, none, some, List, [], ◌∷◌, ◌++◌, ◌==◌, same_pair,
  is_some, if◌then◌else◌, or_else, Result, ok, not_found, bad_request, forbidden, ◌>>=◌, ◌>>◌,
  throw_if, or_throw,
}
use sfinx_backend.Base.Int.{ℤ, pos, ◌+ℤ◌, ◌-ℤ◌}
use sfinx_backend.Base.Lists.{keep_if, contains}
use sfinx_backend.Base.Table.{Table}

-- entities/favorite-list.entity.ts
pub record FavoriteList : Type 0 where
  pub owner : ℕ
  pub is_public : Bool
  pub is_default : Bool
  pub saved_count : ℤ
  pub problems : List ℕ

-- A row of saved_favorite_lists under its user and its list has no other columns.
pub record SavedFavoriteList : Type 0 where
  pub saved_at : ℕ

abbrev pub new_list : ℕ → Option Bool → FavoriteList
new_list user is_public = record {
  owner = user;
  is_public = or_else is_public false;
  is_default = false;
  saved_count = pos 0;
  problems = [];
}

-- Whether a list may be read by a user, who is absent when nobody is logged in.
abbrev pub may_read : FavoriteList → Option ℕ → Bool
may_read l none = l.is_public
may_read l (some user) = if l.is_public then true else l.owner == user

-- `problem_exists` reads the table of problems.
module _ (lists : Table ℕ FavoriteList ◌==◌) (saves : Table (ℕ × ℕ) SavedFavoriteList same_pair)
    (problem_exists : ℕ → Bool) where
  pub record Db : Type 0 where
    pub list_rows : lists.Rows
    pub saved_rows : saves.Rows

  -- The database chooses the identifier.
  unfoldable pub create : Db → ℕ → ℕ → Option Bool → Db
  create db id user is_public = record db {
    list_rows = lists.save db.list_rows id (new_list user is_public);
  }

  unfoldable pub find_one : Db → ℕ → Option ℕ → Result FavoriteList
  find_one db id user = do
    l ← or_throw (lists.find db.list_rows id) not_found
    throw_if (not (may_read l user)) forbidden
    ok l

  unfoldable pub update : Db → ℕ → ℕ → Option Bool → Result Db
  update db id user is_public = do
    l ← or_throw (lists.find db.list_rows id) not_found
    throw_if (not (l.owner == user)) forbidden
    ok (record db {
      list_rows =
          lists.save db.list_rows id (record l { is_public = or_else is_public l.is_public });
    })

  -- Saved rows of a removed list go with it (`onDelete: 'CASCADE'`).
  unfoldable pub remove : Db → ℕ → ℕ → Result Db
  remove db id user = do
    l ← or_throw (lists.find db.list_rows id) not_found
    throw_if (not (l.owner == user)) forbidden
    throw_if l.is_default bad_request
    ok (record {
      list_rows = lists.delete db.list_rows id;
      saved_rows = saves.delete_where db.saved_rows (λ key row. key.1 == id);
    })

  unfoldable pub add_problem : Db → ℕ → ℕ → ℕ → Result Db
  add_problem db id problem user = do
    l ← or_throw (lists.find db.list_rows id) not_found
    throw_if (not (l.owner == user)) forbidden
    throw_if (not (problem_exists problem)) not_found
    throw_if (contains problem l.problems) bad_request
    ok (record db {
      list_rows = lists.save db.list_rows id (record l { problems = l.problems ++ problem ∷ [] });
    })

  unfoldable pub remove_problem : Db → ℕ → ℕ → ℕ → Result Db
  remove_problem db id problem user = do
    l ← or_throw (lists.find db.list_rows id) not_found
    throw_if (not (l.owner == user)) forbidden
    ok (record db {
      list_rows =
          lists.save db.list_rows id
            (record l { problems = keep_if (λ p. not (p == problem)) l.problems });
    })

  -- `increment` and `decrement` of `savedCount`
  abbrev pub change_saved : (ℤ → ℤ) → lists.Rows → ℕ → lists.Rows
  change_saved f s id = elim (lists.find s id) [
    | none ↦ s
    | some l ↦ lists.save s id (record l { saved_count = f l.saved_count })
  ]

  unfoldable pub save_list : Db → ℕ → ℕ → ℕ → Result Db
  save_list db now id user = do
    l ← or_throw (lists.find db.list_rows id) not_found
    throw_if (not l.is_public && not (l.owner == user)) forbidden
    throw_if (l.owner == user) bad_request
    ok (
        if is_some (saves.find db.saved_rows (user, id)) then db else (record {
          saved_rows = saves.save db.saved_rows (user, id) (record { saved_at = now });
          list_rows = change_saved (λ n. n +ℤ pos 1) db.list_rows id;
        }))

  unfoldable pub unsave_list : Db → ℕ → ℕ → Result Db
  unsave_list db id user = do
    row ← or_throw (saves.find db.saved_rows (user, id)) not_found
    ok (record {
      saved_rows = saves.delete db.saved_rows (user, id);
      list_rows = change_saved (λ n. n -ℤ pos 1) db.list_rows id;
    })
