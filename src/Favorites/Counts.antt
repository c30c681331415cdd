-- ===== src/Favorites/Counts.antt =====
-- Saved counts after a write to one list or one saved row.
use sfinx_backend.Base.{
  ℕ, ◌≡◌, ◌&&◌, inl, inr, Bool, true, false, none, some, arith, ◌==◌, same_pair, same_pair_iff,
  Bool-cases, is_some,
}
use sfinx_backend.Base.Int.{pos, ◌+ℤ◌, ◌-ℤ◌}
use sfinx_backend.Base.Table.{Table}
use sfinx_backend.Favorites.{FavoriteList, SavedFavoriteList, Db, change_saved}

-- `favorite_list_id = :id`
abbrev pub is_of : ℕ → ℕ × ℕ → SavedFavoriteList → Bool
is_of id key row = key.1 == id

module _ (lists : Table ℕ FavoriteList ◌==◌) (saves : Table (ℕ × ℕ) SavedFavoriteList same_pair)
    (problem_exists : ℕ → Bool) where
  abbrev St : Type 0
  St = Db lists saves problem_exists

  -- Each list counts its saved rows, and each saved row is of a list that is there.
  pub record IsCounted (db : St) : Type 0 where
    pub counted :
        (id : ℕ) (l : FavoriteList)
        → lists.find db.list_rows id ≡ some l
        → l.saved_count ≡ pos (saves.count db.saved_rows (is_of id))
    pub has_list :
        (key : ℕ × ℕ) (row : SavedFavoriteList)
        → saves.find db.saved_rows key ≡ some row
        → is_some (lists.find db.list_rows key.1) ≡ true

  -- Overwriting a list by one with the same count keeps the counts right.
  pub kept_list :
      (db : St) (id : ℕ) (l l' : FavoriteList)
      → lists.find db.list_rows id ≡ some l
      → l'.saved_count ≡ l.saved_count
      → IsCounted db
      → IsCounted (record db { list_rows = lists.save db.list_rows id l' })
  kept_list db id l l' found same inv = record {
    counted = λ j m h. ground (
      arith,
      found,
      same,
      h,
      inv.counted j m,
      inv.counted id l found,
      lists.find-save db.list_rows id j l',
    );
    has_list = λ key row h.
        ground (arith, h, inv.has_list key row h, lists.find-save db.list_rows id key.1 l');
  }

  pub removed-IsCounted :
      (db : St) (id : ℕ)
      → IsCounted db
      → IsCounted (record {
        list_rows = lists.delete db.list_rows id;
        saved_rows = saves.delete_where db.saved_rows (λ key row. key.1 == id);
      })
  removed-IsCounted db id inv = record {
    counted = λ j m h. elim (Bool-cases (id == j)) [
      | inl same ↦ absurd (ground (arith, same, h, lists.find-delete db.list_rows id j))
      | inr other ↦ ground (
        arith,
        other,
        h,
        none_of_both j other,
        inv.counted j m,
        lists.find-delete db.list_rows id j,
        saves.count-delete_where db.saved_rows (λ key row. key.1 == id) (is_of j),
      )
    ];
    has_list = λ key row h. ground (
      arith,
      h,
      inv.has_list key row,
      lists.find-delete db.list_rows id key.1,
      saves.find-delete_where db.saved_rows (λ key row. key.1 == id) key,
    );
  }
    where
      none_of_both :
          (j : ℕ)
          → (id == j) ≡ false
          → saves.count db.saved_rows (λ key row. (key.1 == id) && (key.1 == j)) ≡ 0
      none_of_both j other = saves.count-zero db.saved_rows _ (λ key row h. ground (arith, other))

  pub saved-IsCounted :
      (db : St) (now id user : ℕ) (l : FavoriteList)
      → lists.find db.list_rows id ≡ some l
      → saves.find db.saved_rows (user, id) ≡ none
      → IsCounted db
      → IsCounted (record {
        saved_rows = saves.save db.saved_rows (user, id) (record { saved_at = now });
        list_rows = change_saved lists saves problem_exists (λ n. n +ℤ pos 1) db.list_rows id;
      })
  unfolding ◌+ℤ◌
  saved-IsCounted db now id user l found fresh inv = record {
    counted = λ j m h. ground (
      arith,
      found,
      fresh,
      h,
      inv.counted j m,
      inv.counted id l found,
      lists.find-save db.list_rows id j (record l { saved_count = l.saved_count +ℤ pos 1 }),
      saves.count-save db.saved_rows (user, id) (record { saved_at = now }) (is_of j),
    );
    has_list = λ key row h. ground (
      arith,
      found,
      h,
      inv.has_list key row,
      same_pair_iff (user, id) key,
      lists.find-save db.list_rows id key.1 (record l { saved_count = l.saved_count +ℤ pos 1 }),
      saves.find-save db.saved_rows (user, id) key (record { saved_at = now }),
    );
  }

  pub unsaved-IsCounted :
      (db : St) (id user : ℕ) (l : FavoriteList) (row : SavedFavoriteList)
      → lists.find db.list_rows id ≡ some l
      → saves.find db.saved_rows (user, id) ≡ some row
      → IsCounted db
      → IsCounted (record {
        saved_rows = saves.delete db.saved_rows (user, id);
        list_rows = change_saved lists saves problem_exists (λ n. n -ℤ pos 1) db.list_rows id;
      })
  unfolding ◌-ℤ◌
  unsaved-IsCounted db id user l row found there inv = record {
    counted = λ j m h. ground (
      arith,
      found,
      there,
      h,
      inv.counted j m,
      inv.counted id l found,
      lists.find-save db.list_rows id j (record l { saved_count = l.saved_count -ℤ pos 1 }),
      saves.count-delete db.saved_rows (user, id) (is_of j),
    );
    has_list = λ key r h. ground (
      arith,
      found,
      h,
      inv.has_list key r,
      lists.find-save db.list_rows id key.1 (record l { saved_count = l.saved_count -ℤ pos 1 }),
      saves.find-delete db.saved_rows (user, id) key,
    );
  }
