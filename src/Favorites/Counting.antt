-- ===== src/Favorites/Counting.antt =====
-- The number of users who saved a list against the saved rows.
use sfinx_backend.Base.{
  ℕ, ◌≡◌, ◌&&◌, not, refl, inl, inr, Bool, Option, none, arith, ◌==◌, same_pair, Bool-cases,
  Option-cases, state_after,
}
use sfinx_backend.Base.Lists.{contains}
use sfinx_backend.Base.Table.{Table}
use sfinx_backend.Favorites.{
  FavoriteList, SavedFavoriteList, new_list, Db, create, update, remove, add_problem,
  remove_problem, save_list, unsave_list,
}
use sfinx_backend.Favorites.Counts.{
  is_of, IsCounted, kept_list, removed-IsCounted, saved-IsCounted, unsaved-IsCounted,
}

-- The calls that write: the list and the user, and what else the call is given.
pub data Call : Type 0 where
  creates : ℕ → ℕ → Option Bool → Call
  updates : ℕ → ℕ → Option Bool → Call
  removes : ℕ → ℕ → Call
  adds drops : ℕ → ℕ → ℕ → Call
  saves_list : ℕ → ℕ → ℕ → Call
  unsaves : ℕ → ℕ → Call

module _ (lists : Table ℕ FavoriteList ◌==◌) (saves : Table (ℕ × ℕ) SavedFavoriteList same_pair)
    (problem_exists : ℕ → Bool) where
  abbrev St : Type 0
  St = Db lists saves problem_exists

  abbrev pub after_call : Call → St → St
  after_call (creates id user p) db = create lists saves problem_exists db id user p
  after_call (updates id user p) db =
      state_after db (update lists saves problem_exists db id user p)
  after_call (removes id user) db = state_after db (remove lists saves problem_exists db id user)
  after_call (adds id problem user) db =
      state_after db (add_problem lists saves problem_exists db id problem user)
  after_call (drops id problem user) db =
      state_after db (remove_problem lists saves problem_exists db id problem user)
  after_call (saves_list now id user) db =
      state_after db (save_list lists saves problem_exists db now id user)
  after_call (unsaves id user) db =
      state_after db (unsave_list lists saves problem_exists db id user)

  -- The database gives a new list an identifier that no list has.
  abbrev pub IsFresh : Call → St → Type 0
  IsFresh (creates id user p) db = lists.find db.list_rows id ≡ none
  IsFresh _ db = Unit

  create-IsCounted :
      (db : St) (id user : ℕ) (p : Option Bool)
      → lists.find db.list_rows id ≡ none
      → IsCounted lists saves problem_exists db
      → IsCounted lists saves problem_exists (create lists saves problem_exists db id user p)
  unfolding create
  create-IsCounted db id user p fresh inv = record {
    counted = λ j m h.
        ground (
          arith,
          h,
          no_saves,
          inv.counted j m,
          lists.find-save db.list_rows id j (new_list user p),
        );
    has_list = λ key row h.
        ground (
          arith,
          h,
          inv.has_list key row h,
          lists.find-save db.list_rows id key.1 (new_list user p),
        );
  }
    where
      no_saves : saves.count db.saved_rows (is_of id) ≡ 0
      no_saves = saves.count-zero db.saved_rows (is_of id) (λ key row h.
          elim (Bool-cases (key.1 == id)) [
            | inr other ↦ other
            | inl same ↦ absurd (ground (arith, same, fresh, inv.has_list key row h))
          ])

  update-IsCounted :
      (db : St) (id user : ℕ) (p : Option Bool)
      → IsCounted lists saves problem_exists db
      → IsCounted lists saves problem_exists (after_call (updates id user p) db)
  unfolding update
  update-IsCounted db id user p inv = elim (Option-cases (lists.find db.list_rows id)) [
    | inl missing ↦ rw missing inv
    | inr (l, found) ↦ elim (Bool-cases (not (l.owner == user))) [
      | inl other ↦ rw (found, other) inv
      | inr own ↦ rw (found, own) (kept_list lists saves problem_exists db id l _ found refl inv)
    ]
  ]

  changed-IsCounted :
      (db : St) (id problem user : ℕ)
      → IsCounted lists saves problem_exists db
      → IsCounted lists saves problem_exists (after_call (adds id problem user) db)
        × IsCounted lists saves problem_exists (after_call (drops id problem user) db)
  unfolding add_problem remove_problem
  changed-IsCounted db id problem user inv = elim (Option-cases (lists.find db.list_rows id)) [
    | inl missing ↦ rw missing (inv, inv)
    | inr (l, found) ↦ elim (Bool-cases (not (l.owner == user))) [
      | inl other ↦ rw (found, other) (inv, inv)
      | inr own ↦ (
        elim (Bool-cases (not (problem_exists problem))) [
          | inl unknown ↦ rw (found, own, unknown) inv
          | inr known ↦ elim (Bool-cases (contains problem l.problems)) [
            | inl old ↦ rw (found, own, known, old) inv
            | inr new ↦
                rw (found, own, known, new)
                  (kept_list lists saves problem_exists db id l _ found refl inv)
          ]
        ],
        rw (found, own) (kept_list lists saves problem_exists db id l _ found refl inv),
      )
    ]
  ]

  remove-IsCounted :
      (db : St) (id user : ℕ)
      → IsCounted lists saves problem_exists db
      → IsCounted lists saves problem_exists (after_call (removes id user) db)
  unfolding remove
  remove-IsCounted db id user inv = elim (Option-cases (lists.find db.list_rows id)) [
    | inl missing ↦ rw missing inv
    | inr (l, found) ↦ elim (Bool-cases (not (l.owner == user))) [
      | inl other ↦ rw (found, other) inv
      | inr own ↦ elim (Bool-cases l.is_default) [
        | inl default ↦ rw (found, own, default) inv
        | inr extra ↦
            rw (found, own, extra) (removed-IsCounted lists saves problem_exists db id inv)
      ]
    ]
  ]

  save_list-IsCounted :
      (db : St) (now id user : ℕ)
      → IsCounted lists saves problem_exists db
      → IsCounted lists saves problem_exists (after_call (saves_list now id user) db)
  unfolding save_list
  save_list-IsCounted db now id user inv = elim (Option-cases (lists.find db.list_rows id)) [
    | inl missing ↦ rw missing inv
    | inr (l, found) ↦ elim (Bool-cases (not l.is_public && not (l.owner == user))) [
      | inl private ↦ rw (found, private) inv
      | inr readable ↦ elim (Bool-cases (l.owner == user)) [
        | inl own ↦ rw (found, readable, own) inv
        | inr other ↦ elim (Option-cases (saves.find db.saved_rows (user, id))) [
          | inr (row, there) ↦ rw (found, readable, other, there) inv
          | inl fresh ↦
              rw (found, readable, other, fresh)
                (saved-IsCounted lists saves problem_exists db now id user l found fresh inv)
        ]
      ]
    ]
  ]

  unsave_list-IsCounted :
      (db : St) (id user : ℕ)
      → IsCounted lists saves problem_exists db
      → IsCounted lists saves problem_exists (after_call (unsaves id user) db)
  unfolding unsave_list
  unsave_list-IsCounted db id user inv = elim (Option-cases (saves.find db.saved_rows (user, id))) [
    | inl missing ↦ rw missing inv
    | inr (row, there) ↦ elim (Option-cases (lists.find db.list_rows id)) [
      | inl no_list ↦ absurd (ground (arith, no_list, inv.has_list (user, id) row there))
      | inr (l, found) ↦
          rw there (unsaved-IsCounted lists saves problem_exists db id user l row found there inv)
    ]
  ]

  -- Every call that writes, refused calls included, keeps the saved count of every list equal to
  -- the number of users who saved it, if the database gives new lists fresh identifiers.
  pub after_call-IsCounted :
      (c : Call) (db : St)
      → IsFresh c db
      → IsCounted lists saves problem_exists db
      → IsCounted lists saves problem_exists (after_call c db)
  after_call-IsCounted (creates id user p) db fresh inv = create-IsCounted db id user p fresh inv
  after_call-IsCounted (updates id user p) db fresh inv = update-IsCounted db id user p inv
  after_call-IsCounted (removes id user) db fresh inv = remove-IsCounted db id user inv
  after_call-IsCounted (adds id problem user) db fresh inv =
      (changed-IsCounted db id problem user inv).0
  after_call-IsCounted (drops id problem user) db fresh inv =
      (changed-IsCounted db id problem user inv).1
  after_call-IsCounted (saves_list now id user) db fresh inv =
      save_list-IsCounted db now id user inv
  after_call-IsCounted (unsaves id user) db fresh inv = unsave_list-IsCounted db id user inv
