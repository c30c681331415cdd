-- ===== src/Accounts/Usernames.antt =====
-- The username of a new Google user is found, and nobody has it.
use sfinx_backend.Base.{
  ℕ, zero, suc, ◌+◌, ◌≤◌, ◌<◌, ◌≡◌, inl, inr, Bool, true, Option, none, some, arith, ◌==◌,
  Option-cases, Bool-cases, ==_iff,
}
use sfinx_backend.Base.Pigeons.{Taken, pigeonhole}
use sfinx_backend.Auth.{User, Services}
use sfinx_backend.Accounts.{free_username, unique_username}

module _ (sv : Services) (numbered : ℕ → ℕ → ℕ) (role_exists : Bool) where
  -- The names that are tried: the base, and the base with 1, 2 and so on.
  abbrev pub candidate : ℕ → ℕ → ℕ
  candidate base zero = base
  candidate base (suc i) = numbered base (suc i)

  abbrev IsTaken : sv.users.Rows → ℕ → Type 0
  IsTaken rows name = Taken sv.users (λ u. u.username) rows name

  hit-IsTaken :
      (rows : sv.users.Rows) (name : ℕ) (p : ℕ × User)
      → sv.users.find_where rows (λ id u. u.username == name) ≡ some p
      → IsTaken rows name
  hit-IsTaken rows name (id, u) hit =
      let (found, named) = sv.users.find_where-some rows (λ id u. u.username == name) id u hit in
      (id, u, found, (==_iff u.username name).0 named)

  -- The search goes on with the next candidate.
  next_round :
      (fuel i : ℕ) (rows : sv.users.Rows) (base : ℕ) (p : ℕ × User) {r : Option ℕ}
      → sv.users.find_where rows (λ id u. u.username == candidate base i) ≡ some p
      → free_username sv numbered role_exists (suc fuel) rows base (candidate base i) (suc i) ≡ r
      → free_username sv numbered role_exists fuel rows base (candidate base (suc i)) (suc (suc i))
        ≡ r
  unfolding free_username
  next_round fuel i rows base p hit h =
      let counter : suc i + 1 ≡ suc (suc i) = omega arith in
      rw counter at (rw (hit, free_username) at h)

  exhausted :
      (fuel i j : ℕ) (rows : sv.users.Rows) (base : ℕ)
      → free_username sv numbered role_exists fuel rows base (candidate base i) (suc i) ≡ none
      → i ≤ j
      → j < i + fuel
      → IsTaken rows (candidate base j)
  unfolding free_username
  exhausted zero i j rows base h low high = absurd (omega arith)
  exhausted (suc fuel) i j rows base h low high =
      elim (Option-cases (sv.users.find_where rows (λ id u. u.username == candidate base i))) [
        | inl free ↦ absurd (ground (arith, free, h))
        | inr (p, hit) ↦ elim (Bool-cases (i == j)) [
          | inl same ↦
              let e : i ≡ j = (==_iff i j).0 same in
              rw (← e) (hit-IsTaken rows (candidate base i) p hit)
          | inr other ↦
              exhausted fuel (suc i) j rows base (next_round fuel i rows base p hit h)
                (ground (arith, other)) (omega arith)
        ]
      ]

  found :
      (fuel i : ℕ) (rows : sv.users.Rows) (base name : ℕ)
      → free_username sv numbered role_exists fuel rows base (candidate base i) (suc i) ≡ some name
      → sv.users.find_where rows (λ id u. u.username == name) ≡ none
  unfolding free_username
  found zero i rows base name h = absurd (ground (arith, h))
  found (suc fuel) i rows base name h =
      elim (Option-cases (sv.users.find_where rows (λ id u. u.username == candidate base i))) [
        | inl free ↦ let e : candidate base i ≡ name = ground (arith, free, h) in rw (← e) free
        | inr (p, hit) ↦ found fuel (suc i) rows base name (next_round fuel i rows base p hit h)
      ]

  -- The search for a username ends, as soon as numbered names differ from each other and from the
  -- base, and no user has the name that it gives.
  pub unique_username_free :
      (rows : sv.users.Rows) (base : ℕ)
      → ((i j : ℕ) → candidate base i ≡ candidate base j → i ≡ j)
      → (name : ℕ) × (unique_username sv numbered role_exists rows base ≡ some name)
        × (sv.users.find_where rows (λ id u. u.username == name) ≡ none)
  unfolding unique_username
  unique_username_free rows base apart =
      let all = sv.users.count rows (λ id u. true) in
      elim (Option-cases
        (free_username sv numbered role_exists (suc all) rows base (candidate base 0) 1)) [
          | inr (name, h) ↦ (name, h, found (suc all) 0 rows base name h)
          | inl none_left ↦
              let bound =
                pigeonhole sv.users (λ u. u.username) (suc all) (candidate base) rows apart
                  (λ j below.
                    exhausted (suc all) 0 j rows base none_left (omega arith) (omega arith)) in
              absurd (omega (arith, bound))
        ]
