-- ===== src/Accounts/Registering.antt =====
-- Who registers can log in.
use sfinx_backend.Base.{
  ℕ, ◌≡◌, ◌⊎◌, ◌||◌, refl, inl, inr, Bool, true, false, none, some, arith, ◌==◌, Bool-cases,
  Option-cases, ok,
}
use sfinx_backend.Auth.{User, AuthResponse, Services, Db, login, generate_auth_response}
use sfinx_backend.Accounts.{RegisterDto, new_user, register}

module _ (sv : Services) (numbered : ℕ → ℕ → ℕ) (role_exists : Bool) where
  -- What an accepted registration has found and left in the table of users.
  record Registers (db db' : Db sv) (d : RegisterDto) : Type 0 where
    pub no_email : sv.users.find_where db.user_rows (λ id u. u.email == d.new_email) ≡ none
    pub no_name : sv.users.find_where db.user_rows (λ id u. u.username == d.new_username) ≡ none
    pub written :
        db'.user_rows
        ≡ sv.users.save db.user_rows d.new_id
            (new_user d.new_email d.new_username (some d.new_hash) none false)

  register-Registers :
      (db db' : Db sv) (now : ℕ) (d : RegisterDto) (answer : AuthResponse)
      → register sv numbered role_exists db now d ≡ ok (answer, db')
      → Registers db db' d
  unfolding register generate_auth_response
  register-Registers db db' now d answer h =
      elim (Option-cases (sv.users.find_where db.user_rows (λ id u. u.email == d.new_email))) [
        | inr (p, old) ↦ absurd (ground (arith, old, h))
        | inl no_email ↦
            elim (Option-cases
              (sv.users.find_where db.user_rows (λ id u. u.username == d.new_username))) [
                | inr (p, old) ↦ absurd (ground (arith, no_email, old, h))
                | inl no_name ↦ record {
                  no_email = no_email;
                  no_name = no_name;
                  written = ground (arith, no_email, no_name, h);
                }
              ]
      ]

  abbrev named : ℕ → ℕ → User → Bool
  named text id u = (u.email == text) || (u.username == text)

  -- The only row that the new email or the new username finds is the new one.
  only_hit :
      (db db' : Db sv) (d : RegisterDto) (text j : ℕ) (v : User)
      → Registers db db' d
      → ((i : ℕ) (w : User)
          → sv.users.find db.user_rows i ≡ some w
          → ((w.username == d.new_email) ≡ false) × ((w.email == d.new_username) ≡ false))
      → (text ≡ d.new_email) ⊎ (text ≡ d.new_username)
      → sv.users.find db'.user_rows j ≡ some v
      → named text j v ≡ true
      → (j ≡ d.new_id) × (v ≡ new_user d.new_email d.new_username (some d.new_hash) none false)
  only_hit db db' d text j v r apart own found hit =
      let u = new_user d.new_email d.new_username (some d.new_hash) none false in
      let saved = sv.users.find-save db.user_rows d.new_id j u in
      elim (Bool-cases (d.new_id == j)) [
        | inl same ↦ (ground (arith, same), ground (arith, same, found, saved, r.written))
        | inr other ↦
            let old : sv.users.find db.user_rows j ≡ some v =
              ground (arith, other, found, saved, r.written) in
            let no_email =
              sv.users.find_where-none db.user_rows (λ id u. u.email == d.new_email) j v r.no_email
                old in
            let no_name =
              sv.users.find_where-none db.user_rows (λ id u. u.username == d.new_username) j v
                r.no_name old in
            absurd (ground (arith, hit, own, no_email, no_name, apart j v old))
      ]

  -- Right after registering, the new user can log in with the password, by the email and by the
  -- username, and the tokens are for the new user, if bcrypt accepts the password for its hash and
  -- no user before has the new email as username or the new username as email.
  pub register-login :
      (db db' : Db sv) (now later text password jti : ℕ) (d : RegisterDto) (answer : AuthResponse)
      → register sv numbered role_exists db now d ≡ ok (answer, db')
      → sv.compare_password password d.new_hash ≡ true
      → ((i : ℕ) (w : User)
          → sv.users.find db.user_rows i ≡ some w
          → ((w.username == d.new_email) ≡ false) × ((w.email == d.new_username) ≡ false))
      → (text ≡ d.new_email) ⊎ (text ≡ d.new_username)
      → (answer' : AuthResponse) × (db'' : Db sv) × (login sv db' later text password jti
          ≡ ok (answer', db''))
        × (answer'.subject ≡ d.new_id)
  unfolding login generate_auth_response
  register-login db db' now later text password jti d answer h right apart own =
      let r = register-Registers db db' now d answer h in
      let u = new_user d.new_email d.new_username (some d.new_hash) none false in
      let there : sv.users.find db'.user_rows d.new_id ≡ some u =
        ground (arith, r.written, sv.users.find-save db.user_rows d.new_id d.new_id u) in
      elim (Option-cases (sv.users.find_where db'.user_rows (named text))) [
        | inl missing ↦
            let unnamed =
              sv.users.find_where-none db'.user_rows (named text) d.new_id u missing there in
            absurd (ground (arith, own, unnamed))
        | inr ((j, v), hit) ↦
            let (found, matches) = sv.users.find_where-some db'.user_rows (named text) j v hit in
            let (at_new, is_new) = only_hit db db' d text j v r apart own found matches in
            let hit_new : sv.users.find_where db'.user_rows (named text) ≡ some (d.new_id, u) =
              ground (arith, hit, at_new, is_new) in
            let seen = record u { last_login_at = some later; last_active_at = some later } in
            let answered =
              generate_auth_response sv
                (record db' { user_rows = sv.users.save db'.user_rows d.new_id seen }) later
                d.new_id jti in
            (answered.0, answered.1, rw (login, hit_new, right) refl, refl)
      ]
