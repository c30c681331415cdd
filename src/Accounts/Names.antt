-- ===== src/Accounts/Names.antt =====
-- No two users share an email or a username.
use sfinx_backend.Base.{
  ℕ, ◌≡◌, ◌&&◌, not, refl, inl, inr, Bool, true, false, Option, none, some, arith, ◌==◌, Bool-cases,
  Option-cases, ==_iff, Result, throws, ok, is_some, ◌>>=◌,
}
use sfinx_backend.Auth.{User, Services, Db, left_by, generate_auth_response}
use sfinx_backend.Accounts.{
  RegisterDto, GoogleUserInfo, new_user, register, create_google_user, google_user,
  handle_google_callback, has_google, welcome,
}
use sfinx_backend.Accounts.Usernames.{candidate, unique_username_free}

module _ (sv : Services) where
  abbrev pub differ : User → User → Bool
  differ u v = not (u.email == v.email) && not (u.username == v.username)

  abbrev pub AreApart : sv.users.Rows → Type 0
  AreApart rows =
      (i j : ℕ) (u v : User)
      → sv.users.find rows i ≡ some u
      → sv.users.find rows j ≡ some v
      → (i == j) ≡ false
      → differ u v ≡ true

  abbrev has_email : ℕ → ℕ → User → Bool
  has_email email id u = u.email == email

  abbrev has_username : ℕ → ℕ → User → Bool
  has_username name id u = u.username == name

  -- A user whose email and username nobody has may be saved under a new identifier.
  add-AreApart :
      (rows : sv.users.Rows) (id : ℕ) (u : User)
      → sv.users.find_where rows (has_email u.email) ≡ none
      → sv.users.find_where rows (has_username u.username) ≡ none
      → AreApart rows
      → AreApart (sv.users.save rows id u)
  add-AreApart rows id u no_email no_name apart i j v w left right other = ground (
    arith,
    left,
    right,
    other,
    apart i j v w,
    sv.users.find-save rows id i u,
    sv.users.find-save rows id j u,
    sv.users.find_where-none rows (has_email u.email) i v no_email,
    sv.users.find_where-none rows (has_email u.email) j w no_email,
    sv.users.find_where-none rows (has_username u.username) i v no_name,
    sv.users.find_where-none rows (has_username u.username) j w no_name,
    ==_iff v.email w.email,
    ==_iff v.username w.username,
  )

  -- So may a row whose email and username stay.
  keep-AreApart :
      (rows : sv.users.Rows) (id : ℕ) (u u' : User)
      → sv.users.find rows id ≡ some u
      → u'.email ≡ u.email
      → u'.username ≡ u.username
      → AreApart rows
      → AreApart (sv.users.save rows id u')
  keep-AreApart rows id u u' found same_email same_name apart i j v w left right other = ground (
    arith,
    found,
    same_email,
    same_name,
    left,
    right,
    other,
    apart i j v w,
    apart id j u w found,
    apart i id v u,
    sv.users.find-save rows id i u',
    sv.users.find-save rows id j u',
  )

  user_rows-generate :
      (db : Db sv) (now user jti : ℕ)
      → (generate_auth_response sv db now user jti).1.user_rows ≡ db.user_rows
  unfolding generate_auth_response
  user_rows-generate db now user jti = refl

  module _ (numbered : ℕ → ℕ → ℕ) (role_exists : Bool) where
    -- Registering keeps emails and usernames distinct.
    pub register-AreApart :
        (db : Db sv) (now : ℕ) (d : RegisterDto)
        → AreApart db.user_rows
        → AreApart (left_by sv db (register sv numbered role_exists db now d)).user_rows
    unfolding register generate_auth_response
    register-AreApart db now d apart =
        elim (Option-cases (sv.users.find_where db.user_rows (has_email d.new_email))) [
          | inr (p, old) ↦ rw old apart
          | inl no_email ↦
              elim (Option-cases (sv.users.find_where db.user_rows (has_username d.new_username))) [
                | inr (p, old) ↦ rw (no_email, old) apart
                | inl no_name ↦ elim (Bool-cases (not role_exists)) [
                  | inl no_role ↦ rw (no_email, no_name, no_role) apart
                  | inr role ↦
                      rw (no_email, no_name, role)
                        (add-AreApart db.user_rows d.new_id
                          (new_user d.new_email d.new_username (some d.new_hash) none false)
                          no_email no_name apart)
                ]
              ]
        ]

    -- The user that a callback works on is in the rows, which are still apart.
    abbrev Settled : Result (ℕ × User × Db sv) → Type 0
    Settled (throws e) = Unit
    Settled (ok (i, u, db')) = AreApart db'.user_rows × (sv.users.find db'.user_rows i ≡ some u)

    abbrev pub AllDistinct : ℕ → Type 0
    AllDistinct base =
        (k j : ℕ)
        → candidate sv numbered role_exists base k ≡ candidate sv numbered role_exists base j
        → k ≡ j

    google_user-Settled :
        (db : Db sv) (id : ℕ) (g : GoogleUserInfo)
        → AllDistinct g.base_username
        → AreApart db.user_rows
        → Settled (google_user sv numbered role_exists db id g)
    unfolding google_user create_google_user
    google_user-Settled db id g distinct apart =
        elim (Option-cases
          (sv.users.find_where db.user_rows (λ i u. has_google u.google_id g.info_id))) [
            | inr ((j, v), hit) ↦
                rw (Settled, google_user, hit)
                  (
                    apart,
                    (sv.users.find_where-some db.user_rows (λ i u. has_google u.google_id g.info_id)
                        j v hit).0,
                  )
            | inl no_google ↦
                elim (Option-cases (sv.users.find_where db.user_rows (has_email g.info_email))) [
                  | inr ((j, v), hit) ↦ elim (Bool-cases (is_some v.google_id)) [
                    | inl linked ↦ rw (Settled, google_user, no_google, hit, linked) tt
                    | inr unlinked ↦
                        let found =
                          (sv.users.find_where-some db.user_rows (has_email g.info_email) j v
                            hit).0 in
                        let w = record v {
                          google_id = some g.info_id;
                          email_verified = g.verified_email;
                        } in
                        rw (Settled, google_user, no_google, hit, unlinked)
                          (
                            keep-AreApart db.user_rows j v w found refl refl apart,
                            ground (arith, sv.users.find-save db.user_rows j j w),
                          )
                  ]
                  | inl no_email ↦
                      let (name, chosen, no_name) =
                        unique_username_free sv numbered role_exists db.user_rows g.base_username
                          distinct in
                      let u = new_user g.info_email name none (some g.info_id) g.verified_email in
                      elim (Bool-cases (not role_exists)) [
                        | inl no_role ↦
                            rw (Settled, google_user, no_google, no_email, chosen, no_role) tt
                        | inr role ↦
                            rw (Settled, google_user, no_google, no_email, chosen, role)
                              (
                                add-AreApart db.user_rows id u no_email no_name apart,
                                ground (arith, sv.users.find-save db.user_rows id id u),
                              )
                      ]
                ]
          ]

    welcome-AreApart :
        (db : Db sv) (now jti : ℕ) (r : Result (ℕ × User × Db sv))
        → Settled r
        → AreApart db.user_rows
        → AreApart (left_by sv db (r >>= welcome sv numbered role_exists now jti)).user_rows
    unfolding generate_auth_response
    welcome-AreApart db now jti (throws e) settled apart = apart
    welcome-AreApart db now jti (ok (i, u, db')) settled apart = elim (Bool-cases u.is_banned) [
      | inl banned ↦ rw banned apart
      | inr allowed ↦ elim (Bool-cases (not u.is_active)) [
        | inl idle ↦ rw (allowed, idle) apart
        | inr active ↦
            rw (allowed, active)
              (keep-AreApart db'.user_rows i u
                (record u {
                  is_banned = false;
                  last_login_at = some now;
                  last_active_at = some now;
                })
                settled.1 refl refl settled.0)
      ]
    ]

    -- Callbacks of Google, whether they find, link or make a user, keep emails and usernames
    -- distinct, if numbered usernames differ from each other and from the base.
    pub handle_google_callback-AreApart :
        (db : Db sv) (now : ℕ) (answered : Option GoogleUserInfo) (id jti : ℕ)
        → ((base : ℕ) → AllDistinct base)
        → AreApart db.user_rows
        → AreApart
            (left_by sv db
              (handle_google_callback sv numbered role_exists db now answered id jti)).user_rows
    unfolding handle_google_callback
    handle_google_callback-AreApart db now none id jti distinct apart = apart
    handle_google_callback-AreApart db now (some g) id jti distinct apart =
        welcome-AreApart db now jti (google_user sv numbered role_exists db id g)
          (google_user-Settled db id g (distinct g.base_username) apart) apart
