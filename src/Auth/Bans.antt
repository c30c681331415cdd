-- ===== src/Auth/Bans.antt =====
-- A banned user gets no token.
use sfinx_backend.Base.{
  Result-cases, ℕ, ◌≡◌, refl, inl, inr, Bool, true, false, Option, none, some, List, [], ◌∷◌, arith,
  ◌==◌, Bool-cases, Option-cases, state_after, Result, throws, ok, unauthorized,
}
use sfinx_backend.Base.Lists.{All}
use sfinx_backend.Auth.{
  User, AuthResponse, Verified, verify_throws, without_jti, with_jti, Services, Db, left_by, login,
  refresh_access_token, logout, cleanup_expired_tokens, validate_user_by_id, ban_user, unban_user,
  generate_auth_response,
}
use sfinx_backend.Auth.Outcomes.{
  is_named, login-LogsIn, refresh_access_token-Refreshes, refresh_access_token-jti,
}
use sfinx_backend.Auth.Sessions.{
  Call, logs_in, refreshes, logs_out, cleans, bans, unbans, after_call, after_calls,
}

abbrev pub unbans_user : ℕ → Call → Bool
unbans_user id (unbans j) = j == id
unbans_user id _ = false

abbrev pub is_barred : Option User → Bool
is_barred none = false
is_barred (some u) = u.is_banned

module _ (sv : Services) where
  abbrev pub IsBarred : ℕ → Db sv → Type 0
  IsBarred id db = is_barred (sv.users.find db.user_rows id) ≡ true

  -- Whether a call gives tokens to a user.
  abbrev pub gives_to : ℕ → Result (AuthResponse × Db sv) → Bool
  gives_to id (throws e) = false
  gives_to id (ok (answer, db)) = answer.subject == id

  saved-IsBarred :
      (db : Db sv) (j id : ℕ) (u u' : User)
      → sv.users.find db.user_rows j ≡ some u
      → u'.is_banned ≡ u.is_banned
      → IsBarred id db
      → is_barred (sv.users.find (sv.users.save db.user_rows j u') id) ≡ true
  saved-IsBarred db j id u u' found same barred =
      ground (arith, found, same, barred, sv.users.find-save db.user_rows j id u')

  login-IsBarred :
      (now text password new id : ℕ) (db : Db sv)
      → IsBarred id db
      → IsBarred id (left_by sv db (login sv db now text password new))
        × (gives_to id (login sv db now text password new) ≡ false)
  unfolding generate_auth_response
  login-IsBarred now text password new id db barred =
      elim (Result-cases (login sv db now text password new)) [
        | inl (e, refused) ↦ rw refused (barred, refl)
        | inr (p, accepted) ↦
            let l = login-LogsIn sv db now text password new p.0 p.1 accepted in
            let found =
              (sv.users.find_where-some db.user_rows (is_named sv text) l.id l.user l.hit).0 in
            rw accepted (
              ground (
                arith,
                l.written,
                saved-IsBarred db l.id id l.user
                    (record l.user { last_login_at = some now; last_active_at = some now }) found
                    refl barred,
              ),
              ground (arith, l.written, found, barred, l.not_banned),
            )
      ]

  refresh-IsBarred :
      (now : ℕ) (v : Verified) (new id : ℕ) (db : Db sv)
      → IsBarred id db
      → IsBarred id (left_by sv db (refresh_access_token sv db now v new))
        × (gives_to id (refresh_access_token sv db now v new) ≡ false)
  unfolding generate_auth_response
  refresh-IsBarred now v new id db barred =
      elim (Result-cases (refresh_access_token sv db now v new)) [
        | inl (e, refused) ↦ rw refused (barred, refl)
        | inr (p, accepted) ↦
            let (j, verified) = refresh_access_token-jti sv db now v new p.0 p.1 accepted in
            let r =
              refresh_access_token-Refreshes sv db now j new p.0 p.1 (rw verified at accepted) in
            rw accepted (
              ground (
                arith,
                r.written,
                saved-IsBarred db r.token.session_user id r.user
                    (record r.user { last_active_at = some now }) r.known refl barred,
              ),
              ground (arith, r.written, r.known, barred, r.not_banned),
            )
      ]

  set-IsBarred :
      (db : Db sv) (now j id : ℕ)
      → IsBarred id db
      → IsBarred id (state_after db (ban_user sv db now j))
        × ((j == id) ≡ false → IsBarred id (state_after db (unban_user sv db j)))
  unfolding ban_user unban_user
  set-IsBarred db now j id barred = elim (Option-cases (sv.users.find db.user_rows j)) [
    | inl missing ↦ (rw missing barred, λ other. rw missing barred)
    | inr (u, found) ↦ (
      ground (
        arith,
        found,
        barred,
        sv.users.find-save db.user_rows j id
            (record u { is_active = true; is_banned = true; banned_at = some now }),
      ),
      λ other. ground (
        arith,
        found,
        other,
        barred,
        sv.users.find-save db.user_rows j id
            (record u { is_active = true; is_banned = false; banned_at = none }),
      ),
    )
  ]

  logout-IsBarred :
      (now : ℕ) (v : Verified) (id : ℕ) (db : Db sv)
      → IsBarred id db
      → IsBarred id (state_after db (logout sv db now v))
  unfolding logout
  logout-IsBarred now verify_throws id db barred = barred
  logout-IsBarred now without_jti id db barred = barred
  logout-IsBarred now (with_jti j) id db barred =
      elim (Option-cases (sv.refresh_tokens.find db.session_rows j)) [
        | inl missing ↦ rw missing barred
        | inr (t, found) ↦ elim (Bool-cases t.is_revoked) [
          | inl spent ↦ rw (found, spent) barred
          | inr fresh ↦ rw (found, fresh) barred
        ]
      ]

  after_call-IsBarred :
      (c : Call) (id : ℕ) (db : Db sv)
      → unbans_user id c ≡ false
      → IsBarred id db
      → IsBarred id (after_call sv c db)
  unfolding after_call cleanup_expired_tokens
  after_call-IsBarred (logs_in now text password new) id db other barred =
      (login-IsBarred now text password new id db barred).0
  after_call-IsBarred (refreshes now v new) id db other barred =
      (refresh-IsBarred now v new id db barred).0
  after_call-IsBarred (logs_out now v) id db other barred = logout-IsBarred now v id db barred
  after_call-IsBarred (cleans now) id db other barred = barred
  after_call-IsBarred (bans now j) id db other barred = (set-IsBarred db now j id barred).0
  after_call-IsBarred (unbans j) id db other barred = (set-IsBarred db 0 j id barred).1 other

  after_calls-IsBarred :
      (cs : List Call) (id : ℕ) (db : Db sv)
      → All (λ c. unbans_user id c ≡ false) cs
      → IsBarred id db
      → IsBarred id (after_calls sv cs db)
  unfolding after_calls
  after_calls-IsBarred [] id db others barred = barred
  after_calls-IsBarred (c ∷ cs) id db others barred =
      after_calls-IsBarred cs id (after_call sv c db) others.1
        (after_call-IsBarred c id db others.0 barred)

  -- After a ban, whatever logins, refreshes, logouts, cleanups, bans and unbans of others follow,
  -- no login and no refresh gives the banned user tokens, and an access token of the user is not
  -- accepted.
  pub ban_user_bars :
      (db db' : Db sv) (now id later text password new : ℕ) (v : Verified) (cs : List Call)
      → ban_user sv db now id ≡ ok db'
      → All (λ c. unbans_user id c ≡ false) cs
      → let db'' = after_calls sv cs db' in
        (gives_to id (login sv db'' later text password new) ≡ false)
        × (gives_to id (refresh_access_token sv db'' later v new) ≡ false)
        × (validate_user_by_id sv db'' id ≡ throws unauthorized)
  unfolding ban_user validate_user_by_id
  ban_user_bars db db' now id later text password new v cs accepted others =
      elim (Option-cases (sv.users.find db.user_rows id)) [
        | inl missing ↦ absurd (ground (arith, missing, accepted))
        | inr (u, found) ↦
            let barred : IsBarred id db' = ground (
              arith,
              found,
              accepted,
              sv.users.find-save db.user_rows id id
                  (record u { is_active = true; is_banned = true; banned_at = some now }),
            ) in
            let still = after_calls-IsBarred cs id db' others barred in
            (
              (login-IsBarred later text password new id (after_calls sv cs db') still).1,
              (refresh-IsBarred later v new id (after_calls sv cs db') still).1,
              ground (arith, still),
            )
      ]
