-- ===== src/Auth/Cleanup/Logins.antt =====
-- Logins and refreshes on other sessions of the same use: what they answer and leave.
use sfinx_backend.Base.{
  ℕ, ap, false, ◌+◌, ◌≡◌, refl, inl, inr, none, some, arith, Bool-cases, Option-cases, Result,
  Result-cases, throws, ok, unauthorized,
}
use sfinx_backend.Auth.{
  RefreshToken, AuthResponse, with_jti, revoked, Services, Db, left_by, login, refresh_access_token,
  generate_auth_response,
}
use sfinx_backend.Auth.Outcomes.{login-LogsIn}
use sfinx_backend.Auth.Cleanup.Useful.{useful, Rows, IsSame, save-IsSame}

module _ (sv : Services) where
  -- What the client is told.
  abbrev pub answer_of : Result (AuthResponse × Db sv) → Result AuthResponse
  answer_of (throws e) = throws e
  answer_of (ok (answer, db)) = ok answer

  -- A login or refresh on other sessions: the same answer, and what is left but for the sessions.
  abbrev pub new_session : ℕ → ℕ → Rows sv → ℕ → Rows sv
  new_session now jti s user = sv.refresh_tokens.save s jti (record {
    session_user = user;
    session_expires_at = now + sv.refresh_expires_in_ms;
    is_revoked = false;
    revoked_at = none;
  })

  abbrev pub with_sessions :
      (ℕ → Rows sv) → Result (AuthResponse × Db sv) → Result (AuthResponse × Db sv)
  with_sessions rows (throws e) = throws e
  with_sessions rows (ok (answer, db)) =
      ok (answer, record db { session_rows = rows answer.subject })

  pub login_sessions :
      (now text password new : ℕ) (db : Db sv) (s' : Rows sv)
      → login sv (record db { session_rows = s' }) now text password new
        ≡ with_sessions (new_session now new s') (login sv db now text password new)
  unfolding login generate_auth_response
  login_sessions now text password new db s' = ground arith

  pub refresh_useless :
      (now jti new : ℕ) (db : Db sv)
      → useful now (sv.refresh_tokens.find db.session_rows jti) ≡ none
      → refresh_access_token sv db now (with_jti jti) new ≡ throws unauthorized
  unfolding refresh_access_token
  refresh_useless now jti new db useless =
      elim (Option-cases (sv.refresh_tokens.find db.session_rows jti)) [
        | inl missing ↦ ground (arith, missing)
        | inr (t, found) ↦ elim (Bool-cases t.is_revoked) [
          | inl spent ↦ ground (arith, found, spent)
          | inr fresh ↦ ground (arith, found, fresh, useless)
        ]
      ]

  pub refresh_sessions :
      (now jti new : ℕ) (t : RefreshToken) (db : Db sv) (s' : Rows sv)
      → sv.refresh_tokens.find db.session_rows jti ≡ some t
      → sv.refresh_tokens.find s' jti ≡ some t
      → refresh_access_token sv (record db { session_rows = s' }) now (with_jti jti) new
        ≡ with_sessions
            (new_session now new (sv.refresh_tokens.save s' jti (revoked now t)))
            (refresh_access_token sv db now (with_jti jti) new)
  unfolding refresh_access_token generate_auth_response
  refresh_sessions now jti new t db s' found found' =
      elim (Option-cases (sv.users.find db.user_rows t.session_user)) [
        | inl no_user ↦ ground (arith, found, found', no_user)
        | inr (u, known) ↦ ground (arith, found, found', known)
      ]

  pub login_answers :
      (now text password new : ℕ) (db : Db sv) (s' : Rows sv)
      → answer_of (login sv (record db { session_rows = s' }) now text password new)
        ≡ answer_of (login sv db now text password new)
  login_answers now text password new db s' =
      elim (Result-cases (login sv db now text password new)) [
        | inl (e, refused) ↦ rw (login_sessions now text password new db s', refused) refl
        | inr (p, accepted) ↦ rw (login_sessions now text password new db s', accepted) refl
      ]

  -- The same rows, but for sessions of no use.
  abbrev pub Agrees : ℕ → Db sv → Db sv → Type 0
  Agrees now db db' =
      (s' : Rows sv) × (db' ≡ record db { session_rows = s' }) × IsSame sv now db.session_rows s'

  pub new_session-IsSame :
      (start now new user : ℕ) (db : Db sv) (s' : Rows sv)
      → IsSame sv start db.session_rows s'
      → IsSame sv start
          (generate_auth_response sv db now user new).1.session_rows
          (new_session now new s' user)
  unfolding generate_auth_response
  new_session-IsSame start now new user db s' same =
      save-IsSame sv start new
        (record {
          session_user = user;
          session_expires_at = now + sv.refresh_expires_in_ms;
          is_revoked = false;
          revoked_at = none;
        })
        db.session_rows s' same

  pub generated-subject :
      (now user new : ℕ) (db db' : Db sv) (answer : AuthResponse)
      → (answer, db') ≡ generate_auth_response sv db now user new
      → answer.subject ≡ user
  unfolding generate_auth_response
  generated-subject now user new db db' answer e = ap (λ q. q.0.subject) e

  pub login-Agrees :
      (start now text password new : ℕ) (db : Db sv) (s' : Rows sv)
      → IsSame sv start db.session_rows s'
      → Agrees start (left_by sv db (login sv db now text password new)) (
          left_by sv
            (record db { session_rows = s' })
            (login sv (record db { session_rows = s' }) now text password new))
  login-Agrees start now text password new db s' same =
      elim (Result-cases (login sv db now text password new)) [
        | inl (e, refused) ↦
            rw (login_sessions now text password new db s', refused) (s', refl, same)
        | inr ((answer, after), accepted) ↦
            let l = login-LogsIn sv db now text password new answer after accepted in
            let subject = generated-subject now l.id new _ after answer l.written in
            let there : after ≡ (generate_auth_response sv _ now l.id new).1 =
              ap (λ q. q.1) l.written in
            rw (login_sessions now text password new db s', accepted)
              (
                new_session now new s' answer.subject,
                refl,
                rw (subject, there) (new_session-IsSame start now new l.id _ s' same),
              )
      ]
