-- ===== src/Auth/Cleanup.antt =====
-- The nightly cleanup deletes only sessions that are of no use.
pub mod Logins
pub mod Logouts
pub mod Refreshes
pub mod Useful
use sfinx_backend.Base.{
  ℕ, ap, sym, ◌∙◌, false, ◌+◌, ◌≡◌, ◌≤◌, ◌&&◌, ◌||◌, not, refl, inl, inr, Bool, Option, none, some,
  List, [], ◌∷◌, arith, ◌==◌, ==_iff, Bool-cases, Option-cases, Result, Result-cases, throws, ok,
  unauthorized, state_after, if◌then◌else◌,
}
use sfinx_backend.Base.Lists.{All}
use sfinx_backend.Auth.{
  RefreshToken, AuthResponse, Verified, verify_throws, without_jti, with_jti, revoked, is_expired,
  Services, Db, left_by, login, refresh_access_token, logout, cleanup_expired_tokens, ban_user,
  unban_user, generate_auth_response,
}
use sfinx_backend.Auth.Cleanup.Useful.{
  useful, useful_later, useful-found, same_later, Rows, IsSame, save-IsSame, revoke-IsSame,
  delete-IsSame, cleanup-IsSame,
}
use sfinx_backend.Auth.Cleanup.Logins.{
  answer_of, new_session, with_sessions, login_sessions, refresh_useless, refresh_sessions,
  login_answers, Agrees, new_session-IsSame, generated-subject, login-Agrees,
}
use sfinx_backend.Auth.Cleanup.Refreshes.{refresh-Agrees}
use sfinx_backend.Auth.Cleanup.Logouts.{logout-Agrees}
use sfinx_backend.Auth.Sessions.{
  Call, logs_in, refreshes, logs_out, cleans, bans, unbans, after_call, after_calls,
}

abbrev pub time_of : Call → ℕ
time_of (logs_in now text password new) = now
time_of (refreshes now v new) = now
time_of (logs_out now v) = now
time_of (cleans now) = now
time_of (bans now id) = now
time_of (unbans id) = 0

-- The calls that look at a time come after one.
abbrev pub ComesAfter : ℕ → Call → Type 0
ComesAfter now (unbans id) = Unit
ComesAfter now c = now ≤ time_of c

module _ (sv : Services) where
  after_call-Agrees :
      (start : ℕ) (c : Call) (db db' : Db sv)
      → ComesAfter start c
      → Agrees sv start db db'
      → Agrees sv start (after_call sv c db) (after_call sv c db')
  unfolding after_call cleanup_expired_tokens ban_user unban_user
  after_call-Agrees start (logs_in now text password new) db db' order (s', e, same) =
      rw e (login-Agrees sv start now text password new db s' same)
  after_call-Agrees start (refreshes now v new) db db' order (s', e, same) =
      rw e (refresh-Agrees sv start now v new db s' order same).1
  after_call-Agrees start (logs_out now v) db db' order (s', e, same) =
      rw e (logout-Agrees sv start now v db s' same)
  after_call-Agrees start (cleans now) db db' order (s', e, same) = rw e (
    sv.refresh_tokens.delete_where s' (λ j t. is_expired now t || t.is_revoked),
    refl,
    delete-IsSame sv start now db.session_rows s' order same,
  )
  after_call-Agrees start (bans now id) db db' order (s', e, same) =
      elim (Option-cases (sv.users.find db.user_rows id)) [
        | inl missing ↦ rw (e, missing) (s', refl, same)
        | inr (u, found) ↦ rw (e, found) (s', refl, same)
      ]
  after_call-Agrees start (unbans id) db db' order (s', e, same) =
      elim (Option-cases (sv.users.find db.user_rows id)) [
        | inl missing ↦ rw (e, missing) (s', refl, same)
        | inr (u, found) ↦ rw (e, found) (s', refl, same)
      ]

  after_calls-Agrees :
      (start : ℕ) (cs : List Call) (db db' : Db sv)
      → All (ComesAfter start) cs
      → Agrees sv start db db'
      → Agrees sv start (after_calls sv cs db) (after_calls sv cs db')
  unfolding after_calls
  after_calls-Agrees start [] db db' order agrees = agrees
  after_calls-Agrees start (c ∷ cs) db db' (order, orders) agrees =
      after_calls-Agrees start cs (after_call sv c db) (after_call sv c db') orders
        (after_call-Agrees start c db db' order agrees)

  -- After a cleanup, whatever logins, refreshes, logouts, cleanups, bans and unbans follow, each
  -- refresh and each login later gets the answer that it would have got had the cleanup not been.
  pub cleanup_expired_tokens_unseen :
      (now later : ℕ) (v : Verified) (text password new : ℕ) (cs : List Call) (db : Db sv)
      → now ≤ later
      → All (ComesAfter now) cs
      → let with_it = after_calls sv cs (cleanup_expired_tokens sv db now) in
        let without_it = after_calls sv cs db in
        (answer_of sv (refresh_access_token sv with_it later v new)
          ≡ answer_of sv (refresh_access_token sv without_it later v new))
        × (answer_of sv (login sv with_it later text password new)
            ≡ answer_of sv (login sv without_it later text password new))
  unfolding cleanup_expired_tokens
  cleanup_expired_tokens_unseen now later v text password new cs db order orders =
      let clean =
        sv.refresh_tokens.delete_where db.session_rows (λ j t. is_expired now t || t.is_revoked) in
      let (s', e, same) =
        after_calls-Agrees now cs db (record db { session_rows = clean }) orders
          (clean, refl, cleanup-IsSame sv now db.session_rows) in
      rw e (
        (refresh-Agrees sv now later v new (after_calls sv cs db) s' order same).0,
        login_answers sv later text password new (after_calls sv cs db) s',
      )
