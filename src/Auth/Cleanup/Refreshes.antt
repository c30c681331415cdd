-- ===== src/Auth/Cleanup/Refreshes.antt =====
-- Refreshes on other sessions of the same use.
use sfinx_backend.Base.{ℕ, ap, sym, ◌∙◌, ◌≡◌, ◌≤◌, refl, inl, inr, some, Option-cases, Result-cases}
use mathlib.Core.Option.{some-injective}
use sfinx_backend.Auth.{
  RefreshToken, Verified, verify_throws, without_jti, with_jti, revoked, Services, Db, left_by,
  refresh_access_token, generate_auth_response,
}
use sfinx_backend.Auth.Outcomes.{refresh_access_token-Refreshes}
use sfinx_backend.Auth.Cleanup.Useful.{useful, useful-found, same_later, Rows, IsSame, save-IsSame}
use sfinx_backend.Auth.Cleanup.Logins.{
  answer_of, new_session, refresh_useless, refresh_sessions, Agrees, new_session-IsSame,
  generated-subject,
}

module _ (sv : Services) where
  -- What a refresh answers and leaves on sessions that agree.
  abbrev pub RefreshAgrees : ℕ → ℕ → Verified → ℕ → Db sv → Rows sv → Type 0
  RefreshAgrees start now v new db s' =
      (answer_of sv (refresh_access_token sv (record db { session_rows = s' }) now v new)
        ≡ answer_of sv (refresh_access_token sv db now v new))
      × Agrees sv start (left_by sv db (refresh_access_token sv db now v new)) (
          left_by sv (record db { session_rows = s' })
            (refresh_access_token sv (record db { session_rows = s' }) now v new))

  useful_refresh-Agrees :
      (start now jti new : ℕ) (t : RefreshToken) (db : Db sv) (s' : Rows sv)
      → sv.refresh_tokens.find db.session_rows jti ≡ some t
      → sv.refresh_tokens.find s' jti ≡ some t
      → IsSame sv start db.session_rows s'
      → RefreshAgrees start now (with_jti jti) new db s'
  useful_refresh-Agrees start now jti new t db s' found found' same =
      let step = refresh_sessions sv now jti new t db s' found found' in
      elim (Result-cases (refresh_access_token sv db now (with_jti jti) new)) [
        | inl (e, refused) ↦ rw (step, refused) (refl, (s', refl, same))
        | inr ((answer, after), accepted) ↦
            let r = refresh_access_token-Refreshes sv db now jti new answer after accepted in
            let user = r.token.session_user in
            let subject = generated-subject sv now user new _ after answer r.written in
            let there : after ≡ (generate_auth_response sv _ now user new).1 =
              ap (λ q. q.1) r.written in
            let token : r.token ≡ t = some-injective _ _ (sym r.found ∙ found) in
            let rows = sv.refresh_tokens.save s' jti (revoked now t) in
            rw (step, accepted)
              (
                refl,
                (
                  new_session sv now new rows answer.subject,
                  refl,
                  rw (subject, there)
                      (new_session-IsSame sv start now new user _ rows (
                        rw token
                          (save-IsSame sv start jti (revoked now t) db.session_rows s' same))),
                ),
              )
      ]

  token_refresh-Agrees :
      (start now jti new : ℕ) (db : Db sv) (s' : Rows sv)
      → start ≤ now
      → IsSame sv start db.session_rows s'
      → RefreshAgrees start now (with_jti jti) new db s'
  token_refresh-Agrees start now jti new db s' order same =
      let o = sv.refresh_tokens.find db.session_rows jti in
      let o' = sv.refresh_tokens.find s' jti in
      let later = same_later start now o o' order (same jti) in
      elim (Option-cases (useful now o)) [
        | inl useless ↦
            let refused = refresh_useless sv now jti new db useless in
            let refused' =
              refresh_useless sv now jti new (record db { session_rows = s' }) (later ∙ useless) in
            rw (refused, refused') (refl, (s', refl, same))
        | inr (t, valid) ↦
            useful_refresh-Agrees start now jti new t db s' (useful-found now o t valid)
              (useful-found now o' t (later ∙ valid)) same
      ]

  pub refresh-Agrees :
      (start now : ℕ) (v : Verified) (new : ℕ) (db : Db sv) (s' : Rows sv)
      → start ≤ now
      → IsSame sv start db.session_rows s'
      → RefreshAgrees start now v new db s'
  unfolding refresh_access_token
  refresh-Agrees start now verify_throws new db s' order same = (refl, (s', refl, same))
  refresh-Agrees start now without_jti new db s' order same = (refl, (s', refl, same))
  refresh-Agrees start now (with_jti jti) new db s' order same =
      token_refresh-Agrees start now jti new db s' order same
