-- ===== src/Auth/Cleanup/Logouts.antt =====
-- Logouts on other sessions of the same use.
use sfinx_backend.Base.{
  ℕ, sym, ◌∙◌, ◌≡◌, refl, inl, inr, none, some, Bool-cases, Option-cases, state_after,
}
use sfinx_backend.Auth.{
  RefreshToken, Verified, verify_throws, without_jti, with_jti, revoked, Services, Db, logout,
}
use sfinx_backend.Auth.Cleanup.Useful.{
  useful, useful-found, Rows, IsSame, save-IsSame, revoke-IsSame,
}
use sfinx_backend.Auth.Cleanup.Logins.{Agrees}

module _ (sv : Services) where
  -- A logout with a useless token leaves sessions of the same use.
  logout_useless :
      (start now jti : ℕ) (db : Db sv)
      → useful start (sv.refresh_tokens.find db.session_rows jti) ≡ none
      → Agrees sv start db (state_after db (logout sv db now (with_jti jti)))
  unfolding logout
  logout_useless start now jti db useless =
      elim (Option-cases (sv.refresh_tokens.find db.session_rows jti)) [
        | inl missing ↦ rw missing (db.session_rows, refl, λ j. refl)
        | inr (t, found) ↦ elim (Bool-cases t.is_revoked) [
          | inl spent ↦ rw (found, spent) (db.session_rows, refl, λ j. refl)
          | inr fresh ↦
              rw (found, fresh)
                (
                  sv.refresh_tokens.save db.session_rows jti (revoked now t),
                  refl,
                  revoke-IsSame sv start now jti t db.session_rows useless,
                )
        ]
      ]

  logout_useful :
      (start now jti : ℕ) (t : RefreshToken) (db : Db sv) (s' : Rows sv)
      → sv.refresh_tokens.find db.session_rows jti ≡ some t
      → sv.refresh_tokens.find s' jti ≡ some t
      → IsSame sv start db.session_rows s'
      → Agrees sv start (state_after db (logout sv db now (with_jti jti))) (
          state_after
            (record db { session_rows = s' })
            (logout sv (record db { session_rows = s' }) now (with_jti jti)))
  unfolding logout
  logout_useful start now jti t db s' found found' same = elim (Bool-cases t.is_revoked) [
    | inl spent ↦ rw (found, found', spent) (s', refl, same)
    | inr fresh ↦
        rw (found, found', fresh)
          (
            sv.refresh_tokens.save s' jti (revoked now t),
            refl,
            save-IsSame sv start jti (revoked now t) db.session_rows s' same,
          )
  ]

  token_logout-Agrees :
      (start now jti : ℕ) (db : Db sv) (s' : Rows sv)
      → IsSame sv start db.session_rows s'
      → Agrees sv start (state_after db (logout sv db now (with_jti jti))) (
          state_after
            (record db { session_rows = s' })
            (logout sv (record db { session_rows = s' }) now (with_jti jti)))
  token_logout-Agrees start now jti db s' same =
      let o = sv.refresh_tokens.find db.session_rows jti in
      let o' = sv.refresh_tokens.find s' jti in
      elim (Option-cases (useful start o)) [
        | inl useless ↦
            let (s1, e1, same1) = logout_useless start now jti db useless in
            let (s2, e2, same2) =
              logout_useless start now jti (record db { session_rows = s' }) (same jti ∙ useless) in
            rw (e1, e2) (s2, refl, λ j. same2 j ∙ same j ∙ sym (same1 j))
        | inr (t, valid) ↦
            logout_useful start now jti t db s' (useful-found start o t valid)
              (useful-found start o' t (same jti ∙ valid)) same
      ]

  pub logout-Agrees :
      (start now : ℕ) (v : Verified) (db : Db sv) (s' : Rows sv)
      → IsSame sv start db.session_rows s'
      → Agrees sv start (state_after db (logout sv db now v)) (
          state_after
            (record db { session_rows = s' })
            (logout sv (record db { session_rows = s' }) now v))
  unfolding logout
  logout-Agrees start now verify_throws db s' same = (s', refl, same)
  logout-Agrees start now without_jti db s' same = (s', refl, same)
  logout-Agrees start now (with_jti jti) db s' same = token_logout-Agrees start now jti db s' same
