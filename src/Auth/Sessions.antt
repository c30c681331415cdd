-- ===== src/Auth/Sessions.antt =====
-- A refresh token is good for one use.
use sfinx_backend.Base.{
  Result-cases, ℕ, ap, ◌≡◌, ◌||◌, not, inl, inr, Bool, false, Option, none, some, List, [], ◌∷◌,
  arith, ◌==◌, Option-cases, state_after, throws, ok, unauthorized,
}
use sfinx_backend.Base.Lists.{All}
use sfinx_backend.Auth.Outcomes.{
  login-LogsIn, refresh_access_token-Refreshes, refresh_access_token-jti,
  find-generate_auth_response,
}
use sfinx_backend.Auth.{
  RefreshToken, AuthResponse, Verified, verify_throws, without_jti, with_jti, revoked, is_expired,
  Services, Db, left_by, login, refresh_access_token, logout, cleanup_expired_tokens, ban_user,
  unban_user, generate_auth_response,
}

-- The calls that touch sessions or users; the last number of the first two is the new jti.
pub data Call : Type 0 where
  logs_in : ℕ → ℕ → ℕ → ℕ → Call
  refreshes : ℕ → Verified → ℕ → Call
  logs_out : ℕ → Verified → Call
  cleans : ℕ → Call
  bans : ℕ → ℕ → Call
  unbans : ℕ → Call

abbrev pub issues : ℕ → Call → Bool
issues jti (logs_in now text password new) = new == jti
issues jti (refreshes now v new) = new == jti
issues jti (logs_out now v) = false
issues jti (cleans now) = false
issues jti (bans now id) = false
issues jti (unbans id) = false

abbrev pub is_usable : Option RefreshToken → Bool
is_usable none = false
is_usable (some t) = not t.is_revoked

module _ (sv : Services) where
  unfoldable pub after_call : Call → Db sv → Db sv
  after_call (logs_in now text password new) db = left_by sv db (login sv db now text password new)
  after_call (refreshes now v new) db = left_by sv db (refresh_access_token sv db now v new)
  after_call (logs_out now v) db = state_after db (logout sv db now v)
  after_call (cleans now) db = cleanup_expired_tokens sv db now
  after_call (bans now id) db = state_after db (ban_user sv db now id)
  after_call (unbans id) db = state_after db (unban_user sv db id)

  unfoldable pub after_calls : List Call → Db sv → Db sv
  after_calls [] db = db
  after_calls (c ∷ cs) db = after_calls cs (after_call c db)

  -- The session is deleted or revoked.
  abbrev pub IsSpent : ℕ → Db sv → Type 0
  IsSpent jti db = is_usable (sv.refresh_tokens.find db.session_rows jti) ≡ false

  IsSpent-generate :
      (now user new jti : ℕ) (db : Db sv)
      → (new == jti) ≡ false
      → IsSpent jti db
      → IsSpent jti (generate_auth_response sv db now user new).1
  IsSpent-generate now user new jti db other spent =
      ground (arith, other, spent, find-generate_auth_response sv db now user new jti)

  login-IsSpent :
      (now text password new jti : ℕ) (db : Db sv)
      → (new == jti) ≡ false
      → IsSpent jti db
      → IsSpent jti (left_by sv db (login sv db now text password new))
  login-IsSpent now text password new jti db other spent =
      elim (Result-cases (login sv db now text password new)) [
        | inl (e, refused) ↦ rw refused spent
        | inr (p, accepted) ↦
            let l = login-LogsIn sv db now text password new p.0 p.1 accepted in
            let there : p.1 ≡ (generate_auth_response sv _ now l.id new).1 =
              ap (λ q. q.1) l.written in
            rw (accepted, there) (IsSpent-generate now l.id new jti _ other spent)
      ]

  refresh-IsSpent :
      (now : ℕ) (v : Verified) (new jti : ℕ) (db : Db sv)
      → (new == jti) ≡ false
      → IsSpent jti db
      → IsSpent jti (left_by sv db (refresh_access_token sv db now v new))
  refresh-IsSpent now v new jti db other spent =
      elim (Result-cases (refresh_access_token sv db now v new)) [
        | inl (e, refused) ↦ rw refused spent
        | inr (p, accepted) ↦
            let (j, verified) = refresh_access_token-jti sv db now v new p.0 p.1 accepted in
            let r =
              refresh_access_token-Refreshes sv db now j new p.0 p.1 (rw verified at accepted) in
            let there : p.1 ≡ (generate_auth_response sv _ now r.token.session_user new).1 =
              ap (λ q. q.1) r.written in
            rw (accepted, there)
              (IsSpent-generate now r.token.session_user new jti _ other (
                ground (
                  arith,
                  spent,
                  sv.refresh_tokens.find-save db.session_rows j jti (revoked now r.token),
                )))
      ]

  logout-IsSpent :
      (now : ℕ) (v : Verified) (jti : ℕ) (db : Db sv)
      → IsSpent jti db
      → IsSpent jti (state_after db (logout sv db now v))
  unfolding logout
  logout-IsSpent now verify_throws jti db spent = spent
  logout-IsSpent now without_jti jti db spent = spent
  logout-IsSpent now (with_jti j) jti db spent =
      elim (Option-cases (sv.refresh_tokens.find db.session_rows j)) [
        | inl missing ↦ ground (arith, missing, spent)
        | inr (t, found) ↦
            ground (
              arith,
              found,
              spent,
              sv.refresh_tokens.find-save db.session_rows j jti (revoked now t),
            )
      ]

  after_call-IsSpent :
      (c : Call) (jti : ℕ) (db : Db sv)
      → issues jti c ≡ false
      → IsSpent jti db
      → IsSpent jti (after_call c db)
  unfolding after_call cleanup_expired_tokens ban_user unban_user
  after_call-IsSpent (logs_in now text password new) jti db other spent =
      login-IsSpent now text password new jti db other spent
  after_call-IsSpent (refreshes now v new) jti db other spent =
      refresh-IsSpent now v new jti db other spent
  after_call-IsSpent (logs_out now v) jti db other spent = logout-IsSpent now v jti db spent
  after_call-IsSpent (cleans now) jti db other spent = ground (
    arith,
    spent,
    sv.refresh_tokens.find-delete_where db.session_rows (λ j t. is_expired now t || t.is_revoked)
        jti,
  )
  after_call-IsSpent (bans now id) jti db other spent =
      elim (Option-cases (sv.users.find db.user_rows id)) [
        | inl missing ↦ rw missing spent
        | inr (u, found) ↦ rw found spent
      ]
  after_call-IsSpent (unbans id) jti db other spent =
      elim (Option-cases (sv.users.find db.user_rows id)) [
        | inl missing ↦ rw missing spent
        | inr (u, found) ↦ rw found spent
      ]

  after_calls-IsSpent :
      (cs : List Call) (jti : ℕ) (db : Db sv)
      → All (λ c. issues jti c ≡ false) cs
      → IsSpent jti db
      → IsSpent jti (after_calls cs db)
  unfolding after_calls
  after_calls-IsSpent [] jti db others spent = spent
  after_calls-IsSpent (c ∷ cs) jti db others spent =
      after_calls-IsSpent cs jti (after_call c db) others.1
        (after_call-IsSpent c jti db others.0 spent)

  -- Neither of the two calls that take a refresh token takes a spent one.
  IsSpent-refused :
      (later jti k : ℕ) (db : Db sv)
      → IsSpent jti db
      → (refresh_access_token sv db later (with_jti jti) k ≡ throws unauthorized)
        × (logout sv db later (with_jti jti) ≡ throws unauthorized)
  unfolding refresh_access_token logout
  IsSpent-refused later jti k db spent =
      elim (Option-cases (sv.refresh_tokens.find db.session_rows jti)) [
        | inl missing ↦ (ground (arith, missing), ground (arith, missing))
        | inr (t, found) ↦ (ground (arith, found, spent), ground (arith, found, spent))
      ]

  -- A refresh token is good for one refresh: after it, whatever logins, refreshes, logouts,
  -- cleanups, bans and unbans follow, if none of them draws the same UUID again, the token is
  -- refused for refreshing and for logging out.
  pub refresh_access_token_once :
      (db db' : Db sv) (now jti new later k : ℕ) (answer : AuthResponse) (cs : List Call)
      → refresh_access_token sv db now (with_jti jti) new ≡ ok (answer, db')
      → (new == jti) ≡ false
      → All (λ c. issues jti c ≡ false) cs
      → (refresh_access_token sv (after_calls cs db') later (with_jti jti) k ≡ throws unauthorized)
        × (logout sv (after_calls cs db') later (with_jti jti) ≡ throws unauthorized)
  refresh_access_token_once db db' now jti new later k answer cs accepted other others =
      let r = refresh_access_token-Refreshes sv db now jti new answer db' accepted in
      let there : db' ≡ (generate_auth_response sv _ now r.token.session_user new).1 =
        ap (λ q. q.1) r.written in
      let spent : IsSpent jti db' = rw there (
        IsSpent-generate now r.token.session_user new jti _ other (
          ground
            (arith, sv.refresh_tokens.find-save db.session_rows jti jti (revoked now r.token)))) in
      IsSpent-refused later jti k (after_calls cs db') (after_calls-IsSpent cs jti db' others spent)

  -- The same holds after a logout.
  pub logout_once :
      (db db' : Db sv) (now jti later k : ℕ) (cs : List Call)
      → logout sv db now (with_jti jti) ≡ ok db'
      → All (λ c. issues jti c ≡ false) cs
      → (refresh_access_token sv (after_calls cs db') later (with_jti jti) k ≡ throws unauthorized)
        × (logout sv (after_calls cs db') later (with_jti jti) ≡ throws unauthorized)
  unfolding logout
  logout_once db db' now jti later k cs accepted others =
      elim (Option-cases (sv.refresh_tokens.find db.session_rows jti)) [
        | inl missing ↦ absurd (ground (arith, missing, accepted))
        | inr (t, found) ↦
            let spent : IsSpent jti db' = ground (
              arith,
              found,
              accepted,
              sv.refresh_tokens.find-save db.session_rows jti jti (revoked now t),
            ) in
            IsSpent-refused later jti k (after_calls cs db')
              (after_calls-IsSpent cs jti db' others spent)
      ]
