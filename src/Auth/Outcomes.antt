-- ===== src/Auth/Outcomes.antt =====
-- What calls that give tokens have found and written.
use sfinx_backend.Base.{
  ℕ, ◌+◌, ◌≡◌, ◌||◌, refl, inl, inr, Bool, true, false, none, some, arith, ◌==◌, Option-cases,
  if◌then◌else◌, ok,
}
use sfinx_backend.Auth.{
  User, RefreshToken, AuthResponse, Verified, verify_throws, without_jti, with_jti, revoked,
  is_expired, Services, Db, login, refresh_access_token, generate_auth_response,
}

module _ (sv : Services) where
  -- `email = :text OR username = :text`
  abbrev pub is_named : ℕ → ℕ → User → Bool
  is_named text id u = (u.email == text) || (u.username == text)

  pub record LogsIn (db : Db sv) (now text password new : ℕ) (answer : AuthResponse) (db' : Db sv)
      : Type 0 where
    pub id : ℕ
    pub user : User
    pub hit : sv.users.find_where db.user_rows (is_named text) ≡ some (id, user)
    pub not_banned : user.is_banned ≡ false
    pub active : user.is_active ≡ true
    pub hash : ℕ
    pub has_hash : user.password_hash ≡ some hash
    pub right : sv.compare_password password hash ≡ true
    pub written :
        (answer, db')
        ≡ generate_auth_response sv
            (record db {
              user_rows =
                  sv.users.save db.user_rows id
                    (record user { last_login_at = some now; last_active_at = some now });
            })
            now
            id
            new

  pub login-LogsIn :
      (db : Db sv) (now text password new : ℕ) (answer : AuthResponse) (db' : Db sv)
      → login sv db now text password new ≡ ok (answer, db')
      → LogsIn db now text password new answer db'
  unfolding login
  login-LogsIn db now text password new answer db' h =
      elim (Option-cases (sv.users.find_where db.user_rows (is_named text))) [
        | inl missing ↦ absurd (ground (arith, missing, h))
        | inr (p, hit) ↦ elim (Option-cases p.1.password_hash) [
          | inl no_hash ↦ absurd (ground (arith, hit, no_hash, h))
          | inr (hash, has_hash) ↦ record {
            id = p.0;
            user = p.1;
            hit = hit;
            not_banned = ground (arith, hit, has_hash, h);
            active = ground (arith, hit, has_hash, h);
            hash = hash;
            has_hash = has_hash;
            right = ground (arith, hit, has_hash, h);
            written = ground (arith, hit, has_hash, h);
          }
        ]
      ]

  pub record Refreshes (db : Db sv) (now jti new : ℕ) (answer : AuthResponse) (db' : Db sv)
      : Type 0 where
    pub token : RefreshToken
    pub found : sv.refresh_tokens.find db.session_rows jti ≡ some token
    pub not_revoked : token.is_revoked ≡ false
    pub not_expired : is_expired now token ≡ false
    pub user : User
    pub known : sv.users.find db.user_rows token.session_user ≡ some user
    pub active : user.is_active ≡ true
    pub not_banned : user.is_banned ≡ false
    pub written :
        (answer, db')
        ≡ generate_auth_response sv
            (record db {
              session_rows = sv.refresh_tokens.save db.session_rows jti (revoked now token);
              user_rows =
                  sv.users.save db.user_rows token.session_user
                    (record user { last_active_at = some now });
            })
            now
            token.session_user
            new

  pub refresh_access_token-Refreshes :
      (db : Db sv) (now jti new : ℕ) (answer : AuthResponse) (db' : Db sv)
      → refresh_access_token sv db now (with_jti jti) new ≡ ok (answer, db')
      → Refreshes db now jti new answer db'
  unfolding refresh_access_token
  refresh_access_token-Refreshes db now jti new answer db' h =
      elim (Option-cases (sv.refresh_tokens.find db.session_rows jti)) [
        | inl missing ↦ absurd (ground (arith, missing, h))
        | inr (t, found) ↦ elim (Option-cases (sv.users.find db.user_rows t.session_user)) [
          | inl no_user ↦ absurd (ground (arith, found, no_user, h))
          | inr (u, known) ↦ record {
            token = t;
            found = found;
            not_revoked = ground (arith, found, known, h);
            not_expired = ground (arith, found, known, h);
            user = u;
            known = known;
            active = ground (arith, found, known, h);
            not_banned = ground (arith, found, known, h);
            written = ground (arith, found, known, h);
          }
        ]
      ]

  -- A token that does not verify or has no jti is refused.
  pub refresh_access_token-jti :
      (db : Db sv) (now : ℕ) (v : Verified) (new : ℕ) (answer : AuthResponse) (db' : Db sv)
      → refresh_access_token sv db now v new ≡ ok (answer, db')
      → (jti : ℕ) × (v ≡ with_jti jti)
  unfolding refresh_access_token
  refresh_access_token-jti db now verify_throws new answer db' h = absurd (ground (arith, h))
  refresh_access_token-jti db now without_jti new answer db' h = absurd (ground (arith, h))
  refresh_access_token-jti db now (with_jti jti) new answer db' h = (jti, refl)

  -- The new session, and the other sessions as they were.
  pub find-generate_auth_response :
      (db : Db sv) (now user new jti : ℕ)
      → sv.refresh_tokens.find (generate_auth_response sv db now user new).1.session_rows jti ≡ (
          if new == jti
          then some (record {
            session_user = user;
            session_expires_at = now + sv.refresh_expires_in_ms;
            is_revoked = false;
            revoked_at = none;
          })
          else sv.refresh_tokens.find db.session_rows jti)
  unfolding generate_auth_response
  find-generate_auth_response db now user new jti =
      sv.refresh_tokens.find-save db.session_rows new jti _
