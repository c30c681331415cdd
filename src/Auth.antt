-- ===== src/Auth.antt =====
-- src/modules/auth/auth.service.ts: sessions by refresh tokens, and banUser and unbanUser of
-- src/modules/users/users.service.ts. Texts are compared only, so they are numbers; the roles of a
-- user and the addresses and user agents of a session are left out.
pub mod Outcomes
pub mod Sessions
pub mod Cleanup
pub mod Bans
pub mod Samples
mod Tests
use sfinx_backend.Base.{
  ℕ, ◌+◌, ◌/◌, ◌&&◌, ◌||◌, not, Bool, true, false, Option, none, some, ltb, ◌==◌, same_pair,
  is_some, if◌then◌else◌, Result, throws, ok, unauthorized, not_found, internal_error, ◌>>=◌, ◌>>◌,
  throw_if, or_throw,
}
use sfinx_backend.Base.Table.{Table}
use sfinx_backend.Favorites
use sfinx_backend.Favorites.{FavoriteList, SavedFavoriteList}

-- entities/user.entity.ts, without the profile and the premium time
pub record User : Type 0 where
  pub email : ℕ
  pub username : ℕ
  pub password_hash : Option ℕ
  pub google_id : Option ℕ
  pub email_verified : Bool
  pub is_active : Bool
  pub is_banned : Bool
  pub banned_at : Option ℕ
  pub last_login_at : Option ℕ
  pub last_active_at : Option ℕ

-- entities/refresh-token.entity.ts, under its unique jti
pub record RefreshToken : Type 0 where
  pub session_user : ℕ
  pub session_expires_at : ℕ
  pub is_revoked : Bool
  pub revoked_at : Option ℕ

-- entities/password-reset-token.entity.ts and email-verification-token.entity.ts, under the unique
-- hash of the token
pub record OneTimeToken : Type 0 where
  pub token_user : ℕ
  pub token_expires_at : ℕ
  pub used_at : Option ℕ

-- The access token is signed for a user, and the refresh token for a user and a jti.
pub record AuthResponse : Type 0 where
  pub subject : ℕ
  pub jti : ℕ
  pub expires_in_seconds : ℕ

-- What `jwtService.verifyAsync` answers for a token: it throws, or gives a payload.
pub data Verified : Type 0 where
  verify_throws without_jti : Verified
  with_jti : ℕ → Verified

abbrev pub revoked : ℕ → RefreshToken → RefreshToken
revoked now t = record t { is_revoked = true; revoked_at = some now }

abbrev pub is_expired : ℕ → RefreshToken → Bool
is_expired now t = ltb t.session_expires_at now

-- The tables, the configuration, `compare` of bcrypt and the SHA-256 of a token.
pub record Services : Type 1 where
  pub users : Table ℕ User ◌==◌
  pub refresh_tokens : Table ℕ RefreshToken ◌==◌
  pub email_tokens : Table ℕ OneTimeToken ◌==◌
  pub reset_tokens : Table ℕ OneTimeToken ◌==◌
  pub lists : Table ℕ FavoriteList ◌==◌
  pub saves : Table (ℕ × ℕ) SavedFavoriteList same_pair
  pub problem_exists : ℕ → Bool
  pub access_expires_in_ms : ℕ
  pub refresh_expires_in_ms : ℕ
  pub compare_password : ℕ → ℕ → Bool
  pub hash_token : ℕ → ℕ

module _ (sv : Services) where
  pub record Db : Type 0 where
    pub user_rows : sv.users.Rows
    pub session_rows : sv.refresh_tokens.Rows
    pub email_token_rows : sv.email_tokens.Rows
    pub reset_token_rows : sv.reset_tokens.Rows
    pub favorites : Favorites.Db sv.lists sv.saves sv.problem_exists

  -- What a call leaves: one that throws is rolled back.
  abbrev pub left_by : Db → Result (AuthResponse × Db) → Db
  left_by db (throws e) = db
  left_by db (ok (answer, db')) = db'

  -- `jti` is the new UUID of the refresh token.
  unfoldable pub generate_auth_response : Db → ℕ → ℕ → ℕ → AuthResponse × Db
  generate_auth_response db now user jti = (
    record { subject = user; jti = jti; expires_in_seconds = sv.access_expires_in_ms / 1000 },
    record db {
      session_rows = sv.refresh_tokens.save db.session_rows jti (record {
        session_user = user;
        session_expires_at = now + sv.refresh_expires_in_ms;
        is_revoked = false;
        revoked_at = none;
      });
    },
  )

  -- `text` is an email or a username.
  unfoldable pub login : Db → ℕ → ℕ → ℕ → ℕ → Result (AuthResponse × Db)
  login db now text password jti = do
    (id, u) ←
        or_throw
          (sv.users.find_where db.user_rows (λ id u. (u.email == text) || (u.username == text)))
          unauthorized
    throw_if u.is_banned unauthorized
    throw_if (not u.is_active) unauthorized
    hash ← or_throw u.password_hash unauthorized
    throw_if (not (sv.compare_password password hash)) unauthorized
    let seen = record u { last_login_at = some now; last_active_at = some now }
    ok (
        generate_auth_response (record db { user_rows = sv.users.save db.user_rows id seen }) now id
          jti)

  -- Every error becomes an `UnauthorizedException`.
  abbrev pub jti_of : Verified → Option ℕ
  jti_of verify_throws = none
  jti_of without_jti = none
  jti_of (with_jti jti) = some jti

  unfoldable pub refresh_access_token : Db → ℕ → Verified → ℕ → Result (AuthResponse × Db)
  refresh_access_token db now v new_jti = do
    jti ← or_throw (jti_of v) unauthorized
    t ← or_throw (sv.refresh_tokens.find db.session_rows jti) unauthorized
    throw_if t.is_revoked unauthorized
    throw_if (is_expired now t) unauthorized
    u ← or_throw (sv.users.find db.user_rows t.session_user) unauthorized
    throw_if (not u.is_active || u.is_banned) unauthorized
    ok (
        generate_auth_response
          (record db {
            session_rows = sv.refresh_tokens.save db.session_rows jti (revoked now t);
            user_rows =
                sv.users.save db.user_rows t.session_user (record u { last_active_at = some now });
          })
          now t.session_user new_jti)

  abbrev pub logout_session : Db → ℕ → ℕ → Result Db
  logout_session db now jti = do
    t ← or_throw (sv.refresh_tokens.find db.session_rows jti) unauthorized
    throw_if t.is_revoked unauthorized
    ok (record db { session_rows = sv.refresh_tokens.save db.session_rows jti (revoked now t) })

  -- A token that does not verify is an unhandled error.
  unfoldable pub logout : Db → ℕ → Verified → Result Db
  logout db now verify_throws = throws internal_error
  logout db now without_jti = ok db
  logout db now (with_jti jti) = logout_session db now jti

  unfoldable pub validate_user_by_id : Db → ℕ → Result User
  validate_user_by_id db id = do
    u ← or_throw (sv.users.find db.user_rows id) unauthorized
    throw_if (not u.is_active || u.is_banned) unauthorized
    ok u

  unfoldable pub cleanup_expired_tokens : Db → ℕ → Db
  cleanup_expired_tokens db now = record db {
    session_rows =
        sv.refresh_tokens.delete_where db.session_rows (λ jti t. is_expired now t || t.is_revoked);
  }

  abbrev pub set_banned : Bool → Option ℕ → Db → ℕ → Result Db
  set_banned banned at db id = do
    u ← or_throw (sv.users.find db.user_rows id) not_found
    ok (record db {
      user_rows =
          sv.users.save db.user_rows id
            (record u { is_active = true; is_banned = banned; banned_at = at });
    })

  unfoldable pub ban_user : Db → ℕ → ℕ → Result Db
  ban_user db now id = set_banned true (some now) db id

  unfoldable pub unban_user : Db → ℕ → Result Db
  unban_user db id = set_banned false none db id
