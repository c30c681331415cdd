-- ===== src/Accounts.antt =====
-- src/modules/auth/auth.service.ts: registering, the emails that carry tokens and passwords, and
-- src/modules/auth/services/google-oauth.service.ts: handleGoogleCallback after Google's answer.
-- Mails, and the name and picture of a user, are left out.
pub mod Names
pub mod Usernames
pub mod Registering
pub mod Recovery
mod Tests
use sfinx_backend.Base.{
  ℕ, zero, suc, ◌+◌, ◌*◌, ◌&&◌, not, Bool, true, false, Option, none, some, ltb, ◌==◌, is_some,
  if◌then◌else◌, Result, throws, ok, unauthorized, not_found, conflict, ◌>>=◌, ◌>>◌, throw_if,
  or_throw, internal_error,
}
use sfinx_backend.Base.Table.{Table}
use sfinx_backend.Favorites
use sfinx_backend.Auth.{User, OneTimeToken, AuthResponse, Services, Db, generate_auth_response}

-- `new_id`, `list_id`, `new_jti` and `email_token` are drawn by the database and by `uuidV4`, and
-- `new_hash` is what bcrypt gives for the password.
pub record RegisterDto : Type 0 where
  pub new_email : ℕ
  pub new_username : ℕ
  pub new_hash : ℕ
  pub new_id : ℕ
  pub list_id : ℕ
  pub new_jti : ℕ
  pub email_token : ℕ

-- What Google tells of a user; `base_username` is the local part of the email.
pub record GoogleUserInfo : Type 0 where
  pub info_id : ℕ
  pub info_email : ℕ
  pub base_username : ℕ
  pub verified_email : Bool

abbrev pub new_user : ℕ → ℕ → Option ℕ → Option ℕ → Bool → User
new_user email username hash google verified = record {
  email = email;
  username = username;
  password_hash = hash;
  google_id = google;
  email_verified = verified;
  is_active = true;
  is_banned = false;
  banned_at = none;
  last_login_at = none;
  last_active_at = none;
}

-- The three errors of `findAndValidateToken`, as the callers rethrow them.
abbrev pub validated : ℕ → Option OneTimeToken → Result OneTimeToken
validated now found = do
  t ← or_throw found not_found
  throw_if (is_some t.used_at) conflict
  throw_if (ltb t.token_expires_at now) conflict
  ok t

abbrev pub new_token : ℕ → ℕ → ℕ → OneTimeToken
new_token now user expires_in_ms = record {
  token_user = user;
  token_expires_at = now + expires_in_ms;
  used_at = none;
}

abbrev pub used : ℕ → OneTimeToken → OneTimeToken
used now t = record t { used_at = some now }

abbrev pub has_google : Option ℕ → ℕ → Bool
has_google none g = false
has_google (some h) g = h == g

-- `numbered` appends a counter to a text; `role_exists` says that the role 'user' is there.
module _ (sv : Services) (numbered : ℕ → ℕ → ℕ) (role_exists : Bool) where
  unfoldable pub send_verification_email : Db sv → ℕ → ℕ → ℕ → Db sv
  send_verification_email db now user token = record db {
    email_token_rows =
        sv.email_tokens.save db.email_token_rows (sv.hash_token token)
          (new_token now user (24 * 60 * 60 * 1000));
  }

  -- Saves a new user.
  abbrev pub add_user : Db sv → ℕ → User → Db sv
  add_user db id u = record db { user_rows = sv.users.save db.user_rows id u }

  unfoldable pub register : Db sv → ℕ → RegisterDto → Result (AuthResponse × Db sv)
  unfolding send_verification_email
  register db now d = do
    throw_if (is_some (sv.users.find_where db.user_rows (λ id u. u.email == d.new_email))) conflict
    throw_if (is_some (sv.users.find_where db.user_rows (λ id u. u.username == d.new_username)))
        conflict
    throw_if (not role_exists) not_found
    let u = new_user d.new_email d.new_username (some d.new_hash) none false
    let with_user = add_user db d.new_id u
    let with_list = record with_user {
      favorites =
          Favorites.create sv.lists sv.saves sv.problem_exists db.favorites d.list_id d.new_id
            (some false);
    }
    ok (
        generate_auth_response sv (send_verification_email with_list now d.new_id d.email_token) now
          d.new_id d.new_jti)

  unfoldable pub verify_email : Db sv → ℕ → ℕ → Result (Db sv)
  verify_email db now token = do
    t ← validated now (sv.email_tokens.find db.email_token_rows (sv.hash_token token))
    u ← or_throw (sv.users.find db.user_rows t.token_user) conflict
    ok (record db {
      user_rows = sv.users.save db.user_rows t.token_user (record u { email_verified = true });
      email_token_rows =
          sv.email_tokens.save db.email_token_rows (sv.hash_token token) (used now t);
    })

  -- Whether the email is known is not told.
  unfoldable pub resend_verification_email : Db sv → ℕ → ℕ → ℕ → Result (Db sv)
  unfolding send_verification_email
  resend_verification_email db now email token =
      elim (sv.users.find_where db.user_rows (λ id u. u.email == email)) [
        | none ↦ ok db
        | some (id, u) ↦
            if u.email_verified
            then throws conflict
            else ok (send_verification_email db now id token)
      ]

  unfoldable pub forgot_password : Db sv → ℕ → ℕ → ℕ → Db sv
  forgot_password db now email token =
      elim (sv.users.find_where db.user_rows (λ id u. u.email == email)) [
        | none ↦ db
        | some (id, u) ↦ record db {
          reset_token_rows =
              sv.reset_tokens.save db.reset_token_rows (sv.hash_token token)
                (new_token now id (60 * 60 * 1000));
        }
      ]

  unfoldable pub reset_password : Db sv → ℕ → ℕ → ℕ → Result (Db sv)
  reset_password db now token hash = do
    t ← validated now (sv.reset_tokens.find db.reset_token_rows (sv.hash_token token))
    u ← or_throw (sv.users.find db.user_rows t.token_user) conflict
    ok (record db {
      user_rows = sv.users.save db.user_rows t.token_user (record u { password_hash = some hash });
      reset_token_rows =
          sv.reset_tokens.save db.reset_token_rows (sv.hash_token token) (used now t);
    })

  unfoldable pub change_password : Db sv → ℕ → ℕ → ℕ → Result (Db sv)
  change_password db user current hash = do
    u ← or_throw (sv.users.find db.user_rows user) not_found
    old ← or_throw u.password_hash unauthorized
    throw_if (not (sv.compare_password current old)) unauthorized
    ok (record db {
      user_rows = sv.users.save db.user_rows user (record u { password_hash = some hash });
    })

  -- The loop that looks for a free username, on fuel.
  unfoldable pub free_username : ℕ → sv.users.Rows → ℕ → ℕ → ℕ → Option ℕ
  free_username zero rows base name counter = none
  free_username (suc fuel) rows base name counter =
      elim (sv.users.find_where rows (λ id u. u.username == name)) [
        | none ↦ some name
        | some taken ↦ free_username fuel rows base (numbered base counter) (counter + 1)
      ]

  -- One round more than there are users.
  unfoldable pub unique_username : sv.users.Rows → ℕ → Option ℕ
  unfolding free_username
  unique_username rows base =
      free_username (suc (sv.users.count rows (λ id u. true))) rows base base 1

  unfoldable pub create_google_user : Db sv → ℕ → GoogleUserInfo → Result (User × Db sv)
  unfolding unique_username
  create_google_user db id g = do
    name ← or_throw (unique_username db.user_rows g.base_username) internal_error
    throw_if (not role_exists) not_found
    let u = new_user g.info_email name none (some g.info_id) g.verified_email
    ok (u, add_user db id u)

  -- The user of a Google account: found, linked by the email, or new under the identifier `id`.
  unfoldable pub google_user : Db sv → ℕ → GoogleUserInfo → Result (ℕ × User × Db sv)
  unfolding create_google_user
  google_user db id g =
      elim (sv.users.find_where db.user_rows (λ i u. has_google u.google_id g.info_id)) [
        | some (i, u) ↦ ok (i, u, db)
        | none ↦ elim (sv.users.find_where db.user_rows (λ i u. u.email == g.info_email)) [
          | some (i, u) ↦
              if is_some u.google_id
              then throws conflict
              else (let linked = record u {
                google_id = some g.info_id;
                email_verified = g.verified_email;
              } in
                  ok (i, linked, add_user db i linked))
          | none ↦ do (u, db') ← create_google_user db id g; ok (id, u, db')
        ]
      ]

  -- What happens to the user of a callback.
  abbrev pub welcome : ℕ → ℕ → ℕ × User × Db sv → Result (AuthResponse × Db sv)
  welcome now jti (i, u, db) = do
    throw_if u.is_banned unauthorized
    throw_if (not u.is_active) unauthorized
    let seen = record u { last_login_at = some now; last_active_at = some now }
    ok (generate_auth_response sv (add_user db i seen) now i jti)

  -- `answered` is absent when Google refuses the code.
  unfoldable pub handle_google_callback :
      Db sv → ℕ → Option GoogleUserInfo → ℕ → ℕ → Result (AuthResponse × Db sv)
  unfolding google_user
  handle_google_callback db now answered id jti = do
    g ← or_throw answered unauthorized
    found ← google_user db id g
    welcome now jti found
