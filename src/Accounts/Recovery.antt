-- ===== src/Accounts/Recovery.antt =====
-- A forgotten password is reset once, within an hour.
use sfinx_backend.Base.{
  ℕ, ◌+◌, ◌*◌, ◌≡◌, ◌≤◌, ◌<◌, refl, Bool, true, false, none, some, arith, ◌==◌, throws, ok,
  conflict, ltb, if◌then◌else◌,
}
use sfinx_backend.Auth.{User, OneTimeToken, Services, Db}
use sfinx_backend.Accounts.{forgot_password, reset_password, new_token, used}

module _ (sv : Services) (numbered : ℕ → ℕ → ℕ) (role_exists : Bool) where
  -- A reset by a token that is there, unused and in time.
  reset_found :
      (db : Db sv) (later token hash : ℕ) (t : OneTimeToken) (u : User)
      → sv.reset_tokens.find db.reset_token_rows (sv.hash_token token) ≡ some t
      → t.used_at ≡ none
      → ltb t.token_expires_at later ≡ false
      → sv.users.find db.user_rows t.token_user ≡ some u
      → reset_password sv numbered role_exists db later token hash
        ≡ ok (record db {
          user_rows =
              sv.users.save db.user_rows t.token_user (record u { password_hash = some hash });
          reset_token_rows =
              sv.reset_tokens.save db.reset_token_rows (sv.hash_token token) (used later t);
        })
  unfolding reset_password
  reset_found db later token hash t u found unused in_time known =
      ground (arith, found, unused, in_time, known)

  -- A used token is refused.
  reset_used :
      (db : Db sv) (later token hash : ℕ) (t : OneTimeToken) (before : ℕ)
      → sv.reset_tokens.find db.reset_token_rows (sv.hash_token token) ≡ some t
      → t.used_at ≡ some before
      → reset_password sv numbered role_exists db later token hash ≡ throws conflict
  unfolding reset_password
  reset_used db later token hash t before found old = ground (arith, found, old)

  -- So is one that comes late.
  reset_late :
      (db : Db sv) (later token hash : ℕ) (t : OneTimeToken)
      → sv.reset_tokens.find db.reset_token_rows (sv.hash_token token) ≡ some t
      → ltb t.token_expires_at later ≡ true
      → reset_password sv numbered role_exists db later token hash ≡ throws conflict
  unfolding reset_password
  reset_late db later token hash t found late = ground (arith, found, late)

  -- The token that is sent for a forgotten password sets the new hash of its user and of nobody
  -- else, if it comes within the hour, and is refused at any second use; it is refused if it comes
  -- later than that.
  pub forgot_password-reset_password :
      (db : Db sv) (now later again email token hash other : ℕ) (id : ℕ) (u : User)
      → sv.users.find_where db.user_rows (λ id u. u.email == email) ≡ some (id, u)
      → let sent = forgot_password sv numbered role_exists db now email token in
        (later ≤ now + 60 * 60 * 1000
          → (db' : Db sv) × (reset_password sv numbered role_exists sent later token hash ≡ ok db')
            × ((j : ℕ)
                → sv.users.find db'.user_rows j ≡ (
                    if id == j
                    then some (record u { password_hash = some hash })
                    else sv.users.find db.user_rows j))
            × (reset_password sv numbered role_exists db' again token other ≡ throws conflict))
        × (now + 60 * 60 * 1000 < later
            → reset_password sv numbered role_exists sent later token hash ≡ throws conflict)
  unfolding forgot_password
  forgot_password-reset_password db now later again email token hash other id u hit =
      let t = new_token now id (60 * 60 * 1000) in
      let key = sv.hash_token token in
      let known = (sv.users.find_where-some db.user_rows (λ id u. u.email == email) id u hit).0 in
      let sent = record db { reset_token_rows = sv.reset_tokens.save db.reset_token_rows key t } in
      let sends : forgot_password sv numbered role_exists db now email token ≡ sent =
        rw (forgot_password, hit) refl in
      let there : sv.reset_tokens.find sent.reset_token_rows key ≡ some t =
        ground (arith, sv.reset_tokens.find-save db.reset_token_rows key key t) in
      let changed = record u { password_hash = some hash } in
      let db' = record sent {
        user_rows = sv.users.save sent.user_rows id changed;
        reset_token_rows = sv.reset_tokens.save sent.reset_token_rows key (used later t);
      } in
      rw sends (
        λ in_time. (
          db',
          reset_found sent later token hash t u there refl (ground (arith, in_time)) known,
          λ j. sv.users.find-save db.user_rows id j changed,
          reset_used db' again token other (used later t) later
              (ground
                (arith, sv.reset_tokens.find-save sent.reset_token_rows key key (used later t)))
              refl,
        ),
        λ late. reset_late sent later token hash t there (ground (arith, late)),
      )
