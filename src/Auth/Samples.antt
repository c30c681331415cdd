-- ===== src/Auth/Samples.antt =====
-- Services on list tables and two users, for the tests of sessions and accounts.
use sfinx_backend.Base.{◌+◌, refl, true, false, none, some, [], ◌∷◌, ltb, ◌==◌}
use sfinx_backend.Base.Table.{number_table, pair_table}
use sfinx_backend.Favorites.{FavoriteList, SavedFavoriteList}
use sfinx_backend.Auth.{User, RefreshToken, OneTimeToken, Services, Db}

-- A password's hash is 100 more, a token's 1000 more.
abbrev pub sv : Services
sv = record {
  users = number_table User;
  refresh_tokens = number_table RefreshToken;
  email_tokens = number_table OneTimeToken;
  reset_tokens = number_table OneTimeToken;
  lists = number_table FavoriteList;
  saves = pair_table SavedFavoriteList;
  problem_exists = λ p. ltb p 10;
  access_expires_in_ms = 900000;
  refresh_expires_in_ms = 604800000;
  compare_password = λ password hash. password + 100 == hash;
  hash_token = λ token. token + 1000;
}

abbrev pub ann : User
ann = record {
  email = 21;
  username = 22;
  password_hash = some 105;
  google_id = none;
  email_verified = true;
  is_active = true;
  is_banned = false;
  banned_at = none;
  last_login_at = none;
  last_active_at = none;
}

-- User 1 has a session under the jti 50 until 9000.
unfoldable pub db : Db sv
unfolding number_table pair_table
db = record {
  user_rows = ((1, ann) ∷ [], (refl, tt));
  session_rows = (
    (
      50,
      record { session_user = 1; session_expires_at = 9000; is_revoked = false; revoked_at = none },
    )
        ∷ [],
    (refl, tt),
  );
  email_token_rows = ([], tt);
  reset_token_rows = ([], tt);
  favorites = record { list_rows = ([], tt); saved_rows = ([], tt) };
}
