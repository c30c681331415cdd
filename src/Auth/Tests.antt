-- ===== src/Auth/Tests.antt =====
-- Sessions on list tables: the theorems at concrete inputs.
use sfinx_backend.Base.{
  ◌≡◌, refl, false, List, [], ◌∷◌, arith, ok, throws, unauthorized, state_after,
}
use sfinx_backend.Base.Table.{number_table}
use sfinx_backend.Auth.{
  AuthResponse, with_jti, Db, left_by, login, refresh_access_token, logout, cleanup_expired_tokens,
  validate_user_by_id, ban_user, generate_auth_response,
}
use sfinx_backend.Auth.Samples.{sv, db}
use sfinx_backend.Auth.Sessions.{
  Call, logs_in, refreshes, cleans, after_calls, refresh_access_token_once,
}
use sfinx_backend.Auth.Cleanup.{cleanup_expired_tokens_unseen}
use sfinx_backend.Auth.Cleanup.Logins.{answer_of}
use sfinx_backend.Auth.Bans.{gives_to, ban_user_bars}

abbrev refreshed : Db sv
refreshed = left_by sv db (refresh_access_token sv db 100 (with_jti 50) 51)

abbrev told : AuthResponse
told = record { subject = 1; jti = 51; expires_in_seconds = 900 }

refresh_works : refresh_access_token sv db 100 (with_jti 50) 51 ≡ ok (told, refreshed)
unfolding refresh_access_token generate_auth_response number_table db
refresh_works = refl

abbrev calls : List Call
calls = logs_in 120 21 5 60 ∷ refreshes 130 (with_jti 51) 52 ∷ cleans 140 ∷ []

refresh_access_token_once_example :
    (refresh_access_token sv (after_calls sv calls refreshed) 150 (with_jti 50) 70
      ≡ throws unauthorized)
    × (logout sv (after_calls sv calls refreshed) 150 (with_jti 50) ≡ throws unauthorized)
refresh_access_token_once_example =
    refresh_access_token_once sv db refreshed 100 50 51 150 70 told calls refresh_works refl
      (refl, (refl, (refl, tt)))

abbrev later_calls : List Call
later_calls = logs_in 220 21 5 60 ∷ refreshes 230 (with_jti 50) 52 ∷ cleans 240 ∷ []

cleanup_expired_tokens_unseen_example :
    let with_it = after_calls sv later_calls (cleanup_expired_tokens sv db 200) in
    let without_it = after_calls sv later_calls db in
    (answer_of sv (refresh_access_token sv with_it 300 (with_jti 60) 70)
      ≡ answer_of sv (refresh_access_token sv without_it 300 (with_jti 60) 70))
    × (answer_of sv (login sv with_it 300 21 5 70) ≡ answer_of sv (login sv without_it 300 21 5 70))
cleanup_expired_tokens_unseen_example =
    cleanup_expired_tokens_unseen sv 200 300 (with_jti 60) 21 5 70 later_calls db (omega arith)
      (omega arith, (omega arith, (omega arith, tt)))

abbrev barred : Db sv
barred = state_after db (ban_user sv db 100 1)

ban_works : ban_user sv db 100 1 ≡ ok barred
unfolding ban_user number_table db
ban_works = refl

ban_user_bars_example :
    let db'' = after_calls sv calls barred in
    (gives_to sv 1 (login sv db'' 150 21 5 61) ≡ false)
    × (gives_to sv 1 (refresh_access_token sv db'' 150 (with_jti 50) 61) ≡ false)
    × (validate_user_by_id sv db'' 1 ≡ throws unauthorized)
ban_user_bars_example =
    ban_user_bars sv db barred 100 1 150 21 5 61 (with_jti 50) calls ban_works
      (refl, (refl, (refl, tt)))
