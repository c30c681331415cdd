-- ===== src/Accounts/Tests.antt =====
-- Accounts on list tables: the theorems at concrete inputs.
use sfinx_backend.Base.{
  ℕ, zero, suc, ◌+◌, ◌*◌, ◌≡◌, ◌≤◌, ◌<◌, refl, inl, true, false, some, arith, ◌==◌, ok, throws,
  conflict, if◌then◌else◌,
}
use sfinx_backend.Base.Table.{number_table, pair_table}
use sfinx_backend.Auth.{User, AuthResponse, Db, left_by, login, generate_auth_response}
use sfinx_backend.Auth.Samples.{sv, db, ann}
use sfinx_backend.Accounts.{
  RegisterDto, GoogleUserInfo, register, handle_google_callback, unique_username, forgot_password,
  reset_password,
}
use sfinx_backend.Accounts.Usernames.{candidate}
use sfinx_backend.Accounts.Names.{AreApart, handle_google_callback-AreApart}
use sfinx_backend.Accounts.Registering.{register-login}
use sfinx_backend.Accounts.Recovery.{forgot_password-reset_password}

abbrev numbered : ℕ → ℕ → ℕ
numbered base counter = base + counter

abbrev bob : RegisterDto
bob = record {
  new_email = 31;
  new_username = 32;
  new_hash = 107;
  new_id = 2;
  list_id = 1;
  new_jti = 80;
  email_token = 9;
}

abbrev with_bob : Db sv
with_bob = left_by sv db (register sv numbered true db 100 bob)

abbrev told : AuthResponse
told = record { subject = 2; jti = 80; expires_in_seconds = 900 }

bob_registers : register sv numbered true db 100 bob ≡ ok (told, with_bob)
unfolding register generate_auth_response number_table pair_table db
bob_registers = refl

others :
    (i : ℕ) (w : User)
    → sv.users.find db.user_rows i ≡ some w
    → ((w.username == bob.new_email) ≡ false) × ((w.email == bob.new_username) ≡ false)
unfolding number_table db
others i w h = ground arith

register-login_example :
    (answer' : AuthResponse) × (db'' : Db sv) × (login sv with_bob 200 31 7 81 ≡ ok (answer', db''))
    × (answer'.subject ≡ 2)
register-login_example =
    register-login sv numbered true db with_bob 100 200 31 7 81 bob told bob_registers refl others
      (inl refl)

apart : AreApart sv db.user_rows
unfolding number_table db
apart i j u v h k other = ground arith

distinct :
    (base i j : ℕ) → candidate sv numbered true base i ≡ candidate sv numbered true base j → i ≡ j
distinct base zero zero h = refl
distinct base zero (suc j) h = omega arith
distinct base (suc i) zero h = omega arith
distinct base (suc i) (suc j) h = omega arith

abbrev cat : GoogleUserInfo
cat = record { info_id = 900; info_email = 41; base_username = 22; verified_email = true }

handle_google_callback-AreApart_example :
    AreApart sv
      (left_by sv db (handle_google_callback sv numbered true db 100 (some cat) 3 90)).user_rows
handle_google_callback-AreApart_example =
    handle_google_callback-AreApart sv numbered true db 100 (some cat) 3 90 distinct apart

-- The base is taken.
numbered_name : unique_username sv numbered true db.user_rows 22 ≡ some 23
unfolding unique_username number_table db
numbered_name = refl

ann_found : sv.users.find_where db.user_rows (λ id u. u.email == 21) ≡ some (1, ann)
unfolding number_table db
ann_found = refl

forgot_password-reset_password_example :
    let sent = forgot_password sv numbered true db 500 21 9 in
    (600 ≤ 500 + 60 * 60 * 1000
      → (db' : Db sv) × (reset_password sv numbered true sent 600 9 110 ≡ ok db')
        × ((j : ℕ)
            → sv.users.find db'.user_rows j ≡ (
                if 1 == j
                then some (record ann { password_hash = some 110 })
                else sv.users.find db.user_rows j))
        × (reset_password sv numbered true db' 700 9 111 ≡ throws conflict))
    × (500 + 60 * 60 * 1000 < 600
        → reset_password sv numbered true sent 600 9 110 ≡ throws conflict)
forgot_password-reset_password_example =
    forgot_password-reset_password sv numbered true db 500 600 700 21 9 110 111 1 ann ann_found
