-- ===== src/Payments/Tests.antt =====
-- Payments on list tables: the theorems at concrete inputs.
use sfinx_backend.Base.{
  ℕ, ◌+◌, ◌*◌, ◌≡◌, ◌≤◌, refl, true, false, none, some, List, [], ◌∷◌, arith, ◌==◌,
}
use sfinx_backend.Base.Table.{Table, number_table}
use sfinx_backend.Payments.{PaymentTransaction, User, Callback, pending, Db}
use sfinx_backend.Payments.Upgrades.{after_callbacks, paid_user, after_callbacks_upgrade}

-- Months of thirty days.
abbrev add_months : ℕ → ℕ → ℕ
add_months date months = date + months * 2_592_000_000

abbrev transactions : Table ℕ PaymentTransaction ◌==◌
transactions = number_table PaymentTransaction

abbrev users : Table ℕ User ◌==◌
users = number_table User

abbrev order : PaymentTransaction
order = record {
  user_id = 7;
  plan_id = 2;
  status = pending;
  user_paid_amount = 10_000_000;
  is_paid_in_usd = false;
  base_price_snapshot = 9_800_000;
  total_fee_percentage = 20_000;
  plan_price_vnd = 10_000_000;
  plan_price_usd = 400;
  gateway_transaction = none;
  payment_date = none;
  system_received_amount = none;
  is_received_in_usd = none;
  system_received_amount_usd = none;
  system_received_amount_vnd = none;
}

-- Premium until 5000.
abbrev subscriber : User
subscriber = record {
  is_premium = true;
  premium_started_at = some 100;
  premium_expires_at = some 5000;
}

abbrev db : Db add_months transactions users
unfolding number_table
db = record {
  transaction_rows = ((1, order) ∷ [], (refl, tt));
  user_rows = ((7, subscriber) ∷ [], (refl, tt));
}

abbrev reports : ℕ → Callback
reports now = record {
  transaction_id = some 1;
  succeeded = true;
  gateway_number = 77;
  now = now;
  plan_months = λ plan. 1;
  fee_num = 3;
  fee_den = 100;
  usd_num = 25_000;
  usd_den = 1;
}

-- A failure, a success, and the success again.
abbrev callbacks : List Callback
callbacks = record (reports 1000) { succeeded = false } ∷ reports 1100 ∷ reports 1200 ∷ []

order_there : transactions.find db.transaction_rows 1 ≡ some order
unfolding number_table
order_there = refl

subscriber_there : users.find db.user_rows 7 ≡ some subscriber
unfolding number_table
subscriber_there = refl

after_callbacks_upgrade_example :
    users.find (after_callbacks add_months transactions users callbacks db).user_rows 7
    ≡ some (paid_user add_months transactions users 2 subscriber callbacks)
after_callbacks_upgrade_example =
    after_callbacks_upgrade add_months transactions users callbacks 1 order subscriber db
      (refl, (refl, (refl, tt))) order_there refl subscriber_there

not_earlier : (date months : ℕ) → date ≤ add_months date months
not_earlier date months = omega arith
