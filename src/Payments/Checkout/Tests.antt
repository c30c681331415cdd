-- ===== src/Payments/Checkout/Tests.antt =====
-- A purchase at a concrete input.
use sfinx_backend.Base.{
  ℕ, ◌+◌, ◌*◌, ◌/◌, ◌≡◌, refl, true, false, none, some, List, [], ◌∷◌, ◌==◌, ok, throws, not_found,
}
use sfinx_backend.Base.Table.{Table, number_table}
use sfinx_backend.Payments.{PaymentTransaction, User, Callback, Db}
use sfinx_backend.Payments.Upgrades.{after_callbacks, paid_user}
use sfinx_backend.Payments.Checkout.{
  SubscriptionPlan, FeeConfig, get_total_fee_percentage, create_payment_url, new_transaction,
}
use sfinx_backend.Payments.Checkout.Purchases.{create_payment_url-after_callbacks}

abbrev add_months : ℕ → ℕ → ℕ
add_months date months = date + months * 2_592_000_000

-- The exact price, rounded up: hundredths and millionths.
abbrev price_with_fees : ℕ → ℕ → ℕ
price_with_fees base fee = (base * (1_000_000 + fee) + 99_999_999) / 100_000_000

abbrev transactions : Table ℕ PaymentTransaction ◌==◌
transactions = number_table PaymentTransaction

abbrev users : Table ℕ User ◌==◌
users = number_table User

abbrev newcomer : User
newcomer = record { is_premium = false; premium_started_at = none; premium_expires_at = none }

abbrev db : Db add_months transactions users
unfolding number_table
db = record { transaction_rows = ([], tt); user_rows = ((7, newcomer) ∷ [], (refl, tt)) }

abbrev quarterly : SubscriptionPlan
quarterly = record { base_price = 10_000_000; duration_months = 3; is_active = true }

-- 2 % for the gateway, 10 % VAT, and a fee that is not active.
abbrev fees : List FeeConfig
fees =
    record { value = 20_000; is_active = true }
    ∷ record { value = 100_000; is_active = true }
    ∷ record { value = 50_000; is_active = false }
    ∷ []

abbrev bought : Db add_months transactions users
unfolding number_table
bought = record db {
  transaction_rows = transactions.save db.transaction_rows 1 (
      new_transaction add_months transactions users price_with_fees 7 2 quarterly
        (get_total_fee_percentage fees) 25_000 1);
}

bought_so :
    create_payment_url add_months transactions users price_with_fees db 1 7 2
      (some quarterly)
      fees
      25_000
      1
    ≡ ok bought
unfolding create_payment_url bought
bought_so = refl

inactive_plan :
    create_payment_url add_months transactions users price_with_fees db 1 7 2
      (some (record quarterly { is_active = false }))
      fees
      25_000
      1
    ≡ throws not_found
unfolding create_payment_url
inactive_plan = refl

abbrev reports : ℕ → Callback
reports now = record {
  transaction_id = some 1;
  succeeded = true;
  gateway_number = 77;
  now = now;
  plan_months = λ plan. 3;
  fee_num = 3;
  fee_den = 100;
  usd_num = 25_000;
  usd_den = 1;
}

abbrev callbacks : List Callback
callbacks = record (reports 1000) { succeeded = false } ∷ reports 1100 ∷ reports 1200 ∷ []

newcomer_there : users.find db.user_rows 7 ≡ some newcomer
unfolding number_table db
newcomer_there = refl

create_payment_url-after_callbacks_example :
    (p : SubscriptionPlan) × (some quarterly ≡ some p)
    × (p.is_active ≡ true)
    × (users.find (after_callbacks add_months transactions users callbacks bought).user_rows 7
        ≡ some (paid_user add_months transactions users 2 newcomer callbacks))
    × (t : PaymentTransaction) × (transactions.find bought.transaction_rows 1 ≡ some t)
    × (t.user_paid_amount ≡ price_with_fees p.base_price (get_total_fee_percentage fees) * 100)
create_payment_url-after_callbacks_example =
    create_payment_url-after_callbacks add_months transactions users price_with_fees db bought 1 7 2
      (some quarterly) fees 25_000 1 newcomer callbacks newcomer_there (refl, (refl, (refl, tt)))
      bought_so
