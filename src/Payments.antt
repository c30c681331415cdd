-- ===== src/Payments.antt =====
-- src/modules/payments/services/payments.service.ts: payment callbacks and the premium time that
-- they buy. Money is in hundredths, a fee in millionths, a rate is a fraction, times are milliseconds. Calendar
-- arithmetic (`setMonth`) is a parameter.
pub mod Checkout
pub mod Expiry
pub mod Upgrades
mod Tests
use sfinx_backend.Base.{
  ℕ, ◌+◌, ◌-◌, ◌*◌, ◌&&◌, Bool, true, false, Option, none, some, ltb, ◌==◌, or_else, if◌then◌else◌,
}
use sfinx_backend.Base.Rounding.{round_div}
use sfinx_backend.Base.Table.{Table}

-- enums/payment-status.enum.ts
pub data PaymentStatus : Type 0 where
  pending success failed : PaymentStatus

abbrev pub is_success : PaymentStatus → Bool
is_success s = elim s [ success ↦ true | _ ↦ false ]

pub record PaymentTransaction : Type 0 where
  pub user_id : ℕ
  pub plan_id : ℕ
  pub status : PaymentStatus
  pub user_paid_amount : ℕ
  pub is_paid_in_usd : Bool
  pub base_price_snapshot : ℕ
  pub total_fee_percentage : ℕ
  pub plan_price_vnd : ℕ
  pub plan_price_usd : ℕ
  -- `transactionId`, the gateway's number
  pub gateway_transaction : Option ℕ
  pub payment_date : Option ℕ
  pub system_received_amount : Option ℕ
  pub is_received_in_usd : Option Bool
  pub system_received_amount_usd : Option ℕ
  pub system_received_amount_vnd : Option ℕ

pub record User : Type 0 where
  pub is_premium : Bool
  pub premium_started_at : Option ℕ
  pub premium_expires_at : Option ℕ

-- What a provider says of a callback, its time, the months that each plan then has, and the
-- configured rates: the gateway's fee and the price of a dollar.
pub record Callback : Type 0 where
  pub transaction_id : Option ℕ
  pub succeeded : Bool
  pub gateway_number : ℕ
  pub now : ℕ
  pub plan_months : ℕ → ℕ
  pub fee_num : ℕ
  pub fee_den : ℕ
  pub usd_num : ℕ
  pub usd_den : ℕ

pub data Answer : Type 0 where
  invalid_data transaction_not_found already_processed paid payment_failed no_user : Answer

-- `amount * (1 - fee)`, rounded to hundredths
abbrev pub received : Callback → PaymentTransaction → ℕ
received c t = round_div (t.user_paid_amount * (c.fee_den - c.fee_num)) c.fee_den

abbrev pub paid_transaction : Callback → PaymentTransaction → PaymentTransaction
paid_transaction c t =
    let amount = received c t in
    record t {
      status = success;
      gateway_transaction = some c.gateway_number;
      payment_date = some c.now;
      system_received_amount = some amount;
      is_received_in_usd = some t.is_paid_in_usd;
      system_received_amount_usd =
          some (if t.is_paid_in_usd then amount else round_div (amount * c.usd_den) c.usd_num);
      system_received_amount_vnd =
          some (if t.is_paid_in_usd then round_div (amount * c.usd_num) c.usd_den else amount);
    }

module _ (add_months : ℕ → ℕ → ℕ) where
  -- From when the new months count.
  abbrev pub start_date : ℕ → User → ℕ
  start_date now u = elim u.premium_expires_at [
    | none ↦ now
    | some expiry ↦ if u.is_premium && ltb now expiry then expiry else now
  ]

  unfoldable pub upgrade_user : ℕ → ℕ → User → User
  upgrade_user now months u = record {
    is_premium = true;
    premium_started_at = some (or_else u.premium_started_at now);
    premium_expires_at = some (add_months (start_date now u) months);
  }

  module _ (transactions : Table ℕ PaymentTransaction ◌==◌) (users : Table ℕ User ◌==◌) where
    pub record Db : Type 0 where
      pub transaction_rows : transactions.Rows
      pub user_rows : users.Rows

    abbrev pub settle : Callback → ℕ → PaymentTransaction → Db → Answer × Db
    unfolding upgrade_user
    settle c id t db =
        if c.succeeded
        then (let rows = transactions.save db.transaction_rows id (paid_transaction c t) in
            elim (users.find db.user_rows t.user_id) [
              | none ↦ (no_user, record db { transaction_rows = rows })
              | some u ↦ (
                paid,
                record {
                  transaction_rows = rows;
                  user_rows =
                      users.save db.user_rows t.user_id
                        (upgrade_user c.now (c.plan_months t.plan_id) u);
                },
              )
            ])
        else (
          payment_failed,
          record db {
            transaction_rows =
                transactions.save db.transaction_rows id (record t { status = failed });
          },
        )

    unfoldable pub handle_payment_callback : Callback → Db → Answer × Db
    unfolding settle
    handle_payment_callback c db = elim c.transaction_id [
      | none ↦ (invalid_data, db)
      | some id ↦ elim (transactions.find db.transaction_rows id) [
        | none ↦ (transaction_not_found, db)
        | some t ↦ if is_success t.status then (already_processed, db) else settle c id t db
      ]
    ]
