-- ===== src/Payments/Checkout.antt =====
-- src/modules/payments/services/payments.service.ts: createPaymentUrl, with the fees of
-- fee-config.service.ts. The price with fees, `Math.ceil(basePrice * (1 + totalFeePercentage))` in
-- floating point, is a parameter, in whole VND; the provider's URL is left out.
pub mod Purchases
mod Tests
use sfinx_backend.Base.{
  ℕ, ◌+◌, ◌*◌, not, Bool, true, false, Option, none, some, List, [], ◌∷◌, ◌==◌, if◌then◌else◌,
  Result, ok, not_found, ◌>>=◌, ◌>>◌, throw_if, or_throw,
}
use sfinx_backend.Base.Lists.{sum_by, keep_if}
use sfinx_backend.Base.Rounding.{round_div}
use sfinx_backend.Base.Table.{Table}
use sfinx_backend.Payments.{PaymentTransaction, User, pending, Db}

-- entities/subscription-plan.entity.ts, entities/fee-config.entity.ts
pub record SubscriptionPlan : Type 0 where
  pub base_price : ℕ
  pub duration_months : ℕ
  pub is_active : Bool

pub record FeeConfig : Type 0 where
  pub value : ℕ
  pub is_active : Bool

-- `getTotalFeePercentage`: the sum of the active fees.
abbrev pub get_total_fee_percentage : List FeeConfig → ℕ
get_total_fee_percentage fees = sum_by (λ f. f.value) (keep_if (λ f. f.is_active) fees)

-- `getPaymentCurrency`: VNPAY, and all else, is paid in VND.
abbrev pub is_paid_in_usd_by_default : Bool
is_paid_in_usd_by_default = false

module _ (add_months : ℕ → ℕ → ℕ) (transactions : Table ℕ PaymentTransaction ◌==◌)
    (users : Table ℕ User ◌==◌) (price_with_fees : ℕ → ℕ → ℕ) where
  -- The transaction for a plan: `fee` is the total, and a dollar costs `usd_num / usd_den`.
  abbrev pub new_transaction : ℕ → ℕ → SubscriptionPlan → ℕ → ℕ → ℕ → PaymentTransaction
  new_transaction user plan_id plan fee usd_num usd_den =
      let vnd = price_with_fees plan.base_price fee * 100 in
      let usd = round_div (vnd * usd_den) usd_num in
      record {
        user_id = user;
        plan_id = plan_id;
        status = pending;
        user_paid_amount = if is_paid_in_usd_by_default then usd else vnd;
        is_paid_in_usd = is_paid_in_usd_by_default;
        base_price_snapshot = plan.base_price;
        total_fee_percentage = fee;
        plan_price_vnd = vnd;
        plan_price_usd = usd;
        gateway_transaction = none;
        payment_date = none;
        system_received_amount = none;
        is_received_in_usd = none;
        system_received_amount_usd = none;
        system_received_amount_vnd = none;
      }

  -- `id` is the identifier of the new transaction, `plan` what the query for the plan finds.
  unfoldable pub create_payment_url :
      Db add_months transactions users
      → ℕ
      → ℕ
      → ℕ
      → Option SubscriptionPlan
      → List FeeConfig
      → ℕ
      → ℕ
      → Result (Db add_months transactions users)
  create_payment_url db id user plan_id plan fees usd_num usd_den = do
    p ← or_throw plan not_found
    throw_if (not p.is_active) not_found
    ok (record db {
      transaction_rows =
          transactions.save db.transaction_rows id
            (new_transaction user plan_id p (get_total_fee_percentage fees) usd_num usd_den);
    })
