-- ===== src/Payments/Checkout/Purchases.antt =====
-- From the creation of a payment to the premium time.
use sfinx_backend.Base.{
  ℕ, ◌*◌, ◌≡◌, refl, inl, inr, true, Option, some, List, arith, ◌==◌, ==_iff, Bool-cases,
  Option-cases, ok,
}
use sfinx_backend.Base.Lists.{All}
use sfinx_backend.Base.Table.{Table}
use sfinx_backend.Payments.{PaymentTransaction, User, Callback, Db}
use sfinx_backend.Payments.Upgrades.{after_callbacks, paid_user, after_callbacks_upgrade}
use sfinx_backend.Payments.Checkout.{
  SubscriptionPlan, FeeConfig, get_total_fee_percentage, new_transaction, create_payment_url,
}

module _ (add_months : ℕ → ℕ → ℕ) (transactions : Table ℕ PaymentTransaction ◌==◌)
    (users : Table ℕ User ◌==◌) (price_with_fees : ℕ → ℕ → ℕ) where
  abbrev St : Type 0
  St = Db add_months transactions users

  -- Only a plan that is there and active can be bought. Whatever callbacks come for the transaction
  -- that a purchase stores, its user, who has a row, is upgraded once, at the first success
  -- and by the months that the plan has then, or not at all if there is none; and the amount that the transaction asks is the price of
  -- the plan with the sum of the active fees.
  pub create_payment_url-after_callbacks :
      (db db' : St) (id user plan_id : ℕ) (plan : Option SubscriptionPlan) (fees : List FeeConfig)
      (usd_num usd_den : ℕ) (u : User) (cs : List Callback)
      → users.find db.user_rows user ≡ some u
      → All (λ c. c.transaction_id ≡ some id) cs
      → create_payment_url add_months transactions users price_with_fees db id user plan_id plan
          fees usd_num usd_den
        ≡ ok db'
      → (p : SubscriptionPlan) × (plan ≡ some p)
        × (p.is_active ≡ true)
        × (users.find (after_callbacks add_months transactions users cs db').user_rows user
            ≡ some (paid_user add_months transactions users plan_id u cs))
        × (t : PaymentTransaction) × (transactions.find db'.transaction_rows id ≡ some t)
        × (t.user_paid_amount ≡ price_with_fees p.base_price (get_total_fee_percentage fees) * 100)
  unfolding create_payment_url
  create_payment_url-after_callbacks db db' id user plan_id plan fees usd_num usd_den u cs found
        named done =
      elim (Option-cases plan) [
        | inl none_there ↦ absurd (ground (arith, done, none_there))
        | inr (p, there) ↦ elim (Bool-cases p.is_active) [
          | inr inactive ↦ absurd (ground (arith, done, there, inactive))
          | inl active ↦
              let t =
                new_transaction add_months transactions users price_with_fees user plan_id p
                  (get_total_fee_percentage fees) usd_num usd_den in
              let after : St = record db {
                transaction_rows = transactions.save db.transaction_rows id t;
              } in
              let e : after ≡ db' = ground (arith, done, there, active) in
              let row : transactions.find after.transaction_rows id ≡ some t = ground (
                arith,
                (==_iff id id).1 refl,
                transactions.find-save db.transaction_rows id id t,
              ) in
              let upgraded =
                after_callbacks_upgrade add_months transactions users cs id t u after named row refl
                  found in
              rw (← e) (p, there, active, upgraded, t, row, refl)
        ]
      ]
