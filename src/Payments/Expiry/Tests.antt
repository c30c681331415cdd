-- ===== src/Payments/Expiry/Tests.antt =====
-- The daily jobs at concrete inputs.
use sfinx_backend.Base.{
  ℕ, ◌+◌, ◌*◌, ◌/◌, not, ◌≡◌, ◌≤◌, refl, true, some, List, [], ◌∷◌, arith, ltb, ◌==◌,
}
use sfinx_backend.Base.Lists.{length}
use sfinx_backend.Base.Table.{Table, number_table}
use sfinx_backend.Payments.{User, upgrade_user}
use sfinx_backend.Payments.Expiry.{
  day, check_expiring_subscriptions, handle_expired_premium_subscriptions,
}
use sfinx_backend.Payments.Expiry.Batches.{soon, check_expiring_subscriptions_reaches}
use sfinx_backend.Payments.Expiry.Sweeps.{
  premium_end, handle_expired_premium_subscriptions-upgrade_user,
}

abbrev midnight : ℕ → ℕ
midnight t = t / day * day

abbrev until : ℕ → User
until expiry = record {
  is_premium = true;
  premium_started_at = some 100;
  premium_expires_at = some expiry;
}

-- Users 2, 5 and 6 are premium for three more days.
abbrev subscribers : List (ℕ × User)
subscribers =
    (2, until 864_000_500)
    ∷ (4, until 90_000)
    ∷ (5, until 864_000_500)
    ∷ (6, until 864_000_900)
    ∷ []

abbrev today : ℕ
today = 604_800_007

batches_of_two :
    soon midnight 3 2 today subscribers
    ≡ (2, until 864_000_500) ∷ (5, until 864_000_500) ∷ (6, until 864_000_900) ∷ []
batches_of_two = refl

check_expiring_subscriptions_reaches_example :
    check_expiring_subscriptions midnight 3 2 today subscribers
    ≡ some (soon midnight 3 2 today subscribers, length (soon midnight 3 2 today subscribers))
check_expiring_subscriptions_reaches_example =
    check_expiring_subscriptions_reaches midnight 3 2 today subscribers (omega arith)
      (omega arith, (omega arith, (omega arith, (omega arith, tt))))

abbrev add_months : ℕ → ℕ → ℕ
add_months date months = date + months * 2_592_000_000

abbrev users : Table ℕ User ◌==◌
users = number_table User

abbrev rows : users.Rows
unfolding number_table
rows = ((7, until 5000) ∷ [], (refl, tt))

there : users.find rows 7 ≡ some (until 5000)
unfolding number_table
there = refl

-- One who pays at 6000, after the premium time ended.
handle_expired_premium_subscriptions-upgrade_user_example :
    let job = handle_expired_premium_subscriptions users in
    let u' = upgrade_user add_months 6000 1 (until 5000) in
    ((after : ℕ)
      → users.find (job after (users.save rows 7 u')) 7
        ≡ some (record u' {
          is_premium = not (ltb (premium_end add_months 6000 1 (until 5000)) after);
        }))
    × ((before : ℕ)
        → before ≤ 6000
        → (v : User) → users.find (job before rows) 7 ≡ some v
        → upgrade_user add_months 6000 1 v ≡ u')
handle_expired_premium_subscriptions-upgrade_user_example =
    handle_expired_premium_subscriptions-upgrade_user add_months users rows 7 (until 5000) 6000 1
      there
