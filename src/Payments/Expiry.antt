-- ===== src/Payments/Expiry.antt =====
-- src/modules/payments/services/payment-subscription.service.ts: the daily jobs that warn users
-- whose premium time ends soon, batch by batch, and that end the premium time of others. The
-- midnight of `setHours(0, 0, 0, 0)` is a parameter. A mail that fails is logged and no more.
pub mod Batches
pub mod Sweeps
mod Tests
use sfinx_backend.Base.{
  ℕ, zero, suc, ◌+◌, ◌*◌, ◌&&◌, Bool, true, false, Option, none, some, List, [], ◌∷◌, ◌++◌, leb,
  ltb, ◌==◌, if◌then◌else◌,
}
use mathlib.Core.Option
use sfinx_backend.Base.Lists.{length, keep_if, take}
use sfinx_backend.Base.Table.{Table}
use sfinx_backend.Payments.{User}

abbrev pub day : ℕ
day = 86_400_000

-- `lastId` after the users of a batch
abbrev pub last_id : ℕ → List (ℕ × User) → ℕ
last_id last [] = last
last_id last ((id, u) ∷ users) = last_id id users

module _ (day_start : ℕ → ℕ) (warning_days : ℕ) where
  -- The query's conditions on `isPremium` and `premiumExpiresAt`.
  abbrev pub expires_soon : ℕ → User → Bool
  expires_soon now u = elim u.premium_expires_at [
    | none ↦ false
    | some expiry ↦
        u.is_premium
        && (leb (day_start (now + warning_days * day)) expiry
            && ltb expiry (day_start (now + (warning_days + 1) * day)))
  ]

  module _ (batch_size : ℕ) where
    -- The users come in the order of their ids, as the query asks.
    abbrev pub next_batch : ℕ → ℕ → List (ℕ × User) → List (ℕ × User)
    next_batch now last users =
        take batch_size (keep_if (λ e. expires_soon now e.1 && ltb last e.0) users)

    -- The loop on fuel: the users that mails went to, and `totalProcessed`.
    unfoldable pub warn_from : ℕ → ℕ → List (ℕ × User) → ℕ → ℕ → Option (List (ℕ × User) × ℕ)
    warn_from zero now users last total = none
    warn_from (suc fuel) now users last total = elim (next_batch now last users) [
      | [] ↦ some ([], total)
      | user ∷ more ↦
          let batch = user ∷ more in
          Option.map (λ rest. (batch ++ rest.0, rest.1))
            (warn_from fuel now users (last_id last batch) (total + length batch))
    ]

    unfoldable pub check_expiring_subscriptions : ℕ → List (ℕ × User) → Option (List (ℕ × User) × ℕ)
    unfolding warn_from
    check_expiring_subscriptions now users = warn_from (suc (length users)) now users 0 0

-- Whether `premiumExpiresAt < :now` holds of a premium user.
abbrev pub has_expired : ℕ → User → Bool
has_expired now u = elim u.premium_expires_at [
  | none ↦ false
  | some expiry ↦ u.is_premium && ltb expiry now
]

abbrev pub downgraded : ℕ → User → User
downgraded now u = if has_expired now u then record u { is_premium = false } else u

module _ (users : Table ℕ User ◌==◌) where
  unfoldable pub handle_expired_premium_subscriptions : ℕ → users.Rows → users.Rows
  handle_expired_premium_subscriptions now rows = users.update_all rows (λ id u. downgraded now u)
