-- ===== src/Payments/Expiry/Sweeps.antt =====
-- When warnings go out and when premium time ends.
use sfinx_backend.Base.{
  ℕ, ◌+◌, ◌*◌, ◌/◌, not, ◌≡◌, ◌≤◌, ◌↔◌, refl, sym, ap, ◌∙◌, inl, inr, true, false, some, arith, ltb,
  ◌==◌, ==_iff, Bool-cases, Option-cases,
}
use mathlib.Core.Option.{some-injective}
use sfinx_backend.Base.Table.{Table}
use sfinx_backend.Payments.{User, start_date, upgrade_user}
use sfinx_backend.Payments.Expiry.{
  day, expires_soon, has_expired, downgraded, handle_expired_premium_subscriptions,
}

-- With midnights at the multiples of a day, a run warns exactly the premium users whose premium
-- time ends on the day so many days later, so of daily runs exactly one warns.
pub expires_soon_days_later :
    (day_start : ℕ → ℕ)
    → ((t : ℕ) → day_start t ≡ t / day * day)
    → (warning_days now : ℕ) (u : User)
    → (expires_soon day_start warning_days now u ≡ true) ↔ (
        (u.is_premium ≡ true)
        × (expiry : ℕ) × (u.premium_expires_at ≡ some expiry)
        × (expiry / day ≡ now / day + warning_days))
expires_soon_days_later day_start midnights warning_days now u =
    let from = midnights (now + warning_days * day) in
    let until = midnights (now + (warning_days + 1) * day) in
    elim (Option-cases u.premium_expires_at) [
      | inl never ↦ (
        λ h. absurd (ground (arith, never)),
        λ (premium, expiry, at, same). absurd (ground (arith, never)),
      )
      | inr (expiry, at) ↦ (
        λ h.
            let here : (u.is_premium ≡ true) × (expiry / day ≡ now / day + warning_days) =
              ground (arith, at, from, until, h) in
            (here.0, expiry, at, here.1),
        λ (premium, end, at_end, same).
            let one : expiry ≡ end = some-injective _ _ (sym at ∙ at_end) in
            ground (arith, at, from, until, premium, one, same),
      )
    ]

module _ (add_months : ℕ → ℕ → ℕ) where
  -- The end of the premium time that an upgrade gives.
  abbrev pub premium_end : ℕ → ℕ → User → ℕ
  premium_end now months u = add_months (start_date add_months now u) months

  upgrade_user-downgraded :
      (before now months : ℕ) (u : User)
      → before ≤ now
      → upgrade_user add_months now months (downgraded before u)
        ≡ upgrade_user add_months now months u
  unfolding upgrade_user
  upgrade_user-downgraded before now months u le = elim (Bool-cases (has_expired before u)) [
    | inl over ↦
        let late : start_date add_months now u ≡ now = elim (Option-cases u.premium_expires_at) [
          | inl never ↦ rw never refl
          | inr (expiry, at) ↦ ground (arith, at, over, le)
        ] in
        let late_too : start_date add_months now (record u { is_premium = false }) ≡ now =
          elim (Option-cases u.premium_expires_at) [
            | inl never ↦ rw never refl
            | inr (expiry, at) ↦ rw at refl
          ] in
        rw (upgrade_user, over, late, late_too) refl
    | inr runs ↦ rw runs refl
  ]

  downgraded-upgrade_user :
      (after now months : ℕ) (u : User)
      → let u' = upgrade_user add_months now months u in
        downgraded after u' ≡ record u' { is_premium = not (ltb (premium_end now months u) after) }
  unfolding upgrade_user
  downgraded-upgrade_user after now months u =
      elim (Bool-cases (ltb (premium_end now months u) after)) [
        | inl over ↦ rw over refl
        | inr runs ↦ rw runs refl
      ]

  -- A user who pays is premium until the end of the time that was paid for and no longer: the job
  -- after the payment takes premium away exactly when it runs after that end, and changes nothing
  -- else of the user. A job that ran up to the time of the payment makes no difference to what the
  -- payment gives.
  pub handle_expired_premium_subscriptions-upgrade_user :
      (users : Table ℕ User ◌==◌) (rows : users.Rows) (id : ℕ) (u : User) (now months : ℕ)
      → users.find rows id ≡ some u
      → let job = handle_expired_premium_subscriptions users in
        let u' = upgrade_user add_months now months u in
        ((after : ℕ)
          → users.find (job after (users.save rows id u')) id
            ≡ some (record u' { is_premium = not (ltb (premium_end now months u) after) }))
        × ((before : ℕ)
            → before ≤ now
            → (v : User) → users.find (job before rows) id ≡ some v
            → upgrade_user add_months now months v ≡ u')
  unfolding handle_expired_premium_subscriptions
  handle_expired_premium_subscriptions-upgrade_user users rows id u now months found =
      let u' = upgrade_user add_months now months u in
      let saved : users.find (users.save rows id u') id ≡ some u' =
        ground (arith, (==_iff id id).1 refl, users.find-save rows id id u') in
      (
        λ after.
            let swept = users.find-update_all (users.save rows id u') (λ k. downgraded after) id in
            rw (handle_expired_premium_subscriptions, swept, saved)
              (ap some (downgraded-upgrade_user after now months u)),
        λ before le v there.
            let swept = users.find-update_all rows (λ k. downgraded before) id in
            let reached : users.find (handle_expired_premium_subscriptions users before rows) id
                ≡ some (downgraded before u) =
              rw (handle_expired_premium_subscriptions, swept, found) refl in
            let e = some-injective _ _ (sym reached ∙ there) in
            rw (sym e) (upgrade_user-downgraded before now months u le),
      )
