-- ===== src/Payments/Upgrades.antt =====
-- What callbacks do to the user of a transaction.
use sfinx_backend.Base.{
  ℕ, ◌&&◌, ◌≡◌, ◌≤◌, ◌<◌, refl, inl, inr, true, false, Option, none, some, List, [], ◌∷◌, arith,
  ltb, ◌==◌, ==_iff, if◌then◌else◌, Bool-cases, Option-cases,
}
use sfinx_backend.Base.Lists.{All}
use sfinx_backend.Base.Table.{Table}
use sfinx_backend.Payments.{
  PaymentTransaction, User, Callback, paid, payment_failed, already_processed, is_success, failed,
  paid_transaction, upgrade_user, Db, settle, handle_payment_callback,
}

module _ (add_months : ℕ → ℕ → ℕ) where
  -- An upgrade makes the user premium until months after now, or after the end of a premium time
  -- that is still running, so it never shortens it, and keeps the start of an earlier one. The
  -- hypothesis: months later is not earlier.
  pub upgrade_user_extends :
      ((date months : ℕ) → date ≤ add_months date months)
      → (now months : ℕ) (u : User)
      → let u' = upgrade_user add_months now months u in
        (u'.is_premium ≡ true)
        × ((expiry : ℕ) × (u'.premium_expires_at ≡ some expiry)
            × (now ≤ expiry)
            × ((old : ℕ)
                → u.is_premium ≡ true
                → u.premium_expires_at ≡ some old
                → (old ≤ expiry) × (now < old → expiry ≡ add_months old months)))
        × ((start : ℕ) → u.premium_started_at ≡ some start → u'.premium_started_at ≡ some start)
  unfolding upgrade_user
  upgrade_user_extends later now months u = elim (Option-cases u.premium_expires_at) [
    | inl never ↦ (
      refl,
      (
        add_months now months,
        ground (arith, never),
        later now months,
        λ old premium until. absurd (ground (arith, never, until)),
      ),
      λ start h. ground (arith, h),
    )
    | inr (expiry, until) ↦ elim (Bool-cases (u.is_premium && ltb now expiry)) [
      | inl runs ↦ (
        refl,
        (
          add_months expiry months,
          rw (until, runs) refl,
          ground (arith, runs, later expiry months),
          λ old premium h.
              (ground (arith, h, until, later expiry months), λ lt. ground (arith, h, until)),
        ),
        λ start h. ground (arith, h),
      )
      | inr over ↦ (
        refl,
        (
          add_months now months,
          rw (until, over) refl,
          later now months,
          λ old premium h. (
            ground (arith, h, until, over, premium, later now months),
            λ lt. absurd (ground (arith, h, until, over, premium, lt)),
          ),
        ),
        λ start h. ground (arith, h),
      )
    ]
  ]

  module _ (transactions : Table ℕ PaymentTransaction ◌==◌) (users : Table ℕ User ◌==◌) where
    unfoldable pub after_callbacks :
        List Callback → Db add_months transactions users → Db add_months transactions users
    unfolding handle_payment_callback
    after_callbacks [] db = db
    after_callbacks (c ∷ cs) db =
        after_callbacks cs (handle_payment_callback add_months transactions users c db).1

    -- The first successful callback of a list.
    abbrev pub first_success : List Callback → Option Callback
    first_success [] = none
    first_success (c ∷ cs) = if c.succeeded then some c else first_success cs

    -- The user after the callbacks of a transaction for a plan.
    abbrev pub paid_user : ℕ → User → List Callback → User
    unfolding upgrade_user
    paid_user plan u cs = elim (first_success cs) [
      | none ↦ u
      | some c ↦ upgrade_user add_months c.now (c.plan_months plan) u
    ]

    abbrev St : Type 0
    St = Db add_months transactions users

    callback_done :
        (c : Callback) (id : ℕ) (t : PaymentTransaction) (db : St)
        → c.transaction_id ≡ some id
        → transactions.find db.transaction_rows id ≡ some t
        → is_success t.status ≡ true
        → handle_payment_callback add_months transactions users c db ≡ (already_processed, db)
    unfolding handle_payment_callback
    callback_done c id t db name found done = rw (handle_payment_callback, name, found, done) refl

    callback_settles :
        (c : Callback) (id : ℕ) (t : PaymentTransaction) (db : St)
        → c.transaction_id ≡ some id
        → transactions.find db.transaction_rows id ≡ some t
        → is_success t.status ≡ false
        → handle_payment_callback add_months transactions users c db
          ≡ settle add_months transactions users c id t db
    unfolding handle_payment_callback
    callback_settles c id t db name found open_yet =
        rw (handle_payment_callback, name, found, open_yet) refl

    -- The tables after a callback that succeeds, or fails, for such a transaction.
    abbrev paid_db : Callback → ℕ → PaymentTransaction → User → St → St
    paid_db c id t u db = record {
      transaction_rows = transactions.save db.transaction_rows id (paid_transaction c t);
      user_rows =
          users.save db.user_rows t.user_id
            (upgrade_user add_months c.now (c.plan_months t.plan_id) u);
    }

    abbrev failed_db : ℕ → PaymentTransaction → St → St
    failed_db id t db = record db {
      transaction_rows = transactions.save db.transaction_rows id (record t { status = failed });
    }

    callback_pays :
        (c : Callback) (id : ℕ) (t : PaymentTransaction) (u : User) (db : St)
        → c.succeeded ≡ true
        → users.find db.user_rows t.user_id ≡ some u
        → settle add_months transactions users c id t db ≡ (paid, paid_db c id t u db)
    unfolding settle
    callback_pays c id t u db works user = rw (settle, works, user) refl

    callback_fails :
        (c : Callback) (id : ℕ) (t : PaymentTransaction) (db : St)
        → c.succeeded ≡ false
        → settle add_months transactions users c id t db ≡ (payment_failed, failed_db id t db)
    unfolding settle
    callback_fails c id t db fails = rw (settle, fails) refl

    saved_row :
        (s : transactions.Rows) (id : ℕ) (t : PaymentTransaction)
        → transactions.find (transactions.save s id t) id ≡ some t
    saved_row s id t = ground (arith, (==_iff id id).1 refl, transactions.find-save s id id t)

    settled_callbacks :
        (cs : List Callback) (id : ℕ) (t : PaymentTransaction) (db : St)
        → All (λ c. c.transaction_id ≡ some id) cs
        → transactions.find db.transaction_rows id ≡ some t
        → is_success t.status ≡ true
        → after_callbacks cs db ≡ db
    unfolding after_callbacks
    settled_callbacks [] id t db named found done = refl
    settled_callbacks (c ∷ cs) id t db (name, named) found done =
        let same = callback_done c id t db name found done in
        rw same (settled_callbacks cs id t db named found done)

    -- Whatever callbacks come for a transaction that has not succeeded yet, failures before
    -- successes and repeated ones included: its user is upgraded exactly once, at the first
    -- success and by the months that the plan then has, or not at all if there is none.
    pub after_callbacks_upgrade :
        (cs : List Callback) (id : ℕ) (t : PaymentTransaction) (u : User) (db : St)
        → All (λ c. c.transaction_id ≡ some id) cs
        → transactions.find db.transaction_rows id ≡ some t
        → is_success t.status ≡ false
        → users.find db.user_rows t.user_id ≡ some u
        → users.find (after_callbacks cs db).user_rows t.user_id ≡ some (paid_user t.plan_id u cs)
    unfolding after_callbacks
    after_callbacks_upgrade [] id t u db named found open_yet user = user
    after_callbacks_upgrade (c ∷ cs) id t u db (name, named) found open_yet user =
        elim (Bool-cases c.succeeded) [
          | inl works ↦
              let step = callback_settles c id t db name found open_yet in
              let pay = callback_pays c id t u db works user in
              let row = saved_row db.transaction_rows id (paid_transaction c t) in
              let still =
                settled_callbacks cs id (paid_transaction c t) (paid_db c id t u db) named row
                  refl in
              let upgraded = upgrade_user add_months c.now (c.plan_months t.plan_id) u in
              rw (after_callbacks, step, pay, still, works)
                (ground (
                  arith,
                  (==_iff t.user_id t.user_id).1 refl,
                  users.find-save db.user_rows t.user_id t.user_id upgraded,
                ))
          | inr fails ↦
              let step = callback_settles c id t db name found open_yet in
              let fail = callback_fails c id t db fails in
              let row = saved_row db.transaction_rows id (record t { status = failed }) in
              let rest =
                after_callbacks_upgrade cs id (record t { status = failed }) u (failed_db id t db)
                  named row refl user in
              rw (after_callbacks, step, fail, fails) rest
        ]
