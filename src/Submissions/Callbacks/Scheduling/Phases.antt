-- ===== src/Submissions/Callbacks/Scheduling/Phases.antt =====
-- One submission's tracking before and after its finalize job is scheduled, and what storing a result
-- and trying to schedule do to it.
use sfinx_backend.Base.{
  ℕ, ◌+◌, ◌≡◌, ◌≤◌, ◌<◌, ◌⊎◌, refl, inl, inr, Bool, true, false, none, some, [], ◌∷◌, arith, leb,
  ◌==◌, or_else, if◌then◌else◌, Bool-cases,
}
use sfinx_backend.Base.Table.{Table}
use sfinx_backend.Redis.Locks.{LockValue, acquire}
use sfinx_backend.Submissions.Callbacks.{
  Callback, FinalizeJob, Tracking, finalize_lock, is_gone, store_result, try_schedule_finalize,
}
use sfinx_backend.Redis.Locks.Faults.{acquire_first, acquire_takes, acquire_keeps}

-- The callbacks come in the ten minutes after a time, the last attempts at the lock included.
abbrev pub ComesBefore : {P : Type 0} → ℕ → Callback P → Type 0
ComesBefore start c = (start ≤ c.now) × (c.now + 300 < start + 600_000)

-- Its first attempt at the lock reaches Redis, and the queue takes what is added.
abbrev pub Works : {P : Type 0} → Callback P → Type 0
Works c = (c.lock_down 0 ≡ false) × (c.queue_fails ≡ false)

module _ {P : Type 0} (results : Table ℕ P ◌==◌) (seen : Table ℕ (Unit {0}) ◌==◌)
    (locks : Table ℕ LockValue ◌==◌) where
  abbrev pub St : Type 0
  St = Tracking results seen locks

  module _ (submission : ℕ) (is_submit : Bool) (expected start : ℕ) where
    abbrev pub job : FinalizeJob
    job = record { submission_id = submission; is_submit = is_submit }

    -- Whether the callbacks are known to work, and what is known then of a state in which nothing
    -- is scheduled: if they do, it is before the last result, and the lock is free.
    abbrev pub WorksIf : Bool → Callback P → Type 0
    WorksIf true c = Works c
    WorksIf false c = Unit

    abbrev pub Waits : Bool → St → Type 0
    Waits true s =
        (s.finalize_queue ≡ [])
        × (or_else s.meta.received 0 < expected)
        × (locks.find s.lock_keys submission ≡ none)
    Waits false s = s.finalize_queue ≡ []

    -- The lock is held since the last result came.
    abbrev pub IsScheduled : St → Type 0
    IsScheduled s =
        (s.finalize_queue ≡ job ∷ [])
        × (expected ≤ or_else s.meta.received 0)
        × ((v : LockValue) × (locks.find s.lock_keys submission ≡ some v)
            × (start + 600_000 ≤ v.expires_at))

    -- The metadata is there for the hour, and counts the tokens.
    abbrev pub IsTracked : St → Type 0
    IsTracked s =
        (s.meta.total ≡ some expected)
        × (s.meta_expires_at ≡ some (start + 3_600_000))
        × (or_else s.meta.received 0 ≡ seen.count s.seen_tokens (λ k v. true))

    abbrev pub Invariant : Bool → St → Type 0
    Invariant reliable s = IsTracked s × (Waits reliable s ⊎ IsScheduled s)

    schedule_first :
        (reliable : Bool) (c : Callback P) (s : St)
        → ComesBefore start c
        → WorksIf reliable c
        → s.finalize_queue ≡ []
        → expected ≤ or_else s.meta.received 0
        → (reliable ≡ true → locks.find s.lock_keys submission ≡ none)
        → let s' = (try_schedule_finalize results seen locks submission is_submit c s).1 in
          Waits reliable s' ⊎ IsScheduled s'
    unfolding try_schedule_finalize
    schedule_first true c s (lo, hi) (up, adds) empty full free =
        let got =
          acquire_first locks c.lock_down finalize_lock submission c.lock_id c.now s.lock_keys up
            (free refl) in
        let took =
          acquire_takes locks c.lock_down finalize_lock submission c.lock_id c.now s.lock_keys
            got in
        let (v, held, long) = took in
        rw (got, adds) (inr (rw empty refl, full, (v, held, omega (arith, long))))
    schedule_first false c s (lo, hi) anything empty full free =
        elim (Bool-cases
          (acquire locks (λ a t. t) c.lock_down finalize_lock submission c.lock_id c.now
            s.lock_keys).0.acquired) [
              | inr lost ↦ rw lost (inl empty)
              | inl got ↦ elim (Bool-cases c.queue_fails) [
                | inl fails ↦ rw (got, fails) (inl empty)
                | inr adds ↦
                    let (v, held, long) =
                      acquire_takes locks c.lock_down finalize_lock submission c.lock_id c.now
                        s.lock_keys got in
                    rw (got, adds) (inr (rw empty refl, full, (v, held, omega (arith, long))))
              ]
            ]

    schedule_again :
        (c : Callback P) (s : St)
        → ComesBefore start c
        → IsScheduled s
        → IsScheduled (try_schedule_finalize results seen locks submission is_submit c s).1
    unfolding try_schedule_finalize
    schedule_again c s (lo, hi) (once, full, (v, held, long)) =
        let late : c.now + 300 < v.expires_at = omega arith in
        let kept =
          acquire_keeps locks c.lock_down finalize_lock submission c.lock_id c.now v s.lock_keys
            held (ground (arith, late)) in
        rw kept (once, full, (v, held, long))

    try_schedule_finalize-IsTracked :
        (c : Callback P) (s : St)
        → IsTracked s
        → IsTracked (try_schedule_finalize results seen locks submission is_submit c s).1
    unfolding try_schedule_finalize
    try_schedule_finalize-IsTracked c s tracked =
        elim (Bool-cases
          (acquire locks (λ a t. t) c.lock_down finalize_lock submission c.lock_id c.now
            s.lock_keys).0.acquired) [
              | inr lost ↦ rw lost tracked
              | inl got ↦ elim (Bool-cases c.queue_fails) [
                | inl fails ↦ rw (got, fails) tracked
                | inr adds ↦ rw (got, adds) tracked
              ]
            ]

    -- In the hour, the metadata is what was stored.
    pub is_live :
        (c : Callback P) (s : St)
        → ComesBefore start c
        → IsTracked s
        → is_gone c.now s.meta_expires_at ≡ false
    is_live c s (lo, hi) (total, expiry, counted) = rw expiry (ground arith)

    store_result-IsTracked :
        (c : Callback P) (s : St)
        → ComesBefore start c
        → seen.find s.seen_tokens c.token ≡ none
        → IsTracked s
        → IsTracked (store_result results seen locks c s)
          × (or_else (store_result results seen locks c s).meta.received 0
              ≡ or_else s.meta.received 0 + 1)
    store_result-IsTracked c s soon new tracked =
        let live = is_live c s soon tracked in
        let (total, expiry, counted) = tracked in
        let saved = seen.count-save s.seen_tokens c.token tt (λ k v. true) in
        rw live ((total, expiry, ground (arith, counted, new, saved)), refl)

    -- The state after a callback with a new token.
    pub stored-Invariant :
        (reliable : Bool) (c : Callback P) (s : St)
        → ComesBefore start c
        → WorksIf reliable c
        → seen.find s.seen_tokens c.token ≡ none
        → Invariant reliable s
        → Invariant reliable (
            if leb (or_else s.meta.total 0) (or_else s.meta.received 0 + 1)
            then (try_schedule_finalize results seen locks submission is_submit c
                (store_result results seen locks c s)).1
            else store_result results seen locks c s)
    stored-Invariant reliable c s soon works new (tracked, phase) =
        let (tracked', more) = store_result-IsTracked c s soon new tracked in
        let next = store_result results seen locks c s in
        elim (Bool-cases (leb (or_else s.meta.total 0) (or_else s.meta.received 0 + 1))) [
          | inr early ↦ rw early (
            tracked',
            elim phase [
              | inl open_yet ↦ inl (still_waits reliable c s more tracked early open_yet)
              | inr (once, full, held) ↦ absurd (ground (arith, tracked.0, early, full))
            ],
          )
          | inl enough ↦
              let now_full : expected ≤ or_else next.meta.received 0 =
                ground (arith, tracked.0, enough, more) in
              rw enough (
                try_schedule_finalize-IsTracked c next tracked',
                elim phase [
                  | inl open_yet ↦
                      schedule_first reliable c next soon works (nothing reliable s open_yet)
                        now_full (λ r. lock_free reliable s r open_yet)
                  | inr (once, full, held) ↦ inr (schedule_again c next soon (once, now_full, held))
                ],
              )
        ]
      where
        nothing : (reliable : Bool) (s : St) → Waits reliable s → s.finalize_queue ≡ []
        nothing true s (empty, few, free) = empty
        nothing false s empty = empty

        lock_free :
            (reliable : Bool) (s : St)
            → reliable ≡ true
            → Waits reliable s
            → locks.find s.lock_keys submission ≡ none
        lock_free true s r (empty, few, free) = free
        lock_free false s r empty = absurd (ground (arith, r))

        still_waits :
            (reliable : Bool) (c : Callback P) (s : St)
            → or_else (store_result results seen locks c s).meta.received 0
              ≡ or_else s.meta.received 0 + 1
            → IsTracked s
            → leb (or_else s.meta.total 0) (or_else s.meta.received 0 + 1) ≡ false
            → Waits reliable s
            → Waits reliable (store_result results seen locks c s)
        still_waits true c s more (total, expiry, counted) early (empty, few, free) =
            (empty, ground (arith, total, early, more), free)
        still_waits false c s more tracked early empty = empty
