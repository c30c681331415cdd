-- ===== src/Redis/Locks/Attempts.antt =====
-- What `acquire` gives after its attempts, and `withLock`.
use sfinx_backend.Base.{
  ℕ, zero, suc, ◌+◌, ◌≤◌, ◌<◌, ◌≡◌, refl, Bool, true, false, none, some, inl, inr, arith, ltb, ◌==◌,
  ==_iff, Option-cases, Bool-cases, Result,
}
use sfinx_backend.Base.Table.{Table}
use sfinx_backend.Redis.Locks.{
  LockValue, LockOptions, LockResult, ttl_of, retries_of, delay_of, get_live, acquire_from, acquire,
  release, with_lock, acquired_by,
}

-- How long the waits between that many further attempts take.
abbrev pub waits : ℕ → ℕ → ℕ
waits delay zero = 0
waits delay (suc n) = delay + waits delay n

module _ (keys : Table ℕ LockValue ◌==◌) where
  -- The key holds the identifier for the full time to live from a moment between two times on.
  abbrev pub IsTakenBy : ℕ → ℕ → ℕ → ℕ → ℕ → keys.Rows → Type 0
  IsTakenBy resource id ttl from until s =
      (t : ℕ) × (from ≤ t)
      × (t ≤ until)
      × (keys.find s resource ≡ some (record { holder = id; expires_at = t + ttl }))

  release_own :
      (s : keys.Rows) (resource id now until : ℕ)
      → keys.find s resource ≡ some (record { holder = id; expires_at = until })
      → now < until
      → (release keys resource id now s).1 ≡ keys.delete s resource
  unfolding release
  release_own s resource id now until row lt = ground (arith, row, (==_iff id id).1 refl)

  release_other :
      (s : keys.Rows) (resource id now : ℕ) (w : LockValue)
      → keys.find s resource ≡ some w
      → (w.holder == id) ≡ false
      → (release keys resource id now s).1 ≡ s
  unfolding release
  release_other s resource id now w row other = elim (Bool-cases (ltb now w.expires_at)) [
    | inl live ↦ ground (arith, row, other, live)
    | inr gone ↦ ground (arith, row, gone)
  ]

  -- A key that is free is taken by the first attempt.
  pub acquire_free :
      (options : LockOptions) (resource id now : ℕ) (s : keys.Rows)
      → keys.find s resource ≡ none
      → acquire keys (λ a t. t) (λ a. false) options resource id now s ≡ (
        acquired_by id,
        keys.save s resource (record { holder = id; expires_at = now + ttl_of options }),
      )
  unfolding acquire
  acquire_free options resource id now s free =
      first (ttl_of options) (delay_of options) (retries_of options)
    where
      first :
          (ttl delay left : ℕ)
          → acquire_from keys (λ a t. t) (λ a. false) resource id ttl delay left 0 now s ≡ (
            acquired_by id,
            keys.save s resource (record { holder = id; expires_at = now + ttl }),
          )
      first ttl delay zero = rw (free, acquire_from) refl
      first ttl delay (suc left) = rw (free, acquire_from) refl

  module _ (others : ℕ → keys.Rows → keys.Rows) (down : ℕ → Bool) (resource id ttl delay : ℕ) where
    taken_now :
        (now wait : ℕ) (s s' : keys.Rows)
        → keys.save s resource (record { holder = id; expires_at = now + ttl }) ≡ s'
        → IsTakenBy resource id ttl now (now + wait) s'
    taken_now now wait s s' e =
        let self = (==_iff resource resource).1 refl in
        let saved =
          keys.find-save s resource resource (record { holder = id; expires_at = now + ttl }) in
        (now, omega arith, omega arith, ground (arith, e, self, saved))

    acquire_from_won :
        (left attempt now : ℕ) (s s' : keys.Rows) (r : LockResult)
        → acquire_from keys others down resource id ttl delay left attempt now s ≡ (r, s')
        → r.acquired ≡ true
        → (r ≡ acquired_by id) × IsTakenBy resource id ttl now (now + waits delay left) s'
    unfolding acquire_from
    acquire_from_won zero attempt now s s' r e won = elim (Bool-cases (down attempt)) [
      | inl failed ↦ absurd (ground (arith, failed))
      | inr up ↦ elim (Option-cases (get_live keys s now resource)) [
        | inr (v, live) ↦ absurd (ground (arith, up, live))
        | inl free ↦ (ground (arith, up, free), taken_now now 0 s s' (ground (arith, up, free)))
      ]
    ]
    acquire_from_won (suc left) attempt now s s' r e won = elim (Bool-cases (down attempt)) [
      | inl failed ↦
          let (same, (t, lo, hi, row)) =
            acquire_from_won left (suc attempt) now (others attempt s) s' r (ground (arith, failed))
              won in
          (same, (t, lo, omega arith, row))
      | inr up ↦ elim (Option-cases (get_live keys s now resource)) [
        | inr (v, live) ↦
            let (same, (t, lo, hi, row)) =
              acquire_from_won left (suc attempt) (now + delay) (others attempt s) s' r
                (ground (arith, up, live)) won in
            (same, (t, omega arith, omega arith, row))
        | inl free ↦ (
          ground (arith, up, free),
          taken_now now (waits delay (suc left)) s s' (ground (arith, up, free)),
        )
      ]
    ]

  module _ (others : ℕ → keys.Rows → keys.Rows) (down : ℕ → Bool) (options : LockOptions)
      (resource id now : ℕ) where
    -- Whatever others do between the attempts and whichever attempts throw, an `acquire` that says
    -- it succeeded leaves its own identifier under the key, for the full time to live from one of
    -- its attempts.
    pub acquire-IsTakenBy :
        (s s' : keys.Rows) (r : LockResult)
        → acquire keys others down options resource id now s ≡ (r, s')
        → r.acquired ≡ true
        → (r ≡ acquired_by id)
          × IsTakenBy resource id
              (ttl_of options)
              now
              (now + waits (delay_of options) (retries_of options))
              s'
    unfolding acquire
    acquire-IsTakenBy s s' r e won =
        acquire_from_won others down resource id (ttl_of options) (delay_of options)
          (retries_of options) 0 now s s' r e won

    -- `withLock`, when it got the lock and its release reaches Redis: the answer is the function's
    -- own, error or not, and afterwards the key is free if the function settled before the time to
    -- live passed since the call and left the key alone, while a key that has another holder by
    -- then is left to it.
    pub with_lock_releases :
        {A : Type 0} (fn : keys.Rows → Result A × keys.Rows) (after : ℕ) (s : keys.Rows)
        → (acquire keys others down options resource id now s).0.acquired ≡ true
        → let taken = (acquire keys others down options resource id now s).1 in
          let ended = with_lock keys others down options resource id now after fn s in
          (ended.0 ≡ (fn taken).0)
          × (keys.find (fn taken).1 resource ≡ keys.find taken resource
              → after < now + ttl_of options
              → keys.find ended.1 resource ≡ none)
          × ((w : LockValue)
              → keys.find (fn taken).1 resource ≡ some w
              → (w.holder == id) ≡ false
              → ended.1 ≡ (fn taken).1)
    unfolding with_lock
    with_lock_releases fn after s won =
        let taken = (acquire keys others down options resource id now s).1 in
        let r = (acquire keys others down options resource id now s).0 in
        let (same, (t, lo, hi, row)) = acquire-IsTakenBy s taken r refl won in
        (
          ground (arith, won),
          λ kept lt. ground (
            arith,
            won,
            release_own (fn taken).1 resource id after (t + ttl_of options)
                (ground (arith, kept, row)) (omega arith),
            (==_iff resource resource).1 refl,
            keys.find-delete (fn taken).1 resource resource,
          ),
          λ w held other.
              ground (arith, won, release_other (fn taken).1 resource id after w held other),
        )
