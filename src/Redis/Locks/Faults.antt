-- ===== src/Redis/Locks/Faults.antt =====
-- What `acquire` gives while some attempts throw and nobody else touches Redis.
use sfinx_backend.Base.{
  ℕ, zero, suc, ◌+◌, ◌≤◌, ◌<◌, ◌≡◌, refl, Bool, true, false, none, some, inl, inr, arith, ◌==◌,
  ==_iff, Option-cases, Bool-cases,
}
use sfinx_backend.Base.Table.{Table}
use sfinx_backend.Redis.Locks.{
  LockValue, LockOptions, ttl_of, retries_of, delay_of, get_live, acquire_from, acquire,
  not_acquired,
}
use sfinx_backend.Redis.Locks.Attempts.{waits}

module _ (keys : Table ℕ LockValue ◌==◌) where
  -- A first attempt that reaches it takes a key that is free.
  pub acquire_first :
      (down : ℕ → Bool) (options : LockOptions) (resource id now : ℕ) (s : keys.Rows)
      → down 0 ≡ false
      → keys.find s resource ≡ none
      → (acquire keys (λ a t. t) down options resource id now s).0.acquired ≡ true
  unfolding acquire
  acquire_first down options resource id now s up free =
      first (ttl_of options) (delay_of options) (retries_of options)
    where
      first :
          (ttl delay left : ℕ)
          → (acquire_from keys (λ a t. t) down resource id ttl delay left 0 now s).0.acquired ≡ true
      first ttl delay zero = rw (up, free, acquire_from) refl
      first ttl delay (suc left) = rw (up, free, acquire_from) refl

  -- Whatever attempts throw, a lock that is acquired is held for its time to live at least.
  acquire_from_takes :
      (down : ℕ → Bool) (resource id ttl delay left attempt now : ℕ) (s : keys.Rows)
      → (acquire_from keys (λ a t. t) down resource id ttl delay left attempt now s).0.acquired
        ≡ true
      → (v : LockValue) × (keys.find
            (acquire_from keys (λ a t. t) down resource id ttl delay left attempt now s).1
            resource
          ≡ some v)
        × (now + ttl ≤ v.expires_at)
  unfolding acquire_from
  acquire_from_takes down resource id ttl delay zero attempt now s h =
      let row =
        keys.find-save s resource resource (record { holder = id; expires_at = now + ttl }) in
      let self = (==_iff resource resource).1 refl in
      elim (Bool-cases (down attempt)) [
        | inl fails ↦ absurd (ground (arith, h, fails))
        | inr up ↦ elim (Option-cases (get_live keys s now resource)) [
          | inr (w, live) ↦ absurd (ground (arith, h, up, live))
          | inl free ↦
              rw (acquire_from, up, free)
                (
                  record { holder = id; expires_at = now + ttl },
                  ground (arith, row, self),
                  omega arith,
                )
        ]
      ]
  acquire_from_takes down resource id ttl delay (suc left) attempt now s h =
      let row =
        keys.find-save s resource resource (record { holder = id; expires_at = now + ttl }) in
      let self = (==_iff resource resource).1 refl in
      elim (Bool-cases (down attempt)) [
        | inl fails ↦
            rw (acquire_from, fails)
              (acquire_from_takes down resource id ttl delay left (suc attempt) now s
                (rw (acquire_from, fails) at h))
        | inr up ↦ elim (Option-cases (get_live keys s now resource)) [
          | inr (w, live) ↦
              let (v, held, long) =
                acquire_from_takes down resource id ttl delay left (suc attempt) (now + delay) s
                  (rw (acquire_from, up, live) at h) in
              rw (acquire_from, up, live) (v, held, omega (arith, long))
          | inl free ↦
              rw (acquire_from, up, free)
                (
                  record { holder = id; expires_at = now + ttl },
                  ground (arith, row, self),
                  omega arith,
                )
        ]
      ]

  pub acquire_takes :
      (down : ℕ → Bool) (options : LockOptions) (resource id now : ℕ) (s : keys.Rows)
      → (acquire keys (λ a t. t) down options resource id now s).0.acquired ≡ true
      → (v : LockValue) × (keys.find
            (acquire keys (λ a t. t) down options resource id now s).1
            resource
          ≡ some v)
        × (now + ttl_of options ≤ v.expires_at)
  unfolding acquire
  acquire_takes down options resource id now s h =
      acquire_from_takes down resource id (ttl_of options) (delay_of options) (retries_of options) 0
        now s h

  -- A lock that outlasts all attempts is not acquired, and nothing is written.
  acquire_from_kept :
      (down : ℕ → Bool) (resource id ttl delay left attempt now : ℕ) (v : LockValue) (s : keys.Rows)
      → keys.find s resource ≡ some v
      → now + waits delay left < v.expires_at
      → acquire_from keys (λ a t. t) down resource id ttl delay left attempt now s
        ≡ (not_acquired, s)
  unfolding acquire_from
  acquire_from_kept down resource id ttl delay zero attempt now v s held long =
      let live : get_live keys s now resource ≡ some v = ground (arith, held, long) in
      elim (Bool-cases (down attempt)) [
        | inl fails ↦ rw (acquire_from, fails) refl
        | inr up ↦ rw (acquire_from, up, live) refl
      ]
  acquire_from_kept down resource id ttl delay (suc left) attempt now v s held long =
      let live : get_live keys s now resource ≡ some v = ground (arith, held, long) in
      elim (Bool-cases (down attempt)) [
        | inl fails ↦
            rw (acquire_from, fails)
              (acquire_from_kept down resource id ttl delay left (suc attempt) now v s held
                (omega (arith, long)))
        | inr up ↦
            rw (acquire_from, up, live)
              (acquire_from_kept down resource id ttl delay left (suc attempt) (now + delay) v s
                held (omega (arith, long)))
      ]

  pub acquire_keeps :
      (down : ℕ → Bool) (options : LockOptions) (resource id now : ℕ) (v : LockValue)
      (s : keys.Rows)
      → keys.find s resource ≡ some v
      → now + waits (delay_of options) (retries_of options) < v.expires_at
      → acquire keys (λ a t. t) down options resource id now s ≡ (not_acquired, s)
  unfolding acquire
  acquire_keeps down options resource id now v s held long =
      acquire_from_kept down resource id (ttl_of options) (delay_of options) (retries_of options) 0
        now v s held long
