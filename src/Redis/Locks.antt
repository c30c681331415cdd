-- ===== src/Redis/Locks.antt =====
-- src/modules/redis/services/lock.service.ts. Redis is a table from resources to values with an
-- expiry time; a value whose time has come is gone.
pub mod Attempts
pub mod Faults
pub mod Exclusion
mod Tests
use sfinx_backend.Base.{
  ℕ, zero, suc, ◌+◌, Bool, true, false, Option, none, some, Result, throws, internal_error, ltb,
  ◌==◌, if◌then◌else◌,
}
use sfinx_backend.Base.Table.{Table}

-- What the key of a lock holds; times are in milliseconds.
pub record LockValue : Type 0 where
  pub holder : ℕ
  pub expires_at : ℕ

pub record LockOptions : Type 0 where
  pub ttl : Option ℕ
  pub retry_count : Option ℕ
  pub retry_delay : Option ℕ

pub record LockResult : Type 0 where
  pub acquired : Bool
  pub identifier : Option ℕ

-- `option || default`: 0 is as good as absent.
abbrev pub or_default : Option ℕ → ℕ → ℕ
or_default none d = d
or_default (some n) d = if n == 0 then d else n

abbrev pub ttl_of : LockOptions → ℕ
ttl_of o = or_default o.ttl 10_000

abbrev pub retries_of : LockOptions → ℕ
retries_of o = or_default o.retry_count 3

abbrev pub delay_of : LockOptions → ℕ
delay_of o = or_default o.retry_delay 100

abbrev pub not_acquired : LockResult
not_acquired = record { acquired = false; identifier = none }

abbrev pub acquired_by : ℕ → LockResult
acquired_by id = record { acquired = true; identifier = some id }

module _ (keys : Table ℕ LockValue ◌==◌) where
  -- `GET key` at a time
  abbrev pub get_live : keys.Rows → ℕ → ℕ → Option LockValue
  get_live s now resource = elim (keys.find s resource) [
    | none ↦ none
    | some v ↦ if ltb now v.expires_at then some v else none
  ]

  -- The attempts from one on: `left` more may follow it, `others` is what the rest of the world
  -- does to Redis after an attempt that failed, and `down` are the attempts that throw, which are
  -- not followed by a wait.
  unfoldable pub acquire_from :
      (ℕ → keys.Rows → keys.Rows)
      → (ℕ → Bool)
      → ℕ
      → ℕ
      → ℕ
      → ℕ
      → ℕ
      → ℕ
      → ℕ
      → keys.Rows
      → LockResult × keys.Rows
  acquire_from others down resource id ttl delay zero attempt now s = elim (down attempt) [
    | true ↦ (not_acquired, s)
    | false ↦ elim (get_live s now resource) [
      | none ↦
          (acquired_by id, keys.save s resource (record { holder = id; expires_at = now + ttl }))
      | some v ↦ (not_acquired, s)
    ]
  ]
  acquire_from others down resource id ttl delay (suc left) attempt now s = elim (down attempt) [
    | true ↦
        acquire_from others down resource id ttl delay left (suc attempt) now (others attempt s)
    | false ↦ elim (get_live s now resource) [
      | none ↦
          (acquired_by id, keys.save s resource (record { holder = id; expires_at = now + ttl }))
      | some v ↦
          acquire_from others down resource id ttl delay left (suc attempt) (now + delay)
            (others attempt s)
    ]
  ]

  unfoldable pub acquire :
      (ℕ → keys.Rows → keys.Rows)
      → (ℕ → Bool)
      → LockOptions
      → ℕ
      → ℕ
      → ℕ
      → keys.Rows
      → LockResult × keys.Rows
  unfolding acquire_from
  acquire others down options resource id now s =
      acquire_from others down resource id (ttl_of options) (delay_of options) (retries_of options)
        0 now s

  -- The script compares the value and deletes the key in one step. If Redis fails, the method
  -- answers false instead; that is left out.
  unfoldable pub release : ℕ → ℕ → ℕ → keys.Rows → Bool × keys.Rows
  release resource id now s = elim (get_live s now resource) [
    | none ↦ (false, s)
    | some v ↦ if v.holder == id then (true, keys.delete s resource) else (false, s)
  ]

  unfoldable pub extend : ℕ → ℕ → ℕ → ℕ → keys.Rows → Bool × keys.Rows
  extend resource id ttl now s = elim (get_live s now resource) [
    | none ↦ (false, s)
    | some v ↦
        if v.holder == id
        then (true, keys.save s resource (record v { expires_at = now + ttl }))
        else (false, s)
  ]

  unfoldable pub is_locked : ℕ → ℕ → keys.Rows → Bool
  is_locked resource now s = elim (get_live s now resource) [ none ↦ false | some v ↦ true ]

  -- `fn` runs on the store that the lock leaves; `after` is the time at which it has settled, and
  -- the `finally` block releases the lock whatever it answered.
  unfoldable pub with_lock :
      {A : Type 0}
      → (ℕ → keys.Rows → keys.Rows)
      → (ℕ → Bool)
      → LockOptions
      → ℕ
      → ℕ
      → ℕ
      → ℕ
      → (keys.Rows → Result A × keys.Rows)
      → keys.Rows
      → Result A × keys.Rows
  unfolding acquire release
  with_lock others down options resource id now after fn s =
      let (lock, locked) = acquire others down options resource id now s in
      elim lock.acquired [
        | false ↦ (throws internal_error, locked)
        | true ↦ let (answer, done) = fn locked in (answer, (release resource id after done).1)
      ]
