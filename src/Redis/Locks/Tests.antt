-- ===== src/Redis/Locks/Tests.antt =====
-- Locks on a list of keys: the theorems at concrete inputs.
use sfinx_backend.Base.{
  ℕ, ◌+◌, ◌<◌, ◌≡◌, refl, Bool, true, false, none, some, [], ◌∷◌, arith, ok, ◌==◌, Result,
}
use sfinx_backend.Base.Table.{Table, number_table}
use sfinx_backend.Redis.Locks.{LockValue, LockOptions, acquire, with_lock, ttl_of, not_acquired}
use sfinx_backend.Redis.Locks.Attempts.{with_lock_releases}
use sfinx_backend.Redis.Locks.Exclusion.{releasing, calls_after, acquire_excludes}

abbrev keys : Table ℕ LockValue ◌==◌
keys = number_table LockValue

abbrev defaults : LockOptions
defaults = record { ttl = none; retry_count = none; retry_delay = none }

abbrev held : LockValue
held = record { holder = 7; expires_at = 150 }

-- Resource 1 is held by caller 7 until 150.
abbrev store : keys.Rows
unfolding number_table
store = ((1, held) ∷ [], (refl, tt))

abbrev others : ℕ → keys.Rows → keys.Rows
others attempt s = s

abbrev down : ℕ → Bool
down attempt = attempt == 1

-- The work under the lock answers 5, and 300 is before the lock's expiry.
abbrev work : keys.Rows → Result ℕ × keys.Rows
work s = (ok 5, s)

-- Caller 9 asks at 40; its second attempt throws, its third, at 140, finds the key taken, and its
-- last one at 240 is in time.
caller_9_wins : (acquire keys others down defaults 1 9 40 store).0.acquired ≡ true
unfolding acquire number_table
caller_9_wins = refl

with_lock_releases_example :
    let taken = (acquire keys others down defaults 1 9 40 store).1 in
    let ended = with_lock keys others down defaults 1 9 40 300 work store in
    (ended.0 ≡ (work taken).0)
    × (keys.find (work taken).1 1 ≡ keys.find taken 1
        → 300 < 40 + ttl_of defaults
        → keys.find ended.1 1 ≡ none)
    × ((w : LockValue)
        → keys.find (work taken).1 1 ≡ some w
        → (w.holder == 9) ≡ false
        → ended.1 ≡ (work taken).1)
with_lock_releases_example =
    with_lock_releases keys others down defaults 1 9 40 work 300 store caller_9_wins

-- A release by another caller does not free the lock for a third, who gives up at 101.
abbrev one_try : LockOptions
one_try = record { ttl = none; retry_count = some 1; retry_delay = some 1 }

store_row : keys.find store 1 ≡ some held
unfolding number_table
store_row = refl

acquire_excludes_example :
    (keys.find (calls_after keys store (releasing 1 9 60 ∷ [])) 1 ≡ some held)
    × ((acquire keys
          (λ a t. t)
          (λ a. false)
          one_try
          1
          11
          100
          (calls_after keys store (releasing 1 9 60 ∷ []))).0
        ≡ not_acquired)
acquire_excludes_example =
    acquire_excludes keys 1 held (releasing 1 9 60 ∷ []) store one_try 11 100 store_row
      ((omega arith, refl), tt) (omega arith)
