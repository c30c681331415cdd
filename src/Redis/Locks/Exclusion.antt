-- ===== src/Redis/Locks/Exclusion.antt =====
-- Mutual exclusion: what the calls of others do to a lock that is held.
use sfinx_backend.Base.{
  ℕ, zero, suc, ◌+◌, ◌<◌, ◌≡◌, refl, true, false, none, some, inl, inr, arith, List, [], ◌∷◌, ◌==◌,
  ==_iff, Option-cases, Bool-cases,
}
use sfinx_backend.Base.Lists.{All}
use sfinx_backend.Base.Table.{Table}
use sfinx_backend.Redis.Locks.{
  LockValue, LockOptions, ttl_of, retries_of, delay_of, get_live, acquire_from, acquire, release,
  extend, not_acquired,
}
use sfinx_backend.Redis.Locks.Attempts.{waits}

-- A call of the service: its resource, its identifier and the time at which it starts.
pub data Call : Type 0 where
  acquiring : LockOptions → ℕ → ℕ → ℕ → Call
  releasing : ℕ → ℕ → ℕ → Call
  extending : ℕ → ℕ → ℕ → ℕ → Call

-- The calls that another caller makes while the lock is held: one that waits for the lock gives up
-- in time, and one that ends or extends a lock has another identifier.
abbrev pub IsForeign : LockValue → Call → Type 0
IsForeign v (acquiring o resource id now) = now + waits (delay_of o) (retries_of o) < v.expires_at
IsForeign v (releasing resource id now) = (now < v.expires_at) × ((v.holder == id) ≡ false)
IsForeign v (extending resource id ttl now) = (now < v.expires_at) × ((v.holder == id) ≡ false)

module _ (keys : Table ℕ LockValue ◌==◌) where
  -- One call after another; Redis does not fail.
  abbrev pub call : keys.Rows → Call → keys.Rows
  unfolding acquire release extend
  call s (acquiring o resource id now) =
      (acquire keys (λ a t. t) (λ a. false) o resource id now s).1
  call s (releasing resource id now) = (release keys resource id now s).1
  call s (extending resource id ttl now) = (extend keys resource id ttl now s).1

  unfoldable pub calls_after : keys.Rows → List Call → keys.Rows
  unfolding call
  calls_after s [] = s
  calls_after s (c ∷ cs) = calls_after (call s c) cs

  module _ (locked : ℕ) (v : LockValue) where
    live_row :
        (s : keys.Rows) (now : ℕ)
        → keys.find s locked ≡ some v
        → now < v.expires_at
        → get_live keys s now locked ≡ some v
    live_row s now row lt = ground (arith, row)

    save_elsewhere :
        (s : keys.Rows) (key : ℕ) (w : LockValue)
        → keys.find s locked ≡ some v
        → (key == locked) ≡ false
        → keys.find (keys.save s key w) locked ≡ some v
    save_elsewhere s key w row other = ground (arith, keys.find-save s key locked w)

    elsewhere :
        (s : keys.Rows) (resource now : ℕ)
        → keys.find s locked ≡ some v
        → now < v.expires_at
        → get_live keys s now resource ≡ none
        → (resource == locked) ≡ false
    elsewhere s resource now row lt free = elim (Bool-cases (resource == locked)) [
      | inr other ↦ other
      | inl same ↦
          let at : resource ≡ locked = (==_iff resource locked).0 same in
          absurd (ground (arith, at, free, live_row s now row lt))
    ]

    held_there :
        (s : keys.Rows) (resource now : ℕ) (w : LockValue)
        → keys.find s locked ≡ some v
        → now < v.expires_at
        → get_live keys s now resource ≡ some w
        → (resource == locked) ≡ true
        → w ≡ v
    held_there s resource now w row lt live same =
        let at : resource ≡ locked = (==_iff resource locked).0 same in
        ground (arith, at, live, live_row s now row lt)

    acquire_from_keeps :
        (resource id ttl delay left attempt now : ℕ) (s : keys.Rows)
        → keys.find s locked ≡ some v
        → now + waits delay left < v.expires_at
        → (keys.find
              (acquire_from keys (λ a t. t) (λ a. false) resource id ttl delay left attempt now s).1
              locked
            ≡ some v)
          × (resource ≡ locked
              → (acquire_from keys
                  (λ a t. t)
                  (λ a. false)
                  resource
                  id
                  ttl
                  delay
                  left
                  attempt
                  now
                  s).0
                ≡ not_acquired)
    unfolding acquire_from
    acquire_from_keeps resource id ttl delay zero attempt now s row lt =
        elim (Option-cases (get_live keys s now resource)) [
          | inr (w, live) ↦ (ground (arith, live, row), λ same. ground (arith, live))
          | inl free ↦
              let other = elsewhere s resource now row (omega arith) free in
              let row' =
                save_elsewhere s resource (record { holder = id; expires_at = now + ttl }) row
                  other in
              (ground (arith, free, row'), λ same. ground (arith, other, ==_iff resource locked))
        ]
    acquire_from_keeps resource id ttl delay (suc left) attempt now s row lt =
        elim (Option-cases (get_live keys s now resource)) [
          | inr (w, live) ↦
              let (kept, lost) =
                acquire_from_keeps resource id ttl delay left (suc attempt) (now + delay) s row
                  (omega arith) in
              (ground (arith, live, kept), λ same. ground (arith, live, lost same))
          | inl free ↦
              let other = elsewhere s resource now row (omega arith) free in
              let row' =
                save_elsewhere s resource (record { holder = id; expires_at = now + ttl }) row
                  other in
              (ground (arith, free, row'), λ same. ground (arith, other, ==_iff resource locked))
        ]

    call-find :
        (s : keys.Rows) (c : Call)
        → keys.find s locked ≡ some v
        → IsForeign v c
        → keys.find (call s c) locked ≡ some v
    unfolding acquire release extend
    call-find s (acquiring o resource id now) row foreign =
        (acquire_from_keeps resource id (ttl_of o) (delay_of o) (retries_of o) 0 now s row
          foreign).0
    call-find s (releasing resource id now) row (lt, other) =
        elim (Option-cases (get_live keys s now resource)) [
          | inl gone ↦ ground (arith, gone, row)
          | inr (w, live) ↦ elim (Bool-cases (resource == locked)) [
            | inl same ↦
                let here = held_there s resource now w row lt live same in
                ground (arith, live, here, other, row)
            | inr apart ↦ ground (arith, live, row, apart, keys.find-delete s resource locked)
          ]
        ]
    call-find s (extending resource id ttl now) row (lt, other) =
        elim (Option-cases (get_live keys s now resource)) [
          | inl gone ↦ ground (arith, gone, row)
          | inr (w, live) ↦ elim (Bool-cases (resource == locked)) [
            | inl same ↦
                let here = held_there s resource now w row lt live same in
                ground (arith, live, here, other, row)
            | inr apart ↦ ground (
              arith,
              live,
              row,
              save_elsewhere s resource (record w { expires_at = now + ttl }) row apart,
            )
          ]
        ]

    calls_after-find :
        (cs : List Call) (s : keys.Rows)
        → keys.find s locked ≡ some v
        → All (IsForeign v) cs
        → keys.find (calls_after s cs) locked ≡ some v
    unfolding calls_after
    calls_after-find [] s row foreign = row
    calls_after-find (c ∷ cs) s row (now, later) =
        calls_after-find cs (call s c) (call-find s c row now) later

    pub acquire_refused :
        (s : keys.Rows) (o : LockOptions) (id now : ℕ)
        → keys.find s locked ≡ some v
        → IsForeign v (acquiring o locked id now)
        → ((acquire keys (λ a t. t) (λ a. false) o locked id now s).0 ≡ not_acquired)
          × (keys.find (acquire keys (λ a t. t) (λ a. false) o locked id now s).1 locked ≡ some v)
    unfolding acquire
    acquire_refused s o id now row lt =
        let (kept, lost) =
          acquire_from_keeps locked id (ttl_of o) (delay_of o) (retries_of o) 0 now s row lt in
        (lost refl, kept)

    -- While a lock has not expired, whatever calls others make before its expiry, on any resources
    -- and in any order, leave it with its holder, and a caller that then asks for it is refused.
    pub acquire_excludes :
        (cs : List Call) (s : keys.Rows) (options : LockOptions) (id now : ℕ)
        → keys.find s locked ≡ some v
        → All (IsForeign v) cs
        → IsForeign v (acquiring options locked id now)
        → (keys.find (calls_after s cs) locked ≡ some v)
          × ((acquire keys (λ a t. t) (λ a. false) options locked id now (calls_after s cs)).0
              ≡ not_acquired)
    acquire_excludes cs s options id now row foreign lt =
        let kept = calls_after-find cs s row foreign in
        (kept, (acquire_refused (calls_after s cs) options id now kept lt).0)
