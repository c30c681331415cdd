-- ===== src/Submissions/Callbacks/Scheduling.antt =====
-- When the callbacks of a submission schedule its finalize job.
pub mod Phases
use sfinx_backend.Base.{
  ℕ, ◌+◌, ◌≡◌, ◌≤◌, ◌<◌, ◌⊎◌, refl, inl, inr, Bool, true, false, none, some, List, [], ◌∷◌, arith,
  leb, ◌==◌, or_else, if◌then◌else◌, Bool-cases, Option-cases,
}
use sfinx_backend.Base.Lists.{All}
use sfinx_backend.Base.Table.{Table}
use sfinx_backend.Redis.Locks.{LockValue, acquire}
use sfinx_backend.Submissions.Callbacks.{
  Callback, FinalizeJob, Tracking, finalize_lock, is_gone, initialize_tracking, store_result,
  add_result, try_schedule_finalize, handle_callback, handle_callbacks,
}
use sfinx_backend.Submissions.Callbacks.Counting.{add_result-new, add_result-seen, add_result-fails}
use sfinx_backend.Redis.Locks.Faults.{acquire_first, acquire_takes, acquire_keeps}
use sfinx_backend.Submissions.Callbacks.Scheduling.Phases.{
  ComesBefore, Works, WorksIf, St, IsTracked, Invariant, is_live, stored-Invariant,
}

module _ {P : Type 0} (results : Table ℕ P ◌==◌) (seen : Table ℕ (Unit {0}) ◌==◌)
    (locks : Table ℕ LockValue ◌==◌) where
  module _ (submission : ℕ) (is_submit : Bool) (expected start : ℕ) where
    -- What a callback with a new token leaves, while the metadata is there.
    handle_callback_new :
        (c : Callback P) (s : St results seen locks)
        → c.redis_fails ≡ false
        → seen.find s.seen_tokens c.token ≡ none
        → is_gone c.now s.meta_expires_at ≡ false
        → (handle_callback results seen locks false submission is_submit c s).1 ≡ (
            if leb (or_else s.meta.total 0) (or_else s.meta.received 0 + 1)
            then (try_schedule_finalize results seen locks submission is_submit c
                (store_result results seen locks c s)).1
            else store_result results seen locks c s)
    unfolding handle_callback
    handle_callback_new c s up new live =
        let step = add_result-new results seen locks c s up new in
        rw step (elim (Bool-cases (leb (or_else s.meta.total 0) (or_else s.meta.received 0 + 1))) [
          | inl enough ↦ rw (live, enough) refl
          | inr early ↦ rw (live, early) refl
        ])

    handle_callback_old :
        (c : Callback P) (s : St results seen locks)
        → (add_result results seen locks c s).0.added ≡ false
        → (add_result results seen locks c s).1 ≡ s
        → (handle_callback results seen locks false submission is_submit c s).1 ≡ s
    unfolding handle_callback
    handle_callback_old c s lost same = rw lost same

    handle_callback-Invariant :
        (reliable : Bool) (c : Callback P) (s : St results seen locks)
        → ComesBefore start c
        → WorksIf results seen locks submission is_submit expected start reliable c
        → Invariant results seen locks submission is_submit expected start reliable s
        → Invariant results seen locks submission is_submit expected start reliable
            (handle_callback results seen locks false submission is_submit c s).1
    handle_callback-Invariant reliable c s soon works inv = elim (Bool-cases c.redis_fails) [
      | inl fails ↦
          let (lost, same) = add_result-fails results seen locks c s fails in
          rw (handle_callback_old c s lost same) inv
      | inr up ↦ elim (Option-cases (seen.find s.seen_tokens c.token)) [
        | inr (u, old) ↦
            let (lost, same) = add_result-seen results seen locks c s old in
            rw (handle_callback_old c s lost same) inv
        | inl new ↦
            rw
              (handle_callback_new c s up new
                (is_live results seen locks submission is_submit expected start c s soon inv.0))
              (stored-Invariant results seen locks submission is_submit expected start reliable c s
                soon works new inv)
      ]
    ]

    handle_callbacks-Invariant :
        (reliable : Bool) (cs : List (Callback P)) (s : St results seen locks)
        → All (ComesBefore start) cs
        → All (WorksIf results seen locks submission is_submit expected start reliable) cs
        → Invariant results seen locks submission is_submit expected start reliable s
        → Invariant results seen locks submission is_submit expected start reliable
            (handle_callbacks results seen locks submission is_submit cs s)
    unfolding handle_callbacks
    handle_callbacks-Invariant reliable [] s soon works inv = inv
    handle_callbacks-Invariant reliable (c ∷ cs) s (soon, later) (works, others) inv =
        handle_callbacks-Invariant reliable cs
          (handle_callback results seen locks false submission is_submit c s).1 later others
          (handle_callback-Invariant reliable c s soon works inv)

    anything_goes :
        (cs : List (Callback P))
        → All (WorksIf results seen locks submission is_submit expected start false) cs
    anything_goes [] = tt
    anything_goes (c ∷ cs) = (tt, anything_goes cs)

    -- Whatever callbacks come for a newly tracked submission of some tests in the ten minutes that its lock
    -- lasts, repeated ones, ones that Redis fails and ones out of order included, its finalize job
    -- is added to the queue at most once, and only when the expected number of different tokens has
    -- been counted. If the first attempts at the lock reach Redis and the queue works, it is added
    -- as soon as that number has been counted.
    pub handle_callbacks_schedule :
        (cs : List (Callback P)) (s : St results seen locks) (problem : ℕ)
        → 0 < expected
        → All (ComesBefore start) cs
        → s.finalize_queue ≡ []
        → locks.find s.lock_keys submission ≡ none
        → ((token : ℕ) → seen.find s.seen_tokens token ≡ none)
        → let s' =
            handle_callbacks results seen locks submission is_submit cs
              (initialize_tracking results seen locks start expected problem s) in
          let job : FinalizeJob = record { submission_id = submission; is_submit = is_submit } in
          ((s'.finalize_queue ≡ [])
            ⊎ ((s'.finalize_queue ≡ job ∷ [])
                × (expected ≤ seen.count s'.seen_tokens (λ k v. true))))
          × (All Works cs
              → s'.finalize_queue
                ≡ (if leb expected (seen.count s'.seen_tokens (λ k v. true)) then job ∷ [] else []))
    handle_callbacks_schedule cs s problem positive soon empty free fresh =
        let zero_seen =
          seen.count-zero s.seen_tokens (λ k v. true)
            (λ k v e. absurd (ground (arith, e, fresh k))) in
        let first = initialize_tracking results seen locks start expected problem s in
        let tracked : IsTracked results seen locks submission is_submit expected start first =
          (refl, refl, ground (arith, zero_seen)) in
        (
          (let (ends, phase) =
                handle_callbacks-Invariant false cs first soon (anything_goes cs)
                  (tracked, inl empty) in
              elim phase [
                | inl nothing ↦ inl nothing
                | inr (once, full, held) ↦ inr (once, omega (arith, full, ends.2))
              ]),
          λ works.
              let (ends, phase) =
                handle_callbacks-Invariant true cs first soon works
                  (tracked, inl (empty, positive, free)) in
              elim phase [
                | inl (nothing, few, unlocked) ↦ ground (arith, nothing, few, ends.2)
                | inr (once, full, held) ↦ ground (arith, once, full, ends.2)
              ],
        )
