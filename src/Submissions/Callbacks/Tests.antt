-- ===== src/Submissions/Callbacks/Tests.antt =====
-- Callbacks on list tables: the theorems at concrete inputs.
use sfinx_backend.Base.{
  ℕ, ◌+◌, ◌≤◌, ◌⊎◌, ◌≡◌, refl, true, false, none, some, List, [], ◌∷◌, arith, leb, ◌==◌, or_else,
  if◌then◌else◌,
}
use sfinx_backend.Base.Lists.{All}
use sfinx_backend.Base.Table.{Table, number_table}
use sfinx_backend.Redis.Locks.{LockValue}
use sfinx_backend.Submissions.Callbacks.{
  Callback, FinalizeJob, Tracking, no_meta, initialize_tracking, add_result, try_schedule_finalize,
  handle_callback, handle_callbacks,
}
use sfinx_backend.Submissions.Callbacks.Counting.{IsCounted, counted_so_far, add_result_once}
use sfinx_backend.Submissions.Callbacks.Scheduling.{handle_callbacks_schedule}
use sfinx_backend.Submissions.Callbacks.Scheduling.Phases.{ComesBefore, Works}

abbrev results : Table ℕ ℕ ◌==◌
results = number_table ℕ

abbrev seen : Table ℕ (Unit {0}) ◌==◌
seen = number_table Unit

abbrev locks : Table ℕ LockValue ◌==◌
locks = number_table LockValue

abbrev untracked : Tracking results seen locks
unfolding number_table
untracked = record {
  meta = no_meta;
  meta_expires_at = none;
  results_by_index = ([], tt);
  seen_tokens = ([], tt);
  lock_keys = ([], tt);
  finalize_queue = [];
}

abbrev callback : ℕ → ℕ → ℕ → Callback ℕ
callback index token now = record {
  index = index;
  token = token;
  payload = 100 + token;
  now = now;
  lock_id = now;
  redis_fails = false;
  lock_down = λ a. false;
  queue_fails = false;
}

-- Two tests; the second callback is repeated, and so is the first, once both have come.
abbrev arrivals : List (Callback ℕ)
arrivals = callback 1 21 5 ∷ callback 1 21 6 ∷ callback 0 20 7 ∷ callback 1 21 8 ∷ []

arrivals-ComesBefore : All (ComesBefore 0) arrivals
arrivals-ComesBefore = (
  (omega arith, omega arith),
  ((omega arith, omega arith), ((omega arith, omega arith), ((omega arith, omega arith), tt))),
)

no_lock : locks.find untracked.lock_keys 4 ≡ none
unfolding number_table
no_lock = refl

no_token : (token : ℕ) → seen.find untracked.seen_tokens token ≡ none
unfolding number_table
no_token token = refl

arrivals-Works : All Works arrivals
arrivals-Works = ((refl, refl), ((refl, refl), ((refl, refl), ((refl, refl), tt))))

handle_callbacks_schedule_example :
    let s' =
      handle_callbacks results seen locks 4 true arrivals
        (initialize_tracking results seen locks 0 2 9 untracked) in
    let job : FinalizeJob = record { submission_id = 4; is_submit = true } in
    ((s'.finalize_queue ≡ [])
      ⊎ ((s'.finalize_queue ≡ job ∷ []) × (2 ≤ seen.count s'.seen_tokens (λ k v. true))))
    × (All Works arrivals
        → s'.finalize_queue
          ≡ (if leb 2 (seen.count s'.seen_tokens (λ k v. true)) then job ∷ [] else []))
unfolding untracked
handle_callbacks_schedule_example =
    handle_callbacks_schedule results seen locks 4 true 2 0 arrivals untracked 9 (omega arith)
      arrivals-ComesBefore refl no_lock no_token

-- The queue fails for the last callback, and the job is never added, though the judge tries again.
abbrev lost : List (Callback ℕ)
lost = callback 1 21 5 ∷ record (callback 0 20 7) { queue_fails = true } ∷ callback 0 20 8 ∷ []

lost_job :
    (handle_callbacks results seen locks 4 true lost
      (initialize_tracking results seen locks 0 2 9 untracked)).finalize_queue
    ≡ []
unfolding handle_callbacks handle_callback add_result try_schedule_finalize number_table
lost_job = refl

-- Both tests are counted, so the job is there.
arrivals_scheduled :
    (handle_callbacks results seen locks 4 true arrivals
      (initialize_tracking results seen locks 0 2 9 untracked)).finalize_queue
    ≡ record { submission_id = 4; is_submit = true } ∷ []
unfolding handle_callbacks handle_callback add_result try_schedule_finalize number_table
arrivals_scheduled = refl

abbrev tracked : Tracking results seen locks
tracked = initialize_tracking results seen locks 0 2 9 untracked

tracked-IsCounted : IsCounted results seen locks 5 tracked
unfolding number_table
tracked-IsCounted = refl

add_result_once_example :
    let c = callback 1 21 5 in
    let s' = (add_result results seen locks c tracked).1 in
    IsCounted results seen locks c.now s'
    × ((add_result results seen locks c tracked).0.received_so_far
        ≡ counted_so_far results seen locks c.now tracked + 1)
    × (results.find s'.results_by_index c.index
        ≡ some (or_else (results.find tracked.results_by_index c.index) c.payload))
    × ((again : Callback ℕ)
        → again.token ≡ c.token
        → ((add_result results seen locks again s').0.added ≡ false)
          × ((add_result results seen locks again s').1 ≡ s'))
add_result_once_example =
    add_result_once results seen locks (callback 1 21 5) tracked refl (no_token 21)
      tracked-IsCounted
