-- ===== src/Submissions/Callbacks.antt =====
-- src/modules/submissions/services/callback-processor.service.ts and
-- submission-tracker.service.ts: one submission's callbacks, from the judge to the finalize job.
-- A Redis hash and a Redis set are tables; each callback is one step, since the script that counts
-- it is atomic.
pub mod Counting
pub mod Scheduling
mod Tests
use sfinx_backend.Base.{
  ℕ, ◌+◌, ◌≡◌, ◌&&◌, not, Bool, true, false, Option, none, some, List, [], ◌∷◌, ◌++◌, leb, ◌==◌,
  or_else, is_some, if◌then◌else◌, Result, ok, throws, internal_error,
}
use sfinx_backend.Base.Table.{Table}
use sfinx_backend.Redis.Locks.{LockValue, LockOptions, acquire}

-- The hash of metadata; a field that was never set is absent.
pub record Meta : Type 0 where
  pub total : Option ℕ
  pub received : Option ℕ
  pub problem_id : Option ℕ

abbrev pub no_meta : Meta
no_meta = record { total = none; received = none; problem_id = none }

-- A call of `finalizeQueue.add`; its job name is determined by `is_submit`.
pub record FinalizeJob : Type 0 where
  pub submission_id : ℕ
  pub is_submit : Bool

pub record AddResult : Type 0 where
  pub added : Bool
  pub received_so_far : ℕ
  pub total_expected : ℕ

-- A callback: the token and the payload of the judge, the time, the fresh identifier that its lock
-- would take, whether the script throws, which attempts at the lock throw, and whether the queue
-- does.
pub record Callback (P : Type 0) : Type 0 where
  pub index : ℕ
  pub token : ℕ
  pub payload : P
  pub now : ℕ
  pub lock_id : ℕ
  pub redis_fails : Bool
  pub lock_down : ℕ → Bool
  pub queue_fails : Bool

abbrev pub finalize_lock : LockOptions
finalize_lock = record { ttl = some 600_000; retry_count = none; retry_delay = none }

-- Whether a key with this expiry is gone.
abbrev pub is_gone : ℕ → Option ℕ → Bool
is_gone now expires = elim expires [ none ↦ false | some at ↦ leb at now ]

module _ {P : Type 0} (results : Table ℕ P ◌==◌) (seen : Table ℕ (Unit {0}) ◌==◌)
    (locks : Table ℕ LockValue ◌==◌) where
  pub record Tracking : Type 0 where
    pub meta : Meta
    pub meta_expires_at : Option ℕ
    pub results_by_index : results.Rows
    pub seen_tokens : seen.Rows
    pub lock_keys : locks.Rows
    pub finalize_queue : List FinalizeJob

  -- The metadata at a time.
  abbrev pub live_meta : ℕ → Tracking → Meta
  live_meta now s = if is_gone now s.meta_expires_at then no_meta else s.meta

  -- The keys of a submission that has none yet: the transaction sets the metadata for 3600 seconds.
  -- The keys of the results and tokens are not there, so that their `EXPIRE` does nothing.
  abbrev pub initialize_tracking : ℕ → ℕ → ℕ → Tracking → Tracking
  initialize_tracking now testcase_count problem s = record s {
    meta = record { total = some testcase_count; received = some 0; problem_id = some problem };
    meta_expires_at = some (now + 3_600_000);
  }

  -- What the script writes for a token that is new. A hash that it makes has no expiry.
  abbrev pub store_result : Callback P → Tracking → Tracking
  store_result c s = record s {
    seen_tokens = seen.save s.seen_tokens c.token tt;
    results_by_index = elim (results.find s.results_by_index c.index) [
      | some first ↦ s.results_by_index
      | none ↦ results.save s.results_by_index c.index c.payload
    ];
    meta = record (live_meta c.now s) {
      received = some (or_else (live_meta c.now s).received 0 + 1);
    };
    meta_expires_at = if is_gone c.now s.meta_expires_at then none else s.meta_expires_at;
  }

  -- The script, and the method around it, which answers zeros when Redis throws.
  unfoldable pub add_result : Callback P → Tracking → AddResult × Tracking
  add_result c s =
      if c.redis_fails
      then (record { added = false; received_so_far = 0; total_expected = 0 }, s)
      else elim (seen.find s.seen_tokens c.token) [
        | some old ↦ (
          record {
            added = false;
            received_so_far = or_else (live_meta c.now s).received 0;
            total_expected = or_else (live_meta c.now s).total 0;
          },
          s,
        )
        | none ↦ (
          record {
            added = true;
            received_so_far = or_else (live_meta c.now s).received 0 + 1;
            total_expected = or_else (live_meta c.now s).total 0;
          },
          store_result c s,
        )
      ]

  -- `acquire` answers whatever Redis does; an error of the queue leaves the method. The lock is never
  -- released: it only expires.
  unfoldable pub try_schedule_finalize :
      ℕ → Bool → Callback P → Tracking → Result (Unit {0}) × Tracking
  unfolding acquire
  try_schedule_finalize submission is_submit c s =
      let (lock, keys) =
        acquire locks (λ a t. t) c.lock_down finalize_lock submission c.lock_id c.now s.lock_keys in
      let locked = record s { lock_keys = keys } in
      if lock.acquired
      then (if c.queue_fails then (throws internal_error, locked) else (
        ok tt,
        record locked {
          finalize_queue =
              s.finalize_queue ++ record { submission_id = submission; is_submit = is_submit } ∷ [];
        },
      ))
      else (ok tt, locked)

  unfoldable pub handle_callback :
      Bool → ℕ → Bool → Callback P → Tracking → Result (Unit {0}) × Tracking
  handle_callback is_interview submission is_submit c s =
      if is_interview
      then (ok tt, s)
      else (let (answer, counted) = add_result c s in
          if answer.added && leb answer.total_expected answer.received_so_far
          then try_schedule_finalize submission is_submit c counted
          else (ok tt, counted))

  -- What the callbacks of one submission, one after another, leave.
  unfoldable pub handle_callbacks : ℕ → Bool → List (Callback P) → Tracking → Tracking
  handle_callbacks submission is_submit [] s = s
  handle_callbacks submission is_submit (c ∷ cs) s =
      handle_callbacks submission is_submit cs (handle_callback false submission is_submit c s).1
