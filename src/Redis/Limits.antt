-- ===== src/Redis/Limits.antt =====
-- src/modules/redis/services/rate-limiter.service.ts: the fixed window and the token bucket of one
-- key. Times are milliseconds, and a value whose time has come is gone. The sliding window stands
-- on a sorted set and is not modelled.
pub mod Window
pub mod Bucket
mod Tests
use sfinx_backend.Base.{
  ℕ, suc, ◌+◌, ◌-◌, ◌*◌, ◌/◌, Bool, true, false, Option, none, some, List, [], ◌∷◌, min, ltb, leb,
  if◌then◌else◌,
}

-- The fields of `RateLimitResult` that decide a request.
pub record RateLimitResult : Type 0 where
  pub allowed : Bool
  pub remaining : ℕ

-- A counter; its expiry is set after its first increment.
pub record Counter : Type 0 where
  pub current : ℕ
  pub counter_expires : ℕ

abbrev pub live_count : Option Counter → ℕ → ℕ
live_count none now = 0
live_count (some c) now = if ltb now c.counter_expires then c.current else 0

-- `INCR`, and `EXPIRE` when the answer is 1.
abbrev pub incremented : Option Counter → ℕ → ℕ → Counter
incremented none window now = record { current = 1; counter_expires = now + window }
incremented (some c) window now =
    if ltb now c.counter_expires
    then record c { current = c.current + 1 }
    else record { current = 1; counter_expires = now + window }

-- A request; `redis_fails` says that a call of Redis throws, before it does anything.
pub record Request : Type 0 where
  pub now : ℕ
  pub redis_fails : Bool

unfoldable pub check_simple_limit :
    ℕ → ℕ → Request → Option Counter → RateLimitResult × Option Counter
check_simple_limit limit window_seconds r s =
    if r.redis_fails
    then (record { allowed = true; remaining = limit }, s)
    else (let c = incremented s (1000 * window_seconds) r.now in
        (
          if leb c.current limit
              then record { allowed = true; remaining = limit - c.current }
              else record { allowed = false; remaining = 0 },
          some c,
        ))

-- The bucket's hash, which expires an hour after it was last written.
pub record TokenBucket : Type 0 where
  pub tokens : ℕ
  pub last_refill : ℕ
  pub bucket_expires : ℕ

abbrev pub full_bucket : ℕ → ℕ → TokenBucket
full_bucket capacity now = record { tokens = capacity; last_refill = now; bucket_expires = 0 }

-- `HMGET`, with the defaults of the script.
abbrev pub read_bucket : ℕ → ℕ → Option TokenBucket → TokenBucket
read_bucket capacity now none = full_bucket capacity now
read_bucket capacity now (some b) = if ltb now b.bucket_expires then b else full_bucket capacity now

abbrev pub refill : ℕ → ℕ → ℕ → ℕ → TokenBucket → TokenBucket
refill capacity rate interval now b =
    let refills = (now - b.last_refill) / interval in
    record b {
      tokens = min capacity (b.tokens + refills * rate);
      last_refill = b.last_refill + refills * interval;
    }

unfoldable pub check_token_bucket :
    ℕ → ℕ → ℕ → Request → Option TokenBucket → RateLimitResult × Option TokenBucket
check_token_bucket capacity rate interval_seconds r s =
    if r.redis_fails
    then (record { allowed = true; remaining = capacity }, s)
    else (let b =
          refill capacity rate (1000 * interval_seconds) r.now (read_bucket capacity r.now s) in
        if ltb 0 b.tokens
        then (
          record { allowed = true; remaining = b.tokens - 1 },
          some (record b { tokens = b.tokens - 1; bucket_expires = r.now + 3_600_000 }),
        )
        else (record { allowed = false; remaining = 0 }, s))
