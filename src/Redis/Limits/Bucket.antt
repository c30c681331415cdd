-- ===== src/Redis/Limits/Bucket.antt =====
-- How many requests a token bucket allows.
use sfinx_backend.Base.{
  ℕ, ◌+◌, ◌-◌, ◌*◌, ◌/◌, ◌≡◌, ◌≤◌, ◌<◌, inl, inr, true, false, Option, none, some, List, [], ◌∷◌,
  arith, min, ltb, if◌then◌else◌, Bool-cases,
}
use native.Mathlib.Nat.{div-mul-le_self}
use sfinx_backend.Redis.Limits.{TokenBucket, Request, check_token_bucket}

module _ (capacity rate interval_seconds : ℕ) where
  unfoldable pub allowed_by_bucket : List Request → Option TokenBucket → ℕ
  unfolding check_token_bucket
  allowed_by_bucket [] s = 0
  allowed_by_bucket (r ∷ rs) s =
      (if (check_token_bucket capacity rate interval_seconds r s).0.allowed then 1 else 0)
      + allowed_by_bucket rs (check_token_bucket capacity rate interval_seconds r s).1

  -- The requests reach Redis one after another from a time on, before another one, in the hour
  -- that the bucket lasts.
  abbrev pub AreInOrder : ℕ → ℕ → ℕ → List Request → Type 0
  AreInOrder hour_end until from [] = from ≤ until
  AreInOrder hour_end until from (r ∷ rs) =
      (r.redis_fails ≡ false)
      × (from ≤ r.now)
      × (r.now < hour_end)
      × AreInOrder hour_end until r.now rs

  -- A number of requests that some tokens and the refills in a time can pay for.
  abbrev pub IsPaid : ℕ → ℕ → ℕ → ℕ → Type 0
  IsPaid count budget from until =
      (k : ℕ) × (from + k * (1000 * interval_seconds) ≤ until) × (count ≤ budget + k * rate)

  from-until :
      (hour_end until from : ℕ) (rs : List Request)
      → AreInOrder hour_end until from rs
      → from ≤ until
  from-until hour_end until from [] le = le
  from-until hour_end until from (r ∷ rs) (up, lo, hi, later) =
      let rest = from-until hour_end until r.now rs later in omega arith

  allowed_running :
      (rs : List Request) (hour_end until from : ℕ) (b : TokenBucket)
      → AreInOrder hour_end until from rs
      → b.last_refill ≤ from
      → hour_end ≤ from + 3_600_000
      → hour_end ≤ b.bucket_expires
      → IsPaid (allowed_by_bucket rs (some b)) b.tokens b.last_refill until
  unfolding allowed_by_bucket
  allowed_running [] hour_end until from b order past soon lasts = (0, omega arith, omega arith)
  allowed_running (r ∷ rs) hour_end until from b (up, lo, hi, later) past soon lasts =
      let interval = 1000 * interval_seconds in
      let refills = (r.now - b.last_refill) / interval in
      let spent : refills * interval ≤ r.now - b.last_refill =
        div-mul-le_self (r.now - b.last_refill) interval in
      let live : ltb r.now b.bucket_expires ≡ true = ground arith in
      elim (Bool-cases (ltb 0 (min capacity (b.tokens + refills * rate)))) [
        | inr empty ↦
            let (k, in_time, paid) =
              allowed_running rs hour_end until r.now b later (omega arith) (omega arith) lasts in
            (k, in_time, ground (arith, up, live, empty, paid))
        | inl some_left ↦
            let (k, in_time, paid) =
              allowed_running rs hour_end until r.now
                (record b {
                  tokens = min capacity (b.tokens + refills * rate) - 1;
                  last_refill = b.last_refill + refills * interval;
                  bucket_expires = r.now + 3_600_000;
                })
                later (omega arith) (omega arith) (omega arith) in
            let tokens_paid : (refills + k) * rate ≡ refills * rate + k * rate = grind arith in
            let time_taken : (refills + k) * interval ≡ refills * interval + k * interval =
              grind arith in
            (
              refills + k,
              omega (arith, in_time, time_taken),
              ground (arith, up, live, some_left, paid, tokens_paid),
            )
      ]

  -- As long as no call of Redis fails: of any requests that come one after another in the hour after
  -- the first, which finds no bucket, no more are allowed than the capacity and what was refilled in the whole intervals that passed
  -- between the first and the last.
  pub check_token_bucket-IsPaid :
      (r : Request) (rs : List Request) (until : ℕ)
      → 0 < capacity
      → AreInOrder (r.now + 3_600_000) until r.now (r ∷ rs)
      → IsPaid (allowed_by_bucket (r ∷ rs) none) capacity r.now until
  unfolding allowed_by_bucket
  check_token_bucket-IsPaid r rs until positive (up, lo, hi, later) =
      let interval = 1000 * interval_seconds in
      let refills = (r.now - r.now) / interval in
      let spent : refills * interval ≤ r.now - r.now = div-mul-le_self (r.now - r.now) interval in
      let (k, in_time, paid) =
        allowed_running rs (r.now + 3_600_000) until r.now
          (record {
            tokens = min capacity (capacity + refills * rate) - 1;
            last_refill = r.now + refills * interval;
            bucket_expires = r.now + 3_600_000;
          })
          later (omega arith) (omega arith) (omega arith) in
      (k, omega (arith, in_time), ground (arith, up, positive, paid))
