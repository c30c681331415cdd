-- ===== src/Redis/Limits/Window.antt =====
-- How many requests of a window are allowed.
use sfinx_backend.Base.{
  ℕ, ◌+◌, ◌-◌, ◌*◌, ◌≡◌, ◌≤◌, ◌<◌, false, Option, none, some, List, [], ◌∷◌, arith, min,
  if◌then◌else◌,
}
use sfinx_backend.Base.Lists.{length, All}
use sfinx_backend.Redis.Limits.{Counter, Request, check_simple_limit}

module _ (limit window_seconds : ℕ) where
  -- How many of the requests are allowed, one after another.
  unfoldable pub allowed_simple : List Request → Option Counter → ℕ
  unfolding check_simple_limit
  allowed_simple [] s = 0
  allowed_simple (r ∷ rs) s =
      (if (check_simple_limit limit window_seconds r s).0.allowed then 1 else 0)
      + allowed_simple rs (check_simple_limit limit window_seconds r s).1

  -- The requests reach Redis within the window.
  abbrev pub IsWithin : ℕ → Request → Type 0
  IsWithin start r =
      (r.redis_fails ≡ false) × (start ≤ r.now) × (r.now < start + 1000 * window_seconds)

  allowed_running :
      (rs : List Request) (start n : ℕ)
      → All (IsWithin start) rs
      → allowed_simple rs
          (some (record { current = n; counter_expires = start + 1000 * window_seconds }))
        ≡ min (limit - n) (length rs)
  unfolding allowed_simple
  allowed_running [] start n within = omega arith
  allowed_running (r ∷ rs) start n ((up, lo, hi), within) =
      ground (arith, up, lo, hi, allowed_running rs start (n + 1) within)

  -- Of the requests that come in the window which the first of them opens, exactly as many as the
  -- limit are allowed, or all if there are fewer.
  pub check_simple_limit_allows :
      (r : Request) (rs : List Request)
      → All (IsWithin r.now) (r ∷ rs)
      → allowed_simple (r ∷ rs) none ≡ min limit (length (r ∷ rs))
  unfolding allowed_simple
  check_simple_limit_allows r rs ((up, lo, hi), within) =
      ground (arith, up, allowed_running rs r.now 1 within)
