-- ===== src/Redis/Limits/Tests.antt =====
-- Rate limits on concrete requests.
use sfinx_backend.Base.{ℕ, ◌≡◌, refl, false, none, List, [], ◌∷◌, arith}
use sfinx_backend.Redis.Limits.{Request}
use sfinx_backend.Redis.Limits.Bucket.{allowed_by_bucket, IsPaid, check_token_bucket-IsPaid}

abbrev at : ℕ → Request
at now = record { now = now; redis_fails = false }

abbrev burst : List Request
burst = at 1010 ∷ at 1500 ∷ at 1999 ∷ []

-- Two tokens, one more each second: the fifth request is paid by the refills.
abbrev spread : List Request
spread = at 1010 ∷ at 1020 ∷ at 1030 ∷ at 3000 ∷ []

spread_allowed : allowed_by_bucket 2 1 1 (at 1000 ∷ spread) none ≡ 3
unfolding allowed_by_bucket
spread_allowed = refl

check_token_bucket-IsPaid_example :
    IsPaid 2 1 1 (allowed_by_bucket 2 1 1 (at 1000 ∷ spread) none) 2 1000 3000
check_token_bucket-IsPaid_example =
    check_token_bucket-IsPaid 2 1 1 (at 1000) spread 3000 (omega arith) (
      refl,
      omega arith,
      omega arith,
      (
        refl,
        omega arith,
        omega arith,
        (
          refl,
          omega arith,
          omega arith,
          (refl, omega arith, omega arith, (refl, omega arith, omega arith, omega arith)),
        ),
      ),
    )
