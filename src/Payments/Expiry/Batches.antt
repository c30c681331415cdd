-- ===== src/Payments/Expiry/Batches.antt =====
-- The batches of warnings reach every user whose premium time ends soon, each once.
use sfinx_backend.Base.{
  ℕ, zero, suc, ◌+◌, ◌-◌, ◌≡◌, ◌≤◌, ◌<◌, ◌∙◌, refl, sym, ap, inl, inr, Bool, some, List, [], ◌∷◌,
  arith, ltb, Bool-cases,
}
use sfinx_backend.Base.Lists.{
  length, keep_if, take, drop, take-drop, length-drop-le, keep_if_twice, length-keep_if,
  length-append, List-cases, count_by-le-length,
}
use sfinx_backend.Payments.{User}
use sfinx_backend.Payments.Expiry.{
  last_id, expires_soon, next_batch, warn_from, check_expiring_subscriptions,
}

-- The ids ascend, and all are above the bound.
abbrev pub IsAscending : ℕ → List (ℕ × User) → Type 0
IsAscending bound [] = Unit
IsAscending bound ((id, u) ∷ users) = (bound < id) × IsAscending id users

-- The users with ids above a bound.
abbrev beyond : ℕ → List (ℕ × User) → List (ℕ × User)
beyond last users = keep_if (λ e. ltb last e.0) users

lower-IsAscending :
    (lo hi : ℕ) (users : List (ℕ × User)) → lo ≤ hi → IsAscending hi users → IsAscending lo users
lower-IsAscending lo hi [] le up = tt
lower-IsAscending lo hi ((id, u) ∷ users) le (above, up) = (omega arith, up)

keep_if-IsAscending :
    (p : ℕ × User → Bool) (lo : ℕ) (users : List (ℕ × User))
    → IsAscending lo users
    → IsAscending lo (keep_if p users)
keep_if-IsAscending p lo [] up = tt
keep_if-IsAscending p lo ((id, u) ∷ users) (above, up) = elim (Bool-cases (p (id, u))) [
  | inl kept ↦ rw kept (above, keep_if-IsAscending p id users up)
  | inr left_out ↦
      rw left_out (
        lower-IsAscending lo id (keep_if p users) (omega arith) (keep_if-IsAscending p id users up))
]

beyond_all :
    (last lo : ℕ) (users : List (ℕ × User))
    → last ≤ lo
    → IsAscending lo users
    → beyond last users ≡ users
beyond_all last lo [] le up = refl
beyond_all last lo ((id, u) ∷ users) le (above, up) =
    ground (arith, beyond_all last id users (omega arith) up)

beyond-IsAscending :
    (last lo : ℕ) (users : List (ℕ × User))
    → IsAscending lo users
    → IsAscending last (beyond last users)
beyond-IsAscending last lo [] up = tt
beyond-IsAscending last lo ((id, u) ∷ users) (above, up) = elim (Bool-cases (ltb last id)) [
  | inl in_it ↦
      let le : last ≤ id = ground arith in
      rw (in_it, beyond_all last id users le up) (ground arith, up)
  | inr out ↦ rw out (beyond-IsAscending last id users up)
]

take-IsAscending :
    (n lo : ℕ) (users : List (ℕ × User)) → IsAscending lo users → IsAscending lo (take n users)
take-IsAscending zero lo users up = tt
take-IsAscending (suc n) lo [] up = tt
take-IsAscending (suc n) lo ((id, u) ∷ users) (above, up) = (above, take-IsAscending n id users up)

last_id-ge : (lo : ℕ) (users : List (ℕ × User)) → IsAscending lo users → lo ≤ last_id lo users
last_id-ge lo [] up = omega arith
last_id-ge lo ((id, u) ∷ users) (above, up) = omega (arith, last_id-ge id users up)

-- What follows a batch are the users beyond its last id.
beyond_batch :
    (n lo : ℕ) (users : List (ℕ × User))
    → IsAscending lo users
    → beyond (last_id lo (take n users)) users ≡ drop n users
beyond_batch zero lo users up = beyond_all lo lo users (omega arith) up
beyond_batch (suc n) lo [] up = refl
beyond_batch (suc n) lo ((id, u) ∷ users) (above, up) =
    let ge = last_id-ge id (take n users) (take-IsAscending n id users up) in
    ground (arith, ge, beyond_batch n id users up)

beyond_twice :
    (last next : ℕ) (users : List (ℕ × User))
    → last ≤ next
    → beyond next (beyond last users) ≡ beyond next users
beyond_twice last next [] le = refl
beyond_twice last next ((id, u) ∷ users) le = ground (arith, beyond_twice last next users le)

take-nil : (n : ℕ) → take {A = ℕ × User} n [] ≡ []
take-nil zero = refl
take-nil (suc n) = refl

take-cons :
    (n : ℕ) (x : ℕ × User) (xs : List (ℕ × User))
    → 0 < n
    → (take n (x ∷ xs) ≡ x ∷ take (n - 1) xs) × (drop n (x ∷ xs) ≡ drop (n - 1) xs)
take-cons zero x xs h = absurd (omega arith)
take-cons (suc n) x xs h = let e : suc n - 1 ≡ n = omega arith in rw e (refl, refl)

module _ (day_start : ℕ → ℕ) (warning_days batch_size now : ℕ) (users : List (ℕ × User)) where
  abbrev pub soon : List (ℕ × User)
  soon = keep_if (λ e. expires_soon day_start warning_days now e.1) users

  batch-take :
      (last : ℕ)
      → next_batch day_start warning_days batch_size now last users
        ≡ take batch_size (beyond last soon)
  batch-take last =
      let twice =
        keep_if_twice (λ e. expires_soon day_start warning_days now e.1) (λ e. ltb last e.0)
          users in
      rw twice refl

  beyond_next :
      IsAscending 0 users
      → (last : ℕ)
      → beyond (last_id last (take batch_size (beyond last soon))) soon
        ≡ drop batch_size (beyond last soon)
  beyond_next up last =
      let soon_up =
        keep_if-IsAscending (λ e. expires_soon day_start warning_days now e.1) 0 users up in
      let rest_up = beyond-IsAscending last 0 soon soon_up in
      let batch = take batch_size (beyond last soon) in
      let later =
        last_id-ge last batch (take-IsAscending batch_size last (beyond last soon) rest_up) in
      sym (beyond_twice last (last_id last batch) soon later)
      ∙ beyond_batch batch_size last (beyond last soon) rest_up

  -- From any point on, the loop reaches all that are left.
  warn_from_rest :
      0 < batch_size
      → IsAscending 0 users
      → (fuel last total : ℕ) → length (beyond last soon) < fuel
      → warn_from day_start warning_days batch_size fuel now users last total
        ≡ some (beyond last soon, total + length (beyond last soon))
  unfolding warn_from
  warn_from_rest some_users up zero last total enough = absurd (omega arith)
  warn_from_rest some_users up (suc fuel) last total enough = elim (List-cases (beyond last soon)) [
    | inl done ↦
        let none_left : next_batch day_start warning_days batch_size now last users ≡ [] =
          rw (batch-take last, done) (take-nil batch_size) in
        let same : total + 0 ≡ total = omega arith in rw (warn_from, none_left, done, same) refl
    | inr (user, more, left) ↦
        let (size, dropped) = take-cons batch_size user more some_users in
        let batch : next_batch day_start warning_days batch_size now last users
            ≡ user ∷ take (batch_size - 1) more =
          rw (batch-take last, left, size) refl in
        let next = last_id last (user ∷ take (batch_size - 1) more) in
        let after : beyond next soon ≡ drop (batch_size - 1) more =
          ap (λ b. beyond (last_id last b) soon) (sym (ap (take batch_size) left ∙ size))
          ∙ beyond_next up last
          ∙ ap (drop batch_size) left
          ∙ dropped in
        let size_left : length (beyond last soon) ≡ suc (length more) = ap length left in
        let fits = length-drop-le (batch_size - 1) more in
        let shorter : length (beyond next soon) < fuel =
          rw after (omega (arith, size_left, fits)) in
        let more_total = total + length (user ∷ take (batch_size - 1) more) in
        let run = warn_from_rest some_users up fuel next more_total shorter in
        let parts = take-drop (batch_size - 1) more in
        let apart = length-append (take (batch_size - 1) more) (drop (batch_size - 1) more) in
        let whole = ap length parts in
        let sum : more_total + length (drop (batch_size - 1) more) ≡ total + suc (length more) =
          omega (arith, apart, whole) in
        rw (warn_from, batch, run, after, left, parts, sum) refl
  ]

  -- The loop over batches ends, and mails go to exactly the users whose premium time ends in the
  -- days that the query names, to each once and in the order of their ids; their number is what
  -- the loop reports. The ids are positive and ascend, and a batch has room for some user.
  pub check_expiring_subscriptions_reaches :
      0 < batch_size
      → IsAscending 0 users
      → check_expiring_subscriptions day_start warning_days batch_size now users
        ≡ some (soon, length soon)
  unfolding check_expiring_subscriptions
  check_expiring_subscriptions_reaches some_users up =
      let ascending =
        keep_if-IsAscending (λ e. expires_soon day_start warning_days now e.1) 0 users up in
      let all = beyond_all 0 0 soon (omega arith) ascending in
      let kept = length-keep_if (λ e. expires_soon day_start warning_days now e.1) users in
      let fits = count_by-le-length (λ e. expires_soon day_start warning_days now e.1) users in
      let fuel : length (beyond 0 soon) < suc (length users) =
        rw (all, kept) (omega (arith, fits)) in
      let run = warn_from_rest some_users up (suc (length users)) 0 0 fuel in
      let sum : 0 + length soon ≡ length soon = omega arith in
      rw (check_expiring_subscriptions, run, all, sum) refl
