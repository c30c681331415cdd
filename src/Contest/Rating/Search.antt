-- ===== src/Contest/Rating/Search.antt =====
-- The binary search for the rating that a rank stands for.
use sfinx_backend.Base.{
  ℕ, zero, suc, ◌+◌, ◌-◌, ◌/◌, ◌≡◌, ◌≤◌, ◌<◌, ◌⊎◌, refl, inl, inr, Bool, true, false, some, arith,
  ltb, Bool-cases,
}
use sfinx_backend.Contest.Rating.{search_rating, find_target_rating}

module _ (too_high : ℕ → Bool) where
  -- A rating where the expected rank crosses the middle rank, or an end of the range.
  abbrev pub IsCrossing : ℕ → ℕ → ℕ → Type 0
  IsCrossing first last r =
      (first ≤ r)
      × (r < last)
      × ((r ≡ first) ⊎ (too_high r ≡ false))
      × ((r + 1 ≡ last) ⊎ (too_high (r + 1) ≡ true))

  search_rating-IsCrossing :
      (first last fuel lo hi : ℕ)
      → first ≤ lo
      → lo < hi
      → hi ≤ last
      → hi ≤ lo + 1 + fuel
      → (lo ≡ first) ⊎ (too_high lo ≡ false)
      → (hi ≡ last) ⊎ (too_high hi ≡ true)
      → (r : ℕ) × (search_rating too_high fuel lo hi ≡ some r) × IsCrossing first last r
  unfolding search_rating
  search_rating-IsCrossing first last zero lo hi from less until enough low high =
      let end : hi ≡ lo + 1 = omega arith in
      (lo, ground arith, (from, omega arith, low, rw (← end) high))
  search_rating-IsCrossing first last (suc fuel) lo hi from less until enough low high =
      elim (Bool-cases (ltb 1 (hi - lo))) [
        | inr done ↦
            let end : hi ≡ lo + 1 = ground arith in
            (lo, rw done refl, (from, omega arith, low, rw (← end) high))
        | inl wide ↦
            let far : lo + 1 < hi = ground arith in
            elim (Bool-cases (too_high ((lo + hi) / 2))) [
              | inl above ↦
                  let (r, found, cross) =
                    search_rating-IsCrossing first last fuel lo ((lo + hi) / 2) from (omega arith)
                      (omega arith) (omega arith) low (inr above) in
                  (r, rw (wide, above) found, cross)
              | inr below ↦
                  let (r, found, cross) =
                    search_rating-IsCrossing first last fuel ((lo + hi) / 2) hi (omega arith)
                      (omega arith) until (omega arith) (inr below) high in
                  (r, rw (wide, below) found, cross)
            ]
      ]

  -- The search ends, whatever the comparison answers, with a rating from 1 to 7999 that is not
  -- too high unless it is 1, and whose successor is too high unless that is 8000.
  pub find_target_rating-IsCrossing :
      (r : ℕ) × (find_target_rating too_high ≡ some r) × IsCrossing 1 8000 r
  unfolding find_target_rating
  find_target_rating-IsCrossing =
      search_rating-IsCrossing 1 8000 8000 1 8000 (omega arith) (omega arith) (omega arith)
        (omega arith) (inl refl) (inl refl)
