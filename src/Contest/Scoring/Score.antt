-- ===== src/Contest/Scoring/Score.antt =====
-- Bounds of the score with time decay.
use sfinx_backend.Base.{
  ℕ, ◌-◌, ◌*◌, ◌≤◌, ◌<◌, ◌≡◌, refl, inl, inr, ◌||◌, arith, min, leb, Bool-cases,
}
use sfinx_backend.Base.Rounding.{round_div-le, round_div_mono, round_div-mul}
use sfinx_backend.Contest.Scoring.{Decay, calculate_score}

mul_mono : (a b c : ℕ) → b ≤ c → a * b ≤ a * c
mul_mono a b c h = grind arith

mul_mono_left : (a b c : ℕ) → a ≤ b → a * c ≤ b * c
mul_mono_left a b c h = grind arith

-- Nothing is lost before the start.
full_before : (w n s r : ℕ) → n ≤ s → w - min ((n - s) * r) w ≡ w
full_before w n s r h = rw (no_time n s h) (omega arith)
  where
    no_time : (n s : ℕ) → n ≤ s → n - s ≡ 0
    no_time n s h = omega arith

whole_pos : (d e : ℕ) → 0 < d → 0 < e → 0 < 60000 * d * e
whole_pos d e h k = grind arith

-- An accepted submission is worth at most the problem's points, and all of them if nothing of the
-- contest's time has passed.
pub calculate_score_bounds :
    (rate : Decay) (points duration start now : ℕ)
    → 0 < rate.decay_den
    → (calculate_score rate points duration start now ≤ 100 * points)
      × (now ≤ start → calculate_score rate points duration start now ≡ 100 * points)
unfolding calculate_score
calculate_score_bounds rate points duration start now pos_den =
    elim (Bool-cases (leb duration 0 || leb points 0)) [
      | inl none_left ↦ rw none_left (omega arith, λ early. refl)
      | inr decays ↦
          let whole = 60000 * duration * rate.decay_den in
          let positive : 0 < whole =
            whole_pos duration rate.decay_den (ground (arith, decays)) pos_den in
          rw decays (
            round_div-le (100 * points) _ whole positive
                (mul_mono (100 * points) _ whole (omega arith)),
            λ early.
                rw (full_before whole now start rate.decay_num early)
                  (round_div-mul (100 * points) whole positive),
          )
    ]

-- A later submission is never worth more.
pub calculate_score_antitone :
    (rate : Decay) (points duration start now later : ℕ)
    → 0 < rate.decay_den
    → now ≤ later
    → calculate_score rate points duration start later
      ≤ calculate_score rate points duration start now
unfolding calculate_score
calculate_score_antitone rate points duration start now later pos_den h =
    elim (Bool-cases (leb duration 0 || leb points 0)) [
      | inl none_left ↦ rw none_left (omega arith)
      | inr decays ↦
          let whole = 60000 * duration * rate.decay_den in
          rw decays (
            round_div_mono _ _ whole
              (whole_pos duration rate.decay_den (ground (arith, decays)) pos_den)
              (mul_mono (100 * points) _ _ (
                omega (
                  arith,
                  mul_mono_left (now - start) (later - start) rate.decay_num (omega arith),
                ))))
    ]
