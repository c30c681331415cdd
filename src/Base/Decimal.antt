-- ===== src/Base/Decimal.antt =====
-- Numbers in template literals: their decimal digits, and that different numbers differ in them.
use Prim.Native.Nat.{ℕ, zero, suc, ◌/◌, ◌%◌, ◌<◌}
use Prim.Native.String.{String, ◌++◌, count}
use mathlib.Core.Path.{◌≡◌, refl, sym, ap, ◌∙◌}
use mathlib.Core.Logic.{inl, inr}
use native.Mathlib.Omega.{arith}
use text.Mathlib.Text.{◌==◌}
use text.Mathlib.TextLemmas.{length-append, append_inj}
use sfinx_backend.Base.Tests.{◌==◌ as ◌==ℕ◌, ltb, if◌then◌else◌, Bool-cases}

abbrev digit : ℕ → String
digit d =
    if d ==ℕ 0
    then "0"
    else if d ==ℕ 1
    then "1"
    else if d ==ℕ 2
    then "2"
    else if d ==ℕ 3
    then "3"
    else if d ==ℕ 4
    then "4"
    else if d ==ℕ 5
    then "5"
    else if d ==ℕ 6
    then "6"
    else if d ==ℕ 7
    then "7"
    else if d ==ℕ 8
    then "8"
    else "9"

-- On fuel: each round divides by ten.
unfoldable digits : ℕ → ℕ → String
digits zero n = ""
digits (suc fuel) n =
    let rest = digits fuel (n / 10) in (if ltb n 10 then "" else rest) ++ digit (n % 10)

-- `${n}`
unfoldable pub decimal : ℕ → String
unfolding digits
decimal n = digits (suc n) n

abbrev value : String → ℕ
value s =
    if s == "0"
    then 0
    else if s == "1"
    then 1
    else if s == "2"
    then 2
    else if s == "3"
    then 3
    else if s == "4"
    then 4
    else if s == "5"
    then 5
    else if s == "6"
    then 6
    else if s == "7"
    then 7
    else if s == "8"
    then 8
    else 9

value-digit : (d : ℕ) → d < 10 → value (digit d) ≡ d
value-digit zero h = refl
value-digit (suc zero) h = refl
value-digit (suc (suc zero)) h = refl
value-digit (suc (suc (suc zero))) h = refl
value-digit (suc (suc (suc (suc zero)))) h = refl
value-digit (suc (suc (suc (suc (suc zero))))) h = refl
value-digit (suc (suc (suc (suc (suc (suc zero)))))) h = refl
value-digit (suc (suc (suc (suc (suc (suc (suc zero))))))) h = refl
value-digit (suc (suc (suc (suc (suc (suc (suc (suc zero)))))))) h = refl
value-digit (suc (suc (suc (suc (suc (suc (suc (suc (suc zero))))))))) h = refl
value-digit (suc (suc (suc (suc (suc (suc (suc (suc (suc (suc d)))))))))) h = absurd (omega arith)

count-digit : (d : ℕ) → d < 10 → count (digit d) ≡ 1
count-digit zero h = refl
count-digit (suc zero) h = refl
count-digit (suc (suc zero)) h = refl
count-digit (suc (suc (suc zero))) h = refl
count-digit (suc (suc (suc (suc zero)))) h = refl
count-digit (suc (suc (suc (suc (suc zero))))) h = refl
count-digit (suc (suc (suc (suc (suc (suc zero)))))) h = refl
count-digit (suc (suc (suc (suc (suc (suc (suc zero))))))) h = refl
count-digit (suc (suc (suc (suc (suc (suc (suc (suc zero)))))))) h = refl
count-digit (suc (suc (suc (suc (suc (suc (suc (suc (suc zero))))))))) h = refl
count-digit (suc (suc (suc (suc (suc (suc (suc (suc (suc (suc d)))))))))) h = absurd (omega arith)

digit_injective : (d e : ℕ) → d < 10 → e < 10 → digit d ≡ digit e → d ≡ e
digit_injective d e hd he same = sym (value-digit d hd) ∙ ap value same ∙ value-digit e he

-- Two texts that end in a digit each.
ends_apart :
    (s t : String) (d e : ℕ) → d < 10 → e < 10 → s ++ digit d ≡ t ++ digit e → (s ≡ t) × (d ≡ e)
ends_apart s t d e hd he same =
    let left = length-append s (digit d) in
    let right = length-append t (digit e) in
    let whole : count (s ++ digit d) ≡ count (t ++ digit e) = ap count same in
    let (starts, ends) =
      append_inj same (omega (arith, left, right, whole, count-digit d hd, count-digit e he)) in
    (starts, digit_injective d e hd he ends)

digits_longer : (fuel n : ℕ) → n < fuel → 0 < count (digits fuel n)
unfolding digits
digits_longer zero n h = absurd (omega arith)
digits_longer (suc fuel) n h =
    let size = length-append (if ltb n 10 then "" else digits fuel (n / 10)) (digit (n % 10)) in
    let one = count-digit (n % 10) (omega arith) in omega (arith, size, one)

digits_injective :
    (fuel fuel' m n : ℕ) → m < fuel → n < fuel' → digits fuel m ≡ digits fuel' n → m ≡ n
unfolding digits
digits_injective zero fuel' m n hm hn same = absurd (omega arith)
digits_injective (suc fuel) zero m n hm hn same = absurd (omega arith)
digits_injective (suc fuel) (suc fuel') m n hm hn same =
    let (starts, ends) =
      ends_apart (if ltb m 10 then "" else digits fuel (m / 10))
        (if ltb n 10 then "" else digits fuel' (n / 10)) (m % 10) (n % 10) (omega arith)
        (omega arith) same in
    elim (Bool-cases (ltb m 10)) [
      | inl low ↦ elim (Bool-cases (ltb n 10)) [
        | inl low' ↦ ground (arith, low, low', ends)
        | inr high' ↦
            let long = digits_longer fuel' (n / 10) (ground (arith, high', hn)) in
            let none_first : "" ≡ digits fuel' (n / 10) = rw (low, high') at starts in
            absurd (omega (arith, long, ap count none_first))
      ]
      | inr high ↦ elim (Bool-cases (ltb n 10)) [
        | inl low' ↦
            let long = digits_longer fuel (m / 10) (ground (arith, high, hm)) in
            let none_first : digits fuel (m / 10) ≡ "" = rw (high, low') at starts in
            absurd (omega (arith, long, ap count none_first))
        | inr high' ↦
            let front : digits fuel (m / 10) ≡ digits fuel' (n / 10) = rw (high, high') at starts in
            let same_front =
              digits_injective fuel fuel' (m / 10) (n / 10) (ground (arith, high, hm))
                (ground (arith, high', hn)) front in
            omega (arith, same_front, ends)
      ]
    ]

pub decimal_injective : (m n : ℕ) → decimal m ≡ decimal n → m ≡ n
unfolding decimal
decimal_injective m n = digits_injective (suc m) (suc n) m n (omega arith) (omega arith)
