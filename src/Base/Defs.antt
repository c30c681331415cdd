-- ===== src/Base/Defs.antt =====
-- The exceptions of `@nestjs/common` that services throw, by kind, and fallible results.
use mathlib.Core.Path.{◌≡◌, refl}
use mathlib.Core.Logic.{◌⊎◌, inl, inr}
use mathlib.Core.Bool.{Bool, true, false}
use mathlib.Core.Option.{Option, none, some}

pub data Exception : Type 0 where
  not_found bad_request forbidden conflict internal_error unauthorized : Exception

pub data Result {ℓ} (A : Type ℓ) : Type ℓ where
  throws : Exception → Result A
  ok : A → Result A

module _ {κ ℓ} {B : Type κ} {A : Type ℓ} where
  infixl 5 ◌>>=◌
  abbrev pub ◌>>=◌ : (call : Result A) (next : A → Result B) → Result B
  throws e >>= next = throws e
  ok a >>= next = next a

infixl 5 ◌>>◌
abbrev pub ◌>>◌ {κ} : {B : Type κ} (check : Result (Unit {0})) (next : Result B) → Result B
throws e >> next = throws e
ok done >> next = next

-- `if (c) throw e`
abbrev pub throw_if : Bool → Exception → Result (Unit {0})
throw_if true e = throws e
throw_if false e = ok tt

-- `if (!x) throw e`
abbrev pub or_throw {ℓ} : {A : Type ℓ} → Option A → Exception → Result A
or_throw none e = throws e
or_throw (some a) e = ok a

-- `x ?? d`
abbrev pub or_else {ℓ} : {A : Type ℓ} → Option A → A → A
or_else none d = d
or_else (some a) d = a

abbrev pub is_some {ℓ} : {A : Type ℓ} → Option A → Bool
is_some none = false
is_some (some a) = true

-- The state that a call leaves: a call that throws before its first write leaves the old one.
abbrev pub state_after {ℓ} : {A : Type ℓ} → A → Result A → A
state_after s (ok t) = t
state_after s (throws e) = s

-- How a chain of results can have succeeded.
pub Result-cases {ℓ} :
    {A : Type ℓ} (r : Result A) → ((e : Exception) × (r ≡ throws e)) ⊎ ((a : A) × (r ≡ ok a))
Result-cases (throws e) = inl (e, refl)
Result-cases (ok a) = inr (a, refl)
