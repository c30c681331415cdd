-- ===== src/Base/Pigeons.antt =====
-- Names in a table: there are no more distinct ones than rows.
use Prim.Native.Nat.{ℕ, zero, suc, ◌≤◌, ◌<◌}
use mathlib.Core.Path.{◌≡◌}
use mathlib.Core.Logic.{inl, inr}
use mathlib.Core.Bool.{true}
use mathlib.Core.Option.{some}
use native.Mathlib.Omega.{arith}
use sfinx_backend.Base.Tests.{◌==◌, Bool-cases}
use sfinx_backend.Base.Table.{Table}

module _ {V A : Type 0} (t : Table ℕ V ◌==◌) (name_of : V → A) where
  -- Some row has the name.
  abbrev pub Taken : t.Rows → A → Type 0
  Taken s x = (id : ℕ) × (v : V) × (t.find s id ≡ some v) × (name_of v ≡ x)

  pub pigeonhole :
      (k : ℕ) (names : ℕ → A) (s : t.Rows)
      → ((i j : ℕ) → names i ≡ names j → i ≡ j)
      → ((i : ℕ) → i < k → Taken s (names i))
      → k ≤ t.count s (λ id v. true)
  pigeonhole zero names s apart taken = omega arith
  pigeonhole (suc k) names s apart taken =
      let (id, v, found, named) = taken k (omega arith) in
      let fewer = t.count-delete s id (λ id v. true) in
      let rest = pigeonhole k names (t.delete s id) apart (λ i below.
        let (j, w, there, called) = taken i (omega arith) in
        elim (Bool-cases (id == j)) [
          | inl same ↦
              let equal : names i ≡ names k = ground (arith, same, found, there, named, called) in
              absurd (omega (arith, apart i k equal))
          | inr other ↦ (j, w, ground (arith, other, there, t.find-delete s id j), called)
        ]) in
      ground (arith, fewer, found, rest)
