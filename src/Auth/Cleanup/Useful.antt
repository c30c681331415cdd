-- ===== src/Auth/Cleanup/Useful.antt =====
-- Sessions that are still of use, and what keeps them the same.
use sfinx_backend.Base.{
  ℕ, ap, sym, ◌∙◌, false, ◌≡◌, ◌≤◌, ◌||◌, refl, inl, inr, Option, none, some, arith, ◌==◌, ==_iff,
  Bool-cases, if◌then◌else◌,
}
use sfinx_backend.Auth.{RefreshToken, revoked, is_expired, Services}

-- A session that is still of use at a time.
abbrev pub useful : ℕ → Option RefreshToken → Option RefreshToken
useful now none = none
useful now (some t) = if is_expired now t || t.is_revoked then none else some t

-- A session useful later is useful now.
pub useful_later :
    (now later : ℕ) (o : Option RefreshToken)
    → now ≤ later
    → (useful now (useful later o) ≡ useful later o)
      × (useful later (useful now o) ≡ useful later o)
useful_later now later none order = (refl, refl)
useful_later now later (some t) order = elim (Bool-cases (is_expired later t || t.is_revoked)) [
  | inl useless ↦ elim (Bool-cases (is_expired now t || t.is_revoked)) [
    | inl already ↦ (ground (arith, useless, already), ground (arith, useless, already))
    | inr not_yet ↦ (ground (arith, useless, not_yet), ground (arith, useless, not_yet))
  ]
  | inr valid ↦
      let earlier : is_expired now t || t.is_revoked ≡ false = ground (arith, valid, order) in
      (ground (arith, valid, earlier), ground (arith, valid, earlier))
]

pub useful-found :
    (now : ℕ) (o : Option RefreshToken) (t : RefreshToken) → useful now o ≡ some t → o ≡ some t
useful-found now none t h = absurd (ground (arith, h))
useful-found now (some t') t h = elim (Bool-cases (is_expired now t' || t'.is_revoked)) [
  | inl useless ↦ absurd (ground (arith, h, useless))
  | inr valid ↦ ground (arith, h, valid)
]

pub same_later :
    (now later : ℕ) (o o' : Option RefreshToken)
    → now ≤ later
    → useful now o' ≡ useful now o
    → useful later o' ≡ useful later o
same_later now later o o' order same =
    sym (useful_later now later o' order).1
    ∙ ap (useful later) same
    ∙ (useful_later now later o order).1

module _ (sv : Services) where
  abbrev pub Rows : Type 0
  Rows = sv.refresh_tokens.Rows

  -- The same useful sessions.
  abbrev pub IsSame : ℕ → Rows → Rows → Type 0
  IsSame now s s' =
      (j : ℕ) → useful now (sv.refresh_tokens.find s' j) ≡ useful now (sv.refresh_tokens.find s j)

  pub save-IsSame :
      (now k : ℕ) (t : RefreshToken) (s s' : Rows)
      → IsSame now s s'
      → IsSame now (sv.refresh_tokens.save s k t) (sv.refresh_tokens.save s' k t)
  save-IsSame now k t s s' same j =
      rw (sv.refresh_tokens.find-save s k j t, sv.refresh_tokens.find-save s' k j t)
        (elim (Bool-cases (k == j)) [ inl here ↦ rw here refl | inr there ↦ rw there (same j) ])

  -- Revoking a useless session changes nothing.
  pub revoke-IsSame :
      (now later k : ℕ) (t : RefreshToken) (s : Rows)
      → useful now (sv.refresh_tokens.find s k) ≡ none
      → IsSame now s (sv.refresh_tokens.save s k (revoked later t))
  revoke-IsSame now later k t s useless j =
      let saved = sv.refresh_tokens.find-save s k j (revoked later t) in
      elim (Bool-cases (k == j)) [
        | inl here ↦
            let there : k ≡ j = (==_iff k j).0 here in
            rw (saved, here) (ground (arith, rw there at useless))
        | inr there ↦ ground (arith, saved, there)
      ]

  pub delete-IsSame :
      (now later : ℕ) (s s' : Rows)
      → now ≤ later
      → IsSame now s s'
      → IsSame now
          (sv.refresh_tokens.delete_where s (λ j t. is_expired later t || t.is_revoked))
          (sv.refresh_tokens.delete_where s' (λ j t. is_expired later t || t.is_revoked))
  delete-IsSame now later s s' order same j =
      let o = sv.refresh_tokens.find s j in
      let o' = sv.refresh_tokens.find s' j in
      rw
        (
          sv.refresh_tokens.find-delete_where s (λ j t. is_expired later t || t.is_revoked) j,
          sv.refresh_tokens.find-delete_where s' (λ j t. is_expired later t || t.is_revoked) j,
        )
        ((useful_later now later o' order).0
          ∙ same_later now later o o' order (same j)
          ∙ sym (useful_later now later o order).0)

  pub cleanup-IsSame :
      (now : ℕ) (s : Rows)
      → IsSame now s (sv.refresh_tokens.delete_where s (λ j t. is_expired now t || t.is_revoked))
  cleanup-IsSame now s j =
      rw (sv.refresh_tokens.find-delete_where s (λ j t. is_expired now t || t.is_revoked) j)
        (useful_later now now (sv.refresh_tokens.find s j) (omega arith)).0
