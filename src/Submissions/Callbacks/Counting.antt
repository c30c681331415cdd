-- ===== src/Submissions/Callbacks/Counting.antt =====
-- What one callback counts and stores.
use sfinx_backend.Base.{
  ℕ, ◌+◌, ◌≡◌, refl, inl, inr, true, false, none, some, arith, ◌==◌, ==_iff, or_else, Bool-cases,
  Option-cases,
}
use sfinx_backend.Base.Table.{Table}
use sfinx_backend.Redis.Locks.{LockValue}
use sfinx_backend.Submissions.Callbacks.{
  is_gone, live_meta, Callback, Tracking, store_result, add_result,
}

module _ {P : Type 0} (results : Table ℕ P ◌==◌) (seen : Table ℕ (Unit {0}) ◌==◌)
    (locks : Table ℕ LockValue ◌==◌) where
  abbrev pub counted_so_far : ℕ → Tracking results seen locks → ℕ
  counted_so_far now s = or_else (live_meta results seen locks now s).received 0

  -- At a time, the counter of results is the number of tokens seen.
  abbrev pub IsCounted : ℕ → Tracking results seen locks → Type 0
  IsCounted now s = counted_so_far now s ≡ seen.count s.seen_tokens (λ k v. true)

  pub add_result-new :
      (c : Callback P) (s : Tracking results seen locks)
      → c.redis_fails ≡ false
      → seen.find s.seen_tokens c.token ≡ none
      → add_result results seen locks c s ≡ (
        record {
          added = true;
          received_so_far = counted_so_far c.now s + 1;
          total_expected = or_else (live_meta results seen locks c.now s).total 0;
        },
        store_result results seen locks c s,
      )
  unfolding add_result
  add_result-new c s up new = rw (up, new) refl

  pub add_result-fails :
      (c : Callback P) (s : Tracking results seen locks)
      → c.redis_fails ≡ true
      → ((add_result results seen locks c s).0.added ≡ false)
        × ((add_result results seen locks c s).1 ≡ s)
  unfolding add_result
  add_result-fails c s fails = rw fails (refl, refl)

  pub store_result-IsCounted :
      (c : Callback P) (s : Tracking results seen locks)
      → seen.find s.seen_tokens c.token ≡ none
      → IsCounted c.now s
      → IsCounted c.now (store_result results seen locks c s)
  store_result-IsCounted c s new counted =
      let saved = seen.count-save s.seen_tokens c.token tt (λ k v. true) in
      elim (Bool-cases (is_gone c.now s.meta_expires_at)) [
        | inl gone ↦ rw gone (ground (arith, counted, new, saved, gone))
        | inr live ↦ rw (live, live) (ground (arith, counted, new, saved, live))
      ]

  pub add_result-seen :
      (c : Callback P) (s : Tracking results seen locks)
      → seen.find s.seen_tokens c.token ≡ some tt
      → ((add_result results seen locks c s).0.added ≡ false)
        × ((add_result results seen locks c s).1 ≡ s)
  unfolding add_result
  add_result-seen c s old = elim (Bool-cases c.redis_fails) [
    | inl fails ↦ add_result-fails c s fails
    | inr up ↦ rw (up, old) (refl, refl)
  ]

  stored :
      (c : Callback P) (s : Tracking results seen locks)
      → results.find (store_result results seen locks c s).results_by_index c.index
        ≡ some (or_else (results.find s.results_by_index c.index) c.payload)
  stored c s = elim (Option-cases (results.find s.results_by_index c.index)) [
    | inl free ↦ ground (
      arith,
      free,
      (==_iff c.index c.index).1 refl,
      results.find-save s.results_by_index c.index c.index c.payload,
    )
    | inr (first, there) ↦ ground (arith, there)
  ]

  -- A callback that reaches Redis with a new token counts it once and stores its payload unless
  -- the index has one already; the counter stays the number of tokens seen, and delivering the
  -- same token again, with whatever index and payload, changes nothing.
  pub add_result_once :
      (c : Callback P) (s : Tracking results seen locks)
      → c.redis_fails ≡ false
      → seen.find s.seen_tokens c.token ≡ none
      → IsCounted c.now s
      → let s' = (add_result results seen locks c s).1 in
        IsCounted c.now s'
        × ((add_result results seen locks c s).0.received_so_far ≡ counted_so_far c.now s + 1)
        × (results.find s'.results_by_index c.index
            ≡ some (or_else (results.find s.results_by_index c.index) c.payload))
        × ((again : Callback P)
            → again.token ≡ c.token
            → ((add_result results seen locks again s').0.added ≡ false)
              × ((add_result results seen locks again s').1 ≡ s'))
  add_result_once c s up new counted =
      let self = (==_iff c.token c.token).1 refl in
      let step = add_result-new c s up new in
      let there = seen.find-save s.seen_tokens c.token c.token tt in
      (
        rw step (store_result-IsCounted c s new counted),
        rw step refl,
        rw step (stored c s),
        λ again same. rw step (
            add_result-seen again (store_result results seen locks c s)
              (ground (arith, same, self, there))),
      )
