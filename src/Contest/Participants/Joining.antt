-- ===== src/Contest/Participants/Joining.antt =====
-- Who is registered after a call, and that joining again changes nothing.
use sfinx_backend.Base.{
  ℕ, ◌≡◌, refl, inl, inr, false, none, some, arith, ok, is_some, ◌==◌, same_pair, same_pair_iff,
  Option-cases, Bool-cases,
}
use sfinx_backend.Base.Int.{pos, ◌+ℤ◌}
use sfinx_backend.Contest.Participants.Counting.{find-count_by}
use sfinx_backend.Base.Table.{Table}
use sfinx_backend.Contest.{Contest, ContestParticipant}
use sfinx_backend.Contest.Participants.{
  Db, is_row, new_participant, join_contest, is_user_registered,
}

module _ (contests : Table ℕ Contest ◌==◌)
    (participants : Table (ℕ × ℕ) ContestParticipant same_pair) where
  -- A user counts as registered exactly when there is a participant row for the contest and user.
  pub is_user_registered-find :
      (db : Db contests participants) (contest user : ℕ)
      → is_user_registered contests participants db contest user
        ≡ is_some (participants.find db.participant_rows (contest, user))
  unfolding is_user_registered
  is_user_registered-find db contest user =
      elim (Option-cases (participants.find db.participant_rows (contest, user))) [
        | inl no_row ↦ ground (
          arith,
          participants.count-zero db.participant_rows (is_row contest user)
              (λ k v e. other_row k v e no_row),
        )
        | inr (p, row) ↦ ground (
          arith,
          (same_pair_iff (contest, user) (contest, user)).1 refl,
          participants.count-delete db.participant_rows (contest, user) (is_row contest user),
        )
      ]
    where
      other_row :
          (k : ℕ × ℕ) (v : ContestParticipant)
          → participants.find db.participant_rows k ≡ some v
          → participants.find db.participant_rows (contest, user) ≡ none
          → is_row contest user k v ≡ false
      other_row k v e no_row = elim (Bool-cases (is_row contest user k v)) [
        | inr other ↦ other
        | inl same ↦ let at : k ≡ (contest, user) = (same_pair_iff k (contest, user)).0 same in cc
      ]

  -- After a successful join the user is registered with the returned row, and everybody else's
  -- registration is as before; joining once more, at any time, returns the same row and changes
  -- nothing.
  pub join_contest_again :
      (db db' : Db contests participants) (now later contest user : ℕ) (p : ContestParticipant)
      → join_contest contests participants db now contest user ≡ ok (p, db')
      → (participants.find db'.participant_rows (contest, user) ≡ some p)
        × ((key : ℕ × ℕ)
            → same_pair (contest, user) key ≡ false
            → participants.find db'.participant_rows key
              ≡ participants.find db.participant_rows key)
        × (join_contest contests participants db' later contest user ≡ ok (p, db'))
  unfolding join_contest
  join_contest_again db db' now later contest user p done =
      elim (Option-cases (contests.find db.contest_rows contest)) [
        | inl missing ↦ absurd (ground arith)
        | inr (c, found) ↦
            elim (Option-cases (participants.find db.participant_rows (contest, user))) [
              | inr (old, registered) ↦ (ground arith, λ key ne. ground arith, ground arith)
              | inl fresh ↦
                  let new_row = participants.find-save db.participant_rows (contest, user) in
                  let self = (same_pair_iff (contest, user) (contest, user)).1 refl in
                  let there =
                    find-count_by contests participants (λ n. n +ℤ pos 1) db.contest_rows contest
                      contest c found in
                  (
                    ground (arith, self, new_row (contest, user) (new_participant now)),
                    λ key ne. ground (arith, ne, new_row key (new_participant now)),
                    ground (arith, there, self, new_row (contest, user) (new_participant now)),
                  )
            ]
      ]
