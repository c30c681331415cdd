-- ===== src/Contest/Participants/Counting.antt =====
-- The participant count of a contest against its participants.
use sfinx_backend.Base.{
  ℕ, ◌≤◌, ◌<◌, ◌≡◌, inl, inr, some, arith, Result, ok, throws, Result-cases, ◌==◌, same_pair,
  if◌then◌else◌, Option-cases,
}
use sfinx_backend.Base.Int.{ℤ, pos, ◌+ℤ◌, ◌-ℤ◌}
use sfinx_backend.Base.Table.{Table}
use sfinx_backend.Contest.{Contest, ContestParticipant}
use sfinx_backend.Contest.Participants.{
  Db, is_in, new_participant, count_by, join_contest, unregister_from_contest,
}

module _ (contests : Table ℕ Contest ◌==◌)
    (participants : Table (ℕ × ℕ) ContestParticipant same_pair) where
  abbrev pub joined : Db contests participants → ℕ → ℕ
  joined db contest = participants.count db.participant_rows (is_in contest)

  -- The stored participant count is the number of participants, and it is within the limit if
  -- there is one.
  pub record IsCounted (db : Db contests participants) (contest : ℕ) (c : Contest) : Type 0 where
    pub counted : c.participant_count ≡ pos (joined db contest)
    pub within : 0 < c.max_participants → joined db contest ≤ c.max_participants

  abbrev pub AllCounted : Db contests participants → Type 0
  AllCounted db =
      (contest : ℕ) (c : Contest)
      → contests.find db.contest_rows contest ≡ some c
      → IsCounted db contest c

  pub find-count_by :
      (f : ℤ → ℤ) (s : contests.Rows) (id j : ℕ) (c : Contest)
      → contests.find s id ≡ some c
      → contests.find (count_by contests participants f s id) j ≡ (
          if id == j
          then some (record c { participant_count = f c.participant_count })
          else contests.find s j)
  find-count_by f s id j c found =
      ground
        (arith, contests.find-save s id j (record c { participant_count = f c.participant_count }))

  joined-AllCounted :
      (db db' : Db contests participants) (now contest user : ℕ) (p : ContestParticipant)
      → AllCounted db
      → join_contest contests participants db now contest user ≡ ok (p, db')
      → AllCounted db'
  unfolding join_contest ◌+ℤ◌
  joined-AllCounted db db' now contest user p all done j c' h =
      elim (Option-cases (contests.find db.contest_rows contest)) [
        | inl missing ↦ absurd (ground arith)
        | inr (c, found) ↦
            elim (Option-cases (participants.find db.participant_rows (contest, user))) [
              | inr (old, registered) ↦ ground (arith, all j c')
              | inl fresh ↦ ground (
                arith,
                all j c',
                all contest c,
                find-count_by (λ n. n +ℤ pos 1) db.contest_rows contest j c found,
                participants.count-save db.participant_rows (contest, user) (new_participant now)
                    (is_in j),
              )
            ]
      ]

  -- The rows after a call that answers with them: one that throws writes nothing.
  abbrev pub left_by :
      Db contests participants
      → Result (ContestParticipant × Db contests participants)
      → Db contests participants
  left_by db (throws e) = db
  left_by db (ok (p, db')) = db'

  -- Joining, whether it is refused, repeated or new, keeps the participant count of every contest
  -- equal to its number of participants and within its limit.
  pub join_contest-AllCounted :
      (db : Db contests participants) (now contest user : ℕ)
      → AllCounted db
      → AllCounted (left_by db (join_contest contests participants db now contest user))
  join_contest-AllCounted db now contest user all =
      elim (Result-cases (join_contest contests participants db now contest user)) [
        | inl (e, refused) ↦ rw refused all
        | inr ((p, db'), done) ↦ rw done (joined-AllCounted db db' now contest user p all done)
      ]

  -- Leaving keeps it so too.
  pub unregister_from_contest-AllCounted :
      (db db' : Db contests participants) (contest user : ℕ)
      → AllCounted db
      → unregister_from_contest contests participants db contest user ≡ ok db'
      → AllCounted db'
  unfolding unregister_from_contest ◌-ℤ◌
  unregister_from_contest-AllCounted db db' contest user all done j c' h =
      elim (Option-cases (contests.find db.contest_rows contest)) [
        | inl missing ↦ absurd (ground arith)
        | inr (c, found) ↦
            elim (Option-cases (participants.find db.participant_rows (contest, user))) [
              | inl no_row ↦ absurd (ground arith)
              | inr (old, registered) ↦ ground (
                arith,
                all j c',
                all contest c,
                find-count_by (λ n. n -ℤ pos 1) db.contest_rows contest j c found,
                participants.count-delete db.participant_rows (contest, user) (is_in j),
              )
            ]
      ]
