-- ===== src/Social/Votes/Counters.antt =====
-- The counters of a votable entity against the votes that are stored for it.
use sfinx_backend.Base.{
  ℕ, ◌+◌, ◌≡◌, sym, refl, if◌then◌else◌, Option, none, ==_iff, inl, inr, some, arith, ◌==◌,
  same_pair, Option-cases, Bool-cases,
}
use mathlib.Core.Path.{subst}
use sfinx_backend.Base.Int.{pos, ◌-ℤ◌}
use sfinx_backend.Base.Table.{Table}
use sfinx_backend.Social.Votes.{
  is_vote_on, get_user_vote, upvote, downvote, VoteType, same_vote, Votable, Db, upvotes_of,
  downvotes_of, update_vote_counts, vote,
}
use sfinx_backend.Social.Votes.Toggle.{toggled, get_user_vote-vote}

module _ (votes : Table (ℕ × ℕ) VoteType same_pair) (votables : Table ℕ Votable ◌==◌) where
  -- The entity's three counters are those of the stored votes.
  abbrev pub Tallied : Db votes votables → ℕ → Votable → Type 0
  Tallied db votable row =
      (row.upvote_count ≡ upvotes_of votes votables db.vote_rows votable)
      × (row.downvote_count ≡ downvotes_of votes votables db.vote_rows votable)
      × (row.vote_score ≡ pos row.upvote_count -ℤ pos row.downvote_count)

  pub update_vote_counts-Tallied :
      (db : Db votes votables) (votable : ℕ) (row : Votable)
      → votables.find (update_vote_counts votes votables db votable).votable_rows votable ≡ some row
      → Tallied (update_vote_counts votes votables db votable) votable row
  unfolding update_vote_counts
  update_vote_counts-Tallied db votable row h =
      elim (Option-cases (votables.find db.votable_rows votable)) [
        | inl missing ↦ ground arith
        | inr (old, found) ↦ ground (
          arith,
          votables.find-save db.votable_rows votable votable (record old {
            upvote_count = upvotes_of votes votables db.vote_rows votable;
            downvote_count = downvotes_of votes votables db.vote_rows votable;
            vote_score =
                pos (upvotes_of votes votables db.vote_rows votable)
                -ℤ pos (downvotes_of votes votables db.vote_rows votable);
          }),
        )
      ]

  -- Every entity row that is there has counters that agree with the stored votes.
  abbrev pub IsTallied : Db votes votables → ℕ → Type 0
  IsTallied db votable =
      (row : Votable) → votables.find db.votable_rows votable ≡ some row → Tallied db votable row

  -- On each branch a vote ends by recounting.
  vote_recounts :
      (db : Db votes votables) (votable user : ℕ) (kind : VoteType)
      → (rows : votes.Rows) × (vote votes votables db votable user kind
          ≡ update_vote_counts votes votables (record db { vote_rows = rows }) votable)
  unfolding vote
  vote_recounts db votable user kind =
      elim (Option-cases (votes.find db.vote_rows (votable, user))) [
        | inl fresh ↦ (votes.save db.vote_rows (votable, user) kind, rw (fresh, vote))
        | inr (old, found) ↦ elim (Bool-cases (same_vote old kind)) [
          | inl same ↦ (votes.delete db.vote_rows (votable, user), rw (found, vote) (rw same))
          | inr other ↦ (votes.save db.vote_rows (votable, user) kind, rw (found, vote) (rw other))
        ]
      ]

  recounted :
      (db : Db votes votables) (votable user : ℕ) (kind : VoteType)
      → IsTallied (vote votes votables db votable user kind) votable
  recounted db votable user kind =
      let (rows, e) = vote_recounts db votable user kind in
      subst (λ d. IsTallied d votable) (sym e)
        (update_vote_counts-Tallied (record db { vote_rows = rows }) votable)

  -- Whether a user's vote, if there is one, is of a kind.
  abbrev pub one_if : VoteType → Option VoteType → ℕ
  one_if kind none = 0
  one_if kind (some v) = if same_vote v kind then 1 else 0

  count_moves :
      (db : Db votes votables) (votable user : ℕ) (kind counted : VoteType)
      → votes.count
            (vote votes votables db votable user kind).vote_rows
            (is_vote_on votable counted)
          + one_if counted (votes.find db.vote_rows (votable, user))
        ≡ votes.count db.vote_rows (is_vote_on votable counted)
          + one_if counted (toggled (votes.find db.vote_rows (votable, user)) kind)
  unfolding vote update_vote_counts
  count_moves db votable user kind counted =
      let self = (==_iff votable votable).1 refl in
      let saved = votes.count-save db.vote_rows (votable, user) kind (is_vote_on votable counted) in
      let deleted = votes.count-delete db.vote_rows (votable, user) (is_vote_on votable counted) in
      elim (Option-cases (votes.find db.vote_rows (votable, user))) [
        | inl fresh ↦ rw (fresh, vote) (ground (arith, fresh, self, saved))
        | inr (old, found) ↦ elim (Bool-cases (same_vote old kind)) [
          | inl same ↦ rw (found, vote) (rw same (ground (arith, found, self, deleted)))
          | inr other ↦ rw (found, vote) (rw other (ground (arith, found, self, saved)))
        ]
      ]

  row_kept :
      (db : Db votes votables) (votable user : ℕ) (kind : VoteType) (row : Votable)
      → votables.find db.votable_rows votable ≡ some row
      → (row' : Votable) × (votables.find
            (vote votes votables db votable user kind).votable_rows
            votable
          ≡ some row')
  unfolding update_vote_counts
  row_kept db votable user kind row there =
      let (rows, e) = vote_recounts db votable user kind in
      let new : Votable = record row {
        upvote_count = upvotes_of votes votables rows votable;
        downvote_count = downvotes_of votes votables rows votable;
        vote_score =
            pos (upvotes_of votes votables rows votable)
            -ℤ pos (downvotes_of votes votables rows votable);
      } in
      (
        new,
        rw e (
            ground (
              arith,
              there,
              (==_iff votable votable).1 refl,
              votables.find-save db.votable_rows votable votable new,
            )),
      )

  -- A vote toggles the voter's own vote on an entity: the same vote again takes it back, any other
  -- replaces it, and all other votes stay. Where the entity's counters agreed with the stored votes
  -- before, they do after it, so each moves by what the toggle took and gave, and the score is
  -- their difference.
  pub vote-IsTallied :
      (db : Db votes votables) (votable user : ℕ) (kind : VoteType) (row : Votable)
      → votables.find db.votable_rows votable ≡ some row
      → IsTallied db votable
      → let db' = vote votes votables db votable user kind in
        let old = get_user_vote votes votables db votable user in
        ((j u : ℕ)
          → get_user_vote votes votables db' j u ≡ (
              if same_pair (votable, user) (j, u)
              then toggled old kind
              else get_user_vote votes votables db j u))
        × IsTallied db' votable
        × (row' : Votable) × (votables.find db'.votable_rows votable ≡ some row')
        × (row'.upvote_count + one_if upvote old
            ≡ row.upvote_count + one_if upvote (toggled old kind))
        × (row'.downvote_count + one_if downvote old
            ≡ row.downvote_count + one_if downvote (toggled old kind))
        × (row'.vote_score ≡ pos row'.upvote_count -ℤ pos row'.downvote_count)
  unfolding get_user_vote
  vote-IsTallied db votable user kind row there tallied =
      let (row', kept) = row_kept db votable user kind row there in
      let before = tallied row there in
      let after = recounted db votable user kind row' kept in
      let ups = count_moves db votable user kind upvote in
      let downs = count_moves db votable user kind downvote in
      (
        λ j u. get_user_vote-vote votes votables db votable user j u kind,
        recounted db votable user kind,
        row',
        kept,
        omega (arith, before.0, after.0, ups),
        omega (arith, before.1, after.1, downs),
        after.2,
      )
