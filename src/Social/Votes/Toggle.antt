-- ===== src/Social/Votes/Toggle.antt =====
-- What a vote stores: the three branches of `vote`, and how they move the numbers of votes.
use sfinx_backend.Base.{
  ℕ, ◌≡◌, refl, inl, inr, Option, none, some, arith, ◌==◌, same_pair, if◌then◌else◌, Option-cases,
  Bool-cases, Bool, true, same_pair_iff,
}
use sfinx_backend.Base.Table.{Table}
use sfinx_backend.Social.Votes.{
  VoteType, upvote, downvote, same_vote, Votable, Db, upvotes_of, downvotes_of, update_vote_counts,
  vote, get_user_vote,
}

-- What a user's vote becomes: the same vote again takes it back, any other vote replaces it.
abbrev pub toggled : Option VoteType → VoteType → Option VoteType
toggled none kind = some kind
toggled (some old) kind = if same_vote old kind then none else some kind

module _ (votes : Table (ℕ × ℕ) VoteType same_pair) (votables : Table ℕ Votable ◌==◌) where
  -- A vote toggles the voter's own vote on that entity, and leaves every other vote, of this user
  -- or of others, as it was.
  pub get_user_vote-vote :
      (db : Db votes votables) (votable user j u : ℕ) (kind : VoteType)
      → get_user_vote votes votables (vote votes votables db votable user kind) j u ≡ (
          if same_pair (votable, user) (j, u)
          then toggled (get_user_vote votes votables db votable user) kind
          else get_user_vote votes votables db j u)
  unfolding vote get_user_vote update_vote_counts
  get_user_vote-vote db votable user j u kind =
      elim (Option-cases (votes.find db.vote_rows (votable, user))) [
        | inl fresh ↦ rw (fresh, vote) (votes.find-save db.vote_rows (votable, user) (j, u) kind)
        | inr (old, found) ↦ elim (Bool-cases (same_vote old kind)) [
          | inl same ↦
              rw (found, vote) (rw same (votes.find-delete db.vote_rows (votable, user) (j, u)))
          | inr other ↦
              rw (found, vote) (rw other (votes.find-save db.vote_rows (votable, user) (j, u) kind))
        ]
      ]

  first_vote_rows :
      (db : Db votes votables) (votable user : ℕ) (kind : VoteType)
      → votes.find db.vote_rows (votable, user) ≡ none
      → (vote votes votables db votable user kind).vote_rows
        ≡ votes.save db.vote_rows (votable, user) kind
  unfolding vote update_vote_counts
  first_vote_rows db votable user kind fresh = rw (fresh, vote)

  same_vote_rows :
      (db : Db votes votables) (votable user : ℕ) (kind : VoteType)
      → votes.find db.vote_rows (votable, user) ≡ some kind
      → (vote votes votables db votable user kind).vote_rows
        ≡ votes.delete db.vote_rows (votable, user)
  unfolding vote update_vote_counts
  same_vote_rows db votable user upvote found = rw (found, vote)
  same_vote_rows db votable user downvote found = rw (found, vote)

  save-delete_counts :
      (s : votes.Rows) (key : ℕ × ℕ) (kind : VoteType) (p : ℕ × ℕ → VoteType → Bool)
      → votes.find s key ≡ none
      → votes.count (votes.delete (votes.save s key kind) key) p ≡ votes.count s p
  save-delete_counts s key kind p fresh =
      let stored : votes.find (votes.save s key kind) key ≡ some kind =
        rw (votes.find-save s key key kind, (same_pair_iff key key).1 refl) in
      ground (
        arith,
        stored,
        votes.count-save s key kind p,
        votes.count-delete (votes.save s key kind) key p,
      )

  -- From no vote, voting twice the same way stores no vote again, and the entity has as many
  -- upvotes and downvotes as before.
  pub vote_twice :
      (db : Db votes votables) (votable user : ℕ) (kind : VoteType)
      → get_user_vote votes votables db votable user ≡ none
      → let twice =
          vote votes votables (vote votes votables db votable user kind) votable user kind in
        (get_user_vote votes votables twice votable user ≡ none)
        × (upvotes_of votes votables twice.vote_rows votable
            ≡ upvotes_of votes votables db.vote_rows votable)
        × (downvotes_of votes votables twice.vote_rows votable
            ≡ downvotes_of votes votables db.vote_rows votable)
  unfolding get_user_vote
  vote_twice db votable user kind fresh =
      let first = first_vote_rows db votable user kind fresh in
      let stored : votes.find (vote votes votables db votable user kind).vote_rows (votable, user)
          ≡ some kind =
        rw (first, votes.find-save db.vote_rows (votable, user) (votable, user) kind, same_self) in
      let second =
        same_vote_rows (vote votes votables db votable user kind) votable user kind stored in
      rw (second, first)
        (
          rw (votes.find-delete _ (votable, user) (votable, user), same_self),
          save-delete_counts db.vote_rows (votable, user) kind _ fresh,
          save-delete_counts db.vote_rows (votable, user) kind _ fresh,
        )
    where
      same_self : same_pair (votable, user) (votable, user) ≡ true
      same_self = (same_pair_iff (votable, user) (votable, user)).1 refl
