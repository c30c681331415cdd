-- ===== src/Social/Votes.antt =====
-- src/modules/comments-base/base-votes.service.ts: `BaseVotesService`, over the two tables that
-- its repositories stand for. A vote's primary key is (votableId, userId).
pub mod Counters
pub mod Toggle
mod Tests
use sfinx_backend.Base.{
  ℕ, ◌≡◌, Bool, true, false, ◌&&◌, Option, none, some, arith, ◌==◌, same_pair, if◌then◌else◌,
}
use sfinx_backend.Base.Int.{ℤ, pos, ◌-ℤ◌}
use sfinx_backend.Base.Table.{Table, map_row}

pub data VoteType : Type 0 where
  upvote downvote : VoteType

abbrev pub same_vote : VoteType → VoteType → Bool
same_vote upvote upvote = true
same_vote downvote downvote = true
same_vote _ _ = false

-- The columns of a votable entity that voting writes.
pub record Votable : Type 0 where
  pub upvote_count : ℕ
  pub downvote_count : ℕ
  pub vote_score : ℤ

-- `where: { [votableIdField]: votableId, voteType }`
abbrev pub is_vote_on : ℕ → VoteType → ℕ × ℕ → VoteType → Bool
is_vote_on votable kind (j, user) v = (j == votable) && same_vote v kind

module _ (votes : Table (ℕ × ℕ) VoteType same_pair) (votables : Table ℕ Votable ◌==◌) where
  pub record Db : Type 0 where
    pub vote_rows : votes.Rows
    pub votable_rows : votables.Rows

  abbrev pub upvotes_of : votes.Rows → ℕ → ℕ
  upvotes_of s votable = votes.count s (is_vote_on votable upvote)

  abbrev pub downvotes_of : votes.Rows → ℕ → ℕ
  downvotes_of s votable = votes.count s (is_vote_on votable downvote)

  -- `update(votableId, { … })`: a missing row is left missing.
  abbrev set_counts : votables.Rows → ℕ → ℕ → ℕ → votables.Rows
  set_counts s votable ups downs = elim (votables.find s votable) [
    | none ↦ s
    | some row ↦ votables.save s votable (record row {
      upvote_count = ups;
      downvote_count = downs;
      vote_score = pos ups -ℤ pos downs;
    })
  ]

  pub update_vote_counts : Db → ℕ → Db
  update_vote_counts db votable = record db {
    votable_rows =
        set_counts db.votable_rows votable (upvotes_of db.vote_rows votable)
          (downvotes_of db.vote_rows votable);
  }

  pub vote : Db → ℕ → ℕ → VoteType → Db
  vote db votable user kind = elim (votes.find db.vote_rows (votable, user)) [
    | some existing ↦
        if same_vote existing kind
        then update_vote_counts
            (record db { vote_rows = votes.delete db.vote_rows (votable, user) }) votable
        else update_vote_counts
            (record db { vote_rows = votes.save db.vote_rows (votable, user) kind }) votable
    | none ↦
        update_vote_counts (record db { vote_rows = votes.save db.vote_rows (votable, user) kind })
          votable
  ]

  pub unvote : Db → ℕ → ℕ → Db
  unvote db votable user =
      update_vote_counts (record db { vote_rows = votes.delete db.vote_rows (votable, user) })
        votable

  pub get_user_vote : Db → ℕ → ℕ → Option VoteType
  get_user_vote db votable user = votes.find db.vote_rows (votable, user)
