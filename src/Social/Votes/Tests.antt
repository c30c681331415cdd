-- ===== src/Social/Votes/Tests.antt =====
-- Voting on list tables: a run of the code, and the theorems at concrete inputs.
use sfinx_backend.Base.{ℕ, ◌+◌, same_pair, if◌then◌else◌, arith, ◌≡◌, refl, some, [], ◌∷◌}
use sfinx_backend.Base.Int.{pos, ◌-ℤ◌}
use sfinx_backend.Base.Table.{pair_table, number_table}
use sfinx_backend.Social.Votes.{
  VoteType, upvote, downvote, Votable, Db, update_vote_counts, vote, get_user_vote,
}
use sfinx_backend.Social.Votes.Counters.{IsTallied, one_if, vote-IsTallied}
use sfinx_backend.Social.Votes.Toggle.{toggled}

abbrev fresh_row : Votable
fresh_row = record { upvote_count = 1; downvote_count = 0; vote_score = pos 1 }

-- User 8 has voted for solution 5; user 7 has not.
abbrev db : Db (pair_table VoteType) (number_table Votable)
unfolding pair_table number_table
db = record {
  vote_rows = (((5, 8), upvote) ∷ [], (refl, tt));
  votable_rows = ((5, fresh_row) ∷ [], (refl, tt));
}

voted : Db (pair_table VoteType) (number_table Votable)
voted = vote (pair_table VoteType) (number_table Votable) db 5 7 downvote

voted_row :
    (number_table Votable).find voted.votable_rows 5
    ≡ some (record { upvote_count = 1; downvote_count = 1; vote_score = pos 0 })
unfolding voted vote update_vote_counts pair_table number_table ◌-ℤ◌
voted_row = refl

db-IsTallied : IsTallied (pair_table VoteType) (number_table Votable) db 5
unfolding pair_table number_table db ◌-ℤ◌
db-IsTallied row h = ground arith

fresh_row_there : (number_table Votable).find db.votable_rows 5 ≡ some fresh_row
unfolding number_table db
fresh_row_there = refl

vote-IsTallied_example :
    let votes = pair_table VoteType in
    let votables = number_table Votable in
    let db' = vote votes votables db 5 7 downvote in
    let old = get_user_vote votes votables db 5 7 in
    ((j u : ℕ)
      → get_user_vote votes votables db' j u ≡ (
          if same_pair (5, 7) (j, u)
          then toggled old downvote
          else get_user_vote votes votables db j u))
    × IsTallied votes votables db' 5
    × (row' : Votable) × (votables.find db'.votable_rows 5 ≡ some row')
    × (row'.upvote_count + one_if votes votables upvote old
        ≡ 1 + one_if votes votables upvote (toggled old downvote))
    × (row'.downvote_count + one_if votes votables downvote old
        ≡ 0 + one_if votes votables downvote (toggled old downvote))
    × (row'.vote_score ≡ pos row'.upvote_count -ℤ pos row'.downvote_count)
vote-IsTallied_example =
    vote-IsTallied (pair_table VoteType) (number_table Votable) db 5 7 downvote fresh_row
      fresh_row_there db-IsTallied
