-- ===== src/Contest/Participants/Tests.antt =====
-- Joining and leaving on list tables: the theorems at concrete inputs.
use sfinx_backend.Base.{ℕ, refl, [], ◌∷◌, arith, state_after, ◌==◌, same_pair}
use sfinx_backend.Base.Int.{pos, ◌-ℤ◌}
use sfinx_backend.Base.Table.{Table, number_table, pair_table}
use sfinx_backend.Contest.{Contest, ContestParticipant, scheduled}
use sfinx_backend.Contest.Participants.{Db, new_participant, join_contest, unregister_from_contest}
use sfinx_backend.Contest.Participants.Counting.{AllCounted, left_by, join_contest-AllCounted}

abbrev contests : Table ℕ Contest ◌==◌
contests = number_table Contest

abbrev participants : Table (ℕ × ℕ) ContestParticipant same_pair
participants = pair_table ContestParticipant

abbrev weekly : Contest
weekly = record {
  title = "Weekly";
  slug = "weekly";
  start_time = 100;
  end_time = 6_000_100;
  status = scheduled;
  participant_count = pos 1;
  max_participants = 2;
  duration_minutes = 100;
}

-- User 8 has joined contest 1, which takes two participants.
abbrev db : Db contests participants
unfolding number_table pair_table
db = record {
  contest_rows = ((1, weekly) ∷ [], (refl, tt));
  participant_rows = (((1, 8), new_participant 50) ∷ [], (refl, tt));
}

db-AllCounted : AllCounted contests participants db
unfolding number_table pair_table
db-AllCounted contest c h = ground arith

left_db : Db contests participants
unfolding unregister_from_contest number_table pair_table ◌-ℤ◌
left_db = state_after db (unregister_from_contest contests participants db 1 8)

join_contest-AllCounted_example :
    AllCounted contests participants
      (left_by contests participants db (join_contest contests participants db 60 1 9))
join_contest-AllCounted_example =
    join_contest-AllCounted contests participants db 60 1 9 db-AllCounted
