-- ===== src/Social/Comments/Tests.antt =====
-- Comments on a list table: the theorems at concrete inputs.
use sfinx_backend.Base.{ℕ, refl, true, false, none, some, [], ◌∷◌, arith, state_after, Result, ◌==◌}
use sfinx_backend.Base.Int.{pos, ◌+ℤ◌, ◌-ℤ◌}
use sfinx_backend.Base.Table.{Table, number_table}
use sfinx_backend.Social.Comments.{Comment, create_comment, update_comment, delete_comment}
use sfinx_backend.Social.Comments.Replies.{
  IsCounted, delete_comment-IsCounted, delete_comment_again,
}

abbrev table : Table ℕ Comment ◌==◌
table = number_table Comment

abbrev root_comment : Comment
root_comment = record {
  author_id = 10;
  container_id = 3;
  parent_id = none;
  content = "question";
  reply_count = pos 1;
  is_edited = false;
  is_deleted = false;
  edited_at = none;
}

abbrev live_reply : Comment
live_reply = record root_comment {
  author_id = 11;
  parent_id = some 1;
  content = "answer";
  reply_count = pos 0;
}

abbrev gone_reply : Comment
gone_reply = record live_reply { is_deleted = true }

-- Comment 1 has the reply 2, and the deleted reply 4.
abbrev rows : table.Rows
unfolding number_table
rows = ((1, root_comment) ∷ (2, live_reply) ∷ (4, gone_reply) ∷ [], (refl, (refl, (refl, tt))))

rows-IsCounted : IsCounted table rows 1
unfolding number_table
rows-IsCounted c h = ground arith

without_reply : table.Rows
unfolding delete_comment number_table ◌-ℤ◌
without_reply = state_after rows (delete_comment table rows 2 11 false)

deleted_twice : table.Rows
unfolding delete_comment number_table ◌-ℤ◌
deleted_twice = state_after rows (delete_comment table rows 4 11 false)

abbrev written : Result (Comment × table.Rows) → table.Rows
written r = (state_after (root_comment, rows) r).1

with_reply : table.Rows
unfolding create_comment number_table ◌+ℤ◌
with_reply = written (create_comment table rows 5 12 3 (some 1) "me too")

with_edit : table.Rows
unfolding update_comment number_table
with_edit = written (update_comment table rows 70 2 11 (some "better"))

delete_comment-IsCounted_example : IsCounted table without_reply 1
unfolding without_reply number_table
delete_comment-IsCounted_example =
    delete_comment-IsCounted table rows without_reply 2 11 false live_reply refl refl
      (λ e. ground arith) (λ e. ground arith) refl 1 rows-IsCounted

delete_comment_again_example : ¬ IsCounted table deleted_twice 1
unfolding deleted_twice number_table
delete_comment_again_example =
    delete_comment_again table rows deleted_twice 4 0 11 false gone_reply root_comment refl refl
      refl refl (λ e. ground arith) rows-IsCounted refl
