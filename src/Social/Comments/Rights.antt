-- ===== src/Social/Comments/Rights.antt =====
-- Who may change a comment, and what an edit leaves alone.
use Prim.Native.String.{String}
use sfinx_backend.Base.{
  ℕ, ◌≡◌, ◌≢◌, ◌⊎◌, inl, inr, Bool, true, false, Option, none, some, arith, ok, ◌==◌, Option-cases,
}
use sfinx_backend.Base.Table.{Table}
use sfinx_backend.Social.Comments.{Comment, apply_edit, update_comment, delete_comment}

module _ (comments : Table ℕ Comment ◌==◌) where
  apply_edit_keeps :
      (now : ℕ) (content : Option String) (c : Comment)
      → ((apply_edit now content c).author_id ≡ c.author_id)
        × ((apply_edit now content c).parent_id ≡ c.parent_id)
        × ((apply_edit now content c).reply_count ≡ c.reply_count)
        × ((apply_edit now content c).is_deleted ≡ c.is_deleted)
  apply_edit_keeps now none c = ground arith
  apply_edit_keeps now (some text) c = ground arith

  -- An edit that succeeds is made by the comment's author on a comment that is not deleted; it
  -- keeps the author, the parent, the reply count and the deletion mark, and every other comment.
  pub update_comment_by_author :
      (s s' : comments.Rows) (now id user : ℕ) (content : Option String) (c' : Comment)
      → update_comment comments s now id user content ≡ ok (c', s')
      → (c : Comment) × (comments.find s id ≡ some c)
        × (c.author_id ≡ user)
        × (c.is_deleted ≡ false)
        × (c'.author_id ≡ c.author_id)
        × (c'.parent_id ≡ c.parent_id)
        × (c'.reply_count ≡ c.reply_count)
        × (c'.is_deleted ≡ c.is_deleted)
        × ((j : ℕ) → j ≢ id → comments.find s' j ≡ comments.find s j)
  unfolding update_comment
  update_comment_by_author s s' now id user content c' h =
      elim (Option-cases (comments.find s id)) [
        | inl missing ↦ absurd (ground arith)
        | inr (c, found) ↦
            let keeps = apply_edit_keeps now content c in
            (
              c,
              found,
              ground arith,
              ground arith,
              ground (arith, keeps),
              ground (arith, keeps),
              ground (arith, keeps),
              ground (arith, keeps),
              λ j ne. ground (arith, comments.find-save s id j (apply_edit now content c)),
            )
      ]

  -- A deletion that succeeds is made by an administrator or by the comment's author.
  pub delete_comment_by_owner :
      (s s' : comments.Rows) (id user : ℕ) (is_admin : Bool)
      → delete_comment comments s id user is_admin ≡ ok s'
      → (c : Comment) × (comments.find s id ≡ some c) × ((is_admin ≡ true) ⊎ (c.author_id ≡ user))
  unfolding delete_comment
  delete_comment_by_owner s s' id user is_admin h = elim (Option-cases (comments.find s id)) [
    | inl missing ↦ absurd (ground arith)
    | inr (c, found) ↦ (c, found, ground arith)
  ]
