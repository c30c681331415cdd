-- ===== src/Social/Comments.antt =====
-- src/modules/comments-base/base-comments.service.ts: the operations of `BaseCommentsService`
-- that write comments, over the table that its repository stands for. Voting on comments is the
-- code of Votes once more; the response objects are not modelled.
pub mod Replies
pub mod Rights
mod Tests
use Prim.Native.String.{String}
use sfinx_backend.Base.{
  ℕ, zero, suc, ◌≡◌, Bool, true, false, not, ◌&&◌, Option, none, some, Result, ok, throws,
  Exception, not_found, forbidden, ◌>>=◌, ◌>>◌, throw_if, or_throw, ◌==◌, if◌then◌else◌,
}
use sfinx_backend.Base.Int.{ℤ, pos, ◌+ℤ◌, ◌-ℤ◌}
use sfinx_backend.Base.Table.{Table}

-- The reply count is an integer column, and the code subtracts from it with no test.
pub record Comment : Type 0 where
  pub author_id : ℕ
  pub container_id : ℕ
  pub parent_id : Option ℕ
  pub content : String
  pub reply_count : ℤ
  pub is_edited : Bool
  pub is_deleted : Bool
  pub edited_at : Option ℕ

-- `id || null`
abbrev pub or_null : Option ℕ → Option ℕ
or_null (some (suc n)) = some (suc n)
or_null (some zero) = none
or_null none = none

-- `if (dto.content)`
abbrev pub is_nonempty : String → Bool
is_nonempty String.[] = false
is_nonempty (String.◌∷◌ c s) = true

-- `if (dto.content) { … }`
abbrev pub apply_edit : ℕ → Option String → Comment → Comment
apply_edit now none c = c
apply_edit now (some text) c =
    if is_nonempty text
    then record c { content = text; is_edited = true; edited_at = some now }
    else c

abbrev pub new_comment : ℕ → ℕ → Option ℕ → String → Comment
new_comment user container parent text = record {
  author_id = user;
  container_id = container;
  parent_id = or_null parent;
  content = text;
  reply_count = pos 0;
  is_edited = false;
  is_deleted = false;
  edited_at = none;
}

module _ (comments : Table ℕ Comment ◌==◌) where
  -- `UPDATE … SET reply_count = reply_count ± 1 WHERE id = :id`
  abbrev pub bump : (ℤ → ℤ) → comments.Rows → ℕ → comments.Rows
  bump f s id = elim (comments.find s id) [
    | none ↦ s
    | some c ↦ comments.save s id (record c { reply_count = f c.reply_count })
  ]

  -- `if (parentId)` the parent's count is changed.
  abbrev pub bump_parent : (ℤ → ℤ) → comments.Rows → Option ℕ → comments.Rows
  bump_parent f s (some (suc p)) = bump f s (suc p)
  bump_parent f s (some zero) = s
  bump_parent f s none = s

  -- `id` is the primary key that the database generates for the new row.
  pub create_comment :
      comments.Rows → ℕ → ℕ → ℕ → Option ℕ → String → Result (Comment × comments.Rows)
  create_comment s id user container parent text =
      let s' =
        bump_parent (λ n. n +ℤ pos 1) (comments.save s id (new_comment user container parent text))
          (or_null parent) in
      or_throw (comments.find s' id) not_found >>= λ c. ok (c, s')

  pub update_comment : comments.Rows → ℕ → ℕ → ℕ → Option String → Result (Comment × comments.Rows)
  update_comment s now id user content = do
    c ← or_throw (comments.find s id) not_found
    throw_if c.is_deleted forbidden
    throw_if (not (c.author_id == user)) forbidden
    let c' = apply_edit now content c
    ok (c', comments.save s id c')

  pub delete_comment : comments.Rows → ℕ → ℕ → Bool → Result comments.Rows
  delete_comment s id user is_admin = do
    c ← or_throw (comments.find s id) not_found
    throw_if (not is_admin && not (c.author_id == user)) forbidden
    ok (
        bump_parent (λ n. n -ℤ pos 1) (comments.save s id (record c { is_deleted = true }))
          c.parent_id)
