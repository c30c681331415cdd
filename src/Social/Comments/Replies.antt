-- ===== src/Social/Comments/Replies.antt =====
-- The reply count of a comment against the replies that are stored and not deleted.
use sfinx_backend.Base.{
  ℕ, zero, suc, ◌+◌, ◌≡◌, ◌≢◌, refl, ap, ◌∙◌, inl, inr, Bool, true, false, not, ◌&&◌, Option, none,
  some, arith, ok, ◌==◌, if◌then◌else◌, Option-cases,
}
use Prim.Native.String.{String}
use sfinx_backend.Base.Int.{ℤ, pos, ◌+ℤ◌, ◌-ℤ◌}
use sfinx_backend.Base.Table.{Table, hits, map_row}
use sfinx_backend.Social.Comments.{
  Comment, or_null, bump, bump_parent, new_comment, create_comment, delete_comment,
}

abbrev pub is_reply_to : ℕ → Option ℕ → Bool
is_reply_to p none = false
is_reply_to p (some q) = q == p

abbrev pub is_live_reply : ℕ → ℕ → Comment → Bool
is_live_reply p id c = is_reply_to p c.parent_id && not c.is_deleted

module _ (comments : Table ℕ Comment ◌==◌) where
  abbrev pub live_replies : comments.Rows → ℕ → ℕ
  live_replies s p = comments.count s (is_live_reply p)

  -- The stored reply count is the number of the replies that are not deleted.
  abbrev pub IsCounted : comments.Rows → ℕ → Type 0
  IsCounted s p =
      (c : Comment) → comments.find s p ≡ some c → c.reply_count ≡ pos (live_replies s p)

  bump-live_replies :
      (f : ℤ → ℤ) (s : comments.Rows) (id p : ℕ)
      → live_replies (bump comments f s id) p ≡ live_replies s p
  bump-live_replies f s id p = elim (Option-cases (comments.find s id)) [
    | inl missing ↦ ground arith
    | inr (c, found) ↦ ground (
      arith,
      comments.count-save s id (record c { reply_count = f c.reply_count }) (is_live_reply p),
    )
  ]

  find-bump :
      (f : ℤ → ℤ) (s : comments.Rows) (id p : ℕ)
      → comments.find (bump comments f s id) p ≡ (
          if id == p
          then map_row (λ c. record c { reply_count = f c.reply_count }) (comments.find s id)
          else comments.find s p)
  find-bump f s id p = elim (Option-cases (comments.find s id)) [
    | inl missing ↦ ground arith
    | inr (c, found) ↦
        ground (arith, comments.find-save s id p (record c { reply_count = f c.reply_count }))
  ]

  bump_parent-live_replies :
      (f : ℤ → ℤ) (s : comments.Rows) (parent : Option ℕ) (p : ℕ)
      → live_replies (bump_parent comments f s parent) p ≡ live_replies s p
  bump_parent-live_replies f s none p = refl
  bump_parent-live_replies f s (some zero) p = refl
  bump_parent-live_replies f s (some (suc q)) p = bump-live_replies f s (suc q) p

  -- Only the parent's count changes.
  abbrev bumped : (ℤ → ℤ) → Option ℕ → ℕ → Comment → Comment
  bumped f parent p c =
      if is_reply_to p parent && not (p == 0) then record c { reply_count = f c.reply_count } else c

  find-bump_parent :
      (f : ℤ → ℤ) (s : comments.Rows) (parent : Option ℕ) (p : ℕ)
      → comments.find (bump_parent comments f s parent) p
        ≡ map_row (bumped f parent p) (comments.find s p)
  find-bump_parent f s none p = ground arith
  find-bump_parent f s (some zero) p = ground arith
  find-bump_parent f s (some (suc q)) p = ground (arith, find-bump f s (suc q) p)

  -- The rows that a permitted deletion of `c`, stored under `id`, leaves.
  abbrev after_delete : comments.Rows → ℕ → Comment → comments.Rows
  after_delete s id c =
      bump_parent comments (λ n. n -ℤ pos 1) (comments.save s id (record c { is_deleted = true }))
        c.parent_id

  delete_comment-rows :
      (s s' : comments.Rows) (id user : ℕ) (is_admin : Bool) (c : Comment)
      → comments.find s id ≡ some c
      → delete_comment comments s id user is_admin ≡ ok s'
      → s' ≡ after_delete s id c
  unfolding delete_comment
  delete_comment-rows s s' id user is_admin c found done = ground arith

  find-after_delete :
      (s : comments.Rows) (id p : ℕ) (c : Comment)
      → comments.find (after_delete s id c) p
        ≡ map_row
            (bumped (λ n. n -ℤ pos 1) c.parent_id p)
            (if id == p then some (record c { is_deleted = true }) else comments.find s p)
  find-after_delete s id p c =
      find-bump_parent (λ n. n -ℤ pos 1) (comments.save s id (record c { is_deleted = true }))
        c.parent_id p
      ∙ ap (map_row (bumped (λ n. n -ℤ pos 1) c.parent_id p))
          (comments.find-save s id p (record c { is_deleted = true }))

  live_replies-after_delete :
      (s : comments.Rows) (id p : ℕ) (c : Comment)
      → comments.find s id ≡ some c
      → live_replies (after_delete s id c) p + hits (is_live_reply p) id (some c) ≡ live_replies s p
  live_replies-after_delete s id p c found = ground (
    arith,
    found,
    bump_parent-live_replies (λ n. n -ℤ pos 1) (comments.save s id (record c { is_deleted = true }))
        c.parent_id p,
    comments.count-save s id (record c { is_deleted = true }) (is_live_reply p),
  )

  -- A permitted deletion of a reply that is not deleted yet keeps the reply count of every
  -- comment equal to the number of its replies that are not deleted.
  pub delete_comment-IsCounted :
      (s s' : comments.Rows) (id user : ℕ) (is_admin : Bool) (c : Comment)
      → comments.find s id ≡ some c
      → c.is_deleted ≡ false
      → c.parent_id ≢ some id
      → c.parent_id ≢ some 0
      → delete_comment comments s id user is_admin ≡ ok s'
      → (p : ℕ) → IsCounted s p
      → IsCounted s' p
  unfolding ◌-ℤ◌
  delete_comment-IsCounted s s' id user is_admin c found live not_self not_zero done p counted r h =
      let rows = delete_comment-rows s s' id user is_admin c found done in
      elim (Option-cases (comments.find s p)) [
        | inl missing ↦ ground (arith, found, rows, find-after_delete s id p c)
        | inr (old, at_p) ↦ ground (
          arith,
          found,
          rows,
          find-after_delete s id p c,
          counted old at_p,
          live_replies-after_delete s id p c found,
        )
      ]

  -- A reply that is deleted already can be deleted again, and this lowers its parent's reply count
  -- once more: a count that was right is wrong after it.
  pub delete_comment_again :
      (s s' : comments.Rows) (id p user : ℕ) (is_admin : Bool) (c parent : Comment)
      → comments.find s id ≡ some c
      → c.is_deleted ≡ true
      → c.parent_id ≡ some (suc p)
      → comments.find s (suc p) ≡ some parent
      → suc p ≢ id
      → IsCounted s (suc p)
      → delete_comment comments s id user is_admin ≡ ok s'
      → ¬ IsCounted s' (suc p)
  unfolding ◌-ℤ◌
  delete_comment_again s s' id p user is_admin c parent found deleted child at_parent ne counted
        done all =
      let lowered : Comment = record parent { reply_count = parent.reply_count -ℤ pos 1 } in
      let rows = delete_comment-rows s s' id user is_admin c found done in
      let at_new : comments.find s' (suc p) ≡ some lowered =
        ground (arith, rows, find-after_delete s id (suc p) c) in
      let same_live : live_replies s' (suc p) ≡ live_replies s (suc p) =
        ground (arith, rows, live_replies-after_delete s id (suc p) c found) in
      wrong (counted parent at_parent) (all lowered at_new) same_live
    where
      wrong :
          {n m : ℕ} → parent.reply_count ≡ pos n → parent.reply_count -ℤ pos 1 ≡ pos m → m ≡ n → ⊥
      wrong e f g = ground arith

  live_replies-save_new :
      (s : comments.Rows) (id p : ℕ) (c : Comment)
      → comments.find s id ≡ none
      → live_replies (comments.save s id c) p
        ≡ live_replies s p + hits (is_live_reply p) id (some c)
  live_replies-save_new s id p c fresh =
      ground (arith, fresh, comments.count-save s id c (is_live_reply p))

  -- Creating a comment under a new key, as a reply or not, keeps the reply count of every other
  -- comment equal to the number of its replies that are not deleted.
  pub create_comment-IsCounted :
      (s s' : comments.Rows) (id user container : ℕ) (parent : Option ℕ) (text : String)
      (c : Comment)
      → comments.find s id ≡ none
      → create_comment comments s id user container parent text ≡ ok (c, s')
      → (p : ℕ) → p ≢ id
      → p ≢ 0
      → IsCounted s p
      → IsCounted s' p
  unfolding create_comment ◌+ℤ◌
  create_comment-IsCounted s s' id user container parent text c fresh done p ne nz counted r h =
      elim (Option-cases (comments.find s p)) [
        | inl missing ↦ ground (arith, found, new_rows)
        | inr (old, at_p) ↦ ground (
          arith,
          found,
          new_rows,
          counted old at_p,
          live_replies-save_new s id p (new_comment user container parent text) fresh,
          bump_parent-live_replies (λ n. n +ℤ pos 1) saved (or_null parent) p,
        )
      ]
    where
      saved : comments.Rows
      saved = comments.save s id (new_comment user container parent text)

      new_rows : s' ≡ bump_parent comments (λ n. n +ℤ pos 1) saved (or_null parent)
      new_rows = ground arith

      found :
          comments.find (bump_parent comments (λ n. n +ℤ pos 1) saved (or_null parent)) p
          ≡ map_row
              (bumped (λ n. n +ℤ pos 1) (or_null parent) p)
              (if id == p then some (new_comment user container parent text) else comments.find s p)
      found =
          find-bump_parent (λ n. n +ℤ pos 1) saved (or_null parent) p
          ∙ ap (map_row (bumped (λ n. n +ℤ pos 1) (or_null parent) p))
              (comments.find-save s id p (new_comment user container parent text))
