-- ===== src/Submissions/Progress/Attempts.antt =====
-- createSubmission's update of the progress row keeps the tallies of Accepted.
use sfinx_backend.Base.{
  ℕ, ◌+◌, ◌≡◌, refl, inl, inr, true, none, some, arith, ◌==◌, same_pair, same_pair_iff, is_some,
  Bool-cases, Option-cases,
}
use sfinx_backend.Base.Table.{Table}
use sfinx_backend.Submissions.Progress.{
  Submission, UserProblemProgress, first_attempt, Db, update_progress_on_submit,
}
use sfinx_backend.Submissions.Progress.Accepted.{IsTallied, counts_for}

module _ (submissions : Table ℕ Submission ◌==◌)
    (progresses : Table (ℕ × ℕ) UserProblemProgress same_pair) where
  none_accepted :
      (key : ℕ × ℕ) (db : Db submissions progresses)
      → IsTallied submissions progresses db
      → progresses.find db.progress_rows key ≡ none
      → submissions.count db.submission_rows (counts_for key) ≡ 0
  none_accepted key db inv no_row =
      submissions.count-zero db.submission_rows (counts_for key) (λ id s found.
        elim (Bool-cases (same_pair key (s.user, s.problem))) [
          | inr other ↦ ground (arith, other)
          | inl same ↦
              let at : key ≡ (s.user, s.problem) = (same_pair_iff key (s.user, s.problem)).0 same in
              absurd (ground (arith, at, no_row, inv.has_progress id s found))
        ])

  -- A new attempt keeps the counts right as well, and afterwards its user has a row for its problem.
  pub update_progress_on_submit-IsTallied :
      (now user problem : ℕ) (db : Db submissions progresses)
      → IsTallied submissions progresses db
      → IsTallied submissions progresses
          (update_progress_on_submit submissions progresses now user problem db)
        × (is_some (
              progresses.find
                (update_progress_on_submit submissions progresses now user problem db).progress_rows
                (user, problem))
            ≡ true)
  unfolding update_progress_on_submit
  update_progress_on_submit-IsTallied now user problem db inv =
      elim (Option-cases (progresses.find db.progress_rows (user, problem))) [
        | inl fresh ↦ (
          record {
            has_progress = λ id s h. ground (
              arith,
              fresh,
              inv.has_progress id s h,
              progresses.find-save db.progress_rows (user, problem) (s.user, s.problem)
                  (first_attempt now),
            );
            tallied = λ key q h. elim (Bool-cases (same_pair (user, problem) key)) [
              | inl same ↦
                  let at : (user, problem) ≡ key = (same_pair_iff (user, problem) key).0 same in
                  ground (
                    arith,
                    fresh,
                    same,
                    h,
                    none_accepted key db inv (ground (arith, at, fresh)),
                    progresses.find-save db.progress_rows (user, problem) key (first_attempt now),
                  )
              | inr other ↦ ground (
                arith,
                fresh,
                other,
                h,
                inv.tallied key q,
                progresses.find-save db.progress_rows (user, problem) key (first_attempt now),
              )
            ];
          },
          ground (
            arith,
            fresh,
            (same_pair_iff (user, problem) (user, problem)).1 refl,
            progresses.find-save db.progress_rows (user, problem) (user, problem)
                (first_attempt now),
          ),
        )
        | inr (p, there) ↦
            let row = record p {
              total_attempts = p.total_attempts + 1;
              last_attempted_at = some now;
            } in
            let saved = progresses.find-save db.progress_rows (user, problem) in
            (
              record {
                has_progress = λ id s h.
                    ground (arith, there, inv.has_progress id s h, saved (s.user, s.problem) row);
                tallied = λ key q h. ground (
                  arith,
                  there,
                  h,
                  inv.tallied key q,
                  inv.tallied (user, problem) p there,
                  same_pair_iff (user, problem) key,
                  saved key row,
                );
              },
              ground (
                arith,
                there,
                (same_pair_iff (user, problem) (user, problem)).1 refl,
                saved (user, problem) row,
              ),
            )
      ]
