-- ===== src/Submissions/Progress/Accepted.antt =====
-- The counters and the best results of a progress row.
use sfinx_backend.Base.{
  ℕ, ◌+◌, ◌≡◌, ◌&&◌, inl, inr, Bool, true, none, some, arith, ◌==◌, same_pair, same_pair_iff,
  is_some, if◌then◌else◌, Bool-cases, Option-cases,
}
use sfinx_backend.Base.Table.{Table}
use sfinx_backend.Submissions.{is_accepted}
use sfinx_backend.Submissions.Progress.{
  Submission, UserProblemProgress, Verdict, is_solved, Db, judged_progress, judged_submission,
  judge, update_progress_after_judge, update_submission_after_judge,
}
use sfinx_backend.Submissions.Progress.Solving.{no_submission, already_judged, newly_judged}

-- A judged, accepted submission of a user to a problem.
abbrev pub counts_for : ℕ × ℕ → ℕ → Submission → Bool
counts_for key id s =
    same_pair key (s.user, s.problem) && (is_accepted s.status && is_some s.judged_at)

module _ (submissions : Table ℕ Submission ◌==◌)
    (progresses : Table (ℕ × ℕ) UserProblemProgress same_pair) where
  -- Every submission has a progress row, and each row counts the accepted submissions.
  pub record IsTallied (db : Db submissions progresses) : Type 0 where
    pub has_progress :
        (id : ℕ) (s : Submission)
        → submissions.find db.submission_rows id ≡ some s
        → is_some (progresses.find db.progress_rows (s.user, s.problem)) ≡ true
    pub tallied :
        (key : ℕ × ℕ) (p : UserProblemProgress)
        → progresses.find db.progress_rows key ≡ some p
        → p.total_accepted ≡ submissions.count db.submission_rows (counts_for key)

  judged_progress-total :
      (now id : ℕ) (v : Verdict) (p : UserProblemProgress)
      → (judged_progress now id v p).total_accepted
        ≡ p.total_accepted + (if is_accepted v.verdict then 1 else 0)
  judged_progress-total now id v p = elim (Bool-cases (is_accepted v.verdict)) [
    | inr rejects ↦ ground (arith, rejects)
    | inl accepts ↦ elim (Bool-cases (is_solved p.progress)) [
      | inl old ↦ ground (arith, accepts, old)
      | inr new ↦ ground (arith, accepts, new)
    ]
  ]

  kept_row :
      (now id : ℕ) (v : Verdict) (s : Submission) (db : Db submissions progresses)
      (p : UserProblemProgress)
      → submissions.find db.submission_rows id ≡ some s
      → progresses.find db.progress_rows (s.user, s.problem) ≡ some p
      → IsTallied db
      → (j : ℕ) (s' : Submission)
      → submissions.find (judge submissions progresses now id v s db).submission_rows j ≡ some s'
      → is_some (
          progresses.find
            (judge submissions progresses now id v s db).progress_rows
            (s'.user, s'.problem))
        ≡ true
  unfolding judge update_progress_after_judge
  kept_row now id v s db p found there inv j s' h = ground (
    arith,
    there,
    found,
    h,
    inv.has_progress j s',
    submissions.find-save db.submission_rows id j
        (judged_submission submissions progresses now v s),
    progresses.find-save db.progress_rows (s.user, s.problem) (s'.user, s'.problem)
        (judged_progress now id v p),
  )

  counted :
      (now id : ℕ) (v : Verdict) (s : Submission) (db : Db submissions progresses)
      (p : UserProblemProgress)
      → submissions.find db.submission_rows id ≡ some s
      → s.judged_at ≡ none
      → progresses.find db.progress_rows (s.user, s.problem) ≡ some p
      → IsTallied db
      → (key : ℕ × ℕ) (q : UserProblemProgress)
      → progresses.find (judge submissions progresses now id v s db).progress_rows key ≡ some q
      → q.total_accepted
        ≡ submissions.count
            (judge submissions progresses now id v s db).submission_rows
            (counts_for key)
  unfolding judge update_progress_after_judge
  counted now id v s db p found fresh there inv key q h = ground (
    arith,
    there,
    found,
    fresh,
    h,
    inv.tallied key q,
    inv.tallied (s.user, s.problem) p there,
    judged_progress-total now id v p,
    same_pair_iff (s.user, s.problem) key,
    same_pair_iff key (s.user, s.problem),
    submissions.count-save db.submission_rows id (judged_submission submissions progresses now v s)
        (counts_for key),
    progresses.find-save db.progress_rows (s.user, s.problem) key (judged_progress now id v p),
  )

  judge-IsTallied :
      (now id : ℕ) (v : Verdict) (s : Submission) (db : Db submissions progresses)
      → submissions.find db.submission_rows id ≡ some s
      → s.judged_at ≡ none
      → IsTallied db
      → IsTallied (judge submissions progresses now id v s db)
  unfolding judge update_progress_after_judge
  judge-IsTallied now id v s db found fresh inv =
      elim (Option-cases (progresses.find db.progress_rows (s.user, s.problem))) [
        | inl missing ↦ absurd (ground (arith, missing, inv.has_progress id s found))
        | inr (p, there) ↦ record {
          has_progress = λ j s' h. kept_row now id v s db p found there inv j s' h;
          tallied = λ key q h. counted now id v s db p found fresh there inv key q h;
        }
      ]

  -- A verdict, whether it counts or comes for a submission that is missing or judged, leaves every
  -- progress row with the number of accepted submissions of its user to its problem.
  pub update_submission_after_judge-IsTallied :
      (now id : ℕ) (v : Verdict) (db : Db submissions progresses)
      → IsTallied db
      → IsTallied (update_submission_after_judge submissions progresses now id v db)
  update_submission_after_judge-IsTallied now id v db inv =
      elim (Option-cases (submissions.find db.submission_rows id)) [
        | inl missing ↦
            let same = no_submission submissions progresses now id v db missing in rw same inv
        | inr (s, found) ↦ elim (Option-cases s.judged_at) [
          | inr (t, before) ↦
              let same = already_judged submissions progresses now id v s db t found before in
              rw same inv
          | inl fresh ↦
              let first = newly_judged submissions progresses now id v s db found fresh in
              rw first (judge-IsTallied now id v s db found fresh inv)
        ]
      ]
