-- ===== src/Submissions/Progress/Solving.antt =====
-- A problem is announced as solved once, with its first accepted submission.
use sfinx_backend.Base.{
  ℕ, ◌+◌, ◌≡◌, ◌&&◌, ◌||◌, refl, inl, inr, Bool, false, not, none, some, List, [], ◌∷◌, ◌++◌, arith,
  ◌==◌, ==_iff, same_pair, same_pair_iff, if◌then◌else◌, Bool-cases, Option-cases,
}
use sfinx_backend.Base.Lists.{count_by}
use sfinx_backend.Base.Table.{Table}
use sfinx_backend.Submissions.{is_accepted}
use sfinx_backend.Submissions.Progress.{
  Submission, UserProblemProgress, Verdict, SubmissionEvent, judged, was_accepted, problem_solved,
  ProgressStatus, attempted, solved, not_started, leave_not_started, first_attempt, is_solved, Db,
  judged_progress, judged_submission, emitted, judge, update_progress_on_submit,
  update_progress_after_judge, update_submission_after_judge,
}

-- What happens to the tables: a submission is made, or a verdict comes in.
pub data Step : Type 0 where
  submits : ℕ → ℕ → ℕ → Step
  verdicts : ℕ → ℕ → Verdict → Step

-- `problem_solved` events for a user and a problem.
abbrev pub announces : ℕ × ℕ → SubmissionEvent → Bool
announces key (judged id user problem s) = false
announces key (was_accepted id user problem) = false
announces key (problem_solved id user problem) = same_pair key (user, problem)

count_by-append :
    (p : SubmissionEvent → Bool) (xs ys : List SubmissionEvent)
    → count_by p (xs ++ ys) ≡ count_by p xs + count_by p ys
count_by-append p [] ys = ground arith
count_by-append p (x ∷ xs) ys = ground (arith, count_by-append p xs ys)

judged_progress-solved :
    (now id : ℕ) (v : Verdict) (p : UserProblemProgress)
    → is_solved (judged_progress now id v p).progress
      ≡ is_accepted v.verdict || is_solved p.progress
judged_progress-solved now id v p = elim (Bool-cases (is_accepted v.verdict)) [
  | inl accepts ↦ elim (Bool-cases (is_solved p.progress)) [
    | inl old ↦ rw (accepts, old) (ground (arith, old))
    | inr new ↦ rw (accepts, new) refl
  ]
  | inr rejects ↦ rw rejects (started p.progress)
]
  where
    started : (s : ProgressStatus) → is_solved (leave_not_started s) ≡ is_solved s
    started attempted = refl
    started solved = refl
    started not_started = refl

module _ (submissions : Table ℕ Submission ◌==◌)
    (progresses : Table (ℕ × ℕ) UserProblemProgress same_pair) where
  abbrev solved_now : Db submissions progresses → ℕ × ℕ → Bool
  solved_now db key = elim (progresses.find db.progress_rows key) [
    | none ↦ false
    | some p ↦ is_solved p.progress
  ]

  -- The announcements of a problem for a user: one if the progress row says solved, else none.
  abbrev pub IsAnnounced : Db submissions progresses → Type 0
  IsAnnounced db =
      (key : ℕ × ℕ) → count_by (announces key) db.events ≡ (if solved_now db key then 1 else 0)

  abbrev pub step : Step → Db submissions progresses → Db submissions progresses
  step (submits now user problem) db =
      update_progress_on_submit submissions progresses now user problem db
  step (verdicts now id v) db = update_submission_after_judge submissions progresses now id v db

  emitted-announces :
      (key : ℕ × ℕ) (id : ℕ) (s : Submission) (v : Verdict) (newly : Bool)
      → count_by (announces key) (emitted submissions progresses id s v newly)
        ≡ (if newly && same_pair key (s.user, s.problem) then 1 else 0)
  emitted-announces key id s v newly = elim (Bool-cases (is_accepted v.verdict)) [
    | inl accepts ↦ elim (Bool-cases newly) [
      | inl new ↦ ground (arith, accepts, new)
      | inr old ↦ ground (arith, accepts, old)
    ]
    | inr rejects ↦ elim (Bool-cases newly) [
      | inl new ↦ ground (arith, rejects, new)
      | inr old ↦ ground (arith, rejects, old)
    ]
  ]

  submit-IsAnnounced :
      (now user problem : ℕ) (db : Db submissions progresses)
      → IsAnnounced db
      → IsAnnounced (update_progress_on_submit submissions progresses now user problem db)
  unfolding update_progress_on_submit
  submit-IsAnnounced now user problem db inv key =
      elim (Option-cases (progresses.find db.progress_rows (user, problem))) [
        | inl fresh ↦ ground (
          arith,
          fresh,
          inv key,
          same_pair_iff (user, problem) key,
          progresses.find-save db.progress_rows (user, problem) key (first_attempt now),
        )
        | inr (p, there) ↦ ground (
          arith,
          there,
          inv key,
          same_pair_iff (user, problem) key,
          progresses.find-save db.progress_rows (user, problem) key
              (record p { total_attempts = p.total_attempts + 1; last_attempted_at = some now }),
        )
      ]

  judge-IsAnnounced :
      (now id : ℕ) (v : Verdict) (s : Submission) (db : Db submissions progresses)
      → IsAnnounced db
      → IsAnnounced (judge submissions progresses now id v s db)
  unfolding judge update_progress_after_judge
  judge-IsAnnounced now id v s db inv key =
      elim (Option-cases (progresses.find db.progress_rows (s.user, s.problem))) [
        | inl fresh ↦ ground (
          arith,
          fresh,
          inv key,
          count_by-append (announces key) db.events (emitted submissions progresses id s v false),
          emitted-announces key id s v false,
        )
        | inr (p, there) ↦
            let newly = is_accepted v.verdict && not (is_solved p.progress) in
            ground (
              arith,
              there,
              inv key,
              same_pair_iff (s.user, s.problem) key,
              same_pair_iff key (s.user, s.problem),
              count_by-append (announces key) db.events
                  (emitted submissions progresses id s v newly),
              emitted-announces key id s v newly,
              judged_progress-solved now id v p,
              progresses.find-save db.progress_rows (s.user, s.problem) key
                  (judged_progress now id v p),
            )
      ]

  pub no_submission :
      (now id : ℕ) (v : Verdict) (db : Db submissions progresses)
      → submissions.find db.submission_rows id ≡ none
      → update_submission_after_judge submissions progresses now id v db ≡ db
  unfolding update_submission_after_judge
  no_submission now id v db missing = rw (missing, update_submission_after_judge) refl

  pub newly_judged :
      (now id : ℕ) (v : Verdict) (s : Submission) (db : Db submissions progresses)
      → submissions.find db.submission_rows id ≡ some s
      → s.judged_at ≡ none
      → update_submission_after_judge submissions progresses now id v db
        ≡ judge submissions progresses now id v s db
  unfolding update_submission_after_judge
  newly_judged now id v s db found fresh = rw (found, fresh, update_submission_after_judge) refl

  pub already_judged :
      (now id : ℕ) (v : Verdict) (s : Submission) (db : Db submissions progresses) (t : ℕ)
      → submissions.find db.submission_rows id ≡ some s
      → s.judged_at ≡ some t
      → update_submission_after_judge submissions progresses now id v db ≡ db
  unfolding update_submission_after_judge
  already_judged now id v s db t found before =
      rw (found, before, update_submission_after_judge) refl

  unfoldable pub steps_after : Db submissions progresses → List Step → Db submissions progresses
  steps_after db [] = db
  steps_after db (e ∷ es) = steps_after (step e db) es

  step-IsAnnounced :
      (e : Step) (db : Db submissions progresses) → IsAnnounced db → IsAnnounced (step e db)
  step-IsAnnounced (submits now user problem) db inv = submit-IsAnnounced now user problem db inv
  step-IsAnnounced (verdicts now id v) db inv =
      elim (Option-cases (submissions.find db.submission_rows id)) [
        | inl missing ↦ let same = no_submission now id v db missing in rw same inv
        | inr (s, found) ↦ elim (Option-cases s.judged_at) [
          | inr (t, before) ↦ let same = already_judged now id v s db t found before in rw same inv
          | inl fresh ↦
              let first = newly_judged now id v s db found fresh in
              rw first (judge-IsAnnounced now id v s db inv)
        ]
      ]

  -- Whatever submissions are made and whatever verdicts come in, for the same submission again or
  -- for a problem that is solved already: each user's solving of a problem is announced once if
  -- the progress row says solved, and never before, provided this held at the start.
  pub steps_after-IsAnnounced :
      (es : List Step) (db : Db submissions progresses)
      → IsAnnounced db
      → IsAnnounced (steps_after db es)
  unfolding steps_after
  steps_after-IsAnnounced [] db inv = inv
  steps_after-IsAnnounced (e ∷ es) db inv =
      steps_after-IsAnnounced es (step e db) (step-IsAnnounced e db inv)

  -- Only the first verdict on a submission counts: after any verdict, a later one, whatever it
  -- says, changes no table and emits no event.
  pub update_submission_after_judge_once :
      (now later id : ℕ) (v w : Verdict) (db : Db submissions progresses)
      → update_submission_after_judge submissions progresses later id w
          (update_submission_after_judge submissions progresses now id v db)
        ≡ update_submission_after_judge submissions progresses now id v db
  unfolding judge update_progress_after_judge
  update_submission_after_judge_once now later id v w db =
      elim (Option-cases (submissions.find db.submission_rows id)) [
        | inl missing ↦
            rw (no_submission now id v db missing, no_submission later id w db missing) refl
        | inr (s, found) ↦ elim (Option-cases s.judged_at) [
          | inr (t, before) ↦
              let same = already_judged now id v s db t found before in
              rw (same, already_judged later id w s db t found before) refl
          | inl fresh ↦
              let row : submissions.find
                    (submissions.save db.submission_rows id
                      (judged_submission submissions progresses now v s))
                    id
                  ≡ some (judged_submission submissions progresses now v s) =
                ground (
                  arith,
                  (==_iff id id).1 refl,
                  submissions.find-save db.submission_rows id id
                      (judged_submission submissions progresses now v s),
                ) in
              let first = newly_judged now id v s db found fresh in
              rw first (
                already_judged later id w (judged_submission submissions progresses now v s)
                  (judge submissions progresses now id v s db) now row refl)
        ]
      ]
