-- ===== src/Submissions/Progress/Best.antt =====
-- What a verdict never takes back.
use sfinx_backend.Base.{
  ℕ, ◌≡◌, ◌≤◌, ◌<◌, refl, inl, inr, true, false, Option, none, some, arith, ◌==◌, same_pair,
  same_pair_iff, if◌then◌else◌, Bool-cases,
}
use sfinx_backend.Base.Table.{Table}
use sfinx_backend.Submissions.{is_accepted}
use sfinx_backend.Submissions.Progress.{
  Submission, UserProblemProgress, Verdict, is_solved, is_better, leave_not_started,
  judged_progress, update_progress_after_judge, ProgressStatus, attempted, solved, not_started,
}

abbrev pub IsNoWorse : ℕ → Option ℕ → Type 0
IsNoWorse b best = (b' : ℕ) × (best ≡ some b') × (0 < b') × (b' ≤ b)

-- What a progress row keeps under a verdict: being solved and since when, and a best runtime that
-- is only ever replaced by a smaller one.
abbrev pub IsKept : UserProblemProgress → UserProblemProgress → Type 0
IsKept p q =
    (is_solved p.progress ≡ true
      → (is_solved q.progress ≡ true) × (q.first_solved_at ≡ p.first_solved_at))
    × ((b : ℕ) → p.best_runtime_ms ≡ some b → 0 < b → IsNoWorse b q.best_runtime_ms)

better_of-IsNoWorse :
    (measured : Option ℕ) (b : ℕ)
    → 0 < b
    → IsNoWorse b (if is_better measured (some b) then measured else some b)
better_of-IsNoWorse none b positive = (b, ground arith, positive, omega arith)
better_of-IsNoWorse (some m) b positive = elim (Bool-cases (is_better (some m) (some b))) [
  | inl better ↦ (m, ground (arith, better), ground (arith, better), ground (arith, better))
  | inr worse ↦ (b, rw worse refl, positive, omega arith)
]

judged_progress-best :
    (now id : ℕ) (v : Verdict) (p : UserProblemProgress)
    → (judged_progress now id v p).best_runtime_ms ≡ (
        if is_accepted v.verdict
        then (if is_better v.runtime p.best_runtime_ms then v.runtime else p.best_runtime_ms)
        else p.best_runtime_ms)
judged_progress-best now id v p = elim (Bool-cases (is_accepted v.verdict)) [
  | inr rejects ↦ rw rejects refl
  | inl accepts ↦ elim (Bool-cases (is_solved p.progress)) [
    | inl old ↦ rw (accepts, old) refl
    | inr new ↦ rw (accepts, new) refl
  ]
]

still_solved : (s : ProgressStatus) → is_solved s ≡ true → is_solved (leave_not_started s) ≡ true
still_solved attempted h = h
still_solved solved h = h
still_solved not_started h = absurd (cc)

judged_progress-IsKept :
    (now id : ℕ) (v : Verdict) (p : UserProblemProgress) → IsKept p (judged_progress now id v p)
judged_progress-IsKept now id v p = (keeps_solved, keeps_best)
  where
    keeps_solved :
        is_solved p.progress ≡ true
        → (is_solved (judged_progress now id v p).progress ≡ true)
          × ((judged_progress now id v p).first_solved_at ≡ p.first_solved_at)
    keeps_solved old = elim (Bool-cases (is_accepted v.verdict)) [
      | inr rejects ↦ rw rejects (still_solved p.progress old, refl)
      | inl accepts ↦ rw (accepts, old) (old, refl)
    ]

    keeps_best :
        (b : ℕ)
        → p.best_runtime_ms ≡ some b
        → 0 < b
        → IsNoWorse b (judged_progress now id v p).best_runtime_ms
    keeps_best b best positive =
        let (n, min_is, pos, le) = better_of-IsNoWorse v.runtime b positive in
        elim (Bool-cases (is_accepted v.verdict)) [
          | inr rejects ↦ (
            b,
            ground (arith, judged_progress-best now id v p, rejects, best),
            positive,
            omega arith,
          )
          | inl accepts ↦
              (n, ground (arith, judged_progress-best now id v p, accepts, best, min_is), pos, le)
        ]

module _ (submissions : Table ℕ Submission ◌==◌)
    (progresses : Table (ℕ × ℕ) UserProblemProgress same_pair) where
  -- A verdict on a user's submission keeps a solved problem solved, with the time of its first
  -- acceptance, never replaces a measured best runtime by a greater one, and leaves the rows of all
  -- other users and problems as they are.
  pub update_progress_after_judge-IsKept :
      (now user problem id : ℕ) (v : Verdict) (rows : progresses.Rows) (p : UserProblemProgress)
      → progresses.find rows (user, problem) ≡ some p
      → let rows' =
          (update_progress_after_judge submissions progresses now user problem id v rows).1 in
        ((q : UserProblemProgress) × (progresses.find rows' (user, problem) ≡ some q) × IsKept p q)
        × ((key : ℕ × ℕ)
            → same_pair (user, problem) key ≡ false
            → progresses.find rows' key ≡ progresses.find rows key)
  unfolding update_progress_after_judge
  update_progress_after_judge-IsKept now user problem id v rows p there =
      let saved = progresses.find-save rows (user, problem) in
      let q = judged_progress now id v p in
      (
        (
          q,
          ground (
            arith,
            there,
            (same_pair_iff (user, problem) (user, problem)).1 refl,
            saved (user, problem) q,
          ),
          judged_progress-IsKept now id v p,
        ),
        λ key other. ground (arith, there, other, saved key q),
      )
