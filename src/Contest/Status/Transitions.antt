-- ===== src/Contest/Status/Transitions.antt =====
-- The state machine of a contest.
use sfinx_backend.Base.{
  ℕ, ◌≡◌, refl, ◌⊎◌, inl, inr, true, false, not, ◌&&◌, Option, none, some, arith, Bool-cases, leb,
}
use sfinx_backend.Contest.{
  Contest, ContestStatus, draft, scheduled, running, ended, cancelled, same_status,
}
use sfinx_backend.Contest.Status.{start_due, end_due}

-- The moves that the lifecycle operations make.
pub data Transition : ContestStatus → ContestStatus → Type 0 where
  start : Transition scheduled running
  finish : Transition running ended
  finish_late : Transition scheduled ended
  cancel : (s : ContestStatus) → same_status s ended ≡ false → Transition s cancelled

pub data Moves : ContestStatus → ContestStatus → Type 0 where
  stay : (s : ContestStatus) → Moves s s
  move : {a b c : ContestStatus} → Transition a b → Moves b c → Moves a c

pub Moves-trans : {a b c : ContestStatus} → Moves a b → Moves b c → Moves a c
Moves-trans (stay s) n = n
Moves-trans (move t m) n = move t (Moves-trans m n)

Transition-ended : {a b : ContestStatus} → Transition a b → a ≡ ended → ⊥
Transition-ended start e = cc
Transition-ended finish e = cc
Transition-ended finish_late e = cc
Transition-ended (cancel s h) e = ground arith

pub Moves-ended : {a b : ContestStatus} → Moves a b → a ≡ ended → b ≡ ended
Moves-ended (stay s) e = e
Moves-ended (move t m) e = absurd (Transition-ended t e)

-- What may have become of a contest in a state: a contest in a state that the moves reach, or a
-- deletion, for which the moves reach a draft or cancelled state first.
abbrev pub Outcome : ContestStatus → Option Contest → Type 0
Outcome s (some c) = Moves s c.status
Outcome s none = Moves s draft ⊎ Moves s cancelled

pub Outcome-trans :
    {a b : ContestStatus} (o : Option Contest) → Moves a b → Outcome b o → Outcome a o
Outcome-trans (some c) m n = Moves-trans m n
Outcome-trans none m (inl n) = inl (Moves-trans m n)
Outcome-trans none m (inr n) = inr (Moves-trans m n)

pub started_Moves : (s : ContestStatus) → same_status s scheduled ≡ true → Moves s running
started_Moves scheduled h = move start (stay running)
started_Moves draft h = cc
started_Moves running h = cc
started_Moves ended h = cc
started_Moves cancelled h = cc

pub finished_Moves :
    (s : ContestStatus)
    → (not (same_status s running) && not (same_status s scheduled)) ≡ false
    → Moves s ended
finished_Moves scheduled h = move finish_late (stay ended)
finished_Moves running h = move finish (stay ended)
finished_Moves draft h = cc
finished_Moves ended h = cc
finished_Moves cancelled h = cc

pub deleted_Moves :
    (s : ContestStatus)
    → (not (same_status s draft) && not (same_status s cancelled)) ≡ false
    → Moves s draft ⊎ Moves s cancelled
deleted_Moves draft h = inl (stay draft)
deleted_Moves cancelled h = inr (stay cancelled)
deleted_Moves scheduled h = cc
deleted_Moves running h = cc
deleted_Moves ended h = cc

pub start_due-Moves : (now id : ℕ) (c : Contest) → Moves c.status (start_due now id c).status
start_due-Moves now id c = elim (Bool-cases (same_status c.status scheduled)) [
  | inl yes_scheduled ↦ elim (Bool-cases (leb c.start_time now)) [
    | inl due ↦ rw (yes_scheduled, due) (started_Moves c.status yes_scheduled)
    | inr early ↦ rw (yes_scheduled, early) (stay c.status)
  ]
  | inr other ↦ rw other (stay c.status)
]

pub end_due-Moves : (now id : ℕ) (c : Contest) → Moves c.status (end_due now id c).status
end_due-Moves now id c = elim (Bool-cases (same_status c.status running)) [
  | inl is_running ↦ elim (Bool-cases (leb c.end_time now)) [
    | inl due ↦ rw (is_running, due) (finished_Moves c.status (ground arith))
    | inr early ↦ rw (is_running, early) (stay c.status)
  ]
  | inr other ↦ rw other (stay c.status)
]

pub ended_Outcome :
    (s : ContestStatus) (o : Option Contest)
    → s ≡ ended
    → Outcome s o
    → (c : Contest) × (o ≡ some c) × (c.status ≡ ended)
ended_Outcome s (some c) e m = (c, refl, Moves-ended m e)
ended_Outcome s none e (inl m) = absurd (ended≢draft (Moves-ended m e))
  where
    ended≢draft : draft ≡ ended → ⊥
    ended≢draft p = cc
ended_Outcome s none e (inr m) = absurd (ended≢cancelled (Moves-ended m e))
  where
    ended≢cancelled : cancelled ≡ ended → ⊥
    ended≢cancelled p = cc
