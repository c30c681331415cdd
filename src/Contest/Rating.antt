-- ===== src/Contest/Rating.antt =====
-- src/modules/contest/services/contest-rating.service.ts: ranks and rating changes after a contest.
-- The expected rank of a rating is computed with floating point numbers: whether it is below a
-- participant's middle rank is a parameter.
pub mod Ranks
pub mod Search
pub mod Changes
pub mod Deltas
mod Tests
use sfinx_backend.Base.{
  ℕ, zero, suc, ◌+◌, ◌-◌, ◌*◌, ◌/◌, ◌&&◌, ◌||◌, Bool, true, false, Option, none, some, List, [],
  ◌∷◌, map, max, ltb, leb, ◌==◌, or_else, if◌then◌else◌,
}
use sfinx_backend.Base.Int.{ℤ, pos, negsuc, ◌+ℤ◌, ◌-ℤ◌, pos_part}
use sfinx_backend.Base.Lists.{length, keep_if}
use sfinx_backend.Contest.{ContestParticipant}

-- A participant and its user.
abbrev pub Entry : Type 0
Entry = ℕ × ContestParticipant

-- Whether the comparison that sorts the participants is negative.
abbrev pub is_before : Entry → Entry → Bool
is_before (u, a) (w, b) =
    if a.solved_count == b.solved_count
    then (if a.total_score == b.total_score
        then ltb a.finish_time b.finish_time
        else ltb b.total_score a.total_score)
    else ltb b.solved_count a.solved_count

abbrev pub is_tied : Entry → Entry → Bool
is_tied (u, a) (w, b) =
    a.solved_count == b.solved_count
    && (a.total_score == b.total_score && a.finish_time == b.finish_time)

-- `sort` is stable: an entry goes in front of those that are not before it.
abbrev pub insert_entry : Entry → List Entry → List Entry
insert_entry x [] = x ∷ []
insert_entry x (y ∷ ys) = if is_before y x then y ∷ insert_entry x ys else x ∷ y ∷ ys

unfoldable pub sort_entries : List Entry → List Entry
sort_entries [] = []
sort_entries (x ∷ xs) = insert_entry x (sort_entries xs)

-- The two loops over the sorted entries as one: `seen` entries have been ranked, the last of them
-- in the group that `head` starts; an entry that is not tied with it starts the next group, whose
-- rank is one more than the number of entries before it.
unfoldable pub ranks_from : ℕ → Entry → ℕ → List Entry → List (Entry × ℕ)
ranks_from seen head rank [] = []
ranks_from seen head rank (y ∷ ys) =
    let same = ranks_from (suc seen) head rank ys in
    let next = ranks_from (suc seen) y (suc seen) ys in
    if is_tied head y then (y, rank) ∷ same else (y, suc seen) ∷ next

unfoldable pub assign_ranks : List Entry → List (Entry × ℕ)
unfolding ranks_from
assign_ranks [] = []
assign_ranks (x ∷ xs) = (x, 1) ∷ ranks_from 1 x 1 xs

-- The participants who submitted, at least two of them, in their order with their ranks.
unfoldable pub rank_participants : List Entry → List (Entry × ℕ)
unfolding sort_entries assign_ranks
rank_participants participants =
    let active = keep_if (λ e. ltb 0 e.1.total_submissions) participants in
    if ltb (length active) 2 then [] else assign_ranks (sort_entries active)

-- The loop of the binary search, on fuel; `too_high r` says that the expected rank of the rating
-- `r` is below the middle rank.
unfoldable pub search_rating : (ℕ → Bool) → ℕ → ℕ → ℕ → Option ℕ
search_rating too_high zero lo hi = if ltb 1 (hi - lo) then none else some lo
search_rating too_high (suc fuel) lo hi =
    let mid = (lo + hi) / 2 in
    let lower = search_rating too_high fuel lo mid in
    let upper = search_rating too_high fuel mid hi in
    if ltb 1 (hi - lo) then (if too_high mid then lower else upper) else some lo

unfoldable pub find_target_rating : (ℕ → Bool) → Option ℕ
unfolding search_rating
find_target_rating too_high = search_rating too_high 8000 1 8000

pub record RatingData : Type 0 where
  pub user_id : ℕ
  pub current_rating : ℕ
  pub actual_rank : ℕ
  pub delta : ℤ

-- `Math.floor(x / 2)`
abbrev pub half_floor : ℤ → ℤ
half_floor (pos n) = pos (n / 2)
half_floor (negsuc n) = negsuc (n / 2)

abbrev pub delta_to : ℕ → ℕ → ℤ
delta_to target current = half_floor (pos target -ℤ pos current)

abbrev pub sum_deltas : List RatingData → ℤ
sum_deltas [] = pos 0
sum_deltas (e ∷ es) = e.delta +ℤ sum_deltas es

abbrev pub lower_by : ℕ → RatingData → RatingData
lower_by n e = record e { delta = e.delta -ℤ pos n }

-- `Math.ceil(sum / n)` for a positive sum.
abbrev pub ceil_div : ℕ → ℕ → ℕ
ceil_div x n = (x + n - 1) / n

unfoldable pub normalize_deltas : List RatingData → List RatingData
normalize_deltas data_rows =
    let sum = pos_part (sum_deltas data_rows) in
    if ltb 0 sum then map (lower_by (ceil_div sum (length data_rows))) data_rows else data_rows

-- `Math.max(1, currentRating + delta)`
abbrev pub new_rating : RatingData → ℕ
new_rating e = max 1 (pos_part (pos e.current_rating +ℤ e.delta))

-- A ranked participant with its current rating, 1500 if it has none, and the change that the search
-- asks for; `too_high rank current r` compares the expected rank of `r` with the middle rank.
abbrev pub rate_entry : (ℕ → ℕ → ℕ → Bool) → (ℕ → Option ℕ) → Entry × ℕ → RatingData
unfolding find_target_rating
rate_entry too_high ratings ((user, p), rank) =
    let current = or_else (ratings user) 1500 in
    record {
      user_id = user;
      current_rating = current;
      actual_rank = rank;
      delta = delta_to (or_else (find_target_rating (too_high rank current)) 1) current;
    }

unfoldable pub calculate_ratings :
    (ℕ → ℕ → ℕ → Bool) → (ℕ → Option ℕ) → List Entry → List RatingData
unfolding rate_entry rank_participants normalize_deltas
calculate_ratings too_high ratings participants =
    normalize_deltas (map (rate_entry too_high ratings) (rank_participants participants))
