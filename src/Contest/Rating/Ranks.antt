-- ===== src/Contest/Rating/Ranks.antt =====
-- The ranks of the participants of a contest.
use sfinx_backend.Base.{
  ℕ, suc, ◌+◌, ◌≡◌, refl, inl, inr, Bool, true, false, List, [], ◌∷◌, arith, ltb, Bool-cases,
}
use sfinx_backend.Base.Lists.{length, keep_if, count_by, All}
use sfinx_backend.Contest.Rating.{
  Entry, is_before, is_tied, insert_entry, sort_entries, ranks_from, assign_ranks,
  rank_participants,
}

before_trans : (a b c : Entry) → is_before b a ≡ false → is_before b c ≡ true → is_before a c ≡ true
before_trans (u, a) (w, b) (x, c) h k = ground arith

not_before_trans :
    (a b c : Entry) → is_before b a ≡ false → is_before c b ≡ false → is_before c a ≡ false
not_before_trans (u, a) (w, b) (x, c) h k = ground arith

before_asym : (a b : Entry) → is_before a b ≡ true → is_before b a ≡ false
before_asym (u, a) (w, b) h = ground arith

before_or_tied : (a b : Entry) → is_before b a ≡ false → is_tied a b ≡ false → is_before a b ≡ true
before_or_tied (u, a) (w, b) h k = ground arith

tied_before : (a b c : Entry) → is_tied a b ≡ true → is_before c b ≡ is_before c a
tied_before (u, a) (w, b) (x, c) h = ground arith

before_irrefl : (a : Entry) → is_before a a ≡ false
before_irrefl (u, a) = ground arith

tied_not_before : (a b : Entry) → is_tied a b ≡ true → is_before a b ≡ false
tied_not_before (u, a) (w, b) h = ground arith

-- No entry is before one that stands in front of it.
abbrev IsSorted : List Entry → Type 0
IsSorted [] = Unit
IsSorted (x ∷ xs) = All (λ y. is_before y x ≡ false) xs × IsSorted xs

All-map :
    {A : Type 0} (P Q : A → Type 0) (xs : List A) → ((e : A) → P e → Q e) → All P xs → All Q xs
All-map P Q [] f all = tt
All-map P Q (x ∷ xs) f (h, all) = (f x h, All-map P Q xs f all)

insert_entry-All :
    (P : Entry → Type 0) (x : Entry) (ys : List Entry) → P x → All P ys → All P (insert_entry x ys)
insert_entry-All P x [] h all = (h, tt)
insert_entry-All P x (y ∷ ys) h (k, all) = elim (Bool-cases (is_before y x)) [
  | inl first ↦ rw first (k, insert_entry-All P x ys h all)
  | inr after ↦ rw after (h, (k, all))
]

insert_entry-IsSorted : (x : Entry) (ys : List Entry) → IsSorted ys → IsSorted (insert_entry x ys)
insert_entry-IsSorted x [] s = (tt, tt)
insert_entry-IsSorted x (y ∷ ys) (below, s) = elim (Bool-cases (is_before y x)) [
  | inl first ↦ rw first (
    insert_entry-All (λ z. is_before z y ≡ false) x ys (before_asym y x first) below,
    insert_entry-IsSorted x ys s,
  )
  | inr after ↦ rw after (
    (
      after,
      All-map (λ z. is_before z y ≡ false) (λ z. is_before z x ≡ false) ys
          (λ z h. not_before_trans x y z after h) below,
    ),
    (below, s),
  )
]

sort_entries-IsSorted : (xs : List Entry) → IsSorted (sort_entries xs)
unfolding sort_entries
sort_entries-IsSorted [] = tt
sort_entries-IsSorted (x ∷ xs) =
    insert_entry-IsSorted x (sort_entries xs) (sort_entries-IsSorted xs)

count_by-insert_entry :
    (p : Entry → Bool) (x : Entry) (ys : List Entry)
    → count_by p (insert_entry x ys) ≡ count_by p (x ∷ ys)
count_by-insert_entry p x [] = refl
count_by-insert_entry p x (y ∷ ys) = ground (arith, count_by-insert_entry p x ys)

count_by-sort_entries :
    (p : Entry → Bool) (xs : List Entry) → count_by p (sort_entries xs) ≡ count_by p xs
unfolding sort_entries
count_by-sort_entries p [] = refl
count_by-sort_entries p (x ∷ xs) =
    ground (arith, count_by-insert_entry p x (sort_entries xs), count_by-sort_entries p xs)

count_by-All :
    (p : Entry → Bool) (xs : List Entry) → All (λ e. p e ≡ true) xs → count_by p xs ≡ length xs
count_by-All p [] all = refl
count_by-All p (x ∷ xs) (h, all) = ground (arith, h, count_by-All p xs all)

count_by_none : (p : Entry → Bool) (xs : List Entry) → All (λ e. p e ≡ false) xs → count_by p xs ≡ 0
count_by_none p [] all = refl
count_by_none p (x ∷ xs) (h, all) = ground (arith, h, count_by_none p xs all)

count_by-ext :
    (p q : Entry → Bool) (xs : List Entry)
    → ((e : Entry) → p e ≡ q e)
    → count_by p xs ≡ count_by q xs
count_by-ext p q [] same = refl
count_by-ext p q (x ∷ xs) same = ground (arith, same x, count_by-ext p q xs same)

-- Each entry is ranked one after the number of entries before it in the two lists.
abbrev AllRanked : List Entry → List Entry → List (Entry × ℕ) → Type 0
AllRanked ranked rest out =
    All
      (λ (r : Entry × ℕ).
        r.1 ≡ suc (count_by (λ q. is_before q r.0) ranked + count_by (λ q. is_before q r.0) rest))
      out

move_entry :
    (ranked : List Entry) (y : Entry) (ys : List Entry) (out : List (Entry × ℕ))
    → AllRanked (y ∷ ranked) ys out
    → AllRanked ranked (y ∷ ys) out
move_entry ranked y ys [] all = tt
move_entry ranked y ys (r ∷ out) (h, all) = (omega (arith, h), move_entry ranked y ys out all)

ranks_from-AllRanked :
    (ranked : List Entry) (head : Entry) (rank : ℕ) (ys : List Entry)
    → All (λ q. is_before head q ≡ false) ranked
    → rank ≡ suc (count_by (λ q. is_before q head) ranked)
    → All (λ y. is_before y head ≡ false) ys
    → IsSorted ys
    → AllRanked ranked ys (ranks_from (length ranked) head rank ys)
unfolding ranks_from
ranks_from-AllRanked ranked head rank [] front is after s = tt
ranks_from-AllRanked ranked head rank (y ∷ ys) front is (late, after) (below, s) =
    let alone : count_by (λ q. is_before q y) (y ∷ ys) ≡ 0 =
      count_by_none (λ q. is_before q y) (y ∷ ys) (before_irrefl y, below) in
    elim (Bool-cases (is_tied head y)) [
      | inl tied ↦
          let shared =
            count_by-ext (λ q. is_before q y) (λ q. is_before q head) ranked
              (λ q. tied_before head y q tied) in
          let rest =
            ranks_from-AllRanked (y ∷ ranked) head rank ys (tied_not_before head y tied, front)
              (ground (arith, is, late)) after s in
          rw tied (ground (arith, is, shared, alone), move_entry ranked y ys _ rest)
      | inr apart ↦
          let ahead = before_or_tied head y late apart in
          let all_ahead =
            All-map (λ q. is_before head q ≡ false) (λ q. is_before q y ≡ true) ranked
              (λ q h. before_trans q head y h ahead) front in
          let counted = count_by-All (λ q. is_before q y) ranked all_ahead in
          let behind =
            All-map (λ q. is_before q y ≡ true) (λ q. is_before y q ≡ false) ranked
              (λ q. before_asym q y) all_ahead in
          let rest =
            ranks_from-AllRanked (y ∷ ranked) y (suc (length ranked)) ys (before_irrefl y, behind)
              (ground (arith, counted, before_irrefl y)) below s in
          rw apart (ground (arith, counted, alone), move_entry ranked y ys _ rest)
    ]

-- The participants who submitted.
abbrev pub active : List Entry → List Entry
active participants = keep_if (λ e. ltb 0 e.1.total_submissions) participants

assign_ranks-AllRanked : (xs : List Entry) → IsSorted xs → AllRanked [] xs (assign_ranks xs)
unfolding assign_ranks
assign_ranks-AllRanked [] s = tt
assign_ranks-AllRanked (x ∷ xs) (below, s) =
    let alone = count_by_none (λ q. is_before q x) (x ∷ xs) (before_irrefl x, below) in
    let rest =
      ranks_from-AllRanked (x ∷ []) x 1 xs (before_irrefl x, tt) (ground (arith, before_irrefl x))
        below s in
    (ground (arith, alone), move_entry [] x xs _ rest)

-- The rank of every rated participant is one more than the number of rated participants who are
-- strictly before it: those tied share a rank, and the ranks after them are skipped.
pub rank_participants_counts :
    (participants : List Entry)
    → All
        (λ (r : Entry × ℕ). r.1 ≡ suc (count_by (λ q. is_before q r.0) (active participants)))
        (rank_participants participants)
unfolding rank_participants
rank_participants_counts participants = elim (Bool-cases (ltb (length (active participants)) 2)) [
  | inl few ↦ rw few tt
  | inr many ↦
      let sorted = sort_entries (active participants) in
      let ranked = assign_ranks-AllRanked sorted (sort_entries-IsSorted (active participants)) in
      rw many (
        All-map (λ (r : Entry × ℕ). r.1 ≡ suc (0 + count_by (λ q. is_before q r.0) sorted))
          (λ (r : Entry × ℕ). r.1 ≡ suc (count_by (λ q. is_before q r.0) (active participants)))
          (assign_ranks sorted)
          (λ r h.
            ground (arith, h, count_by-sort_entries (λ q. is_before q r.0) (active participants)))
          ranked)
]
