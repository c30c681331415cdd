-- ===== src/Base/Table.antt =====
-- A database table behind the operations that the services use of a TypeORM repository, with
-- the behaviour that its documentation gives them. The database itself is a parameter of every
-- model that takes such a table; `list_table` shows that the laws can be met.
use Prim.Native.Nat.{ℕ, ◌+◌}
use mathlib.Core.Path.{◌≡◌, refl}
use mathlib.Core.Logic.{◌↔◌}
use mathlib.Core.Bool.{Bool, true, false, ◌&&◌}
use mathlib.Core.Option.{Option, none, some}
use mathlib.Core.List.{List, [], ◌∷◌}
use native.Mathlib.Omega.{arith}
use sfinx_backend.Base.Tests.{if◌then◌else◌, ◌==◌, ==_iff, same_pair, same_pair_iff}

-- Whether a row under the key passes a `where` condition: 1 if it does.
abbrev pub hits : {K V : Type 0} → (K → V → Bool) → K → Option V → ℕ
hits p k none = 0
hits p k (some v) = if p k v then 1 else 0

abbrev pub map_row : {V : Type 0} → (V → V) → Option V → Option V
map_row f none = none
map_row f (some v) = some (f v)

abbrev pub drop_row : {V : Type 0} → (V → Bool) → Option V → Option V
drop_row f none = none
drop_row f (some v) = if f v then none else some v

-- `same` compares primary keys.
pub record Table (K V : Type 0) (same : K → K → Bool) : Type 1 where
  -- the rows that the table holds
  pub Rows : Type 0
  -- `findOne({ where: key })`
  pub find : Rows → K → Option V
  -- `save(entity)`: inserts the row, or overwrites the row of the same primary key
  pub save : Rows → K → V → Rows
  -- `delete(key)`
  pub delete : Rows → K → Rows
  -- `count({ where: … })`
  pub count : Rows → (K → V → Bool) → ℕ
  -- `UPDATE … SET …` over all rows, with its `WHERE` in the function
  pub update_all : Rows → (K → V → V) → Rows
  -- `findOne({ where: … })` by other columns than the key
  pub find_where : Rows → (K → V → Bool) → Option (K × V)
  -- `DELETE … WHERE …`
  pub delete_where : Rows → (K → V → Bool) → Rows
  pub find-save :
      (s : Rows) (k j : K) (v : V) → find (save s k v) j ≡ (if same k j then some v else find s j)
  pub find-delete :
      (s : Rows) (k j : K) → find (delete s k) j ≡ (if same k j then none else find s j)
  pub count-save :
      (s : Rows) (k : K) (v : V) (p : K → V → Bool)
      → count (save s k v) p + hits p k (find s k) ≡ count s p + hits p k (some v)
  pub count-delete :
      (s : Rows) (k : K) (p : K → V → Bool) → count (delete s k) p + hits p k (find s k) ≡ count s p
  pub count-zero :
      (s : Rows) (p : K → V → Bool)
      → ((k : K) (v : V) → find s k ≡ some v → p k v ≡ false)
      → count s p ≡ 0
  pub find-update_all :
      (s : Rows) (f : K → V → V) (k : K) → find (update_all s f) k ≡ map_row (f k) (find s k)
  pub find_where-some :
      (s : Rows) (p : K → V → Bool) (k : K) (v : V)
      → find_where s p ≡ some (k, v)
      → (find s k ≡ some v) × (p k v ≡ true)
  pub find_where-none :
      (s : Rows) (p : K → V → Bool) (k : K) (v : V)
      → find_where s p ≡ none
      → find s k ≡ some v
      → p k v ≡ false
  pub find-delete_where :
      (s : Rows) (p : K → V → Bool) (k : K) → find (delete_where s p) k ≡ drop_row (p k) (find s k)
  pub count-delete_where :
      (s : Rows) (p q : K → V → Bool)
      → count (delete_where s p) q + count s (λ k v. p k v && q k v) ≡ count s q

-- A table as a list of rows with distinct keys.
module _ {K V : Type 0} (same : K → K → Bool)
    (same_iff : (a b : K) → (same a b ≡ true) ↔ (a ≡ b)) where
  abbrev lookup : K → List (K × V) → Option V
  lookup k [] = none
  lookup k ((j, v) ∷ l) = if same k j then some v else lookup k l

  abbrev insert : K → V → List (K × V) → List (K × V)
  insert k v [] = (k, v) ∷ []
  insert k v (e ∷ l) = if same k e.0 then (e.0, v) ∷ l else e ∷ insert k v l

  abbrev erase : K → List (K × V) → List (K × V)
  erase k [] = []
  erase k (e ∷ l) = if same k e.0 then l else e ∷ erase k l

  abbrev tally : (K → V → Bool) → List (K × V) → ℕ
  tally p [] = 0
  tally p ((k, v) ∷ l) = (if p k v then 1 else 0) + tally p l

  abbrev update_rows : (K → V → V) → List (K × V) → List (K × V)
  update_rows f [] = []
  update_rows f ((k, v) ∷ l) = (k, f k v) ∷ update_rows f l

  abbrev first_where : (K → V → Bool) → List (K × V) → Option (K × V)
  first_where p [] = none
  first_where p ((k, v) ∷ l) = if p k v then some (k, v) else first_where p l

  abbrev erase_where : (K → V → Bool) → List (K × V) → List (K × V)
  erase_where p [] = []
  erase_where p ((k, v) ∷ l) = if p k v then erase_where p l else (k, v) ∷ erase_where p l

  abbrev IsUnique : List (K × V) → Type 0
  IsUnique [] = Unit
  IsUnique ((k, v) ∷ l) = (lookup k l ≡ none) × IsUnique l

  lookup-insert :
      (k j : K) (v : V) (l : List (K × V))
      → lookup j (insert k v l) ≡ (if same k j then some v else lookup j l)
  lookup-insert k j v [] = ground (arith, same_iff k j, same_iff j k)
  lookup-insert k j v ((i, w) ∷ l) =
      ground (arith, same_iff k j, same_iff j k, same_iff k i, same_iff j i, lookup-insert k j v l)

  lookup-erase :
      (k j : K) (l : List (K × V))
      → IsUnique l
      → lookup j (erase k l) ≡ (if same k j then none else lookup j l)
  lookup-erase k j [] u = ground arith
  lookup-erase k j ((i, w) ∷ l) u =
      ground (arith, same_iff k j, same_iff j k, same_iff k i, same_iff j i, lookup-erase k j l u.1)

  insert-IsUnique : (k : K) (v : V) (l : List (K × V)) → IsUnique l → IsUnique (insert k v l)
  insert-IsUnique k v [] u = (refl, tt)
  insert-IsUnique k v ((i, w) ∷ l) u =
      ground (arith, same_iff k i, insert-IsUnique k v l u.1, lookup-insert k i v l)

  erase-IsUnique : (k : K) (l : List (K × V)) → IsUnique l → IsUnique (erase k l)
  erase-IsUnique k [] u = tt
  erase-IsUnique k ((i, w) ∷ l) u =
      ground (arith, same_iff k i, erase-IsUnique k l u.1, lookup-erase k i l u.1)

  lookup-update_rows :
      (f : K → V → V) (k : K) (l : List (K × V))
      → lookup k (update_rows f l) ≡ map_row (f k) (lookup k l)
  lookup-update_rows f k [] = refl
  lookup-update_rows f k ((i, w) ∷ l) = ground (arith, same_iff k i, lookup-update_rows f k l)

  update_rows-IsUnique :
      (f : K → V → V) (l : List (K × V)) → IsUnique l → IsUnique (update_rows f l)
  update_rows-IsUnique f [] u = tt
  update_rows-IsUnique f ((i, w) ∷ l) u =
      ground (arith, lookup-update_rows f i l, update_rows-IsUnique f l u.1)

  lookup-first_where :
      (p : K → V → Bool) (k : K) (v : V) (l : List (K × V))
      → IsUnique l
      → first_where p l ≡ some (k, v)
      → (lookup k l ≡ some v) × (p k v ≡ true)
  lookup-first_where p k v [] u h = absurd (cc)
  lookup-first_where p k v ((i, w) ∷ l) u h =
      ground (arith, same_iff k i, lookup-first_where p k v l u.1)

  lookup-first_where_none :
      (p : K → V → Bool) (k : K) (v : V) (l : List (K × V))
      → first_where p l ≡ none
      → lookup k l ≡ some v
      → p k v ≡ false
  lookup-first_where_none p k v [] h found = absurd (cc)
  lookup-first_where_none p k v ((i, w) ∷ l) h found =
      ground (arith, same_iff k i, lookup-first_where_none p k v l)

  lookup-erase_where :
      (p : K → V → Bool) (k : K) (l : List (K × V))
      → IsUnique l
      → lookup k (erase_where p l) ≡ drop_row (p k) (lookup k l)
  lookup-erase_where p k [] u = refl
  lookup-erase_where p k ((i, w) ∷ l) u = ground (arith, same_iff k i, lookup-erase_where p k l u.1)

  erase_where-IsUnique :
      (p : K → V → Bool) (l : List (K × V)) → IsUnique l → IsUnique (erase_where p l)
  erase_where-IsUnique p [] u = tt
  erase_where-IsUnique p ((i, w) ∷ l) u =
      ground (arith, lookup-erase_where p i l u.1, erase_where-IsUnique p l u.1)

  tally-erase_where :
      (p q : K → V → Bool) (l : List (K × V))
      → tally q (erase_where p l) + tally (λ k v. p k v && q k v) l ≡ tally q l
  tally-erase_where p q [] = omega arith
  tally-erase_where p q ((i, w) ∷ l) = ground (arith, tally-erase_where p q l)

  tally-insert :
      (p : K → V → Bool) (k : K) (v : V) (l : List (K × V))
      → tally p (insert k v l) + hits p k (lookup k l) ≡ tally p l + hits p k (some v)
  tally-insert p k v [] = ground arith
  tally-insert p k v ((i, w) ∷ l) = ground (arith, same_iff k i, tally-insert p k v l)

  tally-erase :
      (p : K → V → Bool) (k : K) (l : List (K × V))
      → tally p (erase k l) + hits p k (lookup k l) ≡ tally p l
  tally-erase p k [] = ground arith
  tally-erase p k ((i, w) ∷ l) = ground (arith, same_iff k i, tally-erase p k l)

  tally-zero :
      (p : K → V → Bool) (l : List (K × V))
      → IsUnique l
      → ((k : K) (v : V) → lookup k l ≡ some v → p k v ≡ false)
      → tally p l ≡ 0
  tally-zero p [] u h = refl
  tally-zero p ((i, w) ∷ l) u h =
      let head : p i w ≡ false = h i w (ground (arith, same_iff i i)) in
      let rest = tally-zero p l u.1 (λ k v e. h k v (ground (arith, u.0, same_iff k i))) in
      ground (arith, head, rest)

  unfoldable pub list_table : Table K V same
  unfolding lookup-insert lookup-erase insert-IsUnique erase-IsUnique lookup-update_rows
      update_rows-IsUnique tally-insert tally-erase tally-zero lookup-first_where
      lookup-first_where_none lookup-erase_where erase_where-IsUnique tally-erase_where
  list_table = record {
    Rows = (l : List (K × V)) × IsUnique l;
    find = λ s k. lookup k s.0;
    save = λ s k v. (insert k v s.0, insert-IsUnique k v s.0 s.1);
    delete = λ s k. (erase k s.0, erase-IsUnique k s.0 s.1);
    count = λ s p. tally p s.0;
    update_all = λ s f. (update_rows f s.0, update_rows-IsUnique f s.0 s.1);
    find_where = λ s p. first_where p s.0;
    delete_where = λ s p. (erase_where p s.0, erase_where-IsUnique p s.0 s.1);
    find_where-some = λ s p k v h. lookup-first_where p k v s.0 s.1 h;
    find_where-none = λ s p k v h found. lookup-first_where_none p k v s.0 h found;
    find-delete_where = λ s p k. lookup-erase_where p k s.0 s.1;
    count-delete_where = λ s p q. tally-erase_where p q s.0;
    find-save = λ s k j v. lookup-insert k j v s.0;
    find-delete = λ s k j. lookup-erase k j s.0 s.1;
    count-save = λ s k v p. tally-insert p k v s.0;
    count-delete = λ s k p. tally-erase p k s.0;
    count-zero = λ s p h. tally-zero p s.0 s.1 h;
    find-update_all = λ s f k. lookup-update_rows f k s.0;
  }

-- Tables keyed by one number and by a pair of numbers.
unfoldable pub number_table : (V : Type 0) → Table ℕ V ◌==◌
unfolding list_table
number_table V = list_table ◌==◌ ==_iff

unfoldable pub pair_table : (V : Type 0) → Table (ℕ × ℕ) V same_pair
unfolding list_table
pair_table V = list_table same_pair same_pair_iff
