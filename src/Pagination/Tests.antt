-- ===== src/Pagination/Tests.antt =====
-- Five rows on pages of two.
use sfinx_backend.Base.{
  ℕ, ◌+◌, ◌≡◌, ◌≤◌, ◌<◌, ◌↔◌, refl, true, false, none, some, List, [], ◌∷◌, arith,
}
use sfinx_backend.Base.Lists.{length, take, drop}
use sfinx_backend.Pagination.{FindManyOptions, asc, paginate}
use sfinx_backend.Pagination.Pages.{asks, pages, paginate-IsComplete}

abbrev rows : List ℕ
rows = 5 ∷ 6 ∷ 7 ∷ 8 ∷ 9 ∷ []

-- The database lists the same rows in any order of columns.
abbrev find_and_count : FindManyOptions → List ℕ × ℕ
find_and_count o = (take o.take (drop o.skip rows), length rows)

third_page : (paginate find_and_count (asks none 3 2)).page_rows ≡ 9 ∷ []
unfolding paginate
third_page = refl

paginate-IsComplete_example :
    let p = paginate find_and_count (asks (some (4, asc)) 2 2) in
    (pages find_and_count (some (4, asc)) rows p.meta.total_pages 2 ≡ rows)
    × (length p.page_rows ≤ 2)
    × ((p.meta.has_next_page ≡ true)
        ↔ (0 < length (paginate find_and_count (asks (some (4, asc)) (2 + 1) 2)).page_rows))
    × ((p.meta.has_previous_page ≡ false) ↔ (◌≡◌ {A = ℕ} 2 1))
paginate-IsComplete_example =
    paginate-IsComplete find_and_count (some (4, asc)) rows 2 2 (λ skip limit. refl) (omega arith)
      (omega arith)
