-- ===== src/Pagination/Pages.antt =====
-- The pages of a listing make up the listing.
use sfinx_backend.Base.{
  ℕ, zero, suc, ◌+◌, ◌-◌, ◌*◌, ◌≡◌, ◌≤◌, ◌<◌, ◌↔◌, ◌∙◌, refl, true, false, Option, none, some,
  ltb→lt, List, [], ◌++◌, arith,
}
use mathlib.Core.Option
use sfinx_backend.Base.Lists.{length, take, drop, take-append_drop, take_all, length-take-drop}
use sfinx_backend.Pagination.{
  SortOrder, PaginationQueryDto, FindManyOptions, PaginatedResultDto, order_of, new_meta,
  calculate_total_pages, paginate,
}

-- The query for a page, in an order.
abbrev pub asks : Option (ℕ × SortOrder) → ℕ → ℕ → PaginationQueryDto
asks order page limit = record {
  page = some page;
  limit = some limit;
  sort_by = Option.map (λ o. o.0) order;
  sort_order = Option.map (λ o. o.1) order;
}

order_of-asks :
    (order : Option (ℕ × SortOrder)) (page limit : ℕ) → order_of (asks order page limit) ≡ order
order_of-asks none page limit = refl
order_of-asks (some (column, direction)) page limit = refl

-- No page lies beyond the last.
total_pages_enough :
    (total limit : ℕ) → 0 < limit → total ≤ calculate_total_pages total limit * limit
unfolding calculate_total_pages
total_pages_enough total limit h = grind arith

total_pages_needed :
    (page total limit : ℕ)
    → 0 < limit
    → (page < calculate_total_pages total limit) ↔ (page * limit < total)
unfolding calculate_total_pages
total_pages_needed page total limit h = (λ k. grind arith, λ k. grind arith)

module _ {A : Type 0} (find_and_count : FindManyOptions → List A × ℕ)
    (order : Option (ℕ × SortOrder)) (rows : List A) where
  -- In this order, the queries for pages cut up one listing: what the database does while no row
  -- changes and the order leaves no two rows tied.
  abbrev pub IsListing : Type 0
  IsListing =
      (skip limit : ℕ)
      → find_and_count (record { skip = skip; take = limit; order = order })
        ≡ (take limit (drop skip rows), length rows)

  abbrev page_of_rows : ℕ → ℕ → PaginatedResultDto A
  page_of_rows page limit = paginate find_and_count (asks order page limit)

  cut_page :
      IsListing
      → (page limit : ℕ)
      → page_of_rows page limit ≡ record {
        page_rows = take limit (drop ((page - 1) * limit) rows);
        meta = new_meta page limit (length rows);
      }
  unfolding paginate
  cut_page listing page limit =
      let cut = listing ((page - 1) * limit) limit in rw (order_of-asks order page limit, cut) refl

  -- The rows of the first pages, one after another.
  abbrev pub pages : ℕ → ℕ → List A
  pages zero limit = []
  pages (suc n) limit = pages n limit ++ (page_of_rows (suc n) limit).page_rows

  pages-take : IsListing → (n limit : ℕ) → pages n limit ≡ take (n * limit) rows
  pages-take listing zero limit = let e : 0 * limit ≡ 0 = omega arith in rw e refl
  pages-take listing (suc n) limit =
      let e : suc n * limit ≡ n * limit + limit = grind arith in
      let before : suc n - 1 ≡ n = omega arith in
      let page = cut_page listing (suc n) limit in
      let front = pages-take listing n limit in
      rw (e, page, before, front, take-append_drop (n * limit) limit rows) refl

  -- If the queries in an order cut up one listing, which nothing changes meanwhile, then the pages
  -- that the metadata announces, one after another, are that listing; no page has more
  -- rows than the limit, a page announces a next one exactly when rows are left, and only the
  -- first announces no previous one.
  pub paginate-IsComplete :
      (page limit : ℕ)
      → IsListing
      → 0 < page
      → 0 < limit
      → let p = paginate find_and_count (asks order page limit) in
        (pages p.meta.total_pages limit ≡ rows)
        × (length p.page_rows ≤ limit)
        × ((p.meta.has_next_page ≡ true)
            ↔ (0 < length (paginate find_and_count (asks order (page + 1) limit)).page_rows))
        × ((p.meta.has_previous_page ≡ false) ↔ (page ≡ 1))
  unfolding new_meta
  paginate-IsComplete page limit listing first some_rows =
      let this = cut_page listing page limit in
      let after = cut_page listing (page + 1) limit in
      let total = length rows in
      let all = calculate_total_pages total limit in
      let size = length-take-drop ((page - 1) * limit) limit rows in
      let next : page + 1 - 1 ≡ page = omega arith in
      let next_size = length-take-drop (page * limit) limit rows in
      let needed = total_pages_needed page total limit some_rows in
      rw (this, after)
        (
          pages-take listing all limit
              ∙ take_all (all * limit) rows (total_pages_enough total limit some_rows),
          omega (arith, size),
          rw next (
            λ h. omega (arith, next_size, needed.0 (ltb→lt _ _ h)),
            λ h. ground (arith, next_size, needed.1),
          ),
          (λ h. ground (arith, first), λ h. ground arith),
        )
