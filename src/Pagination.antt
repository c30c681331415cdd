-- ===== src/Pagination.antt =====
-- src/common/utils/pagination.util.ts, src/common/dto/pagination-query.dto.ts and
-- src/common/dto/paginated-result.dto.ts: pages of a listing. `findAndCount` of TypeORM is a
-- parameter; the other find options, which the caller gives, are part of it. A column to sort by is
-- a number, and the empty text is none.
pub mod Pages
mod Tests
use sfinx_backend.Base.{
  ℕ, ◌+◌, ◌-◌, ◌*◌, ◌/◌, Bool, Option, none, some, List, ltb, or_else, min, max, Result, ok, throws,
  internal_error, ◌>>◌, throw_if,
}

-- dto/pagination-query.dto.ts
pub data SortOrder : Type 0 where
  asc desc : SortOrder

-- Page and limit after the validators of the query, which leave both at least 1 and the limit at
-- most 100; the defaults stand for what is absent.
pub record PaginationQueryDto : Type 0 where
  pub page : Option ℕ
  pub limit : Option ℕ
  pub sort_by : Option ℕ
  pub sort_order : Option SortOrder

abbrev pub page_of : PaginationQueryDto → ℕ
page_of q = or_else q.page 1

abbrev pub limit_of : PaginationQueryDto → ℕ
limit_of q = or_else q.limit 20

unfoldable pub calculate_skip : ℕ → ℕ → ℕ
calculate_skip page limit = (page - 1) * limit

-- `Math.ceil(total / limit)`
unfoldable pub calculate_total_pages : ℕ → ℕ → ℕ
calculate_total_pages total limit = (total + limit - 1) / limit

pub record PaginationMetaDto : Type 0 where
  pub current_page : ℕ
  pub page_limit : ℕ
  pub total : ℕ
  pub total_pages : ℕ
  pub has_previous_page : Bool
  pub has_next_page : Bool

unfoldable pub new_meta : ℕ → ℕ → ℕ → PaginationMetaDto
unfolding calculate_total_pages
new_meta page limit total = record {
  current_page = page;
  page_limit = limit;
  total = total;
  total_pages = calculate_total_pages total limit;
  has_previous_page = ltb 1 page;
  has_next_page = ltb page (calculate_total_pages total limit);
}

unfoldable pub validate : ℕ → ℕ → Result (Unit {0})
validate page limit = do
  throw_if (ltb page 1) internal_error
  throw_if (ltb limit 1) internal_error
  throw_if (ltb 100 limit) internal_error
  ok tt

-- Negative arguments are as 0 here: `Math.max(1, …)` gives 1 for both.
unfoldable pub get_safe_values : Option ℕ → Option ℕ → ℕ × ℕ
get_safe_values page limit = (max 1 (or_else page 1), min 100 (max 1 (or_else limit 20)))

pub record PaginatedResultDto (A : Type 0) : Type 0 where
  pub page_rows : List A
  pub meta : PaginationMetaDto

-- What the class gives TypeORM: `order` is absent without a column to sort by.
pub record FindManyOptions : Type 0 where
  pub skip : ℕ
  pub take : ℕ
  pub order : Option (ℕ × SortOrder)

abbrev pub order_of : PaginationQueryDto → Option (ℕ × SortOrder)
order_of q = elim q.sort_by [ none ↦ none | some column ↦ some (column, or_else q.sort_order desc) ]

unfoldable pub build_find_options : PaginationQueryDto → FindManyOptions
unfolding calculate_skip
build_find_options q = record {
  skip = calculate_skip (page_of q) (limit_of q);
  take = limit_of q;
  order = order_of q;
}

-- `find_and_count` answers with rows and the number of all rows.
module _ {A : Type 0} (find_and_count : FindManyOptions → List A × ℕ) where
  unfoldable pub paginate : PaginationQueryDto → PaginatedResultDto A
  unfolding build_find_options new_meta
  paginate q =
      let (found, total) = find_and_count (build_find_options q) in
      record { page_rows = found; meta = new_meta (page_of q) (limit_of q) total }
