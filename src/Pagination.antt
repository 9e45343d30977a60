-- ===== src/Pagination.antt =====
-- src/core/pagination: paginate.util.ts with its constants and interfaces. The query builder is a
-- parameter: what `skip(n).take(m).getManyAndCount()` answers. Options are whole numbers, as
-- `PaginationQueryDto` demands, or negative ones; NaN and fractions, which pass the clamp of
-- `paginate` as they are, are outside of the model.
pub mod Pages
mod Tests
use Prim.Native.Nat.{min, max}
use nestjs_starter.Prelude.{
  ℕ, ◌+◌, ◌-◌, ◌*◌, ◌/◌, Bool, Option, none, some, List, [], ◌∷◌, ltb, or_else, if◌then◌else◌,
}

-- an integer: a natural number, or `- (n + 1)`
pub data ℤ : Type 0 where
  pos negsuc : ℕ → ℤ

pub record PaginationOptions : Type 0 where
  pub page : Option ℤ
  pub limit : Option ℤ

pub record PaginationMeta : Type 0 where
  pub total : ℕ
  pub page : ℕ
  pub limit : ℕ
  pub total_pages : ℕ
  pub next_page : Option ℕ
  pub prev_page : Option ℕ
  pub has_next_page : Bool
  pub has_prev_page : Bool

pub record PaginatedResponse (A : Type 0) : Type 0 where
  pub data_field : List A
  pub pagination : PaginationMeta

abbrev pub default_page : ℤ
default_page = pos 1

abbrev pub default_limit : ℤ
default_limit = pos 10

abbrev pub max_limit : ℕ
max_limit = 50

-- `Math.max(n, 1)`
abbrev pub at_least_one : ℤ → ℕ
at_least_one (pos n) = max n 1
at_least_one (negsuc n) = 1

abbrev pub page_of : PaginationOptions → ℕ
page_of options = at_least_one (or_else options.page default_page)

abbrev pub limit_of : PaginationOptions → ℕ
limit_of options = min (at_least_one (or_else options.limit default_limit)) max_limit

-- `Math.ceil(total / limit)`
abbrev pub ceil_div : ℕ → ℕ → ℕ
ceil_div total limit = (total + (limit - 1)) / limit

pub build_pagination_meta : ℕ → ℕ → ℕ → PaginationMeta
build_pagination_meta total page limit =
    let total_pages = ceil_div total limit in
    let has_next_page = ltb page total_pages in
    let has_prev_page = ltb 1 page in
    record {
      total = total;
      page = page;
      limit = limit;
      total_pages = total_pages;
      next_page = if has_next_page then some (page + 1) else none;
      prev_page = if has_prev_page then some (page - 1) else none;
      has_next_page = has_next_page;
      has_prev_page = has_prev_page;
    }

module _ {A : Type 0} where
  -- the query builder, from what it skips and takes
  pub paginate : (ℕ → ℕ → List A × ℕ) → PaginationOptions → PaginatedResponse A
  paginate query options =
      let page = page_of options in
      let limit = limit_of options in
      let (rows, total) = query ((page - 1) * limit) limit in
      record { data_field = rows; pagination = build_pagination_meta total page limit }

  -- `data.map(mapper)`, which gives the mapper the index too
  abbrev pub map_from : {B : Type 0} → ℕ → (A → ℕ → B) → List A → List B
  map_from i mapper [] = []
  map_from i mapper (item ∷ rest) = mapper item i ∷ map_from (i + 1) mapper rest

  pub map_paginated : {B : Type 0} → PaginatedResponse A → (A → ℕ → B) → PaginatedResponse B
  map_paginated result mapper = record {
    data_field = map_from 0 mapper result.data_field;
    pagination = result.pagination;
  }
