-- ===== src/Pagination/Tests.antt =====
-- Runs of src/core/pagination on lists of rows.
use nestjs_starter.Prelude.{
  ℕ, ◌*◌, ◌≤◌, ◌<◌, ◌≡◌, ◌↔◌, refl, true, none, some, List, [], ◌∷◌, length, arith,
}
use nestjs_starter.Pagination.{negsuc, pos, PaginationOptions, build_pagination_meta, paginate}
use nestjs_starter.Pagination.Pages.{take, drop, first_pages, paginate_bounds, first_pages_lem}

abbrev rows : List ℕ
rows = 10 ∷ 20 ∷ 30 ∷ 40 ∷ 50 ∷ []

abbrev query : ℕ → ℕ → List ℕ × ℕ
query skip limit = (take limit (drop skip rows), length rows)

abbrev below : PaginationOptions
below = record { page = some (negsuc 3); limit = some (pos 2) }

second_page :
    (paginate query (record { page = some (pos 2); limit = some (pos 2) })).data_field
    ≡ 30 ∷ 40 ∷ []
unfolding paginate
second_page = refl

third_of_five : (build_pagination_meta 5 3 2).next_page ≡ none
unfolding build_pagination_meta
third_of_five = refl

paginate_bounds_example :
    let r = paginate query below in
    (1 ≤ r.pagination.page)
    × (1 ≤ r.pagination.limit)
    × (r.pagination.limit ≤ 50)
    × (length r.data_field ≤ r.pagination.limit)
    × ((r.pagination.has_next_page ≡ true) ↔ (r.pagination.page * r.pagination.limit < 5))
paginate_bounds_example = paginate_bounds rows query (λ skip limit. refl) below

first_pages_lem_example :
    first_pages rows query (λ skip limit. refl) 2 (build_pagination_meta 5 1 2).total_pages ≡ rows
first_pages_lem_example =
    first_pages_lem rows query (λ skip limit. refl) 2 (omega arith) (omega arith)
