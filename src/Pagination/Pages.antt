-- ===== src/Pagination/Pages.antt =====
-- The pages of src/core/pagination/paginate.util.ts cut the rows of a query.
use Prim.Native.Nat.{min, max}
use native.Mathlib.Nat.{add-mul, suc-mul, lt-div-mul-add, le-div_iff_mul-le}
use nestjs_starter.Prelude.{
  ℕ, zero, suc, ◌+◌, ◌-◌, ◌*◌, ◌≤◌, ◌<◌, ◌≡◌, ◌↔◌, refl, ap, sym, ◌∙◌, true, some, List, [], ◌∷◌,
  ◌++◌, length, ltb→lt, lt→ltb, or_else, arith,
}
use nestjs_starter.Pagination.{
  ℤ, pos, negsuc, PaginationOptions, at_least_one, default_page, default_limit, page_of, limit_of,
  ceil_div, build_pagination_meta, paginate,
}

module _ {A : Type 0} where
  abbrev pub take : ℕ → List A → List A
  take zero xs = []
  take (suc n) [] = []
  take (suc n) (x ∷ xs) = x ∷ take n xs

  abbrev pub drop : ℕ → List A → List A
  drop zero xs = xs
  drop (suc n) [] = []
  drop (suc n) (x ∷ xs) = drop n xs

  take_add : (m n : ℕ) (xs : List A) → take m xs ++ take n (drop m xs) ≡ take (m + n) xs
  take_add zero n xs = let same : n ≡ zero + n = (omega arith) in ap (λ k. take k xs) same
  take_add (suc m) n [] = go n (suc m + n)
    where
      go : (a b : ℕ) → take a [] ≡ take b []
      go zero zero = refl
      go zero (suc b) = refl
      go (suc a) zero = refl
      go (suc a) (suc b) = refl
  take_add (suc m) n (x ∷ xs) =
      let same : suc (m + n) ≡ suc m + n = (omega arith) in
      ap (λ r. x ∷ r) (take_add m n xs) ∙ ap (λ k. take k (x ∷ xs)) same

  take_all : (n : ℕ) (xs : List A) → length xs ≤ n → take n xs ≡ xs
  take_all zero [] h = refl
  take_all zero (x ∷ xs) h = absurd (omega (arith, h))
  take_all (suc n) [] h = refl
  take_all (suc n) (x ∷ xs) h = ap (λ r. x ∷ r) (take_all n xs (omega (arith, h)))

  length-take : (n : ℕ) (xs : List A) → length (take n xs) ≤ n
  length-take zero xs = omega arith
  length-take (suc n) [] = omega arith
  length-take (suc n) (x ∷ xs) = omega (arith, length-take n xs)

at_least_one-pos : (n : ℤ) → 1 ≤ at_least_one n
at_least_one-pos (pos n) = omega arith
at_least_one-pos (negsuc n) = omega arith

limit-pos : (options : PaginationOptions) → 0 < limit_of options
limit-pos options = omega (arith, at_least_one-pos (or_else options.limit default_limit))

-- page < ceil (total / limit), without the division
before_last :
    (total limit page : ℕ) → 0 < limit → (page < ceil_div total limit) ↔ (page * limit < total)
before_last total limit page h =
    let (down, up) = le-div_iff_mul-le {k = limit} {x = page + 1} {y = total + (limit - 1)} h in
    let row : (page + 1) * limit ≡ page * limit + limit = (omega (arith, add-mul page 1 limit)) in
    (
      λ p. omega (arith, h, row, down (omega (arith, p))),
      λ p. omega (arith, up (omega (arith, p, row, h))),
    )

module _ {A : Type 0} (rows : List A) (query : ℕ → ℕ → List A × ℕ)
    (answers : (skip limit : ℕ)
      → query skip limit ≡ (take limit (drop skip rows), length rows)) where
  -- For options that are whole numbers, negative ones included, or absent, the page and the limit
  -- are within bounds, no response has more rows than its limit, and there is a next page exactly
  -- when there are rows behind this one.
  pub paginate_bounds :
      (options : PaginationOptions)
      → let r = paginate query options in
        (1 ≤ r.pagination.page)
        × (1 ≤ r.pagination.limit)
        × (r.pagination.limit ≤ 50)
        × (length r.data_field ≤ r.pagination.limit)
        × ((r.pagination.has_next_page ≡ true)
            ↔ (r.pagination.page * r.pagination.limit < length rows))
  unfolding paginate build_pagination_meta
  paginate_bounds options =
      let size = limit_of options in
      let low = limit-pos options in
      let next = before_last (length rows) size (page_of options) low in
      simp (answers ((page_of options - 1) * size) size) (
        at_least_one-pos (or_else options.page default_page),
        low,
        (omega arith),
        length-take size (drop ((page_of options - 1) * size) rows),
        (λ b. next.0 (ltb→lt _ _ b), λ r. lt→ltb _ _ (next.1 r)),
      )

  -- the rows of a page of a given size
  page_rows : ℕ → ℕ → List A
  page_rows limit page =
      (paginate query (record { page = some (pos page); limit = some (pos limit) })).data_field

  -- the rows of the first pages, one behind the other
  pub first_pages : ℕ → ℕ → List A
  first_pages limit zero = []
  first_pages limit (suc page) = first_pages limit page ++ page_rows limit (suc page)

  page_rows_lem :
      (limit page : ℕ)
      → 1 ≤ limit
      → limit ≤ 50
      → page_rows limit (suc page) ≡ take limit (drop (page * limit) rows)
  unfolding page_rows paginate
  page_rows_lem limit page low high =
      let size : min (max limit 1) 50 ≡ limit = (omega (arith, low, high)) in
      let before : max (suc page) 1 - 1 ≡ page = (omega arith) in
      ap (λ r. r.0) (answers ((max (suc page) 1 - 1) * min (max limit 1) 50) (min (max limit 1) 50))
      ∙ ap (λ n. take n (drop ((max (suc page) 1 - 1) * n) rows)) size
      ∙ ap (λ n. take limit (drop (n * limit) rows)) before

  first_pages-take :
      (limit page : ℕ) → 1 ≤ limit → limit ≤ 50 → first_pages limit page ≡ take (page * limit) rows
  unfolding first_pages
  first_pages-take limit zero low high =
      let none_yet : 0 ≡ zero * limit = (omega arith) in ap (λ n. take n rows) none_yet
  first_pages-take limit (suc page) low high =
      let rest : page * limit + limit ≡ suc page * limit = (sym (suc-mul page limit)) in
      ap (λ r. r ++ page_rows limit (suc page)) (first_pages-take limit page low high)
      ∙ ap (λ r. take (page * limit) rows ++ r) (page_rows_lem limit page low high)
      ∙ take_add (page * limit) limit rows
      ∙ ap (λ n. take n rows) rest

  -- The pages from the first to `totalPages`, one behind the other, are the rows of the query, for
  -- every limit between 1 and 50.
  pub first_pages_lem :
      (limit : ℕ)
      → 1 ≤ limit
      → limit ≤ 50
      → first_pages limit (build_pagination_meta (length rows) 1 limit).total_pages ≡ rows
  unfolding build_pagination_meta
  first_pages_lem limit low high =
      let last = ceil_div (length rows) limit in
      let enough : length rows ≤ last * limit =
        (omega (arith, low, lt-div-mul-add {a = length rows + (limit - 1)} {b = limit} low)) in
      first_pages-take limit last low high ∙ take_all (last * limit) rows enough
