-- ===== src/Pagination.antt =====
-- Pagination of list views: `PaginationInfo` of src/nntp/mod.rs, and the page slice that
-- `get_threads_paginated` of src/nntp/federated.rs and `flatten_paginated` cut out of a list.
-- `none` stands for a panic: a division by zero, or a slice whose end lies below its start.
pub mod Bounds
pub mod Slices
mod Examples
use september.Base.{
  ℕ, zero, suc, ◌+◌, ◌-◌, ◌/◌, ◌%◌, min, max, Bool, Option, none, some, List, [], ◌∷◌, ltb, leb,
  ◌==◌, if◌then◌else◌, add64, sub64, mul64, length, take, drop, ◌>>=◌,
}

-- PAGINATION_WINDOW
abbrev pub pagination_window : ℕ
pagination_window = 2

pub record PaginationInfo : Type 0 where
  pub current_page : ℕ
  pub total_pages : ℕ
  pub total_items : ℕ
  pub items_per_page : ℕ
  pub has_prev : Bool
  pub has_next : Bool
  pub visible_pages : List ℕ

-- `count` numbers upwards from `start`.
range_from : ℕ → ℕ → List ℕ
range_from start zero = []
range_from start (suc count) = start ∷ range_from (start + 1) count

-- (start..=end).collect()
range_inclusive : ℕ → ℕ → List ℕ
unfolding range_from
range_inclusive start end = range_from start (end + 1 - start)

unfoldable pub compute_visible_pages : ℕ → ℕ → List ℕ
unfolding range_inclusive
compute_visible_pages current total =
    let start = max (current - pagination_window) 1 in
    let end = min (add64 current pagination_window) total in range_inclusive start end

-- usize::div_ceil
div_ceil : ℕ → ℕ → Option ℕ
div_ceil a zero = none
div_ceil a (suc b) = some (if a % suc b == 0 then a / suc b else a / suc b + 1)

unfoldable pub page_count : ℕ → ℕ → Option ℕ
unfolding div_ceil
page_count total_items items_per_page =
    if total_items == 0 then some 1 else div_ceil total_items items_per_page

unfoldable pub new : ℕ → ℕ → ℕ → Option PaginationInfo
unfolding page_count
new current_page total_items items_per_page = do
  total_pages ← page_count total_items items_per_page
  some (record {
    current_page = current_page;
    total_pages = total_pages;
    total_items = total_items;
    items_per_page = items_per_page;
    has_prev = ltb 1 current_page;
    has_next = ltb current_page total_pages;
    visible_pages = compute_visible_pages current_page total_pages;
  })

module _ {ℓ} {A : Type ℓ} where
  -- xs[start..end], for an end within the list
  slice : List A → ℕ → ℕ → Option (List A)
  slice xs start end = if leb start end then some (take (end - start) (drop start xs)) else none

  -- The part of the list from `start` up to `stop`, nothing where `start` lies behind the list.
  unfoldable pub cut : List A → ℕ → ℕ → Option (List A)
  unfolding slice
  cut all start stop =
      let total = length all in
      let end = min stop total in if ltb start total then slice all start end else some []

  unfoldable pub page_items : List A → ℕ → ℕ → Option (List A)
  page_items all page per_page =
      let start = mul64 (sub64 page 1) per_page in cut all start (add64 start per_page)
