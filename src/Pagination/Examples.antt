-- ===== src/Pagination/Examples.antt =====
-- Tests of the pagination and instances of its theorems.
use september.Base.{ℕ, ◌≡◌, refl, true, some, List, [], ◌∷◌, arith}
use september.Pagination.{PaginationInfo, compute_visible_pages, page_count, page_items, cut, new}
use september.Pagination.Slices.{pages, pages_partition}

abbrev third_of_ten : PaginationInfo
third_of_ten = record {
  current_page = 3;
  total_pages = 10;
  total_items = 95;
  items_per_page = 10;
  has_prev = true;
  has_next = true;
  visible_pages = 1 ∷ 2 ∷ 3 ∷ 4 ∷ 5 ∷ [];
}

new_third : new 3 95 10 ≡ some third_of_ten
unfolding new compute_visible_pages
new_third = refl

-- A page number near the end of the machine's range wraps around and shows no page.
visible_pages_wrap : compute_visible_pages 18446744073709551615 10 ≡ []
unfolding compute_visible_pages
visible_pages_wrap = refl

abbrev five : List ℕ
five = 1 ∷ 2 ∷ 3 ∷ 4 ∷ 5 ∷ []

last_page : page_items five 3 2 ≡ some (5 ∷ [])
unfolding page_items cut
last_page = refl

pages_partition_example : pages five 3 2 ≡ some five
unfolding page_count
pages_partition_example = pages_partition five 2 3 (omega arith) refl (omega arith) (omega arith)
