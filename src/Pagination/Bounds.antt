-- ===== src/Pagination/Bounds.antt =====
-- The page numbers that a view shows, and the number of pages.
use september.Base.{
  ℕ, zero, suc, ◌+◌, ◌-◌, ◌%◌, ◌/◌, subst, inl, inr, Bool-cases, min, max, ◌↔◌, none, ◌*◌, ◌≤◌, ◌<◌,
  ◌≡◌, Bool, false, ◌&&◌, ◌||◌, some, List, [], ◌∷◌, arith, leb, ltb, ◌==◌, word,
}
use september.Pagination.{
  PaginationInfo, range_from, range_inclusive, compute_visible_pages, page_count, div_ceil, new,
}

-- `elem p xs`: the number `p` occurs in the list.
unfoldable pub elem : ℕ → List ℕ → Bool
elem p [] = false
elem p (x ∷ xs) = x == p || elem p xs

elem-range_from :
    (p start count : ℕ) → elem p (range_from start count) ≡ (leb start p && ltb p (start + count))
unfolding elem range_from
elem-range_from p start zero = ground arith
elem-range_from p start (suc count) = ground (arith, elem-range_from p (start + 1) count)

-- A page number is visible exactly when it lies between 1 and the number of pages and at most
-- two away from the current page, provided that the current page plus two does not overflow.
pub visible_pages_exact :
    (current total p : ℕ)
    → current + 2 < word
    → elem p (compute_visible_pages current total)
      ≡ (leb 1 p && leb p total && leb p (current + 2) && leb current (p + 2))
unfolding compute_visible_pages range_inclusive
visible_pages_exact current total p h = ground (
  arith,
  elem-range_from p (max (current - 2) 1)
      (min ((current + 2) % word) total + 1 - max (current - 2) 1),
)

ceil_exact :
    (q b total : ℕ)
    → 0 < total
    → total ≡ q * suc b
    → (total ≤ q * suc b) × ((q - 1) * suc b < total)
ceil_exact zero b total h e = absurd (omega arith)
ceil_exact (suc q) b total h e =
    let less : suc q - 1 ≡ q = omega arith in (omega arith, rw less (omega arith))

ceil_above :
    (q b r total : ℕ)
    → total ≡ q * suc b + r
    → 0 < r
    → r < suc b
    → (total ≤ (q + 1) * suc b) × ((q + 1 - 1) * suc b < total)
ceil_above q b r total e pos small =
    let less : q + 1 - 1 ≡ q = omega arith in (omega arith, rw less (omega arith))

-- The pages of a view hold all items and no page is superfluous: with `n` the number of pages,
-- `n * per_page` is at least the number of items, and `n - 1` pages do not suffice.
pub page_count_tight :
    (total per_page n : ℕ)
    → 0 < total
    → page_count total per_page ≡ some n
    → (total ≤ n * per_page) × ((n - 1) * per_page < total)
unfolding page_count div_ceil
page_count_tight total zero n h e = ground arith
page_count_tight total (suc b) n h e = elim (Bool-cases (total % suc b == 0)) [
  | inl exact ↦
      let quotient : total / suc b ≡ n = ground arith in
      subst (λ q. (total ≤ q * suc b) × ((q - 1) * suc b < total)) quotient
        (ceil_exact (total / suc b) b total h (ground arith))
  | inr more ↦
      let quotient : total / suc b + 1 ≡ n = ground arith in
      subst (λ q. (total ≤ q * suc b) × ((q - 1) * suc b < total)) quotient
        (ceil_above (total / suc b) b (total % suc b) total (omega arith) (ground arith)
          (omega arith))
]

-- Constructing the pagination fails exactly for a page size of zero on a non-empty list.
pub new-none_iff :
    (page total per_page : ℕ) → (new page total per_page ≡ none) ↔ ((per_page ≡ 0) × (0 < total))
unfolding new page_count div_ceil
new-none_iff page total zero = (λ e. ground arith, λ e. ground arith)
new-none_iff page total (suc b) = (λ e. ground arith, λ e. ground arith)

-- The links of a view: "previous" is offered on every page but the first, "next" exactly when a
-- later page exists.
pub new_links :
    (page total per_page : ℕ) (info : PaginationInfo)
    → 1 ≤ page
    → new page total per_page ≡ some info
    → ((info.has_prev ≡ false) ↔ (page ≡ 1))
      × ((info.has_next ≡ false) ↔ (info.total_pages ≤ page))
      × (info.total_items ≡ total)
unfolding new page_count div_ceil
new_links page total zero info h e = ground arith
new_links page total (suc b) info h e = ground arith
