-- ===== src/Pagination/Slices.antt =====
-- The pages of a list, one after the other, are the list.
use september.Base.{
  ℕ, zero, suc, ◌+◌, ◌-◌, ◌*◌, ◌%◌, ◌≤◌, ◌<◌, min, ◌≡◌, refl, ap, sym, ◌∙◌, Option, some, List, [],
  ◌∷◌, ◌++◌, arith, word, length, take, drop, length-drop, ◌>>=◌,
}
use native.Mathlib.Nat.{zero-add, suc-add}
use september.Pagination.{slice, cut, page_items, page_count}
use september.Pagination.Bounds.{page_count_tight}

module _ {A : Type 0} where
  -- The pages `1` to `n`, one after the other.
  unfoldable pub pages : List A → ℕ → ℕ → Option (List A)
  pages all zero per_page = some []
  pages all (suc n) per_page = do
    before ← pages all n per_page
    page ← page_items all (suc n) per_page
    some (before ++ page)

  drop_all : (n : ℕ) (xs : List A) → length xs ≤ n → drop n xs ≡ []
  drop_all zero [] h = refl
  drop_all zero (x ∷ xs) h = absurd (omega arith)
  drop_all (suc n) [] h = refl
  drop_all (suc n) (x ∷ xs) h = drop_all n xs (omega arith)

  take_all : (n : ℕ) (xs : List A) → length xs ≤ n → take n xs ≡ xs
  take_all zero [] h = refl
  take_all zero (x ∷ xs) h = absurd (omega arith)
  take_all (suc n) [] h = refl
  take_all (suc n) (x ∷ xs) h = ap (◌∷◌ x) (take_all n xs (omega arith))

  take-nil : (n : ℕ) → take {A = A} n [] ≡ []
  take-nil zero = refl
  take-nil (suc n) = refl

  take-min : (n : ℕ) (xs : List A) → take (min n (length xs)) xs ≡ take n xs
  take-min n xs = ground (arith, take_all n xs, take_all (length xs) xs)

  take-add : (m n : ℕ) (xs : List A) → take (m + n) xs ≡ take m xs ++ take n (drop m xs)
  take-add zero n xs = rw zero-add
  take-add (suc m) n [] = rw (take-nil, take-nil)
  take-add (suc m) n (x ∷ xs) = rw suc-add (ap (◌∷◌ x) (take-add m n xs))

  cut_lem :
      (all : List A) (start per_page : ℕ)
      → cut all start (start + per_page) ≡ some (take per_page (drop start all))
  unfolding cut slice
  cut_lem all start per_page = ground (
    arith,
    drop_all start all,
    take-nil per_page,
    length-drop start all,
    take-min per_page (drop start all),
  )

  -- A page inside the machine's range is `per_page` items from its offset on.
  page_items_lem :
      (all : List A) (n per_page : ℕ)
      → suc n * per_page < word
      → suc n < word
      → page_items all (suc n) per_page ≡ some (take per_page (drop (n * per_page) all))
  unfolding page_items
  page_items_lem all n per_page small page_fits =
      rw (index, offset, stop) (cut_lem all (n * per_page) per_page)
    where
      index : (suc n + word - 1) % word ≡ n
      index = omega arith

      offset : (n * per_page) % word ≡ n * per_page
      offset = grind arith

      stop : (n * per_page + per_page) % word ≡ n * per_page + per_page
      stop = grind arith

  pages_lem :
      (all : List A) (n per_page : ℕ)
      → n * per_page < word
      → n < word
      → pages all n per_page ≡ some (take (n * per_page) all)
  unfolding pages
  pages_lem all zero per_page small fits =
      let none_yet : zero ≡ zero * per_page = omega arith in ap (λ n. some (take n all)) none_yet
  pages_lem all (suc n) per_page small fits =
      rw
        (
          pages_lem all n per_page (omega arith) (omega arith),
          page_items_lem all n per_page small fits,
        )
        (ap some (sym (take-add (n * per_page) per_page all) ∙ ap (λ k. take k all) sum))
    where
      sum : n * per_page + per_page ≡ suc n * per_page
      sum = omega arith

-- Every item of a list stands on exactly one page, in order: the pages `1` to `total_pages`, as the
-- code cuts them, joined together are the list. The page offsets must fit the machine's word.
pub pages_partition :
    {A : Type 0} (all : List A) (per_page n : ℕ)
    → 0 < length all
    → page_count (length all) per_page ≡ some n
    → n * per_page < word
    → n < word
    → pages all n per_page ≡ some all
pages_partition all per_page n h e small fits =
    pages_lem all n per_page small fits
    ∙ ap some (take_all (n * per_page) all (page_count_tight (length all) per_page n h e).0)
