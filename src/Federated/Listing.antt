-- ===== src/Federated/Listing.antt =====
-- get_threads_paginated of src/nntp/federated.rs: a page of the threads of a group, newest first.
-- A date that chrono parses is the number of its instant. The source sorts the threads' positions
-- by the dates, parsed once, and picks the threads by them; here the threads themselves are sorted.
use september.Base.{
  ℕ, ◌≡◌, inl, inr, refl, ◌∙◌, ap, Bool, true, false, Option, none, some, List, [], ◌∷◌, String,
  arith, ltb, ◌==◌, ◌≤◌, if◌then◌else◌, ◌>>=◌, Bool-cases, length,
}
use september.Federated.{NntpError, AppError, Result, ok, err, Cache}
use september.Federated.Groups.{Directory}
use september.Federated.Threads.{CachedThreads, CachedThread, State, get_threads}
use september.Pagination.{PaginationInfo, new, page_items}
use september.Thread.{ThreadView}

-- std::cmp::Ordering
pub data Ordering : Type 0 where
  less : Ordering
  equal : Ordering
  greater : Ordering

abbrev pub compare_instants : ℕ → ℕ → Ordering
compare_instants a b = if ltb a b then less else if a == b then equal else greater

-- The comparison of the threads a and b by their dates.
unfoldable pub compare_dates : Option ℕ → Option ℕ → Ordering
compare_dates (some a) (some b) = compare_instants b a
compare_dates none (some b) = less
compare_dates (some a) none = greater
compare_dates none none = equal

abbrev is_greater : Ordering → Bool
is_greater less = false
is_greater equal = false
is_greater greater = true

-- What the order promises: no thread after a dated one is undated or newer.
abbrev pub NotNewer : Option ℕ → Option ℕ → Type 0
NotNewer none later = Unit
NotNewer (some a) none = ⊥
NotNewer (some a) (some b) = b ≤ a

unfoldable pub same_date : Option ℕ → Option ℕ → Bool
same_date none none = true
same_date (some a) (some b) = a == b
same_date none (some b) = false
same_date (some a) none = false

NotNewer-trans : (a b c : Option ℕ) → NotNewer a b → NotNewer b c → NotNewer a c
NotNewer-trans none b c h k = tt
NotNewer-trans (some a) none c h k = absurd h
NotNewer-trans (some a) (some b) none h k = absurd k
NotNewer-trans (some a) (some b) (some c) h k = omega (arith, h, k)

in_order : (a b : Option ℕ) → is_greater (compare_dates a b) ≡ false → NotNewer a b
unfolding compare_dates
in_order none b h = tt
in_order (some a) none h = absurd (ground arith)
in_order (some a) (some b) h = ground arith

out_of_order : (a b : Option ℕ) → is_greater (compare_dates a b) ≡ true → NotNewer b a
unfolding compare_dates
out_of_order none none h = tt
out_of_order none (some b) h = absurd (ground arith)
out_of_order (some a) none h = tt
out_of_order (some a) (some b) h = ground arith

-- Two threads of one date stay as they are.
same_date-in_order :
    (a b k : Option ℕ)
    → same_date a k ≡ true
    → same_date b k ≡ true
    → is_greater (compare_dates a b) ≡ false
unfolding compare_dates same_date
same_date-in_order none none k h g = refl
same_date-in_order none (some b) none h g = absurd (ground arith)
same_date-in_order none (some b) (some k) h g = absurd (ground arith)
same_date-in_order (some a) b none h g = absurd (ground arith)
same_date-in_order (some a) none (some k) h g = absurd (ground arith)
same_date-in_order (some a) (some b) (some k) h g = ground arith

module _ (parse_from_rfc2822 : String → Option ℕ) where
  -- The date by which a thread is sorted.
  unfoldable pub parsed : ThreadView → Option ℕ
  parsed thread = thread.last_post_date >>= parse_from_rfc2822

  unfoldable pub insert_thread : ThreadView → List ThreadView → List ThreadView
  insert_thread t [] = t ∷ []
  insert_thread t (u ∷ us) =
      let rest = insert_thread t us in
      if is_greater (compare_dates (parsed t) (parsed u)) then u ∷ rest else t ∷ u ∷ us

  -- A stable sort.
  unfoldable pub sort_threads : List ThreadView → List ThreadView
  sort_threads [] = []
  sort_threads (t ∷ ts) = insert_thread t (sort_threads ts)

  abbrev pub AllAfter : Option ℕ → List ThreadView → Type 0
  AllAfter date [] = Unit
  AllAfter date (t ∷ ts) = NotNewer date (parsed t) × AllAfter date ts

  abbrev pub IsNewestFirst : List ThreadView → Type 0
  IsNewestFirst [] = Unit
  IsNewestFirst (t ∷ ts) = AllAfter (parsed t) ts × IsNewestFirst ts

  -- The threads of one date, in their order.
  unfoldable pub dated : Option ℕ → List ThreadView → List ThreadView
  dated date [] = []
  dated date (t ∷ ts) =
      let rest = dated date ts in if same_date (parsed t) date then t ∷ rest else rest

  AllAfter-earlier :
      (d e : Option ℕ) (ts : List ThreadView) → NotNewer d e → AllAfter e ts → AllAfter d ts
  AllAfter-earlier d e [] h all = tt
  AllAfter-earlier d e (t ∷ ts) h all =
      (NotNewer-trans d e (parsed t) h all.0, AllAfter-earlier d e ts h all.1)

  AllAfter-insert_thread :
      (d : Option ℕ) (t : ThreadView) (ts : List ThreadView)
      → NotNewer d (parsed t)
      → AllAfter d ts
      → AllAfter d (insert_thread t ts)
  unfolding insert_thread
  AllAfter-insert_thread d t [] h all = (h, tt)
  AllAfter-insert_thread d t (u ∷ us) h all =
      elim (Bool-cases (is_greater (compare_dates (parsed t) (parsed u)))) [
        | inl later ↦ rw later (all.0, AllAfter-insert_thread d t us h all.1)
        | inr first ↦ rw first (h, all)
      ]

  insert_thread-IsNewestFirst :
      (t : ThreadView) (ts : List ThreadView)
      → IsNewestFirst ts
      → IsNewestFirst (insert_thread t ts)
  unfolding insert_thread
  insert_thread-IsNewestFirst t [] ordered = (tt, tt)
  insert_thread-IsNewestFirst t (u ∷ us) ordered =
      elim (Bool-cases (is_greater (compare_dates (parsed t) (parsed u)))) [
        | inl later ↦ rw later (
          AllAfter-insert_thread (parsed u) t us (out_of_order (parsed t) (parsed u) later)
              ordered.0,
          insert_thread-IsNewestFirst t us ordered.1,
        )
        | inr first ↦
            let before : NotNewer (parsed t) (parsed u) = in_order (parsed t) (parsed u) first in
            rw first ((before, AllAfter-earlier (parsed t) (parsed u) us before ordered.0), ordered)
      ]

  dated-insert_thread :
      (k : Option ℕ) (t : ThreadView) (ts : List ThreadView)
      → dated k (insert_thread t ts) ≡ dated k (t ∷ ts)
  unfolding insert_thread dated
  dated-insert_thread k t [] = refl
  dated-insert_thread k t (u ∷ us) =
      elim (Bool-cases (is_greater (compare_dates (parsed t) (parsed u)))) [
        | inr first ↦ rw first refl
        | inl later ↦
            rw (later, dated-insert_thread k t us)
              (ground (arith, later, same_date-in_order (parsed t) (parsed u) k))
      ]

  dated-sort_threads :
      (k : Option ℕ) (ts : List ThreadView) → dated k (sort_threads ts) ≡ dated k ts
  unfolding sort_threads dated
  dated-sort_threads k [] = refl
  dated-sort_threads k (t ∷ ts) =
      dated-insert_thread k t (sort_threads ts)
      ∙ ap (λ rest. if same_date (parsed t) k then t ∷ rest else rest) (dated-sort_threads k ts)

  sorted-IsNewestFirst : (ts : List ThreadView) → IsNewestFirst (sort_threads ts)
  unfolding sort_threads
  sorted-IsNewestFirst [] = tt
  sorted-IsNewestFirst (t ∷ ts) =
      insert_thread-IsNewestFirst t (sort_threads ts) (sorted-IsNewestFirst ts)

  -- The order of the threads that the pages are cut from: no thread after a dated one is undated or
  -- newer, and for every date, and for the undated, the threads of it are all there, in the order
  -- in which get_threads lists them.
  pub sort_threads-IsNewestFirst :
      (threads : List ThreadView)
      → IsNewestFirst (sort_threads threads)
        × ((date : Option ℕ) → dated date (sort_threads threads) ≡ dated date threads)
  sort_threads-IsNewestFirst threads =
      (sorted-IsNewestFirst threads, λ date. dated-sort_threads date threads)

  -- The page and its pagination, `none` for a panic.
  unfoldable pub page_of : List ThreadView → ℕ → ℕ → Option (List ThreadView × PaginationInfo)
  page_of threads page per_page = do
    pagination ← new page (length threads) per_page
    page_threads ← page_items threads page per_page
    some (page_threads, pagination)

  module _ (compute_timeago : String → String) (lists : Cache CachedThreads)
      (single : Cache CachedThread) where
    abbrev Answer : Type 0
    Answer = State compute_timeago lists single × Result (List ThreadView × PaginationInfo) AppError

    sort_and_cut :
        ℕ
        → ℕ
        → State compute_timeago lists single × Result (List ThreadView) AppError
        → Option Answer
    sort_and_cut page per_page (self, err e) = some (self, err e)
    sort_and_cut page per_page (self, ok all_threads) =
        page_of (sort_threads all_threads) page per_page >>= λ r. some (self, ok r)

    unfoldable pub get_threads_paginated :
        List (Result (List ThreadView) NntpError)
        → Directory
        → Option ℕ
        → State compute_timeago lists single
        → String
        → ℕ
        → ℕ
        → Option Answer
    unfolding sort_and_cut
    get_threads_paginated answers directory last self group page per_page =
        get_threads compute_timeago lists single answers directory last self group
        >>= sort_and_cut page per_page
