-- ===== src/Worker/Order.antt =====
-- The order in which GetThreads of src/nntp/worker.rs answers, by the dates of the last posts.
-- A date that chrono parses is the number of its instant.
use september.Base.{ℕ, ◌<◌, ◌≡◌, refl, Option, none, some, String, arith}
use september.Federated.Listing.{Ordering, less, equal, greater, compare_instants, compare_dates}

abbrev compare_parsed : Option ℕ → Option ℕ → Ordering
compare_parsed (some b) (some a) = compare_instants b a
compare_parsed (some b) none = equal
compare_parsed none (some a) = equal
compare_parsed none none = equal

module _ (parse_from_rfc2822 : String → Option ℕ) where
  -- The comparison of the threads a and b by their last_post_date.
  unfoldable pub compare_last_posts : Option String → Option String → Ordering
  compare_last_posts (some a) (some b) =
      compare_parsed (parse_from_rfc2822 b) (parse_from_rfc2822 a)
  compare_last_posts none (some b) = less
  compare_last_posts (some a) none = greater
  compare_last_posts none none = equal

  -- Where both dates can be read, it is the comparison of get_threads_paginated.
  compare_last_posts-parsed :
      (a b : String) (n m : ℕ)
      → parse_from_rfc2822 a ≡ some n
      → parse_from_rfc2822 b ≡ some m
      → compare_last_posts (some a) (some b) ≡ compare_dates (some n) (some m)
  unfolding compare_last_posts compare_dates
  compare_last_posts-parsed a b n m read_a read_b = rw (read_a, read_b) refl

  -- A date u that cannot be read is as new as each of two dates of which one is newer: the
  -- comparison is no order.
  compare_last_posts_unreadable :
      (newer u older : String) (n m : ℕ)
      → parse_from_rfc2822 newer ≡ some n
      → parse_from_rfc2822 older ≡ some m
      → parse_from_rfc2822 u ≡ none
      → m < n
      → (compare_last_posts (some newer) (some u) ≡ equal)
        × (compare_last_posts (some u) (some older) ≡ equal)
        × (compare_last_posts (some newer) (some older) ≡ less)
  unfolding compare_last_posts
  compare_last_posts_unreadable newer u older n m read_n read_m unread differ =
      rw (read_n, read_m, unread) (refl, refl, ground arith)
