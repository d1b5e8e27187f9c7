-- ===== src/Federated/Page.antt =====
-- get_thread_paginated of src/nntp/federated.rs and flatten_paginated of src/nntp/mod.rs: the
-- comments of a thread with the bodies of one page. `none` is a panic. The fetches of missing
-- bodies run one after the other here; the source runs them at once and then reads their results in
-- order.
pub mod Bodies
pub mod Fetched
pub mod Covers
pub mod Filled
pub mod Shown
use september.Base.{
  ℕ, suc, ◌+◌, min, ◌≡◌, ◌⊎◌, inl, inr, refl, sym, ◌∙◌, ap, Bool, true, false, ◌&&◌, Option, none,
  some, List, [], ◌∷◌, ◌++◌, map, String, str_eq, Map, lookup, insert, lookup-insert, eq_iff, arith,
  length, ltb, leb, mul64, sub64, add64, if◌then◌else◌, ◌>>=◌, subst, Bool-cases, Option-cases,
}
use september.Federated.{NntpError, AppError, Result, ok, err, Cache}
use september.Federated.Articles.{State, get_article}
use september.Federated.Lookup.{FirstAnswer, get_article-ok, get_article_cache_sound}
use september.Federated.Groups.{Directory}
use september.Federated.Threads
use september.Federated.Threads.{CachedThreads, CachedThread, get_thread}
use september.Pagination.{PaginationInfo, new, page_items}
use september.Thread.{ArticleView, ThreadNodeView, ThreadView, FlatComment, flatten}
use september.Thread.Ids.{is_member}

unfoldable pub flatten_paginated :
    ThreadNodeView → ℕ → ℕ → ℕ → Option (List FlatComment × PaginationInfo × List String)
flatten_paginated self page per_page collapse_threshold = do
  all_flat ← flatten self collapse_threshold
  pagination ← new page (length all_flat) per_page
  shown ← page_items all_flat page per_page
  some (all_flat, pagination, map (λ c. c.message_id) shown)

-- The three fields that a fetched article brings.
abbrev set_body : ArticleView → ArticleView → ArticleView
set_body fetched article = record article {
  body = fetched.body;
  body_preview = fetched.body_preview;
  has_more_content = fetched.has_more_content;
}

abbrev fill_article : ArticleView → Option ArticleView → Option ArticleView
fill_article fetched none = none
fill_article fetched (some article) = some (set_body fetched article)

abbrev pub fill_comment : Option ArticleView → FlatComment → FlatComment
fill_comment none comment = comment
fill_comment (some fetched) comment = record comment {
  article = fill_article fetched comment.article;
}

-- for (i, comment) in comments.iter_mut().enumerate(), from i on.
unfoldable pub fill_comments :
    Map ArticleView → List String → ℕ → ℕ → ℕ → List FlatComment → List FlatComment
fill_comments bodies page_ids start end i [] = []
fill_comments bodies page_ids start end i (c ∷ comments) =
    (if leb start i && ltb i end && is_member c.message_id page_ids
      then fill_comment (lookup c.message_id bodies) c
      else c)
    ∷ fill_comments bodies page_ids start end (suc i) comments

module _ (articles : Cache ArticleView) (not_found : Cache (Unit {0})) where
  -- The bodies that the article cache has, and the identifiers of the others.
  unfoldable pub cached_bodies :
      articles.Store → List String → Map ArticleView → List String → Map ArticleView × List String
  cached_bodies cache [] bodies needed_ids = (bodies, needed_ids)
  cached_bodies cache (id ∷ ids) bodies needed_ids = elim (articles.get cache id) [
    | some article ↦ cached_bodies cache ids (insert id article bodies) needed_ids
    | none ↦ cached_bodies cache ids bodies (needed_ids ++ id ∷ [])
  ]

  pub keep_body : String → Result ArticleView AppError → Map ArticleView → Map ArticleView
  keep_body id (ok article) bodies = insert id article bodies
  keep_body id (err e) bodies = bodies

  -- `answers` are the servers' answers for each identifier.
  unfoldable pub fetch_bodies :
      (String → List (Result ArticleView NntpError))
      → State articles not_found
      → List String
      → Map ArticleView
      → State articles not_found × Map ArticleView
  unfolding keep_body
  fetch_bodies answers self [] bodies = (self, bodies)
  fetch_bodies answers self (id ∷ ids) bodies =
      let (after, result) = get_article articles not_found self id (answers id) in
      fetch_bodies answers after ids (keep_body id result bodies)

  -- What follows get_thread.
  unfoldable pub page_of_thread :
      (String → List (Result ArticleView NntpError))
      → State articles not_found
      → ThreadView
      → ℕ
      → ℕ
      → ℕ
      → Option (State articles not_found × List FlatComment × PaginationInfo)
  page_of_thread answers self thread page per_page collapse_threshold = do
    (comments, pagination, page_ids) ←
        flatten_paginated thread.root page per_page collapse_threshold
    let (cached, needed_ids) = cached_bodies self.article_cache page_ids [] []
    let (after, bodies) = fetch_bodies answers self needed_ids cached
    let start = mul64 (sub64 page 1) per_page
    let end = min (add64 start per_page) (length comments)
    some (after, fill_comments bodies page_ids start end 0 comments, pagination)

  module _ (compute_timeago : String → String) (lists : Cache CachedThreads)
      (single : Cache CachedThread) where
    abbrev pub Answer : Type 0
    Answer =
        (Threads.State compute_timeago lists single × State articles not_found)
        × Result (ThreadView × List FlatComment × PaginationInfo) AppError

    pub after_thread :
        (String → List (Result ArticleView NntpError))
        → State articles not_found
        → ℕ
        → ℕ
        → ℕ
        → Threads.State compute_timeago lists single × Result ThreadView AppError
        → Option Answer
    after_thread answers self page per_page collapse_threshold (threads, err e) =
        some ((threads, self), err e)
    after_thread answers self page per_page collapse_threshold (threads, ok thread) =
        page_of_thread answers self thread page per_page collapse_threshold
        >>= λ (after, comments, pagination).
            some ((threads, after), ok (thread, comments, pagination))

    -- `thread_answers`, `directory` and `last` are those of get_thread.
    unfoldable pub get_thread_paginated :
        (String → List (Result ArticleView NntpError))
        → List (Result (List ThreadView) NntpError)
        → Directory
        → Option ℕ
        → Threads.State compute_timeago lists single
        → State articles not_found
        → String
        → String
        → ℕ
        → ℕ
        → ℕ
        → Option Answer
    unfolding after_thread
    get_thread_paginated answers thread_answers directory last threads self group message_id page
          per_page collapse_threshold =
        get_thread compute_timeago lists single thread_answers directory last threads group
          message_id
        >>= after_thread answers self page per_page collapse_threshold
