-- ===== src/Federated/Page/Shown.antt =====
-- The comments that get_thread_paginated of src/nntp/federated.rs answers with.
use september.Base.{ℕ, ◌≡◌, sym, ◌∙◌, ap, Option, some, List, String, length, subst}
use september.Federated.{NntpError, AppError, Result, ok, err, Cache}
use september.Federated.Articles.{State}
use september.Federated.Page.{flatten_paginated, page_of_thread, after_thread, get_thread_paginated}
use september.Federated.Page.Covers.{ids_of}
use september.Federated.Groups.{Directory}
use september.Federated.Threads
use september.Federated.Threads.{CachedThreads, CachedThread, get_thread}
use september.Overview.Counts.{bind_inverse}
use september.Pagination.{PaginationInfo, new, page_items}
use september.Thread.{ArticleView, ThreadNodeView, ThreadView, FlatComment, flatten}
use september.Federated.Page.Filled.{ShowsPage, filled_page, filled_page-ShowsPage}

-- The parts of what flatten_paginated answers.
flatten_paginated_lem :
    (self : ThreadNodeView) (page per_page collapse_threshold : ℕ) (flat : List FlatComment)
    (pagination : PaginationInfo) (ids : List String)
    → flatten_paginated self page per_page collapse_threshold ≡ some (flat, pagination, ids)
    → (flatten self collapse_threshold ≡ some flat)
      × (new page (length flat) per_page ≡ some pagination)
      × (shown : List FlatComment) × (page_items flat page per_page ≡ some shown)
      × (ids_of shown ≡ ids)
unfolding flatten_paginated
flatten_paginated_lem self page per_page threshold flat pagination ids run =
    let (all_flat, flattened, run2) =
      bind_inverse (flatten self threshold) _ (flat, pagination, ids) run in
    let (info, made, run3) =
      bind_inverse (new page (length all_flat) per_page) _ (flat, pagination, ids) run2 in
    let (shown, sliced, final) =
      bind_inverse (page_items all_flat page per_page) _ (flat, pagination, ids) run3 in
    let same : all_flat ≡ flat = cc final in
    let same_info : info ≡ pagination = cc final in
    (
      flattened ∙ ap some same,
      ap (λ l. new page (length l) per_page) (sym same) ∙ made ∙ ap some same_info,
      shown,
      ap (λ l. page_items l page per_page) (sym same) ∙ sliced,
      cc final,
    )

module _ (articles : Cache ArticleView) (not_found : Cache (Unit {0})) where
  page_of_thread-ShowsPage :
      (answers : String → List (Result ArticleView NntpError))
      (self after : State articles not_found) (thread : ThreadView)
      (page per_page collapse_threshold : ℕ) (comments : List FlatComment)
      (pagination : PaginationInfo)
      → page_of_thread articles not_found answers self thread page per_page collapse_threshold
        ≡ some (after, comments, pagination)
      → (flat : List FlatComment) × (flatten thread.root collapse_threshold ≡ some flat)
        × (new page (length flat) per_page ≡ some pagination)
        × ShowsPage articles not_found answers self page per_page flat comments
  unfolding page_of_thread flatten_paginated
  page_of_thread-ShowsPage answers self after thread page per_page threshold comments pagination
        run =
      let ((flat, info, ids), split, last) =
        bind_inverse (flatten_paginated thread.root page per_page threshold) _
          (after, comments, pagination) run in
      let (flattened, made, shown, sliced, listed) =
        flatten_paginated_lem thread.root page per_page threshold flat info ids split in
      let filled : filled_page articles not_found answers self ids page per_page flat ≡ comments =
        cc last in
      (
        flat,
        flattened,
        made ∙ ap some (cc last),
        subst (ShowsPage articles not_found answers self page per_page flat) filled (
            subst
              (λ l.
                ShowsPage articles not_found answers self page per_page flat
                  (filled_page articles not_found answers self l page per_page flat))
              listed
              (filled_page-ShowsPage articles not_found answers self page per_page flat shown
                sliced)),
      )

  after_thread-ok :
      (compute_timeago : String → String) (lists : Cache CachedThreads)
      (single : Cache CachedThread) (answers : String → List (Result ArticleView NntpError))
      (threads threads_after : Threads.State compute_timeago lists single)
      (self after : State articles not_found) (page per_page collapse_threshold : ℕ)
      (result : Result ThreadView AppError) (thread : ThreadView) (comments : List FlatComment)
      (pagination : PaginationInfo)
      → after_thread articles not_found compute_timeago lists single answers self page per_page
          collapse_threshold
          (threads, result)
        ≡ some ((threads_after, after), ok (thread, comments, pagination))
      → (◌≡◌ {A = Threads.State compute_timeago lists single × Result ThreadView AppError}
          (threads, result)
          (threads_after, ok thread))
        × (page_of_thread articles not_found answers self thread page per_page collapse_threshold
            ≡ some (after, comments, pagination))
  unfolding after_thread
  after_thread-ok timeago lists single answers threads threads_after self after page per_page
        threshold (err e) thread comments pagination h =
      absurd (cc)
  after_thread-ok timeago lists single answers threads threads_after self after page per_page
        threshold (ok t) thread comments pagination h =
      let ((a, cs, info), paged, final) =
        bind_inverse (page_of_thread articles not_found answers self t page per_page threshold) _
          ((threads_after, after), ok (thread, comments, pagination)) h in
      let same : t ≡ thread = cc final in
      let page_same : ◌≡◌ {A = State articles not_found × List FlatComment × PaginationInfo}
          (a, cs, info) (after, comments, pagination) =
        cc final in
      (
        cc final,
        ap (λ u. page_of_thread articles not_found answers self u page per_page threshold)
              (sym same)
            ∙ paged
            ∙ ap some page_same,
      )

  -- When get_thread_paginated succeeds, its thread is that of get_thread, and its comments are
  -- those of the flattened thread. The ones outside the page are unchanged, and each one of the
  -- page that has an article takes the body of the cached article with its identifier, or else that
  -- of the servers' first answer, if there is one and the identifier was not remembered as missing,
  -- and no other body.
  pub get_thread_paginated-ShowsPage :
      (compute_timeago : String → String) (lists : Cache CachedThreads)
      (single : Cache CachedThread) (answers : String → List (Result ArticleView NntpError))
      (thread_answers : List (Result (List ThreadView) NntpError)) (directory : Directory)
      (last : Option ℕ) (threads threads_after : Threads.State compute_timeago lists single)
      (self after : State articles not_found) (group message_id : String)
      (page per_page collapse_threshold : ℕ) (thread : ThreadView) (comments : List FlatComment)
      (pagination : PaginationInfo)
      → get_thread_paginated articles not_found compute_timeago lists single answers thread_answers
          directory last threads self group message_id page per_page collapse_threshold
        ≡ some ((threads_after, after), ok (thread, comments, pagination))
      → (get_thread compute_timeago lists single thread_answers directory last threads group
            message_id
          ≡ some (threads_after, ok thread))
        × (flat : List FlatComment) × (flatten thread.root collapse_threshold ≡ some flat)
        × (new page (length flat) per_page ≡ some pagination)
        × ShowsPage articles not_found answers self page per_page flat comments
  unfolding get_thread_paginated
  get_thread_paginated-ShowsPage timeago lists single answers thread_answers directory last threads
        threads_after self after group message_id page per_page threshold thread comments pagination
        run =
      let ((state, result), got, rest) =
        bind_inverse
          (get_thread timeago lists single thread_answers directory last threads group message_id) _
          ((threads_after, after), ok (thread, comments, pagination)) run in
      let (same, paged) =
        after_thread-ok timeago lists single answers state threads_after self after page per_page
          threshold result thread comments pagination rest in
      let (flat, flattened, made, is_shown) =
        page_of_thread-ShowsPage answers self after thread page per_page threshold comments
          pagination paged in
      (got ∙ ap some same, flat, flattened, made, is_shown)
