-- ===== src/Federated/PageExamples.antt =====
-- A page of a cached thread with one cached body, and the instance of its theorem.
use september.Base.{
  ◌≡◌, refl, false, Option, none, some, List, [], ◌∷◌, String, lookup, insert, ◌>>=◌, map, length,
}
use september.Federated.{NntpError, Result, ok, Cache}
use september.Federated.Articles.{State, get_article, search_servers}
use september.Federated.Caches.{map_cache}
use september.Federated.Groups.{Directory}
use september.Federated.Page.{
  fill_comments, cached_bodies, fetch_bodies, page_of_thread, flatten_paginated,
  get_thread_paginated, Answer,
}
use september.Federated.Page.Filled.{ShowsPage}
use september.Federated.Page.Shown.{get_thread_paginated-ShowsPage}
use september.Federated.Threads
use september.Federated.Threads.{CachedThreads, CachedThread, get_thread}
use september.Pagination.{PaginationInfo, new, page_items, cut}
use september.Thread.{ArticleView, ThreadView, FlatComment, node, nil, cons, flatten, size}

abbrev lists : Cache CachedThreads
lists = map_cache CachedThreads

abbrev single : Cache CachedThread
single = map_cache CachedThread

abbrev articles : Cache ArticleView
articles = map_cache ArticleView

abbrev missing : Cache (Unit {0})
missing = map_cache (Unit {0})

abbrev timeago : String → String
timeago date = date

abbrev article : String → Option String → ArticleView
article id body = record {
  message_id = id;
  subject = "s";
  from = "f";
  date = "d";
  date_relative = "r";
  body = body;
  body_preview = none;
  has_more_content = false;
  headers = none;
}

abbrev thread : ThreadView
thread = record {
  subject = "s";
  root_message_id = "a";
  article_count = 3;
  root =
      node "a" (some (article "a" none))
        (cons (node "b" (some (article "b" none)) nil 0)
          (cons (node "c" (some (article "c" none)) nil 0) nil))
        2;
  last_post_date = none;
  last_post_date_relative = none;
}

abbrev threads : Threads.State timeago lists single
unfolding map_cache
threads = record {
  threads_cache = [];
  thread_cache = ("g:a", record { thread = thread; group = "g" }) ∷ [];
  group_hwm = [];
}

-- The cache has the article b; the server has every article.
abbrev self : State articles missing
unfolding map_cache
self = record {
  article_cache = ("b", article "b" (some "cached")) ∷ [];
  article_not_found_cache = [];
}

abbrev answers : String → List (Result ArticleView NntpError)
answers id = ok (article id (some "fetched")) ∷ []

abbrev directory : Directory
directory = record { group_servers = []; posting_servers = []; groups_cache = none }

abbrev answer : Option (Answer articles missing timeago lists single)
answer =
    get_thread_paginated articles missing timeago lists single answers [] directory none threads
      self "g" "a" 1 2 5

abbrev bodies : Option (Answer articles missing timeago lists single) → List (Option String)
bodies (some (states, ok (t, comments, pagination))) = map (λ c. c.article >>= λ a. a.body) comments
bodies _ = []

-- The first page of two has the bodies of a and b, and not that of c.
bodies_test : bodies answer ≡ some "fetched" ∷ some "cached" ∷ none ∷ []
unfolding map_cache get_thread_paginated get_thread page_of_thread flatten_paginated flatten size
    new page_items cached_bodies fetch_bodies fill_comments get_article lookup insert cut
    search_servers
bodies_test = refl

abbrev Found : Type 0
Found =
    (Threads.State timeago lists single × State articles missing)
    × List FlatComment
    × Option PaginationInfo

abbrev found : Option (Answer articles missing timeago lists single) → Found
found (some (states, ok (t, comments, pagination))) = (states, comments, some pagination)
found _ = ((threads, self), [], none)

abbrev or_empty : Option PaginationInfo → PaginationInfo
or_empty (some info) = info
or_empty none = record {
  current_page = 0;
  total_pages = 0;
  total_items = 0;
  items_per_page = 0;
  has_prev = false;
  has_next = false;
  visible_pages = [];
}

get_thread_paginated-ShowsPage_example :
    (get_thread timeago lists single [] directory none threads "g" "a" ≡ some (threads, ok thread))
    × (flat : List FlatComment) × (flatten thread.root 5 ≡ some flat)
    × (new 1 (length flat) 2 ≡ some (or_empty (found answer).2))
    × ShowsPage articles missing answers self 1 2 flat (found answer).1
unfolding map_cache get_thread_paginated get_thread page_of_thread flatten_paginated flatten size
    new page_items cached_bodies fetch_bodies fill_comments get_article lookup insert cut
    search_servers
get_thread_paginated-ShowsPage_example =
    get_thread_paginated-ShowsPage articles missing timeago lists single answers [] directory none
      threads threads self (found answer).0.1 "g" "a" 1 2 5 thread (found answer).1
      (or_empty (found answer).2) refl
