-- ===== src/Federated/PollingExamples.antt =====
-- A test of the polling for a posted article, and an instance of its theorem.
use september.Base.{
  ℕ, ◌≡◌, refl, Bool, true, false, ◌==◌, none, some, List, [], ◌∷◌, String, lookup, insert,
}
use september.Base.Text.{codes}
use september.Federated.{NntpError, Result, ok, err, Cache}
use september.Federated.Caches.{map_cache}
use september.Federated.Threads.{CachedThreads, CachedThread}
use september.Federated.Polling.{
  PostedCaches, check_article_exists, is_confirmed, poll, inject_posted_article,
}
use september.Thread.{ArticleView}

abbrev lists : Cache CachedThreads
lists = map_cache CachedThreads

abbrev single : Cache CachedThread
single = map_cache CachedThread

abbrev articles : Cache ArticleView
articles = map_cache ArticleView

abbrev missing : Cache (Unit {0})
missing = map_cache (Unit {0})

abbrev timeago : String → String
timeago date = date

-- The second of two servers has the article from the third attempt on.
abbrev answers : ℕ → List (Result Bool NntpError)
answers attempt = err (codes "closed") ∷ ok (attempt == 3) ∷ []

abbrev article : ArticleView
article = record {
  message_id = "c";
  subject = "s";
  from = "f";
  date = "d";
  date_relative = "r";
  body = none;
  body_preview = none;
  has_more_content = false;
  headers = none;
}

abbrev service : PostedCaches timeago lists single articles missing
unfolding map_cache
service = record {
  article_cache = [];
  article_not_found_cache = ("c", tt) ∷ [];
  threads = record {
    caches = record { threads_cache = []; thread_cache = []; group_hwm = [] };
    updates = [];
  };
}

third_attempt : (is_confirmed answers 1 2 ≡ false) × (is_confirmed answers 1 3 ≡ true)
unfolding is_confirmed check_article_exists
third_attempt = (refl, refl)

cached_test :
    articles.get
      (inject_posted_article timeago lists single articles missing answers service "g" article none
        none).article_cache
      "c"
    ≡ some article
unfolding map_cache inject_posted_article poll check_article_exists lookup insert
cached_test = refl
