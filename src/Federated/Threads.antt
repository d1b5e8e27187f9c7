-- ===== src/Federated/Threads.antt =====
-- The cached thread lists and threads of the service: get_threads, get_thread, and the injection of
-- an article that was just posted. The refresh that a hit starts in the background, the prefetch of
-- statistics and the marking of a group as active are left out.
use Prim.Native.String.{◌++◌ as append}
use september.Base.{
  ℕ, ◌+◌, Bool, true, false, ◌||◌, Option, none, some, List, [], ◌∷◌, String, str_eq, Map,
  if◌then◌else◌, ◌>>=◌,
}
use september.Base.Text.{codes}
use september.Federated.{NntpError, AppError, article_not_found, internal, Result, ok, err, Cache}
use september.Federated.Groups.{Directory}
use september.Federated.Marks.{update_group_hwm}
use september.Federated.Posting.{fetch_threads}
use september.Thread.{
  ArticleView, ThreadNodeView, ThreadView, node, nil, add_reply_to_node, contains_message_id,
}

pub record CachedThreads : Type 0 where
  pub threads : List ThreadView
  pub last_article_number : ℕ

pub record CachedThread : Type 0 where
  pub thread : ThreadView
  pub group : String

-- The node of an article without replies.
abbrev pub new_node : ArticleView → ThreadNodeView
new_node article = node article.message_id (some article) nil 0

-- `none` is a walk without end, which contains_message_id never is.
abbrev pub or_false : Option Bool → Bool
or_false none = false
or_false (some b) = b

-- threads.iter().find(|t| t.root_message_id == root_id)
unfoldable pub find_by_root : String → List ThreadView → Option ThreadView
find_by_root root_id [] = none
find_by_root root_id (t ∷ threads) =
    let later = find_by_root root_id threads in
    if str_eq t.root_message_id root_id then some t else later

-- .find(|t| t.root_message_id == *message_id || t.root.contains_message_id(message_id))
unfoldable pub find_thread : String → List ThreadView → Option ThreadView
find_thread message_id [] = none
find_thread message_id (t ∷ threads) =
    let later = find_thread message_id threads in
    if str_eq t.root_message_id message_id || or_false (contains_message_id t.root message_id)
    then some t
    else later

module _ (compute_timeago : String → String) where
  pub add_found : ThreadView → ArticleView → ThreadNodeView × Bool → ThreadView × Bool
  add_found thread article (root, false) = (thread, false)
  add_found thread article (root, true) = (
    record thread {
      root = root;
      article_count = thread.article_count + 1;
      last_post_date = some article.date;
      last_post_date_relative = some (compute_timeago article.date);
    },
    true,
  )

  -- The thread with the reply, and whether the parent was found.
  unfoldable pub add_to_thread : ThreadView → String → ArticleView → ThreadView × Bool
  unfolding add_found
  add_to_thread thread parent_id article =
      add_found thread article (add_reply_to_node thread.root parent_id (new_node article))

  -- The list with the reply in the first thread of this root.
  unfoldable pub add_to_list : List ThreadView → String → String → ArticleView → List ThreadView
  add_to_list [] root_id parent_id article = []
  add_to_list (t ∷ threads) root_id parent_id article =
      let later = add_to_list threads root_id parent_id article in
      if str_eq t.root_message_id root_id
      then (add_to_thread t parent_id article).0 ∷ threads
      else t ∷ later

  unfoldable pub new_thread : ArticleView → ThreadView
  new_thread article = record {
    subject = article.subject;
    root_message_id = article.message_id;
    article_count = 1;
    root = new_node article;
    last_post_date = some article.date;
    last_post_date_relative = some (compute_timeago article.date);
  }

  module _ (lists : Cache CachedThreads) (single : Cache CachedThread) where
    pub record State : Type 0 where
      pub threads_cache : lists.Store
      pub thread_cache : single.Store
      pub group_hwm : Map ℕ

    or_no_threads : Option CachedThreads → CachedThreads
    or_no_threads none = record { threads = []; last_article_number = 0 }
    or_no_threads (some cached) = cached

    unfoldable pub inject_new_thread : State → String → ArticleView → State
    unfolding or_no_threads
    inject_new_thread self group article =
        let cached = or_no_threads (lists.get self.threads_cache group) in
        record self {
          threads_cache = lists.insert self.threads_cache group (record {
            threads = new_thread article ∷ cached.threads;
            last_article_number = cached.last_article_number;
          });
        }

    pub cache_key : String → String → String
    cache_key group message_id = append group (append ":" message_id)

    pub keep_thread : String → String → ThreadView × Bool → single.Store → single.Store
    keep_thread group key (thread, false) cache = cache
    keep_thread group key (thread, true) cache =
        single.insert cache key (record { thread = thread; group = group })

    pub reply_to_thread :
        String → String → String → ArticleView → Option CachedThread → single.Store → single.Store
    reply_to_thread group key parent_id article none cache = cache
    reply_to_thread group key parent_id article (some cached) cache =
        keep_thread group key (add_to_thread cached.thread parent_id article) cache

    pub reply_to_list :
        String → String → String → ArticleView → Option CachedThreads → lists.Store → lists.Store
    reply_to_list group root_id parent_id article none cache = cache
    reply_to_list group root_id parent_id article (some cached) cache =
        lists.insert cache group
          (record cached { threads = add_to_list cached.threads root_id parent_id article })

    unfoldable pub inject_reply : State → String → String → String → ArticleView → State
    unfolding reply_to_thread reply_to_list keep_thread cache_key
    inject_reply self group root_id parent_id article =
        let key = cache_key group root_id in
        record self {
          thread_cache =
              reply_to_thread group key parent_id article (single.get self.thread_cache key)
                self.thread_cache;
          threads_cache =
              reply_to_list group root_id parent_id article (lists.get self.threads_cache group)
                self.threads_cache;
        }

    or_zero : Option ℕ → ℕ
    or_zero none = 0
    or_zero (some n) = n

    store_threads :
        State
        → String
        → Option ℕ
        → Result (List ThreadView) AppError
        → State × Result (List ThreadView) AppError
    store_threads self group last (err e) = (self, err e)
    store_threads self group last (ok threads) =
        let number = or_zero last in
        (
          record self {
            threads_cache =
                lists.insert self.threads_cache group
                  (record { threads = threads; last_article_number = number });
            group_hwm = update_group_hwm self.group_hwm group number;
          },
          ok threads,
        )

    -- `answers` are the servers' answers, `last` the last article number among the cached
    -- statistics of the group.
    unfoldable pub get_threads :
        List (Result (List ThreadView) NntpError)
        → Directory
        → Option ℕ
        → State
        → String
        → Option (State × Result (List ThreadView) AppError)
    unfolding store_threads or_zero
    get_threads answers directory last self group = elim (lists.get self.threads_cache group) [
      | some cached ↦ some (self, ok cached.threads)
      | none ↦
          fetch_threads answers directory group >>= (λ r. some (store_threads self group last r))
    ]

    pub keep_found :
        State → String → String → Option ThreadView → State × Result ThreadView AppError
    keep_found self group message_id none =
        (self, err (article_not_found (append "Thread not found: " message_id)))
    keep_found self group message_id (some thread) = (
      record self {
        thread_cache =
            single.insert self.thread_cache (cache_key group message_id)
              (record { thread = thread; group = group });
      },
      ok thread,
    )

    pub look_up :
        State → String → String → Option CachedThreads → State × Result ThreadView AppError
    look_up self group message_id none =
        (self, err (internal (codes "Failed to populate threads cache")))
    look_up self group message_id (some cached) =
        keep_found self group message_id (find_thread message_id cached.threads)

    pub after_fetch :
        String
        → String
        → State × Result (List ThreadView) AppError
        → State × Result ThreadView AppError
    after_fetch group message_id (self, err e) = (self, err e)
    after_fetch group message_id (self, ok threads) =
        look_up self group message_id (lists.get self.threads_cache group)

    unfoldable pub get_thread :
        List (Result (List ThreadView) NntpError)
        → Directory
        → Option ℕ
        → State
        → String
        → String
        → Option (State × Result ThreadView AppError)
    unfolding after_fetch look_up keep_found cache_key
    get_thread answers directory last self group message_id =
        elim (single.get self.thread_cache (cache_key group message_id)) [
          | some cached ↦ some (self, ok cached.thread)
          | none ↦ elim (lists.get self.threads_cache group) [
            | some cached ↦ some (look_up self group message_id (some cached))
            | none ↦
                get_threads answers directory last self group
                >>= (λ r. some (after_fetch group message_id r))
          ]
        ]
