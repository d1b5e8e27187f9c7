-- ===== src/Federated/Polling.antt =====
-- inject_posted_article of src/nntp/federated.rs: the servers are asked for a new article until one
-- has it, and the caches are brought up to date. The waits between the attempts are left out, and
-- trigger_incremental_update only records its group.
use september.Base.{
  ℕ, zero, suc, ◌≡◌, Bool, true, false, ◌||◌, Option, none, some, List, [], ◌∷◌, String,
  if◌then◌else◌,
}
use september.Federated.{NntpError, Result, ok, err, Cache}
use september.Federated.Threads.{
  CachedThreads, CachedThread, State, inject_new_thread, inject_reply, cache_key,
}
use september.Thread.{ArticleView}

abbrev pub post_poll_max_attempts : ℕ
post_poll_max_attempts = 15

-- The servers' answers to STAT, an error counting as false.
unfoldable pub check_article_exists : List (Result Bool NntpError) → Bool
check_article_exists [] = false
check_article_exists (ok true ∷ services) = true
check_article_exists (ok false ∷ services) = check_article_exists services
check_article_exists (err e ∷ services) = check_article_exists services

-- Whether a server has the article in one of the attempts from this one on.
unfoldable pub is_confirmed : (ℕ → List (Result Bool NntpError)) → ℕ → ℕ → Bool
is_confirmed answers attempt zero = false
is_confirmed answers attempt (suc left) =
    check_article_exists (answers attempt) || is_confirmed answers (suc attempt) left

module _ (compute_timeago : String → String) (lists : Cache CachedThreads)
    (single : Cache CachedThread) (articles : Cache ArticleView)
    (not_found : Cache (Unit {0})) where
  -- The caches of threads, and the groups for which trigger_incremental_update was called.
  pub record ThreadCaches : Type 0 where
    pub caches : State compute_timeago lists single
    pub updates : List String

  pub record PostedCaches : Type 0 where
    pub article_cache : articles.Store
    pub article_not_found_cache : not_found.Store
    pub threads : ThreadCaches

  trigger_incremental_update : ThreadCaches → String → ThreadCaches
  trigger_incremental_update self group = record self { updates = group ∷ self.updates }

  unfoldable pub inject_article_into_caches :
      ThreadCaches → String → ArticleView → Option String → Option String → ThreadCaches
  unfolding trigger_incremental_update
  inject_article_into_caches self group article none none = record self {
    caches = inject_new_thread compute_timeago lists single self.caches group article;
  }
  inject_article_into_caches self group article (some root_id) (some parent_id) = record self {
    caches = inject_reply compute_timeago lists single self.caches group root_id parent_id article;
  }
  inject_article_into_caches self group article none (some parent_id) =
      trigger_incremental_update self group
  inject_article_into_caches self group article (some root_id) none =
      trigger_incremental_update self group

  -- After the last attempt.
  unfoldable pub give_up : ThreadCaches → String → Option String → ThreadCaches
  unfolding trigger_incremental_update
  give_up self group none = trigger_incremental_update self group
  give_up self group (some root_id) =
      let caches = self.caches in
      trigger_incremental_update
        (record self {
          caches = record caches {
            thread_cache =
                single.invalidate caches.thread_cache
                  (cache_key compute_timeago lists single group root_id);
          };
        })
        group

  forget_missing : PostedCaches → String → PostedCaches
  forget_missing self message_id = record self {
    article_not_found_cache = not_found.invalidate self.article_not_found_cache message_id;
  }

  -- `left` attempts, from this one on.
  unfoldable pub poll :
      (ℕ → List (Result Bool NntpError))
      → ℕ
      → ℕ
      → PostedCaches
      → String
      → ArticleView
      → Option String
      → Option String
      → PostedCaches
  unfolding forget_missing
  poll answers attempt zero self group article root_id parent_id = record self {
    threads = give_up self.threads group root_id;
  }
  poll answers attempt (suc left) self group article root_id parent_id =
      let asked = forget_missing self article.message_id in
      let later = poll answers (suc attempt) left asked group article root_id parent_id in
      if check_article_exists (answers attempt)
      then record asked {
        article_cache = articles.insert asked.article_cache article.message_id article;
        threads = inject_article_into_caches asked.threads group article root_id parent_id;
      }
      else later

  unfoldable pub inject_posted_article :
      (ℕ → List (Result Bool NntpError))
      → PostedCaches
      → String
      → ArticleView
      → Option String
      → Option String
      → PostedCaches
  inject_posted_article answers self group article root_id parent_id =
      poll answers 1 post_poll_max_attempts self group article root_id parent_id

  -- What the attempts leave, for a service that does not hold the article as missing.
  abbrev pub IsInjected :
      Bool
      → PostedCaches
      → PostedCaches
      → String
      → ArticleView
      → Option String
      → Option String
      → Type 0
  IsInjected confirmed before after group article root_id parent_id =
      (after.article_cache ≡ (
        if confirmed
        then articles.insert before.article_cache article.message_id article
        else before.article_cache))
      × (after.threads ≡ (
          if confirmed
          then inject_article_into_caches before.threads group article root_id parent_id
          else give_up before.threads group root_id))
      × (not_found.get after.article_not_found_cache article.message_id ≡ none)
