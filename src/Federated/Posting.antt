-- ===== src/Federated/Posting.antt =====
-- The requests that the service dispatches to the servers of a group: posting, the threads of a
-- group that is not cached, new articles and the statistics of a group. `none` is a panic.
use september.Base.{ℕ, Option, none, some, List, [], ◌∷◌, ◌++◌, String, lookup, length, ◌>>=◌}
use september.Base.Text.{codes}
use september.Federated.{
  NntpError, AppError, group_not_found, internal, Result, ok, err, nntp_error_to_app_error,
}
use september.Federated.Failover.{Tried, success, failed, try_servers}
use september.Federated.Groups.{Directory, or_default, get_servers_for_group}

pub or_group_servers : ℕ → Directory → String → List ℕ → List ℕ
or_group_servers services self group [] = get_servers_for_group services self group
or_group_servers services self group (i ∷ is) = i ∷ is

-- The servers that post_article asks, in order.
unfoldable pub posting_indices : ℕ → Directory → String → List ℕ
unfolding or_group_servers
posting_indices services self group =
    or_group_servers services self group (or_default (lookup group self.posting_servers))

pub post_error : Option NntpError → AppError
post_error none = internal (codes "Failed to post article")
post_error (some e) = internal (codes "Failed to post article: " ++ e)

pub post_outcome : Tried (Unit {0}) → Result (Unit {0}) AppError
post_outcome (success _) = ok tt
post_outcome (failed last_error) = err (post_error last_error)

pub post_to : List (Result (Unit {0}) NntpError) → List ℕ → Option (Result (Unit {0}) AppError)
post_to answers [] = some (err (internal (codes "No servers support posting to this group")))
post_to answers (i ∷ is) = try_servers answers (i ∷ is) none >>= (λ t. some (post_outcome t))

-- `answers` are the servers' answers to the article.
unfoldable pub post_article :
    List (Result (Unit {0}) NntpError) → Directory → String → Option (Result (Unit {0}) AppError)
unfolding post_to post_outcome post_error
post_article answers self group = post_to answers (posting_indices (length answers) self group)

group_error : String → Option NntpError → AppError
group_error group none = group_not_found group
group_error group (some e) = nntp_error_to_app_error e group

module _ {A : Type 0} where
  pub group_outcome : String → Tried A → Result A AppError
  group_outcome group (success a) = ok a
  group_outcome group (failed last_error) = err (group_error group last_error)

  -- The loop of get_threads after a miss of the cache.
  unfoldable pub fetch_threads :
      List (Result A NntpError) → Directory → String → Option (Result A AppError)
  unfolding group_outcome group_error
  fetch_threads answers self group =
      try_servers answers (get_servers_for_group (length answers) self group) none
      >>= (λ t. some (group_outcome group t))

  pub internal_outcome : String → Tried A → Result A AppError
  internal_outcome otherwise (success a) = ok a
  internal_outcome otherwise (failed none) = err (internal (codes otherwise))
  internal_outcome otherwise (failed (some e)) = err (internal e)

  unfoldable pub get_new_articles :
      List (Result A NntpError) → Directory → String → Option (Result A AppError)
  unfolding internal_outcome
  get_new_articles answers self group =
      try_servers answers (get_servers_for_group (length answers) self group) none
      >>= (λ t. some (internal_outcome "Failed to fetch new articles" t))

  -- The loop of get_group_stats after a miss of the cache.
  unfoldable pub fetch_group_stats :
      List (Result A NntpError) → Directory → String → Option (Result A AppError)
  unfolding internal_outcome
  fetch_group_stats answers self group =
      try_servers answers (get_servers_for_group (length answers) self group) none
      >>= (λ t. some (internal_outcome "Group stats not available" t))
