-- ===== src/Federated/Articles.antt =====
-- get_article of the federated service: the two caches and the search over all servers.
use september.Base.{
  Bool, true, false, not, Option, none, some, List, [], ◌∷◌, String, if◌then◌else◌,
}
use september.Base.Text.{codes}
use september.Federated.{
  NntpError, AppError, article_not_found, internal, Result, ok, err, Cache, is_not_found_error,
}
use september.Thread.{ArticleView}

-- What the loop over the servers leaves: the article, or the last error and whether all were
-- "not found".
pub data Search : Type 0 where
  found : ArticleView → Search
  missing : Option NntpError → Bool → Search

-- for service in &self.services
unfoldable pub search_servers :
    List (Result ArticleView NntpError) → Option NntpError → Bool → Search
search_servers [] last_error all_not_found = missing last_error all_not_found
search_servers (ok article ∷ services) last_error all_not_found = found article
search_servers (err e ∷ services) last_error all_not_found =
    search_servers services (some e) (if not (is_not_found_error e) then false else all_not_found)

last_error_or : Option NntpError → NntpError
last_error_or none = codes "No NNTP servers configured"
last_error_or (some e) = e

module _ (articles : Cache ArticleView) (not_found : Cache (Unit {0})) where
  pub record State : Type 0 where
    pub article_cache : articles.Store
    pub article_not_found_cache : not_found.Store

  conclude : State → String → Search → State × Result ArticleView AppError
  conclude self message_id (found article) = (
    record self { article_cache = articles.insert self.article_cache message_id article },
    ok article,
  )
  conclude self message_id (missing last_error true) = (
    record self {
      article_not_found_cache = not_found.insert self.article_not_found_cache message_id tt;
    },
    err (article_not_found message_id),
  )
  conclude self message_id (missing last_error false) =
      (self, err (internal (last_error_or last_error)))

  -- `answers` are the servers' answers for this article, in priority order.
  unfoldable pub get_article :
      State → String → List (Result ArticleView NntpError) → State × Result ArticleView AppError
  unfolding conclude last_error_or
  get_article self message_id answers = elim (articles.get self.article_cache message_id) [
    | some article ↦ (self, ok article)
    | none ↦ elim (not_found.get self.article_not_found_cache message_id) [
      | some _ ↦ (self, err (article_not_found message_id))
      | none ↦ conclude self message_id (search_servers answers none true)
    ]
  ]
