-- ===== src/Worker/Messages.antt =====
-- The messages between the service and its workers, with the sender of each request's answer left
-- out: `respond` gives what is sent, `none` when nothing is.
use september.Base.{ℕ, Bool, Option, none, some, List, String}
use september.Base.Text.{Text}
use september.Federated.{NntpError, Result, ok, err}
use september.Federated.Groups.{GroupView}
use september.Thread.{ArticleView, ThreadView}

pub data Priority : Type 0 where
  high : Priority
  normal : Priority
  low : Priority

pub record GroupStatsView : Type 0 where
  pub last_article_date : Option Text
  pub last_article_number : ℕ

pub data NntpRequest : Type 0 where
  get_groups : NntpRequest
  get_threads : String → ℕ → NntpRequest
  get_article : String → NntpRequest
  get_group_stats : String → NntpRequest
  get_new_articles : String → ℕ → NntpRequest
  post_article : List (Text × Text) → Text → NntpRequest
  check_article_exists : String → NntpRequest

-- `E` is the type of overview entries.
pub data NntpResponse (E : Type 0) : Type 0 where
  groups : List GroupView → NntpResponse E
  threads : List ThreadView → NntpResponse E
  article : ArticleView → NntpResponse E
  group_stats : GroupStatsView → NntpResponse E
  new_articles : List E → NntpResponse E
  post_result : NntpResponse E
  article_exists : Bool → NntpResponse E

unfoldable pub priority : NntpRequest → Priority
priority (get_article message_id) = high
priority (post_article headers body) = high
priority (check_article_exists message_id) = high
priority (get_threads group count) = normal
priority get_groups = normal
priority (get_group_stats group) = low
priority (get_new_articles group since) = low

-- The type of the answer that the sender of a request takes.
unfoldable pub ReplyType : Type 0 → NntpRequest → Type 0
ReplyType E get_groups = List GroupView
ReplyType E (get_threads group count) = List ThreadView
ReplyType E (get_article message_id) = ArticleView
ReplyType E (get_group_stats group) = GroupStatsView
ReplyType E (get_new_articles group since) = List E
ReplyType E (post_article headers body) = Unit
ReplyType E (check_article_exists message_id) = Bool

-- The answer in a response of the kind that the request asks for.
unfoldable pub reply_in :
    {E : Type 0} (request : NntpRequest) → NntpResponse E → Option (ReplyType E request)
unfolding ReplyType
reply_in get_groups (groups gs) = some gs
reply_in (get_threads group count) (threads ts) = some ts
reply_in (get_article message_id) (article a) = some a
reply_in (get_group_stats group) (group_stats stats) = some stats
reply_in (get_new_articles group since) (new_articles entries) = some entries
reply_in (post_article headers body) post_result = some tt
reply_in (check_article_exists message_id) (article_exists exists) = some exists
reply_in request response = none

ok_reply : {A : Type 0} → Option A → Option (Result A NntpError)
ok_reply none = none
ok_reply (some a) = some (ok a)

unfoldable pub respond :
    {E : Type 0} (request : NntpRequest)
    → Result (NntpResponse E) NntpError
    → Option (Result (ReplyType E request) NntpError)
unfolding ok_reply
respond request (ok response) = ok_reply (reply_in request response)
respond request (err e) = some (err e)
