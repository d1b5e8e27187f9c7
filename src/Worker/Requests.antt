-- ===== src/Worker/Requests.antt =====
-- handle_request_inner: the requests that a worker answers with its client. `none` is a panic or a
-- stack that overflows, in the building or the sort of threads.
use september.Base.{
  ℕ, ◌-◌, min, ◌||◌, true, false, Option, none, some, List, [], ◌∷◌, ◌++◌, String, add64, leb, ltb,
  map, drop, if◌then◌else◌, ◌>>=◌,
}
use september.Base.Text.{Text, codes, to_lowercase, contains, starts_with, trim}
use september.Federated.{NntpError, Result, ok, err}
use september.Federated.Groups.{GroupView}
use september.Thread.{ThreadView}
use september.Worker.{
  ListMethod, list_active, list_newsgroups, ServerCapabilities, get_list_methods, ThreadFetchMethod,
  thread_fetch_method,
}
use september.Worker.Messages.{
  NntpRequest, get_groups, get_threads, get_article, get_group_stats, get_new_articles,
  post_article, check_article_exists, NntpResponse, groups, threads, article, group_stats,
  new_articles, post_result, article_exists,
}
use september.Overview.{Fields, Dates}
use september.Worker.Client.{GroupInfo, Client}
use september.Worker.Fetching.{Fetch, fetch_range, sort_views}
use september.Worker.Stuffing.{format_article}

-- NNTP_MAX_ARTICLES_PER_REQUEST
abbrev pub max_articles_per_request : ℕ
max_articles_per_request = 10000

-- The first article number that GetThreads asks for.
unfoldable pub range_start : ℕ → GroupInfo → ℕ
range_start count stats =
    let fetch_count = min (min count stats.count) max_articles_per_request in
    add64 (stats.last - fetch_count) 1

abbrev active_view : String → GroupView
active_view name = record { name = name; description = none; article_count = none }

abbrev newsgroups_view : String × String → GroupView
newsgroups_view (name, description) = record {
  name = name;
  description = some description;
  article_count = none;
}

pub map_ok : {A B : Type 0} → (A → B) → Result A Text → Result B Text
map_ok f (ok a) = ok (f a)
map_ok f (err e) = err e

unwrap_or_default : Option Text → Text
unwrap_or_default none = []
unwrap_or_default (some text) = text

-- The first line of "Date" among the raw headers.
find_date : List Text → Option Text
find_date [] = none
find_date (line ∷ lines) =
    let later = find_date lines in
    if starts_with (to_lowercase line) (codes "date:") then some (trim (drop 5 line)) else later

first : List Text → Option Text
first [] = none
first (value ∷ values) = some value

head_date : Result (List Text) Text → Option Text
head_date (ok lines) = find_date lines
head_date (err e) = none

module _ {S E : Type 0} (client : Client S E) (fields : Fields E) (dates : Dates) (depth : ℕ)
    (fetch : Fetch S) where
  abbrev pub Answer : Type 0
  Answer = Result (NntpResponse E) NntpError × S

  pub list_with : ListMethod → S → Result (List GroupView) Text × S
  list_with list_active s =
      let (result, s') = client.list_active s in (map_ok (map active_view) result, s')
  list_with list_newsgroups s =
      let (result, s') = client.list_newsgroups s in (map_ok (map newsgroups_view) result, s')

  -- for method_name in list_methods
  pub try_methods : List ListMethod → Option Text → S → Answer
  try_methods [] last_error s = (
    err (
        codes "Server does not support listing groups. Last error: "
        ++ unwrap_or_default last_error),
    s,
  )
  try_methods (method ∷ methods) last_error s =
      let (result, s') = list_with method s in
      elim result [ ok views ↦ (ok (groups views), s') | err e ↦ try_methods methods (some e) s' ]

  date_or_head : String → ℕ → Result (List Text) Text × S → Option Text × S
  date_or_head group number (ok values, s) = (first values, s)
  date_or_head group number (err e, s) =
      let (lines, s') = client.head_lines group number s in (head_date lines, s')

  pub last_date : String → ℕ → S → Option Text × S
  last_date group last s =
      if ltb 0 last then date_or_head group last (client.hdr_date last s) else (none, s)

  pub stats_answer : String → Result GroupInfo Text × S → Answer
  stats_answer group (err e, s) = (err e, s)
  stats_answer group (ok stats, s) =
      let (date, s') = last_date group stats.last s in
      (ok (group_stats (record { last_article_date = date; last_article_number = stats.last })), s')

  pub new_articles_answer : ℕ → Result GroupInfo Text × S → Answer
  new_articles_answer since (err e, s) = (err e, s)
  new_articles_answer since (ok stats, s) =
      let (result, s') = client.over (add64 since 1) none s in
      if leb stats.last since then (ok (new_articles []), s) else (map_ok new_articles result, s')

  pub stat_answer : Result (Unit {0}) Text × S → Answer
  stat_answer (ok _, s) = (ok (article_exists true), s)
  stat_answer (err e, s) =
      if contains e (codes "430")
        || contains e (codes "423")
        || contains (to_lowercase e) (codes "no such article")
      then (ok (article_exists false), s)
      else (err e, s)

  abbrev map_answer : Result (List ThreadView) Text × S → Answer
  map_answer (result, s) = (map_ok threads result, s)

  pub threads_answer : ThreadFetchMethod → ℕ → Result GroupInfo Text × S → Option Answer
  threads_answer method count (err e, s) = some (err e, s)
  threads_answer method count (ok stats, s) = do
    fetched ←
        fetch_range client fields dates depth fetch method (range_start count stats) stats.last s
    sorted ← sort_views client fields dates depth fetch fetched
    some (map_answer sorted)

  unfoldable pub handle_request : ServerCapabilities → NntpRequest → S → Option Answer
  unfolding threads_answer try_methods list_with stats_answer last_date date_or_head
      new_articles_answer stat_answer map_ok unwrap_or_default find_date first head_date
  handle_request capabilities get_groups s =
      some (try_methods (get_list_methods capabilities) none s)
  handle_request capabilities (get_threads group count) s =
      threads_answer (thread_fetch_method capabilities) count (client.group group s)
  handle_request capabilities (get_article message_id) s =
      let (result, s') = client.article message_id s in some (map_ok article result, s')
  handle_request capabilities (get_group_stats group) s =
      some (stats_answer group (client.group group s))
  handle_request capabilities (get_new_articles group since) s =
      some (new_articles_answer since (client.group group s))
  handle_request capabilities (post_article headers body) s =
      let (result, s') = client.post (format_article headers body) s in
      some (map_ok (λ _. post_result) result, s')
  handle_request capabilities (check_article_exists message_id) s =
      some (stat_answer (client.stat message_id s))
