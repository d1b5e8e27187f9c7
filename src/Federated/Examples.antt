-- ===== src/Federated/Examples.antt =====
-- Tests of the federated service and instances of its theorems.
use september.Base.{
  ℕ, ◌≡◌, refl, sym, subst, ◌++◌, true, false, none, some, List, [], ◌∷◌, String, lookup, insert,
  All, get_elem?, ◌↔◌,
}
use september.Base.Text.{codes, to_lowercase, contains, starts_with}
use september.Base.Sorting.{sort_by_name, str_leb}
use september.Thread.{ArticleView}
use september.Federated.{
  NntpError, AppError, article_not_found, Result, ok, err, Cache, is_not_found_error,
}
use september.Federated.Caches.{map_cache}
use september.Federated.Articles.{State, get_article}
use september.Federated.Lookup.{AllNotFound, get_article-not_found}
use september.Federated.Groups.{
  GroupView, GroupService, Directory, fetch_groups_from_servers, gather_servers, gather_answer,
  gather_groups, gather_group, entry_push,
}
use september.Federated.Carriers.{elem, carries, carries_posting, servers_of}
use september.Federated.Directory.{IsValid, fetch_groups_exact}
use september.Federated.Posting.{post_article}
use september.Federated.Dispatch.{is_ok, IsDispatched, post_article_total}

abbrev some_article : ArticleView
some_article = record {
  message_id = "a";
  subject = "s";
  from = "f";
  date = "d";
  date_relative = "r";
  body = none;
  body_preview = none;
  has_more_content = false;
  headers = none;
}

abbrev articles : Cache ArticleView
articles = map_cache ArticleView

abbrev misses : Cache (Unit {0})
misses = map_cache (Unit {0})

abbrev empty_state : State articles misses
unfolding map_cache
empty_state = record { article_cache = []; article_not_found_cache = [] }

abbrev no_article : List (Result ArticleView NntpError)
no_article = err (codes "430 No such article") ∷ []

abbrev second_has : List (Result ArticleView NntpError)
second_has = err (codes "430 No such article") ∷ ok some_article ∷ []

abbrev times_out : List (Result ArticleView NntpError)
times_out = err (codes "430 No such article") ∷ err (codes "timeout") ∷ []

get_article-not_found_example :
    ((get_article articles misses empty_state "a" no_article).1 ≡ err (article_not_found "a"))
    ↔ AllNotFound no_article
unfolding map_cache lookup
get_article-not_found_example =
    get_article-not_found articles misses empty_state "a" no_article refl refl

mixed_answers : ¬ AllNotFound times_out
unfolding is_not_found_error to_lowercase contains starts_with
mixed_answers h =
    let same : ◌≡◌ {A = Result ArticleView NntpError} (err (codes "timeout")) (err h.1.0.0) =
      h.1.0.1 in
    let text : codes "timeout" ≡ h.1.0.0 = cc in
    let wrong : false ≡ true = subst (λ t. is_not_found_error t ≡ true) (sym text) h.1.0.2 in
    absurd (cc)

no_entry :
    (k : String) (w : ArticleView)
    → articles.get empty_state.article_cache k ≡ some w
    → w ≡ some_article
unfolding map_cache lookup
no_entry k w h = cc

sole_answer :
    (a : ArticleView) (before after : List (Result ArticleView NntpError))
    → second_has ≡ before ++ ok a ∷ after
    → All (λ r. (e : NntpError) × (r ≡ err e)) before
    → a ≡ some_article
sole_answer a [] after split fails = cc
sole_answer a (x ∷ []) after split fails = cc
sole_answer a (x ∷ y ∷ before) after split fails = let (e, bad) = fails.1.0 in cc

abbrev good : Result ℕ NntpError
good = ok 7

abbrev bad : Result ℕ NntpError
bad = err (codes "timeout")

abbrev checks : List (String × ℕ)
checks = ("g", 100) ∷ ("h", 200) ∷ ("g", 1100) ∷ ("g", 1500) ∷ []

abbrev group : String → GroupView
group name = record { name = name; description = none; article_count = none }

abbrev services : List GroupService
services =
    record { groups = ok (group "b" ∷ group "a" ∷ []); is_posting_allowed = false }
    ∷ record { groups = err (codes "timeout"); is_posting_allowed = true }
    ∷ record { groups = ok (group "a" ∷ []); is_posting_allowed = true }
    ∷ []

abbrev nothing_known : Directory
nothing_known = record { group_servers = []; posting_servers = []; groups_cache = none }

fetch_groups_exact_example :
    (elem 2 (servers_of "a" (fetch_groups_from_servers services nothing_known).0.group_servers)
      ≡ carries (get_elem? services 2) "a")
    × (elem 2 (servers_of "a" (fetch_groups_from_servers services nothing_known).0.posting_servers)
        ≡ carries_posting (get_elem? services 2) "a")
unfolding fetch_groups_from_servers gather_servers gather_answer gather_groups gather_group
    entry_push lookup insert sort_by_name str_leb
fetch_groups_exact_example =
    fetch_groups_exact services nothing_known (group "a" ∷ group "b" ∷ []) 2 "a" refl

nothing_known-IsValid : IsValid 3 nothing_known
unfolding lookup
nothing_known-IsValid = (λ name. tt, λ name. tt)

abbrev answers : List (Result ℕ NntpError)
answers = bad ∷ bad ∷ good ∷ []

abbrev posted : List (Result (Unit {0}) NntpError)
posted = err (codes "timeout") ∷ ok tt ∷ err (codes "timeout") ∷ []

post_article_total_example :
    (r : Result (Unit {0}) AppError) × (post_article posted nothing_known "a" ≡ some r)
    × IsDispatched posted nothing_known "a" (is_ok r)
post_article_total_example = post_article_total posted nothing_known "a" nothing_known-IsValid
