-- ===== src/Federated/Incremental/Examples.antt =====
-- An incremental update of a cached list, and the instance of its theorem.
use september.Base.{
  ℕ, ◌≤◌, ◌≡◌, refl, inl, Option, none, some, List, [], ◌∷◌, String, Map, lookup, insert,
}
use september.Federated.{Result, ok, Cache, NntpError}
use september.Federated.Caches.{map_cache}
use september.Federated.Failover.{try_servers}
use september.Federated.Groups.{Directory, get_servers_for_group, count_up}
use september.Federated.Incremental.{
  Updates, max_number, get_new_articles_coalesced, store_merged, trigger_incremental_update,
}
use september.Federated.Incremental.Merged.{trigger_incremental_update_keeps}
use september.Federated.Marks.{should_check_incremental, get_group_hwm, update_group_hwm}
use september.Federated.Posting.{get_new_articles}
use september.Federated.Threads.{CachedThreads, CachedThread}
use september.Overview.{Dates, HdrArticleData, hdr_fields}
use september.Overview.Build.{build_threads, build_each, group_by_root}
use september.Overview.Merge.{
  merge_articles_into_threads, by_root, sort_entries, find_root, ids_to_root,
  collect_message_ids_to_root,
}
use september.Overview.Words.{split_whitespace, ref_ids}
use september.Overview.Threads.{In, Extends}
use september.Thread.{ThreadView, node, nil}
use september.Base.Text.{is_whitespace}

abbrev lists : Cache CachedThreads
lists = map_cache CachedThreads

abbrev single : Cache CachedThread
single = map_cache CachedThread

abbrev timeago : String → String
timeago date = date

abbrev dates : Dates
dates = record { parse_from_rfc2822 = λ s. none; compute_timeago = λ s. s }

abbrev first_key : Map (List HdrArticleData) → String
first_key [] = ""
first_key ((key, entries) ∷ m) = key

abbrev number : HdrArticleData → Option ℕ
number entry = some 8

abbrev reply : HdrArticleData
reply = record { message_id = "b"; references = some "a"; subject = "s"; from = "f"; date = "d" }

abbrev thread : ThreadView
thread = record {
  subject = "s";
  root_message_id = "a";
  article_count = 1;
  root = node "a" none nil 0;
  last_post_date = none;
  last_post_date_relative = none;
}

abbrev cached : CachedThreads
cached = record { threads = thread ∷ []; last_article_number = 7 }

abbrev directory : Directory
directory = record { group_servers = []; posting_servers = []; groups_cache = none }

abbrev answers : List (Result (List HdrArticleData) NntpError)
answers = ok (reply ∷ []) ∷ []

abbrev before : Updates hdr_fields dates number first_key 5 timeago lists single
unfolding map_cache
before = record {
  last_check = [];
  threads = record {
    threads_cache = ("g", cached) ∷ [];
    thread_cache = [];
    group_hwm = ("g", 7) ∷ [];
  };
}

abbrev after : Option (Updates hdr_fields dates number first_key 5 timeago lists single)
after =
    trigger_incremental_update hdr_fields dates number first_key 5 timeago lists single answers
      directory 20 before "g"

abbrev or_before :
    Option (Updates hdr_fields dates number first_key 5 timeago lists single)
    → Updates hdr_fields dates number first_key 5 timeago lists single
or_before none = before
or_before (some s) = s

abbrev or_cached : Option CachedThreads → CachedThreads
or_cached none = cached
or_cached (some c) = c

abbrev held : CachedThreads
held = or_cached (lists.get (or_before after).threads.threads_cache "g")

updated : (or_before after).threads.group_hwm ≡ ("g", 8) ∷ []
unfolding map_cache trigger_incremental_update get_new_articles_coalesced should_check_incremental
    lookup insert get_group_hwm update_group_hwm get_new_articles try_servers get_servers_for_group
    count_up store_merged max_number merge_articles_into_threads build_threads build_each
    group_by_root sort_entries hdr_fields find_root ref_ids split_whitespace is_whitespace by_root
    collect_message_ids_to_root ids_to_root
updated = refl

trigger_incremental_update_keeps_example :
    ((other : String)
      → get_group_hwm before.threads.group_hwm other
        ≤ get_group_hwm (or_before after).threads.group_hwm other)
    × (later : ThreadView) × In hdr_fields dates later held.threads
    × Extends hdr_fields dates thread later
unfolding map_cache trigger_incremental_update get_new_articles_coalesced should_check_incremental
    lookup insert get_group_hwm update_group_hwm get_new_articles try_servers get_servers_for_group
    count_up store_merged max_number merge_articles_into_threads build_threads build_each
    group_by_root sort_entries hdr_fields find_root ref_ids split_whitespace is_whitespace by_root
    collect_message_ids_to_root ids_to_root
trigger_incremental_update_keeps_example =
    trigger_incremental_update_keeps hdr_fields dates number first_key 5 timeago lists single
      answers directory 20 before (or_before after) "g" cached held thread refl refl refl (inl refl)
      refl
