-- ===== src/Federated/ThreadExamples.antt =====
-- Tests of the cached threads and instances of their theorems.
use september.Base.{
  ℕ, suc, List, ◌≡◌, refl, false, Option, none, some, [], ◌∷◌, String, lookup, insert, length,
}
use september.Federated.{AppError, article_not_found, Result, err, Cache}
use september.Federated.Caches.{map_cache}
use september.Federated.Groups.{Directory}
use september.Federated.Threads.{
  CachedThreads, CachedThread, State, find_by_root, find_thread, inject_reply, get_thread,
}
use september.Federated.Listing.{
  IsNewestFirst, sort_threads, dated, sort_threads-IsNewestFirst, insert_thread, compare_dates,
  parsed,
}
use september.Federated.Injection.{IsAbout, HasReply, get_thread_sound, inject_reply_listed}
use september.Thread.{ArticleView, ThreadView, node, nil, cons, size, contains_message_id}
use september.Thread.Search.{has_id}

abbrev lists : Cache CachedThreads
lists = map_cache CachedThreads

abbrev single : Cache CachedThread
single = map_cache CachedThread

abbrev thread : ThreadView
thread = record {
  subject = "s";
  root_message_id = "a";
  article_count = 2;
  root = node "a" none (cons (node "b" none nil 0) nil) 1;
  last_post_date = none;
  last_post_date_relative = none;
}

abbrev cached : CachedThreads
cached = record { threads = thread ∷ []; last_article_number = 7 }

abbrev timeago : String → String
timeago date = date

abbrev state : State timeago lists single
unfolding map_cache
state = record { threads_cache = ("g", cached) ∷ []; thread_cache = []; group_hwm = [] }

abbrev directory : Directory
directory = record { group_servers = []; posting_servers = []; groups_cache = none }

abbrev or_missing :
    Option (State timeago lists single × Result ThreadView AppError)
    → State timeago lists single × Result ThreadView AppError
or_missing none = (state, err (article_not_found ""))
or_missing (some r) = r

abbrev answer : State timeago lists single × Result ThreadView AppError
answer = or_missing (get_thread timeago lists single [] directory none state "g" "b")

get_thread_sound_example : IsAbout "b" thread
unfolding map_cache get_thread lookup find_thread contains_message_id size
get_thread_sound_example =
    get_thread_sound timeago lists single [] directory none state "g" "b" answer thread refl refl
      refl

abbrev article : ArticleView
article = record {
  message_id = "c";
  subject = "s";
  from = "f";
  date = "d";
  date_relative = "r";
  body = none;
  body_preview = none;
  has_more_content = false;
  headers = none;
}

abbrev or_empty : Option CachedThreads → CachedThreads
or_empty none = record { threads = []; last_article_number = 0 }
or_empty (some c) = c

abbrev injected : CachedThreads
injected =
    or_empty
      (lists.get (inject_reply timeago lists single state "g" "a" "b" article).threads_cache "g")

inject_reply_listed_example :
    (length injected.threads ≡ 1)
    × ((t : ThreadView) × (find_by_root "a" injected.threads ≡ some t)
        × HasReply timeago lists single thread t "c")
unfolding map_cache inject_reply lookup insert find_by_root has_id
inject_reply_listed_example =
    inject_reply_listed timeago lists single state "g" "a" "b" article cached injected thread refl
      refl refl refl

-- A thread with a date, which is read as its length.
abbrev on : String → String → ThreadView
on id date = record thread { root_message_id = id; last_post_date = some date }

abbrev str_length : String → ℕ
str_length String.[] = 0
str_length (String.◌∷◌ c s) = suc (str_length s)

abbrev instant : String → Option ℕ
instant String.[] = none
instant (String.◌∷◌ c s) = some (str_length s)

abbrev listed : List ThreadView
listed = on "a" "1" ∷ on "b" "333" ∷ on "c" "" ∷ on "d" "111" ∷ []

-- The thread without a date comes first, and those of one date stay as they were.
sort_threads_test :
    sort_threads instant listed ≡ (on "c" "" ∷ on "b" "333" ∷ on "d" "111" ∷ on "a" "1" ∷ [])
unfolding sort_threads insert_thread compare_dates parsed
sort_threads_test = refl

sort_threads-IsNewestFirst_example :
    IsNewestFirst instant (sort_threads instant listed)
    × ((date : Option ℕ)
        → dated instant date (sort_threads instant listed) ≡ dated instant date listed)
sort_threads-IsNewestFirst_example = sort_threads-IsNewestFirst instant listed
