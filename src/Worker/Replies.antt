-- ===== src/Worker/Replies.antt =====
-- Every request that a worker handles gets an answer, and what some of the answers say.
use september.Base.{
  ℕ, suc, ◌-◌, ◌≤◌, ◌<◌, min, ◌≡◌, Option, none, some, List, String, word, arith, ◌⊎◌,
}
use september.Base.Text.{Text}
use september.Federated.{NntpError, Result}
use september.Worker.Messages.{NntpRequest, get_threads, NntpResponse, ReplyType, respond}
use september.Federated.Listing.{Ordering}
use september.Overview.{Fields, Dates, HdrArticleData}
use september.Overview.Build.{build_threads, build_threads_from_hdr}
use september.Thread.{ThreadView}
use september.Worker.Client.{GroupInfo, Client}
use september.Worker.Fetching.{Fetch}
use september.Worker.Requests.{range_start, max_articles_per_request}

-- When the group's last number is below 2 ^ 64 - 1, the range that GetThreads asks for starts at 1
-- or later and has as many numbers as the least of what it wants, what the group has, what a
-- request may have, and the last number.
pub range_start_bounds :
    (count : ℕ) (stats : GroupInfo)
    → suc stats.last < word
    → (1 ≤ range_start count stats)
      × (suc stats.last - range_start count stats
          ≡ min (min (min count stats.count) max_articles_per_request) stats.last)
unfolding range_start
range_start_bounds count stats h = (omega arith, omega arith)

-- The sender of the request is sent something.
abbrev pub IsAnswered : (E : Type 0) → NntpRequest → Result (NntpResponse E) NntpError → Type 0
IsAnswered E request result =
    (answer : Result (ReplyType E request) NntpError) × (respond request result ≡ some answer)

-- How the building or the sort of threads can fail to return.
pub data Breaks {S E : Type 0} (fields : Fields E) (dates : Dates) (depth : ℕ) (fetch : Fetch S)
    : Type 0 where
  overview_overflow :
      (entries : List E)
      → build_threads fields dates depth entries ≡ none
      → Breaks fields dates depth fetch
  hdr_overflow :
      (articles : List HdrArticleData)
      → build_threads_from_hdr dates depth articles ≡ none
      → Breaks fields dates depth fetch
  head_breaks :
      (first last : ℕ) (s : S)
      → fetch.via_head first last s ≡ none
      → Breaks fields dates depth fetch
  sort_panics :
      (order : ThreadView → ThreadView → Ordering) (views : List ThreadView)
      → fetch.sort_by order views ≡ none
      → Breaks fields dates depth fetch

module _ {S E : Type 0} (client : Client S E) (fields : Fields E) (dates : Dates) (depth : ℕ)
    (fetch : Fetch S) where
  abbrev Broken : Type 0
  Broken = Breaks fields dates depth fetch

  -- The worker handles the request with an answer, or the request is for threads and their building or
  -- sort does not return.
  abbrev pub IsReplied : NntpRequest → Option (Result (NntpResponse E) NntpError × S) → Type 0
  IsReplied request handled =
      ((result : Result (NntpResponse E) NntpError) × (s : S) × (handled ≡ some (result, s))
        × IsAnswered E request result)
      ⊎ (((group : String) × (count : ℕ) × (request ≡ get_threads group count)) × Broken)
