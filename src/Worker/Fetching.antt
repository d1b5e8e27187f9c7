-- ===== src/Worker/Fetching.antt =====
-- How the worker of src/nntp/worker.rs fetches, builds and sorts the threads of a group. `none` is a
-- stack that overflows in the building, or a panic of the sort.
use september.Base.{
  ℕ, Bool, true, Option, none, some, List, [], ◌∷◌, ◌++◌, String, Map, lookup, insert, ◌==◌, ◌>>=◌,
  if◌then◌else◌,
}
use september.Base.Text.{Text, codes}
use september.Federated.{Result, ok, err}
use september.Federated.Listing.{Ordering}
use september.Overview.{Fields, Dates, HdrArticleData, default_subject}
use september.Overview.Build.{build_threads, build_threads_from_hdr}
use september.Thread.{ThreadView}
use september.Worker.{ThreadFetchMethod, hdr, over, head}
use september.Worker.Client.{HdrEntry, Client}
use september.Worker.Order.{compare_last_posts}

-- The entries' values by article number, a later one in place of an earlier one.
abbrev pub by_article : List HdrEntry → Map String → Map String
by_article [] values = values
by_article (entry ∷ entries) values = by_article entries (insert entry.article entry.value values)

abbrev pub or_text : Option String → String → String
or_text none default = default
or_text (some value) default = value

-- parse().unwrap_or(0) == 0
abbrev pub is_no_number : Option ℕ → Bool
is_no_number none = true
is_no_number (some n) = n == 0

-- The values of the four other fields.
pub record HdrMaps : Type 0 where
  pub refs_map : Map String
  pub subjects_map : Map String
  pub froms_map : Map String
  pub dates_map : Map String

-- What else is used: str::parse for u64, slice::sort_by, and fetch_threads_via_head.
pub record Fetch (S : Type 0) : Type 0 where
  pub parse_u64 : String → Option ℕ
  pub sort_by : (ThreadView → ThreadView → Ordering) → List ThreadView → Option (List ThreadView)
  pub via_head : ℕ → ℕ → S → Option (Result (List ThreadView) Text × S)

abbrev pub article_data : HdrMaps → HdrEntry → HdrArticleData
article_data maps entry = record {
  message_id = entry.value;
  references = lookup entry.article maps.refs_map;
  subject = or_text (lookup entry.article maps.subjects_map) default_subject;
  from = or_text (lookup entry.article maps.froms_map) String.[];
  date = or_text (lookup entry.article maps.dates_map) String.[];
}

-- for entry in message_ids
unfoldable pub combine : (String → Option ℕ) → HdrMaps → List HdrEntry → List HdrArticleData
combine parse_u64 maps [] = []
combine parse_u64 maps (entry ∷ entries) =
    let rest = combine parse_u64 maps entries in
    if is_no_number (parse_u64 entry.article) then rest else article_data maps entry ∷ rest

-- The operator `?` on an answer of the client.
unfoldable pub and_then :
    {A B S : Type 0}
    → Result A Text × S
    → (A → S → Option (Result B Text × S))
    → Option (Result B Text × S)
and_then (ok a, s) next = next a s
and_then (err e, s) next = some (err e, s)

module _ {S E : Type 0} (client : Client S E) (fields : Fields E) (dates : Dates) (depth : ℕ)
    (fetch : Fetch S) where
  abbrev pub Views : Type 0
  Views = Option (Result (List ThreadView) Text × S)

  abbrev pub name_error : String → Result (List HdrEntry) Text → Result (List HdrEntry) Text
  name_error field (ok entries) = ok entries
  name_error field (err e) = err (codes "HDR " ++ codes field ++ codes " failed: " ++ e)

  abbrev pub hdr_field : String → ℕ → ℕ → S → Result (List HdrEntry) Text × S
  hdr_field field first last s =
      let (result, s') = client.hdr field first last s in (name_error field result, s')

  -- The threads that were built, if the stack was deep enough.
  abbrev pub answer_views : Option (List ThreadView) → S → Views
  answer_views none s = none
  answer_views (some views) s = some (ok views, s)

  unfoldable pub fetch_threads_via_hdr : ℕ → ℕ → S → Views
  fetch_threads_via_hdr first last s =
      and_then (hdr_field "Message-ID" first last s) (λ message_ids s.
        and_then (hdr_field "References" first last s) (λ references s.
          and_then (hdr_field "Subject" first last s) (λ subjects s.
            and_then (hdr_field "From" first last s) (λ froms s.
              and_then (hdr_field "Date" first last s) (λ date_entries s.
                let maps : HdrMaps = record {
                  refs_map = by_article references [];
                  subjects_map = by_article subjects [];
                  froms_map = by_article froms [];
                  dates_map = by_article date_entries [];
                } in
                answer_views
                  (build_threads_from_hdr dates depth (combine fetch.parse_u64 maps message_ids))
                  s)))))

  unfoldable pub fetch_threads_via_over : ℕ → ℕ → S → Views
  fetch_threads_via_over first last s =
      and_then (client.over first (some last) s)
        (λ entries s. answer_views (build_threads fields dates depth entries) s)

  -- A failure of HDR falls back to OVER.
  abbrev pub or_over : ℕ → ℕ → Result (List ThreadView) Text × S → Views
  or_over first last (ok views, s) = some (ok views, s)
  or_over first last (err e, s) = fetch_threads_via_over first last s

  unfoldable pub fetch_range : ThreadFetchMethod → ℕ → ℕ → S → Views
  fetch_range hdr first last s = fetch_threads_via_hdr first last s >>= or_over first last
  fetch_range over first last s = fetch_threads_via_over first last s
  fetch_range head first last s = fetch.via_head first last s

  abbrev pub newest_first : ThreadView → ThreadView → Ordering
  newest_first a b = compare_last_posts dates.parse_from_rfc2822 a.last_post_date b.last_post_date

  -- The threads in the order of their last posts.
  unfoldable pub sort_views : Result (List ThreadView) Text × S → Views
  sort_views (err e, s) = some (err e, s)
  sort_views (ok views, s) = answer_views (fetch.sort_by newest_first views) s
