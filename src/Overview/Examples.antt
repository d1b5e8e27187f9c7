-- ===== src/Overview/Examples.antt =====
-- Tests of the thread lists and instances of their theorems.
use september.Base.{
  ℕ, subst, ◌<◌, ◌≡◌, refl, true, Option, none, some, List, [], ◌∷◌, String, Map, arith, inl,
  str_eq, lookup, if◌then◌else◌, insert,
}
use september.Overview.{Dates, HdrArticleData, hdr_fields}
use september.Overview.Words.{split_whitespace, is_blank, ref_ids, direct_parent}
use september.Overview.Build.{build_threads, build_each, group_by_root}
use september.Overview.Terminates.{IsRanked, build_threads_total}
use september.Overview.Merge.{
  merge_articles_into_thread, merge_articles_into_threads, by_root, sort_entries, find_root,
  ids_to_root, collect_message_ids_to_root,
}
use september.Overview.Kept.{merge_articles_into_thread_keeps, merge_articles_into_thread_adds}
use september.Thread.{ThreadView, node, nil}
use september.Thread.Search.{has_id}
use september.Base.Text.{is_whitespace}

abbrev dates : Dates
dates = record { parse_from_rfc2822 = λ s. none; compute_timeago = λ s. s }

abbrev article : String → Option String → HdrArticleData
article id references = record {
  message_id = id;
  references = references;
  subject = "s";
  from = "f";
  date = "d";
}

abbrev two : List HdrArticleData
two = article "a" none ∷ article "b" (some " a ") ∷ []

split_test : split_whitespace " a  bc " ≡ "a" ∷ "bc" ∷ []
unfolding split_whitespace is_whitespace
split_test = refl

abbrev the_rank : String → ℕ
the_rank id = if str_eq id "a" then 0 else 1

a-IsRanked : IsRanked hdr_fields the_rank 2 (article "a" none)
unfolding direct_parent hdr_fields
a-IsRanked id parent named answers =
    let clash : ◌≡◌ {A = Option String} none (some parent) = answers in absurd (cc)

b-IsRanked : IsRanked hdr_fields the_rank 2 (article "b" (some " a "))
unfolding direct_parent split_whitespace is_blank is_whitespace hdr_fields
b-IsRanked id parent named answers =
    let is_b : "b" ≡ id = cc in
    let is_a : "a" ≡ parent = cc in
    subst (λ i. (the_rank parent < the_rank i) × (the_rank i < 2)) is_b
      (subst (λ p. (the_rank p < the_rank "b") × (the_rank "b" < 2)) is_a
        (omega arith, omega arith))

build_threads_total_example :
    (threads : List ThreadView) × (build_threads hdr_fields dates 3 two ≡ some threads)
build_threads_total_example =
    build_threads_total hdr_fields the_rank 2 dates two (a-IsRanked, (b-IsRanked, tt))

two_built : (threads : List ThreadView) × (build_threads hdr_fields dates 3 two ≡ some threads)
two_built = build_threads_total hdr_fields the_rank 2 dates two (a-IsRanked, (b-IsRanked, tt))

abbrev thread : ThreadView
thread = record {
  subject = "s";
  root_message_id = "a";
  article_count = 1;
  root = node "a" none nil 0;
  last_post_date = none;
  last_post_date_relative = none;
}

abbrev reply : HdrArticleData
reply = article "c" (some "x a")

reply_merged :
    (merged : ThreadView) × (merge_articles_into_thread hdr_fields dates thread (reply ∷ [])
      ≡ some merged)
reply_merged =
    let (merged, run, same, counted, grows) =
      merge_articles_into_thread_keeps hdr_fields dates thread (reply ∷ []) in
    (merged, run)

merge_articles_into_thread_adds_example : has_id reply_merged.0.root "c" ≡ true
unfolding has_id hdr_fields ref_ids split_whitespace is_whitespace
merge_articles_into_thread_adds_example =
    merge_articles_into_thread_adds hdr_fields dates thread reply_merged.0 (reply ∷ []) reply "c"
      "a" reply_merged.1 (inl refl) refl refl refl

abbrev first_key : {V : Type 0} → Map V → String
first_key [] = ""
first_key ((key, value) ∷ m) = key

abbrev or_nil : Option (List ThreadView) → List ThreadView
or_nil none = []
or_nil (some threads) = threads

abbrev merged : List ThreadView
merged =
    or_nil (merge_articles_into_threads hdr_fields dates first_key 5 (thread ∷ []) (reply ∷ []))

merged_succeeds :
    merge_articles_into_threads hdr_fields dates first_key 5 (thread ∷ []) (reply ∷ [])
    ≡ some merged
unfolding merge_articles_into_threads hdr_fields ref_ids split_whitespace is_whitespace
    build_threads build_each group_by_root sort_entries find_root lookup ids_to_root
    collect_message_ids_to_root insert
merged_succeeds = refl

thread_known : lookup "a" (by_root hdr_fields dates first_key (thread ∷ []) []) ≡ some thread
unfolding lookup by_root insert
thread_known = refl
