-- ===== src/Overview/Build.antt =====
-- build_threads_from_overview and build_threads_from_hdr, one definition over the accessors.
use september.Base.{
  ℕ, zero, suc, ◌+◌, Bool, true, false, Option, none, some, List, [], ◌∷◌, String, str_eq, Map,
  lookup, ltb, if◌then◌else◌, ◌>>=◌, length,
}
use september.Overview.{Fields, Dates, HdrArticleData, hdr_fields, default_subject, or_empty, push}
use september.Overview.Words.{root_id, direct_parent}
use september.Thread.{
  ArticleView, ThreadNodeView, Replies, ThreadView, node, nil, cons, descendant_count,
}

abbrev pub unwrap_or : Option String → String → String
unwrap_or none otherwise = otherwise
unwrap_or (some s) otherwise = s

-- replies.iter().map(|r| 1 + r.descendant_count).sum()
unfoldable pub count_descendants : Replies → ℕ
count_descendants nil = 0
count_descendants (cons t rs) = 1 + descendant_count t + count_descendants rs

abbrev is_id : Option String → String → Bool
is_id none msg_id = false
is_id (some id) msg_id = str_eq id msg_id

module _ {E : Type 0} (fields : Fields E) where
  unfoldable pub find_entry : String → List E → Option E
  find_entry msg_id [] = none
  find_entry msg_id (entry ∷ entries) =
      let later = find_entry msg_id entries in
      if is_id (fields.message_id entry) msg_id then some entry else later

  pub with_root : E → Option String → Map (List E) → Map (List E)
  with_root entry none m = m
  with_root entry (some msg_id) m = push (root_id (fields.references entry) msg_id) entry m

  -- The loop that fills threads_map.
  unfoldable pub group_by_root : List E → Map (List E) → Map (List E)
  unfolding with_root
  group_by_root [] threads_map = threads_map
  group_by_root (entry ∷ entries) threads_map =
      group_by_root entries (with_root entry (fields.message_id entry) threads_map)

  pub with_parent : E → Option String → Option String → Map (List E) → Map (List E)
  with_parent entry (some msg_id) (some parent) m = push parent entry m
  with_parent entry _ _ m = m

  -- The loop that fills children_map.
  unfoldable pub group_by_parent : List E → Map (List E) → Map (List E)
  unfolding with_parent
  group_by_parent [] children_map = children_map
  group_by_parent (entry ∷ entries) children_map = group_by_parent entries (
      with_parent entry (fields.message_id entry) (direct_parent (fields.references entry))
        children_map)

  module _ (dates : Dates) where
    unfoldable pub to_article_view : E → ArticleView
    to_article_view entry =
        let date = unwrap_or (fields.date entry) "" in
        record {
          message_id = unwrap_or (fields.message_id entry) "";
          subject = unwrap_or (fields.subject entry) default_subject;
          from = unwrap_or (fields.from entry) "";
          date = date;
          date_relative = dates.compute_timeago date;
          body = none;
          body_preview = none;
          has_more_content = false;
          headers = none;
        }

    pub article_of : Option E → Option ArticleView
    article_of none = none
    article_of (some entry) = some (to_article_view entry)

    pub build_child :
        (String → Option ThreadNodeView) → Option String → Option Replies → Option Replies
    build_child build none rest = rest
    build_child build (some child_id) rest =
        build child_id >>= (λ child. rest >>= (λ rs. some (cons child rs)))

    -- for child in children
    pub build_children : (String → Option ThreadNodeView) → List E → Option Replies
    build_children build [] = some nil
    build_children build (child ∷ children) =
        build_child build (fields.message_id child) (build_children build children)

    unfoldable pub build_node : ℕ → String → List E → Map (List E) → Option ThreadNodeView
    unfolding build_children build_child article_of
    build_node zero msg_id entries children_map = none
    build_node (suc depth) msg_id entries children_map =
        build_children (λ child_id. build_node depth child_id entries children_map)
          (or_empty (lookup msg_id children_map))
        >>= (λ rs.
            some (node msg_id (article_of (find_entry msg_id entries)) rs (count_descendants rs)))

    unfoldable pub build_thread_tree : ℕ → String → List E → Option ThreadNodeView
    build_thread_tree depth root entries =
        build_node depth root entries (group_by_parent entries [])

    is_later : ℕ → Option (String × ℕ) → Bool
    is_later parsed none = true
    is_later parsed (some (date, best)) = ltb best parsed

    later : String → Option ℕ → Option (String × ℕ) → Option (String × ℕ)
    later date none latest = latest
    later date (some parsed) latest = if is_later parsed latest then some (date, parsed) else latest

    later_entry : Option String → Option (String × ℕ) → Option (String × ℕ)
    later_entry none latest = latest
    later_entry (some date) latest = later date (dates.parse_from_rfc2822 date) latest

    unfoldable pub latest_of : List E → Option (String × ℕ) → Option (String × ℕ)
    unfolding later_entry later is_later
    latest_of [] latest = latest
    latest_of (entry ∷ entries) latest = latest_of entries (later_entry (fields.date entry) latest)

    date_text : Option (String × ℕ) → Option String
    date_text none = none
    date_text (some (date, parsed)) = some date

    unfoldable pub find_latest_date : List E → Option String
    unfolding date_text
    find_latest_date entries = date_text (latest_of entries none)

    first_entry : Option E → List E → Option E
    first_entry (some root) entries = some root
    first_entry none [] = none
    first_entry none (entry ∷ entries) = some entry

    subject_of : Option E → String
    subject_of none = default_subject
    subject_of (some entry) = unwrap_or (fields.subject entry) default_subject

    relative : Option String → Option String
    relative none = none
    relative (some date) = some (dates.compute_timeago date)

    pub make_thread : String → List E → ThreadNodeView → ThreadView
    make_thread root entries tree =
        let last_post_date = find_latest_date entries in
        record {
          subject = subject_of (first_entry (find_entry root entries) entries);
          root_message_id = root;
          article_count = length entries;
          root = tree;
          last_post_date = last_post_date;
          last_post_date_relative = relative last_post_date;
        }

    unfoldable pub build_thread : ℕ → String → List E → Option ThreadView
    unfolding make_thread first_entry subject_of relative
    build_thread depth root entries =
        build_thread_tree depth root entries >>= (λ tree. some (make_thread root entries tree))

    -- for (root_id, thread_entries) in threads_map
    unfoldable pub build_each : ℕ → Map (List E) → Option (List ThreadView)
    build_each depth [] = some []
    build_each depth ((root, entries) ∷ threads_map) =
        build_thread depth root entries
        >>= (λ thread. build_each depth threads_map >>= (λ threads. some (thread ∷ threads)))

    unfoldable pub build_threads : ℕ → List E → Option (List ThreadView)
    build_threads depth entries = build_each depth (group_by_root entries [])

-- The versions for HDR data.
unfoldable pub build_threads_from_hdr : Dates → ℕ → List HdrArticleData → Option (List ThreadView)
build_threads_from_hdr = build_threads hdr_fields

unfoldable pub build_thread_tree_hdr :
    Dates → ℕ → String → List HdrArticleData → Option ThreadNodeView
build_thread_tree_hdr = build_thread_tree hdr_fields

unfoldable pub build_node_from_hdr :
    Dates → ℕ → String → List HdrArticleData → Map (List HdrArticleData) → Option ThreadNodeView
build_node_from_hdr = build_node hdr_fields

unfoldable pub find_latest_date_hdr : Dates → List HdrArticleData → Option String
find_latest_date_hdr = find_latest_date hdr_fields
