-- ===== src/Overview/Merge.antt =====
-- merge_articles_into_thread and merge_articles_into_threads.
use september.Base.{
  ℕ, ◌+◌, ◌||◌, Bool, false, Option, none, some, List, [], ◌∷◌, ◌++◌, String, Map, lookup, insert,
  if◌then◌else◌, ◌>>=◌, length,
}
use september.Overview.{Fields, Dates, push}
use september.Overview.Words.{ref_ids, last}
use september.Overview.Build.{to_article_view, find_latest_date, build_threads}
use september.Thread.{ThreadNodeView, Replies, ThreadView, node, nil, cons, add_reply_to_node}
use september.Thread.Ids.{is_member, collect_all_message_ids}

-- refs.split_whitespace().any(|ref_id| known_ids.contains(ref_id))
abbrev pub names_known : List String → List String → Bool
names_known known [] = false
names_known known (id ∷ ids) = is_member id known || names_known known ids

abbrev pub or_date : Option String → Option String → Option String
or_date none old = old
or_date (some latest) old = some latest

-- .find_map(|ref_id| msg_to_root.get(ref_id).cloned())
unfoldable pub find_root : Map String → List String → Option String
find_root msg_to_root [] = none
find_root msg_to_root (id ∷ ids) = elim (lookup id msg_to_root) [
  | some root ↦ some root
  | none ↦ find_root msg_to_root ids
]

unfoldable mutual
  pub collect_message_ids_to_root : ThreadNodeView → String → Map String → Map String
  collect_message_ids_to_root (node i a rs n) root m =
      collect_replies_to_root rs root (insert i root m)

  pub collect_replies_to_root : Replies → String → Map String → Map String
  collect_replies_to_root nil root m = m
  collect_replies_to_root (cons t rs) root m =
      collect_replies_to_root rs root (collect_message_ids_to_root t root m)

module _ {E : Type 0} (fields : Fields E) (dates : Dates) where
  abbrev pub new_node : E → String → ThreadNodeView
  new_node entry msg_id = node msg_id (some (to_article_view fields dates entry)) nil 0

  unfoldable pub add_to_parent : Option String → ThreadNodeView → ThreadNodeView → ThreadNodeView
  add_to_parent none reply root = root
  add_to_parent (some parent) reply root = (add_reply_to_node root parent reply).0

  -- The entries that name a message of the thread.
  unfoldable pub relevant_entries : List String → List E → List E
  relevant_entries known [] = []
  relevant_entries known (entry ∷ entries) =
      let rest = relevant_entries known entries in
      if names_known known (ref_ids (fields.references entry)) then entry ∷ rest else rest

  pub add_new : List String → E → Option String → ThreadNodeView → ThreadNodeView
  add_new known entry none root = root
  add_new known entry (some msg_id) root =
      if is_member msg_id known
      then root
      else add_to_parent (last (ref_ids (fields.references entry))) (new_node entry msg_id) root

  -- for entry in &relevant_entries
  unfoldable pub add_entries : List String → List E → ThreadNodeView → ThreadNodeView
  unfolding add_new
  add_entries known [] root = root
  add_entries known (entry ∷ entries) root =
      add_entries known entries (add_new known entry (fields.message_id entry) root)

  pub add_relevant : List String → List E → ThreadView → ThreadView
  add_relevant known [] existing = existing
  add_relevant known (entry ∷ entries) existing = record existing {
    root = add_entries known (entry ∷ entries) existing.root;
    article_count = existing.article_count + length (entry ∷ entries);
    last_post_date =
        or_date (find_latest_date fields dates (entry ∷ entries)) existing.last_post_date;
  }

  unfoldable pub merge_articles_into_thread : ThreadView → List E → Option ThreadView
  unfolding add_relevant
  merge_articles_into_thread existing [] = some existing
  merge_articles_into_thread existing (entry ∷ entries) =
      collect_all_message_ids existing.root
      >>= (λ known. some (add_relevant known (relevant_entries known (entry ∷ entries)) existing))

  -- What the loop over the new entries of merge_articles_into_threads holds.
  pub record Sorted : Type 0 where
    pub msg_to_root : Map String
    pub updates_by_thread : Map (List E)
    pub new_roots : List E

  -- `keys_last` stands for updates_by_thread.keys().last(), any key of the map.
  module _ (keys_last : Map (List E) → String) where
    pub sort_entry : Map ThreadView → E → String → Option String → Sorted → Sorted
    sort_entry threads_by_root entry msg_id (some root) s =
        let updates = push root entry s.updates_by_thread in
        record s {
          updates_by_thread = updates;
          msg_to_root = insert msg_id (keys_last updates) s.msg_to_root;
        }
    sort_entry threads_by_root entry msg_id none s = elim (lookup msg_id threads_by_root) [
      | some thread ↦ record s { updates_by_thread = push msg_id entry s.updates_by_thread }
      | none ↦ record s { new_roots = s.new_roots ++ entry ∷ [] }
    ]

    pub sort_identified : Map ThreadView → E → Option String → Sorted → Sorted
    sort_identified threads_by_root entry none s = s
    sort_identified threads_by_root entry (some msg_id) s =
        sort_entry threads_by_root entry msg_id
          (find_root s.msg_to_root (ref_ids (fields.references entry))) s

    -- for entry in &new_entries
    unfoldable pub sort_entries : Map ThreadView → List E → Sorted → Sorted
    unfolding sort_identified sort_entry
    sort_entries threads_by_root [] s = s
    sort_entries threads_by_root (entry ∷ entries) s =
        sort_entries threads_by_root entries
          (sort_identified threads_by_root entry (fields.message_id entry) s)

    pub add_update : E → Option String → ThreadNodeView → ThreadNodeView
    add_update entry none root = root
    add_update entry (some msg_id) root =
        add_to_parent (last (ref_ids (fields.references entry))) (new_node entry msg_id) root

    unfoldable pub add_updates : List E → ThreadNodeView → ThreadNodeView
    unfolding add_update
    add_updates [] root = root
    add_updates (entry ∷ entries) root =
        add_updates entries (add_update entry (fields.message_id entry) root)

    unfoldable pub update_thread : List E → ThreadView → ThreadView
    update_thread entries thread = record thread {
      root = add_updates entries thread.root;
      article_count = thread.article_count + length entries;
      last_post_date = or_date (find_latest_date fields dates entries) thread.last_post_date;
    }

    pub update_found : String → List E → Option ThreadView → Map ThreadView → Map ThreadView
    update_found root entries none threads = threads
    update_found root entries (some thread) threads =
        insert root (update_thread entries thread) threads

    -- for (root_id, entries) in updates_by_thread
    unfoldable pub update_threads : Map (List E) → Map ThreadView → Map ThreadView
    unfolding update_found
    update_threads [] threads = threads
    update_threads ((root, entries) ∷ updates) threads =
        update_threads updates (update_found root entries (lookup root threads) threads)

    unfoldable pub by_root : List ThreadView → Map ThreadView → Map ThreadView
    by_root [] m = m
    by_root (t ∷ threads) m = by_root threads (insert t.root_message_id t m)

    unfoldable pub ids_to_root : List ThreadView → Map String → Map String
    ids_to_root [] m = m
    ids_to_root (t ∷ threads) m =
        ids_to_root threads (collect_message_ids_to_root t.root t.root_message_id m)

    abbrev pub values : Map ThreadView → List ThreadView
    values [] = []
    values ((key, value) ∷ m) = value ∷ values m

    -- The threads after the merge; those that are new are built with a stack of depth `depth`.
    unfoldable pub merge_articles_into_threads :
        ℕ → List ThreadView → List E → Option (List ThreadView)
    merge_articles_into_threads depth existing [] = some existing
    merge_articles_into_threads depth existing (entry ∷ entries) =
        let threads_by_root = by_root existing [] in
        let s = sort_entries threads_by_root (entry ∷ entries) (record {
          msg_to_root = ids_to_root existing [];
          updates_by_thread = [];
          new_roots = [];
        }) in
        build_threads fields dates depth s.new_roots >>= (λ new_threads.
          some (values (update_threads s.updates_by_thread threads_by_root) ++ new_threads))
