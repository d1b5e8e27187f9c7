-- ===== src/Overview/Terminates.antt =====
-- When the recursion over the references ends. It does when each entry stands, in some order, above
-- the message it answers; an entry that answers itself makes it run for ever.
use september.Base.{
  ℕ, zero, suc, ◌+◌, ◌≤◌, ◌<◌, ◌≡◌, refl, false, Option, none, some, List, [], ◌∷◌, String, Map,
  lookup, insert, arith, All, Option-cases, inl, inr, str_eq_refl,
}
use september.Overview.{Fields, Dates, or_empty, push}
use september.Overview.Multimap.{Everywhere, Everywhere-push, EveryList, EveryList-group_by_root}
use september.Overview.Words.{direct_parent, root_id, is_blank, split_whitespace}
use september.Overview.Build.{
  find_entry, group_by_root, group_by_parent, with_parent, build_children, build_node,
  build_thread_tree, article_of, count_descendants, make_thread, build_thread, build_each,
  build_threads,
}
use september.Thread.{ThreadNodeView, Replies, ThreadView, node, nil, cons}

module _ {E : Type 0} (fields : Fields E) (rank : String → ℕ) (depth : ℕ) where
  -- An entry is ranked above the message that it answers.
  abbrev pub IsRanked : E → Type 0
  IsRanked entry =
      (id parent : String)
      → fields.message_id entry ≡ some id
      → direct_parent (fields.references entry) ≡ some parent
      → (rank parent < rank id) × (rank id < depth)

  -- A child stands above the message under which it is filed.
  abbrev Above : String → E → Type 0
  Above parent entry =
      (id : String)
      → fields.message_id entry ≡ some id
      → (rank parent < rank id) × (rank id < depth)

  Above-with_parent :
      (entry : E) (m : Map (List E))
      → IsRanked entry
      → Everywhere Above m
      → Everywhere Above (
          with_parent fields entry
            (fields.message_id entry)
            (direct_parent (fields.references entry))
            m)
  unfolding group_by_parent
  Above-with_parent entry m ranked all = elim (Option-cases (fields.message_id entry)) [
    | inl anonymous ↦ rw anonymous all
    | inr (id, named) ↦ elim (Option-cases (direct_parent (fields.references entry))) [
      | inl root ↦ rw (named, root) all
      | inr (parent, answers) ↦
          rw (named, answers)
            (Everywhere-push Above parent entry m all (λ id' e. ranked id' parent e answers))
    ]
  ]

  group_by_parent-Above :
      (entries : List E) (m : Map (List E))
      → All IsRanked entries
      → Everywhere Above m
      → Everywhere Above (group_by_parent fields entries m)
  unfolding group_by_parent
  group_by_parent-Above [] m ranked all = all
  group_by_parent-Above (entry ∷ entries) m ranked all =
      group_by_parent-Above entries
        (with_parent fields entry (fields.message_id entry)
          (direct_parent (fields.references entry)) m)
        ranked.1 (Above-with_parent entry m ranked.0 all)

  module _ (dates : Dates) where
    build_children_total :
        (build : String → Option ThreadNodeView) (parent : String) (children : List E)
        → All (Above parent) children
        → ((id : String)
            → rank parent < rank id
            → rank id < depth
            → (t : ThreadNodeView) × (build id ≡ some t))
        → (rs : Replies) × (build_children fields dates build children ≡ some rs)
    unfolding build_node
    build_children_total build parent [] above total = (nil, refl)
    build_children_total build parent (child ∷ children) above total =
        let (rest, others) = build_children_total build parent children above.1 total in
        elim (Option-cases (fields.message_id child)) [
          | inl anonymous ↦ (rest, rw anonymous others)
          | inr (id, named) ↦
              let (lower, inside) = above.0 id named in
              let (t, built) = total id lower inside in
              (cons t rest, rw (named, built, others) refl)
        ]

    build_node_total :
        (fuel : ℕ) (id : String) (entries : List E) (m : Map (List E))
        → Everywhere Above m
        → depth < rank id + fuel
        → suc 0 ≤ fuel
        → (t : ThreadNodeView) × (build_node fields dates fuel id entries m ≡ some t)
    unfolding build_node
    build_node_total zero id entries m above h positive = absurd (omega arith)
    build_node_total (suc fuel) id entries m above h positive =
        let (rs, built) =
          build_children_total (λ child_id. build_node fields dates fuel child_id entries m) id
            (or_empty (lookup id m)) (above id)
            (λ child_id lower inside.
              build_node_total fuel child_id entries m above (omega arith) (omega arith)) in
        (
          node id (article_of fields dates (find_entry fields id entries)) rs
              (count_descendants rs),
          rw built refl,
        )

    build_each_total :
        (m : Map (List E))
        → EveryList IsRanked m
        → (threads : List ThreadView) × (build_each fields dates (suc depth) m ≡ some threads)
    unfolding build_each build_thread build_thread_tree lookup
    build_each_total [] ranked = ([], refl)
    build_each_total ((root, entries) ∷ m) ranked =
        let (rest, others) = build_each_total m ranked.1 in
        let children = group_by_parent fields entries [] in
        let (tree, grown) =
          build_node_total (suc depth) root entries children
            (group_by_parent-Above entries [] ranked.0 (λ key. tt)) (omega arith) (omega arith) in
        (make_thread fields dates root entries tree ∷ rest, rw (grown, others) refl)

    -- When the entries are ranked, each above the message that it answers and below `depth`, a
    -- stack of that depth and one more is enough: the thread list is built.
    pub build_threads_total :
        (entries : List E)
        → All IsRanked entries
        → (threads : List ThreadView) × (build_threads fields dates (suc depth) entries
            ≡ some threads)
    unfolding build_threads
    build_threads_total entries ranked =
        build_each_total (group_by_root fields entries [])
          (EveryList-group_by_root fields IsRanked entries [] ranked tt)

module _ {E : Type 0} (fields : Fields E) (dates : Dates) where
  lookup_single : (id : String) (entry : E) → lookup id ((id, entry ∷ []) ∷ []) ≡ some (entry ∷ [])
  unfolding lookup
  lookup_single id entry = rw (str_eq_refl id, lookup) refl

  build_node_self :
      (fuel : ℕ) (id : String) (entry : E) (entries : List E)
      → fields.message_id entry ≡ some id
      → build_node fields dates fuel id entries ((id, entry ∷ []) ∷ []) ≡ none
  unfolding build_node
  build_node_self zero id entry entries named = refl
  build_node_self (suc fuel) id entry entries named =
      rw (lookup_single id entry, named, build_node_self fuel id entry entries named) refl

  grouped_self :
      (entry : E) (id refs : String)
      → fields.message_id entry ≡ some id
      → root_id (fields.references entry) id ≡ id
      → group_by_root fields (entry ∷ []) [] ≡ (id, entry ∷ []) ∷ []
  unfolding group_by_root push lookup insert
  grouped_self entry id refs named rooted = rw (named, rooted) refl

  children_self :
      (entry : E) (id refs : String)
      → fields.message_id entry ≡ some id
      → direct_parent (fields.references entry) ≡ some id
      → group_by_parent fields (entry ∷ []) [] ≡ (id, entry ∷ []) ∷ []
  unfolding group_by_parent push lookup insert
  children_self entry id refs named parent = rw (named, parent) refl

  -- A single entry that is its own root and its own direct parent, one whose References header is
  -- its own message id, is never built: the recursion exhausts every depth.
  pub build_threads_self_reference :
      (depth : ℕ) (entry : E) (id refs : String)
      → fields.message_id entry ≡ some id
      → fields.references entry ≡ some refs
      → is_blank refs ≡ false
      → split_whitespace refs ≡ id ∷ []
      → build_threads fields dates depth (entry ∷ []) ≡ none
  unfolding build_threads build_each build_thread build_thread_tree root_id direct_parent
  build_threads_self_reference depth entry id refs named refers visible words =
      let root : root_id (fields.references entry) id ≡ id = rw (refers, visible, words) refl in
      let parent : direct_parent (fields.references entry) ≡ some id =
        rw (refers, visible, words) refl in
      let looped = build_node_self depth id entry (entry ∷ []) named in
      rw (grouped_self entry id refs named root, children_self entry id refs named parent, looped)
        refl
