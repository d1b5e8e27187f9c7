-- ===== src/Overview/Counts.antt =====
-- The counts of a thread list that is built: every entry is counted in one thread, and every
-- cached descendant count is right.
use september.Base.{
  ℕ, zero, suc, ◌+◌, ◌≡◌, refl, Option, none, some, List, [], ◌∷◌, ◌++◌, String, Map, lookup,
  insert, arith, ◌>>=◌, length, length-append, All, Option-cases, inl, inr, ap, subst,
}
use september.Overview.{Fields, Dates, or_empty, push}
use september.Overview.Words.{root_id}
use september.Overview.Build.{
  count_descendants, find_entry, group_by_root, with_root, group_by_parent, build_child,
  build_children, build_node, build_thread_tree, make_thread, build_thread, build_each,
  build_threads, article_of,
}
use september.Thread.{ThreadNodeView, Replies, ThreadView, node, nil, cons, size, size_replies}
use september.Thread.Collapse.{IsCounted, AreCounted}

pub bind_inverse :
    {A B : Type 0} (o : Option A) (f : A → Option B) (b : B)
    → (o >>= f) ≡ some b
    → (a : A) × (o ≡ some a) × (f a ≡ some b)
bind_inverse none f b h = cc
bind_inverse (some a) f b h = (a, refl, h)

-- The number of values under all keys.
abbrev pub total : {V : Type 0} → Map (List V) → ℕ
total [] = 0
total ((key, vs) ∷ m) = length vs + total m

abbrev pub size_of : {V : Type 0} → Option (List V) → ℕ
size_of none = 0
size_of (some vs) = length vs

total-insert :
    {V : Type 0} (key : String) (vs : List V) (m : Map (List V))
    → total (insert key vs m) + size_of (lookup key m) ≡ total m + length vs
unfolding insert lookup
total-insert key vs [] = omega arith
total-insert key vs ((first, old) ∷ m) = ground (arith, total-insert key vs m)

total-push :
    {V : Type 0} (key : String) (v : V) (m : Map (List V)) → total (push key v m) ≡ suc (total m)
unfolding push
total-push key v m = elim (Option-cases (lookup key m)) [
  | inl miss ↦ rw miss (omega (arith, ap size_of miss, total-insert key (v ∷ []) m))
  | inr (vs, hit) ↦
      rw hit (
        omega (arith, ap size_of hit, length-append vs (v ∷ []), total-insert key (vs ++ v ∷ []) m))
]

count_descendants-AreCounted :
    (rs : Replies) → AreCounted rs → count_descendants rs ≡ size_replies rs
unfolding count_descendants AreCounted size
count_descendants-AreCounted nil h = refl
count_descendants-AreCounted (cons (node i a below n) rs) h =
    omega (arith, h.0.0, count_descendants-AreCounted rs h.1)

module _ {E : Type 0} (fields : Fields E) where
  abbrev has_id : Option String → ℕ
  has_id none = 0
  has_id (some id) = 1

  -- The entries that have a message id.
  abbrev pub count_identified : List E → ℕ
  count_identified [] = 0
  count_identified (entry ∷ entries) = has_id (fields.message_id entry) + count_identified entries

  total-with_root :
      (entry : E) (id : Option String) (m : Map (List E))
      → total (with_root fields entry id m) ≡ has_id id + total m
  unfolding group_by_root
  total-with_root entry none m = omega arith
  total-with_root entry (some id) m =
      omega (arith, total-push (root_id (fields.references entry) id) entry m)

  total-group_by_root :
      (entries : List E) (m : Map (List E))
      → total (group_by_root fields entries m) ≡ count_identified entries + total m
  unfolding group_by_root
  total-group_by_root [] m = omega arith
  total-group_by_root (entry ∷ entries) m = omega (
    arith,
    total-group_by_root entries (with_root fields entry (fields.message_id entry) m),
    total-with_root entry (fields.message_id entry) m,
  )

  module _ (dates : Dates) where
    build_children-AreCounted :
        (build : String → Option ThreadNodeView) (children : List E) (rs : Replies)
        → ((id : String) (t : ThreadNodeView) → build id ≡ some t → IsCounted t)
        → build_children fields dates build children ≡ some rs
        → AreCounted rs
    unfolding build_node AreCounted
    build_children-AreCounted build [] rs good h =
        let same : nil ≡ rs = cc in subst AreCounted same tt
    build_children-AreCounted build (child ∷ children) rs good h =
        with_id (fields.message_id child)
          (λ rest e. build_children-AreCounted build children rest good e) h
      where
        with_id :
            (id : Option String)
            → ((rest : Replies)
                → build_children fields dates build children ≡ some rest
                → AreCounted rest)
            → build_child fields dates build id (build_children fields dates build children)
              ≡ some rs
            → AreCounted rs
        with_id none below h' = below rs h'
        with_id (some id) below h' =
            let (t, built, later) = bind_inverse (build id) _ rs h' in
            let (rest, others, final) =
              bind_inverse (build_children fields dates build children) _ rs later in
            let same : cons t rest ≡ rs = cc in
            subst AreCounted same (good id t built, below rest others)

    build_node-IsCounted :
        (depth : ℕ) (id : String) (entries : List E) (m : Map (List E)) (t : ThreadNodeView)
        → build_node fields dates depth id entries m ≡ some t
        → IsCounted t
    unfolding build_node IsCounted
    build_node-IsCounted zero id entries m t h = cc
    build_node-IsCounted (suc depth) id entries m t h =
        let (rs, built, final) =
          bind_inverse
            (build_children fields dates
              (λ child_id. build_node fields dates depth child_id entries m)
              (or_empty (lookup id m)))
            _ t h in
        let counted : AreCounted rs =
          build_children-AreCounted (λ child_id. build_node fields dates depth child_id entries m)
            (or_empty (lookup id m)) rs
            (λ child_id t' h'. build_node-IsCounted depth child_id entries m t' h') built in
        let same : node id (article_of fields dates (find_entry fields id entries)) rs
              (count_descendants rs)
            ≡ t =
          cc in
        subst IsCounted same (count_descendants-AreCounted rs counted, counted)

    abbrev pub sum_counts : List ThreadView → ℕ
    sum_counts [] = 0
    sum_counts (thread ∷ threads) = thread.article_count + sum_counts threads

    build_each_lem :
        (depth : ℕ) (m : Map (List E)) (threads : List ThreadView)
        → build_each fields dates depth m ≡ some threads
        → (sum_counts threads ≡ total m) × All (λ thread. IsCounted thread.root) threads
    unfolding build_each build_thread build_thread_tree
    build_each_lem depth [] threads h =
        let same : [] ≡ threads = cc in
        subst (λ ts. (sum_counts ts ≡ 0) × All (λ thread. IsCounted thread.root) ts) same (refl, tt)
    build_each_lem depth ((root, entries) ∷ m) threads h =
        let (thread, built, later) =
          bind_inverse (build_thread fields dates depth root entries) _ threads h in
        let (rest, others, final) =
          bind_inverse (build_each fields dates depth m) _ threads later in
        let (tree, grown, made) =
          bind_inverse (build_thread_tree fields dates depth root entries) _ thread built in
        let (sums, counted) = build_each_lem depth m rest others in
        let same : make_thread fields dates root entries tree ≡ thread = cc in
        let all : thread ∷ rest ≡ threads = cc in
        let count : length entries ≡ thread.article_count = ap (λ t. t.article_count) same in
        subst (λ ts. (sum_counts ts ≡ length entries + total m) × All (λ t. IsCounted t.root) ts)
          all
          (
            omega (arith, count, sums),
            (
              subst (λ t. IsCounted t.root) same
                  (build_node-IsCounted depth root entries (group_by_parent fields entries []) tree
                    grown),
              counted,
            ),
          )

    -- The threads that are built count every entry with a message id exactly once, and each cached
    -- descendant count in their trees is the number of nodes below.
    pub build_threads_counts :
        (depth : ℕ) (entries : List E) (threads : List ThreadView)
        → build_threads fields dates depth entries ≡ some threads
        → (sum_counts threads ≡ count_identified entries)
          × All (λ thread. IsCounted thread.root) threads
    unfolding build_threads
    build_threads_counts depth entries threads h =
        let (sums, counted) = build_each_lem depth (group_by_root fields entries []) threads h in
        (omega (arith, sums, total-group_by_root entries []), counted)
