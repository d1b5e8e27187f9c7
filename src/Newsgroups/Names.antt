-- ===== src/Newsgroups/Names.antt =====
-- extract_all_group_names and extract_top_level_group_names of src/routes/home.rs: the names of the
-- groups in a tree.
use september.Base.{
  ℕ, ◌≡◌, inl, inr, refl, sym, ◌∙◌, ap, Bool, true, false, ◌||◌, Option, none, some, List, [], ◌∷◌,
  ◌++◌, String, str_eq, str_eq_refl, Map, arith, ◌>>=◌, Bool-cases,
}
use september.Base.Sorting.{sort_by_name}
use september.Federated.Groups.{GroupView}
use september.Overview.Counts.{bind_inverse}
use september.Newsgroups.{
  GroupTreeNode, Nodes, node, nil, cons, segment, full_name, children, new_node, GroupEntry,
  split_dots, entry_of, build_tree_with_stats, find_segment, walk_node,
}
use september.Newsgroups.Scan.{update_first, scan_node, insert_scan}
use september.Newsgroups.Equivalence.{scan_groups, build_tree_with_stats-scan}
use september.Newsgroups.Lookups.{is_group, is_group-sort_by_name, name_at, name_at-scan_groups}

-- The name that a node adds to the list, if it has one.
abbrev name_of : Option String → List String
name_of none = []
name_of (some name) = name ∷ []

unfoldable pub extract_all_group_names : Nodes → List String
extract_all_group_names nil = []
extract_all_group_names (cons (node s f d cs t l) ns) =
    name_of f ++ (extract_all_group_names cs ++ extract_all_group_names ns)

unfoldable pub extract_top_level_group_names : Nodes → List String
extract_top_level_group_names nil = []
extract_top_level_group_names (cons n ns) =
    name_of (full_name n) ++ extract_top_level_group_names ns

-- Whether a list has the name.
unfoldable pub has_name : String → List String → Bool
has_name q [] = false
has_name q (name ∷ names) = str_eq name q || has_name q names

has_name-append :
    (q : String) (a b : List String) → has_name q (a ++ b) ≡ (has_name q a || has_name q b)
unfolding has_name
has_name-append q [] b = refl
has_name-append q (x ∷ a) b = ground (arith, has_name-append q a b)

-- Whether the name stands in a tree, and at a node or below it.
has : String → Nodes → Bool
has q ns = has_name q (extract_all_group_names ns)

has_node : String → GroupTreeNode → Bool
has_node q (node s f d cs t l) = has_name q (name_of f) || has q cs

or_true : (a : Bool) {b : Bool} → b ≡ true → (a || b) ≡ true
or_true true h = refl
or_true false h = h

or_assoc : (a b c : Bool) → (a || (b || c)) ≡ (a || b || c)
or_assoc true b c = refl
or_assoc false b c = refl

has-cons :
    (q : String) (n : GroupTreeNode) (ns : Nodes) → has q (cons n ns) ≡ (has_node q n || has q ns)
unfolding has has_node extract_all_group_names
has-cons q (node s f d cs t l) ns =
    has_name-append q (name_of f) (extract_all_group_names cs ++ extract_all_group_names ns)
    ∙ ap (λ b. has_name q (name_of f) || b)
        (has_name-append q (extract_all_group_names cs) (extract_all_group_names ns))
    ∙ or_assoc (has_name q (name_of f)) (has q cs) (has q ns)

-- Nothing but the entry's name is new after an insertion.
abbrev Adds : Bool → Bool → Bool → Type 0
Adds new after before = after ≡ true → (new || before) ≡ true

combine :
    (new here after before : Bool)
    → (here || after) ≡ true
    → Adds new after before
    → (new || (here || before)) ≡ true
combine true here after before h adds = refl
combine false true after before h adds = refl
combine false false after before h adds = adds h

combine_first :
    (new here after before : Bool)
    → (after || here) ≡ true
    → Adds new after before
    → (new || (before || here)) ≡ true
combine_first true here after before h adds = refl
combine_first false here true before h adds = rw (adds refl) refl
combine_first false here false true h adds = refl
combine_first false here false false h adds = h

has-update_first :
    (q s : String) (new : Bool) (f : GroupTreeNode → GroupTreeNode) (ns : Nodes)
    → ((n : GroupTreeNode) → Adds new (has_node q (f n)) (has_node q n))
    → Adds new (has q (update_first s f ns)) (has q ns)
unfolding update_first has has_node has_name extract_all_group_names
has-update_first q s new f nil adds h =
    let here : (has_node q (f (new_node s)) || has q nil) ≡ true =
      sym (has-cons q (f (new_node s)) nil) ∙ h in
    combine_first new (has q nil) (has_node q (f (new_node s))) (has_node q (new_node s)) here
      (adds (new_node s))
has-update_first q s new f (cons n ns) adds h = elim (Bool-cases (str_eq (segment n) s)) [
  | inl same ↦
      let after : (has_node q (f n) || has q ns) ≡ true =
        sym (has-cons q (f n) ns) ∙ (sym (rw (update_first, same) refl) ∙ h) in
      rw (has-cons q n ns)
        (combine_first new (has q ns) (has_node q (f n)) (has_node q n) after (adds n))
  | inr other ↦
      let after : (has_node q n || has q (update_first s f ns)) ≡ true =
        sym (has-cons q n (update_first s f ns)) ∙ (sym (rw (update_first, other) refl) ∙ h) in
      rw (has-cons q n ns) (
        combine new (has_node q n) (has q (update_first s f ns)) (has q ns) after
          (has-update_first q s new f ns adds))
]

set_name :
    (new here below : Bool) → (new || false || below) ≡ true → (new || (here || below)) ≡ true
set_name true here below h = refl
set_name false true below h = refl
set_name false false below h = h

has-insert_scan :
    (q : String) (e : GroupEntry) (parts : List String) (ns : Nodes)
    → Adds (str_eq e.full_name q) (has q (insert_scan e parts ns)) (has q ns)
unfolding insert_scan has_name has_node scan_node
has-insert_scan q e [] ns h = ground (arith, h)
has-insert_scan q e (s ∷ parts) ns h =
    has-update_first q s (str_eq e.full_name q) (scan_node e parts (insert_scan e parts)) ns
      (at_node parts (has-insert_scan q e parts)) h
  where
    at_node :
        (rs : List String)
        → ((cs : Nodes) → Adds (str_eq e.full_name q) (has q (insert_scan e parts cs)) (has q cs))
        → (n : GroupTreeNode)
        → Adds
            (str_eq e.full_name q)
            (has_node q (scan_node e rs (insert_scan e parts) n))
            (has_node q n)
    at_node [] below (node s f d cs t l) g =
        set_name (str_eq e.full_name q) (has_name q (name_of f)) (has q cs) g
    at_node (r ∷ rs) below (node s f d cs t l) g =
        combine (str_eq e.full_name q) (has_name q (name_of f)) (has q (insert_scan e parts cs))
          (has q cs) g (below cs)

has-scan_groups :
    (q : String) (tc : Map ℕ) (gs : Map (Option String)) (groups : List GroupView) (ns : Nodes)
    → Adds (is_group q groups) (has q (scan_groups tc gs groups ns)) (has q ns)
unfolding scan_groups is_group
has-scan_groups q tc gs [] ns h = h
has-scan_groups q tc gs (g ∷ groups) ns h =
    later (is_group q groups) (str_eq g.name q)
      (has q (insert_scan (entry_of tc gs g) (split_dots g.name) ns)) (has q ns)
      (has-scan_groups q tc gs groups (insert_scan (entry_of tc gs g) (split_dots g.name) ns) h)
      (has-insert_scan q (entry_of tc gs g) (split_dots g.name) ns)
  where
    later :
        (a b after before : Bool)
        → (a || after) ≡ true
        → Adds b after before
        → ((b || a) || before) ≡ true
    later a true after before h adds = refl
    later true false after before h adds = refl
    later false false after before h adds = adds h

has-find_segment :
    (q part : String) (ns : Nodes) (n : GroupTreeNode)
    → find_segment part ns ≡ some n
    → has_node q n ≡ true
    → has q ns ≡ true
unfolding find_segment
has-find_segment q part nil n found h = absurd cc
has-find_segment q part (cons m ns) n found h =
    has-cons q m ns ∙ elim (Bool-cases (str_eq (segment m) part)) [
      | inl same ↦ let first : m ≡ n = ground (arith, same) in rw (first, h) refl
      | inr other ↦ or_true (has_node q m) (has-find_segment q part ns n (ground (arith, other)) h)
    ]

has-children : (q : String) (n : GroupTreeNode) → has q (children n) ≡ true → has_node q n ≡ true
unfolding has_node
has-children q (node s f d cs t l) h = or_true (has_name q (name_of f)) h

has-walk_node :
    (q : String) (parts : List String) (ns : Nodes) (n : GroupTreeNode)
    → walk_node parts ns ≡ some n
    → has_node q n ≡ true
    → has q ns ≡ true
unfolding walk_node
has-walk_node q [] ns n found h = absurd cc
has-walk_node q (part ∷ []) ns n found h = has-find_segment q part ns n found h
has-walk_node q (part ∷ next ∷ parts) ns n found h =
    let (m, first, later) =
      bind_inverse (find_segment part ns) (λ m. walk_node (next ∷ parts) (children m)) n found in
    has-find_segment q part ns m first
      (has-children q m (has-walk_node q (next ∷ parts) (children m) n later h))

has-full_name : (q : String) (n : GroupTreeNode) → full_name n ≡ some q → has_node q n ≡ true
unfolding has_node has_name
has-full_name q (node s f d cs t l) h = rw (h, str_eq_refl q) refl

has-name_at :
    (q : String) (parts : List String) (ns : Nodes) → name_at parts ns ≡ some q → has q ns ≡ true
unfolding name_at
has-name_at q parts ns h =
    let (n, found, named) = bind_inverse (walk_node parts ns) full_name q h in
    has-walk_node q parts ns n found (has-full_name q n named)

-- The names that extract_all_group_names lists for the tree that build_tree_with_stats builds are
-- exactly the names of the groups the tree is built from.
pub extract_all_group_names-built :
    (groups : List GroupView) (thread_counts : Map ℕ) (group_stats : Map (Option String))
    (name : String)
    → (build_tree_with_stats groups thread_counts group_stats >>= λ roots.
        some (has_name name (extract_all_group_names roots)))
      ≡ some (is_group name groups)
unfolding has has_name extract_all_group_names
extract_all_group_names-built groups tc gs name = rw (build_tree_with_stats-scan groups tc gs) (
    ap some
      (rw (sym (is_group-sort_by_name name groups)) (decided (sort_by_name (λ g. g.name) groups))))
  where
    decided :
        (sorted : List GroupView) → has name (scan_groups tc gs sorted nil) ≡ is_group name sorted
    decided sorted = elim (Bool-cases (is_group name sorted)) [
      | inl listed ↦ rw listed (
          has-name_at name (split_dots name) (scan_groups tc gs sorted nil)
            (name_at-scan_groups tc gs sorted name nil ∙ rw listed refl))
      | inr absent ↦ elim (Bool-cases (has name (scan_groups tc gs sorted nil))) [
        | inl here ↦
            let listed : (is_group name sorted || false) ≡ true =
              has-scan_groups name tc gs sorted nil here in
            absurd (ground (arith, absent, listed))
        | inr not_here ↦ not_here ∙ sym absent
      ]
    ]
