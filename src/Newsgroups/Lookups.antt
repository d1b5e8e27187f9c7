-- ===== src/Newsgroups/Lookups.antt =====
-- find_node_at_path and build_tree_with_stats of src/nntp/mod.rs together: the tree finds the
-- groups it was built from.
use september.Base.{
  ℕ, ◌≡◌, ◌≢◌, inl, inr, refl, sym, ◌∙◌, ap, Bool, false, ◌||◌, Option, none, some, List, [], ◌∷◌,
  String, str_eq, Map, eq_iff, arith, if◌then◌else◌, ◌>>=◌, Option-cases, Bool-cases,
}
use september.Base.Sorting.{sort_by_name, insert_sorted}
use september.Federated.Groups.{GroupView}
use september.Newsgroups.{
  GroupTreeNode, Nodes, node, nil, cons, segment, full_name, children, new_node, GroupEntry,
  split_dots, entry_of, build_tree_with_stats, find_segment, walk_node, find_node_at_path,
}
use september.Newsgroups.Scan.{update_first, scan_node, insert_scan, segment-scan_node}
use september.Newsgroups.Segments.{split_cons, segments_eq, segments_eq-split}
use september.Newsgroups.Equivalence.{scan_groups, build_tree_with_stats-scan}

-- The full name of the node at a path.
unfoldable pub name_at : List String → Nodes → Option String
name_at parts nodes = walk_node parts nodes >>= full_name

node_or_new : String → Option GroupTreeNode → GroupTreeNode
node_or_new s none = new_node s
node_or_new s (some n) = n

find_segment-update_first :
    (s : String) (f : GroupTreeNode → GroupTreeNode) (ns : Nodes) (q : String)
    → ((n : GroupTreeNode) → segment (f n) ≡ segment n)
    → find_segment q (update_first s f ns)
      ≡ (if str_eq s q then some (f (node_or_new s (find_segment s ns))) else find_segment q ns)
unfolding find_segment update_first node_or_new
find_segment-update_first s f nil q same = rw (same (new_node s)) refl
find_segment-update_first s f (cons n ns) q same = elim (Bool-cases (str_eq (segment n) s)) [
  | inl here ↦
      rw (here, same n)
        (ground (arith, here, eq_iff (segment n) q, eq_iff (segment n) s, eq_iff s q))
  | inr later ↦ rw later (
      ground (
        arith,
        later,
        find_segment-update_first s f ns q same,
        eq_iff (segment n) q,
        eq_iff (segment n) s,
        eq_iff s q,
      ))
]

-- What the rest of a path reads at a node.
at_node : List String → GroupTreeNode → Option String
at_node [] n = full_name n
at_node (q ∷ qs) n = name_at (q ∷ qs) (children n)

name_at-head :
    (q : String) (qs : List String) (nodes : Nodes)
    → name_at (q ∷ qs) nodes ≡ at_node qs (node_or_new q (find_segment q nodes))
unfolding name_at at_node node_or_new walk_node find_segment
name_at-head q [] nodes = elim (Option-cases (find_segment q nodes)) [
  | inl absent ↦ rw absent refl
  | inr found ↦ rw (found.1) refl
]
name_at-head q (r ∷ []) nodes = elim (Option-cases (find_segment q nodes)) [
  | inl absent ↦ rw absent refl
  | inr found ↦ rw (found.1) refl
]
name_at-head q (r ∷ t ∷ qs) nodes = elim (Option-cases (find_segment q nodes)) [
  | inl absent ↦ rw absent refl
  | inr found ↦ rw (found.1) refl
]

-- What an insertion with the rest of a path does at the node is read there by the rest of another.
abbrev SetsNode : GroupEntry → List String → List String → Type 0
SetsNode e ps qs =
    (n : GroupTreeNode)
    → at_node qs (scan_node e ps (insert_scan e ps) n)
      ≡ (if segments_eq ps qs then some e.full_name else at_node qs n)

name_at-step :
    (e : GroupEntry) (p : String) (ps : List String) (q : String) (qs : List String) (nodes : Nodes)
    → SetsNode e ps qs
    → name_at (q ∷ qs) (insert_scan e (p ∷ ps) nodes)
      ≡ (if segments_eq (p ∷ ps) (q ∷ qs) then some e.full_name else name_at (q ∷ qs) nodes)
unfolding insert_scan segments_eq node_or_new
name_at-step e p ps q qs nodes sets =
    let f : GroupTreeNode → GroupTreeNode = scan_node e ps (insert_scan e ps) in
    let found : find_segment q (update_first p f nodes) ≡ (
        if str_eq p q
        then some (f (node_or_new p (find_segment p nodes)))
        else find_segment q nodes) =
      find_segment-update_first p f nodes q (segment-scan_node e ps (insert_scan e ps)) in
    name_at-head q qs (update_first p f nodes) ∙ elim (Bool-cases (str_eq p q)) [
      | inl same ↦
          let before : name_at (q ∷ qs) nodes ≡ at_node qs (node_or_new p (find_segment p nodes)) =
            rw ((eq_iff p q).0 same) (name_at-head q qs nodes) in
          rw (found, same, before) (sets (node_or_new p (find_segment p nodes)))
      | inr other ↦ rw (found, other) (sym (name_at-head q qs nodes))
    ]

scan_node-SetsNode : (e : GroupEntry) (ps qs : List String) → SetsNode e ps qs
unfolding scan_node segments_eq at_node insert_scan
scan_node-SetsNode e [] [] (node s f d cs t l) = refl
scan_node-SetsNode e [] (q ∷ qs) (node s f d cs t l) = refl
scan_node-SetsNode e (p ∷ ps) [] (node s f d cs t l) = refl
scan_node-SetsNode e (p ∷ ps) (q ∷ qs) (node s f d cs t l) =
    name_at-step e p ps q qs cs (scan_node-SetsNode e ps qs)

-- An insertion gives the node at its path the name, and leaves the names at other paths.
name_at-insert_scan :
    (e : GroupEntry) (name path : String) (nodes : Nodes)
    → name_at (split_dots path) (insert_scan e (split_dots name) nodes)
      ≡ (if str_eq name path then some e.full_name else name_at (split_dots path) nodes)
name_at-insert_scan e name path nodes =
    let (p, ps, ep) = split_cons name in
    let (q, qs, eq) = split_cons path in
    rw (sym (segments_eq-split name path), ep, eq)
      (name_at-step e p ps q qs nodes (scan_node-SetsNode e ps qs))

-- One of the groups has the name.
unfoldable pub is_group : String → List GroupView → Bool
is_group path [] = false
is_group path (group ∷ groups) = str_eq group.name path || is_group path groups

is_group-insert_sorted :
    (path : String) (g : GroupView) (groups : List GroupView)
    → is_group path (insert_sorted (λ g. g.name) g groups)
      ≡ (str_eq g.name path || is_group path groups)
unfolding is_group insert_sorted
is_group-insert_sorted path g [] = refl
is_group-insert_sorted path g (h ∷ groups) = ground (arith, is_group-insert_sorted path g groups)

pub is_group-sort_by_name :
    (path : String) (groups : List GroupView)
    → is_group path (sort_by_name (λ g. g.name) groups) ≡ is_group path groups
unfolding is_group sort_by_name
is_group-sort_by_name path [] = refl
is_group-sort_by_name path (g ∷ groups) =
    is_group-insert_sorted path g (sort_by_name (λ g. g.name) groups)
    ∙ ap (λ b. str_eq g.name path || b) (is_group-sort_by_name path groups)

pub name_at-scan_groups :
    (tc : Map ℕ) (gs : Map (Option String)) (groups : List GroupView) (path : String)
    (nodes : Nodes)
    → name_at (split_dots path) (scan_groups tc gs groups nodes)
      ≡ (if is_group path groups then some path else name_at (split_dots path) nodes)
unfolding is_group scan_groups
name_at-scan_groups tc gs [] path nodes = refl
name_at-scan_groups tc gs (g ∷ groups) path nodes =
    name_at-scan_groups tc gs groups path (insert_scan (entry_of tc gs g) (split_dots g.name) nodes)
    ∙ ground (arith, name_at-insert_scan (entry_of tc gs g) g.name path nodes, eq_iff g.name path)

find_node_at_path-walk :
    (roots : Nodes) (path : String)
    → path ≢ String.[]
    → find_node_at_path roots path ≡ walk_node (split_dots path) roots
unfolding find_node_at_path
find_node_at_path-walk roots String.[] h = absurd (h refl)
find_node_at_path-walk roots (String.◌∷◌ c path) h = refl

pub name_at-nil : (parts : List String) → name_at parts nil ≡ none
unfolding name_at walk_node find_segment
name_at-nil [] = refl
name_at-nil (part ∷ []) = refl
name_at-nil (part ∷ next ∷ parts) = refl

-- In the tree that build_tree_with_stats builds, find_node_at_path finds a node with a full name
-- exactly at the paths that are names of the listed groups, and the full name is the path. The
-- empty path is excepted.
pub find_node_at_path-built :
    (groups : List GroupView) (thread_counts : Map ℕ) (group_stats : Map (Option String))
    (path : String)
    → path ≢ String.[]
    → (build_tree_with_stats groups thread_counts group_stats >>= λ roots.
        find_node_at_path roots path >>= full_name)
      ≡ (if is_group path groups then some path else none)
unfolding name_at
find_node_at_path-built groups tc gs path not_empty = rw (build_tree_with_stats-scan groups tc gs) (
    ap (λ o. o >>= full_name)
      (find_node_at_path-walk (scan_groups tc gs (sort_by_name (λ g. g.name) groups) nil) path
        not_empty)
    ∙ name_at-scan_groups tc gs (sort_by_name (λ g. g.name) groups) path nil
    ∙ rw (is_group-sort_by_name path groups, name_at-nil (split_dots path)) refl)
