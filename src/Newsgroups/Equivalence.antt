-- ===== src/Newsgroups/Equivalence.antt =====
-- build_tree and build_tree_with_stats of src/nntp/mod.rs: the numbers kept in maps are those that
-- a look through the nodes finds, so no index is out of range.
use september.Base.{
  ℕ, ◌≡◌, inl, inr, refl, sym, ◌∙◌, ap, Option, none, some, List, [], ◌∷◌, String, str_eq, Map,
  lookup, insert, lookup-insert, eq_iff, if◌then◌else◌, ◌>>=◌, Option-cases, Bool-cases,
}
use september.Base.Sorting.{sort_by_name}
use september.Federated.Groups.{GroupView}
use september.Newsgroups.{
  GroupTreeNode, Nodes, nil, segment, children, count, new_node, GroupEntry, child_map,
  find_or_push, update_node, insert_path, insert_group, insert_groups, split_dots, entry_of,
  build_tree_with_stats,
}
use september.Newsgroups.Scan.{
  scan_node, insert_scan, position, IsDistinct, IsIndex, or_else, IsIndex-child_map,
  position-update, position-append, get_node-position, get_node-push, segment-scan_node,
  IsDistinct-insert_scan,
}

appended :
    (s : String) (nodes : Nodes) (m : Map ℕ) (q : String)
    → IsIndex m nodes
    → position s nodes ≡ none
    → lookup q (insert s (count nodes) m)
      ≡ or_else (position q nodes) (if str_eq s q then some (count nodes) else none)
unfolding or_else
appended s nodes m q index absent = elim (Bool-cases (str_eq s q)) [
  | inl same ↦
      let none_yet : position q nodes ≡ none = rw (sym ((eq_iff s q).0 same)) absent in
      rw (lookup-insert s q (count nodes) m, same, none_yet) refl
  | inr other ↦
      rw (lookup-insert s q (count nodes) m, other, index q) (sym (or_else-none (position q nodes)))
]
  where
    or_else-none : (o : Option ℕ) → or_else o none ≡ o
    or_else-none none = refl
    or_else-none (some i) = refl

-- insert_path answers with the nodes, and with a map of their numbers.
abbrev Inserts : GroupEntry → List String → Nodes → Map ℕ → Type 0
Inserts e parts nodes m =
    (m' : Map ℕ) × (insert_path e parts nodes m ≡ some (insert_scan e parts nodes, m'))
    × IsIndex m' (insert_scan e parts nodes)

module _ (e : GroupEntry) (remaining : List String)
    (below : (cs : Nodes) (m : Map ℕ)
      → IsIndex m cs
      → IsDistinct cs
      → Inserts e remaining cs m) where
  into_children : Nodes → Option Nodes
  into_children cs = insert_path e remaining cs (child_map 0 cs []) >>= λ r. some r.0

  update_node-scan :
      (n : GroupTreeNode)
      → IsDistinct (children n)
      → update_node e remaining into_children n
        ≡ some (scan_node e remaining (insert_scan e remaining) n)
  unfolding into_children update_node scan_node
  update_node-scan n d = by_cases remaining (
      ap (λ o. o >>= λ r. some r.0)
        (below (children n) (child_map 0 (children n) []) (IsIndex-child_map (children n) d) d).1)
    where
      by_cases :
          (rs : List String)
          → into_children (children n) ≡ some (insert_scan e remaining (children n))
          → update_node e rs into_children n ≡ some (scan_node e rs (insert_scan e remaining) n)
      by_cases [] h = refl
      by_cases (r ∷ rs) h = rw h refl

  Inserts-step :
      (s : String) (nodes : Nodes) (m : Map ℕ)
      → IsIndex m nodes
      → IsDistinct nodes
      → Inserts e (s ∷ remaining) nodes m
  unfolding insert_path insert_scan find_or_push into_children
  Inserts-step s nodes m index d =
      let f : GroupTreeNode → GroupTreeNode = scan_node e remaining (insert_scan e remaining) in
      let same : (n : GroupTreeNode) → segment (f n) ≡ segment n =
        segment-scan_node e remaining (insert_scan e remaining) in
      elim (Option-cases (position s nodes)) [
        | inl absent ↦
            let (got, stored) = get_node-push s f same nodes absent in
            (
              insert s (count nodes) m,
              rw (index s ∙ absent)
                  (rw got (rw (update_node-scan (new_node s) tt) (rw stored refl))),
              λ q.
                  appended s nodes m q index absent ∙ sym (position-append s f same nodes q absent),
            )
        | inr present ↦
            let (n, got, distinct, stored) =
              get_node-position s f same nodes present.0 d present.1 in
            (
              m,
              rw (index s ∙ present.1) (rw got (rw (update_node-scan n distinct) (rw stored refl))),
              λ q. index q ∙ sym (position-update s f same nodes present.0 q present.1),
            )
      ]

insert_path-scan :
    (e : GroupEntry) (parts : List String) (nodes : Nodes) (m : Map ℕ)
    → IsIndex m nodes
    → IsDistinct nodes
    → Inserts e parts nodes m
unfolding insert_path insert_scan
insert_path-scan e [] nodes m index d = (m, refl, index)
insert_path-scan e (s ∷ remaining) nodes m index d =
    Inserts-step e remaining (insert_path-scan e remaining) s nodes m index d

-- The insertions of build_tree by looking through the nodes.
unfoldable pub scan_groups : Map ℕ → Map (Option String) → List GroupView → Nodes → Nodes
scan_groups thread_counts group_stats [] nodes = nodes
scan_groups thread_counts group_stats (group ∷ groups) nodes =
    scan_groups thread_counts group_stats groups
      (insert_scan (entry_of thread_counts group_stats group) (split_dots group.name) nodes)

insert_groups-scan :
    (thread_counts : Map ℕ) (group_stats : Map (Option String)) (groups : List GroupView)
    (nodes : Nodes) (m : Map ℕ)
    → IsIndex m nodes
    → IsDistinct nodes
    → (insert_groups thread_counts group_stats groups (nodes, m) >>= λ r. some r.0)
      ≡ some (scan_groups thread_counts group_stats groups nodes)
unfolding insert_groups insert_group scan_groups
insert_groups-scan tc gs [] nodes m index d = refl
insert_groups-scan tc gs (group ∷ groups) nodes m index d =
    let e : GroupEntry = entry_of tc gs group in
    let (m', inserted, index') = insert_path-scan e (split_dots group.name) nodes m index d in
    rw inserted (
      insert_groups-scan tc gs groups (insert_scan e (split_dots group.name) nodes) m' index'
        (IsDistinct-insert_scan e (split_dots group.name) nodes d))

-- build_tree_with_stats never indexes out of range, and builds the same tree as insertions that
-- look for each segment among the nodes, one group after the other in the order of the names.
pub build_tree_with_stats-scan :
    (groups : List GroupView) (thread_counts : Map ℕ) (group_stats : Map (Option String))
    → build_tree_with_stats groups thread_counts group_stats
      ≡ some (scan_groups thread_counts group_stats (sort_by_name (λ g. g.name) groups) nil)
unfolding build_tree_with_stats lookup position
build_tree_with_stats-scan groups tc gs =
    insert_groups-scan tc gs (sort_by_name (λ g. g.name) groups) nil [] (λ s. refl) tt
