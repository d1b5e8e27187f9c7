-- ===== src/Newsgroups.antt =====
-- The tree of newsgroups of src/nntp/mod.rs: GroupTreeNode, how a tree is built from the list of
-- groups, and the two lookups by a dotted path. `none` is a panic in the functions that build, and
-- the source's None in those that look up.
pub mod Segments
pub mod Scan
pub mod Equivalence
pub mod Lookups
pub mod Names
mod Examples
use Prim.Native.Char.{Char, code}
use september.Base.{
  ℕ, zero, suc, Bool, Option, none, some, List, [], ◌∷◌, String, str_eq, Map, lookup, insert, ◌==◌,
  if◌then◌else◌, ◌>>=◌,
}
use september.Base.Sorting.{sort_by_name}
use september.Federated.Groups.{GroupView}

mutual
  -- segment, full_name, description, children, thread_count, last_post_date
  pub data GroupTreeNode : Type 0 where
    node : String → Option String → Option String → Nodes → Option ℕ → Option String → GroupTreeNode

  -- Vec<GroupTreeNode>
  pub data Nodes : Type 0 where
    nil : Nodes
    cons : GroupTreeNode → Nodes → Nodes

abbrev pub segment : GroupTreeNode → String
segment (node s f d cs t l) = s

abbrev pub full_name : GroupTreeNode → Option String
full_name (node s f d cs t l) = f

abbrev pub children : GroupTreeNode → Nodes
children (node s f d cs t l) = cs

abbrev pub count : Nodes → ℕ
count nil = 0
count (cons n ns) = suc (count ns)

-- nodes.push(n)
abbrev pub push : Nodes → GroupTreeNode → Nodes
push nil n = cons n nil
push (cons m ms) n = cons m (push ms n)

abbrev pub get_node : Nodes → ℕ → Option GroupTreeNode
get_node nil i = none
get_node (cons n ns) zero = some n
get_node (cons n ns) (suc i) = get_node ns i

abbrev pub set_node : Nodes → ℕ → GroupTreeNode → Nodes
set_node nil i n = nil
set_node (cons m ms) zero n = cons n ms
set_node (cons m ms) (suc i) n = cons m (set_node ms i n)

-- A new node of a segment, which is no group yet.
abbrev pub new_node : String → GroupTreeNode
new_node s = node s none none nil none none

-- What a group brings: its name, description, thread count and last date.
pub record GroupEntry : Type 0 where
  pub full_name : String
  pub description : Option String
  pub thread_count : Option ℕ
  pub last_post_date : Option String

abbrev pub set_entry : GroupEntry → GroupTreeNode → GroupTreeNode
set_entry e (node s f d cs t l) =
    node s (some e.full_name) e.description cs e.thread_count e.last_post_date

abbrev pub set_children : Nodes → GroupTreeNode → GroupTreeNode
set_children cs (node s f d old t l) = node s f d cs t l

-- The loop over the children with their numbers.
unfoldable pub child_map : ℕ → Nodes → Map ℕ → Map ℕ
child_map i nil m = m
child_map i (cons n ns) m = child_map (suc i) ns (insert (segment n) i m)

-- The node's number, with a new node when the segment has none.
unfoldable pub find_or_push : String → Nodes → Map ℕ → Option ℕ → ℕ × Nodes × Map ℕ
find_or_push s nodes node_map (some idx) = (idx, nodes, node_map)
find_or_push s nodes node_map none =
    (count nodes, push nodes (new_node s), insert s (count nodes) node_map)

-- What is done to the node: `below` inserts into its children.
unfoldable pub update_node :
    GroupEntry → List String → (Nodes → Option Nodes) → GroupTreeNode → Option GroupTreeNode
update_node e [] below n = some (set_entry e n)
update_node e (r ∷ remaining) below n = below (children n) >>= λ cs. some (set_children cs n)

abbrev pub store : ℕ × Nodes × Map ℕ → Option GroupTreeNode → Option (Nodes × Map ℕ)
store found none = none
store (idx, nodes, node_map) (some n) = some (set_node nodes idx n, node_map)

-- The map of the level is returned with the nodes.
unfoldable pub insert_path : GroupEntry → List String → Nodes → Map ℕ → Option (Nodes × Map ℕ)
insert_path e [] nodes node_map = some (nodes, node_map)
insert_path e (s ∷ remaining) nodes node_map =
    let found = find_or_push s nodes node_map (lookup s node_map) in
    store found (
      get_node found.1 found.0
      >>= update_node e remaining
          (λ cs. insert_path e remaining cs (child_map 0 cs []) >>= λ r. some r.0))

-- name.split('.')
abbrev push_char : Char → List String → List String
push_char c [] = String.◌∷◌ c String.[] ∷ []
push_char c (s ∷ parts) = String.◌∷◌ c s ∷ parts

unfoldable pub split_dots : String → List String
split_dots String.[] = String.[] ∷ []
split_dots (String.◌∷◌ c s) =
    let parts = split_dots s in if code c == 46 then String.[] ∷ parts else push_char c parts

abbrev pub entry_of : Map ℕ → Map (Option String) → GroupView → GroupEntry
entry_of thread_counts group_stats group = record {
  full_name = group.name;
  description = group.description;
  thread_count = lookup group.name thread_counts;
  last_post_date = lookup group.name group_stats >>= λ d. d;
}

-- The body of the loop of build_tree_with_stats; build_tree has no counts and dates.
unfoldable pub insert_group :
    Map ℕ → Map (Option String) → GroupView → Nodes × Map ℕ → Option (Nodes × Map ℕ)
insert_group thread_counts group_stats group (nodes, node_map) =
    insert_path (entry_of thread_counts group_stats group) (split_dots group.name) nodes node_map

unfoldable pub insert_groups :
    Map ℕ → Map (Option String) → List GroupView → Nodes × Map ℕ → Option (Nodes × Map ℕ)
insert_groups thread_counts group_stats [] tree = some tree
insert_groups thread_counts group_stats (group ∷ groups) tree =
    insert_group thread_counts group_stats group tree
    >>= insert_groups thread_counts group_stats groups

unfoldable pub build_tree_with_stats : List GroupView → Map ℕ → Map (Option String) → Option Nodes
build_tree_with_stats groups thread_counts group_stats =
    insert_groups thread_counts group_stats (sort_by_name (λ g. g.name) groups) (nil, []) >>= λ r.
    some r.0

unfoldable pub build_tree : List GroupView → Option Nodes
build_tree groups =
    insert_groups [] [] (sort_by_name (λ g. g.name) groups) (nil, []) >>= λ r. some r.0

-- current.iter().find(|n| n.segment == *part)
unfoldable pub find_segment : String → Nodes → Option GroupTreeNode
find_segment part nil = none
find_segment part (cons n ns) = if str_eq (segment n) part then some n else find_segment part ns

unfoldable pub walk_children : List String → Nodes → Option Nodes
walk_children [] current = some current
walk_children (part ∷ parts) current =
    find_segment part current >>= λ found. walk_children parts (children found)

unfoldable pub find_children_at_path : Nodes → String → Option Nodes
find_children_at_path roots String.[] = some roots
find_children_at_path roots (String.◌∷◌ c path) =
    walk_children (split_dots (String.◌∷◌ c path)) roots

-- The loop ends at the last part.
unfoldable pub walk_node : List String → Nodes → Option GroupTreeNode
walk_node [] current = none
walk_node (part ∷ []) current = find_segment part current
walk_node (part ∷ next ∷ parts) current =
    find_segment part current >>= λ found. walk_node (next ∷ parts) (children found)

unfoldable pub find_node_at_path : Nodes → String → Option GroupTreeNode
find_node_at_path roots String.[] = none
find_node_at_path roots (String.◌∷◌ c path) = walk_node (split_dots (String.◌∷◌ c path)) roots
