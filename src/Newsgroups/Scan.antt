-- ===== src/Newsgroups/Scan.antt =====
-- GroupTreeNode::insert_path of src/nntp/mod.rs against an insertion that looks through the nodes,
-- without the maps from segments to numbers.
use september.Base.{
  ℕ, suc, ◌+◌, ◌≡◌, inl, inr, refl, sym, ◌∙◌, ap, Bool, true, false, Option, none, some, List, [],
  ◌∷◌, String, str_eq, Map, lookup, insert, lookup-insert, eq_iff, arith, if◌then◌else◌, ◌>>=◌,
  Option-cases, Bool-cases,
}
use september.Newsgroups.{
  GroupTreeNode, Nodes, node, nil, cons, segment, children, count, push, get_node, set_node,
  new_node, GroupEntry, set_entry, set_children, child_map,
}

-- The first node of the segment, or a new one at the end, is changed by f.
unfoldable pub update_first : String → (GroupTreeNode → GroupTreeNode) → Nodes → Nodes
update_first s f nil = cons (f (new_node s)) nil
update_first s f (cons n ns) =
    if str_eq (segment n) s then cons (f n) ns else cons n (update_first s f ns)

unfoldable pub scan_node :
    GroupEntry → List String → (Nodes → Nodes) → GroupTreeNode → GroupTreeNode
scan_node e [] below n = set_entry e n
scan_node e (r ∷ remaining) below n = set_children (below (children n)) n

unfoldable pub insert_scan : GroupEntry → List String → Nodes → Nodes
insert_scan e [] nodes = nodes
insert_scan e (s ∷ remaining) nodes =
    update_first s (scan_node e remaining (insert_scan e remaining)) nodes

-- The number of the first node of a segment.
unfoldable pub position : String → Nodes → Option ℕ
position s nil = none
position s (cons n ns) =
    if str_eq (segment n) s then some 0 else (position s ns >>= λ i. some (suc i))

abbrev mutual
  pub IsDistinctNode : GroupTreeNode → Type 0
  IsDistinctNode (node s f d cs t l) = IsDistinct cs

  -- Siblings have different segments, at every level.
  pub IsDistinct : Nodes → Type 0
  IsDistinct nil = Unit
  IsDistinct (cons n ns) = (position (segment n) ns ≡ none) × IsDistinctNode n × IsDistinct ns

-- The map has the numbers of the nodes.
abbrev pub IsIndex : Map ℕ → Nodes → Type 0
IsIndex m ns = (s : String) → lookup s m ≡ position s ns

-- A segment that comes first stands for no later node.
position_head :
    (n : GroupTreeNode) (ns : Nodes) (s : String)
    → position (segment n) ns ≡ none
    → str_eq (segment n) s ≡ true
    → position s ns ≡ none
position_head n ns s h same = rw (sym ((eq_iff (segment n) s).0 same)) h

unfoldable pub or_else : Option ℕ → Option ℕ → Option ℕ
or_else none o = o
or_else (some i) o = some i

shifted : ℕ → Option ℕ → Option ℕ
shifted i none = none
shifted i (some k) = some (i + k)

shifted-suc :
    (i : ℕ) (o r : Option ℕ)
    → or_else (shifted (suc i) o) r ≡ or_else (shifted i (o >>= λ k. some (suc k))) r
unfolding or_else shifted
shifted-suc i none r = refl
shifted-suc i (some k) r = ap some (omega arith)

lookup-child_map :
    (i : ℕ) (ns : Nodes) (m : Map ℕ) (s : String)
    → IsDistinct ns
    → lookup s (child_map i ns m) ≡ or_else (shifted i (position s ns)) (lookup s m)
unfolding child_map position or_else shifted
lookup-child_map i nil m s d = refl
lookup-child_map i (cons n ns) m s d =
    lookup-child_map (suc i) ns (insert (segment n) i m) s d.2
    ∙ elim (Bool-cases (str_eq (segment n) s)) [
      | inl same ↦
          rw (same, position_head n ns s d.0 same, lookup-insert (segment n) s i m, same)
            (ap some (omega arith))
      | inr other ↦
          rw (other, lookup-insert (segment n) s i m, other)
            (shifted-suc i (position s ns) (lookup s m))
    ]

pub IsIndex-child_map : (ns : Nodes) → IsDistinct ns → IsIndex (child_map 0 ns []) ns
unfolding lookup or_else shifted
IsIndex-child_map ns d s = lookup-child_map 0 ns [] s d ∙ elim (Option-cases (position s ns)) [
  | inl absent ↦ rw absent refl
  | inr present ↦ rw (present.1) (ap some (omega arith))
]

children-IsDistinct : (n : GroupTreeNode) → IsDistinctNode n → IsDistinct (children n)
children-IsDistinct (node s f d cs t l) h = h

node-IsDistinct : (n : GroupTreeNode) → IsDistinct (children n) → IsDistinctNode n
node-IsDistinct (node s f d cs t l) h = h

position_later :
    (s : String) (n : GroupTreeNode) (ns : Nodes) (i : ℕ)
    → str_eq (segment n) s ≡ false
    → position s (cons n ns) ≡ some i
    → (k : ℕ) × (position s ns ≡ some k) × (i ≡ suc k)
unfolding position
position_later s n ns i other h = elim (Option-cases (position s ns)) [
  | inl absent ↦ absurd (ground (arith, other, absent))
  | inr present ↦ (present.0, present.1, ground (arith, other, present.1))
]

position_absent :
    (s : String) (n : GroupTreeNode) (ns : Nodes)
    → position s (cons n ns) ≡ none
    → (str_eq (segment n) s ≡ false) × (position s ns ≡ none)
unfolding position
position_absent s n ns h = ground arith

joined :
    (here later : Bool) (o : Option ℕ) (k : ℕ)
    → (if here then some 0 else (or_else o (if later then some k else none) >>= λ i. some (suc i)))
      ≡ or_else
          (if here then some 0 else (o >>= λ i. some (suc i)))
          (if later then some (suc k) else none)
unfolding or_else
joined true later o k = refl
joined false later (some i) k = refl
joined false true none k = refl
joined false false none k = refl

-- The positions after an update of a node, and after a new node at the end.
module _ (s : String) (f : GroupTreeNode → GroupTreeNode)
    (same_segment : (n : GroupTreeNode) → segment (f n) ≡ segment n) where
  pub position-update :
      (ns : Nodes) (i : ℕ) (q : String)
      → position s ns ≡ some i
      → position q (update_first s f ns) ≡ position q ns
  unfolding position update_first
  position-update nil i q h = absurd cc
  position-update (cons n ns) i q h = elim (Bool-cases (str_eq (segment n) s)) [
    | inl same ↦ rw (same, same_segment n) refl
    | inr other ↦ rw other (
        ap (λ o. if str_eq (segment n) q then some 0 else (o >>= λ k. some (suc k)))
          (position-update ns (position_later s n ns i other h).0 q
            (position_later s n ns i other h).1))
  ]

  pub position-append :
      (ns : Nodes) (q : String)
      → position s ns ≡ none
      → position q (update_first s f ns)
        ≡ or_else (position q ns) (if str_eq s q then some (count ns) else none)
  unfolding position update_first or_else
  position-append nil q h = rw (same_segment (new_node s)) refl
  position-append (cons n ns) q h = elim (Bool-cases (str_eq (segment n) s)) [
    | inl same ↦ absurd (ground (arith, same, (position_absent s n ns h).0))
    | inr other ↦ rw other (
        ap (λ o. if str_eq (segment n) q then some 0 else (o >>= λ k. some (suc k)))
          (position-append ns q (position_absent s n ns h).1)
        ∙ joined (str_eq (segment n) q) (str_eq s q) (position q ns) (count ns))
  ]

  -- The node found at its position, and the nodes after it is replaced.
  pub get_node-position :
      (ns : Nodes) (i : ℕ)
      → IsDistinct ns
      → position s ns ≡ some i
      → (n : GroupTreeNode) × (get_node ns i ≡ some n)
        × IsDistinct (children n)
        × (set_node ns i (f n) ≡ update_first s f ns)
  unfolding position update_first
  get_node-position nil i d h = absurd cc
  get_node-position (cons n ns) i d h = elim (Bool-cases (str_eq (segment n) s)) [
    | inl same ↦
        let first : i ≡ 0 = ground (arith, same) in
        rw (first, same) (n, refl, children-IsDistinct n d.1, refl)
    | inr other ↦
        let (k, found, next) = position_later s n ns i other h in
        let (m, got, distinct, stored) = get_node-position ns k d.2 found in
        rw (next, other) (m, got, distinct, ap (cons n) stored)
  ]

  pub get_node-push :
      (ns : Nodes)
      → position s ns ≡ none
      → (get_node (push ns (new_node s)) (count ns) ≡ some (new_node s))
        × (set_node (push ns (new_node s)) (count ns) (f (new_node s)) ≡ update_first s f ns)
  unfolding position update_first
  get_node-push nil h = (refl, refl)
  get_node-push (cons n ns) h =
      let (other, absent) = position_absent s n ns h in
      let (got, stored) = get_node-push ns absent in (got, rw other (ap (cons n) stored))

  IsDistinct-update_first :
      (ns : Nodes)
      → ((n : GroupTreeNode) → IsDistinct (children n) → IsDistinct (children (f n)))
      → IsDistinct ns
      → IsDistinct (update_first s f ns)
  unfolding update_first position or_else
  IsDistinct-update_first nil keeps d =
      (refl, node-IsDistinct (f (new_node s)) (keeps (new_node s) tt), tt)
  IsDistinct-update_first (cons n ns) keeps d = elim (Bool-cases (str_eq (segment n) s)) [
    | inl same ↦ rw same (
      rw (same_segment n) (d.0),
      node-IsDistinct (f n) (keeps n (children-IsDistinct n d.1)),
      d.2,
    )
    | inr other ↦ rw other (
      elim (Option-cases (position s ns)) [
        | inl absent ↦
            let differs : str_eq s (segment n) ≡ false =
              ground (arith, other, eq_iff s (segment n), eq_iff (segment n) s) in
            position-append ns (segment n) absent ∙ rw (d.0, differs) refl
        | inr found ↦ position-update ns found.0 (segment n) found.1 ∙ d.0
      ],
      d.1,
      IsDistinct-update_first ns keeps d.2,
    )
  ]

pub segment-scan_node :
    (e : GroupEntry) (remaining : List String) (below : Nodes → Nodes) (n : GroupTreeNode)
    → segment (scan_node e remaining below n) ≡ segment n
unfolding scan_node
segment-scan_node e [] below (node s f d cs t l) = refl
segment-scan_node e (r ∷ remaining) below (node s f d cs t l) = refl

pub IsDistinct-scan_node :
    (e : GroupEntry) (remaining : List String) (below : Nodes → Nodes) (n : GroupTreeNode)
    → ((cs : Nodes) → IsDistinct cs → IsDistinct (below cs))
    → IsDistinct (children n)
    → IsDistinct (children (scan_node e remaining below n))
unfolding scan_node
IsDistinct-scan_node e [] below (node s f d cs t l) keeps h = h
IsDistinct-scan_node e (r ∷ remaining) below (node s f d cs t l) keeps h = keeps cs h

-- The insertion keeps the segments of siblings different.
pub IsDistinct-insert_scan :
    (e : GroupEntry) (parts : List String) (nodes : Nodes)
    → IsDistinct nodes
    → IsDistinct (insert_scan e parts nodes)
unfolding insert_scan
IsDistinct-insert_scan e [] nodes d = d
IsDistinct-insert_scan e (s ∷ remaining) nodes d =
    IsDistinct-update_first s (scan_node e remaining (insert_scan e remaining))
      (segment-scan_node e remaining (insert_scan e remaining)) nodes
      (λ n.
        IsDistinct-scan_node e remaining (insert_scan e remaining) n
          (IsDistinct-insert_scan e remaining))
      d
