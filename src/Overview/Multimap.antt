-- ===== src/Overview/Multimap.antt =====
-- What holds of every value in the maps from a key to a list of values, `threads_map` and
-- `children_map` of src/nntp/mod.rs.
use september.Base.{
  ◌≡◌, Option, none, some, List, [], ◌∷◌, ◌++◌, String, str_eq, eq_iff, Map, lookup, insert,
  lookup-insert, arith, All, Bool-cases, inl, inr, subst,
}
use september.Overview.{Fields, or_empty, push}
use september.Overview.Words.{root_id}
use september.Overview.Build.{group_by_root, with_root}

-- Every value under every key satisfies `P`, which may name the key.
abbrev pub Everywhere : {V : Type 0} → (String → V → Type 0) → Map (List V) → Type 0
Everywhere P m = (key : String) → All (P key) (or_empty (lookup key m))

All-snoc :
    {V : Type 0} (P : V → Type 0) (vs : List V) (v : V) → All P vs → P v → All P (vs ++ v ∷ [])
All-snoc P [] v all new = (new, tt)
All-snoc P (x ∷ vs) v all new = (all.0, All-snoc P vs v all.1 new)

pub Everywhere-push :
    {V : Type 0} (P : String → V → Type 0) (key : String) (v : V) (m : Map (List V))
    → Everywhere P m
    → P key v
    → Everywhere P (push key v m)
unfolding push
Everywhere-push P key v m all new query = elim (Bool-cases (str_eq key query)) [
  | inl same ↦
      let k : key ≡ query = (eq_iff key query).0 same in
      let read : lookup query (push key v m) ≡ some (or_empty (lookup key m) ++ v ∷ []) =
        ground (arith, lookup-insert key query (or_empty (lookup key m) ++ v ∷ []) m, same) in
      rw read (
        subst (λ q. All (P q) (or_empty (lookup key m) ++ v ∷ [])) k
          (All-snoc (P key) (or_empty (lookup key m)) v (all key) new))
  | inr other ↦
      let read : lookup query (push key v m) ≡ lookup query m =
        ground (arith, lookup-insert key query (or_empty (lookup key m) ++ v ∷ []) m, other) in
      rw read (all query)
]

-- Every value in every list satisfies `P`.
abbrev pub EveryList : {V : Type 0} → (V → Type 0) → Map (List V) → Type 0
EveryList P = All λ entry. All P entry.1

EveryList-lookup :
    {V : Type 0} (P : V → Type 0) (key : String) (m : Map (List V))
    → EveryList P m
    → All P (or_empty (lookup key m))
unfolding lookup
EveryList-lookup P key [] all = tt
EveryList-lookup P key ((first, vs) ∷ m) all = elim (Bool-cases (str_eq first key)) [
  | inl same ↦ rw (same, lookup) all.0
  | inr other ↦ rw (other, lookup) (EveryList-lookup P key m all.1)
]

EveryList-insert :
    {V : Type 0} (P : V → Type 0) (key : String) (vs : List V) (m : Map (List V))
    → EveryList P m
    → All P vs
    → EveryList P (insert key vs m)
unfolding insert
EveryList-insert P key vs [] all new = (new, tt)
EveryList-insert P key vs ((first, old) ∷ m) all new = elim (Bool-cases (str_eq first key)) [
  | inl same ↦ rw (same, insert) (new, all.1)
  | inr other ↦ rw (other, insert) (all.0, EveryList-insert P key vs m all.1 new)
]

pub EveryList-push :
    {V : Type 0} (P : V → Type 0) (key : String) (v : V) (m : Map (List V))
    → EveryList P m
    → P v
    → EveryList P (push key v m)
unfolding push
EveryList-push P key v m all new =
    EveryList-insert P key (or_empty (lookup key m) ++ v ∷ []) m all
      (All-snoc P (or_empty (lookup key m)) v (EveryList-lookup P key m all) new)

pub EveryList-group_by_root :
    {E : Type 0} (fields : Fields E) (P : E → Type 0) (entries : List E) (m : Map (List E))
    → All P entries
    → EveryList P m
    → EveryList P (group_by_root fields entries m)
unfolding group_by_root
EveryList-group_by_root fields P [] m all held = held
EveryList-group_by_root fields P (entry ∷ entries) m all held =
    EveryList-group_by_root fields P entries (with_root fields entry (fields.message_id entry) m)
      all.1 (grown (fields.message_id entry))
  where
    grown : (id : Option String) → EveryList P (with_root fields entry id m)
    grown none = held
    grown (some id) = EveryList-push P (root_id (fields.references entry) id) entry m held all.0
