-- ===== src/Thread/Collapse.antt =====
-- The cached descendant counts of a tree, and what they are for: collapsing a comment of the flat
-- list (`FlatComment.descendant_count` of src/nntp/mod.rs).
use mathlib.Core.List.{append_assoc, append-nil}
use september.Base.{
  ℕ, suc, ◌+◌, ◌≤◌, ◌<◌, ◌≡◌, refl, some, List, [], ◌∷◌, ◌++◌, arith, ltb, ◌∙◌, subst,
  if◌then◌else◌,
}
use september.Thread.{
  ThreadNodeView, Replies, FlatComment, node, nil, cons, size, size_replies, comment_at, flatten,
}
use september.Thread.Flat.{preorder, preorder_replies, flatten-preorder}

-- Every cached count is the number of proper descendants.
unfoldable mutual
  pub IsCounted : ThreadNodeView → Type 0
  IsCounted (node i a rs n) = (n ≡ size_replies rs) × AreCounted rs

  pub AreCounted : Replies → Type 0
  AreCounted nil = Unit
  AreCounted (cons t rs) = IsCounted t × AreCounted rs

-- How many comments follow, without a gap, that are deeper than `depth`.
unfoldable pub deeper_run : ℕ → List FlatComment → ℕ
deeper_run depth [] = 0
deeper_run depth (c ∷ cs) =
    let rest = deeper_run depth cs in if ltb depth c.depth then suc rest else 0

-- Hiding the `descendant_count` comments after each comment hides exactly its subtree.
abbrev pub CountsMatch : List FlatComment → Type 0
CountsMatch [] = Unit
CountsMatch (c ∷ cs) = (c.descendant_count ≡ deeper_run c.depth cs) × CountsMatch cs

mutual
  unfolding deeper_run preorder size comment_at

  deeper_run-preorder :
      (t : ThreadNodeView) (depth threshold k : ℕ) (rest : List FlatComment)
      → k < depth
      → deeper_run k (preorder t depth threshold ++ rest) ≡ size t + deeper_run k rest
  deeper_run-preorder (node i a rs n) depth threshold k rest h =
      ground (arith, deeper_run-preorder_replies rs (depth + 1) threshold k rest)

  deeper_run-preorder_replies :
      (rs : Replies) (depth threshold k : ℕ) (rest : List FlatComment)
      → k < depth
      → deeper_run k (preorder_replies rs depth threshold ++ rest)
        ≡ size_replies rs + deeper_run k rest
  deeper_run-preorder_replies nil depth threshold k rest h = omega arith
  deeper_run-preorder_replies (cons t rs) depth threshold k rest h = rw append_assoc (
      omega (
        arith,
        deeper_run-preorder t depth threshold k (preorder_replies rs depth threshold ++ rest) h,
        deeper_run-preorder_replies rs depth threshold k rest h,
      ))

-- `rest` starts with no comment deeper than `depth`.
abbrev Closes : ℕ → List FlatComment → Type 0
Closes depth rest = (k : ℕ) → depth ≤ k → deeper_run k rest ≡ 0

Closes-preorder :
    (t : ThreadNodeView) (depth threshold : ℕ) (rest : List FlatComment)
    → Closes depth (preorder t depth threshold ++ rest)
unfolding deeper_run preorder comment_at
Closes-preorder (node i a rs n) depth threshold rest k h = ground arith

Closes-preorder_replies :
    (rs : Replies) (depth threshold : ℕ) (rest : List FlatComment)
    → Closes depth rest
    → Closes depth (preorder_replies rs depth threshold ++ rest)
unfolding preorder
Closes-preorder_replies nil depth threshold rest c k h = c k h
Closes-preorder_replies (cons t rs) depth threshold rest c k h =
    rw append_assoc
      (Closes-preorder t depth threshold (preorder_replies rs depth threshold ++ rest) k h)

mutual
  unfolding preorder size comment_at IsCounted

  CountsMatch-preorder :
      (t : ThreadNodeView) (depth threshold : ℕ) (rest : List FlatComment)
      → IsCounted t
      → Closes depth rest
      → CountsMatch rest
      → CountsMatch (preorder t depth threshold ++ rest)
  CountsMatch-preorder (node i a rs n) depth threshold rest counted c m = (
    omega (
      arith,
      counted.0,
      c depth (omega arith),
      deeper_run-preorder_replies rs (depth + 1) threshold depth rest (omega arith),
    ),
    CountsMatch-preorder_replies rs (depth + 1) threshold rest counted.1 (λ k h. c k (omega arith))
        m,
  )

  CountsMatch-preorder_replies :
      (rs : Replies) (depth threshold : ℕ) (rest : List FlatComment)
      → AreCounted rs
      → Closes depth rest
      → CountsMatch rest
      → CountsMatch (preorder_replies rs depth threshold ++ rest)
  CountsMatch-preorder_replies nil depth threshold rest counted c m = m
  CountsMatch-preorder_replies (cons t rs) depth threshold rest counted c m = rw append_assoc (
      CountsMatch-preorder t depth threshold (preorder_replies rs depth threshold ++ rest) counted.0
        (Closes-preorder_replies rs depth threshold rest c)
        (CountsMatch-preorder_replies rs depth threshold rest counted.1 c m))

-- In the flattened list of a tree whose cached counts are right, each comment's descendant count is
-- the length of the run of deeper comments behind it: the comments that collapsing it hides.
pub CountsMatch-flatten :
    (self : ThreadNodeView) (threshold : ℕ) (cs : List FlatComment)
    → IsCounted self
    → flatten self threshold ≡ some cs
    → CountsMatch cs
unfolding deeper_run
CountsMatch-flatten self threshold cs counted e = subst CountsMatch same listed
  where
    listing : preorder self 0 threshold ≡ cs
    listing = cc (flatten-preorder self threshold)

    same : preorder self 0 threshold ++ [] ≡ cs
    same = append-nil _ ∙ listing

    listed : CountsMatch (preorder self 0 threshold ++ [])
    listed = CountsMatch-preorder self 0 threshold [] counted (λ k h. refl) tt
