-- ===== src/Thread/Flat.antt =====
-- flatten: the stack walk lists the tree in pre-order, and the cached descendant counts are the
-- lengths of the runs of deeper comments that follow.
use september.Base.{
  ℕ, zero, suc, ◌+◌, ◌≤◌, ◌≡◌, refl, some, List, [], ◌∷◌, ◌++◌, arith, length, ◌∙◌, ap, sym,
  length-append,
}
use mathlib.Core.List.{append_assoc, append-nil}
use september.Thread.{
  ThreadNodeView, Replies, FlatComment, node, nil, cons, size, size_replies, push_reversed,
  comment_at, flatten_loop, flatten,
}
use september.Thread.Measure.{depth_stack_size, depth_stack_size-push_reversed}

unfoldable mutual
  pub preorder : ThreadNodeView → ℕ → ℕ → List FlatComment
  preorder (node i a rs n) depth threshold =
      comment_at (node i a rs n) depth threshold ∷ preorder_replies rs (depth + 1) threshold

  pub preorder_replies : Replies → ℕ → ℕ → List FlatComment
  preorder_replies nil depth threshold = []
  preorder_replies (cons t rs) depth threshold =
      preorder t depth threshold ++ preorder_replies rs depth threshold

stack_preorder : List (ThreadNodeView × ℕ) → ℕ → List FlatComment
stack_preorder [] threshold = []
stack_preorder ((t, depth) ∷ stack) threshold =
    preorder t depth threshold ++ stack_preorder stack threshold

stack_preorder-push_reversed :
    (rs : Replies) (depth threshold : ℕ) (stack : List (ThreadNodeView × ℕ))
    → stack_preorder (push_reversed rs depth stack) threshold
      ≡ preorder_replies rs depth threshold ++ stack_preorder stack threshold
unfolding stack_preorder push_reversed preorder
stack_preorder-push_reversed nil depth threshold stack = refl
stack_preorder-push_reversed (cons t rs) depth threshold stack =
    simp (stack_preorder-push_reversed rs depth threshold stack, append_assoc)

flatten_loop_lem :
    (fuel : ℕ) (stack : List (ThreadNodeView × ℕ)) (threshold : ℕ) (result : List FlatComment)
    → depth_stack_size stack ≤ fuel
    → flatten_loop fuel stack threshold result ≡ some (result ++ stack_preorder stack threshold)
unfolding flatten_loop stack_preorder depth_stack_size size preorder
flatten_loop_lem zero [] threshold result h = rw append-nil
flatten_loop_lem (suc fuel) [] threshold result h = rw append-nil
flatten_loop_lem zero ((node i a rs n, depth) ∷ stack) threshold result h = absurd (omega arith)
flatten_loop_lem (suc fuel) ((node i a rs n, depth) ∷ stack) threshold result h =
    rw
      (
        flatten_loop_lem fuel (push_reversed rs (depth + 1) stack) threshold
            (result ++ comment_at (node i a rs n) depth threshold ∷ [])
            (omega (arith, depth_stack_size-push_reversed rs (depth + 1) stack)),
        stack_preorder-push_reversed rs (depth + 1) threshold stack,
      )
      (simp append_assoc)

-- Flattening with an explicit stack ends and lists the node and its descendants in pre-order, each
-- with its depth, the root at depth zero.
pub flatten-preorder :
    (self : ThreadNodeView) (threshold : ℕ)
    → flatten self threshold ≡ some (preorder self 0 threshold)
unfolding flatten stack_preorder depth_stack_size
flatten-preorder self threshold =
    flatten_loop_lem (size self) ((self, 0) ∷ []) threshold [] (omega arith)
    ∙ ap some (append-nil _)

mutual
  unfolding preorder size

  length-preorder :
      (t : ThreadNodeView) (depth threshold : ℕ) → length (preorder t depth threshold) ≡ size t
  length-preorder (node i a rs n) depth threshold =
      omega (arith, length-preorder_replies rs (depth + 1) threshold)

  length-preorder_replies :
      (rs : Replies) (depth threshold : ℕ)
      → length (preorder_replies rs depth threshold) ≡ size_replies rs
  length-preorder_replies nil depth threshold = refl
  length-preorder_replies (cons t rs) depth threshold = omega (
    arith,
    length-append (preorder t depth threshold) (preorder_replies rs depth threshold),
    length-preorder t depth threshold,
    length-preorder_replies rs depth threshold,
  )

-- The list has one comment for each node.
pub length-flatten :
    (self : ThreadNodeView) (threshold : ℕ) (cs : List FlatComment)
    → flatten self threshold ≡ some cs
    → length cs ≡ size self
length-flatten self threshold cs e =
    let listing : preorder self 0 threshold ≡ cs = cc (flatten-preorder self threshold) in
    sym (ap length listing) ∙ length-preorder self 0 threshold
