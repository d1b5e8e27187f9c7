-- ===== src/Thread/Measure.antt =====
-- The fuel of the stack walks: the number of nodes in a stack.
use september.Base.{ℕ, ◌+◌, ◌≡◌, List, [], ◌∷◌, arith}
use september.Thread.{
  ThreadNodeView, Replies, nil, cons, size, size_replies, push_replies, push_reversed,
}

unfoldable pub stack_size : List ThreadNodeView → ℕ
stack_size [] = 0
stack_size (t ∷ stack) = size t + stack_size stack

pub stack_size-push_replies :
    (rs : Replies) (stack : List ThreadNodeView)
    → stack_size (push_replies rs stack) ≡ size_replies rs + stack_size stack
unfolding stack_size push_replies size
stack_size-push_replies nil stack = omega arith
stack_size-push_replies (cons t rs) stack = omega (arith, stack_size-push_replies rs (t ∷ stack))

-- The same for a stack whose entries carry their depth.
unfoldable pub depth_stack_size : List (ThreadNodeView × ℕ) → ℕ
depth_stack_size [] = 0
depth_stack_size ((t, depth) ∷ stack) = size t + depth_stack_size stack

pub depth_stack_size-push_reversed :
    (rs : Replies) (depth : ℕ) (stack : List (ThreadNodeView × ℕ))
    → depth_stack_size (push_reversed rs depth stack) ≡ size_replies rs + depth_stack_size stack
unfolding depth_stack_size push_reversed size
depth_stack_size-push_reversed nil depth stack = omega arith
depth_stack_size-push_reversed (cons t rs) depth stack =
    omega (arith, depth_stack_size-push_reversed rs depth stack)
