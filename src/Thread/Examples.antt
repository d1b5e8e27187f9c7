-- ===== src/Thread/Examples.antt =====
-- Tests of the thread tree and instances of its theorems.
use september.Base.{◌≡◌, refl, true, none, some, List, [], ◌∷◌, String, Option, map, arith, length}
use september.Thread.{
  ThreadNodeView, FlatComment, node, nil, cons, size, flatten, add_reply_to_node,
}
use september.Thread.Flat.{preorder, flatten-preorder, length-flatten}
use september.Thread.Collapse.{IsCounted, CountsMatch, CountsMatch-flatten}

abbrev leaf : String → ThreadNodeView
leaf i = node i none nil 0

-- "a" with the replies "b", which "c" answers, and "d".
abbrev tree : ThreadNodeView
tree = node "a" none (cons (node "b" none (cons (leaf "c") nil) 1) (cons (leaf "d") nil)) 3

abbrev ids : Option (List FlatComment) → List String
ids none = []
ids (some cs) = map (λ c. c.message_id) cs

flatten_order : ids (flatten tree 5) ≡ "a" ∷ "b" ∷ "c" ∷ "d" ∷ []
unfolding flatten size
flatten_order = refl

reply_placed :
    add_reply_to_node (leaf "a") "a" (leaf "b") ≡ (node "a" none (cons (leaf "b") nil) 1, true)
unfolding add_reply_to_node
reply_placed = refl

flatten-preorder_example : flatten tree 1 ≡ some (preorder tree 0 1)
flatten-preorder_example = flatten-preorder tree 1

tree-IsCounted : IsCounted tree
unfolding IsCounted size
tree-IsCounted = omega arith

CountsMatch-flatten_example : CountsMatch (preorder tree 0 1)
unfolding preorder
CountsMatch-flatten_example =
    CountsMatch-flatten tree 1 (preorder tree 0 1) tree-IsCounted (flatten-preorder tree 1)

length-flatten_example : length (preorder tree 0 1) ≡ size tree
length-flatten_example = length-flatten tree 1 (preorder tree 0 1) (flatten-preorder tree 1)

leaf-IsCounted : IsCounted (leaf "e")
unfolding IsCounted size
leaf-IsCounted = omega arith
