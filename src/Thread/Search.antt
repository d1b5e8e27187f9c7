-- ===== src/Thread/Search.antt =====
-- contains_message_id: the search with a stack finds what a recursive search finds.
use september.Base.{
  ℕ, zero, suc, ◌≤◌, ◌≡◌, refl, Bool, false, ◌||◌, some, List, [], ◌∷◌, String, str_eq, arith,
}
use september.Thread.{
  ThreadNodeView, Replies, node, nil, cons, size, push_replies, contains_loop, contains_message_id,
}
use september.Thread.Measure.{stack_size, stack_size-push_replies}

-- The identifier occurs in the tree.
unfoldable mutual
  pub has_id : ThreadNodeView → String → Bool
  has_id (node i a rs n) target_id = str_eq i target_id || has_id_replies rs target_id

  pub has_id_replies : Replies → String → Bool
  has_id_replies nil target_id = false
  has_id_replies (cons t rs) target_id = has_id t target_id || has_id_replies rs target_id

unfoldable pub stack_has_id : List ThreadNodeView → String → Bool
stack_has_id [] target_id = false
stack_has_id (t ∷ stack) target_id = has_id t target_id || stack_has_id stack target_id

pub stack_has_id-push_replies :
    (rs : Replies) (stack : List ThreadNodeView) (target_id : String)
    → stack_has_id (push_replies rs stack) target_id
      ≡ (has_id_replies rs target_id || stack_has_id stack target_id)
unfolding stack_has_id push_replies has_id
stack_has_id-push_replies nil stack target_id = refl
stack_has_id-push_replies (cons t rs) stack target_id =
    ground (arith, stack_has_id-push_replies rs (t ∷ stack) target_id)

contains_loop_lem :
    (fuel : ℕ) (stack : List ThreadNodeView) (target_id : String)
    → stack_size stack ≤ fuel
    → contains_loop fuel stack target_id ≡ some (stack_has_id stack target_id)
unfolding contains_loop stack_has_id stack_size size has_id
contains_loop_lem zero [] target_id h = refl
contains_loop_lem (suc fuel) [] target_id h = refl
contains_loop_lem zero (node i a rs n ∷ stack) target_id h = absurd (omega arith)
contains_loop_lem (suc fuel) (node i a rs n ∷ stack) target_id h = ground (
  arith,
  stack_size-push_replies rs stack,
  stack_has_id-push_replies rs stack target_id,
  contains_loop_lem fuel (push_replies rs stack) target_id,
)

-- The search with an explicit stack ends and answers exactly whether the identifier occurs in the
-- node or one of its descendants.
pub contains_message_id_total :
    (self : ThreadNodeView) (target_id : String)
    → contains_message_id self target_id ≡ some (has_id self target_id)
unfolding contains_message_id stack_has_id stack_size
contains_message_id_total self target_id =
    ground (arith, contains_loop_lem (size self) (self ∷ []) target_id)
