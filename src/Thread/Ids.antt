-- ===== src/Thread/Ids.antt =====
-- collect_all_message_ids: the set of the identifiers of a thread tree.
use september.Base.{
  ℕ, zero, suc, ◌≤◌, ◌≡◌, refl, Bool, false, ◌||◌, Option, none, some, List, [], ◌∷◌, String,
  str_eq, arith,
}
use september.Thread.{ThreadNodeView, node, size, push_replies}
use september.Thread.Measure.{stack_size, stack_size-push_replies}
use september.Thread.Search.{has_id, has_id_replies, stack_has_id, stack_has_id-push_replies}

-- ids.contains(id)
abbrev pub is_member : String → List String → Bool
is_member id [] = false
is_member id (first ∷ ids) = str_eq first id || is_member id ids

-- The `while let Some(n) = stack.pop()` of collect_all_message_ids.
collect_loop : ℕ → List ThreadNodeView → List String → Option (List String)
collect_loop fuel [] ids = some ids
collect_loop zero (t ∷ stack) ids = none
collect_loop (suc fuel) (node i a rs n ∷ stack) ids =
    collect_loop fuel (push_replies rs stack) (i ∷ ids)

unfoldable pub collect_all_message_ids : ThreadNodeView → Option (List String)
unfolding collect_loop push_replies
collect_all_message_ids self = collect_loop (size self) (self ∷ []) []

shuffle : (a b c d : Bool) → ((b || c) || (a || d)) ≡ (((a || b) || c) || d)
shuffle a b c d = ground arith

collect_loop_lem :
    (fuel : ℕ) (stack : List ThreadNodeView) (ids : List String)
    → stack_size stack ≤ fuel
    → (all : List String) × (collect_loop fuel stack ids ≡ some all)
      × ((q : String) → is_member q all ≡ (stack_has_id stack q || is_member q ids))
unfolding collect_loop stack_has_id stack_size size has_id
collect_loop_lem zero [] ids h = (ids, refl, λ q. refl)
collect_loop_lem (suc fuel) [] ids h = (ids, refl, λ q. refl)
collect_loop_lem zero (node i a rs n ∷ stack) ids h = absurd (omega arith)
collect_loop_lem (suc fuel) (node i a rs n ∷ stack) ids h =
    let (all, run, same) =
      collect_loop_lem fuel (push_replies rs stack) (i ∷ ids)
        (omega (arith, stack_size-push_replies rs stack)) in
    (
      all,
      run,
      λ q.
          rw (same q, stack_has_id-push_replies rs stack q)
            (shuffle (str_eq i q) (has_id_replies rs q) (stack_has_id stack q) (is_member q ids)),
    )

-- The walk ends, and the set that it collects has exactly the identifiers that occur in the tree.
pub collect_all_message_ids_exact :
    (self : ThreadNodeView)
    → (ids : List String) × (collect_all_message_ids self ≡ some ids)
      × ((q : String) → is_member q ids ≡ has_id self q)
unfolding collect_all_message_ids stack_has_id stack_size
collect_all_message_ids_exact self =
    let (ids, run, same) = collect_loop_lem (size self) (self ∷ []) [] (omega arith) in
    (ids, run, λ q. ground (arith, same q))
