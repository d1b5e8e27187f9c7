-- ===== src/Thread.antt =====
-- The thread tree of src/nntp/mod.rs: `ThreadNodeView`, `ThreadView`, `FlatComment` and the walks
-- over the tree. The two walks with an explicit stack take fuel, one unit for a node that is
-- popped; `none` means that the fuel ran out, and the children of this module prove that the
-- number of nodes is enough.
pub mod Measure
pub mod Search
pub mod Ids
pub mod Flat
pub mod Collapse
pub mod Reply
mod Examples
use september.Base.{
  ℕ, zero, suc, ◌+◌, Bool, true, false, not, ◌&&◌, ◌||◌, Option, none, some, List, [], ◌∷◌, ◌++◌,
  String, str_eq, leb, if◌then◌else◌, ◌>>=◌,
}

pub record ArticleView : Type 0 where
  pub message_id : String
  pub subject : String
  pub from : String
  pub date : String
  pub date_relative : String
  pub body : Option String
  pub body_preview : Option String
  pub has_more_content : Bool
  pub headers : Option String

mutual
  -- message_id, article, replies, descendant_count
  pub data ThreadNodeView : Type 0 where
    node : String → Option ArticleView → Replies → ℕ → ThreadNodeView

  -- Vec<ThreadNodeView>
  pub data Replies : Type 0 where
    nil : Replies
    cons : ThreadNodeView → Replies → Replies

abbrev pub message_id : ThreadNodeView → String
message_id (node i a rs n) = i

abbrev pub replies : ThreadNodeView → Replies
replies (node i a rs n) = rs

abbrev pub descendant_count : ThreadNodeView → ℕ
descendant_count (node i a rs n) = n

pub record ThreadView : Type 0 where
  pub subject : String
  pub root_message_id : String
  pub article_count : ℕ
  pub root : ThreadNodeView
  pub last_post_date : Option String
  pub last_post_date_relative : Option String

pub record FlatComment : Type 0 where
  pub message_id : String
  pub article : Option ArticleView
  pub depth : ℕ
  pub descendant_count : ℕ
  pub starts_collapsed : Bool

-- The number of nodes; the fuel of the walks.
unfoldable mutual
  pub size : ThreadNodeView → ℕ
  size (node i a rs n) = suc (size_replies rs)

  pub size_replies : Replies → ℕ
  size_replies nil = 0
  size_replies (cons t rs) = size t + size_replies rs

is_empty : Replies → Bool
is_empty nil = true
is_empty (cons t rs) = false

-- for reply in &node.replies { stack.push(reply) }: the last reply ends on top.
pub push_replies : Replies → List ThreadNodeView → List ThreadNodeView
push_replies nil stack = stack
push_replies (cons t rs) stack = push_replies rs (t ∷ stack)

-- The `while let Some(node) = stack.pop()` of contains_message_id; the head of the list is the top.
contains_loop : ℕ → List ThreadNodeView → String → Option Bool
contains_loop fuel [] target_id = some false
contains_loop zero (t ∷ stack) target_id = none
contains_loop (suc fuel) (node i a rs n ∷ stack) target_id =
    let rest = contains_loop fuel (push_replies rs stack) target_id in
    if str_eq i target_id then some true else rest

unfoldable pub contains_message_id : ThreadNodeView → String → Option Bool
unfolding contains_loop push_replies
contains_message_id self target_id = contains_loop (size self) (self ∷ []) target_id

-- for reply in node.replies.iter().rev() { stack.push((reply, depth + 1)) }: the first ends on top.
pub push_reversed : Replies → ℕ → List (ThreadNodeView × ℕ) → List (ThreadNodeView × ℕ)
push_reversed nil depth stack = stack
push_reversed (cons t rs) depth stack = (t, depth) ∷ push_reversed rs depth stack

pub comment_at : ThreadNodeView → ℕ → ℕ → FlatComment
comment_at (node i a rs n) depth collapse_threshold = record {
  message_id = i;
  article = a;
  depth = depth;
  descendant_count = n;
  starts_collapsed = leb collapse_threshold depth && not (is_empty rs);
}

flatten_loop : ℕ → List (ThreadNodeView × ℕ) → ℕ → List FlatComment → Option (List FlatComment)
flatten_loop fuel [] collapse_threshold result = some result
flatten_loop zero (t ∷ stack) collapse_threshold result = none
flatten_loop (suc fuel) ((t, depth) ∷ stack) collapse_threshold result =
    flatten_loop fuel (push_reversed (replies t) (depth + 1) stack) collapse_threshold
      (result ++ comment_at t depth collapse_threshold ∷ [])

unfoldable pub flatten : ThreadNodeView → ℕ → Option (List FlatComment)
unfolding flatten_loop push_reversed comment_at is_empty
flatten self collapse_threshold = flatten_loop (size self) ((self, 0) ∷ []) collapse_threshold []

-- replies.push(new_reply)
push_reply : Replies → ThreadNodeView → Replies
push_reply nil t = cons t nil
push_reply (cons r rs) t = cons r (push_reply rs t)

-- The node after the call, and whether the parent was found.
unfoldable mutual
  unfolding push_reply

  pub add_reply_to_node : ThreadNodeView → String → ThreadNodeView → ThreadNodeView × Bool
  add_reply_to_node (node i a rs n) parent_id new_reply =
      let below = add_reply_to_replies rs parent_id new_reply in
      if str_eq i parent_id
      then (node i a (push_reply rs new_reply) (n + 1), true)
      else if below.1
      then (node i a below.0 (n + 1), true)
      else (node i a below.0 n, false)

  pub add_reply_to_replies : Replies → String → ThreadNodeView → Replies × Bool
  add_reply_to_replies nil parent_id new_reply = (nil, false)
  add_reply_to_replies (cons t rs) parent_id new_reply =
      let here = add_reply_to_node t parent_id new_reply in
      let later = add_reply_to_replies rs parent_id new_reply in
      if here.1 then (cons here.0 rs, true) else (cons here.0 later.0, later.1)
