-- ===== src/Thread/Reply.antt =====
-- add_reply_to_node: what a reply changes in a thread tree.
use september.Base.{◌+◌, ◌≡◌, refl, false, ◌&&◌, ◌||◌, String, arith, if◌then◌else◌}
use september.Thread.{
  ThreadNodeView, Replies, node, nil, cons, size, size_replies, push_reply, add_reply_to_node,
  add_reply_to_replies,
}
use september.Thread.Search.{has_id, has_id_replies}
use september.Thread.Collapse.{IsCounted, AreCounted}

mutual
  unfolding add_reply_to_node has_id

  found-add_reply :
      (t : ThreadNodeView) (parent_id : String) (r : ThreadNodeView)
      → (add_reply_to_node t parent_id r).1 ≡ has_id t parent_id
  found-add_reply (node i a rs n) parent_id r =
      ground (arith, found-add_reply_replies rs parent_id r)

  found-add_reply_replies :
      (rs : Replies) (parent_id : String) (r : ThreadNodeView)
      → (add_reply_to_replies rs parent_id r).1 ≡ has_id_replies rs parent_id
  found-add_reply_replies nil parent_id r = refl
  found-add_reply_replies (cons t rs) parent_id r =
      ground (arith, found-add_reply t parent_id r, found-add_reply_replies rs parent_id r)

mutual
  unfolding add_reply_to_node has_id

  unchanged-add_reply :
      (t : ThreadNodeView) (parent_id : String) (r : ThreadNodeView)
      → has_id t parent_id ≡ false
      → (add_reply_to_node t parent_id r).0 ≡ t
  unchanged-add_reply (node i a rs n) parent_id r h =
      ground
        (arith, found-add_reply_replies rs parent_id r, unchanged-add_reply_replies rs parent_id r)

  unchanged-add_reply_replies :
      (rs : Replies) (parent_id : String) (r : ThreadNodeView)
      → has_id_replies rs parent_id ≡ false
      → (add_reply_to_replies rs parent_id r).0 ≡ rs
  unchanged-add_reply_replies nil parent_id r h = refl
  unchanged-add_reply_replies (cons t rs) parent_id r h = ground (
    arith,
    found-add_reply t parent_id r,
    unchanged-add_reply t parent_id r,
    unchanged-add_reply_replies rs parent_id r,
  )

size-push_reply :
    (rs : Replies) (r : ThreadNodeView) → size_replies (push_reply rs r) ≡ size_replies rs + size r
unfolding push_reply size
size-push_reply nil r = omega arith
size-push_reply (cons t rs) r = omega (arith, size-push_reply rs r)

has_id-push_reply :
    (rs : Replies) (r : ThreadNodeView) (q : String)
    → has_id_replies (push_reply rs r) q ≡ (has_id_replies rs q || has_id r q)
unfolding push_reply has_id
has_id-push_reply nil r q = ground arith
has_id-push_reply (cons t rs) r q = ground (arith, has_id-push_reply rs r q)

mutual
  unfolding add_reply_to_node has_id size

  size-add_reply :
      (t : ThreadNodeView) (parent_id : String) (r : ThreadNodeView)
      → size (add_reply_to_node t parent_id r).0
        ≡ size t + (if has_id t parent_id then size r else 0)
  size-add_reply (node i a rs n) parent_id r = ground (
    arith,
    found-add_reply_replies rs parent_id r,
    size-push_reply rs r,
    size-add_reply_replies rs parent_id r,
  )

  size-add_reply_replies :
      (rs : Replies) (parent_id : String) (r : ThreadNodeView)
      → size_replies (add_reply_to_replies rs parent_id r).0
        ≡ size_replies rs + (if has_id_replies rs parent_id then size r else 0)
  size-add_reply_replies nil parent_id r = omega arith
  size-add_reply_replies (cons t rs) parent_id r = ground (
    arith,
    found-add_reply t parent_id r,
    size-add_reply t parent_id r,
    size-add_reply_replies rs parent_id r,
  )

mutual
  unfolding add_reply_to_node has_id

  has_id-add_reply :
      (t : ThreadNodeView) (parent_id : String) (r : ThreadNodeView) (q : String)
      → has_id (add_reply_to_node t parent_id r).0 q
        ≡ (has_id t q || (has_id t parent_id && has_id r q))
  has_id-add_reply (node i a rs n) parent_id r q = ground (
    arith,
    found-add_reply_replies rs parent_id r,
    has_id-push_reply rs r q,
    has_id-add_reply_replies rs parent_id r q,
  )

  has_id-add_reply_replies :
      (rs : Replies) (parent_id : String) (r : ThreadNodeView) (q : String)
      → has_id_replies (add_reply_to_replies rs parent_id r).0 q
        ≡ (has_id_replies rs q || (has_id_replies rs parent_id && has_id r q))
  has_id-add_reply_replies nil parent_id r q = refl
  has_id-add_reply_replies (cons t rs) parent_id r q = ground (
    arith,
    found-add_reply t parent_id r,
    unchanged-add_reply t parent_id r,
    has_id-add_reply t parent_id r q,
    has_id-add_reply_replies rs parent_id r q,
  )

-- Adding a reply reports whether the parent occurs in the tree; if it does not, the tree is left as
-- it is, and if it does, the tree has the nodes of the reply more.
pub add_reply_effect :
    (t : ThreadNodeView) (parent_id : String) (r : ThreadNodeView)
    → ((add_reply_to_node t parent_id r).1 ≡ has_id t parent_id)
      × (has_id t parent_id ≡ false → (add_reply_to_node t parent_id r).0 ≡ t)
      × (size (add_reply_to_node t parent_id r).0
          ≡ size t + (if has_id t parent_id then size r else 0))
add_reply_effect t parent_id r =
    (found-add_reply t parent_id r, unchanged-add_reply t parent_id r, size-add_reply t parent_id r)

AreCounted-push_reply :
    (rs : Replies) (r : ThreadNodeView) → AreCounted rs → IsCounted r → AreCounted (push_reply rs r)
unfolding push_reply IsCounted
AreCounted-push_reply nil r c d = (d, tt)
AreCounted-push_reply (cons t rs) r c d = (c.0, AreCounted-push_reply rs r c.1 d)

mutual
  unfolding add_reply_to_node IsCounted size

  IsCounted-add_reply :
      (t : ThreadNodeView) (parent_id : String) (r : ThreadNodeView)
      → size r ≡ 1
      → IsCounted r
      → IsCounted t
      → IsCounted (add_reply_to_node t parent_id r).0
  IsCounted-add_reply (node i a rs n) parent_id r one d c = ground (
    arith,
    found-add_reply_replies rs parent_id r,
    size-push_reply rs r,
    size-add_reply_replies rs parent_id r,
    AreCounted-push_reply rs r c.1 d,
    IsCounted-add_reply_replies rs parent_id r one d c.1,
  )

  IsCounted-add_reply_replies :
      (rs : Replies) (parent_id : String) (r : ThreadNodeView)
      → size r ≡ 1
      → IsCounted r
      → AreCounted rs
      → AreCounted (add_reply_to_replies rs parent_id r).0
  IsCounted-add_reply_replies nil parent_id r one d c = tt
  IsCounted-add_reply_replies (cons t rs) parent_id r one d c = ground (
    arith,
    IsCounted-add_reply t parent_id r one d c.0,
    IsCounted-add_reply_replies rs parent_id r one d c.1,
  )

-- Adding a reply without replies of its own keeps every cached descendant count right.
pub add_reply-IsCounted :
    (t : ThreadNodeView) (parent_id : String) (r : ThreadNodeView)
    → size r ≡ 1
    → IsCounted r
    → IsCounted t
    → IsCounted (add_reply_to_node t parent_id r).0
add_reply-IsCounted t parent_id r one d c = IsCounted-add_reply t parent_id r one d c

-- After adding a reply the tree has the identifiers that it had, and those of the reply exactly if
-- the parent was found.
pub has_id-add_reply_to_node :
    (t : ThreadNodeView) (parent_id : String) (r : ThreadNodeView) (q : String)
    → has_id (add_reply_to_node t parent_id r).0 q
      ≡ (has_id t q || (has_id t parent_id && has_id r q))
has_id-add_reply_to_node t parent_id r q = has_id-add_reply t parent_id r q
