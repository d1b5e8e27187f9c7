-- ===== src/Federated/Injection.antt =====
-- What get_thread answers, and what a posted reply changes in the cached list of threads.
use september.Base.{
  ℕ, suc, ◌+◌, ◌≡◌, ◌⊎◌, refl, sym, ap, subst, ◌∙◌, Bool, true, ◌||◌, Option, none, some, List, [],
  ◌∷◌, String, str_eq, str_eq_refl, eq_iff, arith, length, inl, inr, Bool-cases, Option-cases,
  ◌>>=◌,
}
use september.Federated.{NntpError, AppError, Result, ok, err, Cache}
use september.Federated.Groups.{Directory}
use september.Federated.Threads.{
  CachedThreads, CachedThread, new_node, or_false, find_by_root, find_thread, add_to_thread,
  add_to_list, State, inject_reply, cache_key, get_threads, get_thread, look_up, keep_found,
  after_fetch,
}
use september.Overview.Counts.{bind_inverse}
use september.Thread.{ArticleView, ThreadView, add_reply_to_node, contains_message_id}
use september.Thread.Search.{has_id, contains_message_id_total}
use september.Thread.Reply.{add_reply_effect, has_id-add_reply_to_node}

-- The thread has this root, or the message occurs in it.
abbrev pub IsAbout : String → ThreadView → Type 0
IsAbout message_id t = (t.root_message_id ≡ message_id) ⊎ (has_id t.root message_id ≡ true)

find_thread_sound :
    (id : String) (threads : List ThreadView) (t : ThreadView)
    → find_thread id threads ≡ some t
    → IsAbout id t
unfolding find_thread
find_thread_sound id [] t h = cc
find_thread_sound id (first ∷ threads) t h =
    let total = contains_message_id_total first.root id in
    elim (Bool-cases
      (str_eq first.root_message_id id || or_false (contains_message_id first.root id))) [
        | inr other ↦ find_thread_sound id threads t (rw other at h)
        | inl found ↦
            let hit : ◌≡◌ {A = Option ThreadView} (some first) (some t) = rw found at h in
            let same : first ≡ t = cc in
            elim (Bool-cases (str_eq first.root_message_id id)) [
              | inl root ↦ inl (
                  sym (ap (λ x. x.root_message_id) same) ∙ (eq_iff first.root_message_id id).0 root)
              | inr not_root ↦
                  let inside : has_id first.root id ≡ true =
                    ground (arith, total, found, not_root) in
                  inr (subst (λ x. has_id x.root id ≡ true) same inside)
            ]
      ]

module _ (compute_timeago : String → String) (lists : Cache CachedThreads)
    (single : Cache CachedThread) where
  abbrev S : Type 0
  S = State compute_timeago lists single

  keep_found_sound :
      (self : S) (group id : String) (found : Option ThreadView) (t : ThreadView)
      → ((u : ThreadView) → found ≡ some u → IsAbout id u)
      → (keep_found compute_timeago lists single self group id found).1 ≡ ok t
      → IsAbout id t
  unfolding get_thread
  keep_found_sound self group id none t all h = cc
  keep_found_sound self group id (some u) t all h =
      let same : u ≡ t = cc in subst (IsAbout id) same (all u refl)

  look_up_sound :
      (self : S) (group id : String) (cached : Option CachedThreads) (t : ThreadView)
      → (look_up compute_timeago lists single self group id cached).1 ≡ ok t
      → IsAbout id t
  unfolding get_thread
  look_up_sound self group id none t h = cc
  look_up_sound self group id (some cached) t h =
      keep_found_sound self group id (find_thread id cached.threads) t
        (λ u e. find_thread_sound id cached.threads u e) h

  after_fetch_sound :
      (group id : String) (r : S × Result (List ThreadView) AppError) (t : ThreadView)
      → (after_fetch compute_timeago lists single group id r).1 ≡ ok t
      → IsAbout id t
  unfolding get_thread
  after_fetch_sound group id (self, err e) t h = cc
  after_fetch_sound group id (self, ok threads) t h =
      look_up_sound self group id (lists.get self.threads_cache group) t h

  -- A thread that is not answered from the cache of single threads is one that was asked for: its
  -- root is the message, or the message occurs in its tree.
  pub get_thread_sound :
      (answers : List (Result (List ThreadView) NntpError)) (directory : Directory)
      (last : Option ℕ) (self : S) (group id : String) (r : S × Result ThreadView AppError)
      (t : ThreadView)
      → single.get self.thread_cache (cache_key compute_timeago lists single group id) ≡ none
      → get_thread compute_timeago lists single answers directory last self group id ≡ some r
      → r.1 ≡ ok t
      → IsAbout id t
  unfolding get_thread
  get_thread_sound answers directory last self group id r t miss h good =
      elim (Option-cases (lists.get self.threads_cache group)) [
        | inr (cached, hit) ↦
            let run : some (look_up compute_timeago lists single self group id (some cached))
                ≡ some r =
              rw (miss, get_thread, hit) at h in
            let same : look_up compute_timeago lists single self group id (some cached) ≡ r = cc in
            look_up_sound self group id (some cached) t (ap (λ x. x.1) same ∙ good)
        | inl empty ↦
            let run : (get_threads compute_timeago lists single answers directory last self group
                  >>= (λ x. some (after_fetch compute_timeago lists single group id x)))
                ≡ some r =
              rw (miss, get_thread, empty) at h in
            let (fetched, got, final) =
              bind_inverse
                (get_threads compute_timeago lists single answers directory last self group) _ r
                run in
            let same : after_fetch compute_timeago lists single group id fetched ≡ r = cc in
            after_fetch_sound group id fetched t (ap (λ x. x.1) same ∙ good)
      ]

  -- `after` has the reply below its parent: one article more, and the messages that it had.
  abbrev pub HasReply : ThreadView → ThreadView → String → Type 0
  HasReply before after id =
      (has_id after.root id ≡ true)
      × (after.article_count ≡ before.article_count + 1)
      × ((q : String) → has_id before.root q ≡ true → has_id after.root q ≡ true)

  HasReply-add_to_thread :
      (t : ThreadView) (parent : String) (a : ArticleView)
      → has_id t.root parent ≡ true
      → HasReply t (add_to_thread compute_timeago t parent a).0 a.message_id
  unfolding add_to_thread has_id
  HasReply-add_to_thread t parent a here =
      let (found, same, size) = add_reply_effect t.root parent (new_node a) in
      let known : (add_reply_to_node t.root parent (new_node a)).1 ≡ true = found ∙ here in
      let self : has_id (new_node a) a.message_id ≡ true =
        rw (str_eq_refl a.message_id, has_id) refl in
      rw known (
        rw (has_id-add_reply_to_node t.root parent (new_node a) a.message_id, here, self)
            (or_true (has_id t.root a.message_id)),
        refl,
        λ q h. rw (has_id-add_reply_to_node t.root parent (new_node a) q, h) refl,
      )
    where
      or_true : (x : Bool) → (x || true) ≡ true
      or_true x = ground arith

  root-add_to_thread :
      (t : ThreadView) (parent : String) (a : ArticleView)
      → (add_to_thread compute_timeago t parent a).0.root_message_id ≡ t.root_message_id
  unfolding add_to_thread
  root-add_to_thread t parent a =
      elim (Bool-cases (add_reply_to_node t.root parent (new_node a)).1) [
        | inl found ↦ rw found refl
        | inr lost ↦ rw lost refl
      ]

  find_by_root-add_to_list :
      (threads : List ThreadView) (root parent : String) (a : ArticleView) (t : ThreadView)
      → find_by_root root threads ≡ some t
      → (length (add_to_list compute_timeago threads root parent a) ≡ length threads)
        × (find_by_root root (add_to_list compute_timeago threads root parent a)
            ≡ some (add_to_thread compute_timeago t parent a).0)
  unfolding find_by_root add_to_list
  find_by_root-add_to_list [] root parent a t h = cc
  find_by_root-add_to_list (first ∷ threads) root parent a t h =
      elim (Bool-cases (str_eq first.root_message_id root)) [
        | inr other ↦
            let later : find_by_root root threads ≡ some t = rw other at h in
            let (size, found) = find_by_root-add_to_list threads root parent a t later in
            (rw other (ap suc size), rw (other, other) found)
        | inl same ↦
            let hit : ◌≡◌ {A = Option ThreadView} (some first) (some t) = rw same at h in
            let equal : first ≡ t = cc in
            let kept : (add_to_thread compute_timeago first parent a).0.root_message_id
                ≡ first.root_message_id =
              root-add_to_thread first parent a in
            let named : str_eq (add_to_thread compute_timeago first parent a).0.root_message_id root
                ≡ true =
              rw kept same in
            (
              rw same refl,
              rw (same, named) (ap (λ x. some (add_to_thread compute_timeago x parent a).0) equal),
            )
      ]

  -- When the list of the group is cached and its first thread of the root has the parent, injecting
  -- a reply, if the cache keeps the list, leaves as many threads, and the first thread of that root
  -- has the reply, one article more, and all messages that it had.
  pub inject_reply_listed :
      (self : S) (group root parent : String) (a : ArticleView) (before after : CachedThreads)
      (t : ThreadView)
      → lists.get self.threads_cache group ≡ some before
      → find_by_root root before.threads ≡ some t
      → has_id t.root parent ≡ true
      → lists.get
          (inject_reply compute_timeago lists single self group root parent a).threads_cache
          group
        ≡ some after
      → (length after.threads ≡ length before.threads)
        × ((t' : ThreadView) × (find_by_root root after.threads ≡ some t')
            × HasReply t t' a.message_id)
  unfolding inject_reply
  inject_reply_listed self group root parent a before after t cached first here kept =
      let stored : CachedThreads = record before {
        threads = add_to_list compute_timeago before.threads root parent a;
      } in
      let same : after ≡ stored =
        lists.get-insert_self self.threads_cache group stored after
          (rw (cached, inject_reply) at kept) in
      let (size, found) = find_by_root-add_to_list before.threads root parent a t first in
      (
        ap (λ c. length c.threads) same ∙ size,
        (
          (add_to_thread compute_timeago t parent a).0,
          ap (λ c. find_by_root root c.threads) same ∙ found,
          HasReply-add_to_thread t parent a here,
        ),
      )
