-- ===== src/Federated/Incremental/Merged.antt =====
-- What the incremental updates of src/nntp/federated.rs keep of the cached threads.
use september.Base.{
  ℕ, ◌≤◌, ◌≡◌, refl, sym, ◌∙◌, ap, subst, Option, some, List, [], ◌∷◌, String, Map, lookup, arith,
  ◌>>=◌,
}
use september.Federated.{NntpError, AppError, Result, ok, err, Cache}
use september.Federated.Groups.{Directory}
use september.Federated.Incremental.{
  Updates, get_new_articles_coalesced, store_merged, merged_list, stored, merge_new,
  trigger_incremental_update,
}
use september.Federated.Marks.{get_group_hwm}
use september.Federated.Threads
use september.Federated.Threads.{CachedThreads, CachedThread}
use september.Overview.{Fields, Dates}
use september.Overview.Counts.{bind_inverse}
use september.Overview.Kept.{Grows-refl}
use september.Overview.Merge.{by_root, merge_articles_into_threads}
use september.Overview.Threads.{In, Extends, merge_articles_into_threads_keeps}
use september.Thread.{ThreadView}
use september.Federated.Incremental.Advances.{get_new_articles_coalesced-Advances}

module _ {E : Type 0} (fields : Fields E) (dates : Dates) (number : E → Option ℕ)
    (keys_last : Map (List E) → String) (depth : ℕ) (compute_timeago : String → String)
    (lists : Cache CachedThreads) (single : Cache CachedThread) where
  abbrev State : Type 0
  State = Updates fields dates number keys_last depth compute_timeago lists single

  abbrev listing : List E → ℕ → List ThreadView → CachedThreads
  listing = merged_list fields dates number keys_last depth compute_timeago lists single

  abbrev put :
      String
      → CachedThreads
      → Threads.State compute_timeago lists single
      → Threads.State compute_timeago lists single
  put = stored fields dates number keys_last depth compute_timeago lists single

  unchanged :
      (group : String) (before after : State) (cached held : CachedThreads) (thread : ThreadView)
      → before ≡ after
      → lists.get before.threads.threads_cache group ≡ some cached
      → In fields dates thread cached.threads
      → lists.get after.threads.threads_cache group ≡ some held
      → (after.threads.group_hwm ≡ before.threads.group_hwm)
        × (later : ThreadView) × In fields dates later held.threads
        × Extends fields dates thread later
  unchanged group before after cached held thread same hit inside read =
      let found : some cached ≡ some held =
        sym hit
        ∙ subst (λ (s : State). lists.get s.threads.threads_cache group ≡ some held) (sym same)
            read in
      let value : cached ≡ held = cc in
      (
        ap (λ (s : State). s.threads.group_hwm) (sym same),
        thread,
        subst (λ h. In fields dates thread h.threads) value inside,
        (refl, omega arith, Grows-refl thread.root),
      )

  -- What the merge stores for a group whose list is cached.
  store_merged-keeps :
      (group : String) (entry : E) (entries : List E) (number_of : CachedThreads → ℕ)
      (threads after : Threads.State compute_timeago lists single) (cached held : CachedThreads)
      (thread : ThreadView)
      → store_merged fields dates number keys_last depth compute_timeago lists single group
          (entry ∷ entries)
          number_of
          threads
        ≡ some after
      → lists.get threads.threads_cache group ≡ some cached
      → lookup thread.root_message_id (by_root fields dates keys_last cached.threads [])
        ≡ some thread
      → lists.get after.threads_cache group ≡ some held
      → (after.group_hwm ≡ threads.group_hwm)
        × (later : ThreadView) × In fields dates later held.threads
        × Extends fields dates thread later
  unfolding store_merged
  store_merged-keeps group entry entries number_of threads after cached held thread run hit known
        read =
      let store : List ThreadView → Threads.State compute_timeago lists single =
        λ merged. put group (listing (entry ∷ entries) (number_of cached) merged) threads in
      let e : (merge_articles_into_threads fields dates keys_last depth cached.threads
              (entry ∷ entries)
            >>= λ merged. some (store merged))
          ≡ some after =
        sym (rw (hit, store_merged) refl) ∙ run in
      let (merged, made, final) =
        bind_inverse
          (merge_articles_into_threads fields dates keys_last depth cached.threads
            (entry ∷ entries))
          (λ merged. some (store merged)) after e in
      let same : store merged ≡ after = cc final in
      let (later, inside, extends) =
        merge_articles_into_threads_keeps fields dates keys_last depth cached.threads merged entry
          entries thread made known in
      let value : held ≡ listing (entry ∷ entries) (number_of cached) merged =
        lists.get-insert_self threads.threads_cache group
          (listing (entry ∷ entries) (number_of cached) merged) held
          (subst (λ s. lists.get s.threads_cache group ≡ some held) (sym same) read) in
      (
        ap (λ s. s.group_hwm) (sym same),
        later,
        subst (λ h. In fields dates later h.threads) (sym value) inside,
        extends,
      )

  merge_new-keeps :
      (group : String) (result : Result (List E) AppError) (before after : State)
      (cached held : CachedThreads) (thread : ThreadView)
      → merge_new fields dates number keys_last depth compute_timeago lists single group
          (before, result)
        ≡ some after
      → lists.get before.threads.threads_cache group ≡ some cached
      → lookup thread.root_message_id (by_root fields dates keys_last cached.threads [])
        ≡ some thread
      → In fields dates thread cached.threads
      → lists.get after.threads.threads_cache group ≡ some held
      → (after.threads.group_hwm ≡ before.threads.group_hwm)
        × (later : ThreadView) × In fields dates later held.threads
        × Extends fields dates thread later
  unfolding merge_new
  merge_new-keeps group (err e) before after cached held thread run hit known inside read =
      unchanged group before after cached held thread (cc run) hit inside read
  merge_new-keeps group (ok []) before after cached held thread run hit known inside read =
      unchanged group before after cached held thread (cc run) hit inside read
  merge_new-keeps group (ok (entry ∷ entries)) before after cached held thread run hit known inside
        read =
      let (threads, stored_now, final) =
        bind_inverse
          (store_merged fields dates number keys_last depth compute_timeago lists single group
            (entry ∷ entries) (λ c. c.last_article_number) before.threads)
          (λ threads. some (record before { threads = threads })) after run in
      let whole : ◌≡◌ {A = State} (record before { threads = threads }) after = cc final in
      let same : threads ≡ after.threads = ap (λ (s : State). s.threads) whole in
      let (marks, later, there, extends) =
        store_merged-keeps group entry entries (λ c. c.last_article_number) before.threads threads
          cached held thread stored_now hit known
          (subst (λ s. lists.get s.threads_cache group ≡ some held) (sym same) read) in
      (ap (λ s. s.group_hwm) (sym same) ∙ marks, later, there, extends)

  -- After an incremental update that succeeds no high water mark is lower, and a thread of the
  -- group's cached list that is found by its root is still in the list that the cache holds then,
  -- with the same root and all its messages, and at least as many articles.
  pub trigger_incremental_update_keeps :
      (answers : List (Result (List E) NntpError)) (directory : Directory) (now : ℕ)
      (before after : State) (group : String) (cached held : CachedThreads) (thread : ThreadView)
      → trigger_incremental_update fields dates number keys_last depth compute_timeago lists single
          answers directory now before group
        ≡ some after
      → lists.get before.threads.threads_cache group ≡ some cached
      → lookup thread.root_message_id (by_root fields dates keys_last cached.threads [])
        ≡ some thread
      → In fields dates thread cached.threads
      → lists.get after.threads.threads_cache group ≡ some held
      → ((other : String)
          → get_group_hwm before.threads.group_hwm other
            ≤ get_group_hwm after.threads.group_hwm other)
        × (later : ThreadView) × In fields dates later held.threads
        × Extends fields dates thread later
  unfolding trigger_incremental_update
  trigger_incremental_update_keeps answers directory now before after group cached held thread run
        hit known inside read =
      let ((checked, result), fetched, merging) =
        bind_inverse
          (get_new_articles_coalesced fields dates number keys_last depth compute_timeago lists
            single answers directory now before group)
          (merge_new fields dates number keys_last depth compute_timeago lists single group) after
          run in
      let (lists_same, risen) =
        get_new_articles_coalesced-Advances fields dates number keys_last depth compute_timeago
          lists single answers directory now before group checked result fetched in
      let (marks, later, there, extends) =
        merge_new-keeps group result checked after cached held thread merging
          (subst (λ s. lists.get s group ≡ some cached) (sym lists_same) hit) known inside read in
      (
        λ other.
            subst (λ m. get_group_hwm before.threads.group_hwm other ≤ get_group_hwm m other)
              (sym marks) (risen other),
        later,
        there,
        extends,
      )
