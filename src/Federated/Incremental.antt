-- ===== src/Federated/Incremental.antt =====
-- The incremental updates of src/nntp/federated.rs: get_new_articles_coalesced as its leader runs
-- it, trigger_incremental_update, and the refreshes that a hit of get_threads or get_thread starts
-- in the background. Each runs alone here. `none` is a panic, or a stack that is not deep enough
-- for the merge. The prefetch of statistics for a group without a mark is left out.
pub mod Advances
pub mod Merged
mod Examples
use september.Base.{
  ℕ, max, Bool, true, false, Option, none, some, List, [], ◌∷◌, String, Map, ltb, ◌==◌,
  if◌then◌else◌, ◌>>=◌,
}
use september.Federated.{NntpError, AppError, Result, ok, err, Cache}
use september.Federated.Groups.{Directory}
use september.Federated.Marks.{should_check_incremental, get_group_hwm, update_group_hwm}
use september.Federated.Posting.{get_new_articles}
use september.Federated.Threads
use september.Federated.Threads.{CachedThreads, CachedThread, cache_key}
use september.Overview.{Fields, Dates}
use september.Overview.Merge.{merge_articles_into_thread, merge_articles_into_threads}
use september.Thread.{ThreadView}

abbrev pub or_number : Option ℕ → ℕ → ℕ
or_number none n = n
or_number (some m) n = m

abbrev larger : Option ℕ → Option ℕ → Option ℕ
larger none m = m
larger (some n) none = some n
larger (some n) (some m) = some (max n m)

-- `number` is OverviewEntry::number, `keys_last` any key of a map, `depth` the depth of the stack.
module _ {E : Type 0} (fields : Fields E) (dates : Dates) (number : E → Option ℕ)
    (keys_last : Map (List E) → String) (depth : ℕ) where
  -- entries.iter().filter_map(|e| e.number()).max()
  unfoldable pub max_number : List E → Option ℕ
  max_number [] = none
  max_number (e ∷ es) = larger (number e) (max_number es)

  module _ (compute_timeago : String → String) (lists : Cache CachedThreads)
      (single : Cache CachedThread) where
    -- The times of the last checks, and the caches of threads with the high water marks.
    pub record Updates : Type 0 where
      pub last_check : Map ℕ
      pub threads : Threads.State compute_timeago lists single

    abbrev set_hwm :
        String
        → Option ℕ
        → Threads.State compute_timeago lists single
        → Threads.State compute_timeago lists single
    set_hwm group none threads = threads
    set_hwm group (some n) threads = record threads {
      group_hwm = update_group_hwm threads.group_hwm group n;
    }

    -- The high water mark after a fetch.
    abbrev note_numbers : String → Result (List E) AppError → Updates → Updates
    note_numbers group (err e) self = self
    note_numbers group (ok entries) self = record self {
      threads = set_hwm group (max_number entries) self.threads;
    }

    pub fetch_since :
        List (Result (List E) NntpError)
        → Directory
        → Updates
        → String
        → Option (Updates × Result (List E) AppError)
    fetch_since answers directory self group =
        if get_group_hwm self.threads.group_hwm group == 0
        then some (self, ok [])
        else (get_new_articles answers directory group >>= λ result.
            some (note_numbers group result self, result))

    unfoldable pub get_new_articles_coalesced :
        List (Result (List E) NntpError)
        → Directory
        → ℕ
        → Updates
        → String
        → Option (Updates × Result (List E) AppError)
    unfolding fetch_since
    get_new_articles_coalesced answers directory now self group =
        let (checks, pass) = should_check_incremental self.last_check group now in
        let checked = record self { last_check = checks } in
        if pass then fetch_since answers directory checked group else some (checked, ok [])

    abbrev pub merged_list : List E → ℕ → List ThreadView → CachedThreads
    merged_list entries known merged = record {
      threads = merged;
      last_article_number = or_number (max_number entries) known;
    }

    abbrev pub stored :
        String
        → CachedThreads
        → Threads.State compute_timeago lists single
        → Threads.State compute_timeago lists single
    stored group cached threads = record threads {
      threads_cache = lists.insert threads.threads_cache group cached;
    }

    -- The cached list with the entries merged in, if there is one; `known` is the number that
    -- stands when no entry has one.
    unfoldable pub store_merged :
        String
        → List E
        → (CachedThreads → ℕ)
        → Threads.State compute_timeago lists single
        → Option (Threads.State compute_timeago lists single)
    store_merged group entries known threads = elim (lists.get threads.threads_cache group) [
      | none ↦ some threads
      | some cached ↦
          merge_articles_into_threads fields dates keys_last depth cached.threads entries
          >>= λ merged. some (stored group (merged_list entries (known cached) merged) threads)
    ]

    pub merge_new : String → Updates × Result (List E) AppError → Option Updates
    merge_new group (self, err e) = some self
    merge_new group (self, ok []) = some self
    merge_new group (self, ok (entry ∷ entries)) =
        store_merged group (entry ∷ entries) (λ cached. cached.last_article_number) self.threads
        >>= λ threads. some (record self { threads = threads })

    unfoldable pub trigger_incremental_update :
        List (Result (List E) NntpError) → Directory → ℕ → Updates → String → Option Updates
    unfolding merge_new
    trigger_incremental_update answers directory now self group =
        get_new_articles_coalesced answers directory now self group >>= merge_new group

    -- The refresh after a hit of get_threads; `cached_number` is the cached last_article_number.
    pub merge_list :
        String
        → ℕ
        → Threads.State compute_timeago lists single
        → Result (List E) AppError
        → Option (Threads.State compute_timeago lists single)
    merge_list group cached_number threads (err e) = some threads
    merge_list group cached_number threads (ok []) = some threads
    merge_list group cached_number threads (ok (entry ∷ entries)) =
        store_merged group (entry ∷ entries) (λ current. cached_number) threads >>= λ stored.
        some (set_hwm group (some (or_number (max_number (entry ∷ entries)) cached_number)) stored)

    unfoldable pub refresh_list :
        List (Result (List E) NntpError)
        → Directory
        → Threads.State compute_timeago lists single
        → String
        → ℕ
        → Option (Threads.State compute_timeago lists single)
    unfolding merge_list
    refresh_list answers directory threads group cached_number =
        get_new_articles answers directory group >>= merge_list group cached_number threads

    -- The refresh after a hit of get_thread, with the thread that was found.
    pub merge_single :
        String
        → String
        → ThreadView
        → Threads.State compute_timeago lists single
        → Result (List E) AppError
        → Option (Threads.State compute_timeago lists single)
    merge_single group key cached threads (err e) = some threads
    merge_single group key cached threads (ok []) = some threads
    merge_single group key cached threads (ok (entry ∷ entries)) =
        merge_articles_into_thread fields dates cached (entry ∷ entries) >>= λ merged. some (
          if ltb cached.article_count merged.article_count
          then record threads {
            thread_cache =
                single.insert threads.thread_cache key (record { thread = merged; group = group });
          }
          else threads)

    unfoldable pub refresh_thread :
        List (Result (List E) NntpError)
        → Directory
        → Threads.State compute_timeago lists single
        → String
        → String
        → ThreadView
        → Option (Threads.State compute_timeago lists single)
    unfolding merge_single
    refresh_thread answers directory threads group message_id cached =
        if ltb 0 (get_group_hwm threads.group_hwm group)
        then (get_new_articles answers directory group
            >>= merge_single group (cache_key compute_timeago lists single group message_id) cached
                threads)
        else some threads
