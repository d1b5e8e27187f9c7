-- ===== src/Activity/Tracker.antt =====
-- `ActivityTracker`: the groups with their activity, the epoch of its clock, and the refresh tasks.
use september.Base.{
  ℕ, ◌-◌, Bool, false, not, Option, none, some, List, [], ◌∷◌, String, Map, lookup, insert, ◌>>=◌,
  if◌then◌else◌, map,
}
use september.Activity
use september.Activity.{GroupActivity, record_request, is_inactive}

pub record ActivityTracker : Type 0 where
  pub groups : Map GroupActivity
  pub epoch : Option ℕ
  -- The handles of the tasks that were told to stop, newest first.
  pub aborted : List ℕ

pub empty : ActivityTracker
empty = record { groups = []; epoch = none; aborted = [] }

-- The seconds since the epoch; the first call sets it to the present instant.
unfoldable pub now_secs : ActivityTracker → ℕ → ActivityTracker × ℕ
now_secs self now = elim self.epoch [
  | some epoch ↦ (self, now - epoch)
  | none ↦ (record self { epoch = some now }, 0)
]

unfoldable pub group_or_new : Option GroupActivity → GroupActivity
group_or_new none = Activity.new
group_or_new (some activity) = activity

unfoldable pub record_group_request : ActivityTracker → String → ℕ → Option ActivityTracker
record_group_request self group now = do
  let (self', secs) = now_secs self now
  activity ← record_request (group_or_new (lookup group self'.groups)) secs
  some (record self' { groups = insert group activity self'.groups })

-- self.groups.retain(|_, activity| !activity.is_inactive(now_secs))
retain_active : Map GroupActivity → ℕ → Option (Map GroupActivity)
retain_active [] secs = some []
retain_active ((group, activity) ∷ rest) secs = do
  kept ← retain_active rest secs
  (activity', inactive) ← is_inactive activity secs
  some (if inactive then kept else (group, activity') ∷ kept)

keys : Map GroupActivity → List String
keys = map λ entry. entry.0

unfoldable pub active_groups : ActivityTracker → ℕ → Option (ActivityTracker × List String)
unfolding retain_active keys
active_groups self now = do
  let (self', secs) = now_secs self now
  groups ← retain_active self'.groups secs
  some (record self' { groups = groups }, keys groups)

pub abort : Option ℕ → List ℕ → List ℕ
abort none aborted = aborted
abort (some old_task) aborted = old_task ∷ aborted

unfoldable pub set_refresh_task : ActivityTracker → String → ℕ → ActivityTracker
unfolding abort
set_refresh_task self group task = elim (lookup group self.groups) [
  | some activity ↦ record self {
    groups = insert group (record activity { refresh_task = some task }) self.groups;
    aborted = abort activity.refresh_task self.aborted;
  }
  | none ↦ self
]

-- `finished` says of a task whether it has ended.
unfoldable pub has_refresh_task : (ℕ → Bool) → ActivityTracker → String → Bool
has_refresh_task finished self group = elim (lookup group self.groups) [
  | some activity ↦ elim activity.refresh_task [ some task ↦ not (finished task) | none ↦ false ]
  | none ↦ false
]
