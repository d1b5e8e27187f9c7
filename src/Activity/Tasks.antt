-- ===== src/Activity/Tasks.antt =====
-- The refresh tasks and the tracked groups of an `ActivityTracker`.
use september.Base.{
  ℕ, ◌-◌, ◌<◌, ◌^◌, ◌≡◌, ◌≢◌, refl, Bool, not, Option, none, some, String, Map, lookup, insert,
  lookup-insert, eq_iff, str_eq_refl, arith,
}
use september.Activity
use september.Activity.{GroupActivity, record_request}
use september.Activity.Buckets.{sum, IsValid, record_request-IsValid}
use september.Activity.Tracker.{
  ActivityTracker, now_secs, group_or_new, record_group_request, set_refresh_task, has_refresh_task,
  abort,
}

-- Setting a task for a tracked group makes it the group's only task: the group has a running task
-- exactly if the new task has not ended, the task it replaces is told to stop, and no other group's
-- task changes.
pub set_refresh_task_replaces :
    (finished : ℕ → Bool) (self : ActivityTracker) (group other : String) (task : ℕ)
    (activity : GroupActivity)
    → lookup group self.groups ≡ some activity
    → (has_refresh_task finished (set_refresh_task self group task) group ≡ not (finished task))
      × ((set_refresh_task self group task).aborted ≡ abort activity.refresh_task self.aborted)
      × (group ≢ other
          → has_refresh_task finished (set_refresh_task self group task) other
            ≡ has_refresh_task finished self other)
unfolding has_refresh_task set_refresh_task
set_refresh_task_replaces finished self group other task activity e = (
  ground (
    arith,
    e,
    str_eq_refl group,
    lookup-insert group group (record activity { refresh_task = some task }) self.groups,
  ),
  ground (arith, e),
  λ differ. ground (
    arith,
    e,
    eq_iff group other,
    lookup-insert group other (record activity { refresh_task = some task }) self.groups,
  ),
)

-- Every tracked group is in a valid state.
abbrev pub AllValid : Map GroupActivity → Type 0
AllValid m = (g : String) (a : GroupActivity) → lookup g m ≡ some a → IsValid a

new-IsValid : IsValid Activity.new
unfolding Activity.new sum
new-IsValid = record { size = refl; inside = omega arith; total = refl }

groups-now_secs : (self : ActivityTracker) (now : ℕ) → (now_secs self now).0.groups ≡ self.groups
unfolding now_secs
groups-now_secs self now = ground arith

start-IsValid :
    (o : Option GroupActivity)
    → ((a : GroupActivity) → o ≡ some a → IsValid a)
    → IsValid (group_or_new o)
unfolding group_or_new
start-IsValid none all = new-IsValid
start-IsValid (some a) all = all a refl

start_small :
    (o : Option GroupActivity)
    → ((a : GroupActivity) → o ≡ some a → a.total_requests < 2 ^ 32 - 1)
    → (group_or_new o).total_requests < 2 ^ 32 - 1
unfolding group_or_new Activity.new
start_small none small = omega arith
start_small (some a) small = small a refl

-- Recording a request for a group, tracked or not, whose total is below 2^32 - 1 succeeds on a
-- tracker with valid groups: the groups stay valid, the group has a request in its window, and the
-- other groups are as before.
pub record_group_request-AllValid :
    (self : ActivityTracker) (group : String) (now : ℕ)
    → AllValid self.groups
    → ((a : GroupActivity) → lookup group self.groups ≡ some a → a.total_requests < 2 ^ 32 - 1)
    → (self' : ActivityTracker) × (activity : GroupActivity) × (record_group_request self group now
        ≡ some self')
      × AllValid self'.groups
      × (lookup group self'.groups ≡ some activity)
      × (0 < activity.total_requests)
      × ((other : String) → group ≢ other → lookup other self'.groups ≡ lookup other self.groups)
unfolding record_group_request
record_group_request-AllValid self group now all small =
    let before : Option GroupActivity = lookup group self.groups in
    let same = groups-now_secs self now in
    let (activity, e, valid, used, bound) =
      record_request-IsValid (group_or_new before) (now_secs self now).1
        (start-IsValid before (all group)) (start_small before small) in
    let found = λ (j : String). lookup-insert group j activity self.groups in
    (
      record ((now_secs self now).0) { groups = insert group activity self.groups },
      activity,
      rw (same, e),
      λ g a at. ground (arith, found g, at, all g a, valid),
      ground (arith, found group, str_eq_refl group),
      used,
      λ other differ. ground (arith, found other, eq_iff group other),
    )
