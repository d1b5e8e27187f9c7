-- ===== src/Activity/Examples.antt =====
-- Tests of the activity tracking and instances of its theorems.
use september.Base.{
  ◌/◌, ℕ, ◌+◌, ◌≤◌, ◌<◌, ◌≡◌, refl, false, Option, none, some, List, [], ◌∷◌, arith,
}
use september.Activity
use september.Activity.{
  GroupActivity, bucket_count, bucket_granularity_secs, advance_to, record_request, is_inactive,
  secs_to_bucket_idx,
}
use september.Activity.Buckets.{sum, IsValid, advance_to-IsValid}
use september.Activity.Idle.{active_within_window}
use september.Activity.Tracker.{ActivityTracker}

-- One request at second 10: the total is one, and the buffer started in bucket 5.
totals : Option GroupActivity → List ℕ
totals none = []
totals (some a) = a.total_requests ∷ a.bucket_start_idx ∷ []

first_request : totals (record_request Activity.new 10) ≡ 1 ∷ 5 ∷ []
unfolding totals record_request advance_to Activity.new
first_request = refl

new-IsValid_again : IsValid Activity.new
unfolding Activity.new sum
new-IsValid_again = record { size = refl; inside = omega arith; total = refl }

advance_to-IsValid_example :
    (a' : GroupActivity) × (advance_to Activity.new 700 ≡ some a')
    × IsValid a'
    × (a'.total_requests ≤ Activity.new.total_requests)
advance_to-IsValid_example = advance_to-IsValid Activity.new 700 new-IsValid_again

active_within_window_example :
    (a' : GroupActivity) × (record_request Activity.new 700 ≡ some a')
    × ((later_secs : ℕ)
        → later_secs / bucket_granularity_secs < 700 / bucket_granularity_secs + bucket_count
        → (b : GroupActivity) × (is_inactive a' later_secs ≡ some (b, false)))
unfolding Activity.new
active_within_window_example = active_within_window Activity.new 700 new-IsValid_again (omega arith)

abbrev refreshed : GroupActivity
refreshed = record Activity.new { refresh_task = some 7 }

abbrev tracked : ActivityTracker
tracked = record { groups = ("comp.lang", refreshed) ∷ []; epoch = some 100; aborted = [] }

abbrev fresh : ActivityTracker
fresh = record { groups = []; epoch = none; aborted = [] }
