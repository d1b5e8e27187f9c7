-- ===== src/Activity.antt =====
-- `GroupActivity` and `ActivityTracker` of src/nntp/federated.rs: a circular buffer of request
-- counts per group, and the groups that are tracked. `none` stands for a panic (an index out of
-- bounds). A refresh task is the number of its handle; `finished` says which tasks have ended.
pub mod Buckets
pub mod Idle
pub mod Tracker
pub mod Tasks
mod Examples
use september.Base.{
  ℕ, zero, suc, ◌+◌, ◌-◌, ◌/◌, ◌%◌, ◌^◌, min, Bool, true, false, not, ◌&&◌, Option, none, some,
  List, [], ◌∷◌, String, ◌==◌, leb, ltb, if◌then◌else◌, add64, get_elem?, set, replicate, ◌>>=◌,
}

-- ACTIVITY_BUCKET_COUNT, ACTIVITY_WINDOW_SECS and BUCKET_GRANULARITY_SECS
abbrev pub bucket_count : ℕ
bucket_count = 150

abbrev pub window_secs : ℕ
window_secs = 300

abbrev pub bucket_granularity_secs : ℕ
bucket_granularity_secs = window_secs / bucket_count

pub record GroupActivity : Type 0 where
  pub buckets : List ℕ
  pub current_bucket : ℕ
  pub bucket_start_idx : ℕ
  pub total_requests : ℕ
  pub refresh_task : Option ℕ

unfoldable pub new : GroupActivity
new = record {
  buckets = replicate bucket_count 0;
  current_bucket = 0;
  bucket_start_idx = 0;
  total_requests = 0;
  refresh_task = none;
}

unfoldable pub secs_to_bucket_idx : ℕ → ℕ
secs_to_bucket_idx secs = secs / bucket_granularity_secs

-- The loop `for i in 1..=buckets_to_clear`, with the rounds that are left and the next `i`.
pub clear_buckets : ℕ → ℕ → ℕ → List ℕ × ℕ → Option (List ℕ × ℕ)
clear_buckets zero i current state = some state
clear_buckets (suc rounds) i current (buckets, total) = do
  let idx = add64 current i % bucket_count
  count ← get_elem? buckets idx
  clear_buckets rounds (i + 1) current (set buckets idx 0, total - count)

pub move_to : GroupActivity → ℕ → ℕ → Option GroupActivity
unfolding clear_buckets
move_to self now_idx elapsed_buckets = do
  (buckets, total) ←
      clear_buckets (min elapsed_buckets bucket_count) 1 self.current_bucket
        (self.buckets, self.total_requests)
  some (record self {
    buckets = buckets;
    total_requests = total;
    current_bucket = add64 self.current_bucket elapsed_buckets % bucket_count;
    bucket_start_idx = now_idx;
  })

unfoldable pub advance_to : GroupActivity → ℕ → Option GroupActivity
unfolding move_to secs_to_bucket_idx
advance_to self now_secs =
    let now_idx = secs_to_bucket_idx now_secs in
    if self.bucket_start_idx == 0 && self.total_requests == 0
    then some (record self { bucket_start_idx = now_idx })
    else let elapsed_buckets = now_idx - self.bucket_start_idx in
      if elapsed_buckets == 0 then some self else move_to self now_idx elapsed_buckets

-- u32::saturating_add(1)
saturating_inc32 : ℕ → ℕ
saturating_inc32 n = min (n + 1) (2 ^ 32 - 1)

count_request : GroupActivity → Option GroupActivity
count_request self = do
  count ← get_elem? self.buckets self.current_bucket
  some (record self {
    buckets = set self.buckets self.current_bucket (saturating_inc32 count);
    total_requests = add64 self.total_requests 1;
  })

unfoldable pub record_request : GroupActivity → ℕ → Option GroupActivity
unfolding count_request saturating_inc32
record_request self now_secs = do self ← advance_to self now_secs; count_request self

unfoldable pub is_inactive : GroupActivity → ℕ → Option (GroupActivity × Bool)
is_inactive self now_secs = do
  self ← advance_to self now_secs
  some (self, self.total_requests == 0)
