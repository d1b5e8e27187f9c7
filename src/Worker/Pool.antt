-- ===== src/Worker/Pool.antt =====
-- The loop `run` of a worker and the counters that the workers of a service share. An event is what
-- happens to one worker; any order of the events of several workers is an interleaving.
use september.Base.{
  ℕ, ◌+◌, Bool, true, false, Option, none, some, List, [], ◌∷◌, add64, sub64, get_elem?, set,
  if◌then◌else◌, replicate,
}

-- connecting: before the set-up is complete; serving, with what can_post said; stopped: returned.
pub data Phase : Type 0 where
  connecting : Phase
  serving : Bool → Phase
  stopped : Phase

-- The set-up fails in one of its steps, or completes; a request is answered, with success or with
-- an error; the queues are closed.
pub data Event : Type 0 where
  setup_failed : Event
  ready : Bool → Event
  answered : Bool → Event
  closed : Event

pub record WorkerCounters : Type 0 where
  pub connected : ℕ
  pub posting : ℕ

-- fetch_add and fetch_sub wrap around.
unfoldable pub count_up : Bool → WorkerCounters → WorkerCounters
count_up can_post c = record {
  connected = add64 c.connected 1;
  posting = if can_post then add64 c.posting 1 else c.posting;
}

unfoldable pub count_down : Bool → WorkerCounters → WorkerCounters
count_down can_post c = record {
  connected = sub64 c.connected 1;
  posting = if can_post then sub64 c.posting 1 else c.posting;
}

-- What an event makes of one worker; an event that its phase does not allow changes nothing.
unfoldable pub run_worker : Phase → Event → WorkerCounters → Phase × WorkerCounters
run_worker connecting (ready can_post) c = (serving can_post, count_up can_post c)
run_worker (serving can_post) (answered false) c = (connecting, count_down can_post c)
run_worker (serving can_post) closed c = (stopped, count_down can_post c)
run_worker phase event c = (phase, c)

pub record Pool : Type 0 where
  pub workers : List Phase
  pub counters : WorkerCounters

pub step_found : Pool → ℕ → Event → Option Phase → Pool
step_found pool i event none = pool
step_found pool i event (some phase) =
    let (phase', counters') = run_worker phase event pool.counters in
    record { workers = set pool.workers i phase'; counters = counters' }

unfoldable pub step : Pool → ℕ → Event → Pool
unfolding step_found
step pool i event = step_found pool i event (get_elem? pool.workers i)

unfoldable pub run : Pool → List (ℕ × Event) → Pool
run pool [] = pool
run pool ((i, event) ∷ events) = run (step pool i event) events

-- The pool that a service starts with `n` workers.
unfoldable pub fresh : ℕ → Pool
fresh n = record {
  workers = replicate n connecting;
  counters = record { connected = 0; posting = 0 };
}

-- The workers that serve, and those of them that can post.
abbrev pub is_serving : Phase → ℕ
is_serving (serving p) = 1
is_serving _ = 0

abbrev pub is_posting : Phase → ℕ
is_posting (serving true) = 1
is_posting _ = 0

abbrev pub count_serving : List Phase → ℕ
count_serving [] = 0
count_serving (w ∷ workers) = is_serving w + count_serving workers

abbrev pub count_posting : List Phase → ℕ
count_posting [] = 0
count_posting (w ∷ workers) = is_posting w + count_posting workers
