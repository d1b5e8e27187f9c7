-- ===== src/Worker/Queues.antt =====
-- recv_prioritized: which of the three queues a worker takes its next request from. A queue is the
-- list of the requests that wait in it; `none` means that all three are empty and the worker waits.
use september.Base.{ℕ, ◌-◌, ◌/◌, Option, none, some, List, [], ◌∷◌, leb, if◌then◌else◌}

-- NNTP_PRIORITY_AGING_SECS
abbrev pub priority_aging_secs : ℕ
priority_aging_secs = 10

-- Instants are numbers of nanoseconds; as_secs() leaves out the part of a second.
abbrev pub nanos_per_sec : ℕ
nanos_per_sec = 1000000000

module _ (R : Type 0) where
  pub record WorkerQueues : Type 0 where
    pub high : List R
    pub normal : List R
    pub low : List R

  -- A request, the queues without it, and the time when a low request was processed last.
  pub record Received : Type 0 where
    pub request : R
    pub queues : WorkerQueues
    pub last_low_process : ℕ

  -- self.queues.low.try_recv()
  pub try_low : List R → WorkerQueues → ℕ → Option Received
  try_low [] q now = none
  try_low (r ∷ low) q now =
      some (record { request = r; queues = record q { low = low }; last_low_process = now })

  pub try_normal : List R → WorkerQueues → ℕ → ℕ → Option Received
  try_normal [] q now last_low = try_low q.low q now
  try_normal (r ∷ normal) q now last_low =
      some
        (record { request = r; queues = record q { normal = normal }; last_low_process = last_low })

  unfoldable pub try_high : List R → WorkerQueues → ℕ → ℕ → Option Received
  try_high [] q now last_low = try_normal q.normal q now last_low
  try_high (r ∷ high) q now last_low =
      some (record { request = r; queues = record q { high = high }; last_low_process = last_low })

  unfoldable pub or_by_priority : Option Received → WorkerQueues → ℕ → ℕ → Option Received
  or_by_priority none q now last_low = try_high q.high q now last_low
  or_by_priority (some received) q now last_low = some received

  -- `now` is the instant of the call.
  unfoldable pub recv_prioritized : WorkerQueues → ℕ → ℕ → Option Received
  unfolding or_by_priority try_high try_normal try_low
  recv_prioritized q now last_low_process =
      or_by_priority
        (if leb priority_aging_secs ((now - last_low_process) / nanos_per_sec)
          then try_low q.low q now
          else none)
        q now last_low_process
