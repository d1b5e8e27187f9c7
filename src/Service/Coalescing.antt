-- ===== src/Service/Coalescing.antt =====
-- get_article, get_threads, get_group_stats and get_groups of the service: the callers of equal
-- requests share one request to the workers. A key is the message id, the group with the count, the
-- group, or one fixed text for the list of groups; a channel is the number of a broadcast channel.
-- What a caller does between two waits is one step.
use september.Base.{
  ℕ, suc, ◌-◌, ◌≤◌, ◌≡◌, Bool, true, false, Option, none, some, List, [], ◌∷◌, String, Map, lookup,
  insert, remove, ltb, ◌==◌, if◌then◌else◌,
}
use september.Base.Text.{codes}
use september.Base.Callers.{update}
use september.Federated.{NntpError, Result, err}

-- Where a caller stands. `A` is the type of the answers.
pub data Phase (A : Type 0) : Type 0 where
  idle : Phase A
  -- It has registered its key with its channel, and sends the request to the workers.
  sending : String → ℕ → Phase A
  -- It waits for a worker, since a time.
  leading : String → ℕ → ℕ → Phase A
  -- It has the result, and waits for the lock to take its key off.
  finishing : String → ℕ → Result A NntpError → Phase A
  -- It has taken the key off, and is about to broadcast.
  broadcasting : ℕ → Result A NntpError → Phase A
  -- It waits on the channel of another caller, since a time.
  waiting : ℕ → ℕ → Phase A
  done : Result A NntpError → Phase A
  -- The call was dropped at one of its waits, as the web server does when a client has gone.
  cancelled : Phase A → Phase A

-- The pending requests with their channels and starting times, the number of channels that were
-- made, and what was sent on them.
pub record Shared (A : Type 0) : Type 0 where
  pub pending : Map (ℕ × ℕ)
  pub next_channel : ℕ
  pub messages : List (ℕ × Result A NntpError)

pub record Service (A : Type 0) : Type 0 where
  pub shared : Shared A
  pub callers : ℕ → Phase A

-- What comes of `timeout(request_timeout, resp_rx)`.
pub data Reply (A : Type 0) : Type 0 where
  replied : Result A NntpError → Reply A
  dropped : Reply A
  timed_out : Reply A

module _ {A : Type 0} where
  unfoldable pub outcome : Reply A → Result A NntpError
  outcome (replied result) = result
  outcome dropped = err (codes "Worker dropped request")
  outcome timed_out = err (codes "Request timeout")

  unfoldable pub register : String → ℕ → Shared A → Phase A × Shared A
  register key now s = (
    sending key s.next_channel,
    record s {
      pending = insert key (s.next_channel, now) s.pending;
      next_channel = suc s.next_channel;
    },
  )

  unfoldable pub join_or_register : ℕ → String → ℕ → Shared A → Option (ℕ × ℕ) → Phase A × Shared A
  join_or_register request_timeout key now s none = register key now s
  join_or_register request_timeout key now s (some (channel, started_at)) =
      if ltb (now - started_at) request_timeout
      then (waiting channel now, s)
      else register key now (record s { pending = remove key s.pending })

  -- What a new caller does under the lock.
  unfoldable pub enter : ℕ → String → ℕ → Shared A → Phase A × Shared A
  unfolding join_or_register register
  enter request_timeout key now s =
      join_or_register request_timeout key now s (lookup key s.pending)

  unfoldable pub unregister : String → Shared A → Shared A
  unregister key s = record s { pending = remove key s.pending }

  unfoldable pub send : ℕ → Result A NntpError → Shared A → Shared A
  send channel result s = record s { messages = (channel, result) ∷ s.messages }

  abbrev pub message_on : ℕ → List (ℕ × Result A NntpError) → Option (Result A NntpError)
  message_on channel [] = none
  message_on channel ((c, result) ∷ messages) =
      if c == channel then some result else message_on channel messages

  abbrev pub place : Service A → ℕ → Phase A × Shared A → Service A
  place s i (phase, shared) = record { shared = shared; callers = update s.callers i phase }

  -- The caller holds the sender of the channel.
  abbrev pub owns : Phase A → ℕ → Bool
  owns (sending key c) channel = c == channel
  owns (leading key c since) channel = c == channel
  owns (finishing key c result) channel = c == channel
  owns (broadcasting c result) channel = c == channel
  owns _ channel = false

  -- The caller is at a wait, where its call can be dropped.
  abbrev pub is_awaiting : Phase A → Bool
  is_awaiting (sending key c) = true
  is_awaiting (leading key c since) = true
  is_awaiting (finishing key c result) = true
  is_awaiting (waiting c since) = true
  is_awaiting _ = false

  -- Nobody can send on the channel any more.
  abbrev pub IsClosed : Service A → ℕ → Type 0
  IsClosed s channel =
      ((i : ℕ) → owns (s.callers i) channel ≡ false)
      × ((key : String) (started_at : ℕ)
          → ¬ (lookup key s.shared.pending ≡ some (channel, started_at)))

  -- One step of one caller. Sending fails only when the pool is closed, `pool_open` is false.
  pub data Step (request_timeout : ℕ) (pool_open : Bool) : Service A → Service A → Type 0 where
    enters :
        (s : Service A) (i : ℕ) (key : String) (now : ℕ)
        → s.callers i ≡ idle
        → Step request_timeout pool_open s (place s i (enter request_timeout key now s.shared))
    sends :
        (s : Service A) (i : ℕ) (key : String) (channel now : ℕ)
        → s.callers i ≡ sending key channel
        → Step request_timeout pool_open s (place s i (leading key channel now, s.shared))
    fails :
        (s : Service A) (i : ℕ) (key : String) (channel : ℕ)
        → s.callers i ≡ sending key channel
        → pool_open ≡ false
        → Step request_timeout pool_open s
            (place s i (done (err (codes "Worker pool closed")), s.shared))
    replies :
        (s : Service A) (i : ℕ) (key : String) (channel since now : ℕ) (reply : Reply A)
        → s.callers i ≡ leading key channel since
        → (reply ≡ timed_out → request_timeout ≤ now - since)
        → Step request_timeout pool_open s
            (place s i (finishing key channel (outcome reply), s.shared))
    unregisters :
        (s : Service A) (i : ℕ) (key : String) (channel : ℕ) (result : Result A NntpError)
        → s.callers i ≡ finishing key channel result
        → Step request_timeout pool_open s
            (place s i (broadcasting channel result, unregister key s.shared))
    broadcasts :
        (s : Service A) (i channel : ℕ) (result : Result A NntpError)
        → s.callers i ≡ broadcasting channel result
        → Step request_timeout pool_open s (place s i (done result, send channel result s.shared))
    receives :
        (s : Service A) (i channel since : ℕ) (result : Result A NntpError)
        → s.callers i ≡ waiting channel since
        → message_on channel s.shared.messages ≡ some result
        → Step request_timeout pool_open s (place s i (done result, s.shared))
    gives_up :
        (s : Service A) (i channel since now : ℕ)
        → s.callers i ≡ waiting channel since
        → request_timeout ≤ now - since
        → Step request_timeout pool_open s
            (place s i (done (err (codes "Request timeout")), s.shared))
    closes :
        (s : Service A) (i channel since : ℕ)
        → s.callers i ≡ waiting channel since
        → message_on channel s.shared.messages ≡ none
        → IsClosed s channel
        → Step request_timeout pool_open s
            (place s i (done (err (codes "Broadcast channel closed")), s.shared))
    cancels :
        (s : Service A) (i : ℕ) (p : Phase A)
        → s.callers i ≡ p
        → is_awaiting p ≡ true
        → Step request_timeout pool_open s (place s i (cancelled p, s.shared))

  pub data Reach (request_timeout : ℕ) (pool_open : Bool) (s : Service A) : Service A → Type 0 where
    here : Reach request_timeout pool_open s s
    next :
        {t u : Service A}
        → Reach request_timeout pool_open s t
        → Step request_timeout pool_open t u
        → Reach request_timeout pool_open s u

  -- A service whose callers have not called.
  unfoldable pub new : Service A
  new = record {
    shared = record { pending = []; next_channel = 0; messages = [] };
    callers = λ i. idle;
  }
