-- ===== src/Service/Calls.antt =====
-- The calls of src/nntp/service.rs from start to end, as one caller sees them: `reply` is what
-- comes of the wait for a worker, `from_other` what comes of the wait on the channel of another
-- caller.
use september.Base.{
  ℕ, zero, suc, ◌-◌, ◌/◌, ◌%◌, Bool, true, false, Option, none, some, List, [], ◌∷◌, ◌++◌, String,
  lookup, remove, ltb, ◌==◌, if◌then◌else◌, length,
}
use mathlib.Core.Option
use september.Base.Text.{codes}
use september.Federated.{NntpError, Result, ok, err}
use september.Federated.Groups.{GroupView}
use september.Thread.{ArticleView, ThreadView}
use september.Worker.Messages.{NntpRequest, Priority, priority, high, normal, low, GroupStatsView}
use september.Worker.Queues.{WorkerQueues}
use september.Worker.Pool.{WorkerCounters}
use september.Service.Coalescing.{Shared, Reply, outcome, register, unregister, send}

-- What comes of `timeout(request_timeout, rx.recv())`.
pub data Heard (A : Type 0) : Type 0 where
  heard : Result A NntpError → Heard A
  closed : Heard A
  too_late : Heard A

module _ {A : Type 0} where
  unfoldable pub wait : Heard A → Result A NntpError
  wait (heard result) = result
  wait closed = err (codes "Broadcast channel closed")
  wait too_late = err (codes "Request timeout")

  -- The request is sent to the workers, and the result goes to the callers that joined.
  unfoldable pub lead : String → ℕ → Bool → Reply A → Shared A → Result A NntpError × Shared A
  lead key now pool_open reply s =
      let registered = (register key now s).1 in
      if pool_open
      then (outcome reply, send s.next_channel (outcome reply) (unregister key registered))
      else (err (codes "Worker pool closed"), registered)

  unfoldable pub join_or_lead :
      ℕ
      → String
      → ℕ
      → Bool
      → Reply A
      → Heard A
      → Shared A
      → Option (ℕ × ℕ)
      → Result A NntpError × Shared A
  join_or_lead request_timeout key now pool_open reply from_other s none =
      lead key now pool_open reply s
  join_or_lead request_timeout key now pool_open reply from_other s (some (channel, started_at)) =
      if ltb (now - started_at) request_timeout
      then (wait from_other, s)
      else lead key now pool_open reply (record s { pending = remove key s.pending })

  unfoldable pub call :
      ℕ → String → ℕ → Bool → Reply A → Heard A → Shared A → Result A NntpError × Shared A
  unfolding join_or_lead
  call request_timeout key now pool_open reply from_other s =
      join_or_lead request_timeout key now pool_open reply from_other s (lookup key s.pending)

  -- A request that no other caller can share.
  unfoldable pub call_alone : Bool → Reply A → Result A NntpError
  call_alone true reply = outcome reply
  call_alone false reply = err (codes "Worker pool closed")

digit : ℕ → String
digit n =
    if n == 0
    then "0"
    else if n == 1
    then "1"
    else if n == 2
    then "2"
    else if n == 3
    then "3"
    else if n == 4
    then "4"
    else if n == 5
    then "5"
    else if n == 6
    then "6"
    else if n == 7
    then "7"
    else if n == 8
    then "8"
    else "9"

join : String → String → String
join String.[] t = t
join (String.◌∷◌ c s) t = String.◌∷◌ c (join s t)

-- The decimal digits of a number before a text.
digits : ℕ → ℕ → String → String
unfolding digit join
digits zero n t = t
digits (suc fuel) n t =
    let s = join (digit (n % 10)) t in if ltb n 10 then s else digits fuel (n / 10) s

-- format!("{}:{}", group, count); a u64 has at most 20 digits.
unfoldable pub threads_key : String → ℕ → String
unfolding join digits
threads_key group count = join group (join ":" (digits 20 count String.[]))

module _ (request_timeout now : ℕ) (pool_open : Bool) where
  unfoldable pub get_article :
      String
      → Reply ArticleView
      → Heard ArticleView
      → Shared ArticleView
      → Result ArticleView NntpError × Shared ArticleView
  get_article message_id = call request_timeout message_id now pool_open

  unfoldable pub get_threads :
      String
      → ℕ
      → Reply (List ThreadView)
      → Heard (List ThreadView)
      → Shared (List ThreadView)
      → Result (List ThreadView) NntpError × Shared (List ThreadView)
  get_threads group count = call request_timeout (threads_key group count) now pool_open

  -- There is one pending request for the list of groups; its key is the empty text.
  unfoldable pub get_groups :
      Reply (List GroupView)
      → Heard (List GroupView)
      → Shared (List GroupView)
      → Result (List GroupView) NntpError × Shared (List GroupView)
  get_groups = call request_timeout String.[] now pool_open

  unfoldable pub get_group_stats :
      String
      → Reply GroupStatsView
      → Heard GroupStatsView
      → Shared GroupStatsView
      → Result GroupStatsView NntpError × Shared GroupStatsView
  get_group_stats group = call request_timeout group now pool_open

-- `E` is the type of overview entries.
unfoldable pub get_new_articles : {E : Type 0} → Bool → Reply (List E) → Result (List E) NntpError
get_new_articles pool_open reply = call_alone pool_open reply

unfoldable pub post_article : Bool → Reply Unit → Result {0, 0} Unit NntpError
post_article pool_open reply = call_alone pool_open reply

unfoldable pub check_article_exists : Bool → Reply Bool → Result Bool NntpError
check_article_exists pool_open reply = call_alone pool_open reply

-- NNTP_HIGH_PRIORITY_QUEUE_CAPACITY, NNTP_NORMAL_PRIORITY_QUEUE_CAPACITY and
-- NNTP_LOW_PRIORITY_QUEUE_CAPACITY.
abbrev pub capacity : Priority → ℕ
capacity high = 50
capacity normal = 50
capacity low = 100

unfoldable pub push_within : ℕ → NntpRequest → List NntpRequest → Option (List NntpRequest)
push_within limit request queue =
    if ltb (length queue) limit then some (queue ++ request ∷ []) else none

unfoldable pub in_queue :
    Priority → NntpRequest → WorkerQueues NntpRequest → Option (WorkerQueues NntpRequest)
unfolding push_within
in_queue high request q =
    Option.map (λ l. record q { high = l }) (push_within (capacity high) request q.high)
in_queue normal request q =
    Option.map (λ l. record q { normal = l }) (push_within (capacity normal) request q.normal)
in_queue low request q =
    Option.map (λ l. record q { low = l }) (push_within (capacity low) request q.low)

unfoldable pub ok_queues :
    Option (WorkerQueues NntpRequest) → Option (Result (WorkerQueues NntpRequest) NntpError)
ok_queues none = none
ok_queues (some q) = some (ok q)

-- `none` when the queue is full and the caller waits for room.
unfoldable pub send_request :
    Bool
    → NntpRequest
    → WorkerQueues NntpRequest
    → Option (Result (WorkerQueues NntpRequest) NntpError)
unfolding in_queue ok_queues
send_request true request q = ok_queues (in_queue (priority request) request q)
send_request false request q = some (err (codes "Worker pool closed"))

unfoldable pub is_posting_allowed : WorkerCounters → Bool
is_posting_allowed c = ltb 0 c.posting
