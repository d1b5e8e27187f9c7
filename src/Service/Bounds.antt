-- ===== src/Service/Bounds.antt =====
-- The bounds of the queues that src/nntp/service.rs sends requests to, and the request that is
-- taken next.
use mathlib.Core.Option
use september.Base.{
  ℕ, suc, ◌+◌, ◌-◌, ◌*◌, ◌/◌, ◌≤◌, ◌<◌, ◌≡◌, none, inl, inr, refl, sym, ◌∙◌, ap, Bool, true, false,
  Option, some, List, [], ◌∷◌, ◌++◌, arith, ltb, Option-cases, Bool-cases, ltb→lt, leb, length,
  length-append,
}
use september.Federated.{NntpError, Result, ok}
use september.Worker.Messages.{NntpRequest, Priority, priority, high, normal, low}
use september.Worker.Queues.{
  WorkerQueues, recv_prioritized, priority_aging_secs, nanos_per_sec, or_by_priority, try_high,
}
use september.Service.Calls.{send_request, capacity, in_queue, ok_queues, push_within}

-- The queues hold no more than their capacities.
pub record Bounded (q : WorkerQueues NntpRequest) : Type 0 where
  pub high_bound : length q.high ≤ capacity high
  pub normal_bound : length q.normal ≤ capacity normal
  pub low_bound : length q.low ≤ capacity low

-- The requests that wait, the urgent ones first.
pub waiting_requests : WorkerQueues NntpRequest → ℕ
waiting_requests q = length q.high + length q.normal + length q.low

Option_map_inverse :
    {A B : Type 0} (f : A → B) (o : Option A) (b : B)
    → Option.map f o ≡ some b
    → (a : A) × (o ≡ some a) × (f a ≡ b)
Option_map_inverse f none b h = cc
Option_map_inverse f (some a) b h = (a, refl, cc)

push_within-length :
    (limit : ℕ) (request : NntpRequest) (queue queue' : List NntpRequest)
    → push_within limit request queue ≡ some queue'
    → (length queue' ≤ limit) × (length queue' ≡ suc (length queue))
unfolding push_within
push_within-length limit request queue queue' h = elim (Bool-cases (ltb (length queue) limit)) [
  | inl room ↦
      let pushed : queue ++ request ∷ [] ≡ queue' = ground (arith, room) in
      rw (sym pushed) (
        omega (arith, ltb→lt _ _ room, length-append queue (request ∷ [])),
        omega (arith, length-append queue (request ∷ [])),
      )
  | inr full ↦ absurd (ground (arith, full))
]

in_queue-Bounded :
    (p : Priority) (request : NntpRequest) (q q' : WorkerQueues NntpRequest)
    → Bounded q
    → in_queue p request q ≡ some q'
    → Bounded q' × (waiting_requests q' ≡ suc (waiting_requests q))
unfolding in_queue waiting_requests
in_queue-Bounded high request q q' b h =
    let (l, pushed, same) =
      Option_map_inverse _ (push_within (capacity high) request q.high) q' h in
    let (bound, longer) = push_within-length (capacity high) request q.high l pushed in
    rw (sym same) (
      record { high_bound = bound; normal_bound = b.normal_bound; low_bound = b.low_bound },
      omega (arith, longer),
    )
in_queue-Bounded normal request q q' b h =
    let (l, pushed, same) =
      Option_map_inverse _ (push_within (capacity normal) request q.normal) q' h in
    let (bound, longer) = push_within-length (capacity normal) request q.normal l pushed in
    rw (sym same) (
      record { high_bound = b.high_bound; normal_bound = bound; low_bound = b.low_bound },
      omega (arith, longer),
    )
in_queue-Bounded low request q q' b h =
    let (l, pushed, same) = Option_map_inverse _ (push_within (capacity low) request q.low) q' h in
    let (bound, longer) = push_within-length (capacity low) request q.low l pushed in
    rw (sym same) (
      record { high_bound = b.high_bound; normal_bound = b.normal_bound; low_bound = bound },
      omega (arith, longer),
    )

-- A request that is sent leaves every queue within its capacity and adds one to the requests that
-- wait.
pub send_request-Bounded :
    (pool_open : Bool) (request : NntpRequest) (q q' : WorkerQueues NntpRequest)
    → Bounded q
    → send_request pool_open request q ≡ some (ok q')
    → Bounded q' × (waiting_requests q' ≡ suc (waiting_requests q))
unfolding send_request ok_queues
send_request-Bounded true request q q' b h =
    elim (Option-cases (in_queue (priority request) request q)) [
      | inl full ↦ absurd (ground (arith, full))
      | inr sent ↦
          in_queue-Bounded (priority request) request q q' b
            (sent.1 ∙ ap some (same sent.0 (sym (ap ok_queues (sent.1)) ∙ h)))
    ]
  where
    same : (x : WorkerQueues NntpRequest) → ok_queues (some x) ≡ some (ok q') → x ≡ q'
    same x e = cc
send_request-Bounded false request q q' b h = absurd (ground arith)

-- When no urgent request waits and a low request was served less than ten seconds ago, an urgent
-- request is the next one that a worker takes, and the other queues are as before.
pub urgent_next :
    (request : NntpRequest) (q q' : WorkerQueues NntpRequest) (now last_low_process : ℕ)
    → priority request ≡ high
    → q.high ≡ []
    → now - last_low_process < priority_aging_secs * nanos_per_sec
    → send_request true request q ≡ some (ok q')
    → recv_prioritized NntpRequest q' now last_low_process
      ≡ some (record { request = request; queues = q; last_low_process = last_low_process })
unfolding send_request ok_queues in_queue push_within recv_prioritized or_by_priority try_high
urgent_next request q q' now last_low_process urgent none_waits recent h =
    let same : ◌≡◌ {A = Option (Result (WorkerQueues NntpRequest) NntpError)}
        (some (ok (record q { high = request ∷ [] }))) (some (ok q')) =
      sym (rw (urgent, none_waits) refl) ∙ h in
    let not_aged : leb priority_aging_secs ((now - last_low_process) / nanos_per_sec) ≡ false =
      ground arith in
    let same_queues : record q { high = request ∷ [] } ≡ q' = cc in
    rw (sym same_queues, not_aged)
      (ap
        (λ l. some (record {
          request = request;
          queues = record q { high = l };
          last_low_process = last_low_process;
        }))
        (sym none_waits))
