-- ===== src/Service/Examples.antt =====
-- The theorems about src/nntp/service.rs at concrete callers, and tests.
use september.Base.{ℕ, ◌≡◌, refl, true, none, some, [], ◌∷◌, lookup, insert}
use september.Federated.{ok}
use september.Worker.Messages.{NntpRequest, priority, high, get_article, get_threads}
use september.Worker.Queues.{WorkerQueues}
use september.Service.Coalescing.{
  Service, replied, timed_out, Step, Reach, here, next, enters, sends, replies, unregisters,
  broadcasts, receives, idle, sending, leading, finishing, broadcasting, done, cancelled,
  message_on, outcome, enter, join_or_register, register, unregister, send, new, place,
}
use september.Service.Answers.{message_kept}
use september.Service.Calls.{
  too_late, call, threads_key, send_request, in_queue, ok_queues, push_within,
}
use september.Service.Steps.{RunsAs, IsSettled, call_steps}

-- Caller 0 asks for an article at time 0, and caller 1 for the same one at time 5.
abbrev asked : Service ℕ
asked = place new 0 (enter 30 "<a>" 0 (new {A = ℕ}).shared)

abbrev joined : Service ℕ
joined = place asked 1 (enter 30 "<a>" 5 asked.shared)

joined-Reach : Reach 30 true new joined
unfolding enter join_or_register register new lookup insert
joined-Reach = next (next here (enters new 0 "<a>" 0 refl)) (enters asked 1 "<a>" 5 refl)

joined-silent : message_on 0 joined.shared.messages ≡ none
unfolding enter join_or_register register new lookup insert
joined-silent = refl

-- The call of caller 0 is dropped, and after the timeout caller 2 replaces its request.
abbrev dropped : Service ℕ
dropped = place joined 0 (cancelled (sending "<a>" 0), joined.shared)

abbrev replaced : Service ℕ
replaced = place dropped 2 (enter 30 "<a>" 31 dropped.shared)

-- Caller 0 gets the answer 7 and sends it on.
abbrev requested : Service ℕ
requested = place joined 0 (leading "<a>" 0 6, joined.shared)

abbrev answered : Service ℕ
answered = place requested 0 (finishing "<a>" 0 (ok 7), requested.shared)

abbrev unregistered : Service ℕ
unregistered = place answered 0 (broadcasting 0 (ok 7), unregister "<a>" answered.shared)

abbrev told : Service ℕ
told = place unregistered 0 (done (ok 7), send 0 (ok 7) unregistered.shared)

told-Reach : Reach 30 true new told
unfolding enter join_or_register register new lookup insert unregister send outcome
told-Reach =
    next
      (next
        (next (next joined-Reach (sends joined 0 "<a>" 0 6 refl))
          (replies requested 0 "<a>" 0 6 8 (replied (ok 7)) refl (λ h. absurd cc)))
        (unregisters answered 0 "<a>" 0 (ok 7) refl))
      (broadcasts unregistered 0 0 (ok 7) refl)

told-hears : Step 30 true told (place told 1 (done (ok 7), told.shared))
unfolding enter join_or_register register new lookup insert unregister send outcome
told-hears = receives told 1 0 5 (ok 7) refl refl

told-message : message_on 0 told.shared.messages ≡ some (ok 7)
unfolding send
told-message = refl

message_kept_example :
    message_on 0 (place told 1 (done (ok 7), told.shared)).shared.messages ≡ some (ok 7)
message_kept_example = message_kept 0 (ok 7) told-Reach told-hears told-message

abbrev fresh : Service ℕ
fresh = new

fresh-idle : fresh.callers 4 ≡ idle
unfolding new
fresh-idle = refl

fresh-starts : (enter 30 "<b>" 2 fresh.shared).0 ≡ sending "<b>" fresh.shared.next_channel
unfolding enter join_or_register register new lookup
fresh-starts = refl

call_steps_example :
    RunsAs 30 true fresh 4
      (call 30 "<b>" 2 true timed_out too_late fresh.shared).0
      (call 30 "<b>" 2 true timed_out too_late fresh.shared).1
    × (true ≡ true
        → IsSettled "<b>" timed_out fresh.shared
            (call 30 "<b>" 2 true timed_out too_late fresh.shared).0
            (call 30 "<b>" 2 true timed_out too_late fresh.shared).1)
call_steps_example = call_steps 30 "<b>" 2 true timed_out too_late fresh 4 fresh-idle fresh-starts

abbrev idle_queues : WorkerQueues NntpRequest
idle_queues = record { high = []; normal = get_threads "misc.test" 20 ∷ []; low = [] }

abbrev busy_queues : WorkerQueues NntpRequest
busy_queues = record {
  high = get_article "<a>" ∷ [];
  normal = get_threads "misc.test" 20 ∷ [];
  low = [];
}

article-sent : send_request true (get_article "<a>") idle_queues ≡ some (ok busy_queues)
unfolding send_request in_queue ok_queues push_within priority
article-sent = refl

article-urgent : priority (get_article "<a>") ≡ high
unfolding priority
article-urgent = refl

threads_key_test : threads_key "misc.test" 205 ≡ "misc.test:205"
unfolding threads_key
threads_key_test = refl
