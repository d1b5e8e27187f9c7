-- ===== src/Worker/Examples.antt =====
-- Tests of the workers and instances of their theorems.
use september.Base.{
  some, none, ℕ, ◌-◌, ◌*◌, ◌≤◌, ◌<◌, ◌≡◌, ◌⊎◌, refl, true, false, List, [], ◌∷◌, ◌++◌, arith, map,
  All,
}
use september.Base.Text.{Text, codes, to_uppercase, starts_with, is_whitespace}
use september.Federated.{ok, err}
use september.Worker.{
  from_capabilities, read_capabilities, read_capability, text_eq, thread_fetch_method, over,
  get_list_methods, list_active, text_words,
}
use september.Worker.Queues.{
  WorkerQueues, Received, recv_prioritized, priority_aging_secs, nanos_per_sec,
}
use september.Worker.Fairness.{TookHigh, TookNormal, TookLow, recv_prioritized_order}
use september.Worker.Pool.{ready, answered, closed, run, fresh, count_serving, count_posting, Event}
use september.Worker.Counted.{run_counters_exact}
use september.Worker.Stuffing.{
  lines, unstuff, is_terminator, article_lines, header_lines, posted_body_roundtrip,
}
use september.Overview.{Fields, Dates}
use september.Worker.Client.{GroupInfo, Client}
use september.Worker.Fetching.{Fetch}

method_test : thread_fetch_method (from_capabilities (codes "HDR" ∷ codes "over MSGID" ∷ [])) ≡ over
unfolding thread_fetch_method from_capabilities read_capabilities read_capability text_eq
    to_uppercase starts_with
method_test = refl

lists_test : get_list_methods (from_capabilities (codes "LIST active x" ∷ [])) ≡ list_active ∷ []
unfolding get_list_methods from_capabilities read_capabilities read_capability text_eq to_uppercase
    starts_with text_words is_whitespace
lists_test = refl

lines_test : lines (codes "a" ++ 13 ∷ 10 ∷ codes ".b") ≡ codes "a" ∷ codes ".b" ∷ []
unfolding lines starts_with
lines_test = refl

abbrev waiting : WorkerQueues ℕ
waiting = record { high = 1 ∷ 2 ∷ []; normal = 3 ∷ []; low = 4 ∷ [] }

abbrev aged : Received ℕ
aged = record {
  request = 4;
  queues = record { high = 1 ∷ 2 ∷ []; normal = 3 ∷ []; low = [] };
  last_low_process = 30000000000;
}

recv_prioritized_order_example :
    (TookHigh ℕ waiting aged 15000000000
      ⊎ (TookNormal ℕ waiting aged 15000000000 ⊎ TookLow ℕ waiting aged 30000000000))
    × (TookLow ℕ waiting aged 30000000000
        ⊎ ((30000000000 - 15000000000 < priority_aging_secs * nanos_per_sec) ⊎ (waiting.low ≡ [])))
    × ((TookHigh ℕ waiting aged 15000000000 ⊎ TookNormal ℕ waiting aged 15000000000)
        ⊎ ((priority_aging_secs * nanos_per_sec ≤ 30000000000 - 15000000000)
            ⊎ ((waiting.high ≡ []) × (waiting.normal ≡ []))))
unfolding recv_prioritized
recv_prioritized_order_example = recv_prioritized_order ℕ waiting 30000000000 15000000000 aged refl

abbrev events : List (ℕ × Event)
events =
    (0, ready true)
    ∷ (1, ready false)
    ∷ (0, answered true)
    ∷ (1, answered false)
    ∷ (0, closed)
    ∷ (1, ready true)
    ∷ []

run_counters_exact_example :
    ((run (fresh 2) events).counters.connected ≡ count_serving (run (fresh 2) events).workers)
    × ((run (fresh 2) events).counters.posting ≡ count_posting (run (fresh 2) events).workers)
run_counters_exact_example = run_counters_exact 2 events (omega arith)

abbrev body : Text
body = codes ".a" ++ 10 ∷ codes "." ++ 10 ∷ codes "b"

posted_body_roundtrip_example :
    (posted : List Text) × (article_lines ((codes "From", codes "x") ∷ []) body
      ≡ header_lines ((codes "From", codes "x") ∷ []) ++ [] ∷ posted)
    × (map unstuff posted ≡ lines body)
    × All (λ line. is_terminator line ≡ false) posted
posted_body_roundtrip_example = posted_body_roundtrip ((codes "From", codes "x") ∷ []) body

abbrev stats : GroupInfo
stats = record { count = 50; last = 120 }

-- A client whose server fails every command but GROUP.
abbrev failing : Client (Unit {0}) (Unit {0})
failing = record {
  list_active = λ s. (err [], s);
  list_newsgroups = λ s. (err [], s);
  group = λ g s. (ok stats, s);
  hdr = λ field a b s. (err [], s);
  hdr_date = λ n s. (err [], s);
  head_lines = λ g n s. (err [], s);
  over = λ from to s. (err [], s);
  article = λ id s. (err [], s);
  post = λ text s. (err [], s);
  stat = λ id s. (err [], s);
}

-- Without threads there is nothing to sort.
abbrev no_fetch : Fetch (Unit {0})
no_fetch = record {
  parse_u64 = λ text. none;
  sort_by = λ order threads. some threads;
  via_head = λ a b s. some (err [], s);
}

abbrev dates : Dates
dates = record { parse_from_rfc2822 = λ s. none; compute_timeago = λ s. s }

abbrev fields : Fields (Unit {0})
fields = record {
  message_id = λ e. none;
  references = λ e. none;
  subject = λ e. none;
  from = λ e. none;
  date = λ e. none;
}
