-- ===== src/Worker/Counted.antt =====
-- The shared counters agree with the workers, in every interleaving of the workers' events.
use september.Base.{
  ℕ, zero, suc, ◌+◌, ◌≤◌, ◌<◌, ◌≡◌, refl, true, false, some, List, [], ◌∷◌, word, get_elem?, set,
  arith, length, length-set, replicate, Option-cases, inl, inr, subst,
}
use september.Worker.Pool.{
  Phase, Event, connecting, serving, stopped, setup_failed, ready, answered, closed, WorkerCounters,
  count_up, count_down, run_worker, Pool, step, step_found, run, fresh, is_serving, is_posting,
  count_serving, count_posting,
}

-- The counters are the numbers of workers that serve and that can post.
pub record IsCounted (pool : Pool) : Type 0 where
  pub few : length pool.workers < word
  pub connected : pool.counters.connected ≡ count_serving pool.workers
  pub posting : pool.counters.posting ≡ count_posting pool.workers

counts_set :
    (ws : List Phase) (i : ℕ) (old new : Phase)
    → get_elem? ws i ≡ some old
    → (count_serving (set ws i new) + is_serving old ≡ count_serving ws + is_serving new)
      × (count_posting (set ws i new) + is_posting old ≡ count_posting ws + is_posting new)
counts_set [] i old new h = cc
counts_set (w ∷ ws) zero old new h =
    let same : w ≡ old = cc in
    subst
      (λ x.
        (is_serving new + count_serving ws + is_serving x
          ≡ is_serving w + count_serving ws + is_serving new)
        × (is_posting new + count_posting ws + is_posting x
            ≡ is_posting w + count_posting ws + is_posting new))
      same (omega arith, omega arith)
counts_set (w ∷ ws) (suc i) old new h =
    let (serve, post) = counts_set ws i old new h in (omega arith, omega arith)

counts_small :
    (ws : List Phase) → (count_serving ws ≤ length ws) × (count_posting ws ≤ count_serving ws)
counts_small [] = (omega arith, omega arith)
counts_small (connecting ∷ ws) = let (a, b) = counts_small ws in (omega arith, omega arith)
counts_small (stopped ∷ ws) = let (a, b) = counts_small ws in (omega arith, omega arith)
counts_small (serving true ∷ ws) = let (a, b) = counts_small ws in (omega arith, omega arith)
counts_small (serving false ∷ ws) = let (a, b) = counts_small ws in (omega arith, omega arith)

-- One worker's event moves the counters as it moves the numbers of workers `s` and `p`.
run_worker_lem :
    (phase : Phase) (event : Event) (c : WorkerCounters) (s p : ℕ)
    → s + is_serving phase < word
    → p + is_posting phase < word
    → s + 1 < word
    → p + 1 < word
    → c.connected ≡ s + is_serving phase
    → c.posting ≡ p + is_posting phase
    → ((run_worker phase event c).1.connected ≡ s + is_serving (run_worker phase event c).0)
      × ((run_worker phase event c).1.posting ≡ p + is_posting (run_worker phase event c).0)
unfolding run_worker count_up count_down
run_worker_lem connecting setup_failed c s p a b d e f g = (omega arith, omega arith)
run_worker_lem connecting (ready true) c s p a b d e f g = (omega arith, omega arith)
run_worker_lem connecting (ready false) c s p a b d e f g = (omega arith, omega arith)
run_worker_lem connecting (answered q) c s p a b d e f g = (omega arith, omega arith)
run_worker_lem connecting closed c s p a b d e f g = (omega arith, omega arith)
run_worker_lem (serving true) setup_failed c s p a b d e f g = (omega arith, omega arith)
run_worker_lem (serving true) (ready q) c s p a b d e f g = (omega arith, omega arith)
run_worker_lem (serving true) (answered true) c s p a b d e f g = (omega arith, omega arith)
run_worker_lem (serving true) (answered false) c s p a b d e f g = (omega arith, omega arith)
run_worker_lem (serving true) closed c s p a b d e f g = (omega arith, omega arith)
run_worker_lem (serving false) setup_failed c s p a b d e f g = (omega arith, omega arith)
run_worker_lem (serving false) (ready q) c s p a b d e f g = (omega arith, omega arith)
run_worker_lem (serving false) (answered true) c s p a b d e f g = (omega arith, omega arith)
run_worker_lem (serving false) (answered false) c s p a b d e f g = (omega arith, omega arith)
run_worker_lem (serving false) closed c s p a b d e f g = (omega arith, omega arith)
run_worker_lem stopped event c s p a b d e f g = (omega arith, omega arith)

step_found-IsCounted :
    (pool : Pool) (i : ℕ) (event : Event) (phase : Phase)
    → get_elem? pool.workers i ≡ some phase
    → IsCounted pool
    → IsCounted (step_found pool i event (some phase))
unfolding step
step_found-IsCounted pool i event phase held counted =
    let ws = pool.workers in
    let (idle, idle_post) = counts_set ws i phase connecting held in
    let (busy, busy_post) = counts_set ws i phase (serving true) held in
    let (small, small_post) = counts_small (set ws i (serving true)) in
    let size = length-set ws i (serving true) in
    let (all, all_post) = counts_small ws in
    let next = (run_worker phase event pool.counters).0 in
    let (serve, post) = counts_set ws i phase next held in
    let (c, p) =
      run_worker_lem phase event pool.counters (count_serving (set ws i connecting))
        (count_posting (set ws i connecting)) (omega (arith, counted.few))
        (omega (arith, counted.few)) (omega (arith, counted.few)) (omega (arith, counted.few))
        (omega (arith, counted.connected)) (omega (arith, counted.posting)) in
    record {
      few = omega (arith, counted.few, length-set ws i next);
      connected = omega arith;
      posting = omega arith;
    }

step-IsCounted :
    (pool : Pool) (i : ℕ) (event : Event) → IsCounted pool → IsCounted (step pool i event)
unfolding step
step-IsCounted pool i event counted = elim (Option-cases (get_elem? pool.workers i)) [
  | inl missing ↦ rw (missing, step_found) counted
  | inr (phase, held) ↦ rw held (step_found-IsCounted pool i event phase held counted)
]

run-IsCounted :
    (pool : Pool) (events : List (ℕ × Event)) → IsCounted pool → IsCounted (run pool events)
unfolding run
run-IsCounted pool [] counted = counted
run-IsCounted pool ((i, event) ∷ events) counted =
    run-IsCounted (step pool i event) events (step-IsCounted pool i event counted)

fresh_counts :
    (n : ℕ)
    → (length (replicate n connecting) ≡ n)
      × (count_serving (replicate n connecting) ≡ 0)
      × (count_posting (replicate n connecting) ≡ 0)
fresh_counts zero = (refl, refl, refl)
fresh_counts (suc n) = let (a, b, c) = fresh_counts n in (omega arith, omega arith, omega arith)

fresh-IsCounted : (n : ℕ) → n < word → IsCounted (fresh n)
unfolding fresh
fresh-IsCounted n h =
    let (size, none_serves, none_posts) = fresh_counts n in
    record { few = omega arith; connected = omega arith; posting = omega arith }

-- After any interleaving of the events of fewer than 2 ^ 64 workers, the counter of connections is
-- the number of workers that serve, and the counter for posting the number of those that can post.
pub run_counters_exact :
    (n : ℕ) (events : List (ℕ × Event))
    → n < word
    → ((run (fresh n) events).counters.connected ≡ count_serving (run (fresh n) events).workers)
      × ((run (fresh n) events).counters.posting ≡ count_posting (run (fresh n) events).workers)
run_counters_exact n events h =
    let counted = run-IsCounted (fresh n) events (fresh-IsCounted n h) in
    (counted.connected, counted.posting)
