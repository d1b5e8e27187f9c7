-- ===== src/Activity/Idle.antt =====
-- When a group counts as inactive.
use september.Base.{
  ℕ, zero, suc, ◌+◌, ◌-◌, ◌%◌, ◌/◌, none, ◌≤◌, ◌<◌, ◌≡◌, ◌≢◌, refl, ◌^◌, some, List, [], ◌∷◌, arith,
  inl, inr, ap, sym, subst, Option, true, false, length, get_elem?, set, length-set, add64, min,
  if◌then◌else◌, ◌==◌, leb, ltb, ◌&&◌, ◌∙◌, Bool-cases,
}
use september.Activity.{
  GroupActivity, bucket_count, bucket_granularity_secs, secs_to_bucket_idx, clear_buckets, move_to,
  advance_to, record_request, is_inactive,
}
use september.Overview.Counts.{bind_inverse}
use september.Activity.Buckets.{
  record_request_lem, record_request-IsValid, sum, get_elem?-some, IsValid, clear_buckets_total,
}

get_elem?-set :
    (xs : List ℕ) (i j v : ℕ)
    → i < length xs
    → get_elem? (set xs i v) j ≡ (if i == j then some v else get_elem? xs j)
get_elem?-set [] i j v h = absurd (omega arith)
get_elem?-set (x ∷ xs) zero zero v h = refl
get_elem?-set (x ∷ xs) zero (suc j) v h = ground arith
get_elem?-set (x ∷ xs) (suc i) zero v h = ground arith
get_elem?-set (x ∷ xs) (suc i) (suc j) v h = ground (arith, get_elem?-set xs i j v (omega arith))

sum_zero : (xs : List ℕ) → ((k : ℕ) → k < length xs → get_elem? xs k ≡ some 0) → sum xs ≡ 0
unfolding sum
sum_zero [] h = refl
sum_zero (x ∷ xs) h =
    let head : x ≡ 0 = cc (h 0 (omega arith)) in
    omega (arith, sum_zero xs (λ k small. h (suc k) (omega arith)))

-- A bucket that the loop does not visit keeps its count; one that is empty stays empty.
module _ (current : ℕ) (small : current < bucket_count) where
  clear_step :
      (rounds i : ℕ) (buckets : List ℕ) (total : ℕ) (bs : List ℕ) (t : ℕ)
      → length buckets ≡ bucket_count
      → clear_buckets (suc rounds) i current (buckets, total) ≡ some (bs, t)
      → (x : ℕ) × (clear_buckets rounds
            (i + 1)
            current
            (set buckets (add64 current i % bucket_count) 0, total - x)
          ≡ some (bs, t))
  unfolding clear_buckets
  clear_step rounds i buckets total bs t size e =
      let (x, held, _) = get_elem?-some buckets (add64 current i % bucket_count) (omega arith) in
      (x, rw held at e)

  clear_buckets_keeps :
      (rounds i : ℕ) (buckets : List ℕ) (total k : ℕ) (bs : List ℕ) (t : ℕ)
      → length buckets ≡ bucket_count
      → ((m : ℕ) → i ≤ m → m < i + rounds → add64 current m % bucket_count ≢ k)
      → clear_buckets rounds i current (buckets, total) ≡ some (bs, t)
      → get_elem? bs k ≡ get_elem? buckets k
  unfolding clear_buckets
  clear_buckets_keeps zero i buckets total k bs t size away e = ground arith
  clear_buckets_keeps (suc rounds) i buckets total k bs t size away e =
      let idx : ℕ = add64 current i % bucket_count in
      let (x, rest) = clear_step rounds i buckets total bs t size e in
      let other : idx ≢ k = away i (omega arith) (omega arith) in
      clear_buckets_keeps rounds (i + 1) (set buckets idx 0) (total - x) k bs t
        (length-set buckets idx 0 ∙ size) (λ m from to. away m (omega arith) (omega arith)) rest
      ∙ ground (arith, get_elem?-set buckets idx k 0 (omega arith), other)

  clear_buckets_empty :
      (rounds i : ℕ) (buckets : List ℕ) (total k : ℕ) (bs : List ℕ) (t : ℕ)
      → length buckets ≡ bucket_count
      → get_elem? buckets k ≡ some 0
      → clear_buckets rounds i current (buckets, total) ≡ some (bs, t)
      → get_elem? bs k ≡ some 0
  unfolding clear_buckets
  clear_buckets_empty zero i buckets total k bs t size empty e =
      ground (arith, ap (λ (o : Option (List ℕ × ℕ)). o) e)
  clear_buckets_empty (suc rounds) i buckets total k bs t size empty e =
      let idx : ℕ = add64 current i % bucket_count in
      let (x, rest) = clear_step rounds i buckets total bs t size e in
      clear_buckets_empty rounds (i + 1) (set buckets idx 0) (total - x) k bs t
        (length-set buckets idx 0 ∙ size)
        (ground (arith, get_elem?-set buckets idx k 0 (omega arith))) rest

  clear_buckets_visits :
      (rounds i : ℕ) (buckets : List ℕ) (total m : ℕ) (bs : List ℕ) (t : ℕ)
      → length buckets ≡ bucket_count
      → i ≤ m
      → m < i + rounds
      → clear_buckets rounds i current (buckets, total) ≡ some (bs, t)
      → get_elem? bs (add64 current m % bucket_count) ≡ some 0
  unfolding clear_buckets
  clear_buckets_visits zero i buckets total m bs t size from to e = absurd (omega arith)
  clear_buckets_visits (suc rounds) i buckets total m bs t size from to e =
      let idx : ℕ = add64 current i % bucket_count in
      let (x, rest) = clear_step rounds i buckets total bs t size e in
      let emptied : get_elem? (set buckets idx 0) idx ≡ some 0 =
        ground (arith, get_elem?-set buckets idx idx 0 (omega arith)) in
      elim (Bool-cases (i == m)) [
        | inl here ↦
            let same : i ≡ m = ground arith in
            subst (λ j. get_elem? bs (add64 current j % bucket_count) ≡ some 0) same
              (clear_buckets_empty rounds (i + 1) (set buckets idx 0) (total - x) idx bs t
                (length-set buckets idx 0 ∙ size) emptied rest)
        | inr later ↦
            clear_buckets_visits rounds (i + 1) (set buckets idx 0) (total - x) m bs t
              (length-set buckets idx 0 ∙ size) (ground arith) (omega arith) rest
      ]

-- The round that visits bucket `k`.
round_of : ℕ → ℕ → ℕ
round_of current k = if leb k current then k + bucket_count - current else k - current

round_of_lem :
    (current k : ℕ)
    → current < bucket_count
    → k < bucket_count
    → (1 ≤ round_of current k)
      × (round_of current k < 1 + bucket_count)
      × (add64 current (round_of current k) % bucket_count ≡ k)
unfolding round_of
round_of_lem current k small h = ground arith

-- The whole buffer is empty after clearing all its buckets.
move_to_all :
    (a : GroupActivity) (now_idx elapsed : ℕ)
    → IsValid a
    → bucket_count ≤ elapsed
    → (b : GroupActivity) × (move_to a now_idx elapsed ≡ some b) × (b.total_requests ≡ 0)
unfolding move_to
move_to_all a now_idx elapsed v long =
    let rounds : min elapsed bucket_count ≡ bucket_count = omega arith in
    let (bs, t, run, size, total, less) =
      clear_buckets_total a.current_bucket v.inside bucket_count 1 a.buckets a.total_requests v.size
        v.total in
    let empty : sum bs ≡ 0 = sum_zero bs λ k inside.
      let (from, to, hit) =
        round_of_lem a.current_bucket k v.inside (subst (λ n. k < n) size inside) in
      subst (λ j. get_elem? bs j ≡ some 0) hit
        (clear_buckets_visits a.current_bucket v.inside bucket_count 1 a.buckets a.total_requests
          (round_of a.current_bucket k) bs t v.size from to run) in
    (
      record a {
        buckets = bs;
        total_requests = t;
        current_bucket = add64 a.current_bucket elapsed % bucket_count;
        bucket_start_idx = now_idx;
      },
      rw (rounds, run),
      omega arith,
    )

advance_to_moved :
    (a : GroupActivity) (now_secs : ℕ)
    → (a.bucket_start_idx == 0 && a.total_requests == 0) ≡ false
    → a.bucket_start_idx < secs_to_bucket_idx now_secs
    → advance_to a now_secs
      ≡ move_to a (secs_to_bucket_idx now_secs) (secs_to_bucket_idx now_secs - a.bucket_start_idx)
unfolding advance_to
advance_to_moved a now_secs later h =
    let moved : (secs_to_bucket_idx now_secs - a.bucket_start_idx == 0) ≡ false = ground arith in
    rw (later, moved)

-- A group is inactive once the window has passed: at a time whose bucket lies a whole window or
-- more behind the last bucket in use, the check of a valid state answers true.
pub inactive_after_window :
    (a : GroupActivity) (now_secs : ℕ)
    → IsValid a
    → a.bucket_start_idx + bucket_count ≤ secs_to_bucket_idx now_secs
    → (b : GroupActivity) × (is_inactive a now_secs ≡ some (b, true))
unfolding is_inactive
inactive_after_window a now_secs v late =
    elim (Bool-cases (a.bucket_start_idx == 0 && a.total_requests == 0)) [
      | inl first ↦ (
        record a { bucket_start_idx = secs_to_bucket_idx now_secs },
        unfold advance_to in ground arith,
      )
      | inr later ↦
          let (b, moved, empty) =
            move_to_all a (secs_to_bucket_idx now_secs)
              (secs_to_bucket_idx now_secs - a.bucket_start_idx) v (omega arith) in
          (b, ground (arith, advance_to_moved a now_secs later, moved, empty))
    ]

move_to_within :
    (a : GroupActivity) (now_idx elapsed : ℕ)
    → IsValid a
    → 0 < elapsed
    → elapsed < bucket_count
    → (n : ℕ) → get_elem? a.buckets a.current_bucket ≡ some (suc n)
    → (b : GroupActivity) × (move_to a now_idx elapsed ≡ some b) × (0 < b.total_requests)
unfolding move_to
move_to_within a now_idx elapsed v some_time short n held =
    let rounds : min elapsed bucket_count ≡ elapsed = omega arith in
    let (bs, t, run, size, total, less) =
      clear_buckets_total a.current_bucket v.inside elapsed 1 a.buckets a.total_requests v.size
        v.total in
    let kept : get_elem? bs a.current_bucket ≡ some (suc n) =
      clear_buckets_keeps a.current_bucket v.inside elapsed 1 a.buckets a.total_requests
        a.current_bucket bs t v.size (λ m from to hit. absurd (omega (arith, v.inside))) run
      ∙ held in
    let (x, there, below) = get_elem?-some bs a.current_bucket (omega (arith, v.inside)) in
    let count : some x ≡ some (suc n) = sym there ∙ kept in
    let same : x ≡ suc n = cc in
    (
      record a {
        buckets = bs;
        total_requests = t;
        current_bucket = add64 a.current_bucket elapsed % bucket_count;
        bucket_start_idx = now_idx;
      },
      rw (rounds, run),
      omega arith,
    )

stays_active :
    (a : GroupActivity) (now_secs n : ℕ)
    → IsValid a
    → get_elem? a.buckets a.current_bucket ≡ some (suc n)
    → 0 < a.total_requests
    → secs_to_bucket_idx now_secs < a.bucket_start_idx + bucket_count
    → (b : GroupActivity) × (is_inactive a now_secs ≡ some (b, false))
unfolding is_inactive
stays_active a now_secs n v held used within =
    elim (Bool-cases (ltb a.bucket_start_idx (secs_to_bucket_idx now_secs))) [
      | inl moved ↦
          let ahead : a.bucket_start_idx < secs_to_bucket_idx now_secs = ground arith in
          let (b, e, some_left) =
            move_to_within a (secs_to_bucket_idx now_secs)
              (secs_to_bucket_idx now_secs - a.bucket_start_idx) v (omega arith) (omega arith) n
              held in
          (b, ground (arith, advance_to_moved a now_secs, ahead, e, some_left))
      | inr still ↦ (a, unfold advance_to in ground arith)
    ]

-- The last bucket in use is the one of the time, or a later one if the clock was set back.
advance_to-reached :
    (a b : GroupActivity) (now_secs : ℕ)
    → advance_to a now_secs ≡ some b
    → secs_to_bucket_idx now_secs ≤ b.bucket_start_idx
unfolding advance_to move_to
advance_to-reached a b now_secs h =
    let now_idx = secs_to_bucket_idx now_secs in
    elim (Bool-cases (a.bucket_start_idx == 0 && a.total_requests == 0)) [
      | inl first ↦
          let moved : some (record a { bucket_start_idx = now_idx }) ≡ some b =
            sym (rw first refl) ∙ h in
          let same : record a { bucket_start_idx = now_idx } ≡ b = cc in rw (sym same) (omega arith)
      | inr later ↦ elim (Bool-cases (now_idx - a.bucket_start_idx == 0)) [
        | inl still ↦
            let kept : some a ≡ some b = sym (rw (later, still) refl) ∙ h in
            let same : a ≡ b = cc in rw (sym same) (ground (arith, still))
        | inr moved ↦
            let run : move_to a now_idx (now_idx - a.bucket_start_idx) ≡ some b =
              sym (rw (later, moved) refl) ∙ h in
            let (state, cleared, last) =
              bind_inverse
                (clear_buckets (min (now_idx - a.bucket_start_idx) bucket_count) 1 a.current_bucket
                  (a.buckets, a.total_requests))
                _ b run in
            let index : now_idx ≡ b.bucket_start_idx = ap start_of last in
            rw (sym index) (omega arith)
      ]
    ]
  where
    start_of : Option GroupActivity → ℕ
    start_of none = 0
    start_of (some c) = c.bucket_start_idx

record_request-reached :
    (a b : GroupActivity) (now_secs : ℕ)
    → record_request a now_secs ≡ some b
    → secs_to_bucket_idx now_secs ≤ b.bucket_start_idx
unfolding record_request
record_request-reached a b now_secs h =
    let (moved, advanced, counted) = bind_inverse (advance_to a now_secs) _ b h in
    let (count, found, last) =
      bind_inverse (get_elem? moved.buckets moved.current_bucket) _ b counted in
    let index : moved.bucket_start_idx ≡ b.bucket_start_idx = ap start_of last in
    rw (sym index) (advance_to-reached a moved now_secs advanced)
  where
    start_of : Option GroupActivity → ℕ
    start_of none = 0
    start_of (some c) = c.bucket_start_idx

-- A recorded request keeps its group active for the rest of the window: after recording a request
-- in a valid state with fewer than 2^32 - 1 requests, every check at a time whose bucket lies less
-- than a whole window behind the bucket of the request's time answers false.
pub active_within_window :
    (a : GroupActivity) (now_secs : ℕ)
    → IsValid a
    → a.total_requests < 2 ^ 32 - 1
    → (a' : GroupActivity) × (record_request a now_secs ≡ some a')
      × ((later_secs : ℕ)
          → later_secs / bucket_granularity_secs < now_secs / bucket_granularity_secs + bucket_count
          → (b : GroupActivity) × (is_inactive a' later_secs ≡ some (b, false)))
unfolding secs_to_bucket_idx
active_within_window a now_secs v small =
    let (a', e, w, bound, n, held) = record_request_lem a now_secs v small in
    let (a'', e', w', pos, bound') = record_request-IsValid a now_secs v small in
    let same : some a' ≡ some a'' = sym e ∙ e' in
    let used : 0 < a'.total_requests = ground (arith, same) in
    (
      a',
      e,
      λ later_secs within.
          stays_active a' later_secs n w held used
            (omega (arith, within, record_request-reached a a' now_secs e)),
    )
