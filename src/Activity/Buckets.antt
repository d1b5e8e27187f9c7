-- ===== src/Activity/Buckets.antt =====
-- The circular buffer keeps its shape and its total, so no index is out of bounds.
use september.Base.{
  ℕ, zero, suc, ◌+◌, ◌-◌, ◌%◌, ◌≤◌, ◌<◌, ◌≡◌, refl, sym, ap, ◌∙◌, Bool-cases, ◌&&◌, ◌^◌, some, List,
  [], ◌∷◌, arith, inl, inr, length, get_elem?, set, length-set, add64, word, min, ◌==◌,
}
use native.Mathlib.Numerals.{add-one}
use september.Activity.{
  GroupActivity, bucket_count, clear_buckets, move_to, advance_to, secs_to_bucket_idx,
  record_request,
}

unfoldable pub sum : List ℕ → ℕ
sum [] = 0
sum (x ∷ xs) = x + sum xs

pub get_elem?-some :
    (xs : List ℕ) (i : ℕ) → i < length xs → (x : ℕ) × (get_elem? xs i ≡ some x) × (x ≤ sum xs)
unfolding sum
get_elem?-some [] i h = absurd (omega arith)
get_elem?-some (x ∷ xs) zero h = (x, refl, omega arith)
get_elem?-some (x ∷ xs) (suc i) h =
    let (y, e, b) = get_elem?-some xs i (omega arith) in (y, e, omega arith)

pub sum-set :
    (xs : List ℕ) (i v x : ℕ) → get_elem? xs i ≡ some x → sum (set xs i v) + x ≡ sum xs + v
unfolding sum
sum-set [] i v x h = cc
sum-set (y ∷ xs) zero v x h = let same : y ≡ x = cc in omega arith
sum-set (y ∷ xs) (suc i) v x h = omega (arith, sum-set xs i v x h)

-- The buffer has its size, the pointer is in it, and the total is the sum of the buckets.
pub record IsValid (a : GroupActivity) : Type 0 where
  pub size : length a.buckets ≡ bucket_count
  pub inside : a.current_bucket < bucket_count
  pub total : a.total_requests ≡ sum a.buckets

module _ (current : ℕ) (small : current < bucket_count) where
  -- What the clearing loop keeps: the size, the total, and that the total does not grow.
  pub clear_buckets_total :
      (rounds i : ℕ) (buckets : List ℕ) (total : ℕ)
      → length buckets ≡ bucket_count
      → total ≡ sum buckets
      → (bs : List ℕ) × (t : ℕ) × (clear_buckets rounds i current (buckets, total) ≡ some (bs, t))
        × (length bs ≡ bucket_count)
        × (t ≡ sum bs)
        × (t ≤ total)
  unfolding clear_buckets
  clear_buckets_total zero i buckets total size e = (buckets, total, refl, size, e, omega arith)
  clear_buckets_total (suc rounds) i buckets total size e =
      let idx : ℕ = add64 current i % bucket_count in
      let (x, at, below) = get_elem?-some buckets idx (omega arith) in
      let (bs, t, run, size', e', less) =
        clear_buckets_total rounds (i + 1) (set buckets idx 0) (total - x)
          (length-set buckets idx 0 ∙ size) (omega (arith, sum-set buckets idx 0 x at)) in
      (bs, t, rw at run, size', e', omega arith)

pub move_to-IsValid :
    (a : GroupActivity) (now_idx elapsed : ℕ)
    → IsValid a
    → (a' : GroupActivity) × (move_to a now_idx elapsed ≡ some a')
      × IsValid a'
      × (a'.total_requests ≤ a.total_requests)
unfolding move_to
move_to-IsValid a now_idx elapsed v =
    let (bs, t, run, size, e, less) =
      clear_buckets_total a.current_bucket v.inside (min elapsed bucket_count) 1 a.buckets
        a.total_requests v.size v.total in
    (
      record a {
        buckets = bs;
        total_requests = t;
        current_bucket = add64 a.current_bucket elapsed % bucket_count;
        bucket_start_idx = now_idx;
      },
      rw run,
      record { size = size; inside = omega arith; total = e },
      less,
    )

-- Advancing the buffer of a valid state succeeds, keeps it valid, and never raises the total.
pub advance_to-IsValid :
    (a : GroupActivity) (now_secs : ℕ)
    → IsValid a
    → (a' : GroupActivity) × (advance_to a now_secs ≡ some a')
      × IsValid a'
      × (a'.total_requests ≤ a.total_requests)
unfolding advance_to
advance_to-IsValid a now_secs v =
    elim (Bool-cases (a.bucket_start_idx == 0 && a.total_requests == 0)) [
      | inl first ↦ (
        record a { bucket_start_idx = secs_to_bucket_idx now_secs },
        rw first,
        record { size = v.size; inside = v.inside; total = v.total },
        omega arith,
      )
      | inr later ↦ elim (Bool-cases (secs_to_bucket_idx now_secs - a.bucket_start_idx == 0)) [
        | inl same ↦ (a, rw (later, same), v, omega arith)
        | inr moved ↦
            let (a', e, w, less) =
              move_to-IsValid a (secs_to_bucket_idx now_secs)
                (secs_to_bucket_idx now_secs - a.bucket_start_idx) v in
            (a', rw (later, moved) e, w, less)
      ]
    ]

get_elem?-set_self : (xs : List ℕ) (i v : ℕ) → i < length xs → get_elem? (set xs i v) i ≡ some v
get_elem?-set_self [] i v h = absurd (omega arith)
get_elem?-set_self (x ∷ xs) zero v h = refl
get_elem?-set_self (x ∷ xs) (suc i) v h = get_elem?-set_self xs i v (omega arith)

pub record_request_lem :
    (a : GroupActivity) (now_secs : ℕ)
    → IsValid a
    → a.total_requests < 2 ^ 32 - 1
    → (a' : GroupActivity) × (record_request a now_secs ≡ some a')
      × IsValid a'
      × (a'.total_requests ≤ a.total_requests + 1)
      × (n : ℕ) × (get_elem? a'.buckets a'.current_bucket ≡ some (suc n))
unfolding record_request
record_request_lem a now_secs v small =
    let (b, moved, w, less) = advance_to-IsValid a now_secs v in
    let (count, at, below) =
      get_elem?-some b.buckets b.current_bucket (omega (arith, w.size, w.inside)) in
    let sat : min (count + 1) (2 ^ 32 - 1) ≡ count + 1 = omega (arith, w.total) in
    let wrap : (b.total_requests + 1) % word ≡ b.total_requests + 1 = omega arith in
    (
      record b {
        buckets = set b.buckets b.current_bucket (count + 1);
        total_requests = b.total_requests + 1;
      },
      rw (moved, at, sat, wrap),
      record {
        size = length-set b.buckets b.current_bucket (count + 1) ∙ w.size;
        inside = w.inside;
        total = omega (arith, sum-set b.buckets b.current_bucket (count + 1) count at, w.total);
      },
      omega arith,
      count,
      get_elem?-set_self b.buckets b.current_bucket (count + 1) (omega (arith, w.size, w.inside))
          ∙ ap some (add-one count),
    )

-- Recording a request in a valid state that holds fewer than 2^32 - 1 requests succeeds, keeps the
-- state valid, and leaves it active: the total is at least one and at most one higher than before.
pub record_request-IsValid :
    (a : GroupActivity) (now_secs : ℕ)
    → IsValid a
    → a.total_requests < 2 ^ 32 - 1
    → (a' : GroupActivity) × (record_request a now_secs ≡ some a')
      × IsValid a'
      × (0 < a'.total_requests)
      × (a'.total_requests ≤ a.total_requests + 1)
record_request-IsValid a now_secs v small =
    let (a', e, w, bound, n, held) = record_request_lem a now_secs v small in
    let (x, there, below) =
      get_elem?-some a'.buckets a'.current_bucket (omega (arith, w.size, w.inside)) in
    let count : some x ≡ some (suc n) = sym there ∙ held in
    let same : x ≡ suc n = cc in (a', e, w, omega (arith, w.total), bound)
