-- ===== src/Worker/Fairness.antt =====
-- What recv_prioritized promises: nothing is lost, urgent requests go first, and a low request is
-- not passed over once ten seconds have gone by.
use september.Base.{
  ℕ, ◌-◌, ◌*◌, ◌/◌, ◌≤◌, ◌<◌, ◌≡◌, ◌⊎◌, refl, none, some, List, [], ◌∷◌, leb, arith, inl, inr,
  Bool-cases, subst,
}
use september.Worker.Queues.{
  WorkerQueues, Received, recv_prioritized, try_low, or_by_priority, priority_aging_secs,
  nanos_per_sec,
}

module _ (R : Type 0) where
  -- The request was the first of the low queue, and the time is noted.
  abbrev pub TookLow : WorkerQueues R → Received R → ℕ → Type 0
  TookLow q r now =
      (q.low ≡ r.request ∷ r.queues.low)
      × (r.queues.high ≡ q.high)
      × (r.queues.normal ≡ q.normal)
      × (r.last_low_process ≡ now)

  abbrev pub TookNormal : WorkerQueues R → Received R → ℕ → Type 0
  TookNormal q r last =
      (q.high ≡ [])
      × (q.normal ≡ r.request ∷ r.queues.normal)
      × (r.queues.high ≡ [])
      × (r.queues.low ≡ q.low)
      × (r.last_low_process ≡ last)

  abbrev pub TookHigh : WorkerQueues R → Received R → ℕ → Type 0
  TookHigh q r last =
      (q.high ≡ r.request ∷ r.queues.high)
      × (r.queues.normal ≡ q.normal)
      × (r.queues.low ≡ q.low)
      × (r.last_low_process ≡ last)

  by_priority :
      (high normal low : List R) (now last : ℕ) (r : Received R)
      → or_by_priority R none (record { high = high; normal = normal; low = low }) now last ≡ some r
      → TookHigh (record { high = high; normal = normal; low = low }) r last
        ⊎ (TookNormal (record { high = high; normal = normal; low = low }) r last
            ⊎ ((high ≡ [])
                × (normal ≡ [])
                × TookLow (record { high = high; normal = normal; low = low }) r now))
  unfolding recv_prioritized
  by_priority (x ∷ high) normal low now last r h =
      let e : Received R = record {
        request = x;
        queues = record { high = high; normal = normal; low = low };
        last_low_process = last;
      } in
      let same : e ≡ r = cc in
      inl (
        subst (λ e'. TookHigh (record { high = x ∷ high; normal = normal; low = low }) e' last) same
          (refl, refl, refl, refl))
  by_priority [] (x ∷ normal) low now last r h =
      let e : Received R = record {
        request = x;
        queues = record { high = []; normal = normal; low = low };
        last_low_process = last;
      } in
      let same : e ≡ r = cc in
      inr (
        inl (
          subst (λ e'. TookNormal (record { high = []; normal = x ∷ normal; low = low }) e' last)
            same (refl, refl, refl, refl, refl)))
  by_priority [] [] (x ∷ low) now last r h =
      let e : Received R = record {
        request = x;
        queues = record { high = []; normal = []; low = low };
        last_low_process = now;
      } in
      let same : e ≡ r = cc in
      inr (
        inr (
          refl,
          refl,
          subst (λ e'. TookLow (record { high = []; normal = []; low = x ∷ low }) e' now) same
              (refl, refl, refl, refl),
        ))
  by_priority [] [] [] now last r h = cc

  aged_low :
      (q : WorkerQueues R) (low : List R) (now last : ℕ) (r : Received R)
      → q.low ≡ low
      → or_by_priority R (try_low R low q now) q now last ≡ some r
      → TookLow q r now ⊎ ((low ≡ []) × (or_by_priority R none q now last ≡ some r))
  unfolding recv_prioritized
  aged_low q [] now last r empty h = inr (refl, h)
  aged_low q (x ∷ low) now last r held h =
      let e : Received R = record {
        request = x;
        queues = record { high = q.high; normal = q.normal; low = low };
        last_low_process = now;
      } in
      let same : e ≡ r = cc in inl (subst (λ e'. TookLow q e' now) same (held, refl, refl, refl))

  -- A worker takes the first request of one queue and leaves the rest as it was. It takes a low
  -- request only when the other two queues are empty or no low request was processed for ten
  -- seconds, and a normal one only when the high queue is empty; once ten seconds have gone by, it
  -- takes a low request if one is waiting.
  pub recv_prioritized_order :
      (q : WorkerQueues R) (now last : ℕ) (r : Received R)
      → recv_prioritized R q now last ≡ some r
      → (TookHigh q r last ⊎ (TookNormal q r last ⊎ TookLow q r now))
        × (TookLow q r now ⊎ ((now - last < priority_aging_secs * nanos_per_sec) ⊎ (q.low ≡ [])))
        × ((TookHigh q r last ⊎ TookNormal q r last)
            ⊎ ((priority_aging_secs * nanos_per_sec ≤ now - last)
                ⊎ ((q.high ≡ []) × (q.normal ≡ []))))
  unfolding recv_prioritized
  recv_prioritized_order q now last r h =
      elim (Bool-cases (leb priority_aging_secs ((now - last) / nanos_per_sec))) [
        | inr early ↦
            let soon : now - last < priority_aging_secs * nanos_per_sec = ground arith in
            let plain : or_by_priority R none q now last ≡ some r = rw early at h in
            elim (by_priority q.high q.normal q.low now last r plain) [
              | inl took ↦ (inl took, inr (inl soon), inl (inl took))
              | inr (inl took) ↦ (inr (inl took), inr (inl soon), inl (inr took))
              | inr (inr (no_high, no_normal, took)) ↦
                  (inr (inr took), inl took, inr (inr (no_high, no_normal)))
            ]
        | inl aged ↦
            let late : priority_aging_secs * nanos_per_sec ≤ now - last = ground arith in
            let first : or_by_priority R (try_low R q.low q now) q now last ≡ some r =
              rw aged at h in
            elim (aged_low q q.low now last r refl first) [
              | inl took ↦ (inr (inr took), inl took, inr (inl late))
              | inr (empty, plain) ↦ elim (by_priority q.high q.normal q.low now last r plain) [
                | inl took ↦ (inl took, inr (inr empty), inl (inl took))
                | inr (inl took) ↦ (inr (inl took), inr (inr empty), inl (inr took))
                | inr (inr (no_high, no_normal, took)) ↦
                    (inr (inr took), inl took, inr (inr (no_high, no_normal)))
              ]
            ]
      ]
