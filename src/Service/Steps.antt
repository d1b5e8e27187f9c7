-- ===== src/Service/Steps.antt =====
-- The calls of src/nntp/service.rs as steps of one caller.
use september.Base.{
  ℕ, ◌-◌, ◌≡◌, inl, inr, refl, sym, ◌∙◌, ap, Bool, true, false, some, String, lookup, arith, ltb,
  if◌then◌else◌, Option-cases, Bool-cases, ◌≢◌, none, str_eq, str_eq_refl, eq_iff, remove,
  lookup-insert, lookup-remove,
}
use september.Base.Callers.{update_self, update_other}
use september.Base.Text.{codes}
use september.Federated.{NntpError, Result, err}
use september.Service.Coalescing.{
  Phase, Shared, Service, Reply, Reach, here, next, enters, sends, fails, replies, unregisters,
  broadcasts, idle, sending, leading, finishing, broadcasting, waiting, done, replied, message_on,
  outcome, enter, join_or_register, register, unregister, send, place,
}
use september.Service.Calls.{Heard, lead, join_or_lead, call}

module _ {A : Type 0} where
  -- What a caller that starts a request leaves behind.
  call-lead :
      (request_timeout : ℕ) (key : String) (now : ℕ) (pool_open : Bool) (reply : Reply A)
      (from_other : Heard A) (s : Shared A)
      → (enter request_timeout key now s).0 ≡ sending key s.next_channel
      → call request_timeout key now pool_open reply from_other s ≡ (
          if pool_open
          then (
            outcome reply,
            send s.next_channel
                (outcome reply)
                (unregister key (enter request_timeout key now s).1),
          )
          else (err (codes "Worker pool closed"), (enter request_timeout key now s).1))
  unfolding call join_or_lead lead enter join_or_register register
  call-lead request_timeout key now pool_open reply from_other s starts =
      elim (Option-cases (lookup key s.pending)) [
        | inl absent ↦
            rw absent (elim (Bool-cases pool_open) [ inl o ↦ rw o refl | inr o ↦ rw o refl ])
        | inr present ↦
            rw (present.1) (elim (Bool-cases (ltb (now - present.0.1) request_timeout)) [
              | inl recent ↦ absurd (
                  not_started present.0 recent (
                    sym (ap (λ o. (join_or_register request_timeout key now s o).0) (present.1))
                    ∙ starts))
              | inr expired ↦
                  rw expired (elim (Bool-cases pool_open) [ inl o ↦ rw o refl | inr o ↦ rw o refl ])
            ])
      ]
    where
      not_started :
          (entry : ℕ × ℕ)
          → ltb (now - entry.1) request_timeout ≡ true
          → (join_or_register request_timeout key now s (some entry)).0 ≡ sending key s.next_channel
          → ⊥
      not_started (channel, started_at) recent h = absurd (joined (sym (rw recent refl) ∙ h))
        where
          joined : ¬ (◌≡◌ {A = Phase A} (waiting channel now) (sending key s.next_channel))
          joined e = cc

  -- Steps of the caller i alone that end with its result and the shared state.
  pub record RunsAs (request_timeout : ℕ) (pool_open : Bool) (s : Service A) (i : ℕ)
      (result : Result A NntpError) (shared : Shared A) : Type 0 where
    pub end : Service A
    pub steps : Reach request_timeout pool_open s end
    pub shared_end : end.shared ≡ shared
    pub own_end : end.callers i ≡ done result
    pub others_end : (j : ℕ) → ¬ (i ≡ j) → end.callers j ≡ s.callers j

  module _ (request_timeout : ℕ) (key : String) (now : ℕ) (reply : Reply A) (s : Service A)
      (i : ℕ) where
    started : Service A
    started = place s i (enter request_timeout key now s.shared)

    runs_open :
        s.callers i ≡ idle
        → (enter request_timeout key now s.shared).0 ≡ sending key s.shared.next_channel
        → RunsAs request_timeout true s i (outcome reply) (
            send s.shared.next_channel
              (outcome reply)
              (unregister key (enter request_timeout key now s.shared).1))
    unfolding started
    runs_open e starts =
        let c : ℕ = s.shared.next_channel in
        let s2 : Service A = place started i (leading key c 0, started.shared) in
        let s3 : Service A = place s2 i (finishing key c (outcome reply), s2.shared) in
        let s4 : Service A =
          place s3 i (broadcasting c (outcome reply), unregister key s3.shared) in
        let s5 : Service A = place s4 i (done (outcome reply), send c (outcome reply) s4.shared) in
        record {
          end = s5;
          steps =
              next
                (next
                  (next
                    (next (next here (enters s i key now e))
                      (sends started i key c 0 (update_self s.callers i _ ∙ starts)))
                    (replies s2 i key c 0 request_timeout reply (update_self started.callers i _)
                      (λ h. omega arith)))
                  (unregisters s3 i key c (outcome reply) (update_self s2.callers i _)))
                (broadcasts s4 i c (outcome reply) (update_self s3.callers i _));
          shared_end = refl;
          own_end = update_self s4.callers i _;
          others_end = λ j n.
              update_other s4.callers i _ j n
              ∙ update_other s3.callers i _ j n
              ∙ update_other s2.callers i _ j n
              ∙ update_other started.callers i _ j n
              ∙ update_other s.callers i _ j n;
        }

    runs_closed :
        s.callers i ≡ idle
        → (enter request_timeout key now s.shared).0 ≡ sending key s.shared.next_channel
        → RunsAs request_timeout false s i
            (err (codes "Worker pool closed"))
            (enter request_timeout key now s.shared).1
    unfolding started
    runs_closed e starts = record {
      end = place started i (done (err (codes "Worker pool closed")), started.shared);
      steps =
          next (next here (enters s i key now e))
            (fails started i key s.shared.next_channel (update_self s.callers i _ ∙ starts) refl);
      shared_end = refl;
      own_end = update_self started.callers i _;
      others_end = λ j n. update_other started.callers i _ j n ∙ update_other s.callers i _ j n;
    }

  -- What a call that got through leaves behind: its key is off the table, which is as before at the
  -- other keys, and its channel has its result, which is the worker's if the worker replied.
  pub record IsSettled (key : String) (reply : Reply A) (before : Shared A)
      (result : Result A NntpError) (after : Shared A) : Type 0 where
    pub key_off : lookup key after.pending ≡ none
    pub other_keys :
        (other : String) → key ≢ other → lookup other after.pending ≡ lookup other before.pending
    pub told : message_on before.next_channel after.messages ≡ some result
    pub worker_result : (r : Result A NntpError) → reply ≡ replied r → result ≡ r

  enter-other_keys :
      (request_timeout : ℕ) (key : String) (now : ℕ) (s : Shared A) (other : String)
      → str_eq key other ≡ false
      → lookup other (enter request_timeout key now s).1.pending ≡ lookup other s.pending
  unfolding enter join_or_register register
  enter-other_keys request_timeout key now s other differ =
      elim (Option-cases (lookup key s.pending)) [
        | inl absent ↦
            rw (absent, lookup-insert key other (s.next_channel, now) s.pending, differ) refl
        | inr ((channel, started_at), present) ↦
            elim (Bool-cases (ltb (now - started_at) request_timeout)) [
              | inl recent ↦ rw (present, recent) refl
              | inr expired ↦
                  rw
                    (
                      present,
                      expired,
                      lookup-insert key other (s.next_channel, now) (remove key s.pending),
                      differ,
                      lookup-remove key other s.pending,
                      differ,
                    )
                    refl
            ]
      ]

  settled :
      (request_timeout : ℕ) (key : String) (now : ℕ) (reply : Reply A) (s : Shared A)
      → IsSettled key reply s
          (outcome reply)
          (send s.next_channel (outcome reply) (unregister key (enter request_timeout key now s).1))
  unfolding send unregister outcome
  settled request_timeout key now reply s =
      let table = (enter request_timeout key now s).1.pending in
      record {
        key_off = rw (lookup-remove key key table, str_eq_refl key) refl;
        other_keys = λ other n.
            let differ : str_eq key other ≡ false = ground (arith, eq_iff key other) in
            rw (lookup-remove key other table, differ)
              (enter-other_keys request_timeout key now s other differ);
        told = ground arith;
        worker_result = λ r e. rw e refl;
      }

  -- A call that starts a request is a run of the caller's own steps, whether the workers' queues
  -- are open or not and whatever the worker answers: they end in the shared state and with the
  -- result that the call gives. With open queues the result is then on the call's channel, and is the
  -- worker's if it replied; the key is off the table, and the other keys are as before.
  pub call_steps :
      (request_timeout : ℕ) (key : String) (now : ℕ) (pool_open : Bool) (reply : Reply A)
      (from_other : Heard A) (s : Service A) (i : ℕ)
      → s.callers i ≡ idle
      → (enter request_timeout key now s.shared).0 ≡ sending key s.shared.next_channel
      → let after = call request_timeout key now pool_open reply from_other s.shared in
        RunsAs request_timeout pool_open s i after.0 after.1
        × (pool_open ≡ true → IsSettled key reply s.shared after.0 after.1)
  call_steps request_timeout key now true reply from_other s i e starts =
      rw (call-lead request_timeout key now true reply from_other s.shared starts) (
        runs_open request_timeout key now reply s i e starts,
        λ got_through. settled request_timeout key now reply s.shared,
      )
  call_steps request_timeout key now false reply from_other s i e starts =
      rw (call-lead request_timeout key now false reply from_other s.shared starts) (
        runs_closed request_timeout key now reply s i e starts,
        λ got_through. absurd (ground arith),
      )
