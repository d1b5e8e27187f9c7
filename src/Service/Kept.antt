-- ===== src/Service/Kept.antt =====
-- Every step of the callers of src/nntp/service.rs keeps the invariant, when no worker queue
-- closes.
use september.Base.{
  ℕ, ◌-◌, ◌≡◌, ◌≢◌, ◌⊎◌, inl, inr, refl, sym, ◌∙◌, ap, true, false, some, String, str_eq, Map,
  lookup, remove, lookup-insert, lookup-remove, arith, ltb, ◌==◌, eq_iff, Option-cases, Bool-cases,
}
use september.Base.Callers.{update, update_self, test-update, update-from, update-still}
use september.Federated.{NntpError, Result}
use september.Service.Coalescing.{
  Phase, Shared, Service, Step, Reach, here, next, enters, sends, fails, replies, unregisters,
  broadcasts, receives, gives_up, closes, idle, sending, finishing, broadcasting, waiting, done,
  cancelled, cancels, enter, join_or_register, register, unregister, send, new,
}
use september.Service.Invariant.{
  Inv, registered, waits_on, registered→had, had, had-cancelled, registered-cancelled, Inv-update,
}

module _ {A : Type 0} where
  Inv-new : Inv (new {A = A}).shared (new {A = A}).callers
  unfolding new lookup
  Inv-new = record {
    fresh_owner = λ i channel h. ground arith;
    single_owner = λ i j channel h g. ground arith;
    silent = λ i channel h. refl;
    fresh_channel = λ channel h. refl;
    pending_owner = λ key channel started_at h. ground arith;
    served = λ i channel h. ground arith;
  }

  -- A caller that starts a request has a channel of its own.
  Inv-registers :
      (key : String) (now : ℕ) (s : Shared A) (rest : Map (ℕ × ℕ)) (callers : ℕ → Phase A) (i : ℕ)
      → callers i ≡ idle
      → ((query : String) → query ≢ key → lookup query rest ≡ lookup query s.pending)
      → Inv s callers
      → Inv
          (register key now (record s { pending = rest })).1
          (update callers i (sending key s.next_channel))
  unfolding register
  Inv-registers key now s rest callers i e others inv =
      let q : Phase A = sending key s.next_channel in
      let owner : (j channel : ℕ)
          → had (update callers i q j) channel ≡ true
          → ((i ≡ j) × (channel ≡ s.next_channel)) ⊎ (had (callers j) channel ≡ true) =
        λ j channel h. elim (update-from callers i q (λ p. had p channel) j true h) [
          | inl c ↦ inl (c.0, ground (arith, c.1))
          | inr c ↦ inr c.1
        ] in
      record {
        fresh_owner = λ j channel h. elim (owner j channel h) [
          | inl c ↦ omega (arith, c.1)
          | inr o ↦ omega (arith, inv.fresh_owner j channel o)
        ];
        single_owner = λ j k channel h g. elim (owner j channel h) [
          | inl c ↦ elim (owner k channel g) [
            | inl d ↦ sym c.0 ∙ d.0
            | inr o ↦ absurd (omega (arith, c.1, inv.fresh_owner k channel o))
          ]
          | inr o ↦ elim (owner k channel g) [
            | inl d ↦ absurd (omega (arith, d.1, inv.fresh_owner j channel o))
            | inr p ↦ inv.single_owner j k channel o p
          ]
        ];
        silent = λ j channel h. elim (owner j channel h) [
          | inl c ↦ inv.fresh_channel channel (omega (arith, c.1))
          | inr o ↦ inv.silent j channel o
        ];
        fresh_channel = λ channel h. inv.fresh_channel channel (omega arith);
        pending_owner = λ k channel started_at h. elim (Bool-cases (str_eq key k)) [
          | inl same ↦ (
            i,
            ap (λ p. registered p k channel) (update_self callers i q)
                ∙ ground (arith, same, lookup-insert key k (s.next_channel, now) rest, h),
          )
          | inr other ↦
              let o = inv.pending_owner k channel started_at (
                sym (others k (ground (arith, eq_iff key k, other)))
                ∙ ground (arith, other, lookup-insert key k (s.next_channel, now) rest, h)) in
              (o.0, update-still callers i q (λ p. registered p k channel) (rw e refl) o.0 o.1)
        ];
        served = λ j channel h. elim (update-from callers i q (λ p. waits_on p channel) j true h) [
          | inl c ↦ absurd (ground (arith, c.1))
          | inr c ↦ elim (inv.served j channel c.1) [
            | inl m ↦ inl m
            | inr o ↦ inr (o.0, update-still callers i q (λ p. had p channel) (rw e refl) o.0 o.1)
          ]
        ];
      }

  Inv-enter :
      (request_timeout : ℕ) (key : String) (now : ℕ) (s : Shared A) (callers : ℕ → Phase A) (i : ℕ)
      → callers i ≡ idle
      → Inv s callers
      → Inv
          (enter request_timeout key now s).1
          (update callers i (enter request_timeout key now s).0)
  unfolding enter join_or_register
  Inv-enter request_timeout key now s callers i e inv = elim (Option-cases (lookup key s.pending)) [
    | inl absent ↦ rw absent (Inv-registers key now s s.pending callers i e (λ query h. refl) inv)
    | inr present ↦
        let channel : ℕ = present.0.0 in
        let started_at : ℕ = present.0.1 in
        rw (present.1) (elim (Bool-cases (ltb (now - started_at) request_timeout)) [
          | inl recent ↦ rw recent (
              let o = inv.pending_owner key channel started_at (present.1) in
              Inv-update s callers i (waiting channel now) (λ c. rw e refl) (λ k c. rw e refl)
                (λ c h. inr (o.0, ground (arith, h, registered→had (callers o.0) key channel o.1)))
                inv)
          | inr expired ↦ rw expired (
              Inv-registers key now s (remove key s.pending) callers i e
                (λ query h. ground (arith, lookup-remove key query s.pending, eq_iff key query))
                inv)
        ])
  ]

  -- The key is taken off the table; the caller still has the channel.
  Inv-unregisters :
      (key : String) (channel : ℕ) (result : Result A NntpError) (s : Shared A)
      (callers : ℕ → Phase A) (i : ℕ)
      → callers i ≡ finishing key channel result
      → Inv s callers
      → Inv (unregister key s) (update callers i (broadcasting channel result))
  unfolding unregister
  Inv-unregisters key channel result s callers i e inv =
      let q : Phase A = broadcasting channel result in
      let owner : (j c : ℕ) → had (update callers i q j) c ≡ had (callers j) c =
        λ j c. test-update callers i q (λ p. had p c) (rw e refl) j in
      record {
        fresh_owner = λ j c h. inv.fresh_owner j c (sym (owner j c) ∙ h);
        single_owner =
            λ j k c h g. inv.single_owner j k c (sym (owner j c) ∙ h) (sym (owner k c) ∙ g);
        silent = λ j c h. inv.silent j c (sym (owner j c) ∙ h);
        fresh_channel = inv.fresh_channel;
        pending_owner = λ k c started_at h.
            let (differs, found) : (str_eq key k ≡ false)
                × (lookup k s.pending ≡ some (c, started_at)) =
              ground (arith, h, lookup-remove key k s.pending) in
            let (j, entry) = inv.pending_owner k c started_at found in
            (
              j,
              update-still callers i q (λ p. registered p k c) (rw e (ground (arith, differs))) j
                  entry,
            );
        served = λ j c h. elim (update-from callers i q (λ p. waits_on p c) j true h) [
          | inl d ↦ absurd (ground (arith, d.1))
          | inr d ↦ elim (inv.served j c d.1) [
            | inl m ↦ inl m
            | inr o ↦ inr (o.0, owner o.0 c ∙ o.1)
          ]
        ];
      }

  -- The result is on the channel, which has no owner any more.
  Inv-broadcasts :
      (channel : ℕ) (result : Result A NntpError) (s : Shared A) (callers : ℕ → Phase A) (i : ℕ)
      → callers i ≡ broadcasting channel result
      → Inv s callers
      → Inv (send channel result s) (update callers i (done result))
  unfolding send
  Inv-broadcasts channel result s callers i e inv =
      let q : Phase A = done result in
      let mine : had (callers i) channel ≡ true = rw e (ground arith) in
      let owner : (j c : ℕ)
          → had (update callers i q j) c ≡ true
          → (channel ≢ c) × (had (callers j) c ≡ true) =
        λ j c h. elim (update-from callers i q (λ p. had p c) j true h) [
          | inl d ↦ absurd (ground (arith, d.1))
          | inr d ↦ (
            λ same. d.0 (inv.single_owner i j c (sym (ap (had (callers i)) same) ∙ mine) d.1),
            d.1,
          )
        ] in
      record {
        fresh_owner = λ j c h. inv.fresh_owner j c ((owner j c h).1);
        single_owner = λ j k c h g. inv.single_owner j k c ((owner j c h).1) ((owner k c g).1);
        silent = λ j c h. ground (arith, (owner j c h).0, inv.silent j c ((owner j c h).1));
        fresh_channel =
            λ c h. ground (arith, inv.fresh_owner i channel mine, inv.fresh_channel c h);
        pending_owner = λ k c started_at h.
            let (j, entry) = inv.pending_owner k c started_at h in
            (j, update-still callers i q (λ p. registered p k c) (rw e refl) j entry);
        served = λ j c h. elim (update-from callers i q (λ p. waits_on p c) j true h) [
          | inl d ↦ absurd (ground (arith, d.1))
          | inr d ↦ elim (Bool-cases (channel == c)) [
            | inl same ↦ inl (result, ground (arith, same))
            | inr other ↦ elim (inv.served j c d.1) [
              | inl m ↦ inl (m.0, ground (arith, other, m.1))
              | inr o ↦ inr (
                o.0,
                update-still callers i q (λ p. had p c) (rw e (ground (arith, other))) o.0 o.1,
              )
            ]
          ]
        ];
      }

  -- A caller's new phase that cancels, registers and waits for nothing new.
  Inv-moves :
      (s : Service A) (i : ℕ) (old p : Phase A)
      → s.callers i ≡ old
      → ((channel : ℕ) → had p channel ≡ had old channel)
      → ((key : String) (channel : ℕ) → registered p key channel ≡ registered old key channel)
      → ((channel : ℕ) → waits_on p channel ≡ false)
      → Inv s.shared s.callers
      → Inv s.shared (update s.callers i p)
  Inv-moves s i old p e owner entry waits =
      Inv-update s.shared s.callers i p (λ channel. owner channel ∙ sym (ap (λ q. had q channel) e))
        (λ key channel. entry key channel ∙ sym (ap (λ q. registered q key channel) e))
        (λ channel h. absurd (ground (arith, waits channel, h)))

  pub Step-Inv :
      {request_timeout : ℕ} {s t : Service A}
      → Step request_timeout true s t
      → Inv s.shared s.callers
      → Inv t.shared t.callers
  Step-Inv {request_timeout} (enters s i key now e) inv =
      Inv-enter request_timeout key now s.shared s.callers i e inv
  Step-Inv (sends s i key channel now e) inv =
      Inv-moves s i _ _ e (λ c. refl) (λ k c. refl) (λ c. refl) inv
  Step-Inv (fails s i key channel e closed) inv = absurd (ground (arith, closed))
  Step-Inv (replies s i key channel since now reply e late) inv =
      Inv-moves s i _ _ e (λ c. refl) (λ k c. refl) (λ c. refl) inv
  Step-Inv (unregisters s i key channel result e) inv =
      Inv-unregisters key channel result s.shared s.callers i e inv
  Step-Inv (broadcasts s i channel result e) inv =
      Inv-broadcasts channel result s.shared s.callers i e inv
  Step-Inv (receives s i channel since result e m) inv =
      Inv-moves s i _ _ e (λ c. refl) (λ k c. refl) (λ c. refl) inv
  Step-Inv (gives_up s i channel since now e late) inv =
      Inv-moves s i _ _ e (λ c. refl) (λ k c. refl) (λ c. refl) inv
  Step-Inv (cancels s i p e at_wait) inv =
      Inv-moves s i p (cancelled p) e (had-cancelled p at_wait) (registered-cancelled p at_wait)
        (λ c. refl) inv
  Step-Inv (closes s i channel since e m none_left) inv =
      Inv-moves s i _ _ e (λ c. refl) (λ k c. refl) (λ c. refl) inv

  pub Reach-Inv :
      {request_timeout : ℕ} {t : Service A}
      → Reach request_timeout true new t
      → Inv t.shared t.callers
  Reach-Inv here = Inv-new
  Reach-Inv (next r st) = Step-Inv st (Reach-Inv r)
