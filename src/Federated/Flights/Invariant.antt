-- ===== src/Federated/Flights/Invariant.antt =====
-- What holds between the pending request, its caller and the channels of get_groups and
-- get_group_stats of src/nntp/federated.rs, and what one move of a caller can do to it.
use september.Base.{
  ℕ, suc, ◌≤◌, ◌<◌, ◌≡◌, ◌≢◌, inl, inr, sym, ◌∙◌, ap, subst, true, false, none, some, ◌∷◌, arith,
  ◌==◌, Bool-cases,
}
use september.Base.Callers.{update, update-cases, update-from, update-both}
use september.Federated.{NntpError, AppError, Result}
use september.Federated.Flights.{
  Caller, fetching, fetched, sending, Flight, message_on, is_active, sends_on, idle,
}

==→eq : (a b : ℕ) → (a == b) ≡ true → a ≡ b
==→eq a b h = ground arith

module _ {A : Type 0} where
  pub record Inv (f : Flight A) (callers : ℕ → Caller A) : Type 0 where
    pub active_pending : (i c : ℕ) → is_active (callers i) c ≡ true → f.pending ≡ some c
    pub unique :
        (i j c : ℕ) → is_active (callers i) c ≡ true → is_active (callers j) c ≡ true → i ≡ j
    pub fresh : (c : ℕ) → f.pending ≡ some c → c < f.next_channel
    pub fresh_sender : (i c : ℕ) → sends_on (callers i) c ≡ true → c < f.next_channel
    pub fresh_message : (c : ℕ) → f.next_channel ≤ c → message_on c f.messages ≡ none
    pub silent : (c : ℕ) → f.pending ≡ some c → message_on c f.messages ≡ none
    pub unsent : (i c : ℕ) → f.pending ≡ some c → sends_on (callers i) c ≡ false

  -- What a move can do to the pending request, seen from the caller that makes it.
  pub data Kind (f : Flight A) (p : Caller A) (g : Flight A) (q : Caller A) : Type 0 where
    keeps :
        g.pending ≡ f.pending
        → g.next_channel ≡ f.next_channel
        → g.messages ≡ f.messages
        → ((c : ℕ) → is_active q c ≡ true → is_active p c ≡ true)
        → ((c : ℕ) → sends_on q c ≡ false)
        → Kind f p g q
    opens :
        f.pending ≡ none
        → g.pending ≡ some f.next_channel
        → g.next_channel ≡ suc f.next_channel
        → g.messages ≡ f.messages
        → q ≡ fetching f.next_channel
        → Kind f p g q
    takes_off :
        (c : ℕ) (r : Result A AppError)
        → p ≡ fetched c r
        → g.pending ≡ none
        → g.next_channel ≡ f.next_channel
        → g.messages ≡ f.messages
        → q ≡ sending c r
        → Kind f p g q
    sends :
        (c : ℕ) (m : Result A NntpError)
        → sends_on p c ≡ true
        → g.pending ≡ f.pending
        → g.next_channel ≡ f.next_channel
        → g.messages ≡ (c, m) ∷ f.messages
        → ((d : ℕ) → is_active q d ≡ false)
        → ((d : ℕ) → sends_on q d ≡ false)
        → Kind f p g q

  module _ (f g : Flight A) (callers : ℕ → Caller A) (i : ℕ) (p q : Caller A) (at : callers i ≡ p)
      (inv : Inv f callers) where
    owner : (c : ℕ) → is_active p c ≡ true → is_active (callers i) c ≡ true
    owner c h = ap (λ r. is_active r c) at ∙ h

    -- The active callers are among those before.
    was_active :
        ((c : ℕ) → is_active q c ≡ true → is_active p c ≡ true)
        → (j c : ℕ) → is_active (update callers i q j) c ≡ true
        → is_active (callers j) c ≡ true
    was_active less j c h = elim (update-from callers i q (λ r. is_active r c) j true h) [
      | inl e ↦ subst (λ k. is_active (callers k) c ≡ true) e.0 (owner c (less c e.1))
      | inr e ↦ e.1
    ]

    was_sender :
        ((c : ℕ) → sends_on q c ≡ false)
        → (j c : ℕ) → sends_on (update callers i q j) c ≡ true
        → sends_on (callers j) c ≡ true
    was_sender less j c h = elim (update-from callers i q (λ r. sends_on r c) j true h) [
      | inl e ↦ absurd (ground (arith, less c, e.1))
      | inr e ↦ e.1
    ]

    no_sender :
        ((c : ℕ) → sends_on q c ≡ false)
        → (j c : ℕ) → sends_on (callers j) c ≡ false
        → sends_on (update callers i q j) c ≡ false
    no_sender less j c h = update-both callers i q (λ r. sends_on r c) j false (less c) h

    Inv-keeps :
        g.pending ≡ f.pending
        → g.next_channel ≡ f.next_channel
        → g.messages ≡ f.messages
        → ((c : ℕ) → is_active q c ≡ true → is_active p c ≡ true)
        → ((c : ℕ) → sends_on q c ≡ false)
        → Inv g (update callers i q)
    Inv-keeps pending number messages less silent_q = record {
      active_pending = λ j c h. pending ∙ inv.active_pending j c (was_active less j c h);
      unique = λ j k c h l. inv.unique j k c (was_active less j c h) (was_active less k c l);
      fresh = λ c h. rw number (inv.fresh c (sym pending ∙ h));
      fresh_sender = λ j c h. rw number (inv.fresh_sender j c (was_sender silent_q j c h));
      fresh_message = λ c h. ap (message_on c) messages ∙ inv.fresh_message c (rw (sym number) h);
      silent = λ c h. ap (message_on c) messages ∙ inv.silent c (sym pending ∙ h);
      unsent = λ j c h. no_sender silent_q j c (inv.unsent j c (sym pending ∙ h));
    }

    Inv-opens :
        f.pending ≡ none
        → g.pending ≡ some f.next_channel
        → g.next_channel ≡ suc f.next_channel
        → g.messages ≡ f.messages
        → q ≡ fetching f.next_channel
        → Inv g (update callers i q)
    Inv-opens vacant pending number messages fetches_now = record {
      active_pending = λ j c h. pending ∙ ap some (opened j c h).1;
      unique = λ j k c h l. sym (opened j c h).0 ∙ (opened k c l).0;
      fresh = λ c h. omega (arith, opened_channel c h);
      fresh_sender = λ j c h. omega (arith, inv.fresh_sender j c (was_sender not_sending j c h));
      fresh_message = λ c h. ap (message_on c) messages ∙ inv.fresh_message c (omega arith);
      silent = λ c h.
          ap (message_on c) messages ∙ inv.fresh_message c (omega (arith, opened_channel c h));
      unsent = λ j c h. elim (Bool-cases (sends_on (callers j) c)) [
        | inl older ↦ absurd (omega (arith, opened_channel c h, inv.fresh_sender j c older))
        | inr other ↦ no_sender not_sending j c other
      ];
    }
      where
        not_sending : (c : ℕ) → sends_on q c ≡ false
        not_sending c = ap (λ r. sends_on r c) fetches_now

        opened_channel : (c : ℕ) → g.pending ≡ some c → f.next_channel ≡ c
        opened_channel c h = cc

        opened :
            (j c : ℕ) → is_active (update callers i q j) c ≡ true → (i ≡ j) × (f.next_channel ≡ c)
        opened j c h = elim (update-from callers i q (λ r. is_active r c) j true h) [
          | inl e ↦
              let new : (f.next_channel == c) ≡ true =
                sym (ap (λ r. is_active r c) fetches_now) ∙ e.1 in
              (e.0, ground arith)
          | inr e ↦ absurd (ground (arith, vacant, inv.active_pending j c e.1))
        ]

    Inv-takes_off :
        (c : ℕ) (r : Result A AppError)
        → p ≡ fetched c r
        → g.pending ≡ none
        → g.next_channel ≡ f.next_channel
        → g.messages ≡ f.messages
        → q ≡ sending c r
        → Inv g (update callers i q)
    Inv-takes_off c r finished vacant number messages sends_now = record {
      active_pending = λ j d h. absurd (ground (arith, none_active j d, h));
      unique = λ j k d h l. absurd (ground (arith, none_active j d, h));
      fresh = λ d h. absurd (cc);
      fresh_sender = λ j d h. elim (update-from callers i q (λ r. sends_on r d) j true h) [
        | inl e ↦
            let same : (c == d) ≡ true = sym (ap (λ r. sends_on r d) sends_now) ∙ e.1 in
            omega (arith, number, inv.fresh c in_table, ==→eq c d same)
        | inr e ↦ omega (arith, number, inv.fresh_sender j d e.1)
      ];
      fresh_message = λ d h. ap (message_on d) messages ∙ inv.fresh_message d (rw (sym number) h);
      silent = λ d h. absurd (cc);
      unsent = λ j d h. absurd (cc);
    }
      where
        active_here : is_active (callers i) c ≡ true
        active_here = ap (λ s. is_active s c) (at ∙ finished) ∙ ground arith

        in_table : f.pending ≡ some c
        in_table = inv.active_pending i c active_here

        none_active : (j d : ℕ) → is_active (update callers i q j) d ≡ false
        none_active j d = elim (update-cases callers i q j) [
          | inl e ↦ ap (λ s. is_active s d) (e.1 ∙ sends_now)
          | inr e ↦ ap (λ s. is_active s d) e.1 ∙ elim (Bool-cases (is_active (callers j) d)) [
            | inl other ↦
                let same : some c ≡ some d = sym in_table ∙ inv.active_pending j d other in
                let channel : c ≡ d = cc in
                absurd (
                  e.0 (
                    inv.unique i j c active_here
                      (subst (λ k. is_active (callers j) k ≡ true) (sym channel) other)))
            | inr idle ↦ idle
          ]
        ]

    Inv-sends :
        (c : ℕ) (m : Result A NntpError)
        → sends_on p c ≡ true
        → g.pending ≡ f.pending
        → g.next_channel ≡ f.next_channel
        → g.messages ≡ (c, m) ∷ f.messages
        → ((d : ℕ) → is_active q d ≡ false)
        → ((d : ℕ) → sends_on q d ≡ false)
        → Inv g (update callers i q)
    Inv-sends c m sender pending number messages inactive silent_q = record {
      active_pending = λ j d h. pending ∙ inv.active_pending j d (was_active less j d h);
      unique = λ j k d h l. inv.unique j k d (was_active less j d h) (was_active less k d l);
      fresh = λ d h. rw number (inv.fresh d (sym pending ∙ h));
      fresh_sender = λ j d h. rw number (inv.fresh_sender j d (was_sender silent_q j d h));
      fresh_message = λ d h.
          other_message d (λ e. omega (arith, number, e, inv.fresh_sender i c sends_here))
            (inv.fresh_message d (rw (sym number) h));
      silent = λ d h.
          other_message d
            (λ e. absurd (ground (arith, sends_here, inv.unsent i c (sym pending ∙ rw e h))))
            (inv.silent d (sym pending ∙ h));
      unsent = λ j d h. no_sender silent_q j d (inv.unsent j d (sym pending ∙ h));
    }
      where
        sends_here : sends_on (callers i) c ≡ true
        sends_here = ap (λ r. sends_on r c) at ∙ sender

        less : (d : ℕ) → is_active q d ≡ true → is_active p d ≡ true
        less d h = absurd (ground (arith, inactive d, h))

        other_message :
            (d : ℕ) → c ≢ d → message_on d f.messages ≡ none → message_on d g.messages ≡ none
        other_message d differs h = ap (message_on d) messages ∙ ground (arith, differs, h)

    pub Inv-Kind : Kind f p g q → Inv g (update callers i q)
    Inv-Kind (keeps pending number messages less silent_q) =
        Inv-keeps pending number messages less silent_q
    Inv-Kind (opens vacant pending number messages fetches_now) =
        Inv-opens vacant pending number messages fetches_now
    Inv-Kind (takes_off c r finished vacant number messages sends_now) =
        Inv-takes_off c r finished vacant number messages sends_now
    Inv-Kind (sends c m sender pending number messages inactive silent_q) =
        Inv-sends c m sender pending number messages inactive silent_q
