-- ===== src/Service/Invariant.antt =====
-- What holds between the pending requests, the callers and the channels of get_article,
-- get_threads, get_group_stats and get_groups, and the effect of one caller's new phase on it.
use september.Base.{
  ℕ, ◌≤◌, ◌<◌, ◌≡◌, ◌⊎◌, inl, inr, refl, sym, ◌∙◌, ap, Bool, true, false, ◌&&◌, none, some, String,
  str_eq, lookup, arith, ◌==◌,
}
use september.Base.Callers.{update, update-cases, test-update}
use september.Federated.{NntpError, Result}
use september.Service.Coalescing.{
  Phase, Shared, idle, sending, leading, finishing, broadcasting, waiting, done, cancelled,
  is_awaiting, owns, message_on,
}

module _ {A : Type 0} where
  abbrev pub has_key : Phase A → String → ℕ → Bool
  has_key (sending k c) key channel = str_eq k key && c == channel
  has_key (leading k c since) key channel = str_eq k key && c == channel
  has_key (finishing k c result) key channel = str_eq k key && c == channel
  has_key _ key channel = false

  -- The caller, cancelled or not, has the key in the table with the channel, unless another call
  -- replaced the entry.
  abbrev pub registered : Phase A → String → ℕ → Bool
  registered (cancelled p) key channel = has_key p key channel
  registered p key channel = has_key p key channel

  -- The caller holds the sender of the channel, or did when it was cancelled.
  abbrev pub had : Phase A → ℕ → Bool
  had (cancelled p) channel = owns p channel
  had p channel = owns p channel

  abbrev pub waits_on : Phase A → ℕ → Bool
  waits_on (waiting c since) channel = c == channel
  waits_on _ channel = false

  -- The answer is on the channel, or there is the caller that was to send it, cancelled or not.
  abbrev pub IsServed : Shared A → (ℕ → Phase A) → ℕ → Type 0
  IsServed s callers channel =
      ((result : Result A NntpError) × (message_on channel s.messages ≡ some result))
      ⊎ ((i : ℕ) × (had (callers i) channel ≡ true))

  pub record Inv (s : Shared A) (callers : ℕ → Phase A) : Type 0 where
    pub fresh_owner : (i channel : ℕ) → had (callers i) channel ≡ true → channel < s.next_channel
    pub single_owner :
        (i j channel : ℕ) → had (callers i) channel ≡ true → had (callers j) channel ≡ true → i ≡ j
    pub silent :
        (i channel : ℕ) → had (callers i) channel ≡ true → message_on channel s.messages ≡ none
    pub fresh_channel :
        (channel : ℕ) → s.next_channel ≤ channel → message_on channel s.messages ≡ none
    pub pending_owner :
        (key : String) (channel started_at : ℕ)
        → lookup key s.pending ≡ some (channel, started_at)
        → (i : ℕ) × (registered (callers i) key channel ≡ true)
    pub served : (i channel : ℕ) → waits_on (callers i) channel ≡ true → IsServed s callers channel

  has_key→owns :
      (p : Phase A) (key : String) (channel : ℕ)
      → has_key p key channel ≡ true
      → owns p channel ≡ true
  has_key→owns idle key channel h = ground arith
  has_key→owns (sending k c) key channel h = ground arith
  has_key→owns (leading k c since) key channel h = ground arith
  has_key→owns (finishing k c result) key channel h = ground arith
  has_key→owns (broadcasting c result) key channel h = ground arith
  has_key→owns (waiting c since) key channel h = ground arith
  has_key→owns (done result) key channel h = ground arith
  has_key→owns (cancelled p) key channel h = ground arith

  pub registered→had :
      (p : Phase A) (key : String) (channel : ℕ)
      → registered p key channel ≡ true
      → had p channel ≡ true
  registered→had idle key channel h = ground arith
  registered→had (sending k c) key channel h = ground arith
  registered→had (leading k c since) key channel h = ground arith
  registered→had (finishing k c result) key channel h = ground arith
  registered→had (broadcasting c result) key channel h = ground arith
  registered→had (waiting c since) key channel h = ground arith
  registered→had (done result) key channel h = ground arith
  registered→had (cancelled p) key channel h = has_key→owns p key channel h

  -- A call that is dropped keeps its channel and its key.
  pub had-cancelled :
      (p : Phase A)
      → is_awaiting p ≡ true
      → (channel : ℕ) → had (cancelled p) channel ≡ had p channel
  had-cancelled (sending k c) h channel = refl
  had-cancelled (leading k c since) h channel = refl
  had-cancelled (finishing k c result) h channel = refl
  had-cancelled (waiting c since) h channel = refl
  had-cancelled idle h channel = refl
  had-cancelled (broadcasting c result) h channel = refl
  had-cancelled (done result) h channel = refl
  had-cancelled (cancelled p) h channel = absurd (ground arith)

  pub registered-cancelled :
      (p : Phase A)
      → is_awaiting p ≡ true
      → (key : String) (channel : ℕ)
      → registered (cancelled p) key channel ≡ registered p key channel
  registered-cancelled (sending k c) h key channel = refl
  registered-cancelled (leading k c since) h key channel = refl
  registered-cancelled (finishing k c result) h key channel = refl
  registered-cancelled (waiting c since) h key channel = refl
  registered-cancelled idle h key channel = refl
  registered-cancelled (broadcasting c result) h key channel = refl
  registered-cancelled (done result) h key channel = refl
  registered-cancelled (cancelled p) h key channel = absurd (ground arith)

  -- Who had the channel holds it, or was cancelled.
  pub had-cases :
      (p : Phase A) (channel : ℕ)
      → had p channel ≡ true
      → (owns p channel ≡ true) ⊎ ((q : Phase A) × (p ≡ cancelled q) × (owns q channel ≡ true))
  had-cases idle channel h = inl h
  had-cases (sending k c) channel h = inl h
  had-cases (leading k c since) channel h = inl h
  had-cases (finishing k c result) channel h = inl h
  had-cases (broadcasting c result) channel h = inl h
  had-cases (waiting c since) channel h = inl h
  had-cases (done result) channel h = inl h
  had-cases (cancelled q) channel h = inr (q, refl, h)

  -- A phase that owns and registers what the one before did keeps the invariant, when the channel
  -- that it waits on is served.
  pub Inv-update :
      (s : Shared A) (callers : ℕ → Phase A) (i : ℕ) (p : Phase A)
      → ((channel : ℕ) → had p channel ≡ had (callers i) channel)
      → ((key : String) (channel : ℕ)
          → registered p key channel ≡ registered (callers i) key channel)
      → ((channel : ℕ) → waits_on p channel ≡ true → IsServed s callers channel)
      → Inv s callers
      → Inv s (update callers i p)
  Inv-update s callers i p same_owner same_key is_served inv =
      let owner : (j channel : ℕ) → had (update callers i p j) channel ≡ had (callers j) channel =
        λ j channel. test-update callers i p (λ q. had q channel) (same_owner channel) j in
      let entry : (j : ℕ) (key : String) (channel : ℕ)
          → registered (update callers i p j) key channel ≡ registered (callers j) key channel =
        λ j key channel.
          test-update callers i p (λ q. registered q key channel) (same_key key channel) j in
      let still : (channel : ℕ)
          → IsServed s callers channel
          → IsServed s (update callers i p) channel =
        λ channel h. elim h [ inl m ↦ inl m | inr o ↦ inr (o.0, owner o.0 channel ∙ o.1) ] in
      record {
        fresh_owner = λ j channel h. inv.fresh_owner j channel (sym (owner j channel) ∙ h);
        single_owner = λ j k channel h g.
            inv.single_owner j k channel (sym (owner j channel) ∙ h) (sym (owner k channel) ∙ g);
        silent = λ j channel h. inv.silent j channel (sym (owner j channel) ∙ h);
        fresh_channel = inv.fresh_channel;
        pending_owner = λ key channel started_at h.
            let o = inv.pending_owner key channel started_at h in
            (o.0, entry o.0 key channel ∙ o.1);
        served = λ j channel h. elim (update-cases callers i p j) [
          | inl e ↦ still channel (is_served channel (sym (ap (λ q. waits_on q channel) e.1) ∙ h))
          | inr e ↦
              still channel (inv.served j channel (sym (ap (λ q. waits_on q channel) e.1) ∙ h))
        ];
      }
