-- ===== src/Federated/Flights/Abandoned.antt =====
-- What a cancelled call of get_groups or get_group_stats of src/nntp/federated.rs leaves behind.
use september.Base.{
  ℕ, ◌≡◌, ◌⊎◌, inl, inr, refl, sym, ◌∙◌, ap, subst, true, false, none, some, arith, Bool-cases,
}
use september.Base.Callers.{update, update-cases, update-both}
use september.Federated.{NntpError, AppError, Result}
use september.Federated.Flights.{
  Caller, listening, cancelled, Flight, message_on, is_active, sends_on, is_waiting, Move, hits,
  misses, joins, passes, hits_late, joins_late, registers, fetches, unregisters, broadcasts, hears,
  closes, cancels, FlightStep, moves, expires, refreshes, Reach, here, next, idle, all_calling,
}
use september.Federated.Flights.Single.{Reach-Inv, single_flight}

module _ {A : Type 0} where
  -- The request of the channel is pending, but nobody is there to answer it.
  pub record IsAbandoned (c : ℕ) (f : Flight A) (callers : ℕ → Caller A) : Type 0 where
    pub pending : f.pending ≡ some c
    pub inactive : (i d : ℕ) → is_active (callers i) d ≡ false
    pub unsent : (i : ℕ) → sends_on (callers i) c ≡ false
    pub silent : message_on c f.messages ≡ none

  -- A listener goes on listening, or its call is dropped too.
  abbrev pub StillListens : ℕ → Caller A → Type 0
  StillListens c q = (q ≡ listening c) ⊎ (q ≡ cancelled)

module _ {A : Type 0} (to_string : AppError → NntpError) (Gives : Result A AppError → Type 0) where
  unheard :
      (c d : ℕ) (f : Flight A) (m : Result A NntpError)
      → message_on c f.messages ≡ none
      → message_on d f.messages ≡ some m
      → ◌≡◌ {A = Caller A} (listening d) (listening c)
      → ⊥
  unheard c d f m silent h e =
      let same : d ≡ c = cc e in
      let clash : none ≡ some m =
        sym silent ∙ subst (λ k. message_on k f.messages ≡ some m) same h in
      cc clash

  open_channel :
      (c d : ℕ) (f : Flight A)
      → f.pending ≡ some c
      → ◌≡◌ {A = Caller A} (listening d) (listening c)
      → f.pending ≡ some d
  open_channel c d f pending e = let same : d ≡ c = cc e in pending ∙ ap some (sym same)

  Move-IsAbandoned :
      (c : ℕ) (f g : Flight A) (callers : ℕ → Caller A) (p q : Caller A)
      → ((d : ℕ) → is_active p d ≡ false)
      → sends_on p c ≡ false
      → f.pending ≡ some c
      → message_on c f.messages ≡ none
      → Move to_string Gives callers f p g q
      → (g.pending ≡ some c)
        × (message_on c g.messages ≡ none)
        × ((d : ℕ) → is_active q d ≡ false)
        × (sends_on q c ≡ false)
        × (p ≡ listening c → StillListens c q)
  Move-IsAbandoned c f _ callers _ _ inactive unsent pending silent (hits _ a h) =
      (pending, silent, λ d. refl, refl, λ e. absurd (cc))
  Move-IsAbandoned c f _ callers _ _ inactive unsent pending silent (misses _ h) =
      (pending, silent, λ d. refl, refl, λ e. absurd (cc))
  Move-IsAbandoned c f _ callers _ _ inactive unsent pending silent (joins _ d h) =
      (pending, silent, λ d. refl, refl, λ e. absurd (cc))
  Move-IsAbandoned c f _ callers _ _ inactive unsent pending silent (passes _ h) = absurd (cc)
  Move-IsAbandoned c f _ callers _ _ inactive unsent pending silent (hits_late _ a h) =
      (pending, silent, λ d. refl, refl, λ e. absurd (cc))
  Move-IsAbandoned c f _ callers _ _ inactive unsent pending silent (joins_late _ d h k) =
      (pending, silent, λ d. refl, refl, λ e. absurd (cc))
  Move-IsAbandoned c f _ callers _ _ inactive unsent pending silent (registers _ h k) = absurd (cc)
  Move-IsAbandoned c f _ callers _ _ inactive unsent pending silent (fetches _ d r h) =
      absurd (ground (arith, inactive d))
  Move-IsAbandoned c f _ callers _ _ inactive unsent pending silent (unregisters _ d r) =
      absurd (ground (arith, inactive d))
  Move-IsAbandoned c f _ callers _ _ inactive unsent pending silent (broadcasts _ d r) =
      (pending, ground arith, λ d. refl, refl, λ e. absurd (cc))
  Move-IsAbandoned c f _ callers _ _ inactive unsent pending silent (hears _ d m h) =
      (pending, silent, λ d. refl, refl, λ e. absurd (unheard c d f m silent h e))
  Move-IsAbandoned c f _ callers _ _ inactive unsent pending silent (closes _ d h k) =
      (pending, silent, λ d. refl, refl, λ e. absurd (k.1 (open_channel c d f pending e)))
  Move-IsAbandoned c f _ callers p _ inactive unsent pending silent (cancels _ _ h) =
      (pending, silent, λ d. refl, refl, λ e. inr refl)

  Move-cancelled :
      (f g : Flight A) (callers : ℕ → Caller A) (p q : Caller A)
      → Move to_string Gives callers f p g q
      → p ≡ cancelled
      → ⊥
  Move-cancelled f _ callers _ _ (hits _ a h) e = cc e
  Move-cancelled f _ callers _ _ (misses _ h) e = cc e
  Move-cancelled f _ callers _ _ (joins _ d h) e = cc e
  Move-cancelled f _ callers _ _ (passes _ h) e = cc e
  Move-cancelled f _ callers _ _ (hits_late _ a h) e = cc e
  Move-cancelled f _ callers _ _ (joins_late _ d h k) e = cc e
  Move-cancelled f _ callers _ _ (registers _ h k) e = cc e
  Move-cancelled f _ callers _ _ (fetches _ d r h) e = cc e
  Move-cancelled f _ callers _ _ (unregisters _ d r) e = cc e
  Move-cancelled f _ callers _ _ (broadcasts _ d r) e = cc e
  Move-cancelled f _ callers _ _ (hears _ d m h) e = cc e
  Move-cancelled f _ callers _ _ (closes _ d h k) e = cc e
  Move-cancelled f _ callers p _ (cancels _ _ h) e =
      let waits : is_waiting {A = A} cancelled ≡ true = subst (λ r. is_waiting r ≡ true) e h in
      cc waits

  FlightStep-IsAbandoned :
      (c : ℕ) (f g : Flight A) (callers later : ℕ → Caller A)
      → FlightStep to_string Gives f callers g later
      → IsAbandoned c f callers
      → IsAbandoned c g later × ((j : ℕ) → StillListens c (callers j) → StillListens c (later j))
  FlightStep-IsAbandoned c f g callers _ (moves _ _ _ i p q at move) a =
      let (pending, silent, inactive, unsent, listens) =
        Move-IsAbandoned c f g callers p q (λ d. ap (λ r. is_active r d) (sym at) ∙ a.inactive i d)
          (ap (λ r. sends_on r c) (sym at) ∙ a.unsent i) a.pending a.silent move in
      (
        record {
          pending = pending;
          inactive = λ j d.
              update-both callers i q (λ r. is_active r d) j false (inactive d) (a.inactive j d);
          unsent = λ j. update-both callers i q (λ r. sends_on r c) j false unsent (a.unsent j);
          silent = silent;
        },
        λ j still. elim (update-cases callers i q j) [
          | inr e ↦ subst (StillListens c) (sym e.1) still
          | inl e ↦ subst (StillListens c) (sym e.1) (elim still [
            | inl listened ↦
                listens (sym at ∙ subst (λ k. callers k ≡ listening c) (sym e.0) listened)
            | inr gone ↦ absurd (
                Move-cancelled f g callers p q move
                  (sym at ∙ subst (λ k. callers k ≡ cancelled) (sym e.0) gone))
          ])
        ],
      )
  FlightStep-IsAbandoned c f _ callers _ (expires _ _) a = (
    record { pending = a.pending; inactive = a.inactive; unsent = a.unsent; silent = a.silent },
    λ j still. still,
  )
  FlightStep-IsAbandoned c f _ callers _ (refreshes _ _ v h) a = (
    record { pending = a.pending; inactive = a.inactive; unsent = a.unsent; silent = a.silent },
    λ j still. still,
  )

  Reach-IsAbandoned :
      (c : ℕ) (f : Flight A) (callers : ℕ → Caller A) (g : Flight A) (later : ℕ → Caller A)
      → Reach to_string Gives f callers g later
      → IsAbandoned c f callers
      → IsAbandoned c g later × ((j : ℕ) → StillListens c (callers j) → StillListens c (later j))
  Reach-IsAbandoned c f callers _ _ here a = (a, λ j still. still)
  Reach-IsAbandoned c f callers g later (next {g = h} {now = now} before step) a =
      let (abandoned, still) = Reach-IsAbandoned c f callers h now before a in
      let (abandoned_later, still_later) = FlightStep-IsAbandoned c h g now later step abandoned in
      (abandoned_later, λ j l. still_later j (still j l))

  -- When a call that asks the servers, or that holds their result before it is broadcast, is
  -- cancelled, its request stays pending for good: from then on no caller of the key asks the
  -- servers, nothing is ever sent on the channel, and no listener of it is ever answered, whatever
  -- the callers do, and whatever a refresh in the background puts into the cache.
  pub cancelled_blocks :
      (f g : Flight A) (callers later : ℕ → Caller A) (i c : ℕ)
      → Reach to_string Gives idle all_calling f callers
      → is_active (callers i) c ≡ true
      → Reach to_string Gives f (update callers i cancelled) g later
      → IsAbandoned c g later × ((j : ℕ) → callers j ≡ listening c → StillListens c (later j))
  cancelled_blocks f g callers later i c reach active after =
      let inv = Reach-Inv to_string Gives f callers reach in
      let pending = inv.active_pending i c active in
      let (abandoned, still) =
        Reach-IsAbandoned c f (update callers i cancelled) g later after (record {
          pending = pending;
          inactive = λ j d. elim (update-cases callers i cancelled j) [
            | inl e ↦ ap (λ r. is_active r d) e.1
            | inr e ↦ ap (λ r. is_active r d) e.1 ∙ elim (Bool-cases (is_active (callers j) d)) [
              | inl other ↦
                  absurd (e.0 (single_flight to_string Gives f callers i j c d reach active other))
              | inr none_there ↦ none_there
            ]
          ];
          unsent = λ j.
              update-both callers i cancelled (λ r. sends_on r c) j false refl
                (inv.unsent j c pending);
          silent = inv.silent c pending;
        }) in
      (
        abandoned,
        λ j listened. still j (elim (update-cases callers i cancelled j) [
          | inl e ↦ inr e.1
          | inr e ↦ inl (e.1 ∙ listened)
        ]),
      )
