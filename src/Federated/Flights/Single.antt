-- ===== src/Federated/Flights/Single.antt =====
-- At most one caller of get_groups or get_group_stats of src/nntp/federated.rs asks the servers.
use september.Base.{ℕ, ◌≡◌, refl, sym, ◌∙◌, subst, true, some, arith}
use september.Federated.{NntpError, AppError, Result}
use september.Federated.Flights.{
  Caller, Flight, is_active, Move, hits, misses, joins, passes, hits_late, joins_late, registers,
  fetches, unregisters, broadcasts, hears, closes, cancels, FlightStep, moves, expires, refreshes,
  Reach, here, next, idle, all_calling,
}
use september.Federated.Flights.Invariant.{Inv, Kind, keeps, opens, takes_off, sends, Inv-Kind}

module _ {A : Type 0} (to_string : AppError → NntpError) (Gives : Result A AppError → Type 0) where
  pub Move-Kind :
      (callers : ℕ → Caller A) (f g : Flight A) (p q : Caller A)
      → Move to_string Gives callers f p g q
      → Kind f p g q
  Move-Kind callers f _ _ _ (hits _ a h) = keeps refl refl refl (λ c e. cc) (λ c. refl)
  Move-Kind callers f _ _ _ (misses _ h) = keeps refl refl refl (λ c e. cc) (λ c. refl)
  Move-Kind callers f _ _ _ (joins _ c h) = keeps refl refl refl (λ c e. cc) (λ c. refl)
  Move-Kind callers f _ _ _ (passes _ h) = keeps refl refl refl (λ c e. cc) (λ c. refl)
  Move-Kind callers f _ _ _ (hits_late _ a h) = keeps refl refl refl (λ c e. cc) (λ c. refl)
  Move-Kind callers f _ _ _ (joins_late _ c h k) = keeps refl refl refl (λ c e. cc) (λ c. refl)
  Move-Kind callers f _ _ _ (registers _ h k) = opens k refl refl refl refl
  Move-Kind callers f _ _ _ (fetches _ c r h) = keeps refl refl refl (λ d e. e) (λ d. refl)
  Move-Kind callers f _ _ _ (unregisters _ c r) = takes_off c r refl refl refl refl refl
  Move-Kind callers f _ _ _ (broadcasts _ c r) =
      sends c _ (ground arith) refl refl refl (λ d. refl) (λ d. refl)
  Move-Kind callers f _ _ _ (hears _ c m h) = keeps refl refl refl (λ c e. cc) (λ c. refl)
  Move-Kind callers f _ _ _ (closes _ c h k) = keeps refl refl refl (λ c e. cc) (λ c. refl)
  Move-Kind callers f _ p _ (cancels _ _ h) = keeps refl refl refl (λ c e. cc) (λ c. refl)

  FlightStep-Inv :
      (f g : Flight A) (callers later : ℕ → Caller A)
      → FlightStep to_string Gives f callers g later
      → Inv f callers
      → Inv g later
  FlightStep-Inv f g callers _ (moves _ _ _ i p q at move) inv =
      Inv-Kind f g callers i p q at inv (Move-Kind callers f g p q move)
  FlightStep-Inv f _ callers _ (expires _ _) inv = record {
    active_pending = inv.active_pending;
    unique = inv.unique;
    fresh = inv.fresh;
    fresh_sender = inv.fresh_sender;
    fresh_message = inv.fresh_message;
    silent = inv.silent;
    unsent = inv.unsent;
  }
  FlightStep-Inv f _ callers _ (refreshes _ _ a h) inv = record {
    active_pending = inv.active_pending;
    unique = inv.unique;
    fresh = inv.fresh;
    fresh_sender = inv.fresh_sender;
    fresh_message = inv.fresh_message;
    silent = inv.silent;
    unsent = inv.unsent;
  }

  idle-Inv : Inv {A = A} idle all_calling
  idle-Inv = record {
    active_pending = λ i c h. absurd (cc);
    unique = λ i j c h k. absurd (cc);
    fresh = λ c h. absurd (cc);
    fresh_sender = λ i c h. absurd (cc);
    fresh_message = λ c h. refl;
    silent = λ c h. refl;
    unsent = λ i c h. refl;
  }

  pub Reach-Inv :
      (g : Flight A) (later : ℕ → Caller A)
      → Reach to_string Gives idle all_calling g later
      → Inv g later
  Reach-Inv _ _ here = idle-Inv
  Reach-Inv g later (next {g = f} {now = now} before step) =
      FlightStep-Inv f g now later step (Reach-Inv f now before)

  pub single_flight :
      (g : Flight A) (later : ℕ → Caller A) (i j c d : ℕ)
      → Reach to_string Gives idle all_calling g later
      → is_active (later i) c ≡ true
      → is_active (later j) d ≡ true
      → i ≡ j
  single_flight g later i j c d reach h k =
      let inv = Reach-Inv g later reach in
      let same : some c ≡ some d = sym (inv.active_pending i c h) ∙ inv.active_pending j d k in
      let channel : d ≡ c = cc in
      inv.unique i j c h (subst (λ e. is_active (later j) e ≡ true) channel k)
