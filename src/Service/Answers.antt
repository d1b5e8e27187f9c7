-- ===== src/Service/Answers.antt =====
-- What the callers that share a request of src/nntp/service.rs are told.
use september.Base.{ℕ, ◌≡◌, inl, inr, ◌∙◌, ap, true, none, some, String, arith, ◌==◌, Bool-cases}
use september.Federated.{NntpError, Result}
use september.Service.Coalescing.{
  Phase, Shared, Service, Step, Reach, enters, sends, fails, replies, unregisters, broadcasts,
  receives, gives_up, closes, done, cancelled, cancels, owns, message_on, enter, join_or_register,
  register, unregister, send, new,
}
use september.Service.Kept.{Reach-Inv}

module _ {A : Type 0} where
  -- The messages grow by what a caller sends on its own channel, which is silent until then.
  message-enter :
      (request_timeout : ℕ) (key : String) (now : ℕ) (s : Shared A)
      → (enter request_timeout key now s).1.messages ≡ s.messages
  unfolding enter join_or_register register
  message-enter request_timeout key now s = ground arith

  message-send :
      (channel c : ℕ) (result r : Result A NntpError) (s : Shared A)
      → message_on c s.messages ≡ none
      → message_on channel s.messages ≡ some r
      → message_on channel (send c result s).messages ≡ some r
  unfolding send
  message-send channel c result r s silent h = elim (Bool-cases (c == channel)) [
    | inl same ↦ absurd (ground (arith, same))
    | inr other ↦ ground (arith, other)
  ]

  -- When no worker queue closes, what was sent on a channel stays the only message on it: whatever
  -- step a caller makes after any steps of a new service, a receiver that reads the channel later
  -- gets the same answer.
  pub message_kept :
      {request_timeout : ℕ} {s u : Service A} (channel : ℕ) (result : Result A NntpError)
      → Reach request_timeout true new s
      → Step request_timeout true s u
      → message_on channel s.shared.messages ≡ some result
      → message_on channel u.shared.messages ≡ some result
  unfolding unregister
  message_kept {request_timeout} channel result r (enters s i key now e) h =
      ap (message_on channel) (message-enter request_timeout key now s.shared) ∙ h
  message_kept channel result r (sends s i key c now e) h = h
  message_kept channel result r (fails s i key c e closed) h = h
  message_kept channel result r (replies s i key c since now reply e late) h = h
  message_kept channel result r (unregisters s i key c other e) h = h
  message_kept channel result r (broadcasts s i c other e) h =
      message-send channel c other result s.shared ((Reach-Inv r).silent i c (rw e (ground arith)))
        h
  message_kept channel result r (receives s i c since other e m) h = h
  message_kept channel result r (gives_up s i c since now e late) h = h
  message_kept channel result r (closes s i c since e m none_left) h = h
  message_kept channel result r (cancels s i p e at_wait) h = h

  -- The call that was to send on the channel was dropped.
  abbrev pub IsAbandoned : Service A → ℕ → Type 0
  IsAbandoned s channel =
      (i : ℕ) × (p : Phase A) × (s.callers i ≡ cancelled p) × (owns p channel ≡ true)

  -- By further steps the caller j gets an answer, the one on the channel.
  pub record CanHear (request_timeout : ℕ) (s : Service A) (j channel : ℕ) : Type 0 where
    pub later : Service A
    pub answer : Result A NntpError
    pub steps : Reach request_timeout true s later
    pub told : later.callers j ≡ done answer
    pub sent : message_on channel later.shared.messages ≡ some answer
