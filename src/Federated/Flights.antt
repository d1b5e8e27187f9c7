-- ===== src/Federated/Flights.antt =====
-- get_groups and get_group_stats of src/nntp/federated.rs: callers that
-- miss the cache share one fetch. The model is about the callers of one key: the list of groups, or
-- one group. What a caller does between two waits is one move. A caller may be cancelled while it
-- waits, as the web server does with a handler whose client has gone.
pub mod Invariant
pub mod Single
pub mod Abandoned
mod Examples
use september.Base.{
  ℕ, suc, ◌≡◌, Bool, true, false, Option, none, some, List, [], ◌∷◌, ◌==◌, if◌then◌else◌,
}
use september.Base.Callers.{update}
use september.Base.Text.{codes}
use september.Federated.{NntpError, AppError, internal, Result, ok, err}

-- Where a caller stands. A channel is the number of a broadcast channel.
pub data Caller (A : Type 0) : Type 0 where
  calling : Caller A
  -- It has found nothing in the cache.
  missed : Caller A
  -- It has found no pending request, and waits for the lock to register its own.
  registering : Caller A
  fetching : ℕ → Caller A
  -- It has the result, and waits for the lock to take its request off.
  fetched : ℕ → Result A AppError → Caller A
  -- It has taken the request off, and is about to broadcast.
  sending : ℕ → Result A AppError → Caller A
  -- It waits on the channel of another caller.
  listening : ℕ → Caller A
  answered : Result A AppError → Caller A
  cancelled : Caller A

-- The cached value, the pending request, the number of channels that were made, and what was sent
-- on them, an error as its text.
pub record Flight (A : Type 0) : Type 0 where
  pub cached : Option A
  pub pending : Option ℕ
  pub next_channel : ℕ
  pub messages : List (ℕ × Result A NntpError)

module _ {A : Type 0} where
  abbrev pub message_on : ℕ → List (ℕ × Result A NntpError) → Option (Result A NntpError)
  message_on channel [] = none
  message_on channel ((c, m) ∷ messages) =
      if c == channel then some m else message_on channel messages

  -- What a listener makes of a message.
  abbrev pub heard : Result A NntpError → Result A AppError
  heard (ok a) = ok a
  heard (err text) = err (internal text)

  -- The cache after a fetch.
  abbrev pub keep_result : Result A AppError → Option A → Option A
  keep_result (ok a) cached = some a
  keep_result (err e) cached = cached

  -- The caller's request is pending.
  abbrev pub is_active : Caller A → ℕ → Bool
  is_active (fetching c) channel = c == channel
  is_active (fetched c r) channel = c == channel
  is_active _ channel = false

  abbrev pub sends_on : Caller A → ℕ → Bool
  sends_on (sending c r) channel = c == channel
  sends_on _ channel = false

  -- The places where a call waits, and may be dropped.
  abbrev pub is_waiting : Caller A → Bool
  is_waiting (sending c r) = false
  is_waiting (answered r) = false
  is_waiting cancelled = false
  is_waiting _ = true

  -- No caller can send on the channel any more, and it is not in the table.
  abbrev pub IsClosed : Flight A → (ℕ → Caller A) → ℕ → Type 0
  IsClosed f callers channel =
      ((i : ℕ) → (is_active (callers i) channel ≡ false) × (sends_on (callers i) channel ≡ false))
      × ¬ (f.pending ≡ some channel)

module _ {A : Type 0} (to_string : AppError → NntpError) where
  abbrev pub message_of : Result A AppError → Result A NntpError
  message_of (ok a) = ok a
  message_of (err e) = err (to_string e)

  -- One move of one caller among all callers. The servers can give the results that Gives allows.
  pub data Move (Gives : Result A AppError → Type 0) (callers : ℕ → Caller A)
      : Flight A → Caller A → Flight A → Caller A → Type 0 where
    hits :
        (f : Flight A) (a : A)
        → f.cached ≡ some a
        → Move Gives callers f calling f (answered (ok a))
    misses : (f : Flight A) → f.cached ≡ none → Move Gives callers f calling f missed
    joins :
        (f : Flight A) (c : ℕ) → f.pending ≡ some c → Move Gives callers f missed f (listening c)
    passes : (f : Flight A) → f.pending ≡ none → Move Gives callers f missed f registering
    hits_late :
        (f : Flight A) (a : A)
        → f.cached ≡ some a
        → Move Gives callers f registering f (answered (ok a))
    joins_late :
        (f : Flight A) (c : ℕ)
        → f.cached ≡ none
        → f.pending ≡ some c
        → Move Gives callers f registering f (listening c)
    registers :
        (f : Flight A)
        → f.cached ≡ none
        → f.pending ≡ none
        → Move Gives callers f registering
            (record f { pending = some f.next_channel; next_channel = suc f.next_channel })
            (fetching f.next_channel)
    fetches :
        (f : Flight A) (c : ℕ) (r : Result A AppError)
        → Gives r
        → Move Gives callers f
            (fetching c)
            (record f { cached = keep_result r f.cached })
            (fetched c r)
    unregisters :
        (f : Flight A) (c : ℕ) (r : Result A AppError)
        → Move Gives callers f (fetched c r) (record f { pending = none }) (sending c r)
    broadcasts :
        (f : Flight A) (c : ℕ) (r : Result A AppError)
        → Move Gives callers f
            (sending c r)
            (record f { messages = (c, message_of r) ∷ f.messages })
            (answered r)
    hears :
        (f : Flight A) (c : ℕ) (m : Result A NntpError)
        → message_on c f.messages ≡ some m
        → Move Gives callers f (listening c) f (answered (heard m))
    closes :
        (f : Flight A) (c : ℕ)
        → message_on c f.messages ≡ none
        → IsClosed f callers c
        → Move Gives callers f
            (listening c)
            f
            (answered (err (internal (codes "Broadcast channel closed"))))
    cancels :
        (f : Flight A) (p : Caller A) → is_waiting p ≡ true → Move Gives callers f p f cancelled

  -- The callers' moves, a value that expires, and a refresh in the background.
  pub data FlightStep (Gives : Result A AppError → Type 0)
      : Flight A → (ℕ → Caller A) → Flight A → (ℕ → Caller A) → Type 0 where
    moves :
        (f g : Flight A) (callers : ℕ → Caller A) (i : ℕ) (p q : Caller A)
        → callers i ≡ p
        → Move Gives callers f p g q
        → FlightStep Gives f callers g (update callers i q)
    expires :
        (f : Flight A) (callers : ℕ → Caller A)
        → FlightStep Gives f callers (record f { cached = none }) callers
    refreshes :
        (f : Flight A) (callers : ℕ → Caller A) (a : A)
        → Gives (ok a)
        → FlightStep Gives f callers (record f { cached = some a }) callers

  pub data Reach (Gives : Result A AppError → Type 0) (f : Flight A) (callers : ℕ → Caller A)
      : Flight A → (ℕ → Caller A) → Type 0 where
    here : Reach Gives f callers f callers
    next :
        {g h : Flight A} {now later : ℕ → Caller A}
        → Reach Gives f callers g now
        → FlightStep Gives g now h later
        → Reach Gives f callers h later

abbrev pub idle : {A : Type 0} → Flight A
idle = record { cached = none; pending = none; next_channel = 0; messages = [] }

abbrev pub all_calling : {A : Type 0} → ℕ → Caller A
all_calling i = calling
