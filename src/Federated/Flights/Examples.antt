-- ===== src/Federated/Flights/Examples.antt =====
-- A run of two callers of one key, of which the first is cancelled, and instances of the theorems.
use september.Base.{ℕ, ◌≡◌, refl, none, some, []}
use september.Base.Callers.{update}
use september.Federated.{NntpError, AppError, Result}
use september.Federated.Flights.{
  Caller, calling, missed, registering, fetching, listening, cancelled, Flight, misses, joins,
  passes, registers, moves, Reach, here, next, idle, all_calling,
}
use september.Federated.Flights.Abandoned.{IsAbandoned, StillListens, cancelled_blocks}

abbrev to_string : AppError → NntpError
to_string e = []

abbrev AnyResult : Result ℕ AppError → Type 0
AnyResult r = Unit

abbrev registered : Flight ℕ
registered = record { cached = none; pending = some 0; next_channel = 1; messages = [] }

-- The first caller has registered its request, and the second listens.
abbrev callers : ℕ → Caller ℕ
callers =
    update
      (update (update (update (update all_calling 0 missed) 0 registering) 0 (fetching 0)) 1 missed)
      1 (listening 0)

run : Reach to_string AnyResult idle all_calling registered callers
run =
    next
      (next
        (next
          (next (next here (moves idle idle _ 0 calling missed refl (misses idle refl)))
            (moves idle idle _ 0 missed registering refl (passes idle refl)))
          (moves idle registered _ 0 registering (fetching 0) refl (registers idle refl refl)))
        (moves registered registered _ 1 calling missed refl (misses registered refl)))
      (moves registered registered _ 1 missed (listening 0) refl (joins registered 0 refl))

cancelled_blocks_example :
    IsAbandoned 0 registered (update callers 0 cancelled)
    × ((j : ℕ) → callers j ≡ listening 0 → StillListens 0 (update callers 0 cancelled j))
cancelled_blocks_example =
    cancelled_blocks to_string AnyResult registered registered callers (update callers 0 cancelled)
      0 0 run refl here
