-- ===== src/Federated/Marks.antt =====
-- The marks that the service keeps per group: the debounced checks and the high water marks.
use september.Base.{
  ℕ, ◌+◌, ◌-◌, ◌≤◌, max, ◌≡◌, ◌≢◌, sym, subst, Bool, true, false, ◌&&◌, Bool-cases, ◌⊎◌, Option,
  none, some, List, [], ◌∷◌, String, str_eq, eq_iff, str_eq_refl, Map, lookup, insert,
  lookup-insert, arith, ltb, if◌then◌else◌, inl, inr,
}

-- INCREMENTAL_DEBOUNCE_MS; instants are milliseconds of a monotonic clock.
abbrev pub incremental_debounce_ms : ℕ
incremental_debounce_ms = 1000

within_debounce : Option ℕ → ℕ → Bool
within_debounce none now = false
within_debounce (some last) now = ltb (now - last) incremental_debounce_ms

unfoldable pub should_check_incremental : Map ℕ → String → ℕ → Map ℕ × Bool
unfolding within_debounce
should_check_incremental last_check group now =
    if within_debounce (lookup group last_check) now
    then (last_check, false)
    else (insert group now last_check, true)

unfoldable pub should_refresh_groups : Option ℕ → ℕ → Option ℕ × Bool
unfolding within_debounce
should_refresh_groups last_refresh now =
    if within_debounce last_refresh now then (last_refresh, false) else (some now, true)

or_zero : Option ℕ → ℕ
or_zero none = 0
or_zero (some n) = n

unfoldable pub get_group_hwm : Map ℕ → String → ℕ
unfolding or_zero
get_group_hwm group_hwm group = or_zero (lookup group group_hwm)

unfoldable pub update_group_hwm : Map ℕ → String → ℕ → Map ℕ
update_group_hwm group_hwm group new_hwm =
    let current = get_group_hwm group_hwm group in
    if ltb current new_hwm then insert group new_hwm group_hwm else group_hwm

-- Updating a high water mark raises it to the maximum of the old and the new one, and leaves those
-- of the other groups alone.
pub get_group_hwm-update :
    (m : Map ℕ) (group other : String) (n : ℕ)
    → (get_group_hwm (update_group_hwm m group n) group ≡ max (get_group_hwm m group) n)
      × (group ≢ other → get_group_hwm (update_group_hwm m group n) other ≡ get_group_hwm m other)
unfolding get_group_hwm update_group_hwm
get_group_hwm-update m group other n = (
  ground (arith, lookup-insert group group n m, str_eq_refl group),
  λ differ. ground (arith, lookup-insert group other n m, eq_iff group other),
)

-- The times at which a check of `group` is let through, in a sequence of checks of all groups.
unfoldable pub passed_checks : Map ℕ → String → List (String × ℕ) → List ℕ
passed_checks last_check group [] = []
passed_checks last_check group ((asked, now) ∷ later) =
    let (last_check', pass) = should_check_incremental last_check asked now in
    let rest = passed_checks last_check' group later in
    if pass && str_eq asked group then now ∷ rest else rest

-- Each time is at least a debounce period behind the one before it, the first behind `last`.
abbrev pub Spaced : ℕ → List ℕ → Type 0
Spaced last [] = Unit
Spaced last (now ∷ later) = (last + incremental_debounce_ms ≤ now) × Spaced now later

abbrev pub Ascending : ℕ → List (String × ℕ) → Type 0
Ascending from [] = Unit
Ascending from ((asked, now) ∷ later) = (from ≤ now) × Ascending now later

-- A check that passes is a period behind the last one; any other check leaves the mark alone.
check_step :
    (m : Map ℕ) (group asked : String) (now last : ℕ)
    → lookup group m ≡ some last
    → last ≤ now
    → ((((should_check_incremental m asked now).1 && str_eq asked group) ≡ true)
        × (last + incremental_debounce_ms ≤ now)
        × (lookup group (should_check_incremental m asked now).0 ≡ some now))
      ⊎ ((((should_check_incremental m asked now).1 && str_eq asked group) ≡ false)
          × (lookup group (should_check_incremental m asked now).0 ≡ some last))
unfolding should_check_incremental
check_step m group asked now last held le = elim (Bool-cases (str_eq asked group)) [
  | inl same ↦
      let key : asked ≡ group = (eq_iff asked group).0 same in
      let held' : lookup asked m ≡ some last = subst (λ k. lookup k m ≡ some last) (sym key) held in
      elim (Bool-cases (ltb (now - last) incremental_debounce_ms)) [
        | inl soon ↦ inr (ground (arith, held', soon), ground (arith, held', held, soon))
        | inr late ↦ inl (
          ground (arith, held', late, same),
          ground arith,
          ground (arith, held', late, same, lookup-insert asked group now m),
        )
      ]
  | inr differ ↦
      inr (ground (arith, differ), ground (arith, held, differ, lookup-insert asked group now m))
]

-- Checks of one group are let through at most once in a debounce period, whatever other groups are
-- checked in between: with a last check at `last`, and the clock not running backwards, the passed
-- ones are spaced by a period each.
pub passed_checks-Spaced :
    (m : Map ℕ) (group : String) (last from : ℕ) (events : List (String × ℕ))
    → lookup group m ≡ some last
    → last ≤ from
    → Ascending from events
    → Spaced last (passed_checks m group events)
unfolding passed_checks
passed_checks-Spaced m group last from [] held le asc = tt
passed_checks-Spaced m group last from ((asked, now) ∷ later) held le asc =
    elim (check_step m group asked now last held (omega arith)) [
      | inl (pass, spaced, held') ↦ rw pass (
        spaced,
        passed_checks-Spaced ((should_check_incremental m asked now).0) group now now later held'
            (omega arith) asc.1,
      )
      | inr (stop, held') ↦ rw stop (
          passed_checks-Spaced ((should_check_incremental m asked now).0) group last now later held'
            (omega arith) asc.1)
    ]
