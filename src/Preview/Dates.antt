-- ===== src/Preview/Dates.antt =====
-- compute_timeago of src/nntp/mod.rs. What chrono does is a parameter: the signed seconds from the
-- date that it reads in a text to the present, `none` when it reads none.
use september.Base.{
  ℕ, ◌+◌, ◌*◌, ◌/◌, ◌≤◌, ◌<◌, ◌≡◌, ◌⊎◌, inl, inr, refl, false, Option, none, some, ◌++◌, arith, ltb,
  ◌==◌, if◌then◌else◌, Bool-cases,
}
use september.Base.Text.{Text, codes, decimal}

-- The library's ℤ over the native numbers.
pub data ℤ : Type 0 where
  pos : ℕ → ℤ
  negsuc : ℕ → ℤ

pub data TimeUnit : Type 0 where
  minute : TimeUnit
  hour : TimeUnit
  day : TimeUnit
  month : TimeUnit
  year : TimeUnit

-- SECONDS_PER_MINUTE, SECONDS_PER_HOUR, SECONDS_PER_DAY, SECONDS_PER_MONTH, SECONDS_PER_YEAR
abbrev pub seconds_per : TimeUnit → ℕ
seconds_per minute = 60
seconds_per hour = 3600
seconds_per day = 86400
seconds_per month = 2592000
seconds_per year = 31536000

abbrev pub unit_name : TimeUnit → Text
unit_name minute = codes "minute"
unit_name hour = codes "hour"
unit_name day = codes "day"
unit_name month = codes "month"
unit_name year = codes "year"

-- "1 minute ago", "2 minutes ago"
unfoldable pub ago : TimeUnit → ℕ → Text
ago unit seconds =
    let n = seconds / seconds_per unit in
    if n == 1
    then codes "1 " ++ unit_name unit ++ codes " ago"
    else decimal n ++ codes " " ++ unit_name unit ++ codes "s ago"

unfoldable pub seconds_ago : ℕ → Text
seconds_ago seconds =
    if ltb seconds (seconds_per minute)
    then codes "just now"
    else if ltb seconds (seconds_per hour)
    then ago minute seconds
    else if ltb seconds (seconds_per day)
    then ago hour seconds
    else if ltb seconds (seconds_per month)
    then ago day seconds
    else if ltb seconds (seconds_per year)
    then ago month seconds
    else ago year seconds

unfoldable pub elapsed_text : Text → Option ℤ → Text
elapsed_text date_str none = date_str
elapsed_text date_str (some (negsuc n)) = codes "in the future"
elapsed_text date_str (some (pos seconds)) = seconds_ago seconds

unfoldable pub compute_timeago : (Text → Option ℤ) → Text → Text
unfolding elapsed_text
compute_timeago elapsed date_str = elapsed_text date_str (elapsed date_str)

-- The unit is the largest that fits in the time, and the count is how often it fits.
pub record InUnits (seconds : ℕ) (text : Text) : Type 0 where
  pub unit : TimeUnit
  pub count : ℕ
  pub reads : text ≡ (
      if count == 1
      then codes "1 " ++ unit_name unit ++ codes " ago"
      else decimal count ++ codes " " ++ unit_name unit ++ codes "s ago")
  pub positive : 1 ≤ count
  pub fits : count * seconds_per unit ≤ seconds
  pub rounded : seconds < (count + 1) * seconds_per unit
  pub largest :
      (other : TimeUnit) → seconds_per other ≤ seconds → seconds_per other ≤ seconds_per unit

ago-InUnits :
    (unit : TimeUnit) (seconds : ℕ)
    → seconds_per unit ≤ seconds
    → ((other : TimeUnit) → seconds_per other ≤ seconds → seconds_per other ≤ seconds_per unit)
    → InUnits seconds (ago unit seconds)
unfolding ago
ago-InUnits unit seconds h largest = record {
  unit = unit;
  count = seconds / seconds_per unit;
  reads = refl;
  positive = at_least unit seconds h;
  fits = (division unit seconds).0;
  rounded = (division unit seconds).1;
  largest = largest;
}
  where
    division :
        (unit : TimeUnit) (seconds : ℕ)
        → (seconds / seconds_per unit * seconds_per unit ≤ seconds)
          × (seconds < (seconds / seconds_per unit + 1) * seconds_per unit)
    division minute seconds = (omega arith, omega arith)
    division hour seconds = (omega arith, omega arith)
    division day seconds = (omega arith, omega arith)
    division month seconds = (omega arith, omega arith)
    division year seconds = (omega arith, omega arith)

    at_least :
        (unit : TimeUnit) (seconds : ℕ)
        → seconds_per unit ≤ seconds
        → 1 ≤ seconds / seconds_per unit
    at_least minute seconds h = omega arith
    at_least hour seconds h = omega arith
    at_least day seconds h = omega arith
    at_least month seconds h = omega arith
    at_least year seconds h = omega arith

seconds_per-cases :
    (unit : TimeUnit)
    → (seconds_per unit ≡ 60)
      ⊎ (seconds_per unit ≡ 3600)
      ⊎ (seconds_per unit ≡ 86400)
      ⊎ (seconds_per unit ≡ 2592000)
      ⊎ (seconds_per unit ≡ 31536000)
seconds_per-cases minute = inl refl
seconds_per-cases hour = inr (inl refl)
seconds_per-cases day = inr (inr (inl refl))
seconds_per-cases month = inr (inr (inr (inl refl)))
seconds_per-cases year = inr (inr (inr (inr refl)))

seconds_ago-InUnits : (seconds : ℕ) → 60 ≤ seconds → InUnits seconds (seconds_ago seconds)
unfolding seconds_ago
seconds_ago-InUnits seconds h =
    let over_minute : ltb seconds 60 ≡ false = ground arith in
    elim (Bool-cases (ltb seconds 3600)) [
      | inl below ↦
          rw (over_minute, below)
            (ago-InUnits minute seconds h (λ u g. ground (arith, below, g, seconds_per-cases u)))
      | inr over_hour ↦ elim (Bool-cases (ltb seconds 86400)) [
        | inl below ↦
            rw (over_minute, over_hour, below)
              (ago-InUnits hour seconds (ground (arith, over_hour))
                (λ u g. ground (arith, below, g, seconds_per-cases u)))
        | inr over_day ↦ elim (Bool-cases (ltb seconds 2592000)) [
          | inl below ↦
              rw (over_minute, over_hour, over_day, below)
                (ago-InUnits day seconds (ground (arith, over_day))
                  (λ u g. ground (arith, below, g, seconds_per-cases u)))
          | inr over_month ↦ elim (Bool-cases (ltb seconds 31536000)) [
            | inl below ↦
                rw (over_minute, over_hour, over_day, over_month, below)
                  (ago-InUnits month seconds (ground (arith, over_month))
                    (λ u g. ground (arith, below, g, seconds_per-cases u)))
            | inr over_year ↦
                rw (over_minute, over_hour, over_day, over_month, over_year)
                  (ago-InUnits year seconds (ground (arith, over_year))
                    (λ u g. ground (arith, seconds_per-cases u)))
          ]
        ]
      ]
    ]

-- For a date at least a minute in the past, compute_timeago gives the time in the largest unit that
-- fits in it, rounded down to a positive number of them, and in the singular for one.
pub compute_timeago-InUnits :
    (elapsed : Text → Option ℤ) (date_str : Text) (seconds : ℕ)
    → elapsed date_str ≡ some (pos seconds)
    → 60 ≤ seconds
    → InUnits seconds (compute_timeago elapsed date_str)
unfolding compute_timeago elapsed_text
compute_timeago-InUnits elapsed date_str seconds past h = rw past (seconds_ago-InUnits seconds h)
