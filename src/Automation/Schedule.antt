-- ===== src/Automation/Schedule.antt =====
-- automation/scheduler/schedule.py: schedules and their next run. A moment is its microseconds since
-- the start of day 0 of Python's ordinals; `replace`, the sums and the comparisons of `datetime`s of
-- one zone go by the wall clock. A zone is what `ZoneInfo` finds, with its two conversions.
use browser_cli.Prelude.{
  ℤ, pos, negsuc, String, ℕ, ◌+◌, ◌-◌, ◌*◌, ◌/◌, ◌%◌, List, [], ◌∷◌, Option, none, some, Bool, true,
  false, ◌&&◌, ◌||◌, leb, ltb, ◌==◌, string_eq, if◌then◌else◌,
}
pub mod NextRun
pub mod Accepted
mod Examples

-- `ZoneInfo(name)`, which may raise, `astimezone` to it and back, `str.strip().lower()`
pub record ZoneOperations (Z : Type 0) : Type 0 where
  pub find_zone : String → Option Z
  pub to_local : Z → ℕ → ℕ
  pub to_utc : Z → ℕ → ℕ
  pub strip_lower : String → String

pub record SchedulePayload : Type 0 where
  pub interval_seconds : Option ℤ
  pub hour : Option ℤ
  pub minute : Option ℤ
  pub weekday : Option String

-- What `normalize_schedule` answers: the kind with its payload.
pub data Schedule : Type 0 where
  manual : Schedule
  interval : ℕ → Schedule
  daily : ℕ → ℕ → Schedule
  weekly : ℕ → ℕ → ℕ → Schedule

pub data ScheduleError : Type 0 where
  invalid_timezone unsupported_mode : String → ScheduleError
  invalid_interval invalid_weekday invalid_hour invalid_minute : ScheduleError

pub data Outcome (A : Type 0) : Type 0 where
  gives : A → Outcome A
  refuses : ScheduleError → Outcome A

infixl 5 ◌>>=◌
abbrev pub ◌>>=◌ : {A B : Type 0} → Outcome A → (A → Outcome B) → Outcome B
gives a >>= f = f a
refuses e >>= f = refuses e

abbrev pub or_text : Option String → String
or_text none = ""
or_text (some x) = x

-- `WEEKDAY_NAMES`
abbrev pub weekday_number : String → Option ℕ
weekday_number x =
    if x == "monday"
    then some 0
    else if x == "tuesday"
    then some 1
    else if x == "wednesday"
    then some 2
    else if x == "thursday"
    then some 3
    else if x == "friday"
    then some 4
    else if x == "saturday"
    then some 5
    else if x == "sunday"
    then some 6
    else none

-- `_validate_hour_minute`: a number of the range, or the error; a missing one counts as -1
abbrev pub in_range : ℕ → ScheduleError → Option ℤ → Outcome ℕ
in_range last e none = refuses e
in_range last e (some (negsuc _)) = refuses e
in_range last e (some (pos n)) = if leb n last then gives n else refuses e

abbrev pub positive : Option ℤ → Outcome ℕ
positive none = refuses invalid_interval
positive (some (negsuc _)) = refuses invalid_interval
positive (some (pos n)) = if ltb 0 n then gives n else refuses invalid_interval

abbrev pub known_weekday : Option ℕ → Outcome ℕ
known_weekday none = refuses invalid_weekday
known_weekday (some n) = gives n

-- `2026-01-05` has ordinal 739621 and is a Monday: `weekday()` is `(ordinal + 6) % 7`
abbrev pub a_day : ℕ
a_day = 86400000000

unfoldable pub weekday_of : ℕ → ℕ
weekday_of local = (local / a_day + 6) % 7

-- `local.replace(hour=hour, minute=minute, second=0, microsecond=0)`
unfoldable pub at_time : ℕ → ℕ → ℕ → ℕ
at_time local hour minute = local / a_day * a_day + (hour * 60 + minute) * 60000000

unfoldable pub next_daily : ℕ → ℕ → ℕ → ℕ
next_daily local hour minute =
    let candidate = at_time local hour minute in
    if leb candidate local then candidate + a_day else candidate

unfoldable pub next_weekly : ℕ → ℕ → ℕ → ℕ → ℕ
next_weekly local weekday hour minute =
    let candidate = at_time local hour minute + (weekday + 7 - weekday_of local) % 7 * a_day in
    if leb candidate local then candidate + 7 * a_day else candidate

module _ {Z : Type 0} (o : ZoneOperations Z) where
  abbrev pub of_kind : String → SchedulePayload → Outcome Schedule
  of_kind kind p =
      if kind == "manual" || kind == ""
      then gives manual
      else if kind == "interval"
      then (do n ← positive p.interval_seconds; gives (interval n))
      else if kind == "daily"
      then (do
        hour ← in_range 23 invalid_hour p.hour
        minute ← in_range 59 invalid_minute p.minute
        gives (daily hour minute))
      else if kind == "weekly"
      then (do
        weekday ← known_weekday (weekday_number (o.strip_lower (or_text p.weekday)))
        hour ← in_range 23 invalid_hour p.hour
        minute ← in_range 59 invalid_minute p.minute
        gives (weekly weekday hour minute))
      else refuses (unsupported_mode kind)

  abbrev pub find : String → Option Z → Outcome Z
  find timezone_name none = refuses (invalid_timezone timezone_name)
  find timezone_name (some z) = gives z

  unfoldable pub normalize_schedule : String → SchedulePayload → String → Outcome (Z × Schedule)
  normalize_schedule kind p timezone_name = do
    z ← find timezone_name (o.find_zone timezone_name)
    s ← of_kind (o.strip_lower (if kind == "" then "manual" else kind)) p
    gives (z, s)

  -- The next run in UTC after `now`.
  abbrev pub next_run : ℕ → Z → Schedule → Option ℕ
  next_run now z manual = none
  next_run now z (interval seconds) = some (now + seconds * 1000000)
  next_run now z (daily hour minute) = some (o.to_utc z (next_daily (o.to_local z now) hour minute))
  next_run now z (weekly weekday hour minute) =
      some (o.to_utc z (next_weekly (o.to_local z now) weekday hour minute))

  unfoldable pub compute_next_run_at : ℕ → String → SchedulePayload → String → Outcome (Option ℕ)
  compute_next_run_at now kind p timezone_name = do
    (z, s) ← normalize_schedule kind p timezone_name
    gives (next_run now z s)
