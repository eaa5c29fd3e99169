-- ===== src/Automation/Schedule/Examples.antt =====
-- The next runs from noon of a Monday, 2026-01-05.
use browser_cli.Prelude.{
  pos, some, none, ◌==◌, string_eq, if◌then◌else◌, ℕ, ◌+◌, ◌*◌, ◌≡◌, refl, arith,
}
use browser_cli.Automation.Schedule.Accepted.{IsInRange, normalize_schedule-IsInRange}
use browser_cli.Automation.Schedule.{
  ZoneOperations, SchedulePayload, weekly, gives, normalize_schedule, a_day, next_daily,
  next_weekly, weekday_of, at_time,
}
use browser_cli.Automation.Schedule.NextRun.{IsNext, next_daily-IsNext, next_weekly-IsNext}

abbrev noon : ℕ
noon = 739621 * a_day + 43200000000

tomorrow_morning : IsNext a_day noon 9 30 (next_daily noon 9 30)
tomorrow_morning = next_daily-IsNext noon 9 30 (omega arith) (omega arith)

next_weekly-IsNext_example :
    IsNext (7 * a_day) noon 9 30 (next_weekly noon 0 9 30)
    × (weekday_of (next_weekly noon 0 9 30) ≡ 0)
next_weekly-IsNext_example =
    next_weekly-IsNext noon 0 9 30 (omega arith) (omega arith) (omega arith)

-- Half past nine on Monday is over, so the weekly run is seven days later.
test_weekly : next_weekly noon 0 9 30 ≡ 739628 * a_day + 34200000000
unfolding next_weekly at_time weekday_of
test_weekly = refl

-- One zone, named "UTC", and texts that need no stripping.
abbrev only_utc : ZoneOperations ℕ
only_utc = record {
  find_zone = λ name. if name == "UTC" then some 0 else none;
  to_local = λ _ moment. moment;
  to_utc = λ _ local. local;
  strip_lower = λ x. x;
}

abbrev mondays : SchedulePayload
mondays = record {
  interval_seconds = none;
  hour = some (pos 9);
  minute = some (pos 30);
  weekday = some "monday";
}

mondays_accepted : normalize_schedule only_utc "weekly" mondays "UTC" ≡ gives (0, weekly 0 9 30)
unfolding normalize_schedule string_eq
mondays_accepted = refl

normalize_schedule-IsInRange_example :
    (only_utc.find_zone "UTC" ≡ some 0) × IsInRange (weekly 0 9 30)
normalize_schedule-IsInRange_example =
    normalize_schedule-IsInRange only_utc "weekly" mondays "UTC" 0 (weekly 0 9 30) mondays_accepted
