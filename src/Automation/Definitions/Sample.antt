-- ===== src/Automation/Definitions/Sample.antt =====
-- A host and zones for the tests of the automations.
use browser_cli.Prelude.{ℕ, pos, Option, none, some, true, false, String}
use browser_cli.Automation.Schedule.{ZoneOperations, ScheduleError}
use browser_cli.Automation.Definitions.{Host}

abbrev pub zones : ZoneOperations ℕ
zones = record {
  find_zone = λ name. some 0;
  to_local = λ _ utc. utc;
  to_utc = λ _ local. local;
  strip_lower = λ t. t;
}

-- Paths are numbers, and JSON values the seconds of an interval.
abbrev pub host : Option String → Host ℕ ℕ
host missing = record {
  resolve = λ p. p;
  expanduser = λ p. p;
  is_absolute = λ p. true;
  resolve_in = λ d p. p;
  is_blank = λ p. false;
  runs_dir = λ id. 0;
  task_error = λ task meta. missing;
  payload_of = λ seconds. record {
    interval_seconds = some (pos seconds);
    hour = none;
    minute = none;
    weekday = none;
  };
  payload_for = λ schedule. 60;
  before = λ x y. true;
}

abbrev pub shown : ScheduleError → String
shown e = "schedule"
