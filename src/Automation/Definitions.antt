-- ===== src/Automation/Definitions.antt =====
-- automation/persistence/store.py: the definitions of automations, and the runs that fall due. A file
-- system and `get_app_paths` stand behind the operations on paths.
use browser_cli.Prelude.{
  String, ℕ, List, [], ◌∷◌, ◌++◌, Option, none, some, Bool, true, false, not, ◌&&◌, ◌||◌, leb, ◌==◌,
  string_eq, if◌then◌else◌,
}
use browser_cli.Prelude.Sort.{sort}
use browser_cli.Dict.{Dict, lookup, insert, values}
use browser_cli.Automation.Records.{
  DefinitionStatus, valid, invalid, ScheduleKind, AutomationDefinition, scheduled, AutomationRun,
  AutomationStore, StoreError, schedule_error, Answer, answers, raises,
}
use browser_cli.Automation.Records
use browser_cli.Automation.Schedule.{
  ZoneOperations, SchedulePayload, Schedule, manual, interval, daily, weekly, Outcome, ◌>>=◌, gives,
  refuses, ScheduleError, normalize_schedule, compute_next_run_at,
}
use browser_cli.Automation.Rows.{or_default}
use browser_cli.Automation.Creation.{get_automation, create_run, has_pending_run}
pub mod Due
pub mod Added
pub mod Pending
pub mod Kept
pub mod Sample
mod Examples

-- `path.expanduser().resolve()`, `path.expanduser()`, `path.is_absolute()`, `(directory / path).resolve()`,
-- whether a path's text is blank or ".", the directory of an automation's runs, what is wrong with the
-- task's file and its metadata, the payload that is read of JSON and written to it, and whether one name
-- with its id comes before another in the database.
pub record Host (D P : Type 0) : Type 0 where
  pub resolve : P → P
  pub expanduser : P → P
  pub is_absolute : P → Bool
  pub resolve_in : P → P → P
  pub is_blank : P → Bool
  pub runs_dir : String → P
  pub task_error : P → P → Option String
  pub payload_of : D → SchedulePayload
  pub payload_for : Schedule → D
  pub before : String × String → String × String → Bool

abbrev pub kind_text : ScheduleKind → String
kind_text Records.manual = "manual"
kind_text Records.interval = "interval"
kind_text Records.daily = "daily"
kind_text Records.weekly = "weekly"

abbrev pub kind_of : Schedule → ScheduleKind
kind_of manual = Records.manual
kind_of (interval _) = Records.interval
kind_of (daily _ _) = Records.daily
kind_of (weekly _ _ _) = Records.weekly

abbrev pub is_manual : ScheduleKind → Bool
is_manual Records.manual = true
is_manual Records.interval = false
is_manual Records.daily = false
is_manual Records.weekly = false

abbrev pub is_valid : DefinitionStatus → Bool
is_valid valid = true
is_valid invalid = false

module _ {D P Z : Type 0} (host : Host D P) (zones : ZoneOperations Z) where
  abbrev pub normal_dir : AutomationDefinition D P → P
  normal_dir a =
      if host.is_blank a.output_dir then host.runs_dir a.id else host.resolve a.output_dir

  abbrev pub normal_result : P → Option P → Option P
  normal_result output_dir none = none
  normal_result output_dir (some path) =
      let expanded = host.expanduser path in
      some (if host.is_absolute expanded then expanded else host.resolve_in output_dir expanded)

  abbrev pub with_schedule : AutomationDefinition D P → Schedule → AutomationDefinition D P
  with_schedule a schedule =
      let output_dir = normal_dir a in
      record a {
        task_path = host.resolve a.task_path;
        task_meta_path = host.resolve a.task_meta_path;
        output_dir = output_dir;
        result_json_path = normal_result output_dir a.result_json_path;
        schedule_kind = kind_of schedule;
        schedule_payload = host.payload_for schedule;
      }

  abbrev pub judged :
      DefinitionStatus
      → Option String
      → Option ℕ
      → AutomationDefinition D P
      → AutomationDefinition D P
  judged status error next a = record a {
    definition_status = status;
    definition_error = error;
    next_run_at = if a.enabled then next else none;
  }

  -- The answer of `compute_next_run_at`, whose error makes the definition invalid.
  abbrev pub with_next :
      (ScheduleError → String)
      → Outcome (Option ℕ)
      → AutomationDefinition D P
      → AutomationDefinition D P
  with_next show (refuses e) a = judged invalid (some (show e)) none a
  with_next show (gives next) a = judged valid none next a

  -- The `try` of `_normalize_automation`, on the normalized fields.
  abbrev pub checked :
      (ScheduleError → String)
      → ℕ
      → Option String
      → AutomationDefinition D P
      → AutomationDefinition D P
  checked show now (some e) a = judged invalid (some e) none a
  checked show now none a =
      if a.enabled
      then with_next show
          (compute_next_run_at zones now (kind_text a.schedule_kind)
            (host.payload_of a.schedule_payload) a.timezone)
          a
      else judged valid none none a

  unfoldable pub normalize_automation :
      (ScheduleError → String)
      → ℕ
      → String
      → AutomationDefinition D P
      → Outcome (AutomationDefinition D P)
  normalize_automation show now kind a = do
    (_, schedule) ← normalize_schedule zones kind (host.payload_of a.schedule_payload) a.timezone
    let b = with_schedule a schedule
    gives (checked show now (host.task_error b.task_path b.task_meta_path) b)

  -- On a conflict the row keeps `created_at` and `last_run_at`.
  abbrev pub merged :
      Option (AutomationDefinition D P) → AutomationDefinition D P → AutomationDefinition D P
  merged none a = a
  merged (some old) a = record a { created_at = old.created_at; last_run_at = old.last_run_at }

  abbrev pub created_before : Option (AutomationDefinition D P) → Option ℕ
  created_before none = none
  created_before (some old) = old.created_at

  abbrev pub stamped :
      ℕ → Option (AutomationDefinition D P) → AutomationDefinition D P → AutomationDefinition D P
  stamped now old a = record a {
    created_at = some (or_default a.created_at (or_default (created_before old) now));
    updated_at = some now;
  }

  abbrev pub upsert_normalized :
      ℕ
      → Outcome (AutomationDefinition D P)
      → AutomationStore D P
      → Answer (AutomationDefinition D P) × AutomationStore D P
  upsert_normalized now (refuses e) s = (raises (schedule_error e), s)
  upsert_normalized now (gives a) s =
      let old = lookup a.id s.automations in
      let s' = record s {
        automations = insert a.id (merged old (stamped now old a)) s.automations;
      } in
      (get_automation a.id s', s')

  -- `kind` is the text of the definition's `schedule_kind`, which need not be normalized.
  unfoldable pub upsert_automation :
      (ScheduleError → String)
      → ℕ
      → String
      → AutomationDefinition D P
      → AutomationStore D P
      → Answer (AutomationDefinition D P) × AutomationStore D P
  upsert_automation show now kind a s =
      upsert_normalized now (normalize_automation show now kind a) s

  abbrev pub enable :
      (ScheduleError → String)
      → ℕ
      → Bool
      → Answer (AutomationDefinition D P)
      → AutomationStore D P
      → Answer (AutomationDefinition D P) × AutomationStore D P
  enable show now enabled (raises e) s = (raises e, s)
  enable show now enabled (answers a) s =
      upsert_automation show now (kind_text a.schedule_kind) (record a { enabled = enabled }) s

  unfoldable pub set_enabled :
      (ScheduleError → String)
      → ℕ
      → String
      → Bool
      → AutomationStore D P
      → Answer (AutomationDefinition D P) × AutomationStore D P
  set_enabled show now automation_id enabled s =
      enable show now enabled (get_automation automation_id s) s
