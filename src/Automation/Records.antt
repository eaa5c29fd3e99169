-- ===== src/Automation/Records.antt =====
-- The data of automation/models.py that the store keeps, and the store of
-- automation/persistence/store.py: three tables, each in the order of its row ids.
-- `D` stands for JSON values and `P` for paths. A time is its moment: all of the store's texts are in
-- UTC and are compared as texts, which is the order of the moments.
use browser_cli.Prelude.{String, ℕ, List, Option, Bool}
use browser_cli.Dict.{Dict}
use browser_cli.Automation.Schedule.{ScheduleError}

pub data DefinitionStatus : Type 0 where
  valid invalid : DefinitionStatus

pub data ScheduleKind : Type 0 where
  manual interval daily weekly : ScheduleKind

-- `timeout_seconds` is only carried along.
pub record AutomationDefinition (D P : Type 0) : Type 0 where
  pub id : String
  pub name : String
  pub task_path : P
  pub task_meta_path : P
  pub output_dir : P
  pub description : String
  pub version : String
  pub entrypoint : String
  pub enabled : Bool
  pub definition_status : DefinitionStatus
  pub definition_error : Option String
  pub schedule_kind : ScheduleKind
  pub schedule_payload : D
  pub timezone : String
  pub result_json_path : Option P
  pub stdout_mode : String
  pub input_overrides : D
  pub before_run_hooks : List String
  pub after_success_hooks : List String
  pub after_failure_hooks : List String
  pub retry_attempts : ℕ
  pub retry_backoff_seconds : ℕ
  pub timeout_seconds : Option ℕ
  pub log_level : String
  pub created_at : Option ℕ
  pub updated_at : Option ℕ
  pub last_run_at : Option ℕ
  pub next_run_at : Option ℕ

pub data TriggerType : Type 0 where
  by_hand scheduled retry : TriggerType

-- `success` and `failed` are what the service passes to `complete_run`.
pub data RunState : Type 0 where
  queued running success failed : RunState

pub record AutomationRun (D P : Type 0) : Type 0 where
  pub run_id : String
  pub automation_id : String
  pub trigger_type : TriggerType
  pub status : RunState
  pub effective_inputs : D
  pub attempt_number : ℕ
  pub queued_at : ℕ
  pub started_at : Option ℕ
  pub finished_at : Option ℕ
  pub error_code : Option String
  pub error_message : Option String
  pub result_json_path : Option P
  pub artifacts_dir : Option P
  pub log_path : Option P

pub data EventType : Type 0 where
  event_queued event_claimed task_succeeded task_failed : EventType
  other_event : String → EventType

-- A text, or `f"Run queued by {trigger_type}."`.
pub data Message : Type 0 where
  text : String → Message
  queued_by : TriggerType → Message

-- The payload is `{"error_code": ...}`, for a run that timed out `{"stage": ...}`, or empty.
pub record AutomationRunEvent : Type 0 where
  pub run_id : String
  pub event_type : EventType
  pub message : Message
  pub created_at : ℕ
  pub payload : Option String

pub record AutomationStore (D P : Type 0) : Type 0 where
  pub automations : Dict String (AutomationDefinition D P)
  pub automation_runs : Dict String (AutomationRun D P)
  pub automation_run_events : List AutomationRunEvent

-- `KeyError`, `ValueError` for an invalid definition, the error of a schedule, and the database's refusal of a key that is
-- there.
pub data StoreError : Type 0 where
  key_error integrity_error : String → StoreError
  invalid_definition : String → Option String → StoreError
  schedule_error : ScheduleError → StoreError

pub data Answer (A : Type 0) : Type 0 where
  answers : A → Answer A
  raises : StoreError → Answer A

-- How a run ended, as `complete_run` is told; the error is a code and a message.
pub record Completion (P : Type 0) : Type 0 where
  pub succeeded : Bool
  pub error_code : Option String
  pub error_message : Option String
  pub result_json_path : Option P
  pub artifacts_dir : Option P
  pub log_path : Option P
