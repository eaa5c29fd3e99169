-- ===== src/Automation/Service.antt =====
-- automation/service/runtime.py: the execution of a claimed run, and one round of the service's two loops.
-- What the file system, the daemon, the hooks and the task do is an argument.
use Prim.Native.String.{◌++◌ as join}
use browser_cli.Prelude.{
  String, ℕ, ◌+◌, List, [], ◌∷◌, Option, none, some, Bool, true, false, not, ◌&&◌, ltb, ◌==◌,
  string_eq, if◌then◌else◌,
}
use browser_cli.Dict.{Dict, lookup}
use browser_cli.Automation.Records.{
  AutomationDefinition, AutomationRun, EventType, other_event, Message, text, AutomationRunEvent,
  AutomationStore, StoreError, Answer, answers, raises, Completion,
}
use browser_cli.Automation.Schedule.{ZoneOperations, ScheduleError}
use browser_cli.Automation.Creation.{get_run, get_automation, add_run_event}
use browser_cli.Automation.Queue.{claim_next_run, complete_run, retry_run}
use browser_cli.Automation.Definitions.{Host}
use browser_cli.Automation.Definitions.Due.{enqueue_due_runs}
pub mod Ends
pub mod Endings
mod Examples

-- An exception: `AutomationRunTimeoutError`, another `OperationFailedError` with its code, or any other.
pub data Failure : Type 0 where
  timed_out : String → Failure
  operation_failed : String → String → Failure
  other_failure : String → Failure

-- What leaves `_execute_run` by an exception.
pub data ServiceError : Type 0 where
  store_failed : StoreError → ServiceError
  host_failed : String → ServiceError

pub data Stage : Type 0 where
  before_hooks task_execution persist_result after_success_hooks : Stage

abbrev pub stage_name : Stage → String
stage_name before_hooks = "before_hooks"
stage_name task_execution = "task_execution"
stage_name persist_result = "persist_result"
stage_name after_success_hooks = "after_success_hooks"

-- The exception of each part of the execution, if it raises one. `run_dir` makes a run's directory,
-- `new_id` is the `uuid.uuid4().hex` of a retry.
pub record Execution (P : Type 0) : Type 0 where
  pub now : ℕ
  pub new_id : String
  pub run_dir : P → String → P
  pub log_path : P → P
  pub result_path : P → P
  pub directory_error : Option String
  pub daemon_error : Option Failure
  pub log_error : Option String
  pub before_error : Option Failure
  pub task_error : Option Failure
  pub persist_error : Option Failure
  pub after_error : Option Failure
  pub result_exists : Bool

abbrev pub message_of : Failure → String
message_of (timed_out message) = message
message_of (operation_failed code message) = message
message_of (other_failure message) = message

abbrev pub code_of : Failure → String
code_of (timed_out message) = "AUTOMATION_RUN_TIMEOUT"
code_of (operation_failed code message) = code
code_of (other_failure message) = "AUTOMATION_RUN_FAILED"

abbrev pub is_timeout : Failure → Bool
is_timeout (timed_out _) = true
is_timeout (operation_failed _ _) = false
is_timeout (other_failure _) = false

-- The first of the parts that raises.
unfoldable pub first_failure : List (Stage × Option Failure) → Option (Stage × Failure)
first_failure [] = none
first_failure ((stage, none) ∷ rest) = first_failure rest
first_failure ((stage, some e) ∷ rest) = some (stage, e)

abbrev pub work : {P : Type 0} → Execution P → Option (Stage × Failure)
work x = first_failure (
    (before_hooks, x.before_error)
    ∷ (task_execution, x.task_error)
    ∷ (persist_result, x.persist_error)
    ∷ (after_success_hooks, x.after_error)
    ∷ [])

abbrev pub event : ℕ → String → String → String → Option String → AutomationRunEvent
event now run_id kind message payload = record {
  run_id = run_id;
  event_type = other_event kind;
  message = text message;
  created_at = now;
  payload = payload;
}

abbrev pub daemon_event : ℕ → String → Option Failure → AutomationRunEvent
daemon_event now run_id none =
    event now run_id "browser_daemon_ready" "Browser daemon is reachable." none
daemon_event now run_id (some e) = event now run_id "browser_daemon_unavailable" (message_of e) none

module _ {P : Type 0} (x : Execution P) where
  abbrev pub success_of : P → Completion P
  success_of dir = record {
    succeeded = true;
    error_code = none;
    error_message = none;
    result_json_path = some (x.result_path dir);
    artifacts_dir = some dir;
    log_path = some (x.log_path dir);
  }

  abbrev pub failure_of : P → Failure → Completion P
  failure_of dir e = record {
    succeeded = false;
    error_code = some (code_of e);
    error_message = some (message_of e);
    result_json_path = if x.result_exists then some (x.result_path dir) else none;
    artifacts_dir = some dir;
    log_path = some (x.log_path dir);
  }

  abbrev pub completion_of : P → Option (Stage × Failure) → Completion P
  completion_of dir none = success_of dir
  completion_of dir (some (_, e)) = failure_of dir e

module _ {D P : Type 0} (x : Execution P) where
  abbrev pub directory : AutomationDefinition D P → AutomationRun D P → P
  directory a r = x.run_dir a.output_dir r.run_id

  abbrev pub note_timeout :
      String → Option (Stage × Failure) → AutomationStore D P → AutomationStore D P
  note_timeout run_id none s = s
  note_timeout run_id (some (stage, e)) s =
      if is_timeout e
      then add_run_event
          (event x.now run_id "run_timed_out" (message_of e) (some (stage_name stage))) s
      else s

  -- `not timed_out and automation.retry_attempts > run.attempt_number`
  abbrev pub wants_retry :
      AutomationDefinition D P → AutomationRun D P → Option (Stage × Failure) → Bool
  wants_retry a r none = false
  wants_retry a r (some (_, e)) = not (is_timeout e) && ltb r.attempt_number a.retry_attempts

  abbrev pub note_retry :
      String
      → Answer (AutomationRun D P) × AutomationStore D P
      → Option ServiceError × AutomationStore D P
  note_retry run_id (raises e, s) = (some (store_failed e), s)
  note_retry run_id (answers r, s) = (
    none,
    add_run_event
        (event x.now r.run_id "retry_scheduled"
          (join "Retry scheduled after failed run " (join run_id ".")) none)
        s,
  )

  abbrev pub finish_run :
      String
      → AutomationDefinition D P
      → AutomationRun D P
      → Option (Stage × Failure)
      → AutomationStore D P
      → Option ServiceError × AutomationStore D P
  finish_run run_id a r outcome s =
      let done =
        (complete_run x.now run_id (completion_of x (directory a r) outcome)
          (note_timeout run_id outcome s)).1 in
      if wants_retry a r outcome
      then note_retry run_id (retry_run x.now x.new_id run_id done)
      else (none, done)

  -- An error before the log is open leaves the method, and the run as it is.
  abbrev pub with_log :
      String
      → AutomationDefinition D P
      → AutomationRun D P
      → Option String
      → AutomationStore D P
      → Option ServiceError × AutomationStore D P
  with_log run_id a r (some e) s = (some (host_failed e), s)
  with_log run_id a r none s = finish_run run_id a r (work x) s

  -- An error before the log is open leaves the method, and the run as it is.
  abbrev pub with_directory :
      String
      → AutomationDefinition D P
      → AutomationRun D P
      → Option String
      → AutomationStore D P
      → Option ServiceError × AutomationStore D P
  with_directory run_id a r (some e) s = (some (host_failed e), s)
  with_directory run_id a r none s = with_log run_id a r x.log_error (
      add_run_event (daemon_event x.now run_id x.daemon_error)
        (add_run_event (event x.now run_id "task_started" "Task execution started." none) s))

  abbrev pub execute_for :
      String
      → AutomationRun D P
      → Answer (AutomationDefinition D P)
      → AutomationStore D P
      → Option ServiceError × AutomationStore D P
  execute_for run_id r (raises e) s = (some (store_failed e), s)
  execute_for run_id r (answers a) s = with_directory run_id a r x.directory_error s

  abbrev pub execute_found :
      String
      → Answer (AutomationRun D P)
      → AutomationStore D P
      → Option ServiceError × AutomationStore D P
  execute_found run_id (raises e) s = (some (store_failed e), s)
  execute_found run_id (answers r) s = execute_for run_id r (get_automation r.automation_id s) s

  unfoldable pub execute_run :
      String → AutomationStore D P → Option ServiceError × AutomationStore D P
  execute_run run_id s = execute_found run_id (get_run run_id s) s

  abbrev pub execute_claimed :
      Option (Answer (AutomationRun D P)) × AutomationStore D P → AutomationStore D P
  execute_claimed (none, s) = s
  execute_claimed (some (raises e), s) = s
  execute_claimed (some (answers r), s) = (execute_run r.run_id s).1

  -- A round of `_executor_loop`, which logs every exception.
  unfoldable pub executor_round : AutomationStore D P → AutomationStore D P
  executor_round s = execute_claimed (claim_next_run x.now s)

-- A round of `_scheduler_loop`.
unfoldable pub scheduler_round :
    {D P Z : Type 0}
    → Host D P
    → ZoneOperations Z
    → (ScheduleError → String)
    → ℕ
    → (String → String)
    → AutomationStore D P
    → AutomationStore D P
scheduler_round host zones show now new_id s = (enqueue_due_runs host zones show now new_id s).1
