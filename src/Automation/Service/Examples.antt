-- ===== src/Automation/Service/Examples.antt =====
-- The execution of a run at a concrete store: one run of an automation with one attempt more.
use browser_cli.Prelude.{
  String, ℕ, [], ◌∷◌, Option, none, some, true, false, ◌≡◌, refl, string_eq, arith,
}
use browser_cli.Prelude.Sort.{sort, insert_sorted}
use browser_cli.Dict.{lookup, insert}
use browser_cli.Automation.Records.{
  valid, manual, AutomationDefinition, by_hand, running, AutomationRun, AutomationStore,
}
use browser_cli.Automation.Creation.{
  get_automation, get_run, insert_run, create_run, has_pending_run,
}
use browser_cli.Automation.Queue.{claim_next_run, complete_run, retry_run}
use browser_cli.Automation.Queue.Claiming.{IsKeyed}
use browser_cli.Automation.Service.{
  Failure, operation_failed, timed_out, Execution, first_failure, execute_run, executor_round,
}
use browser_cli.Automation.Service.Ends.{IsEnded}
use browser_cli.Automation.Service.Endings.{execute_run-IsEnded}

-- What a test by evaluation unfolds.
program : Unit {0}
unfolding lookup insert sort insert_sorted string_eq get_automation get_run insert_run create_run
    claim_next_run complete_run retry_run has_pending_run first_failure execute_run executor_round
program = tt

abbrev report : AutomationDefinition ℕ ℕ
report = record {
  id = "report";
  name = "Report";
  task_path = 1;
  task_meta_path = 2;
  output_dir = 3;
  description = "";
  version = "0.1.0";
  entrypoint = "run";
  enabled = true;
  definition_status = valid;
  definition_error = none;
  schedule_kind = manual;
  schedule_payload = 0;
  timezone = "UTC";
  result_json_path = none;
  stdout_mode = "json";
  input_overrides = 7;
  before_run_hooks = [];
  after_success_hooks = [];
  after_failure_hooks = [];
  retry_attempts = 1;
  retry_backoff_seconds = 30;
  timeout_seconds = none;
  log_level = "info";
  created_at = some 1;
  updated_at = some 1;
  last_run_at = none;
  next_run_at = none;
}

abbrev first_run : AutomationRun ℕ ℕ
first_run = record {
  run_id = "first";
  automation_id = "report";
  trigger_type = by_hand;
  status = running;
  effective_inputs = 7;
  attempt_number = 0;
  queued_at = 4;
  started_at = some 5;
  finished_at = none;
  error_code = none;
  error_message = none;
  result_json_path = none;
  artifacts_dir = none;
  log_path = none;
}

abbrev store : AutomationStore ℕ ℕ
store = record {
  automations = ("report", report) ∷ [];
  automation_runs = ("first", first_run) ∷ [];
  automation_run_events = [];
}

abbrev execution : Option String → Failure → Execution ℕ
execution directory_error e = record {
  now = 9;
  new_id = "second";
  run_dir = λ p id. 10;
  log_path = λ p. 11;
  result_path = λ p. 12;
  directory_error = directory_error;
  daemon_error = none;
  log_error = none;
  before_error = none;
  task_error = some e;
  persist_error = none;
  after_error = none;
  result_exists = false;
}

abbrev broken : Failure
broken = operation_failed "TASK_BROKEN" "no such element"

store-IsKeyed : IsKeyed store
unfolding lookup
store-IsKeyed = record { distinct = (refl, tt); keyed = λ i r h. ground arith }

execute_run-IsEnded_example :
    IsEnded
      (execution none broken)
      "first"
      report
      first_run
      (execute_run (execution none broken) "first" store).1
unfolding lookup string_eq
execute_run-IsEnded_example =
    execute_run-IsEnded (execution none broken) "first" report first_run store store-IsKeyed refl
      refl refl refl refl refl

-- A timeout is not repeated.
no_second :
    lookup "second"
      (execute_run (execution none (timed_out "late")) "first" store).1.automation_runs
    ≡ none
unfolding program
no_second = refl

-- Where the run's directory cannot be made, the run stays as it was claimed, and counts as pending.
stays_running :
    lookup "first"
      (execute_run (execution (some "read-only") broken) "first" store).1.automation_runs
    ≡ some first_run
unfolding program
stays_running = refl

blocks :
    has_pending_run "report" (execute_run (execution (some "read-only") broken) "first" store).1
    ≡ true
unfolding program
blocks = refl
