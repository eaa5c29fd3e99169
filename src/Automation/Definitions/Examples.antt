-- ===== src/Automation/Definitions/Examples.antt =====
-- Queueing the due runs at a concrete store: one automation that runs every minute and is due.
use browser_cli.Prelude.{
  String, ℕ, List, [], ◌∷◌, Option, none, some, true, ◌≡◌, refl, string_eq, arith,
}
use browser_cli.Prelude.Sort.{sort, insert_sorted}
use browser_cli.Dict.{lookup, insert}
use browser_cli.Automation.Records
use browser_cli.Automation.Records.{
  DefinitionStatus, valid, invalid, AutomationDefinition, AutomationStore, Answer, answers,
}
use browser_cli.Automation.Schedule.{normalize_schedule, compute_next_run_at}
use browser_cli.Automation.Creation.{
  get_automation, get_run, insert_run, create_run, has_pending_run,
}
use browser_cli.Automation.Definitions.{normalize_automation, upsert_automation}
use browser_cli.Automation.Definitions.Sample.{zones, host, shown}
use browser_cli.Automation.Definitions.Due.{
  list_automations, update_next_run, enqueue_one, enqueue, enqueue_due_runs,
}
use browser_cli.Automation.Definitions.Added.{AddsOnce, HasIds}
use browser_cli.Automation.Definitions.Pending.{enqueue_due_runs_once}

-- What a test by evaluation unfolds.
program : Unit {0}
unfolding lookup insert sort insert_sorted string_eq normalize_schedule compute_next_run_at
    get_automation get_run insert_run create_run has_pending_run normalize_automation
    upsert_automation list_automations update_next_run enqueue_one enqueue enqueue_due_runs
program = tt

abbrev minutely : AutomationDefinition ℕ ℕ
minutely = record {
  id = "m";
  name = "Minutely";
  task_path = 1;
  task_meta_path = 2;
  output_dir = 3;
  description = "";
  version = "0.1.0";
  entrypoint = "run";
  enabled = true;
  definition_status = valid;
  definition_error = none;
  schedule_kind = Records.interval;
  schedule_payload = 60;
  timezone = "UTC";
  result_json_path = none;
  stdout_mode = "json";
  input_overrides = 7;
  before_run_hooks = [];
  after_success_hooks = [];
  after_failure_hooks = [];
  retry_attempts = 0;
  retry_backoff_seconds = 0;
  timeout_seconds = none;
  log_level = "info";
  created_at = some 1;
  updated_at = some 1;
  last_run_at = none;
  next_run_at = some 5;
}

abbrev store : AutomationStore ℕ ℕ
store = record {
  automations = ("m", minutely) ∷ [];
  automation_runs = [];
  automation_run_events = [];
}

abbrev after : Option String → ℕ → AutomationStore ℕ ℕ → Answer (List String) × AutomationStore ℕ ℕ
after missing now s = enqueue_due_runs (host missing) zones shown now (λ id. "run-1") s

queues : (after none 9 store).0 ≡ answers ("run-1" ∷ [])
unfolding program
queues = refl

-- A second call, when the automation is due again, finds the run pending.
waits : (after none 90000000 (after none 9 store).1).0 ≡ answers []
unfolding program
waits = refl

abbrev schedule_of : Option (AutomationDefinition ℕ ℕ) → Option (DefinitionStatus × Option ℕ)
schedule_of none = none
schedule_of (some a) = some (a.definition_status, a.next_run_at)

-- The task's file is gone when the next run is computed: the definition stays valid, without a next run.
stalls :
    schedule_of (lookup "m" (after (some "missing") 9 store).1.automations) ≡ some (valid, none)
unfolding program
stalls = refl

store-HasIds : HasIds store
unfolding lookup
store-HasIds i a there = ground arith

enqueue_due_runs_once_example :
    AddsOnce "m" store (after none 9 store).1 × HasIds (after none 9 store).1
enqueue_due_runs_once_example =
    enqueue_due_runs_once (host none) zones shown 9 "m" (λ id. "run-1") store store-HasIds
