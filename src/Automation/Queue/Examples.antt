-- ===== src/Automation/Queue/Examples.antt =====
-- The theorems on the queue, with two runs of one automation.
use browser_cli.Prelude.{
  ℕ, ◌+◌, ◌*◌, ◌≤◌, List, [], ◌∷◌, none, some, true, false, ◌≡◌, ◌≢◌, ◌↔◌, refl, string_eq, arith,
}
use browser_cli.Prelude.Sort.{sort}
use browser_cli.Dict.{lookup, insert, lookup-nil}
use browser_cli.Automation.Records.{
  AutomationDefinition, valid, manual, by_hand, AutomationRun, AutomationStore, Completion, answers,
}
use browser_cli.Automation.Schedule.{normalize_schedule, compute_next_run_at}
use browser_cli.Automation.Creation.{get_automation, get_run, insert_run, new_run, create_run}
use browser_cli.Automation.Definitions.{normalize_automation, upsert_automation, set_enabled}
use browser_cli.Automation.Definitions.Due.{list_automations, enqueue, enqueue_due_runs}
use browser_cli.Automation.Definitions.Sample.{zones, host, shown}
use browser_cli.Automation.Queue.{
  claim_next_run, claimed_run, claimable, complete_run, completed_run, retry_run,
}
use browser_cli.Automation.Queue.Requests.{
  Request, creates, claims, completes, retries, enqueues, upserts, enables, step, run,
}
use browser_cli.Automation.Queue.Claiming.{TakesOldest, claim_next_run-TakesOldest}
use browser_cli.Automation.Queue.Invariant.{IsWf, run-IsWf}
use browser_cli.Automation.Queue.Completing.{complete_run-lem, with_success}
use browser_cli.Automation.Queue.Outcomes.{claimed_once, IsRetry, retry_run-lem}

abbrev report : AutomationDefinition ℕ ℕ
report = record {
  id = "report";
  name = "Report";
  task_path = 1;
  task_meta_path = 2;
  output_dir = 3;
  description = "";
  version = "0.1.0";
  entrypoint = "run";
  enabled = true;
  definition_status = valid;
  definition_error = none;
  schedule_kind = manual;
  schedule_payload = 0;
  timezone = "UTC";
  result_json_path = none;
  stdout_mode = "json";
  input_overrides = 7;
  before_run_hooks = [];
  after_success_hooks = [];
  after_failure_hooks = [];
  retry_attempts = 1;
  retry_backoff_seconds = 30;
  timeout_seconds = none;
  log_level = "info";
  created_at = some 1;
  updated_at = some 1;
  last_run_at = none;
  next_run_at = none;
}

abbrev one_report : AutomationStore ℕ ℕ
one_report = record {
  automations = ("report", report) ∷ [];
  automation_runs = [];
  automation_run_events = [];
}

one_report-IsWf : IsWf one_report
one_report-IsWf = record {
  keys = record {
    distinct = tt;
    keyed = λ i r h. absurd (ground (arith, lookup-nil {V = AutomationRun ℕ ℕ} i));
  };
  times = λ i r h. absurd (ground (arith, lookup-nil {V = AutomationRun ℕ ℕ} i));
}

-- The second run is due before the first.
abbrev requests : List (Request ℕ ℕ)
requests =
    creates 10 "first" "report" by_hand none 0 none
    ∷ creates 11 "second" "report" by_hand (some 8) 0 (some 5)
    ∷ []

abbrev two_runs : AutomationStore ℕ ℕ
two_runs = run (host none) zones shown requests one_report

two_runs-IsWf : IsWf two_runs
two_runs-IsWf = run-IsWf (host none) zones shown requests one_report one_report-IsWf

abbrev more : List (Request ℕ ℕ)
more =
    retries 50 "third" "second"
    ∷ enables 60 "report" false
    ∷ enqueues 70 (λ id. "fourth")
    ∷ claims 90
    ∷ []

run-IsWf_example : IsWf (run (host none) zones shown more two_runs)
run-IsWf_example = run-IsWf (host none) zones shown more two_runs two_runs-IsWf

claim_next_run-TakesOldest_example : TakesOldest 20 two_runs
claim_next_run-TakesOldest_example = claim_next_run-TakesOldest 20 two_runs two_runs-IsWf.keys

abbrev first_run : AutomationRun ℕ ℕ
first_run = new_run 10 "first" by_hand none 0 none report

abbrev second_run : AutomationRun ℕ ℕ
second_run = new_run 11 "second" by_hand (some 8) 0 (some 5) report

takes_second : (claim_next_run 20 two_runs).0 ≡ some (answers (claimed_run 20 second_run))
unfolding run step create_run get_automation insert_run get_run claim_next_run sort lookup insert
    string_eq
takes_second = refl

abbrev failure : Completion ℕ
failure = record {
  succeeded = false;
  error_code = some "TIMEOUT";
  error_message = none;
  result_json_path = none;
  artifacts_dir = none;
  log_path = none;
}

abbrev meanwhile : List (Request ℕ ℕ)
meanwhile =
    completes 25 "second" failure
    ∷ retries 26 "third" "second"
    ∷ upserts 27 "manual" report
    ∷ enables 27 "report" false
    ∷ enqueues 28 (λ id. "fourth")
    ∷ []

takes_first :
    (claim_next_run 30 (run (host none) zones shown meanwhile (claim_next_run 20 two_runs).1)).0
    ≡ some (answers (claimed_run 30 first_run))
unfolding run step create_run get_automation insert_run get_run claim_next_run complete_run
    retry_run upsert_automation set_enabled enqueue_due_runs enqueue list_automations
    normalize_automation normalize_schedule compute_next_run_at sort lookup insert string_eq
takes_first = refl

claimed_once_example : first_run.run_id ≢ second_run.run_id
claimed_once_example =
    claimed_once (host none) zones shown 20 30 two_runs meanwhile (claimed_run 20 second_run)
      (claimed_run 30 first_run) two_runs-IsWf takes_second takes_first

second_there : lookup "second" two_runs.automation_runs ≡ some second_run
unfolding run step create_run get_automation insert_run get_run lookup insert string_eq
second_there = refl

third_new : lookup "third" two_runs.automation_runs ≡ none
unfolding run step create_run get_automation insert_run get_run lookup insert string_eq
third_new = refl

report_there : lookup "report" two_runs.automations ≡ some report
unfolding run step create_run get_automation insert_run get_run lookup insert string_eq
report_there = refl

retry_run-lem_example :
    (q : AutomationRun ℕ ℕ) × ((retry_run 26 "third" "second" two_runs).0 ≡ answers q)
    × (lookup "third" (retry_run 26 "third" "second" two_runs).1.automation_runs ≡ some q)
    × IsRetry 26 "third" second_run report q
    × ((later : ℕ)
        → (claimable later q ≡ true) ↔ (26 + report.retry_backoff_seconds * 1000000 ≤ later))
    × (lookup "second" (retry_run 26 "third" "second" two_runs).1.automation_runs ≡ some second_run)
retry_run-lem_example =
    retry_run-lem 26 "third" "second" second_run report two_runs second_there report_there refl
      third_new

failure_noted :
    ((complete_run 25 "second" failure two_runs).0 ≡ answers (completed_run 25 failure second_run))
    × (lookup "report" (complete_run 25 "second" failure two_runs).1.automations
        ≡ some (with_success 25 false report))
failure_noted =
    complete_run-lem 25 "second" failure second_run report two_runs two_runs-IsWf.keys second_there
      report_there
