-- ===== src/Automation/RunRow/Examples.antt =====
-- The round trip at a failed run, with two JSON values and one path.
use browser_cli.Prelude.{
  String, none, some, false, ◌≡◌, ◌≢◌, ◌==◌, refl, string_eq, arith, if◌then◌else◌,
}
use browser_cli.Automation.Records.{AutomationRun, scheduled, failed}
use browser_cli.Automation.RunRow.{
  ColumnOperations, IsFaithful, run_to_row, row_to_run, row_to_run-run_to_row,
}

is_filled : (x : String) → (x == "") ≡ false → x ≢ ""
is_filled x h e = absurd (ground arith)

data Json : Type 0 where
  empty_object null : Json

data OnePath : Type 0 where
  results : OnePath

abbrev json_text : Json → String
json_text empty_object = "{}"
json_text null = "null"

abbrev columns : ColumnOperations Json OnePath
columns = record {
  dumps = json_text;
  loads = λ x. if x == "{}" then empty_object else null;
  show = λ _. "/results";
  path = λ _. results;
}

abbrev Round : Json → Type 0
Round d = columns.loads (columns.dumps d) ≡ d

abbrev Filled : Json → Type 0
Filled d = columns.dumps d ≢ ""

columns-IsFaithful : IsFaithful columns
unfolding string_eq
columns-IsFaithful = record {
  loads_dumps = λ d. elim d as Round [ empty_object ↦ refl | null ↦ refl ];
  dumps_filled =
      λ d. elim d as Filled [ empty_object ↦ is_filled "{}" refl | null ↦ is_filled "null" refl ];
  path_show = λ p. elim p as (λ q. results ≡ q) [ results ↦ refl ];
  show_filled = λ p. is_filled "/results" refl;
}

abbrev timeout : String
timeout = "TIMEOUT"

abbrev failed_run : AutomationRun Json OnePath
failed_run = record {
  run_id = "run";
  automation_id = "report";
  trigger_type = scheduled;
  status = failed;
  effective_inputs = empty_object;
  attempt_number = 1;
  queued_at = 10;
  started_at = some 11;
  finished_at = some 12;
  error_code = some timeout;
  error_message = none;
  result_json_path = none;
  artifacts_dir = some results;
  log_path = none;
}

timeout_filled : timeout ≢ ""
unfolding string_eq
timeout_filled = is_filled timeout refl

row_to_run-run_to_row_example : row_to_run columns (run_to_row columns failed_run) ≡ failed_run
row_to_run-run_to_row_example =
    row_to_run-run_to_row columns failed_run columns-IsFaithful timeout_filled tt
