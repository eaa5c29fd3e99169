-- ===== src/Automation/RunRow.antt =====
-- automation/persistence/store.py: a run as a row of the table `automation_runs`, and back. What `json`
-- and `Path` do is a parameter. A time's text is never empty, so a time is its own column.
use browser_cli.Prelude.{
  String, ℕ, Option, none, some, Bool, true, false, not, ◌==◌, string_eq, if◌then◌else◌, ◌≡◌, ◌≢◌,
  refl, sym, ap, ◌∙◌, Option-cases, ◌⊎◌, inl, inr, arith,
}
use browser_cli.Automation.Records.{AutomationRun, TriggerType, RunState}
mod Examples

-- `json.dumps`, `json.loads`, `str(path)` and `Path(text)`
pub record ColumnOperations (D P : Type 0) : Type 0 where
  pub dumps : D → String
  pub loads : String → D
  pub show : P → String
  pub path : String → P

-- What they keep: a value that is written is read again, and its text is not empty.
pub record IsFaithful {D P : Type 0} (o : ColumnOperations D P) : Type 0 where
  pub loads_dumps : (d : D) → o.loads (o.dumps d) ≡ d
  pub dumps_filled : (d : D) → o.dumps d ≢ ""
  pub path_show : (p : P) → o.path (o.show p) ≡ p
  pub show_filled : (p : P) → o.show p ≢ ""

pub record RunRow : Type 0 where
  pub run_id : String
  pub automation_id : String
  pub trigger_type : TriggerType
  pub status : RunState
  pub effective_inputs_json : String
  pub attempt_number : ℕ
  pub queued_at : ℕ
  pub started_at : Option ℕ
  pub finished_at : Option ℕ
  pub error_code : Option String
  pub error_message : Option String
  pub result_json_path : Option String
  pub artifacts_dir : Option String
  pub log_path : Option String

-- `x or d`
abbrev pub text_or : String → String → String
text_or x d = if x == "" then d else x

-- `str(x) if x else None`
abbrev pub filled : Option String → Option String
filled none = none
filled (some x) = if x == "" then none else some x

-- An optional text that is not the empty one.
abbrev pub IsFilled : Option String → Type 0
IsFilled none = Unit
IsFilled (some x) = x ≢ ""

filled-IsFilled : (x : Option String) → IsFilled x → filled x ≡ x
filled-IsFilled none _ = refl
filled-IsFilled (some x) h = ground arith

module _ {D P : Type 0} (o : ColumnOperations D P) where
  abbrev pub show_path : Option P → Option String
  show_path none = none
  show_path (some p) = some (o.show p)

  -- `Path(str(x)) if x else None`
  abbrev pub read_path : Option String → Option P
  read_path none = none
  read_path (some x) = if x == "" then none else some (o.path x)

  unfoldable pub run_to_row : AutomationRun D P → RunRow
  run_to_row r = record {
    run_id = r.run_id;
    automation_id = r.automation_id;
    trigger_type = r.trigger_type;
    status = r.status;
    effective_inputs_json = o.dumps r.effective_inputs;
    attempt_number = r.attempt_number;
    queued_at = r.queued_at;
    started_at = r.started_at;
    finished_at = r.finished_at;
    error_code = r.error_code;
    error_message = r.error_message;
    result_json_path = show_path r.result_json_path;
    artifacts_dir = show_path r.artifacts_dir;
    log_path = show_path r.log_path;
  }

  unfoldable pub row_to_run : RunRow → AutomationRun D P
  row_to_run row = record {
    run_id = row.run_id;
    automation_id = row.automation_id;
    trigger_type = row.trigger_type;
    status = row.status;
    effective_inputs = o.loads (text_or row.effective_inputs_json "{}");
    attempt_number = row.attempt_number;
    queued_at = row.queued_at;
    started_at = row.started_at;
    finished_at = row.finished_at;
    error_code = filled row.error_code;
    error_message = filled row.error_message;
    result_json_path = read_path row.result_json_path;
    artifacts_dir = read_path row.artifacts_dir;
    log_path = read_path row.log_path;
  }

  read_path-show_path : IsFaithful o → (p : Option P) → read_path (show_path p) ≡ p
  read_path-show_path w none = refl
  read_path-show_path w (some p) = ground (arith, w.path_show p, w.show_filled p)

  loads-dumps : IsFaithful o → (d : D) → o.loads (text_or (o.dumps d) "{}") ≡ d
  loads-dumps w d = ground (arith, w.loads_dumps d, w.dumps_filled d)

  -- A run that is written as a row is read back as it was, unless its error code or its error message
  -- is the empty text, which the row's reader takes for none.
  pub row_to_run-run_to_row :
      (r : AutomationRun D P)
      → IsFaithful o
      → IsFilled r.error_code
      → IsFilled r.error_message
      → row_to_run (run_to_row r) ≡ r
  unfolding row_to_run run_to_row
  row_to_run-run_to_row r w code message =
      rw
        (
          loads-dumps w r.effective_inputs,
          filled-IsFilled r.error_code code,
          filled-IsFilled r.error_message message,
          read_path-show_path w r.result_json_path,
          read_path-show_path w r.artifacts_dir,
          read_path-show_path w r.log_path,
        )
        refl
