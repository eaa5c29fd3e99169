-- ===== src/Automation/Rows.antt =====
-- automation/persistence/store.py: the parts of its statements on single rows, and the events that it
-- writes.
use browser_cli.Prelude.{
  String, ℕ, zero, suc, List, [], ◌∷◌, Option, none, some, Bool, true, false, ◌==◌, string_eq,
  if◌then◌else◌,
}
use browser_cli.Automation.Records.{
  RunState, queued, running, success, failed, event_claimed, task_succeeded, task_failed, text,
  AutomationRunEvent, Completion,
}

abbrev pub is_queued : RunState → Bool
is_queued queued = true
is_queued running = false
is_queued success = false
is_queued failed = false

abbrev pub is_running : RunState → Bool
is_running running = true
is_running queued = false
is_running success = false
is_running failed = false

abbrev pub or_default : {A : Type 0} → Option A → A → A
or_default none a = a
or_default (some b) a = b

abbrev pub first : {A : Type 0} → List A → Option A
first [] = none
first (x ∷ _) = some x

abbrev pub claimed_event : ℕ → String → AutomationRunEvent
claimed_event now run_id = record {
  run_id = run_id;
  event_type = event_claimed;
  message = text "Executor claimed run.";
  created_at = now;
  payload = none;
}

abbrev pub end_state : Bool → RunState
end_state true = success
end_state false = failed

-- `error_message or "Task failed."`, and `{"error_code": ...} if error_code`
abbrev pub or_text : Option String → String → String
or_text none d = d
or_text (some t) d = if t == "" then d else t

abbrev pub not_empty : Option String → Option String
not_empty none = none
not_empty (some t) = if t == "" then none else some t

abbrev pub completed_event : {P : Type 0} → ℕ → Completion P → String → AutomationRunEvent
completed_event now c run_id = record {
  run_id = run_id;
  event_type = if c.succeeded then task_succeeded else task_failed;
  message = text (
      if c.succeeded
      then "Task completed successfully."
      else or_text c.error_message "Task failed.");
  created_at = now;
  payload = not_empty c.error_code;
}

-- `ORDER BY queued_at DESC LIMIT ?`
abbrev pub take : {A : Type 0} → ℕ → List A → List A
take zero xs = []
take (suc n) [] = []
take (suc n) (x ∷ xs) = x ∷ take n xs
