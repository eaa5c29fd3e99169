-- ===== src/Automation/Creation.antt =====
-- automation/persistence/store.py: the methods of `AutomationStore` that look up a definition or a run
-- and that queue a run. Each method reads the clock as `now`.
use browser_cli.Prelude.{
  String, ℕ, [], ◌∷◌, ◌++◌, Option, none, some, Bool, ◌&&◌, ◌||◌, ltb, length, select, ◌==◌,
  string_eq,
}
use browser_cli.Dict.{lookup, insert, values}
use browser_cli.Automation.Records.{
  DefinitionStatus, valid, invalid, AutomationDefinition, TriggerType, queued, AutomationRun,
  event_queued, queued_by, AutomationRunEvent, AutomationStore, key_error, integrity_error,
  invalid_definition, Answer, answers, raises,
}
use browser_cli.Automation.Rows.{is_queued, is_running, or_default}

module _ {D P : Type 0} where
  unfoldable pub get_automation : String → AutomationStore D P → Answer (AutomationDefinition D P)
  get_automation automation_id s = elim (lookup automation_id s.automations) [
    | none ↦ raises (key_error automation_id)
    | some a ↦ answers a
  ]

  unfoldable pub get_run : String → AutomationStore D P → Answer (AutomationRun D P)
  get_run run_id s = elim (lookup run_id s.automation_runs) [
    | none ↦ raises (key_error run_id)
    | some r ↦ answers r
  ]

  abbrev pub add_run_event : AutomationRunEvent → AutomationStore D P → AutomationStore D P
  add_run_event event s = record s { automation_run_events = s.automation_run_events ++ event ∷ [] }

  abbrev pub put_run : AutomationRun D P → AutomationStore D P → AutomationStore D P
  put_run r s = record s { automation_runs = insert r.run_id r s.automation_runs }

  abbrev pub queued_event : ℕ → AutomationRun D P → AutomationRunEvent
  queued_event now r = record {
    run_id = r.run_id;
    event_type = event_queued;
    message = queued_by r.trigger_type;
    created_at = now;
    payload = none;
  }

  -- The run and its event are written; a run id that is there already is refused.
  unfoldable pub insert_run :
      ℕ → AutomationRun D P → AutomationStore D P → Answer (AutomationRun D P) × AutomationStore D P
  insert_run now r s = elim (lookup r.run_id s.automation_runs) [
    | some _ ↦ (raises (integrity_error r.run_id), s)
    | none ↦ let s' = add_run_event (queued_event now r) (put_run r s) in (get_run r.run_id s', s')
  ]

  -- The new run; `run_id` is `uuid.uuid4().hex`.
  abbrev pub new_run :
      ℕ
      → String
      → TriggerType
      → Option D
      → ℕ
      → Option ℕ
      → AutomationDefinition D P
      → AutomationRun D P
  new_run now run_id trigger_type effective_inputs attempt_number queued_at a = record {
    run_id = run_id;
    automation_id = a.id;
    trigger_type = trigger_type;
    status = queued;
    effective_inputs = or_default effective_inputs a.input_overrides;
    attempt_number = attempt_number;
    queued_at = or_default queued_at now;
    started_at = none;
    finished_at = none;
    error_code = none;
    error_message = none;
    result_json_path = none;
    artifacts_dir = none;
    log_path = none;
  }

  -- The run of a definition that is valid.
  abbrev pub insert_valid :
      ℕ
      → AutomationRun D P
      → DefinitionStatus
      → AutomationDefinition D P
      → AutomationStore D P
      → Answer (AutomationRun D P) × AutomationStore D P
  insert_valid now r valid a s = insert_run now r s
  insert_valid now r invalid a s = (raises (invalid_definition a.id a.definition_error), s)

  abbrev pub create_for :
      ℕ
      → String
      → TriggerType
      → Option D
      → ℕ
      → Option ℕ
      → Answer (AutomationDefinition D P)
      → AutomationStore D P
      → Answer (AutomationRun D P) × AutomationStore D P
  create_for now run_id trigger_type effective_inputs attempt_number queued_at (raises e) s =
      (raises e, s)
  create_for now run_id trigger_type effective_inputs attempt_number queued_at (answers a) s =
      insert_valid now (new_run now run_id trigger_type effective_inputs attempt_number queued_at a)
        a.definition_status a s

  unfoldable pub create_run :
      ℕ
      → String
      → String
      → TriggerType
      → Option D
      → ℕ
      → Option ℕ
      → AutomationStore D P
      → Answer (AutomationRun D P) × AutomationStore D P
  create_run now run_id automation_id trigger_type effective_inputs attempt_number queued_at s =
      create_for now run_id trigger_type effective_inputs attempt_number queued_at
        (get_automation automation_id s) s

  -- `COUNT(*)` of the runs with the test
  abbrev pub count_runs : (AutomationRun D P → Bool) → AutomationStore D P → ℕ
  count_runs p s = length (select p (values s.automation_runs))

  unfoldable pub has_pending_run : String → AutomationStore D P → Bool
  has_pending_run automation_id s = ltb 0 (
      count_runs
        (λ r. r.automation_id == automation_id && (is_queued r.status || is_running r.status)) s)
