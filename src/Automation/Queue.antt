-- ===== src/Automation/Queue.antt =====
-- automation/persistence/store.py: the methods of `AutomationStore` on queued runs and on their events.
-- Each method reads the clock as `now`.
use browser_cli.Prelude.{
  String, ℕ, ◌+◌, ◌*◌, List, [], ◌∷◌, ◌++◌, Option, none, some, Bool, true, false, not, ◌&&◌, ◌||◌,
  leb, ltb, length, select, any, ◌==◌, string_eq, if◌then◌else◌,
}
use browser_cli.Prelude.Sort.{sort}
use browser_cli.Dict.{Dict, lookup, insert, values}
use browser_cli.Automation.Records.{
  DefinitionStatus, valid, invalid, AutomationDefinition, TriggerType, retry, RunState, queued,
  running, success, failed, AutomationRun, EventType, event_queued, event_claimed, task_succeeded,
  task_failed, Message, text, queued_by, AutomationRunEvent, AutomationStore, StoreError, key_error,
  integrity_error, invalid_definition, Answer, answers, raises, Completion,
}
use browser_cli.Automation.Rows.{
  is_queued, is_running, or_default, first, take, claimed_event, completed_event, end_state,
}
pub mod Requests
pub mod Started
pub mod Claiming
pub mod Invariant
pub mod Outcomes
pub mod Completing
mod Examples
use browser_cli.Automation.Creation.{
  get_automation, get_run, add_run_event, put_run, queued_event, insert_run, new_run, insert_valid,
  create_for, create_run, count_runs, has_pending_run,
}

module _ {D P : Type 0} where
  -- `status = 'queued' AND queued_at <= ?`
  abbrev pub claimable : ℕ → AutomationRun D P → Bool
  claimable now r = is_queued r.status && leb r.queued_at now

  -- `ORDER BY queued_at ASC`, of equal times in the order of the rows
  abbrev pub by_queued_at : AutomationRun D P → AutomationRun D P → Bool
  by_queued_at x y = leb x.queued_at y.queued_at

  abbrev pub next_queued : ℕ → AutomationStore D P → Option (AutomationRun D P)
  next_queued now s = first (sort by_queued_at (select (claimable now) (values s.automation_runs)))

  abbrev pub claimed_run : ℕ → AutomationRun D P → AutomationRun D P
  claimed_run now r = record r { status = running; started_at = some now }

  -- The row that is claimed becomes running; `some` is the run of the answer.
  abbrev pub claim_row :
      ℕ
      → Option (AutomationRun D P)
      → AutomationStore D P
      → Option (Answer (AutomationRun D P)) × AutomationStore D P
  claim_row now none s = (none, s)
  claim_row now (some r) s =
      let s' = add_run_event (claimed_event now r.run_id) (put_run (claimed_run now r) s) in
      (some (get_run r.run_id s'), s')

  unfoldable pub claim_next_run :
      ℕ → AutomationStore D P → Option (Answer (AutomationRun D P)) × AutomationStore D P
  claim_next_run now s = claim_row now (next_queued now s) s

  abbrev pub completed_run : ℕ → Completion P → AutomationRun D P → AutomationRun D P
  completed_run now c r = record r {
    status = end_state c.succeeded;
    finished_at = some now;
    error_code = c.error_code;
    error_message = c.error_message;
    result_json_path = c.result_json_path;
    artifacts_dir = c.artifacts_dir;
    log_path = c.log_path;
  }

  -- The automation of a run that succeeded.
  abbrev pub note_success :
      ℕ → String → Option (AutomationDefinition D P) → AutomationStore D P → AutomationStore D P
  note_success now automation_id none s = s
  note_success now automation_id (some a) s = record s {
    automations =
        insert automation_id (record a { last_run_at = some now; updated_at = some now })
          s.automations;
  }

  abbrev pub complete_row :
      ℕ → Completion P → Option (AutomationRun D P) → AutomationStore D P → AutomationStore D P
  complete_row now c none s = s
  complete_row now c (some r) s =
      let s' = put_run (completed_run now c r) s in
      if c.succeeded
      then note_success now r.automation_id (lookup r.automation_id s'.automations) s'
      else s'

  -- The event is written for a run that is not there, too.
  unfoldable pub complete_run :
      ℕ
      → String
      → Completion P
      → AutomationStore D P
      → Answer (AutomationRun D P) × AutomationStore D P
  complete_run now run_id c s =
      let s' =
        add_run_event (completed_event now c run_id)
          (complete_row now c (lookup run_id s.automation_runs) s) in
      (get_run run_id s', s')

  unfoldable pub list_runs : String → ℕ → AutomationStore D P → List (AutomationRun D P)
  list_runs automation_id limit s = take limit (
      sort (λ x y. leb y.queued_at x.queued_at)
        (select (λ r. r.automation_id == automation_id) (values s.automation_runs)))

  -- `ORDER BY created_at ASC, id ASC`
  unfoldable pub list_run_events : String → AutomationStore D P → List AutomationRunEvent
  list_run_events run_id s =
      sort (λ x y. leb x.created_at y.created_at)
        (select (λ e. e.run_id == run_id) s.automation_run_events)

  -- The backoff, in seconds, delays the new run, if there is one; the clock counts microseconds.
  abbrev pub retry_time : ℕ → AutomationDefinition D P → ℕ
  retry_time now a =
      if ltb 0 a.retry_backoff_seconds then now + a.retry_backoff_seconds * 1000000 else now

  abbrev pub retry_for :
      ℕ
      → String
      → AutomationRun D P
      → Answer (AutomationDefinition D P)
      → AutomationStore D P
      → Answer (AutomationRun D P) × AutomationStore D P
  retry_for now new_id source (raises e) s = (raises e, s)
  retry_for now new_id source (answers a) s =
      create_run now new_id source.automation_id retry (some source.effective_inputs)
        (source.attempt_number + 1) (some (retry_time now a)) s

  abbrev pub retry_source :
      ℕ
      → String
      → Answer (AutomationRun D P)
      → AutomationStore D P
      → Answer (AutomationRun D P) × AutomationStore D P
  retry_source now new_id (raises e) s = (raises e, s)
  retry_source now new_id (answers source) s =
      retry_for now new_id source (get_automation source.automation_id s) s

  unfoldable pub retry_run :
      ℕ → String → String → AutomationStore D P → Answer (AutomationRun D P) × AutomationStore D P
  retry_run now new_id run_id s = retry_source now new_id (get_run run_id s) s

  -- The counts of automations, of queued runs and of running ones.
  unfoldable pub service_metrics : AutomationStore D P → ℕ × ℕ × ℕ
  service_metrics s = (
    length s.automations,
    count_runs (λ r. is_queued r.status) s,
    count_runs (λ r. is_running r.status) s,
  )
