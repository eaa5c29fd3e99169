-- ===== src/Automation/Queue/Requests.antt =====
-- automation/persistence/store.py: sequences of the calls that change the store.
use browser_cli.Prelude.{String, ℕ, List, [], ◌∷◌, Option, Bool}
use browser_cli.Automation.Records.{
  AutomationDefinition, TriggerType, AutomationRunEvent, AutomationStore, Completion,
}
use browser_cli.Automation.Schedule.{ZoneOperations, ScheduleError}
use browser_cli.Automation.Creation.{create_run, add_run_event}
use browser_cli.Automation.Definitions.{Host, upsert_automation, set_enabled}
use browser_cli.Automation.Definitions.Due.{enqueue_due_runs}
use browser_cli.Automation.Queue.{claim_next_run, complete_run, retry_run}

-- The calls of the API server, of the scheduler and of the executor.
pub data Request (D P : Type 0) : Type 0 where
  creates : ℕ → String → String → TriggerType → Option D → ℕ → Option ℕ → Request D P
  claims : ℕ → Request D P
  completes : ℕ → String → Completion P → Request D P
  retries : ℕ → String → String → Request D P
  enqueues : ℕ → (String → String) → Request D P
  upserts : ℕ → String → AutomationDefinition D P → Request D P
  enables : ℕ → String → Bool → Request D P
  adds_event : AutomationRunEvent → Request D P

module _ {D P Z : Type 0} (host : Host D P) (zones : ZoneOperations Z)
    (show : ScheduleError → String) where
  unfoldable pub step : Request D P → AutomationStore D P → AutomationStore D P
  step (creates now run_id automation_id trigger_type inputs attempt queued_at) s =
      (create_run now run_id automation_id trigger_type inputs attempt queued_at s).1
  step (claims now) s = (claim_next_run now s).1
  step (completes now run_id c) s = (complete_run now run_id c s).1
  step (retries now new_id run_id) s = (retry_run now new_id run_id s).1
  step (enqueues now new_id) s = (enqueue_due_runs host zones show now new_id s).1
  step (upserts now kind a) s = (upsert_automation host zones show now kind a s).1
  step (enables now automation_id enabled) s =
      (set_enabled host zones show now automation_id enabled s).1
  step (adds_event event) s = add_run_event event s

  unfoldable pub run : List (Request D P) → AutomationStore D P → AutomationStore D P
  run [] s = s
  run (x ∷ xs) s = run xs (step x s)
