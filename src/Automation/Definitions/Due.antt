-- ===== src/Automation/Definitions/Due.antt =====
-- automation/persistence/store.py: the runs that fall due, and the next run of a definition.
use browser_cli.Prelude.{
  String, ℕ, List, [], ◌∷◌, Option, none, some, Bool, false, not, ◌&&◌, leb, string_eq,
  if◌then◌else◌,
}
use browser_cli.Prelude.Sort.{sort}
use browser_cli.Dict.{insert, values}
use browser_cli.Automation.Records.{
  AutomationDefinition, scheduled, AutomationRun, AutomationStore, StoreError, schedule_error,
  Answer, answers, raises,
}
use browser_cli.Automation.Schedule.{ZoneOperations, Outcome, gives, refuses, ScheduleError}
use browser_cli.Automation.Creation.{get_automation, create_run, has_pending_run}
use browser_cli.Automation.Definitions.{Host, is_manual, is_valid, kind_text, normalize_automation}

module _ {D P Z : Type 0} (host : Host D P) (zones : ZoneOperations Z) where
  unfoldable pub list_automations : AutomationStore D P → List (AutomationDefinition D P)
  list_automations s =
      sort (λ x y. host.before (x.name, x.id) (y.name, y.id)) (values s.automations)

  abbrev pub write_next :
      ℕ
      → String
      → AutomationDefinition D P
      → Outcome (AutomationDefinition D P)
      → AutomationStore D P
      → Option StoreError × AutomationStore D P
  write_next now automation_id a (refuses e) s = (some (schedule_error e), s)
  write_next now automation_id a (gives b) s = (
    none,
    record s {
      automations =
          insert automation_id (record a { next_run_at = b.next_run_at; updated_at = some now })
            s.automations;
    },
  )

  abbrev pub next_for :
      (ScheduleError → String)
      → ℕ
      → String
      → Answer (AutomationDefinition D P)
      → AutomationStore D P
      → Option StoreError × AutomationStore D P
  next_for show now automation_id (raises e) s = (some e, s)
  next_for show now automation_id (answers a) s =
      write_next now automation_id a
        (normalize_automation host zones show now (kind_text a.schedule_kind) a) s

  unfoldable pub update_next_run :
      (ScheduleError → String)
      → ℕ
      → String
      → AutomationStore D P
      → Option StoreError × AutomationStore D P
  update_next_run show now automation_id s =
      next_for show now automation_id (get_automation automation_id s) s

  abbrev pub has_come : ℕ → Option ℕ → Bool
  has_come now none = false
  has_come now (some t) = leb t now

  -- The tests of `enqueue_due_runs` on the definition that was listed.
  abbrev pub is_due : ℕ → AutomationDefinition D P → Bool
  is_due now a =
      a.enabled
      && is_valid a.definition_status
      && not (is_manual a.schedule_kind)
      && has_come now a.next_run_at

  abbrev pub raises_or : {A : Type 0} → Option StoreError → A → Answer A
  raises_or none a = answers a
  raises_or (some e) a = raises e

  abbrev pub then_update :
      (ScheduleError → String)
      → ℕ
      → String
      → Answer (AutomationRun D P) × AutomationStore D P
      → Answer String × AutomationStore D P
  then_update show now automation_id (raises e, s) = (raises e, s)
  then_update show now automation_id (answers r, s) =
      let (e, t) = update_next_run show now automation_id s in (raises_or e r.run_id, t)

  -- `run_id` is `uuid.uuid4().hex`.
  unfoldable pub enqueue_one :
      (ScheduleError → String)
      → ℕ
      → String
      → String
      → AutomationStore D P
      → Answer String × AutomationStore D P
  enqueue_one show now run_id automation_id s =
      then_update show now automation_id
        (create_run now run_id automation_id scheduled none 0 none s)

  abbrev pub with_first : String → Answer (List String) → Answer (List String)
  with_first run_id (raises e) = raises e
  with_first run_id (answers ids) = answers (run_id ∷ ids)

  abbrev pub queue_next :
      Answer String × AutomationStore D P
      → (AutomationStore D P → Answer (List String) × AutomationStore D P)
      → Answer (List String) × AutomationStore D P
  queue_next (raises e, s) rest = (raises e, s)
  queue_next (answers run_id, s) rest = let (ids, t) = rest s in (with_first run_id ids, t)

  -- The loop; `new_id` gives the run id that is made for an automation. An error ends it.
  unfoldable pub enqueue :
      (ScheduleError → String)
      → ℕ
      → (String → String)
      → List (AutomationDefinition D P)
      → AutomationStore D P
      → Answer (List String) × AutomationStore D P
  enqueue show now new_id [] s = (answers [], s)
  enqueue show now new_id (a ∷ rest) s =
      if is_due now a && not (has_pending_run a.id s)
      then queue_next (enqueue_one show now (new_id a.id) a.id s) (enqueue show now new_id rest)
      else enqueue show now new_id rest s

  unfoldable pub enqueue_due_runs :
      (ScheduleError → String)
      → ℕ
      → (String → String)
      → AutomationStore D P
      → Answer (List String) × AutomationStore D P
  enqueue_due_runs show now new_id s = enqueue show now new_id (list_automations s) s
