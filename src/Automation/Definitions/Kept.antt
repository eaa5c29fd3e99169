-- ===== src/Automation/Definitions/Kept.antt =====
-- automation/persistence/store.py: the methods on definitions, and what is kept by all that leaves the
-- runs as they are.
use browser_cli.Prelude.{
  String, ℕ, List, [], ◌∷◌, none, not, ◌&&◌, Bool, ◌≡◌, refl, sym, inl, inr, Bool-cases,
}
use browser_cli.Automation.Records.{
  AutomationDefinition, scheduled, AutomationRun, AutomationStore, Answer, answers, raises,
}
use browser_cli.Automation.Schedule.{ZoneOperations, Outcome, gives, refuses, ScheduleError}
use browser_cli.Automation.Creation.{get_automation, create_run, has_pending_run}
use browser_cli.Automation.Definitions.{
  Host, normalize_automation, upsert_normalized, upsert_automation, enable, set_enabled, kind_text,
}
use browser_cli.Automation.Definitions.Due.{
  then_update, enqueue_one, queue_next, enqueue, enqueue_due_runs, is_due, list_automations,
}
use browser_cli.Automation.Definitions.Pending.{update_next_run-Keeps}

module _ {D P Z : Type 0} (host : Host D P) (zones : ZoneOperations Z)
    (show : ScheduleError → String) (now : ℕ) where
  upsert_normalized-runs :
      (x : Outcome (AutomationDefinition D P)) (s : AutomationStore D P)
      → (upsert_normalized host zones now x s).1.automation_runs ≡ s.automation_runs
  upsert_normalized-runs (refuses e) s = refl
  upsert_normalized-runs (gives a) s = refl

  pub upsert_automation-runs :
      (kind : String) (a : AutomationDefinition D P) (s : AutomationStore D P)
      → (upsert_automation host zones show now kind a s).1.automation_runs ≡ s.automation_runs
  unfolding upsert_automation
  upsert_automation-runs kind a s =
      upsert_normalized-runs (normalize_automation host zones show now kind a) s

  enable-runs :
      (enabled : Bool) (x : Answer (AutomationDefinition D P)) (s : AutomationStore D P)
      → (enable host zones show now enabled x s).1.automation_runs ≡ s.automation_runs
  enable-runs enabled (raises e) s = refl
  enable-runs enabled (answers a) s =
      upsert_automation-runs (kind_text a.schedule_kind) (record a { enabled = enabled }) s

  pub set_enabled-runs :
      (automation_id : String) (enabled : Bool) (s : AutomationStore D P)
      → (set_enabled host zones show now automation_id enabled s).1.automation_runs
        ≡ s.automation_runs
  unfolding set_enabled
  set_enabled-runs automation_id enabled s = enable-runs enabled (get_automation automation_id s) s

  -- `Q` is a property of the runs, which a new run of the schedule keeps.
  module _ (Q : AutomationStore D P → Type 0)
      (around : (s t : AutomationStore D P) → s.automation_runs ≡ t.automation_runs → Q s → Q t)
      (created : (run_id automation_id : String) (s : AutomationStore D P)
        → Q s
        → Q (create_run now run_id automation_id scheduled none 0 none s).1) where
    then_update-kept :
        (automation_id : String) (x : Answer (AutomationRun D P)) (t : AutomationStore D P)
        → Q t
        → Q (then_update host zones show now automation_id (x, t)).1
    then_update-kept automation_id (raises e) t q = q
    then_update-kept automation_id (answers r) t q =
        around t _ (sym (update_next_run-Keeps host zones show now automation_id t).runs) q

    enqueue_one-kept :
        (run_id automation_id : String) (s : AutomationStore D P)
        → Q s
        → Q (enqueue_one host zones show now run_id automation_id s).1
    unfolding enqueue_one
    enqueue_one-kept run_id automation_id s q =
        let made = create_run now run_id automation_id scheduled none 0 none s in
        then_update-kept automation_id made.0 made.1 (created run_id automation_id s q)

    queue_next-kept :
        (x : Answer String) (t : AutomationStore D P)
        (rest : AutomationStore D P → Answer (List String) × AutomationStore D P)
        → Q t
        → ((u : AutomationStore D P) → Q u → Q (rest u).1)
        → Q (queue_next host zones (x, t) rest).1
    queue_next-kept (raises e) t rest q each = q
    queue_next-kept (answers r) t rest q each = each t q

    enqueue-kept :
        (new_id : String → String) (listed : List (AutomationDefinition D P))
        (s : AutomationStore D P)
        → Q s
        → Q (enqueue host zones show now new_id listed s).1
    unfolding enqueue
    enqueue-kept new_id [] s q = q
    enqueue-kept new_id (a ∷ rest) s q =
        elim (Bool-cases (is_due host zones now a && not (has_pending_run a.id s))) [
          | inr e ↦ rw e (enqueue-kept new_id rest s q)
          | inl e ↦
              let one = enqueue_one host zones show now (new_id a.id) a.id s in
              rw e (
                queue_next-kept one.0 one.1 (enqueue host zones show now new_id rest)
                  (enqueue_one-kept (new_id a.id) a.id s q) (enqueue-kept new_id rest))
        ]

    pub enqueue_due_runs-kept :
        (new_id : String → String) (s : AutomationStore D P)
        → Q s
        → Q (enqueue_due_runs host zones show now new_id s).1
    unfolding enqueue_due_runs
    enqueue_due_runs-kept new_id s q = enqueue-kept new_id (list_automations host zones s) s q
