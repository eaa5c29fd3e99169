-- ===== src/Automation/Definitions/Pending.antt =====
-- automation/persistence/store.py: `enqueue_due_runs` and the runs that wait or run.
use browser_cli.Prelude.{
  String, ℕ, List, [], ◌∷◌, none, some, false, not, ◌&&◌, string_eq, ◌≡◌, refl, sym, ap, ◌∙◌, inl,
  inr, Bool-cases, Option-cases, arith,
}
use browser_cli.Dict.{lookup, insert-cases}
use browser_cli.Automation.Records.{
  AutomationDefinition, scheduled, AutomationRun, AutomationStore, Answer, answers, raises,
}
use browser_cli.Automation.Schedule.{ZoneOperations, Outcome, gives, refuses, ScheduleError}
use browser_cli.Automation.Creation.{get_automation, create_run, has_pending_run}
use browser_cli.Automation.Definitions.{Host, normalize_automation, kind_text}
use browser_cli.Automation.Definitions.Due.{
  write_next, update_next_run, is_due, then_update, enqueue_one, queue_next, enqueue,
  enqueue_due_runs, list_automations,
}
use browser_cli.Automation.Definitions.Added.{
  pending, AddsOnce, HasIds, none_pending, AddsOnce-trans, create_run-AddsOnce, Keeps, Keeps-refl,
  create_run-automations,
}

module _ {D P Z : Type 0} (host : Host D P) (zones : ZoneOperations Z)
    (show : ScheduleError → String) (now : ℕ) where
  pub update_next_run-Keeps :
      (automation_id : String) (s : AutomationStore D P)
      → Keeps s (update_next_run host zones show now automation_id s).1
  unfolding update_next_run get_automation
  update_next_run-Keeps automation_id s = elim (Option-cases (lookup automation_id s.automations)) [
    | inl e ↦ rw (update_next_run, get_automation, e) (Keeps-refl s)
    | inr (a, e) ↦
        rw (update_next_run, get_automation, e)
          (written a e (normalize_automation host zones show now (kind_text a.schedule_kind) a))
  ]
    where
      written :
          (a : AutomationDefinition D P)
          → lookup automation_id s.automations ≡ some a
          → (x : Outcome (AutomationDefinition D P))
          → Keeps s (write_next host zones now automation_id a x s).1
      written a e (refuses err) = Keeps-refl s
      written a e (gives b) = record {
        runs = refl;
        ids = λ h j x there. elim (insert-cases j automation_id _ x s.automations there) [
          | inl (same, is) ↦ ap (λ y. y.id) (sym is) ∙ h automation_id a e ∙ sym same
          | inr (_, before) ↦ h j x before
        ];
      }

  -- What the loop keeps of the store that it began with.
  abbrev IsKept : String → AutomationStore D P → AutomationStore D P → Type 0
  IsKept i s t = AddsOnce i s t × HasIds t

  then_update-IsKept :
      (i automation_id : String) (s : AutomationStore D P) (x : Answer (AutomationRun D P))
      (t : AutomationStore D P)
      → IsKept i s t
      → IsKept i s (then_update host zones show now automation_id (x, t)).1
  then_update-IsKept i automation_id s (raises e) t h = h
  then_update-IsKept i automation_id s (answers r) t (once, ids) =
      let k = update_next_run-Keeps automation_id t in (rw (k.runs) once, k.ids ids)

  enqueue_one-IsKept :
      (i run_id automation_id : String) (s : AutomationStore D P)
      → HasIds s
      → has_pending_run automation_id s ≡ false
      → IsKept i s (enqueue_one host zones show now run_id automation_id s).1
  unfolding enqueue_one has_pending_run
  enqueue_one-IsKept i run_id automation_id s ids free =
      let made = create_run now run_id automation_id scheduled none 0 none s in
      then_update-IsKept i automation_id s made.0 made.1 (
        create_run-AddsOnce i now run_id automation_id s ids
            (λ e. ap (λ x. pending x s) (sym e) ∙ none_pending automation_id s free),
        λ j a there.
            ids j a
              (ap (lookup j) (sym (create_run-automations now run_id automation_id s)) ∙ there),
      )

  queue_next-IsKept :
      (i : String) (s : AutomationStore D P) (x : Answer String) (t : AutomationStore D P)
      (rest : AutomationStore D P → Answer (List String) × AutomationStore D P)
      → IsKept i s t
      → ((u : AutomationStore D P) → HasIds u → IsKept i u (rest u).1)
      → IsKept i s (queue_next host zones (x, t) rest).1
  queue_next-IsKept i s (raises e) t rest h each = h
  queue_next-IsKept i s (answers r) t rest (once, ids) each =
      let (more, ids') = each t ids in (AddsOnce-trans i s t (rest t).1 once more, ids')

  enqueue-IsKept :
      (i : String) (new_id : String → String) (listed : List (AutomationDefinition D P))
      (s : AutomationStore D P)
      → HasIds s
      → IsKept i s (enqueue host zones show now new_id listed s).1
  unfolding enqueue
  enqueue-IsKept i new_id [] s ids = (inl refl, ids)
  enqueue-IsKept i new_id (a ∷ rest) s ids =
      elim (Bool-cases (is_due host zones now a && not (has_pending_run a.id s))) [
        | inr e ↦ rw e (enqueue-IsKept i new_id rest s ids)
        | inl e ↦
            let one = enqueue_one host zones show now (new_id a.id) a.id s in
            rw e (
              queue_next-IsKept i s one.0 one.1 (enqueue host zones show now new_id rest)
                (enqueue_one-IsKept i (new_id a.id) a.id s ids (ground arith))
                (enqueue-IsKept i new_id rest))
      ]

  -- Queueing the due runs, even where an error ends it, gives no automation more than one new pending
  -- run, and a new one only where none was queued or running; the definitions keep their ids.
  pub enqueue_due_runs_once :
      (i : String) (new_id : String → String) (s : AutomationStore D P)
      → HasIds s
      → AddsOnce i s (enqueue_due_runs host zones show now new_id s).1
        × HasIds (enqueue_due_runs host zones show now new_id s).1
  unfolding enqueue_due_runs
  enqueue_due_runs_once i new_id s ids =
      enqueue-IsKept i new_id (list_automations host zones s) s ids
