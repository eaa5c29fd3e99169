-- ===== src/Automation/Queue/Completing.antt =====
-- automation/persistence/store.py: what the end of a run writes.
use browser_cli.Prelude.{
  String, ℕ, Option, none, some, Bool, true, false, ◌≡◌, refl, sym, ap, ◌∙◌, string_eq,
  if◌then◌else◌,
}
use browser_cli.Dict.{lookup, lookup-insert_self}
use browser_cli.Automation.Records.{
  AutomationDefinition, AutomationRun, AutomationStore, Completion, answers,
}
use browser_cli.Automation.Creation.{get_run, put_run}
use browser_cli.Automation.Queue.{complete_run, completed_run, note_success}
use browser_cli.Automation.Queue.Claiming.{IsKeyed}

module _ {D P : Type 0} where
  -- The automation after one of its runs.
  abbrev pub with_success : ℕ → Bool → AutomationDefinition D P → AutomationDefinition D P
  with_success now true a = record a { last_run_at = some now; updated_at = some now }
  with_success now false a = a

  noted :
      (now : ℕ) (b : Bool) (automation_id : String) (a : AutomationDefinition D P)
      (s : AutomationStore D P)
      → lookup automation_id s.automations ≡ some a
      → lookup automation_id
          (if b
            then note_success now automation_id (lookup automation_id s.automations) s
            else s).automations
        ≡ some (with_success now b a)
  noted now true automation_id a s known =
      rw known (lookup-insert_self automation_id _ s.automations)
  noted now false automation_id a s known = known

  pub either_runs :
      (now : ℕ) (b : Bool) (automation_id : String) (o : Option (AutomationDefinition D P))
      (s : AutomationStore D P)
      → (if b then note_success now automation_id o s else s).automation_runs ≡ s.automation_runs
  either_runs now true automation_id none s = refl
  either_runs now true automation_id (some a) s = refl
  either_runs now false automation_id o s = refl

  -- The end of a run is written to it and answered, with its outcome and its errors; its automation
  -- notes the time if the run succeeded, and stays as it is if it failed.
  pub complete_run-lem :
      (now : ℕ) (run_id : String) (c : Completion P) (r : AutomationRun D P)
      (a : AutomationDefinition D P) (s : AutomationStore D P)
      → IsKeyed s
      → lookup run_id s.automation_runs ≡ some r
      → lookup r.automation_id s.automations ≡ some a
      → ((complete_run now run_id c s).0 ≡ answers (completed_run now c r))
        × (lookup r.automation_id (complete_run now run_id c s).1.automations
            ≡ some (with_success now c.succeeded a))
  unfolding complete_run get_run
  complete_run-lem now run_id c r a s w there known =
      let put = put_run (completed_run now c r) s in
      let same =
        either_runs now c.succeeded r.automation_id (lookup r.automation_id s.automations) put in
      let found : lookup run_id put.automation_runs ≡ some (completed_run now c r) =
        ap (λ i. lookup i put.automation_runs) (sym (w.keyed run_id r there))
        ∙ lookup-insert_self r.run_id (completed_run now c r) s.automation_runs in
      rw (complete_run, there)
        (rw (get_run, same, found) refl, noted now c.succeeded r.automation_id a put known)
