-- ===== src/Automation/Queue/Started.antt =====
-- automation/persistence/store.py: the runs that have left the queue.
use browser_cli.Prelude.{
  String, ℕ, ◌+◌, List, [], ◌∷◌, Option, none, some, Bool, true, false, ◌≡◌, ◌≢◌, ◌⊎◌, inl, inr,
  refl, sym, ap, ◌∙◌, Option-cases, string_eq, if◌then◌else◌, arith,
}
use browser_cli.Dict.{lookup, lookup-insert_self, lookup-insert_ne}
use browser_cli.Automation.Records.{
  AutomationDefinition, TriggerType, scheduled, AutomationRun, AutomationStore, Completion, Answer,
  answers, raises, valid, invalid, retry, DefinitionStatus,
}
use browser_cli.Automation.Rows.{is_queued, end_state}
use browser_cli.Automation.Schedule.{ZoneOperations, ScheduleError}
use browser_cli.Automation.Creation.{
  get_automation, get_run, put_run, insert_run, new_run, create_run, create_for, insert_valid,
}
use browser_cli.Automation.Definitions.{Host, upsert_automation, set_enabled}
use browser_cli.Automation.Definitions.Kept.{
  upsert_automation-runs, set_enabled-runs, enqueue_due_runs-kept,
}
use browser_cli.Automation.Queue.{
  claim_next_run, claim_row, claimed_run, next_queued, complete_run, complete_row, completed_run,
  note_success, retry_run, retry_for, retry_source, retry_time,
}
use browser_cli.Automation.Queue.Requests.{
  Request, creates, claims, completes, retries, enqueues, upserts, enables, adds_event, step, run,
}

end_state-started : (b : Bool) → is_queued (end_state b) ≡ false
end_state-started true = refl
end_state-started false = refl

module _ {D P : Type 0} where
  -- The run is there and is past the queue.
  abbrev pub IsStarted : String → AutomationStore D P → Type 0
  IsStarted i s =
      (r : AutomationRun D P) × (lookup i s.automation_runs ≡ some r) × (is_queued r.status ≡ false)

  put_run-IsStarted :
      (i : String) (r : AutomationRun D P) (s : AutomationStore D P)
      → (i ≢ r.run_id) ⊎ (is_queued r.status ≡ false)
      → IsStarted i s
      → IsStarted i (put_run r s)
  put_run-IsStarted i r s ok (x, there, past) = elim (string_eq.dec i r.run_id) [
    | yes e ↦ elim ok [
      | inl n ↦ absurd (n e)
      | inr over ↦ (r, rw e (lookup-insert_self r.run_id r s.automation_runs), over)
    ]
    | no n ↦ (x, lookup-insert_ne i r.run_id r s.automation_runs n ∙ there, past)
  ]

  insert_run-IsStarted :
      (i : String) (now : ℕ) (r : AutomationRun D P) (s : AutomationStore D P)
      → IsStarted i s
      → IsStarted i (insert_run now r s).1
  unfolding insert_run
  insert_run-IsStarted i now r s (x, there, past) =
      elim (Option-cases (lookup r.run_id s.automation_runs)) [
        | inr (y, e) ↦ rw (insert_run, e) (x, there, past)
        | inl e ↦
            rw (insert_run, e)
              (put_run-IsStarted i r s
                (inl (λ same.
                  let same_place = ap (λ k. lookup k s.automation_runs) same in
                  absurd (ground (arith))))
                (x, there, past))
      ]

  insert_valid-IsStarted :
      (i : String) (now : ℕ) (r : AutomationRun D P) (d : DefinitionStatus)
      (a : AutomationDefinition D P) (s : AutomationStore D P)
      → IsStarted i s
      → IsStarted i (insert_valid now r d a s).1
  insert_valid-IsStarted i now r valid a s h = insert_run-IsStarted i now r s h
  insert_valid-IsStarted i now r invalid a s h = h

  create_for-IsStarted :
      (i : String) (now : ℕ) (run_id : String) (t : TriggerType) (inputs : Option D) (attempt : ℕ)
      (at_time : Option ℕ) (x : Answer (AutomationDefinition D P)) (s : AutomationStore D P)
      → IsStarted i s
      → IsStarted i (create_for now run_id t inputs attempt at_time x s).1
  create_for-IsStarted i now run_id t inputs attempt at_time (raises e) s h = h
  create_for-IsStarted i now run_id t inputs attempt at_time (answers a) s h =
      insert_valid-IsStarted i now (new_run now run_id t inputs attempt at_time a)
        a.definition_status a s h

  retry_for-IsStarted :
      (i : String) (now : ℕ) (new_id : String) (r : AutomationRun D P)
      (x : Answer (AutomationDefinition D P)) (s : AutomationStore D P)
      → IsStarted i s
      → IsStarted i (retry_for now new_id r x s).1
  unfolding create_run
  retry_for-IsStarted i now new_id r (raises e) s h = h
  retry_for-IsStarted i now new_id r (answers a) s h =
      create_for-IsStarted i now new_id retry (some r.effective_inputs) (r.attempt_number + 1)
        (some (retry_time now a)) (get_automation r.automation_id s) s h

  retry_source-IsStarted :
      (i : String) (now : ℕ) (new_id : String) (x : Answer (AutomationRun D P))
      (s : AutomationStore D P)
      → IsStarted i s
      → IsStarted i (retry_source now new_id x s).1
  retry_source-IsStarted i now new_id (raises e) s h = h
  retry_source-IsStarted i now new_id (answers r) s h =
      retry_for-IsStarted i now new_id r (get_automation r.automation_id s) s h

  claim_row-IsStarted :
      (i : String) (now : ℕ) (o : Option (AutomationRun D P)) (s : AutomationStore D P)
      → IsStarted i s
      → IsStarted i (claim_row now o s).1
  claim_row-IsStarted i now none s h = h
  claim_row-IsStarted i now (some r) s h = put_run-IsStarted i (claimed_run now r) s (inr refl) h

  note_success-IsStarted :
      (i : String) (now : ℕ) (automation_id : String) (o : Option (AutomationDefinition D P))
      (s : AutomationStore D P)
      → IsStarted i s
      → IsStarted i (note_success now automation_id o s)
  note_success-IsStarted i now automation_id none s h = h
  note_success-IsStarted i now automation_id (some a) s h = h

  either-IsStarted :
      (i : String) (b : Bool) (s t : AutomationStore D P)
      → IsStarted i s
      → IsStarted i t
      → IsStarted i (if b then s else t)
  either-IsStarted i true s t h k = h
  either-IsStarted i false s t h k = k

  complete_row-IsStarted :
      (i : String) (now : ℕ) (c : Completion P) (o : Option (AutomationRun D P))
      (s : AutomationStore D P)
      → IsStarted i s
      → IsStarted i (complete_row now c o s)
  complete_row-IsStarted i now c none s h = h
  complete_row-IsStarted i now c (some r) s h =
      let done =
        put_run-IsStarted i (completed_run now c r) s (inr (end_state-started c.succeeded)) h in
      either-IsStarted i c.succeeded _ _ (note_success-IsStarted i now r.automation_id _ _ done)
        done

  around-IsStarted :
      (i : String) (s t : AutomationStore D P)
      → s.automation_runs ≡ t.automation_runs
      → IsStarted i s
      → IsStarted i t
  around-IsStarted i s t e (x, there, past) = (x, ap (lookup i) (sym e) ∙ there, past)

module _ {D P Z : Type 0} (host : Host D P) (zones : ZoneOperations Z)
    (show : ScheduleError → String) where
  step-IsStarted :
      (i : String) (x : Request D P) (s : AutomationStore D P)
      → IsStarted i s
      → IsStarted i (step host zones show x s)
  unfolding step create_run claim_next_run complete_run retry_run
  step-IsStarted i (creates now run_id automation_id t inputs attempt at_time) s h =
      create_for-IsStarted i now run_id t inputs attempt at_time (get_automation automation_id s) s
        h
  step-IsStarted i (claims now) s h = claim_row-IsStarted i now (next_queued now s) s h
  step-IsStarted i (completes now run_id c) s h =
      complete_row-IsStarted i now c (lookup run_id s.automation_runs) s h
  step-IsStarted i (retries now new_id run_id) s h =
      retry_source-IsStarted i now new_id (get_run run_id s) s h
  step-IsStarted i (enqueues now new_id) s h =
      enqueue_due_runs-kept host zones show now (IsStarted i) (around-IsStarted i)
        (λ run_id automation_id u.
          create_for-IsStarted i now run_id scheduled none 0 none (get_automation automation_id u)
            u)
        new_id s h
  step-IsStarted i (upserts now kind a) s h =
      around-IsStarted i s (upsert_automation host zones show now kind a s).1
        (sym (upsert_automation-runs host zones show now kind a s)) h
  step-IsStarted i (enables now automation_id enabled) s h =
      around-IsStarted i s (set_enabled host zones show now automation_id enabled s).1
        (sym (set_enabled-runs host zones show now automation_id enabled s)) h
  step-IsStarted i (adds_event event) s h = h

  -- A run that has left the queue never comes back to it.
  pub run-IsStarted :
      (i : String) (xs : List (Request D P)) (s : AutomationStore D P)
      → IsStarted i s
      → IsStarted i (run host zones show xs s)
  unfolding run
  run-IsStarted i [] s h = h
  run-IsStarted i (x ∷ xs) s h =
      run-IsStarted i xs (step host zones show x s) (step-IsStarted i x s h)
