-- ===== src/Automation/Queue/Invariant.antt =====
-- automation/persistence/store.py: what the rows of the queue have in common between the calls.
use browser_cli.Prelude.{
  String, ℕ, ◌+◌, List, [], ◌∷◌, Option, none, some, Bool, true, false, ◌≡◌, inl, inr, refl, sym,
  ap, ◌∙◌, Option-cases, string_eq, if◌then◌else◌, arith,
}
use browser_cli.Dict.{lookup, insert-NodupKeys, insert-cases}
use browser_cli.Automation.Records.{
  AutomationDefinition, TriggerType, scheduled, RunState, queued, running, success, failed,
  AutomationRun, AutomationStore, Completion, Answer, answers, raises, DefinitionStatus, valid,
  invalid, retry,
}
use browser_cli.Automation.Rows.{is_queued, end_state}
use browser_cli.Automation.Creation.{
  get_automation, get_run, put_run, insert_run, new_run, create_run, create_for, insert_valid,
}
use browser_cli.Automation.Schedule.{ZoneOperations, ScheduleError}
use browser_cli.Automation.Definitions.{Host}
use browser_cli.Automation.Definitions.Kept.{
  upsert_automation-runs, set_enabled-runs, enqueue_due_runs-kept,
}
use browser_cli.Automation.Queue.{
  claim_next_run, claimed_run, complete_run, complete_row, completed_run, note_success, retry_run,
  retry_for, retry_source, retry_time,
}
use browser_cli.Automation.Queue.Requests.{
  Request, creates, claims, completes, retries, enqueues, upserts, enables, adds_event, step, run,
}
use browser_cli.Automation.Queue.Claiming.{IsKeyed, claim_next_run-TakesOldest}

-- When a run has its times, by its status.
abbrev pub HasTimes : RunState → Option ℕ → Option ℕ → Type 0
HasTimes queued started finished = (started ≡ none) × (finished ≡ none)
HasTimes running started finished = ((t : ℕ) × (started ≡ some t)) × (finished ≡ none)
HasTimes success started finished = (t : ℕ) × (finished ≡ some t)
HasTimes failed started finished = (t : ℕ) × (finished ≡ some t)

queued-HasTimes :
    (st : RunState) (a b : Option ℕ) → is_queued st ≡ true → HasTimes st a b → b ≡ none
queued-HasTimes queued a b _ (_, f) = f
queued-HasTimes running a b h _ = absurd (ground arith)
queued-HasTimes success a b h _ = absurd (ground arith)
queued-HasTimes failed a b h _ = absurd (ground arith)

end_state-HasTimes : (b : Bool) (now : ℕ) (a : Option ℕ) → HasTimes (end_state b) a (some now)
end_state-HasTimes true now a = (now, refl)
end_state-HasTimes false now a = (now, refl)

module _ {D P : Type 0} where
  pub record IsWf (s : AutomationStore D P) : Type 0 where
    pub keys : IsKeyed s
    pub times :
        (i : String) (r : AutomationRun D P)
        → lookup i s.automation_runs ≡ some r
        → HasTimes r.status r.started_at r.finished_at

  put_run-IsWf :
      (r : AutomationRun D P) (s : AutomationStore D P)
      → HasTimes r.status r.started_at r.finished_at
      → IsWf s
      → IsWf (put_run r s)
  put_run-IsWf r s ok w = record {
    keys = record {
      distinct = insert-NodupKeys r.run_id r s.automation_runs w.keys.distinct;
      keyed = λ i x h. elim (insert-cases i r.run_id r x s.automation_runs h) [
        | inl (e, f) ↦ ap (λ y. y.run_id) (sym f) ∙ sym e
        | inr (_, before) ↦ w.keys.keyed i x before
      ];
    };
    times = λ i x h. elim (insert-cases i r.run_id r x s.automation_runs h) [
      | inl (_, f) ↦ rw (sym f) ok
      | inr (_, before) ↦ w.times i x before
    ];
  }

  -- The tables of automations and of events are free.
  around-IsWf :
      (s t : AutomationStore D P) → s.automation_runs ≡ t.automation_runs → IsWf s → IsWf t
  around-IsWf s t e w = record {
    keys = record {
      distinct = rw (sym e) w.keys.distinct;
      keyed = λ i r h. w.keys.keyed i r (ap (lookup i) e ∙ h);
    };
    times = λ i r h. w.times i r (ap (lookup i) e ∙ h);
  }

  insert_run-IsWf :
      (now : ℕ) (r : AutomationRun D P) (s : AutomationStore D P)
      → HasTimes r.status r.started_at r.finished_at
      → IsWf s
      → IsWf (insert_run now r s).1
  unfolding insert_run
  insert_run-IsWf now r s ok w = elim (Option-cases (lookup r.run_id s.automation_runs)) [
    | inr (y, e) ↦ rw (insert_run, e) w
    | inl e ↦ rw (insert_run, e) (around-IsWf (put_run r s) _ refl (put_run-IsWf r s ok w))
  ]

  insert_valid-IsWf :
      (now : ℕ) (r : AutomationRun D P) (d : DefinitionStatus) (a : AutomationDefinition D P)
      (s : AutomationStore D P)
      → HasTimes r.status r.started_at r.finished_at
      → IsWf s
      → IsWf (insert_valid now r d a s).1
  insert_valid-IsWf now r valid a s ok w = insert_run-IsWf now r s ok w
  insert_valid-IsWf now r invalid a s ok w = w

  create_for-IsWf :
      (now : ℕ) (run_id : String) (t : TriggerType) (inputs : Option D) (attempt : ℕ)
      (at_time : Option ℕ) (x : Answer (AutomationDefinition D P)) (s : AutomationStore D P)
      → IsWf s
      → IsWf (create_for now run_id t inputs attempt at_time x s).1
  create_for-IsWf now run_id t inputs attempt at_time (raises e) s w = w
  create_for-IsWf now run_id t inputs attempt at_time (answers a) s w =
      insert_valid-IsWf now (new_run now run_id t inputs attempt at_time a) a.definition_status a s
        (refl, refl) w

  retry_for-IsWf :
      (now : ℕ) (new_id : String) (r : AutomationRun D P) (x : Answer (AutomationDefinition D P))
      (s : AutomationStore D P)
      → IsWf s
      → IsWf (retry_for now new_id r x s).1
  unfolding create_run
  retry_for-IsWf now new_id r (raises e) s w = w
  retry_for-IsWf now new_id r (answers a) s w =
      create_for-IsWf now new_id retry (some r.effective_inputs) (r.attempt_number + 1)
        (some (retry_time now a)) (get_automation r.automation_id s) s w

  retry_source-IsWf :
      (now : ℕ) (new_id : String) (x : Answer (AutomationRun D P)) (s : AutomationStore D P)
      → IsWf s
      → IsWf (retry_source now new_id x s).1
  retry_source-IsWf now new_id (raises e) s w = w
  retry_source-IsWf now new_id (answers r) s w =
      retry_for-IsWf now new_id r (get_automation r.automation_id s) s w

  pub claim_next_run-IsWf :
      (now : ℕ) (s : AutomationStore D P) → IsWf s → IsWf (claim_next_run now s).1
  claim_next_run-IsWf now s w = elim (claim_next_run-TakesOldest now s w.keys) [
    | inl (_, e) ↦ rw e w
    | inr (r, ((there, due), _), e) ↦
        let f = queued-HasTimes r.status _ _ (ground arith) (w.times _ r there) in
        rw e (
          around-IsWf (put_run (claimed_run now r) s) _ refl
            (put_run-IsWf (claimed_run now r) s ((now, refl), f) w))
  ]

  note_success-runs :
      (now : ℕ) (automation_id : String) (o : Option (AutomationDefinition D P))
      (s : AutomationStore D P)
      → s.automation_runs ≡ (note_success now automation_id o s).automation_runs
  note_success-runs now automation_id none s = refl
  note_success-runs now automation_id (some a) s = refl

  either-IsWf : (b : Bool) (s t : AutomationStore D P) → IsWf s → IsWf t → IsWf (if b then s else t)
  either-IsWf true s t v w = v
  either-IsWf false s t v w = w

  complete_row-IsWf :
      (now : ℕ) (c : Completion P) (o : Option (AutomationRun D P)) (s : AutomationStore D P)
      → IsWf s
      → IsWf (complete_row now c o s)
  complete_row-IsWf now c none s w = w
  complete_row-IsWf now c (some r) s w =
      let done = put_run-IsWf (completed_run now c r) s (end_state-HasTimes c.succeeded now _) w in
      either-IsWf c.succeeded _ _ (around-IsWf _ _ (note_success-runs now r.automation_id _ _) done)
        done

module _ {D P Z : Type 0} (host : Host D P) (zones : ZoneOperations Z)
    (show : ScheduleError → String) where
  step-IsWf : (x : Request D P) (s : AutomationStore D P) → IsWf s → IsWf (step host zones show x s)
  unfolding step create_run complete_run retry_run
  step-IsWf (creates now run_id automation_id t inputs attempt at_time) s w =
      create_for-IsWf now run_id t inputs attempt at_time (get_automation automation_id s) s w
  step-IsWf (claims now) s w = claim_next_run-IsWf now s w
  step-IsWf (completes now run_id c) s w =
      around-IsWf _ _ refl (complete_row-IsWf now c (lookup run_id s.automation_runs) s w)
  step-IsWf (retries now new_id run_id) s w = retry_source-IsWf now new_id (get_run run_id s) s w
  step-IsWf (enqueues now new_id) s w =
      enqueue_due_runs-kept host zones show now IsWf around-IsWf
        (λ run_id automation_id u.
          create_for-IsWf now run_id scheduled none 0 none (get_automation automation_id u) u)
        new_id s w
  step-IsWf (upserts now kind a) s w =
      around-IsWf s _ (sym (upsert_automation-runs host zones show now kind a s)) w
  step-IsWf (enables now automation_id enabled) s w =
      around-IsWf s _ (sym (set_enabled-runs host zones show now automation_id enabled s)) w
  step-IsWf (adds_event event) s w = around-IsWf s _ refl w

  -- Every sequence of the calls that change the store, on runs and on definitions, keeps the rows
  -- well-formed: each run stands once, under its own id, and a
  -- run that is queued has neither time, one that is running its start only, one that is over its end.
  pub run-IsWf :
      (xs : List (Request D P)) (s : AutomationStore D P) → IsWf s → IsWf (run host zones show xs s)
  unfolding run
  run-IsWf [] s w = w
  run-IsWf (x ∷ xs) s w = run-IsWf xs (step host zones show x s) (step-IsWf x s w)
