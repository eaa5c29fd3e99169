-- ===== src/Automation/Service/Endings.antt =====
-- How the execution of a run ends.
use browser_cli.Prelude.{
  String, ℕ, ltb, Option, none, some, string_eq, if◌then◌else◌, ◌≡◌, ◌≢◌, refl, sym, ap, ◌∙◌, inl,
  inr, Bool-cases, arith,
}
use browser_cli.Dict.{lookup, insert, lookup-insert_self, lookup-insert_ne}
use browser_cli.Automation.Records.{
  AutomationDefinition, AutomationRun, AutomationStore, Completion, Answer, answers, raises, valid,
}
use browser_cli.Automation.Creation.{get_run, get_automation, put_run, add_run_event}
use browser_cli.Automation.Queue.{complete_run, completed_run, retry_run}
use browser_cli.Automation.Queue.Claiming.{IsKeyed}
use browser_cli.Automation.Queue.Completing.{complete_run-lem, either_runs}
use browser_cli.Automation.Queue.Outcomes.{retried, retried-IsRetry, retry_run-kept}
use browser_cli.Automation.Service.Ends.{
  IsTimeout, is_late, FailsBy, FailsWith, IsEnded, by_success, by_failure, with_retry, IsOutcome,
  work-IsOutcome,
}
use browser_cli.Automation.Service.{
  Failure, timed_out, operation_failed, other_failure, Stage, Execution, work, completion_of,
  directory, note_timeout, wants_retry, note_retry, finish_run, with_log, with_directory,
  execute_run, event, daemon_event, is_timeout,
}

module _ {D P : Type 0} where
  complete_run-runs :
      (now : ℕ) (run_id : String) (c : Completion P) (r : AutomationRun D P)
      (s : AutomationStore D P)
      → lookup run_id s.automation_runs ≡ some r
      → (complete_run now run_id c s).1.automation_runs
        ≡ insert r.run_id (completed_run now c r) s.automation_runs
  unfolding complete_run
  complete_run-runs now run_id c r s there =
      rw (complete_run, there)
        (either_runs now c.succeeded r.automation_id _ (put_run (completed_run now c r) s))

module _ {D P : Type 0} (x : Execution P) (run_id : String) (a : AutomationDefinition D P)
    (r : AutomationRun D P) where
  abbrev EndedAs : Option (Stage × Failure) → AutomationStore D P → Type 0
  EndedAs o t =
      (lookup run_id t.automation_runs
        ≡ some (completed_run x.now (completion_of x (directory x a r) o) r))
      × (lookup x.new_id t.automation_runs
          ≡ (if wants_retry x a r o then some (retried x.now x.new_id r a) else none))

  -- The run and its automation are there, a retry would be accepted and its id is new.
  record IsReady (s : AutomationStore D P) : Type 0 where
    keys : IsKeyed s
    there : lookup run_id s.automation_runs ≡ some r
    known : lookup r.automation_id s.automations ≡ some a
    accepted : a.definition_status ≡ valid
    fresh : lookup x.new_id s.automation_runs ≡ none

  abbrev after : Option (Stage × Failure) → AutomationStore D P → AutomationStore D P
  after o s = (complete_run x.now run_id (completion_of x (directory x a r) o) s).1

  abbrev ended : Option (Stage × Failure) → AutomationRun D P
  ended o = completed_run x.now (completion_of x (directory x a r) o) r

  after-ended :
      (o : Option (Stage × Failure)) (s : AutomationStore D P)
      → IsReady s
      → lookup run_id (after o s).automation_runs ≡ some (ended o)
  after-ended o s ready =
      ap (lookup run_id) (complete_run-runs x.now run_id _ r s ready.there)
      ∙ ap (λ i. lookup i (insert r.run_id (ended o) s.automation_runs))
          (sym (ready.keys.keyed run_id r ready.there))
      ∙ lookup-insert_self r.run_id (ended o) s.automation_runs

  after-fresh :
      (o : Option (Stage × Failure)) (s : AutomationStore D P)
      → IsReady s
      → lookup x.new_id (after o s).automation_runs ≡ none
  after-fresh o s ready =
      let other : x.new_id ≢ r.run_id = λ e.
        let same =
          ap (λ i. lookup i s.automation_runs) (e ∙ ready.keys.keyed run_id r ready.there) in
        let clash = sym ready.fresh ∙ same ∙ ready.there in absurd (ground arith) in
      ap (lookup x.new_id) (complete_run-runs x.now run_id _ r s ready.there)
      ∙ lookup-insert_ne x.new_id r.run_id (ended o) s.automation_runs other
      ∙ ready.fresh

  note_retry-runs :
      (y : Answer (AutomationRun D P) × AutomationStore D P)
      → (note_retry x run_id y).1.automation_runs ≡ y.1.automation_runs
  note_retry-runs (raises e, s) = refl
  note_retry-runs (answers r', s) = refl

  finish-ended :
      (o : Option (Stage × Failure)) (s : AutomationStore D P)
      → IsReady s
      → EndedAs o
          (if wants_retry x a r o
            then note_retry x run_id (retry_run x.now x.new_id run_id (after o s))
            else (none, after o s)).1
  finish-ended none s ready = (after-ended none s ready, after-fresh none s ready)
  finish-ended (some (stage, e)) s ready =
      let o = some (stage, e) in
      let done = after o s in
      let there = after-ended o s ready in
      let fresh = after-fresh o s ready in
      elim (Bool-cases (wants_retry x a r o)) [
        | inr w ↦ rw w (there, fresh)
        | inl w ↦
            let known =
              (complete_run-lem x.now run_id _ r a s ready.keys ready.there ready.known).1 in
            let (_, new, kept) =
              retry_run-kept x.now x.new_id run_id (ended o) a done there known ready.accepted
                fresh in
            let runs = note_retry-runs (retry_run x.now x.new_id run_id done) in
            rw w (ap (lookup run_id) runs ∙ kept, ap (lookup x.new_id) runs ∙ new)
      ]

  note_timeout-IsReady :
      (o : Option (Stage × Failure)) (s : AutomationStore D P)
      → IsReady s
      → IsReady (note_timeout x run_id o s)
  note_timeout-IsReady none s ready = ready
  note_timeout-IsReady (some (stage, e)) s ready = elim (Bool-cases (is_timeout e)) [
    | inl t ↦ rw t (record {
      keys = record { distinct = ready.keys.distinct; keyed = ready.keys.keyed };
      there = ready.there;
      known = ready.known;
      accepted = ready.accepted;
      fresh = ready.fresh;
    })
    | inr t ↦ rw t ready
  ]

  repeated :
      (q : AutomationRun D P) (e : Failure) (t : AutomationStore D P)
      → FailsBy x e
      → lookup run_id t.automation_runs ≡ some q
      → FailsWith x e q
      → ¬ IsTimeout e
      → lookup x.new_id t.automation_runs ≡ (
          if ltb r.attempt_number a.retry_attempts then some (retried x.now x.new_id r a) else none)
      → IsEnded x run_id a r t
  repeated q e t fails there with_error other new =
      elim (Bool-cases (ltb r.attempt_number a.retry_attempts)) [
        | inl left ↦
            let new' = rw left at new in
            with_retry q (retried x.now x.new_id r a) e fails there with_error other (ground arith)
              new' (retried-IsRetry x.now x.new_id r a)
        | inr used ↦
            let new' = rw used at new in
            by_failure q e fails there with_error (inr (ground arith)) new'
      ]

  EndedAs-IsEnded :
      (o : Option (Stage × Failure)) (t : AutomationStore D P)
      → IsOutcome x o
      → EndedAs o t
      → IsEnded x run_id a r t
  EndedAs-IsEnded none t works (there, new) =
      by_success _ works there
        (record { status = refl; at_end = refl; no_code = refl; no_message = refl }) new
  EndedAs-IsEnded (some (stage, timed_out message)) t fails (there, new) =
      by_failure _ (timed_out message) fails there
        (record { status = refl; at_end = refl; with_message = (refl, refl) })
        (inl (is_late message)) new
  EndedAs-IsEnded (some (stage, operation_failed code message)) t fails (there, new) =
      repeated _ (operation_failed code message) t fails there
        (record { status = refl; at_end = refl; with_message = (refl, refl) })
        (λ late. elim late [ ]) new
  EndedAs-IsEnded (some (stage, other_failure message)) t fails (there, new) =
      repeated _ (other_failure message) t fails there
        (record { status = refl; at_end = refl; with_message = (refl, refl) })
        (λ late. elim late [ ]) new

  -- Where run ids are keys, a run whose automation has a valid definition, with its directory and its
  -- log at hand, is over when its execution returns: as a success, if no part of the work raises, and
  -- else as failed, with the error of the first part that does. A retry with the same inputs and the next
  -- attempt number is queued under a fresh id exactly if that error is no timeout and attempts are left.
  pub execute_run-IsEnded :
      (s : AutomationStore D P)
      → IsKeyed s
      → lookup run_id s.automation_runs ≡ some r
      → lookup r.automation_id s.automations ≡ some a
      → a.definition_status ≡ valid
      → lookup x.new_id s.automation_runs ≡ none
      → x.directory_error ≡ none
      → x.log_error ≡ none
      → IsEnded x run_id a r (execute_run x run_id s).1
  unfolding execute_run get_run get_automation
  execute_run-IsEnded s keys there known accepted fresh directory_made log_open =
      let begun =
        add_run_event (daemon_event x.now run_id x.daemon_error)
          (add_run_event (event x.now run_id "task_started" "Task execution started." none) s) in
      let ready : IsReady begun = record {
        keys = record { distinct = keys.distinct; keyed = keys.keyed };
        there = there;
        known = known;
        accepted = accepted;
        fresh = fresh;
      } in
      let found : execute_run x run_id s ≡ with_directory x run_id a r x.directory_error s =
        rw (execute_run, get_run, there, get_automation, known) refl in
      let same : execute_run x run_id s ≡ finish_run x run_id a r (work x) begun =
        found
        ∙ ap (λ d. with_directory x run_id a r d s) directory_made
        ∙ ap (λ d. with_log x run_id a r d begun) log_open in
      rw same (
        EndedAs-IsEnded (work x) _ (work-IsOutcome x) (
          finish-ended (work x) (note_timeout x run_id (work x) begun)
            (note_timeout-IsReady (work x) begun ready)))
