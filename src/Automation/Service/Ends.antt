-- ===== src/Automation/Service/Ends.antt =====
-- automation/service/runtime.py: what an execution is to leave of its run, by the exceptions of its parts.
use browser_cli.Prelude.{String, ◌≤◌, ◌<◌, [], ◌∷◌, Option, none, some, ◌≡◌, ◌⊎◌, refl, string_eq}
use browser_cli.Dict.{lookup}
use browser_cli.Automation.Records.{
  AutomationDefinition, AutomationRun, AutomationStore, success, failed,
}
use browser_cli.Automation.Queue.Outcomes.{IsRetry}
use browser_cli.Automation.Service.{
  Failure, timed_out, operation_failed, other_failure, Stage, before_hooks, task_execution,
  persist_result, after_success_hooks, Execution, first_failure, work,
}

pub data IsTimeout : Failure → Type 0 where
  is_late : (message : String) → IsTimeout (timed_out message)

-- No part of the work raises.
pub record Works {P : Type 0} (x : Execution P) : Type 0 where
  no_before_error : x.before_error ≡ none
  no_task_error : x.task_error ≡ none
  no_persist_error : x.persist_error ≡ none
  no_after_error : x.after_error ≡ none

-- The part that raises, where none before it did.
pub data FailsBy {P : Type 0} (x : Execution P) : Failure → Type 0 where
  in_before_hooks : (e : Failure) → x.before_error ≡ some e → FailsBy x e
  in_task : (e : Failure) → x.before_error ≡ none → x.task_error ≡ some e → FailsBy x e
  in_persisting :
      (e : Failure)
      → x.before_error ≡ none
      → x.task_error ≡ none
      → x.persist_error ≡ some e
      → FailsBy x e
  in_after_hooks :
      (e : Failure)
      → x.before_error ≡ none
      → x.task_error ≡ none
      → x.persist_error ≡ none
      → x.after_error ≡ some e
      → FailsBy x e

module _ {D P : Type 0} where
  -- The error that is noted of an exception.
  abbrev pub Reports : Failure → AutomationRun D P → Type 0
  Reports (timed_out message) q =
      (q.error_code ≡ some "AUTOMATION_RUN_TIMEOUT") × (q.error_message ≡ some message)
  Reports (operation_failed code message) q =
      (q.error_code ≡ some code) × (q.error_message ≡ some message)
  Reports (other_failure message) q =
      (q.error_code ≡ some "AUTOMATION_RUN_FAILED") × (q.error_message ≡ some message)

  pub record Succeeds (x : Execution P) (q : AutomationRun D P) : Type 0 where
    pub status : q.status ≡ success
    pub at_end : q.finished_at ≡ some x.now
    pub no_code : q.error_code ≡ none
    pub no_message : q.error_message ≡ none

  pub record FailsWith (x : Execution P) (e : Failure) (q : AutomationRun D P) : Type 0 where
    pub status : q.status ≡ failed
    pub at_end : q.finished_at ≡ some x.now
    pub with_message : Reports e q

  -- The run succeeds; or it fails and is not repeated, by a timeout or for want of attempts; or it
  -- fails and is repeated.
  pub data IsEnded (x : Execution P) (run_id : String) (a : AutomationDefinition D P)
      (r : AutomationRun D P) (t : AutomationStore D P) : Type 0 where
    by_success :
        (q : AutomationRun D P)
        → Works x
        → lookup run_id t.automation_runs ≡ some q
        → Succeeds x q
        → lookup x.new_id t.automation_runs ≡ none
        → IsEnded x run_id a r t
    by_failure :
        (q : AutomationRun D P) (e : Failure)
        → FailsBy x e
        → lookup run_id t.automation_runs ≡ some q
        → FailsWith x e q
        → IsTimeout e ⊎ (a.retry_attempts ≤ r.attempt_number)
        → lookup x.new_id t.automation_runs ≡ none
        → IsEnded x run_id a r t
    with_retry :
        (q next : AutomationRun D P) (e : Failure)
        → FailsBy x e
        → lookup run_id t.automation_runs ≡ some q
        → FailsWith x e q
        → ¬ IsTimeout e
        → r.attempt_number < a.retry_attempts
        → lookup x.new_id t.automation_runs ≡ some next
        → IsRetry x.now x.new_id r a next
        → IsEnded x run_id a r t

-- The outcome of the work is the failure of its first part that raises, if any.
abbrev pub IsOutcome : {P : Type 0} → Execution P → Option (Stage × Failure) → Type 0
IsOutcome x none = Works x
IsOutcome x (some (_, e)) = FailsBy x e

parts-IsOutcome :
    {P : Type 0} (x : Execution P) (b t p a : Option Failure)
    → x.before_error ≡ b
    → x.task_error ≡ t
    → x.persist_error ≡ p
    → x.after_error ≡ a
    → IsOutcome x (
        first_failure (
          (before_hooks, b)
          ∷ (task_execution, t)
          ∷ (persist_result, p)
          ∷ (after_success_hooks, a)
          ∷ []))
unfolding first_failure
parts-IsOutcome x (some e) t p a eb et ep ea = in_before_hooks e eb
parts-IsOutcome x none (some e) p a eb et ep ea = in_task e eb et
parts-IsOutcome x none none (some e) a eb et ep ea = in_persisting e eb et ep
parts-IsOutcome x none none none (some e) eb et ep ea = in_after_hooks e eb et ep ea
parts-IsOutcome x none none none none eb et ep ea = record {
  no_before_error = eb;
  no_task_error = et;
  no_persist_error = ep;
  no_after_error = ea;
}

pub work-IsOutcome : {P : Type 0} (x : Execution P) → IsOutcome x (work x)
work-IsOutcome x = parts-IsOutcome x _ _ _ _ refl refl refl refl
