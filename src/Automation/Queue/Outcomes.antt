-- ===== src/Automation/Queue/Outcomes.antt =====
-- automation/persistence/store.py: what becomes of a run that is claimed, completed or retried.
use browser_cli.Prelude.{
  String, ℕ, ◌+◌, ◌*◌, ◌≤◌, List, Option, none, some, true, ◌≡◌, ◌≢◌, ◌↔◌, inl, inr, refl, sym, ap,
  ◌∙◌, string_eq, arith,
}
use mathlib.Core.Option.{some-injective}
use browser_cli.Dict.{lookup, lookup-insert_self, lookup-insert_ne}
use browser_cli.Automation.Records.{
  AutomationDefinition, AutomationRun, AutomationStore, answers, raises, valid, retry, queued,
}
use browser_cli.Automation.Rows.{is_queued}
use browser_cli.Automation.Creation.{get_automation, get_run, insert_run, new_run, create_run}
use browser_cli.Automation.Queue.{claim_next_run, claimed_run, claimable, retry_run, retry_time}
use browser_cli.Automation.Schedule.{ZoneOperations, ScheduleError}
use browser_cli.Automation.Definitions.{Host}
use browser_cli.Automation.Queue.Requests.{Request, run}
use browser_cli.Automation.Queue.Started.{IsStarted, run-IsStarted}
use browser_cli.Automation.Queue.Claiming.{IsOldestDue, claimed, claim_next_run-TakesOldest}
use browser_cli.Automation.Queue.Invariant.{IsWf, run-IsWf, claim_next_run-IsWf}

answers-injective : {A : Type 0} (x y : A) → answers x ≡ answers y → x ≡ y
answers-injective x y e = ap (λ z. elim z [ answers a ↦ a | raises _ ↦ x ]) e

module _ {D P : Type 0} where
  -- What an answer of `claim_next_run` says.
  taken :
      (now : ℕ) (s : AutomationStore D P) (x : AutomationRun D P)
      → IsWf s
      → (claim_next_run now s).0 ≡ some (answers x)
      → (r : AutomationRun D P) × IsOldestDue now r s
        × (x ≡ claimed_run now r)
        × ((claim_next_run now s).1 ≡ claimed now r s)
  taken now s x w h = elim (claim_next_run-TakesOldest now s w.keys) [
    | inl (_, e) ↦ let nothing = ap (λ p. p.0) (sym e) ∙ h in absurd (ground arith)
    | inr (r, oldest, e) ↦ (
      r,
      oldest,
      answers-injective _ _ (some-injective _ _ (sym h ∙ ap (λ p. p.0) e)),
      ap (λ p. p.1) e,
    )
  ]

  taken-IsStarted :
      (now : ℕ) (s : AutomationStore D P) (r : AutomationRun D P)
      → IsStarted r.run_id (claimed now r s)
  taken-IsStarted now s r =
      (claimed_run now r, lookup-insert_self r.run_id (claimed_run now r) s.automation_runs, refl)

module _ {D P Z : Type 0} (host : Host D P) (zones : ZoneOperations Z)
    (show : ScheduleError → String) where
  -- From a well-formed store, whatever calls on runs and on definitions come in between, two claims
  -- that answer with a run answer with different runs.
  pub claimed_once :
      (now later : ℕ) (s : AutomationStore D P) (xs : List (Request D P)) (x y : AutomationRun D P)
      → IsWf s
      → (claim_next_run now s).0 ≡ some (answers x)
      → (claim_next_run later (run host zones show xs (claim_next_run now s).1)).0
        ≡ some (answers y)
      → y.run_id ≢ x.run_id
  claimed_once now later s xs x y w h k same =
      let (r, _, e, after) = taken now s x w h in
      let w' = run-IsWf host zones show xs (claim_next_run now s).1 (claim_next_run-IsWf now s w) in
      let (q, ((there, due), _), f, _) = taken later _ y w' k in
      let (z, found, past) =
        run-IsStarted host zones show r.run_id xs (claim_next_run now s).1
          (rw after (taken-IsStarted now s r)) in
      let ids : q.run_id ≡ r.run_id = ap (λ t. t.run_id) (sym f) ∙ same ∙ ap (λ t. t.run_id) e in
      let z_is_q : z ≡ q = some-injective _ _ (
        sym found
        ∙ ap (λ i. lookup i (run host zones show xs (claim_next_run now s).1).automation_runs)
            (sym ids)
        ∙ there) in
      absurd (ground (arith, ap (λ t. is_queued t.status) z_is_q))

module _ {D P : Type 0} where
  abbrev pub retried : ℕ → String → AutomationRun D P → AutomationDefinition D P → AutomationRun D P
  retried now new_id r a =
      new_run now new_id retry (some r.effective_inputs) (r.attempt_number + 1)
        (some (retry_time now a)) a

  create_run-valid :
      (now : ℕ) (run_id : String) (a : AutomationDefinition D P) (automation_id : String)
      (inputs : Option D) (attempt : ℕ) (at_time : Option ℕ) (s : AutomationStore D P)
      → lookup automation_id s.automations ≡ some a
      → a.definition_status ≡ valid
      → create_run now run_id automation_id retry inputs attempt at_time s
        ≡ insert_run now (new_run now run_id retry inputs attempt at_time a) s
  unfolding create_run get_automation
  create_run-valid now run_id a automation_id inputs attempt at_time s known ok =
      rw (create_run, get_automation, known) (rw ok refl)

  pub retry_run-answer :
      (now : ℕ) (new_id run_id : String) (r : AutomationRun D P) (a : AutomationDefinition D P)
      (s : AutomationStore D P)
      → lookup run_id s.automation_runs ≡ some r
      → lookup r.automation_id s.automations ≡ some a
      → a.definition_status ≡ valid
      → lookup new_id s.automation_runs ≡ none
      → retry_run now new_id run_id s ≡ insert_run now (retried now new_id r a) s
  unfolding retry_run get_run get_automation
  retry_run-answer now new_id run_id r a s there known ok fresh =
      rw (retry_run, get_run, there, get_automation, known)
        (create_run-valid now new_id a _ _ _ _ s known ok)

  pub retried-time :
      (now : ℕ) (new_id : String) (r : AutomationRun D P) (a : AutomationDefinition D P)
      → (retried now new_id r a).queued_at ≡ now + a.retry_backoff_seconds * 1000000
  retried-time now new_id r a = ground arith

  -- A queued run that repeats another one, once the backoff of its automation is over.
  pub record IsRetry (now : ℕ) (new_id : String) (r : AutomationRun D P)
      (a : AutomationDefinition D P) (q : AutomationRun D P) : Type 0 where
    new : q.run_id ≡ new_id
    same_automation : q.automation_id ≡ a.id
    by_retry : q.trigger_type ≡ retry
    waiting : q.status ≡ queued
    same_inputs : q.effective_inputs ≡ r.effective_inputs
    next_attempt : q.attempt_number ≡ r.attempt_number + 1
    delayed : q.queued_at ≡ now + a.retry_backoff_seconds * 1000000
    not_started : q.started_at ≡ none
    not_finished : q.finished_at ≡ none

  pub retried-IsRetry :
      (now : ℕ) (new_id : String) (r : AutomationRun D P) (a : AutomationDefinition D P)
      → IsRetry now new_id r a (retried now new_id r a)
  retried-IsRetry now new_id r a = record {
    new = refl;
    same_automation = refl;
    by_retry = refl;
    waiting = refl;
    same_inputs = refl;
    next_attempt = refl;
    delayed = retried-time now new_id r a;
    not_started = refl;
    not_finished = refl;
  }

  pub retry_run-kept :
      (now : ℕ) (new_id run_id : String) (r : AutomationRun D P) (a : AutomationDefinition D P)
      (s : AutomationStore D P)
      → lookup run_id s.automation_runs ≡ some r
      → lookup r.automation_id s.automations ≡ some a
      → a.definition_status ≡ valid
      → lookup new_id s.automation_runs ≡ none
      → ((retry_run now new_id run_id s).0 ≡ answers (retried now new_id r a))
        × (lookup new_id (retry_run now new_id run_id s).1.automation_runs
            ≡ some (retried now new_id r a))
        × (lookup run_id (retry_run now new_id run_id s).1.automation_runs ≡ some r)
  unfolding insert_run get_run
  retry_run-kept now new_id run_id r a s there known ok fresh =
      let other : run_id ≢ new_id = λ e.
        let clash = sym fresh ∙ ap (λ i. lookup i s.automation_runs) (sym e) ∙ there in
        absurd (ground arith) in
      let new = lookup-insert_self new_id (retried now new_id r a) s.automation_runs in
      rw (retry_run-answer now new_id run_id r a s there known ok fresh, insert_run, fresh)
        (
          rw (get_run, new) refl,
          new,
          lookup-insert_ne run_id new_id _ s.automation_runs other ∙ there,
        )

  -- Retrying a run of a valid automation under a fresh id answers with a new queued run, which is
  -- written under that id: of the same automation, with the inputs of the run that it repeats and the
  -- next attempt number, and claimable exactly from the end of the backoff on. The run that it repeats
  -- is kept.
  pub retry_run-lem :
      (now : ℕ) (new_id run_id : String) (r : AutomationRun D P) (a : AutomationDefinition D P)
      (s : AutomationStore D P)
      → lookup run_id s.automation_runs ≡ some r
      → lookup r.automation_id s.automations ≡ some a
      → a.definition_status ≡ valid
      → lookup new_id s.automation_runs ≡ none
      → (q : AutomationRun D P) × ((retry_run now new_id run_id s).0 ≡ answers q)
        × (lookup new_id (retry_run now new_id run_id s).1.automation_runs ≡ some q)
        × IsRetry now new_id r a q
        × ((later : ℕ)
            → (claimable later q ≡ true) ↔ (now + a.retry_backoff_seconds * 1000000 ≤ later))
        × (lookup run_id (retry_run now new_id run_id s).1.automation_runs ≡ some r)
  retry_run-lem now new_id run_id r a s there known ok fresh =
      let (answer, new, kept) = retry_run-kept now new_id run_id r a s there known ok fresh in
      (
        retried now new_id r a,
        answer,
        new,
        retried-IsRetry now new_id r a,
        λ later. ground (arith, retried-time now new_id r a),
        kept,
      )
