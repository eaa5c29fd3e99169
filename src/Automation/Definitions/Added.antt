-- ===== src/Automation/Definitions/Added.antt =====
-- automation/persistence/store.py: what the creation of a run does to the runs that wait or run.
use browser_cli.Prelude.{
  String, ℕ, ◌+◌, [], ◌∷◌, none, some, Bool, false, ◌&&◌, ◌||◌, length, select, ◌==◌, string_eq,
  if◌then◌else◌, ◌≡◌, ◌⊎◌, refl, sym, ◌∙◌, inl, inr, Bool-cases, Option-cases, arith,
}
use browser_cli.Dict.{Dict, lookup, insert, values}
use browser_cli.Automation.Records.{
  DefinitionStatus, valid, invalid, AutomationDefinition, scheduled, AutomationRun, AutomationStore,
  Answer, answers, raises,
}
use browser_cli.Automation.Rows.{is_queued, is_running}
use browser_cli.Automation.Creation.{
  get_automation, insert_run, new_run, insert_valid, create_for, create_run, has_pending_run,
}

count-insert_new :
    {V : Type 0} (p : V → Bool) (k : String) (v : V) (d : Dict String V)
    → lookup k d ≡ none
    → length (select p (values (insert k v d)))
      ≡ length (select p (values d)) + (if p v then 1 else 0)
unfolding lookup insert
count-insert_new p k v [] h = ground arith
count-insert_new p k v ((j, x) ∷ d) h = elim (string_eq.dec k j) [
  | yes e ↦ absurd (ground arith)
  | no n ↦ elim (Bool-cases (p x)) [
    | inl y ↦ ground (arith, count-insert_new p k v d)
    | inr y ↦ ground (arith, count-insert_new p k v d)
  ]
]

module _ {D P : Type 0} where
  abbrev pub is_pending : String → AutomationRun D P → Bool
  is_pending i r = r.automation_id == i && (is_queued r.status || is_running r.status)

  -- How many runs of the automation wait or run.
  abbrev pub pending : String → AutomationStore D P → ℕ
  pending i s = length (select (is_pending i) (values s.automation_runs))

  -- At most one run more, and only where none was pending.
  abbrev pub AddsOnce : String → AutomationStore D P → AutomationStore D P → Type 0
  AddsOnce i s t = (pending i t ≡ pending i s) ⊎ ((pending i s ≡ 0) × (pending i t ≡ 1))

  -- Each definition stands under its id.
  abbrev pub HasIds : AutomationStore D P → Type 0
  HasIds s =
      (i : String) (a : AutomationDefinition D P) → lookup i s.automations ≡ some a → a.id ≡ i

  pub none_pending :
      (i : String) (s : AutomationStore D P) → has_pending_run i s ≡ false → pending i s ≡ 0
  unfolding has_pending_run
  none_pending i s h = ground arith

  pub AddsOnce-trans :
      (i : String) (s t u : AutomationStore D P) → AddsOnce i s t → AddsOnce i t u → AddsOnce i s u
  AddsOnce-trans i s t u f g = ground arith

  insert_run-AddsOnce :
      (i : String) (now : ℕ) (r : AutomationRun D P) (s : AutomationStore D P)
      → (r.automation_id ≡ i → pending i s ≡ 0)
      → AddsOnce i s (insert_run now r s).1
  unfolding insert_run
  insert_run-AddsOnce i now r s free = elim (Option-cases (lookup r.run_id s.automation_runs)) [
    | inr (x, e) ↦ rw (insert_run, e) (inl refl)
    | inl e ↦
        let added = count-insert_new (is_pending i) r.run_id r s.automation_runs e in
        rw (insert_run, e)
          (elim (string_eq.dec r.automation_id i) [
            | no n ↦ inl (ground arith)
            | yes same ↦ elim (Bool-cases (is_pending i r)) [
              | inl y ↦ inr (ground (arith, free same))
              | inr y ↦ inl (ground arith)
            ]
          ])
  ]

  insert_valid-AddsOnce :
      (i : String) (now : ℕ) (r : AutomationRun D P) (d : DefinitionStatus)
      (a : AutomationDefinition D P) (s : AutomationStore D P)
      → (r.automation_id ≡ i → pending i s ≡ 0)
      → AddsOnce i s (insert_valid now r d a s).1
  insert_valid-AddsOnce i now r valid a s free = insert_run-AddsOnce i now r s free
  insert_valid-AddsOnce i now r invalid a s free = inl refl

  pub create_run-AddsOnce :
      (i : String) (now : ℕ) (run_id automation_id : String) (s : AutomationStore D P)
      → HasIds s
      → (automation_id ≡ i → pending i s ≡ 0)
      → AddsOnce i s (create_run now run_id automation_id scheduled none 0 none s).1
  unfolding create_run get_automation
  create_run-AddsOnce i now run_id automation_id s ids free =
      elim (Option-cases (lookup automation_id s.automations)) [
        | inl e ↦ rw (create_run, get_automation, e) (inl refl)
        | inr (a, e) ↦
            rw (create_run, get_automation, e)
              (insert_valid-AddsOnce i now (new_run now run_id scheduled none 0 none a)
                a.definition_status a s (λ same. free (sym (ids automation_id a e) ∙ same)))
      ]

  -- What a step of the loop keeps.
  pub record Keeps (s t : AutomationStore D P) : Type 0 where
    pub runs : t.automation_runs ≡ s.automation_runs
    pub ids : HasIds s → HasIds t

  pub Keeps-refl : (s : AutomationStore D P) → Keeps s s
  Keeps-refl s = record { runs = refl; ids = λ h. h }

  insert_run-automations :
      (now : ℕ) (r : AutomationRun D P) (s : AutomationStore D P)
      → (insert_run now r s).1.automations ≡ s.automations
  unfolding insert_run
  insert_run-automations now r s = elim (Option-cases (lookup r.run_id s.automation_runs)) [
    | inr (x, e) ↦ rw (insert_run, e) refl
    | inl e ↦ rw (insert_run, e) refl
  ]

  pub create_run-automations :
      (now : ℕ) (run_id automation_id : String) (s : AutomationStore D P)
      → (create_run now run_id automation_id scheduled none 0 none s).1.automations ≡ s.automations
  unfolding create_run
  create_run-automations now run_id automation_id s = for_answer (get_automation automation_id s)
    where
      for_status :
          (r : AutomationRun D P) (d : DefinitionStatus) (a : AutomationDefinition D P)
          → (insert_valid now r d a s).1.automations ≡ s.automations
      for_status r valid a = insert_run-automations now r s
      for_status r invalid a = refl

      for_answer :
          (x : Answer (AutomationDefinition D P))
          → (create_for now run_id scheduled none 0 none x s).1.automations ≡ s.automations
      for_answer (raises e) = refl
      for_answer (answers a) =
          for_status (new_run now run_id scheduled none 0 none a) a.definition_status a
