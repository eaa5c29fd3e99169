-- ===== src/Automation/Queue/Claiming.antt =====
-- automation/persistence/store.py: which run `claim_next_run` takes.
use browser_cli.Prelude.{
  String, ℕ, ◌≤◌, List, [], ◌∷◌, none, some, Bool, true, false, ◌≡◌, ◌≢◌, ◌⊎◌, inl, inr, refl, sym,
  ap, ◌∙◌, Option-cases, Bool-cases, string_eq, arith, leb→le, All, In, All-In, select, select-All,
  select-In,
}
use mathlib.Core.Option.{some-injective}
use browser_cli.Prelude.Sort.{sort, IsSorted, sort-IsSorted, sort-All, sort-In}
use browser_cli.Dict.{lookup, values, NodupKeys, values-All, values-In, lookup-insert_self}
use browser_cli.Automation.Records.{AutomationRun, AutomationStore, answers}
use browser_cli.Automation.Rows.{first, claimed_event}
use browser_cli.Automation.Creation.{get_run, put_run, add_run_event}
use browser_cli.Automation.Queue.{claim_next_run, claimed_run, next_queued, claimable, by_queued_at}

first-In : {A : Type 0} (xs : List A) → first xs ≡ none → (y : A) → In y xs → first xs ≢ none
first-In [] e y i = elim i [ ]
first-In (x ∷ xs) e y i = λ _. absurd (ground arith)

module _ {A : Type 0} (before : A → A → Bool) (reflexive : (x : A) → before x x ≡ true)
    (P : A → Type 0) where
  first-least :
      (x : A) (xs : List A)
      → IsSorted before xs
      → All P xs
      → first xs ≡ some x
      → P x × ((y : A) → In y xs → before x y ≡ true)
  first-least x [] _ _ e = absurd (ground arith)
  first-least x (z ∷ zs) (least, _) (p, _) e =
      let same : z ≡ x = some-injective _ _ e in
      rw (sym same) (
        p,
        λ y i. elim i [
          | inl here ↦ rw (sym here) (reflexive z)
          | inr later ↦ All-In _ y zs least later
        ],
      )

module _ {D P : Type 0} where
  -- Each run stands under its own id, once.
  pub record IsKeyed (s : AutomationStore D P) : Type 0 where
    pub distinct : NodupKeys s.automation_runs
    pub keyed :
        (i : String) (r : AutomationRun D P) → lookup i s.automation_runs ≡ some r → r.run_id ≡ i

  abbrev pub NoneDue : ℕ → AutomationStore D P → Type 0
  NoneDue now s =
      (i : String) (r : AutomationRun D P)
      → lookup i s.automation_runs ≡ some r
      → claimable now r ≡ false

  -- The run is due, and no run that is due was queued earlier.
  abbrev pub IsOldestDue : ℕ → AutomationRun D P → AutomationStore D P → Type 0
  IsOldestDue now r s =
      ((lookup r.run_id s.automation_runs ≡ some r) × (claimable now r ≡ true))
      × ((i : String) (y : AutomationRun D P)
          → lookup i s.automation_runs ≡ some y
          → claimable now y ≡ true
          → r.queued_at ≤ y.queued_at)

  abbrev pub claimed : ℕ → AutomationRun D P → AutomationStore D P → AutomationStore D P
  claimed now r s = add_run_event (claimed_event now r.run_id) (put_run (claimed_run now r) s)

  abbrev pub TakesOldest : ℕ → AutomationStore D P → Type 0
  TakesOldest now s =
      (NoneDue now s × (claim_next_run now s ≡ (none, s)))
      ⊎ ((r : AutomationRun D P) × IsOldestDue now r s
          × (claim_next_run now s ≡ (some (answers (claimed_run now r)), claimed now r s)))

  due_In :
      (now : ℕ) (s : AutomationStore D P) (i : String) (y : AutomationRun D P)
      → lookup i s.automation_runs ≡ some y
      → claimable now y ≡ true
      → In y (sort by_queued_at (select (claimable now) (values s.automation_runs)))
  due_In now s i y h due = sort-In _ y _ (select-In _ y _ due (values-In i y s.automation_runs h))

  claim_none : (now : ℕ) (s : AutomationStore D P) → next_queued now s ≡ none → NoneDue now s
  claim_none now s e i r h = elim (Bool-cases (claimable now r)) [
    | inr f ↦ f
    | inl due ↦ absurd (first-In _ e r (due_In now s i r h due) e)
  ]

  by_queued_at_total :
      (x y : AutomationRun D P) → by_queued_at x y ≡ false → by_queued_at y x ≡ true
  by_queued_at_total x y h = ground arith

  by_queued_at_trans :
      (x y z : AutomationRun D P)
      → by_queued_at x y ≡ true
      → by_queued_at y z ≡ true
      → by_queued_at x z ≡ true
  by_queued_at_trans x y z h k = ground arith

  pub claim_some :
      (now : ℕ) (s : AutomationStore D P) (r : AutomationRun D P)
      → IsKeyed s
      → next_queued now s ≡ some r
      → IsOldestDue now r s
  claim_some now s r w e =
      let (p, least) =
        first-least by_queued_at (λ x. ground arith)
          (λ x. (lookup x.run_id s.automation_runs ≡ some x) × (claimable now x ≡ true)) r _
          (sort-IsSorted by_queued_at by_queued_at_total by_queued_at_trans _)
          (sort-All _ by_queued_at _ (
            select-All _ (claimable now) _ (
              values-All _ s.automation_runs w.distinct
                (λ k v there. ap (λ j. lookup j s.automation_runs) (w.keyed k v there) ∙ there))))
          e in
      (p, λ i y h due. leb→le _ _ (least y (due_In now s i y h due)))

  -- Where no run is due, `claim_next_run` answers with none and changes nothing; else it takes one that
  -- was queued first, answers with it as running since now, and writes just that and the event.
  pub claim_next_run-TakesOldest :
      (now : ℕ) (s : AutomationStore D P) → IsKeyed s → TakesOldest now s
  unfolding claim_next_run get_run
  claim_next_run-TakesOldest now s w = elim (Option-cases (next_queued now s)) [
    | inl e ↦ inl (claim_none now s e, rw (claim_next_run, e) refl)
    | inr (r, e) ↦
        let found = lookup-insert_self r.run_id (claimed_run now r) s.automation_runs in
        inr (r, claim_some now s r w e, rw (claim_next_run, e, get_run, found) refl)
  ]
