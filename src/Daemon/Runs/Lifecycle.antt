-- ===== src/Daemon/Runs/Lifecycle.antt =====
-- daemon/run_registry.py: the registry under any calls and any turns of the tasks.
use browser_cli.Prelude.{
  ℕ, ◌≡◌, inl, inr, refl, List, [], ◌∷◌, some, Bool, true, false, arith, nat_eq, Option-cases, ◌∙◌,
  ap, sym,
}
use mathlib.Core.Bool.{true≢false}
use mathlib.Core.Option.{some-injective}
use browser_cli.Dict.{lookup, lookup-nil}
use browser_cli.Daemon.Runs.Records.{
  RunStatus, queued, running, cancel_requested, succeeded, failed, canceled, is_terminal, empty,
  RunRecord, waiting, working, finished, settled, Registry, Outcome, completes, cancels, fails,
  Input, starts, cancels_run, enters, settles, drops, ends,
}
use browser_cli.Daemon.Runs.Registry.{step, run, closed, end_run, drop_run, settle_run}
use browser_cli.Daemon.Runs.WellFormed.{IsRun, IsWf, is_over, evict-IsWf}
use browser_cli.Daemon.Runs.Writes.{
  set_run-IsWf, start_read-IsWf, cancel-IsWf, enter_run-IsWf, finish-IsWf, conclude-IsWf,
}

module _ {D : Type 0} where
  refused :
      (now i : ℕ) (o : Outcome D) (r : RunRecord D) (reg : Registry D)
      → lookup i reg.runs ≡ some r
      → IsWf reg
      → IsWf (end_run now i o (some r) (some waiting) reg)
  refused now i (completes x m) r reg e w = w
  refused now i (cancels x m) r reg e w = conclude-IsWf now i (cancels x m) r reg e w
  refused now i (fails x y m) r reg e w = conclude-IsWf now i (fails x y m) r reg e w

  end_run-IsWf :
      (now i : ℕ) (o : Outcome D) (reg : Registry D)
      → IsWf reg
      → IsWf (end_run now i o (lookup i reg.runs) (lookup i reg.tasks) reg)
  end_run-IsWf now i o reg w = elim (Option-cases (lookup i reg.runs)) [
    | inl e ↦ rw e w
    | inr (r, e) ↦ elim (Option-cases (lookup i reg.tasks)) [
      | inl f ↦ rw (e, f) w
      | inr (waiting, f) ↦ rw (e, f) (refused now i o r reg e w)
      | inr (working, f) ↦ rw (e, f) (conclude-IsWf now i o r reg e w)
      | inr (finished c, f) ↦ rw (e, f) w
      | inr (settled c, f) ↦ rw (e, f) w
    ]
  ]

  settled-status :
      (now : ℕ) (r : RunRecord D) (s : RunStatus)
      → r.status ≡ s
      → ((closed now true r).run_id ≡ r.run_id) × (is_terminal (closed now true r).status ≡ true)
  settled-status now r queued e = rw (closed, e) (refl, refl)
  settled-status now r running e = rw (closed, e) (refl, refl)
  settled-status now r cancel_requested e = rw (closed, e) (refl, refl)
  settled-status now r succeeded e = rw (closed, e) (refl, refl)
  settled-status now r failed e = rw (closed, e) (refl, refl)
  settled-status now r canceled e = rw (closed, e) (refl, ap is_terminal e)

  -- The callback leaves a terminal status: its own, or the one of a task that was not cancelled.
  closed-is_terminal :
      (now i : ℕ) (c : Bool) (r : RunRecord D) (reg : Registry D)
      → lookup i reg.tasks ≡ some (finished c)
      → IsRun reg.counter i reg.tasks r
      → ((closed now c r).run_id ≡ r.run_id) × (is_terminal (closed now c r).status ≡ true)
  closed-is_terminal now i true r reg f k = settled-status now r r.status refl
  closed-is_terminal now i false r reg f k =
      let (t, found, fits) = k.task in
      (
        refl,
        elim fits [
          | inr over ↦ over
          | inl n ↦ absurd (true≢false (ap is_over (some-injective _ _ (sym f ∙ found)) ∙ n))
        ],
      )

  settle_run-IsWf :
      (now i : ℕ) (reg : Registry D)
      → IsWf reg
      → IsWf (settle_run now i (lookup i reg.runs) (lookup i reg.tasks) reg)
  settle_run-IsWf now i reg w = elim (Option-cases (lookup i reg.runs)) [
    | inl e ↦ rw e (evict-IsWf reg w)
    | inr (r, e) ↦ elim (Option-cases (lookup i reg.tasks)) [
      | inl f ↦ rw (e, f) w
      | inr (waiting, f) ↦ rw (e, f) w
      | inr (working, f) ↦ rw (e, f) w
      | inr (finished c, f) ↦
          let k = w.each i r e in
          let (same, over) = closed-is_terminal now i c r reg f k in
          rw (e, f)
            (evict-IsWf _ (
              set_run-IsWf i (closed now c r) (settled c) reg (same ∙ k.keyed) k.known (inr over)
                w))
      | inr (settled c, f) ↦ rw (e, f) w
    ]
  ]

  drop_run-IsWf : (i : ℕ) (reg : Registry D) → IsWf reg → IsWf (drop_run i (lookup i reg.tasks) reg)
  drop_run-IsWf i reg w = elim (Option-cases (lookup i reg.tasks)) [
    | inl f ↦ rw f w
    | inr (waiting, f) ↦ rw f (finish-IsWf i true reg (λ _ _. inl refl) w)
    | inr (working, f) ↦ rw f w
    | inr (finished c, f) ↦ rw f w
    | inr (settled c, f) ↦ rw f w
  ]

  pub step-IsWf : (x : Input D) (reg : Registry D) → IsWf reg → IsWf (step x reg)
  unfolding step
  step-IsWf (starts now args) reg w = start_read-IsWf now args reg w
  step-IsWf (cancels_run now i) reg w = cancel-IsWf now i reg w
  step-IsWf (enters now i) reg w = enter_run-IsWf now i reg w
  step-IsWf (ends now i o) reg w = end_run-IsWf now i o reg w
  step-IsWf (drops i) reg w = drop_run-IsWf i reg w
  step-IsWf (settles now i) reg w = settle_run-IsWf now i reg w

  run-IsWf : (xs : List (Input D)) (reg : Registry D) → IsWf reg → IsWf (run xs reg)
  unfolding run
  run-IsWf [] reg w = w
  run-IsWf (x ∷ xs) reg w = run-IsWf xs (step x reg) (step-IsWf x reg w)

  empty-IsWf : (max : ℕ) → IsWf {D = D} (empty max)
  empty-IsWf max = record {
    distinct = tt;
    each = λ i r h. absurd (ground (arith, lookup-nil {V = RunRecord D} i));
  }

  -- After every sequence of calls and task turns, each run is stored under its own id, no larger than
  -- the counter, with a task; it has a terminal status, unless its task is active or was cancelled
  -- and its callback is still to come.
  pub runs-IsWf : (max : ℕ) (xs : List (Input D)) → IsWf (run xs (empty max))
  runs-IsWf max xs = run-IsWf xs (empty max) (empty-IsWf max)
