-- ===== src/Daemon/Runs/Finality.antt =====
-- daemon/run_registry.py: the record of a run whose callback has run.
use browser_cli.Prelude.{
  ℕ, ◌+◌, ◌≡◌, ◌≢◌, ◌⊎◌, inl, inr, Option, none, some, Bool, true, false, arith, nat_eq, Bool-cases,
  Option-cases, ◌∙◌, ap, sym,
}
use browser_cli.Dict.{lookup, lookup-insert_ne}
use browser_cli.Daemon.Runs.Records.{
  RunRecord, Registry, TaskState, waiting, working, finished, settled, Outcome, completes, cancels,
  fails, Input, starts, cancels_run, enters, settles, drops, ends,
}
use browser_cli.Daemon.Runs.Registry.{
  evict_completed_runs, start_read, task_is_active, active_task, set_run, put_run, finish, conclude,
  enter_run, end_run, drop_run, settle_run, step, cancel, started, finalized, closed, is_cancel,
}
use browser_cli.Daemon.Runs.WellFormed.{IsWf}
use browser_cli.Daemon.Runs.Eviction.{evict-or_same}

module _ {D : Type 0} (i : ℕ) (r : RunRecord D) (c : Bool) where
  abbrev pub IsSettled : Registry D → Type 0
  IsSettled reg = (lookup i reg.runs ≡ some r) × (lookup i reg.tasks ≡ some (settled c))

  -- The run is still there, as it was, or it has been evicted.
  abbrev pub IsFinal : Registry D → Type 0
  IsFinal reg = (lookup i reg.runs ≡ none) ⊎ IsSettled reg

  evict-IsFinal : (reg : Registry D) → IsSettled reg → IsFinal (evict_completed_runs reg)
  evict-IsFinal reg (h, t) = elim (evict-or_same reg i r h) [
    | inl gone ↦ inl gone
    | inr (kept, same) ↦ inr (kept, same ∙ t)
  ]

  set_run-IsSettled :
      (j : ℕ) (s : RunRecord D) (t : TaskState) (reg : Registry D)
      → i ≢ j
      → IsSettled reg
      → IsSettled (set_run j s t reg)
  set_run-IsSettled j s t reg n (h, u) =
      (lookup-insert_ne i j s reg.runs n ∙ h, lookup-insert_ne i j t reg.tasks n ∙ u)

  finish-IsFinal :
      (j : ℕ) (b : Bool) (reg : Registry D) → i ≢ j → IsFinal reg → IsFinal (finish j b reg)
  finish-IsFinal j b reg n final = elim (Option-cases (lookup j reg.tasks)) [
    | inl e ↦ rw (finish, e) final
    | inr (t, e) ↦
        rw (finish, e)
          (elim final [
            | inl gone ↦ inl gone
            | inr (h, u) ↦ inr (h, lookup-insert_ne i j (finished b) reg.tasks n ∙ u)
          ])
  ]

  conclude-IsFinal :
      (now j : ℕ) (o : Outcome D) (s : RunRecord D) (reg : Registry D)
      → i ≢ j
      → IsSettled reg
      → IsFinal (conclude now j o s reg)
  unfolding conclude
  conclude-IsFinal now j o s reg n (h, u) =
      finish-IsFinal j (is_cancel o) _ n (
        evict-IsFinal (put_run j (finalized now o s) reg)
          (lookup-insert_ne i j _ reg.runs n ∙ h, u))

  -- The handlers, at another run's id.
  enter_other :
      (now j : ℕ) (s : Option (RunRecord D)) (t : Option TaskState) (reg : Registry D)
      → i ≢ j
      → IsSettled reg
      → IsFinal (enter_run now j s t reg)
  enter_other now j (some s) (some waiting) reg n h =
      inr (set_run-IsSettled j (started now s) working reg n h)
  enter_other now j none t reg n h = inr h
  enter_other now j (some s) none reg n h = inr h
  enter_other now j (some s) (some working) reg n h = inr h
  enter_other now j (some s) (some (finished _)) reg n h = inr h
  enter_other now j (some s) (some (settled _)) reg n h = inr h

  end_other :
      (now j : ℕ) (o : Outcome D) (s : Option (RunRecord D)) (t : Option TaskState)
      (reg : Registry D)
      → i ≢ j
      → IsSettled reg
      → IsFinal (end_run now j o s t reg)
  end_other now j o (some s) (some working) reg n h = conclude-IsFinal now j o s reg n h
  end_other now j (completes _ _) (some s) (some waiting) reg n h = inr h
  end_other now j (cancels x m) (some s) (some waiting) reg n h =
      conclude-IsFinal now j (cancels x m) s reg n h
  end_other now j (fails x y m) (some s) (some waiting) reg n h =
      conclude-IsFinal now j (fails x y m) s reg n h
  end_other now j o none t reg n h = inr h
  end_other now j o (some s) none reg n h = inr h
  end_other now j o (some s) (some (finished _)) reg n h = inr h
  end_other now j o (some s) (some (settled _)) reg n h = inr h

  drop_other :
      (j : ℕ) (t : Option TaskState) (reg : Registry D)
      → i ≢ j
      → IsSettled reg
      → IsFinal (drop_run j t reg)
  drop_other j (some waiting) reg n h = finish-IsFinal j true reg n (inr h)
  drop_other j none reg n h = inr h
  drop_other j (some working) reg n h = inr h
  drop_other j (some (finished _)) reg n h = inr h
  drop_other j (some (settled _)) reg n h = inr h

  settle_other :
      (now j : ℕ) (s : Option (RunRecord D)) (t : Option TaskState) (reg : Registry D)
      → i ≢ j
      → IsSettled reg
      → IsFinal (settle_run now j s t reg)
  settle_other now j none t reg n h = evict-IsFinal reg h
  settle_other now j (some s) (some (finished b)) reg n h =
      evict-IsFinal _ (set_run-IsSettled j (closed now b s) (settled b) reg n h)
  settle_other now j (some s) none reg n h = inr h
  settle_other now j (some s) (some waiting) reg n h = inr h
  settle_other now j (some s) (some working) reg n h = inr h
  settle_other now j (some s) (some (settled _)) reg n h = inr h

  idle : (reg : Registry D) → IsSettled reg → task_is_active reg i ≡ false
  unfolding task_is_active
  idle reg (h, t) = ap active_task t

  cancel_own : (now : ℕ) (reg : Registry D) → IsSettled reg → IsFinal (cancel now i reg).1
  unfolding cancel
  cancel_own now reg (h, t) = rw (cancel, h, idle reg (h, t)) (inr (h, t))

  cancel-IsFinal : (now j : ℕ) (reg : Registry D) → IsSettled reg → IsFinal (cancel now j reg).1
  unfolding cancel
  cancel-IsFinal now j reg (h, t) = elim (nat_eq.dec i j) [
    | yes e ↦ rw (sym e) (cancel_own now reg (h, t))
    | no n ↦ elim (Option-cases (lookup j reg.runs)) [
      | inl e ↦ rw (cancel, e) (inr (h, t))
      | inr (s, e) ↦ elim (Bool-cases (task_is_active reg j)) [
        | inl b ↦ rw (cancel, e, b) (inr (lookup-insert_ne i j _ reg.runs n ∙ h, t))
        | inr b ↦ rw (cancel, e, b) (inr (h, t))
      ]
    ]
  ]

  start-IsFinal :
      (now : ℕ) (args : D) (reg : Registry D)
      → IsWf reg
      → IsSettled reg
      → IsFinal (start_read now args reg).1
  unfolding start_read
  start-IsFinal now args reg w (h, t) =
      let k = w.each i r h in
      let n : i ≢ reg.counter + 1 = λ e. absurd (omega (arith, k.known, e)) in
      evict-IsFinal _
        (lookup-insert_ne i _ _ reg.runs n ∙ h, lookup-insert_ne i _ _ reg.tasks n ∙ t)

  -- Once the callback of a run's task has run, a step of the registry leaves its record and its task as
  -- they are, or evicts it.
  pub step-IsFinal :
      (x : Input D) (reg : Registry D) → IsWf reg → IsSettled reg → IsFinal (step x reg)
  unfolding step
  step-IsFinal (starts now args) reg w h = start-IsFinal now args reg w h
  step-IsFinal (cancels_run now j) reg w h = cancel-IsFinal now j reg h
  step-IsFinal (enters now j) reg w (h, t) = elim (nat_eq.dec i j) [
    | yes e ↦ rw (sym e, h, t) (inr (h, t))
    | no n ↦ enter_other now j _ _ reg n (h, t)
  ]
  step-IsFinal (ends now j o) reg w (h, t) = elim (nat_eq.dec i j) [
    | yes e ↦ rw (sym e, h, t) (inr (h, t))
    | no n ↦ end_other now j o _ _ reg n (h, t)
  ]
  step-IsFinal (drops j) reg w (h, t) = elim (nat_eq.dec i j) [
    | yes e ↦ rw (sym e, t) (inr (h, t))
    | no n ↦ drop_other j _ reg n (h, t)
  ]
  step-IsFinal (settles now j) reg w (h, t) = elim (nat_eq.dec i j) [
    | yes e ↦ rw (sym e, h, t) (inr (h, t))
    | no n ↦ settle_other now j _ _ reg n (h, t)
  ]
