-- ===== src/Daemon/Runs/Writes.antt =====
-- daemon/run_registry.py: the registry after each of its writes.
use browser_cli.Prelude.{
  ℕ, ◌+◌, ◌≤◌, ◌≡◌, ◌⊎◌, inl, inr, refl, some, Bool, true, false, arith, nat_eq, Bool-cases,
  Option-cases, ◌∙◌, ap, sym,
}
use mathlib.Core.Option.{some-injective}
use browser_cli.Dict.{lookup, insert-NodupKeys, insert-cases, lookup-insert_self, lookup-insert_ne}
use browser_cli.Daemon.Runs.Records.{
  is_terminal, RunRecord, TaskState, waiting, working, finished, settled, Registry, Outcome,
  completes, cancels, fails,
}
use browser_cli.Daemon.Runs.Registry.{
  evict_completed_runs, task_is_active, active_task, start_read, cancel, with_run, put_run, set_run,
  new_run, started, finalized, is_cancel, enter_run, finish, conclude,
}
use browser_cli.Daemon.Runs.WellFormed.{IsWf, is_over, active-is_over, evict-IsWf}
use browser_cli.Daemon.Runs.Eviction.{evict-found}

module _ {D : Type 0} where
  -- A run may be written again with another task, if the task is active or the status terminal.
  pub set_run-IsWf :
      (i : ℕ) (r : RunRecord D) (t : TaskState) (reg : Registry D)
      → r.run_id ≡ i
      → i ≤ reg.counter
      → (is_over t ≡ false) ⊎ (is_terminal r.status ≡ true)
      → IsWf reg
      → IsWf (set_run i r t reg)
  set_run-IsWf i r t reg keyed known ok w = record {
    distinct = insert-NodupKeys i r reg.runs w.distinct;
    each = λ j s h. elim (insert-cases j i r s reg.runs h) [
      | inl (e, f) ↦ record {
        keyed = ap (λ x. x.run_id) (sym f) ∙ keyed ∙ sym e;
        known = rw e known;
        task = (t, rw e (lookup-insert_self i t reg.tasks), rw (sym f) ok);
      }
      | inr (n, there) ↦
          let k = w.each j s there in
          let (u, found, u_ends) = k.task in
          record {
            keyed = k.keyed;
            known = k.known;
            task = (u, lookup-insert_ne j i t reg.tasks n ∙ found, u_ends);
          }
    ];
  }

  pub more-IsWf : (reg : Registry D) → IsWf reg → IsWf (record reg { counter = reg.counter + 1 })
  more-IsWf reg w = record {
    distinct = w.distinct;
    each = λ j s h.
        let k = w.each j s h in
        record { keyed = k.keyed; known = omega (arith, k.known); task = k.task };
  }

  pub with_run-IsWf :
      (now : ℕ) (args : D) (reg : Registry D) → IsWf reg → IsWf (with_run now args reg)
  with_run-IsWf now args reg w =
      set_run-IsWf (reg.counter + 1) (new_run now (reg.counter + 1) args) waiting
        (record reg { counter = reg.counter + 1 }) refl (omega arith) (inl refl) (more-IsWf reg w)

  pub start_read-IsWf :
      (now : ℕ) (args : D) (reg : Registry D) → IsWf reg → IsWf (start_read now args reg).1
  unfolding start_read
  start_read-IsWf now args reg w = evict-IsWf (with_run now args reg) (with_run-IsWf now args reg w)

  -- The record of a run may be replaced, if the new status fits the task.
  pub put_run-IsWf :
      (i : ℕ) (r r' : RunRecord D) (reg : Registry D)
      → lookup i reg.runs ≡ some r
      → r'.run_id ≡ r.run_id
      → ((t : TaskState)
          → lookup i reg.tasks ≡ some t
          → (is_over t ≡ false) ⊎ (is_terminal r'.status ≡ true))
      → IsWf reg
      → IsWf (put_run i r' reg)
  put_run-IsWf i r r' reg there same ok w = record {
    distinct = insert-NodupKeys i r' reg.runs w.distinct;
    each = λ j s h. elim (insert-cases j i r' s reg.runs h) [
      | inl (e, f) ↦
          let k = w.each i r there in
          let (t, found, _) = k.task in
          record {
            keyed = ap (λ x. x.run_id) (sym f) ∙ same ∙ k.keyed ∙ sym e;
            known = rw e k.known;
            task = (t, rw e found, rw (sym f) (ok t found));
          }
      | inr (n, before) ↦ w.each j s before
    ];
  }

  pub cancel-IsWf : (now i : ℕ) (reg : Registry D) → IsWf reg → IsWf (cancel now i reg).1
  unfolding cancel task_is_active
  cancel-IsWf now i reg w = elim (Option-cases (lookup i reg.runs)) [
    | inl e ↦ rw (cancel, e) w
    | inr (r, e) ↦ elim (Bool-cases (task_is_active reg i)) [
      | inl b ↦
          rw (cancel, e, b)
            (put_run-IsWf i r _ reg e refl
              (λ t f. inl (active-is_over t (ap active_task (sym f) ∙ b))) w)
      | inr b ↦ rw (cancel, e, b) w
    ]
  ]

  pub finalized-is_terminal :
      (now : ℕ) (o : Outcome D) (r : RunRecord D) → is_terminal (finalized now o r).status ≡ true
  finalized-is_terminal now (completes _ _) r = refl
  finalized-is_terminal now (cancels _ _) r = refl
  finalized-is_terminal now (fails _ _ _) r = refl

  pub finalized-run_id :
      (now : ℕ) (o : Outcome D) (r : RunRecord D) → (finalized now o r).run_id ≡ r.run_id
  finalized-run_id now (completes _ _) r = refl
  finalized-run_id now (cancels _ _) r = refl
  finalized-run_id now (fails _ _ _) r = refl

  -- The step of a run that is remembered, with the eviction after it.
  pub write-IsWf :
      (i : ℕ) (r r' : RunRecord D) (t : TaskState) (reg : Registry D)
      → lookup i reg.runs ≡ some r
      → r'.run_id ≡ r.run_id
      → (is_over t ≡ false) ⊎ (is_terminal r'.status ≡ true)
      → IsWf reg
      → IsWf (set_run i r' t reg)
  write-IsWf i r r' t reg there same ok w =
      let k = w.each i r there in set_run-IsWf i r' t reg (same ∙ k.keyed) k.known ok w

  pub enter_run-IsWf :
      (now i : ℕ) (reg : Registry D)
      → IsWf reg
      → IsWf (enter_run now i (lookup i reg.runs) (lookup i reg.tasks) reg)
  enter_run-IsWf now i reg w = elim (Option-cases (lookup i reg.runs)) [
    | inl e ↦ rw e w
    | inr (r, e) ↦ elim (Option-cases (lookup i reg.tasks)) [
      | inl f ↦ rw (e, f) w
      | inr (waiting, f) ↦
          rw (e, f) (write-IsWf i r (started now r) working reg e refl (inl refl) w)
      | inr (working, f) ↦ rw (e, f) w
      | inr (finished c, f) ↦ rw (e, f) w
      | inr (settled c, f) ↦ rw (e, f) w
    ]
  ]

  -- A task that returns leaves a terminal status, unless it was cancelled.
  pub finish-IsWf :
      (i : ℕ) (c : Bool) (reg : Registry D)
      → ((r : RunRecord D)
          → lookup i reg.runs ≡ some r
          → (is_over (finished c) ≡ false) ⊎ (is_terminal r.status ≡ true))
      → IsWf reg
      → IsWf (finish i c reg)
  finish-IsWf i c reg ok w = elim (Option-cases (lookup i reg.tasks)) [
    | inl e ↦ rw (finish, e) w
    | inr (t, e) ↦
        rw (finish, e)
          (record {
            distinct = w.distinct;
            each = λ j r h. elim (nat_eq.dec j i) [
              | yes p ↦
                  let k = w.each j r h in
                  record {
                    keyed = k.keyed;
                    known = k.known;
                    task = (
                      finished c,
                      rw p (lookup-insert_self i (finished c) reg.tasks),
                      ok r (rw p at h),
                    );
                  }
              | no n ↦
                  let k = w.each j r h in
                  let (u, found, fits) = k.task in
                  record {
                    keyed = k.keyed;
                    known = k.known;
                    task = (u, lookup-insert_ne j i (finished c) reg.tasks n ∙ found, fits);
                  }
            ];
          })
  ]

  pub conclude-IsWf :
      (now i : ℕ) (o : Outcome D) (r : RunRecord D) (reg : Registry D)
      → lookup i reg.runs ≡ some r
      → IsWf reg
      → IsWf (conclude now i o r reg)
  unfolding conclude
  conclude-IsWf now i o r reg e w =
      let put = put_run i (finalized now o r) reg in
      finish-IsWf i (is_cancel o) (evict_completed_runs put)
        (λ x h. inr (
          ap (λ y. is_terminal y.status)
            (some-injective _ _
              (sym (evict-found put i x h) ∙ lookup-insert_self i (finalized now o r) reg.runs))
          ∙ finalized-is_terminal now o r))
        (evict-IsWf put (
          put_run-IsWf i r (finalized now o r) reg e (finalized-run_id now o r)
            (λ _ _. inr (finalized-is_terminal now o r)) w))
