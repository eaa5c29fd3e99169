-- ===== src/Daemon/Runs/WellFormed.antt =====
-- daemon/run_registry.py: what holds of the registry between its calls, and after eviction.
use browser_cli.Prelude.{
  ℕ, ◌≤◌, ◌≡◌, ◌⊎◌, inl, inr, refl, List, [], ◌∷◌, some, Bool, true, false, leb, length, arith,
  nat_eq, Bool-cases, ◌∙◌,
}
use browser_cli.Dict.{Dict, lookup, NodupKeys, erase-NodupKeys, lookup-erase_ne, erase-cases}
use browser_cli.Daemon.Runs.Records.{
  RunRecord, TaskState, waiting, working, finished, settled, Registry, is_terminal, is_active,
}
use browser_cli.Daemon.Runs.Registry.{evict_loop, evict_completed_runs, forget}

-- Whether the run's status is terminal by now: not while its task is active, nor between the end of
-- a cancelled task and its callback.
abbrev pub is_over : TaskState → Bool
is_over waiting = false
is_over working = false
is_over (finished true) = false
is_over (finished false) = true
is_over (settled _) = true

pub active-is_over : (t : TaskState) → is_active t ≡ true → is_over t ≡ false
active-is_over waiting _ = refl
active-is_over working _ = refl
active-is_over (finished c) h = absurd (ground arith)
active-is_over (settled c) h = absurd (ground arith)

module _ {D : Type 0} where
  -- A record under its id, with its task; a run that is over has a terminal status.
  pub record IsRun (counter run_id : ℕ) (tasks : Dict ℕ TaskState) (r : RunRecord D) : Type 0 where
    pub keyed : r.run_id ≡ run_id
    pub known : run_id ≤ counter
    pub task :
        (t : TaskState) × (lookup run_id tasks ≡ some t)
        × ((is_over t ≡ false) ⊎ (is_terminal r.status ≡ true))

  pub record IsWf (reg : Registry D) : Type 0 where
    pub distinct : NodupKeys reg.runs
    pub each :
        (i : ℕ) (r : RunRecord D) → lookup i reg.runs ≡ some r → IsRun reg.counter i reg.tasks r

  forget-IsWf : (i : ℕ) (reg : Registry D) → IsWf reg → IsWf (forget i reg)
  forget-IsWf i reg w = record {
    distinct = erase-NodupKeys i reg.runs w.distinct;
    each = λ j r h.
        let (n, there) = erase-cases j i r reg.runs h in
        let k = w.each j r there in
        let (t, found, ends) = k.task in
        record {
          keyed = k.keyed;
          known = k.known;
          task = (t, lookup-erase_ne j i reg.tasks n ∙ found, ends);
        };
  }

  evict_loop-IsWf :
      (rs : List (RunRecord D)) (reg : Registry D) → IsWf reg → IsWf (evict_loop rs reg)
  unfolding evict_loop
  evict_loop-IsWf [] reg w = w
  evict_loop-IsWf (r ∷ rs) reg w =
      elim (Bool-cases (leb (length reg.runs) reg.max_completed_runs)) [
        | inl e ↦ rw e w
        | inr e ↦ rw e (evict_loop-IsWf rs _ (forget-IsWf r.run_id reg w))
      ]

  pub evict-IsWf : (reg : Registry D) → IsWf reg → IsWf (evict_completed_runs reg)
  unfolding evict_completed_runs
  evict-IsWf reg w = elim (Bool-cases (leb (length reg.runs) reg.max_completed_runs)) [
    | inl e ↦ rw e w
    | inr e ↦ rw e (evict_loop-IsWf _ reg w)
  ]
