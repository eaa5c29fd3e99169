-- ===== src/Daemon/Runs/Started.antt =====
-- A run that is just started, and a run that is over.
use browser_cli.Prelude.{ℕ, ◌+◌, ◌≡◌, inl, inr, refl, none, some, arith, nat_eq, Option-cases}
use browser_cli.Dict.{lookup, lookup-insert_self}
use browser_cli.Daemon.Runs.Records.{queued, Registry}
use browser_cli.Daemon.Runs.Registry.{
  RunView, evictable, evict_completed_runs, start_read, status, with_run, new_run,
}
use browser_cli.Daemon.Runs.WellFormed.{IsWf}
use browser_cli.Daemon.Runs.Eviction.{evict-keeps}
use browser_cli.Daemon.Runs.Writes.{with_run-IsWf}

module _ {D : Type 0} where
  abbrev pub queued_view : ℕ → ℕ → RunView D
  queued_view now run_id = record {
    run_id = run_id;
    status = queued;
    created_at = now;
    updated_at = now;
    result = none;
    error = none;
    meta = none;
  }

  fresh_id : (reg : Registry D) → IsWf reg → lookup (reg.counter + 1) reg.runs ≡ none
  fresh_id reg w = elim (Option-cases (lookup (reg.counter + 1) reg.runs)) [
    | inl e ↦ e
    | inr (r, e) ↦ let k = w.each _ r e in absurd (omega (arith, k.known))
  ]

  with_run-found :
      (now : ℕ) (args : D) (reg : Registry D)
      → IsWf reg
      → lookup (reg.counter + 1) (evict_completed_runs (with_run now args reg)).runs
        ≡ some (new_run now (reg.counter + 1) args)
  unfolding evictable
  with_run-found now args reg w =
      evict-keeps (with_run now args reg) (reg.counter + 1) (new_run now (reg.counter + 1) args)
        (with_run-IsWf now args reg w) (lookup-insert_self _ _ reg.runs) refl

  -- A started run takes an id that no run has, the eviction that follows keeps it whatever the bound
  -- is, and the answer shows it queued, without a result and an error.
  pub start_read-lem :
      (now : ℕ) (args : D) (reg : Registry D)
      → IsWf reg
      → (lookup (reg.counter + 1) reg.runs ≡ none)
        × (lookup (reg.counter + 1) (start_read now args reg).1.runs
            ≡ some (new_run now (reg.counter + 1) args))
        × ((start_read now args reg).0 ≡ some (queued_view now (reg.counter + 1)))
  unfolding start_read status
  start_read-lem now args reg w =
      let there = with_run-found now args reg w in (fresh_id reg w, there, rw (status, there) refl)
