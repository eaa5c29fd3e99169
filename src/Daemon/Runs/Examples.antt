-- ===== src/Daemon/Runs/Examples.antt =====
-- The theorems on the registry of runs, where one run is over and the next one starts.
use browser_cli.Prelude.{ℕ, ◌≡◌, refl, List, [], ◌∷◌, ◌++◌, none, false, nat_eq}
use browser_cli.Prelude.Sort.{sort}
use browser_cli.Dict.{lookup, insert, erase}
use browser_cli.Daemon.Runs.Records.{
  RunRecord, Registry, completes, Input, starts, cancels_run, enters, settles, drops, ends, empty,
}
use browser_cli.Daemon.Runs.Registry.{
  evictable, evict_loop, evict_completed_runs, task_is_active, start_read, cancel, conclude,
  with_run, new_run, step, run, started, finalized,
}
use browser_cli.Daemon.Runs.WellFormed.{IsWf}
use browser_cli.Daemon.Runs.Eviction.{IsTight, evict-IsTight}
use browser_cli.Daemon.Runs.Writes.{with_run-IsWf}
use browser_cli.Daemon.Runs.Lifecycle.{runs-IsWf}
use browser_cli.Daemon.Runs.Finality.{IsSettled, IsFinal, step-IsFinal}

-- The first run is read to its end; the second is cancelled before its first turn.
abbrev inputs : List (Input ℕ)
inputs = starts 1 70 ∷ enters 2 1 ∷ ends 3 1 (completes 71 none) ∷ settles 4 1 ∷ []

abbrev one_over : Registry ℕ
one_over = run inputs (empty 1)

abbrev run_over : RunRecord ℕ
run_over = finalized 3 (completes 71 none) (started 2 (new_run 1 1 70))

runs-IsWf_example :
    IsWf
      (run (inputs ++ starts 5 72 ∷ cancels_run 6 2 ∷ drops 2 ∷ settles 7 2 ∷ []) (empty {D = ℕ} 1))
runs-IsWf_example =
    runs-IsWf 1 (inputs ++ starts 5 72 ∷ cancels_run 6 2 ∷ drops 2 ∷ settles 7 2 ∷ [])

abbrev crowded : Registry ℕ
crowded = with_run 5 72 one_over

crowded-IsWf : IsWf crowded
crowded-IsWf = with_run-IsWf 5 72 one_over (runs-IsWf 1 inputs)

evict-IsTight_example : IsTight crowded (evict_completed_runs crowded)
evict-IsTight_example = evict-IsTight crowded crowded-IsWf

over : IsSettled 1 run_over false one_over
unfolding run step start_read cancel conclude evict_completed_runs evict_loop sort lookup insert
    erase nat_eq
over = (refl, refl)

step-IsFinal_example : IsFinal 1 run_over false (step (starts 5 72) one_over)
step-IsFinal_example =
    step-IsFinal 1 run_over false (starts 5 72) one_over (runs-IsWf 1 inputs) over

-- The second run takes the place of the first, and its cancellation is what its log ends with.
test_evicted : lookup 1 (step (starts 5 72) one_over).runs ≡ none
unfolding run step start_read cancel conclude evict_completed_runs evictable task_is_active
    evict_loop sort lookup insert erase nat_eq
test_evicted = refl
