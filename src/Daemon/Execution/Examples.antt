-- ===== src/Daemon/Execution/Examples.antt =====
-- The theorems on the coordinator, at a batch inside with cleanup beside it and others waiting.
use browser_cli.Prelude.{◌<◌, ◌≡◌, ◌⊎◌, refl, true, arith, nat_eq}
use browser_cli.Daemon.Execution.{
  Mode, shared, batch, exclusive, cleanup, may_enter, arrive, enter, count, total, System, start,
  arrived, entered, left, arrives, enters, leaves, Reach, here, next,
}
use browser_cli.Daemon.Execution.Exclusion.{exclusion, progress}

abbrev in_batch : System
in_batch = entered batch (arrived batch start)

in_batch_reached : Reach in_batch
unfolding arrive may_enter nat_eq
in_batch_reached = next (next here (arrives batch)) (enters batch (omega arith) refl)

-- A shared task and an exclusive one wait while cleanup joins the batch.
abbrev crowded : System
crowded = entered cleanup (arrived cleanup (arrived exclusive (arrived shared in_batch)))

crowded_reached : Reach crowded
unfolding arrive enter may_enter nat_eq
crowded_reached =
    next
      (next (next (next in_batch_reached (arrives shared)) (arrives exclusive)) (arrives cleanup))
      (enters cleanup (omega arith) refl)

exclusion_example :
    ((crowded.inside.exclusive_count ≡ 0) ⊎ (total crowded.inside ≡ 1))
    × ((crowded.inside.batch_count ≡ 0)
        ⊎ ((crowded.inside.batch_count ≡ 1)
            × (crowded.inside.exclusive_count ≡ 0)
            × (crowded.inside.shared_count ≡ 0)))
exclusion_example = exclusion crowded_reached

abbrev emptied : System
emptied = left cleanup (left batch crowded)

emptied_reached : Reach emptied
emptied_reached =
    next (next crowded_reached (leaves batch (omega arith))) (leaves cleanup (omega arith))

progress_example :
    (mode : Mode) × (0 < count mode emptied.waiting) × (may_enter mode emptied.coordinator ≡ true)
progress_example = progress emptied_reached refl (omega arith)

abbrev idle : System
idle = arrived shared start
