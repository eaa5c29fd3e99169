-- ===== src/Network/Traffic.antt =====
-- The calls on the store of network records, in sequence.
use browser_cli.Prelude.{ℕ, List, [], ◌∷◌, Bool}
use browser_cli.Network.Filter.{TextOperations, NetworkRecord, NetworkRecordFilter}
use browser_cli.Network.Store.{
  NetworkRecordStore, get_captured_records, add_record, start_capture, stop_capture, clear,
  wait_for_record, end_wait,
}

-- Records that arrive, the calls of the service, and the end of a wait.
pub data Traffic (D : Type 0) : Type 0 where
  arrives : NetworkRecord D → Traffic D
  starts_capture stops_capture clears : Traffic D
  reads : NetworkRecordFilter → Bool → Traffic D
  waits : NetworkRecordFilter → Traffic D
  ends_wait : ℕ → Traffic D

module _ {D : Type 0} (t : TextOperations) where
  unfoldable pub step : Traffic D → NetworkRecordStore D → NetworkRecordStore D
  step (arrives r) s = add_record t r s
  step starts_capture s = start_capture s
  step stops_capture s = stop_capture s
  step clears s = clear s
  step (reads f clear) s = (get_captured_records t f clear s).1
  step (waits f) s = (wait_for_record t f s).1
  step (ends_wait n) s = end_wait n s

  unfoldable pub run : List (Traffic D) → NetworkRecordStore D → NetworkRecordStore D
  run [] s = s
  run (x ∷ xs) s = run xs (step x s)
