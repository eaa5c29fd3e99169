-- ===== src/Daemon/Drivers/Calls.antt =====
-- The calls of `BrowserService` that can change its driver, in sequence.
use browser_cli.Prelude.{String, List, [], ◌∷◌, Option, Bool, nat_eq, string_eq}
use browser_cli.Daemon.Drivers.{BrowserService, Driving}
use browser_cli.Daemon.Drivers.Rebinding.{watch_change}
use browser_cli.Daemon.Drivers.Commands.{
  Hub, ensure_started, rebuild_workspace_binding, begin_command, end_command, stop,
  enter_isolated_context,
}
use browser_cli.Daemon.Drivers.Reading.{ReadOnce, read_page}

pub data Call : Type 0 where
  starts changes rebuilds stops : Call
  begins : String → Call
  ends_command : Bool → Call
  isolates : Option String → Call
  reads : String → ReadOnce → ReadOnce → Call

module _ {J : Type 0} where
  -- The service after a call, whether the call raised or not.
  unfoldable pub step : Driving → Hub J → Call → BrowserService → BrowserService
  step w hub starts s = (ensure_started w hub s).1
  step w hub changes s = watch_change w hub.session s
  step w hub rebuilds s = (rebuild_workspace_binding w hub s).1
  step w hub stops s = stop w hub s
  step w hub (begins action) s = (begin_command w hub action s).1
  step w hub (ends_command allow_rebind) s = (end_command w hub allow_rebind s).1
  step w hub (isolates create_error) s = (enter_isolated_context w hub create_error s).1
  step w hub (reads output_mode first second) s = (read_page w output_mode first second s).1

  unfoldable pub run : List (Driving × Hub J × Call) → BrowserService → BrowserService
  run [] s = s
  run ((w, hub, c) ∷ cs) s = run cs (step w hub c s)
