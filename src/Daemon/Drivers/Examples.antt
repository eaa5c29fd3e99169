-- ===== src/Daemon/Drivers/Examples.antt =====
-- The theorems on the service's driver at a concrete service: the extension drives the browser and is
-- gone when a second command starts.
use browser_cli.Prelude.{
  String, List, [], ◌∷◌, Option, none, some, true, ◌≡◌, ◌⊎◌, refl, ◌==◌, string_eq, nat_eq, arith,
}
use browser_cli.Prelude.Sort.{sort, insert_sorted}
use browser_cli.Dict.{lookup, lookup-nil, insert}
use browser_cli.Tabs.Records.{TabRecord, empty}
use browser_cli.Tabs.Registry.{
  add_tab, new_tab, update_tab, apply_update, set_active_tab, owned, snapshot_state,
  clear_snapshot_state, forget_snapshots, clear,
}
use browser_cli.Tabs.Invariant
use browser_cli.Tabs.Preserve.{add_tab-IsWf}
use browser_cli.Daemon.Drivers.{extension, playwright, BrowserService, Driving}
use browser_cli.Daemon.Drivers.Rebinding.{
  reopen_tabs, update_pages, restore_active, activate_driver, maybe_apply_pending_rebind,
  watch_change,
}
use browser_cli.Daemon.Drivers.Commands.{
  Hub, new_service, ensure_started, rebuild_workspace_binding, maybe_preflight_workspace_binding,
  begin_command, end_command, stop, enter_isolated_context,
}
use browser_cli.Daemon.Drivers.Reading.{ReadOnce, should_retry_read_on_playwright, read_page}
use browser_cli.Daemon.Drivers.Calls.{Call, begins, ends_command, reads, step, run}
use browser_cli.Daemon.Drivers.Binding.{IsBound}
use browser_cli.Daemon.Drivers.Lifecycle.{run-IsBound}
use browser_cli.Daemon.Drivers.Ownership.{owner_at}
use browser_cli.Daemon.Drivers.Reopening.{activate_driver_owners}
use browser_cli.Daemon.Drivers.SafePoints.{Replaces, step_held}

-- What a test by evaluation unfolds.
program : Unit {0}
unfolding lookup insert sort insert_sorted string_eq nat_eq add_tab new_tab update_tab apply_update
    set_active_tab owned snapshot_state clear_snapshot_state forget_snapshots clear reopen_tabs
    update_pages restore_active activate_driver maybe_apply_pending_rebind watch_change
    ensure_started rebuild_workspace_binding maybe_preflight_workspace_binding begin_command
    end_command stop enter_isolated_context should_retry_read_on_playwright read_page step run
program = tt

abbrev drivers : Driving
drivers = record {
  now = 5;
  stop_error = λ name. some "timeout";
  start_error = λ name. none;
  rebuild_error = none;
  new_tab = λ name tab. some (record { url = tab.url; title = "again" });
  has_text = λ p t. p == t;
}

abbrev gone : Hub String
gone = record { start_error = none; session = none; binding_state = none }

abbrev service : BrowserService
service = record (new_service (add_tab 1 "p1" "a" "http://x" "X" empty).1) {
  driver = some extension;
  driver_name = some extension;
  command_depth = 1;
}

abbrev title_of : Option TabRecord → String
title_of none = ""
title_of (some tab) = tab.title

-- The tab is opened again under its id, and the title is the new page's.
rebound : (step drivers gone (begins "open") service).driver ≡ some playwright
unfolding program
rebound = refl

retitled : title_of (lookup "p1" (step drivers gone (begins "open") service).tabs.tabs) ≡ "again"
unfolding program
retitled = refl

abbrev lost : ReadOnce
lost = record { error = some "Extension disconnected"; on_snapshots = λ r. r }

abbrev read : ReadOnce
read = record { error = none; on_snapshots = λ r. r }

-- A read that the extension fails leaves the running command to Playwright.
fallen_back : (step drivers gone (reads "html" lost read) service).driver ≡ some playwright
unfolding program
fallen_back = refl

service_tabs : Invariant.IsWf service.tabs
service_tabs =
    add_tab-IsWf 1 "p1" "a" "http://x" "X" empty (lookup-nil {V = TabRecord} "p1")
      Invariant.IsWf-empty

activate_driver_owners_example :
    Invariant.IsWf (activate_driver drivers playwright "test" service).1.tabs
    × (owner_at "p1" (activate_driver drivers playwright "test" service).1.tabs
        ≡ owner_at "p1" service.tabs)
activate_driver_owners_example =
    activate_driver_owners drivers playwright "test" service "p1" service_tabs

abbrev calls : List (Driving × Hub String × Call)
calls =
    (drivers, gone, reads "html" lost read)
    ∷ (drivers, gone, begins "open")
    ∷ (drivers, gone, ends_command true)
    ∷ []

run-IsBound_example : IsBound (run calls service)
run-IsBound_example = run-IsBound calls service (record { bound = refl; tabs = service_tabs })

step_held_example :
    ((step drivers gone (reads "html" lost read) service).driver ≡ some extension)
    ⊎ Replaces drivers gone service (reads "html" lost read)
step_held_example = step_held drivers gone (reads "html" lost read) service (ground arith) refl
