-- ===== src/Daemon/Drivers/Rebinding.antt =====
-- daemon/browser_service.py: `_activate_driver` and what it calls, and when a waiting rebind is applied.
use browser_cli.Prelude.{
  String, ℕ, ◌+◌, List, [], ◌∷◌, Option, none, some, Bool, true, false, not, ◌&&◌, ◌||◌, ◌==◌,
  string_eq, nat_eq, if◌then◌else◌,
}
use browser_cli.Dict.{Dict}
use browser_cli.Refs.{no_snapshots}
use browser_cli.Extension.Messages.{ExtensionHello, has_required_capabilities}
use browser_cli.Tabs.Records.{TabRecord, TabRegistry, TabError, Result, ok, raise}
use browser_cli.Tabs.Registry.{update_tab, set_active_tab, snapshot_state, clear_snapshot_state}
use browser_cli.Daemon.Drivers.{
  DriverName, extension, same_driver, StabilityMetrics, driver_failed, tab_failed, BrowserService,
  Page, Driving, Attempted, is_some, page_update, text_or_else,
}

abbrev pub reopen_one :
    TabRecord → Option Page → Option (List (TabRecord × Page)) → Option (List (TabRecord × Page))
reopen_one tab none _ = none
reopen_one tab (some page) none = none
reopen_one tab (some page) (some rest) = some ((tab, page) ∷ rest)

-- The first loop: an error ends it.
unfoldable pub reopen_tabs :
    (TabRecord → Option Page) → List TabRecord → Option (List (TabRecord × Page))
reopen_tabs new_tab [] = some []
reopen_tabs new_tab (tab ∷ tabs) = reopen_one tab (new_tab tab) (reopen_tabs new_tab tabs)

abbrev pub settled :
    Result (TabRecord × TabRegistry)
    → TabRegistry
    → (TabRegistry → Option TabError × TabRegistry)
    → Option TabError × TabRegistry
settled (raise e) r f = (some e, r)
settled (ok (_, r')) r f = f r'

-- The second loop: an error leaves the tabs after it as they are.
unfoldable pub update_pages :
    ℕ → List (TabRecord × Page) → TabRegistry → Option TabError × TabRegistry
update_pages now [] r = (none, r)
update_pages now ((tab, page) ∷ pages) r =
    settled (update_tab now tab.page_id (page_update tab page) r) r (update_pages now pages)

abbrev pub ok_or : Result (TabRecord × TabRegistry) → TabRegistry → TabRegistry
ok_or (raise _) r = r
ok_or (ok (_, r')) r = r'

-- The third loop, which ignores errors.
unfoldable pub restore_active : ℕ → Dict String String → TabRegistry → TabRegistry
restore_active now [] r = r
restore_active now ((agent_id, page_id) ∷ rest) r =
    restore_active now rest (ok_or (set_active_tab now agent_id page_id r) r)

abbrev pub noted_error : Option String → StabilityMetrics → StabilityMetrics
noted_error none m = m
noted_error (some e) m = record m {
  cleanup_failures = m.cleanup_failures + 1;
  last_cleanup_error = some e;
}

abbrev pub stop_error_of : Driving → Option DriverName → Option String
stop_error_of w none = none
stop_error_of w (some name) = w.stop_error name

abbrev pub stop_driver_for_transition : Driving → BrowserService → BrowserService
stop_driver_for_transition w s = record s {
  driver = none;
  driver_name = none;
  stability = noted_error (stop_error_of w s.driver_name) s.stability;
}

-- A switch is counted where the driver was another one.
abbrev pub finish_transition :
    Option DriverName → DriverName → String → Bool → BrowserService → BrowserService
finish_transition none name reason reset s = s
finish_transition (some old) name reason reset s =
    if same_driver (some old) name then s else record s {
      stability = record s.stability { driver_switches = s.stability.driver_switches + 1 };
      last_transition = some (record {
        driver_changed_from = old;
        driver_changed_to = name;
        driver_reason = reason;
        state_reset = reset;
      });
    }

abbrev pub is_cons : {A : Type 0} → List A → Bool
is_cons [] = false
is_cons (_ ∷ _) = true

abbrev pub with_pages :
    Option DriverName
    → DriverName
    → String
    → ℕ
    → Dict String String
    → Option (List (TabRecord × Page))
    → BrowserService
    → Attempted
with_pages old name reason now active none s = (some (driver_failed "new_tab"), s)
with_pages old name reason now active (some pages) s =
    let updated = update_pages now pages s.tabs in
    let s' = record s { tabs = updated.1 } in
    elim updated.0 [
      | some e ↦ (some (tab_failed e), s')
      | none ↦ (
        none,
        finish_transition old name reason (is_cons pages) (record s' {
          tabs = if is_cons pages then restore_active now active updated.1 else updated.1;
        }),
      )
    ]

abbrev pub started_driver : DriverName → BrowserService → BrowserService
started_driver name s = record s {
  driver = some name;
  driver_name = some name;
  snapshots = no_snapshots;
  tabs = clear_snapshot_state s.tabs;
}

unfoldable pub activate_driver : Driving → DriverName → String → BrowserService → Attempted
activate_driver w name reason s =
    if same_driver s.driver_name name && is_some s.driver
    then (none, s)
    else let state = snapshot_state s.tabs in
      let stopped = stop_driver_for_transition w s in
      elim (w.start_error name) [
        | some e ↦ (some (driver_failed e), stopped)
        | none ↦
            with_pages s.driver_name name reason w.now state.1
              (reopen_tabs (w.new_tab name) state.0) (started_driver name stopped)
      ]

abbrev pub or_pending_rebind : Option String → String
or_pending_rebind none = "pending-rebind"
or_pending_rebind (some reason) = text_or_else reason "pending-rebind"

abbrev pub without_pending : BrowserService → BrowserService
without_pending s = record s { pending_driver = none; pending_reason = none }

unfoldable pub maybe_apply_pending_rebind : Driving → BrowserService → Attempted
maybe_apply_pending_rebind w s =
    if s.isolated || not (s.command_depth == 0) then (none, s) else elim s.pending_driver [
      | none ↦ (none, s)
      | some target ↦
          activate_driver w target (or_pending_rebind s.pending_reason) (without_pending s)
    ]

-- `session is not None and session.hello.has_required_capabilities()`
abbrev pub is_ready : {J : Type 0} → Option (ExtensionHello J) → Bool
is_ready none = false
is_ready (some hello) = has_required_capabilities hello

-- One round of `_watch_extension_changes`, in which an error of the rebind is swallowed.
abbrev pub swallowed : Attempted → BrowserService
swallowed (none, s) = s
swallowed (some _, s) = without_pending s

unfoldable pub watch_change :
    {J : Type 0} → Driving → Option (ExtensionHello J) → BrowserService → BrowserService
watch_change w session s =
    if is_ready session && not (same_driver s.driver_name extension)
    then if s.command_depth == 0
      then swallowed (activate_driver w extension "extension-connected" s)
      else record s { pending_driver = some extension; pending_reason = some "extension-connected" }
    else s
