-- ===== src/Daemon/Drivers/Commands.antt =====
-- daemon/browser_service.py: the start and the end of a command, and the calls that rebuild, stop and
-- isolate the browser.
use browser_cli.Prelude.{
  String, ◌+◌, ◌-◌, Option, none, some, Bool, true, false, not, ◌&&◌, ◌||◌, any, ◌==◌, string_eq,
  nat_eq, if◌then◌else◌,
}
use browser_cli.Dict.{values}
use browser_cli.Refs.{no_snapshots}
use browser_cli.Extension.Messages.{ExtensionHello}
use browser_cli.Tabs.Records.{TabRecord, TabRegistry}
use browser_cli.Tabs.Registry.{clear}
use browser_cli.Daemon.Presentation.{is_lost}
use browser_cli.Daemon.Drivers.{
  extension, playwright, same_driver, StabilityMetrics, ServiceError, no_backend, not_extension,
  busy_browser, became_busy, driver_failed, BrowserService, Driving, Attempted, then_do, is_some,
  text_or_else,
}
use browser_cli.Daemon.Drivers.Rebinding.{activate_driver, maybe_apply_pending_rebind, is_ready}

-- The hub's answer when it is started, the session that it has, and what the extension says of its
-- binding, or that it raises.
pub record Hub (J : Type 0) : Type 0 where
  pub start_error : Option String
  pub session : Option (ExtensionHello J)
  pub binding_state : Option String

-- What `_maybe_preflight_workspace_binding` reports.
pub data Preflight : Type 0 where
  not_attempted attempt_failed : Preflight
  rebuilt : String → Preflight

abbrev pub zero_metrics : StabilityMetrics
zero_metrics = record {
  commands_started = 0;
  driver_switches = 0;
  workspace_rebuilds = 0;
  extension_disconnects = 0;
  cleanup_failures = 0;
  last_cleanup_error = none;
  active_command = none;
}

abbrev pub new_service : TabRegistry → BrowserService
new_service tabs = record {
  tabs = tabs;
  snapshots = no_snapshots;
  driver_name = none;
  driver = none;
  watching = false;
  command_depth = 0;
  pending_driver = none;
  pending_reason = none;
  last_transition = none;
  stability = zero_metrics;
  isolated = false;
}

abbrev pub is_cleanup : String → Bool
is_cleanup action = action == "close" || action == "close-tab"

abbrev pub is_busy : TabRecord → Bool
is_busy tab = is_some tab.busy || is_some tab.closing

module _ {J : Type 0} (w : Driving) (hub : Hub J) where
  unfoldable pub ensure_started : BrowserService → Attempted
  ensure_started s = if s.isolated then (none, s) else elim hub.start_error [
    | some e ↦ (some (driver_failed e), s)
    | none ↦
        let s' = record s { watching = true } in
        if is_some s.driver
        then (none, s')
        else activate_driver w (if is_ready hub.session then extension else playwright) "startup" s'
  ]

  abbrev pub reset_binding : BrowserService → BrowserService
  reset_binding s = record s {
    snapshots = no_snapshots;
    tabs = clear s.tabs;
    stability = record s.stability { workspace_rebuilds = s.stability.workspace_rebuilds + 1 };
    last_transition = some (record {
      driver_changed_from = extension;
      driver_changed_to = extension;
      driver_reason = "workspace-binding-rebuilt";
      state_reset = true;
    });
  }

  abbrev pub rebuild_started : BrowserService → Attempted
  rebuild_started s =
      if same_driver s.driver_name extension
      then elim w.rebuild_error [
        | some e ↦ (some (driver_failed e), s)
        | none ↦ (none, reset_binding s)
      ]
      else (some not_extension, s)

  unfoldable pub rebuild_workspace_binding : BrowserService → Attempted
  rebuild_workspace_binding s = then_do (ensure_started s) rebuild_started

  -- Errors of the rebuild are reported, not raised.
  abbrev pub reported : String → Attempted → Preflight × BrowserService
  reported binding_state (none, s) = (rebuilt binding_state, s)
  reported binding_state (some _, s) = (attempt_failed, s)

  abbrev pub preflight_of : Option String → BrowserService → Preflight × BrowserService
  preflight_of none s = (attempt_failed, s)
  preflight_of (some state) s =
      let binding_state = text_or_else state "absent" in
      if is_lost binding_state
      then reported binding_state (rebuild_workspace_binding s)
      else (not_attempted, s)

  unfoldable pub maybe_preflight_workspace_binding : BrowserService → Preflight × BrowserService
  maybe_preflight_workspace_binding s =
      if not (same_driver s.driver_name extension) || not (s.command_depth == 0)
      then (not_attempted, s)
      else if not (is_ready hub.session) || any is_busy (values s.tabs.tabs)
      then (not_attempted, s)
      else preflight_of hub.binding_state s

  abbrev pub counted : String → BrowserService → BrowserService
  counted action s = record s {
    stability = record s.stability {
      commands_started = s.stability.commands_started + 1;
      active_command = some action;
    };
  }

  abbrev pub disconnected : BrowserService → BrowserService
  disconnected s = record s {
    stability = record s.stability {
      extension_disconnects = s.stability.extension_disconnects + 1;
    };
  }

  -- `_driver_name` is the extension's, whose session is gone
  abbrev pub leave_extension : BrowserService → Attempted
  leave_extension s =
      if same_driver s.driver_name extension && not (is_ready hub.session)
      then activate_driver w playwright "extension-disconnected-command" (disconnected s)
      else (none, s)

  abbrev pub enter_command : BrowserService → Attempted
  enter_command s = (none, record s { command_depth = s.command_depth + 1 })

  abbrev pub prepare_command : String → BrowserService → Attempted
  prepare_command action s = then_do (ensure_started s) (λ s1.
      then_do (leave_extension (counted action (maybe_preflight_workspace_binding s1).1))
        (maybe_apply_pending_rebind w))

  unfoldable pub begin_command : String → BrowserService → Attempted
  begin_command action s =
      if is_cleanup action
      then if is_some s.driver then enter_command (counted action s) else (some no_backend, s)
      else then_do (prepare_command action s) enter_command

  abbrev pub leave_command : BrowserService → BrowserService
  leave_command s =
      let s' = record s { command_depth = s.command_depth - 1 } in
      if s'.command_depth == 0
      then record s' { stability = record s'.stability { active_command = none } }
      else s'

  unfoldable pub end_command : Bool → BrowserService → Attempted
  end_command allow_rebind s =
      let s' = leave_command s in
      if s'.command_depth == 0 && allow_rebind then maybe_apply_pending_rebind w s' else (none, s')

  -- The errors of stopping are reported only.
  unfoldable pub stop : BrowserService → BrowserService
  stop s = record s {
    watching = false;
    driver = none;
    driver_name = none;
    snapshots = no_snapshots;
    stability = record s.stability { active_command = none };
  }

  -- The error `e` leaves the context by its `finally`, whose own error takes its place.
  abbrev pub abandoned : ServiceError → Attempted → Attempted
  abandoned e (none, s) = (some e, s)
  abandoned e (some e', s) = (some e', s)

  -- `isolated_context` up to its `yield`; `create_error` is that of `create_isolated_driver`.
  abbrev pub isolate : Option String → BrowserService → Attempted
  isolate create_error s =
      if not (s.command_depth == 1)
      then abandoned became_busy (end_command true s)
      else elim (w.start_error playwright) [
        | some e ↦ abandoned (driver_failed e) (end_command true s)
        | none ↦ elim create_error [
          | some e ↦ abandoned (driver_failed e) (end_command true s)
          | none ↦ (none, s)
        ]
      ]

  unfoldable pub enter_isolated_context : Option String → BrowserService → Attempted
  enter_isolated_context create_error s =
      if not (s.command_depth == 0)
      then (some busy_browser, s)
      else then_do (begin_command "batch" s) (isolate create_error)

-- The service that works in the isolated context.
abbrev pub isolated_service : TabRegistry → BrowserService
isolated_service tabs = record (new_service tabs) {
  isolated = true;
  driver = some playwright;
  driver_name = some playwright;
}
