-- ===== src/Daemon/Drivers.antt =====
-- daemon/browser_service.py: which driver the service works with. What the drivers answer, and the
-- session of the extension's hub, are arguments; one call of the service is one step.
use browser_cli.Prelude.{
  String, ℕ, zero, ◌+◌, ◌-◌, List, [], ◌∷◌, Option, none, some, Bool, true, false, not, ◌&&◌, ◌||◌,
  ◌==◌, string_eq, Eq, if◌then◌else◌,
}
use browser_cli.Dict.{Dict, lookup}
use browser_cli.Extension.Messages.{ExtensionHello, has_required_capabilities}
use browser_cli.Refs.{SnapshotRegistry, no_snapshots}
use browser_cli.Tabs.Records.{TabRecord, TabRegistry, TabUpdate, TabError, Result, ok, raise}
use browser_cli.Tabs.Registry.{
  update_tab, set_active_tab, snapshot_state, clear_snapshot_state, clear,
}
pub mod Rebinding
pub mod Commands
pub mod Reading
pub mod Ownership
pub mod Calls
pub mod Binding
pub mod Reopening
pub mod Lifecycle
pub mod SafePoints
mod Examples

pub data DriverName : Type 0 where
  extension playwright : DriverName

abbrev pub same_driver : Option DriverName → DriverName → Bool
same_driver none _ = false
same_driver (some extension) extension = true
same_driver (some extension) playwright = false
same_driver (some playwright) extension = false
same_driver (some playwright) playwright = true

pub record StabilityMetrics : Type 0 where
  pub commands_started : ℕ
  pub driver_switches : ℕ
  pub workspace_rebuilds : ℕ
  pub extension_disconnects : ℕ
  pub cleanup_failures : ℕ
  pub last_cleanup_error : Option String
  pub active_command : Option String

pub record Transition : Type 0 where
  pub driver_changed_from : DriverName
  pub driver_changed_to : DriverName
  pub driver_reason : String
  pub state_reset : Bool

pub data ServiceError : Type 0 where
  no_backend not_extension busy_browser became_busy unsupported_mode : ServiceError
  driver_failed : String → ServiceError
  tab_failed : TabError → ServiceError

-- `driver` is the object, `driver_name` what the service believes it to be. The page counter and the
-- diagnostics of the current task are left out.
pub record BrowserService : Type 0 where
  pub tabs : TabRegistry
  pub snapshots : SnapshotRegistry
  pub driver_name : Option DriverName
  pub driver : Option DriverName
  pub watching : Bool
  pub command_depth : ℕ
  pub pending_driver : Option DriverName
  pub pending_reason : Option String
  pub last_transition : Option Transition
  pub stability : StabilityMetrics
  pub isolated : Bool

-- `url` and `title` of a page that was opened again; an empty text stands for none.
pub record Page : Type 0 where
  pub url : String
  pub title : String

-- What the drivers do in a call: the error that stopping, starting or rebuilding one raises, and the
-- page that `new_tab` opens for a record, or its error; and whether a text stands in another one.
pub record Driving : Type 0 where
  pub now : ℕ
  pub stop_error : DriverName → Option String
  pub start_error : DriverName → Option String
  pub rebuild_error : Option String
  pub new_tab : DriverName → TabRecord → Option Page
  pub has_text : String → String → Bool

-- A call raises or not, and leaves a service either way.
abbrev pub Attempted : Type 0
Attempted = Option ServiceError × BrowserService

abbrev pub then_do : Attempted → (BrowserService → Attempted) → Attempted
then_do (some e, s) f = (some e, s)
then_do (none, s) f = f s

abbrev pub is_some : {A : Type 0} → Option A → Bool
is_some none = false
is_some (some _) = true

abbrev pub text_or_else : String → String → String
text_or_else t other = if t == "" then other else t

abbrev pub page_update : TabRecord → Page → TabUpdate
page_update tab page = record {
  url = some (text_or_else page.url tab.url);
  title = some (text_or_else page.title tab.title);
  last_snapshot_refs = none;
  last_snapshot_id = none;
  last_snapshot_ref_count = none;
  last_snapshot_url = none;
  last_snapshot_at = none;
}
