-- ===== src/Daemon/Presentation.antt =====
-- daemon/runtime_presentation.py: the state of the runtime as it is shown. Texts are Python's, so
-- `strip` is a parameter.
use browser_cli.Prelude.{
  ℤ, pos, negsuc, String, ◌++◌, List, [], ◌∷◌, Option, none, some, Bool, true, false, not, ◌&&◌,
  ◌||◌, contains, ◌==◌, string_eq, nat_eq, if◌then◌else◌,
}
use Prim.Native.String.{◌++◌ as join}
use browser_cli.Json.{JsonOperations, ◌>>=◌, text_or, dict_or_empty, int_or_zero}
pub mod Verdicts
mod Examples

pub data OverallState : Type 0 where
  healthy degraded broken recovering : OverallState

-- What is read of the raw status.
pub record Facts (J : Type 0) : Type 0 where
  pub browser_started : Bool
  pub active_driver : String
  pub pending_rebind : Option J
  pub last_transition : Option J
  pub window_id : J
  pub tab_count : ℤ
  pub managed_tab_count : ℤ
  pub busy_tab_count : ℤ
  pub binding_state : String
  pub extension_connected : Bool
  pub capability_complete : Bool
  pub probe_failed : Bool
  pub probe_message : String
  pub stability : J
  pub cleanup_failures : ℤ
  pub last_cleanup_error : Option String

pub record Verdict : Type 0 where
  pub overall_state : OverallState
  pub summary_reason : String
  pub recovery_guidance : List String

pub record RuntimePresentation (J : Type 0) : Type 0 where
  pub verdict : Verdict
  pub active_driver : String
  pub pending_rebind : Option J
  pub safe_point_wait : Bool
  pub last_transition : Option J
  pub window_id : J
  pub tab_count : ℤ
  pub managed_tab_count : ℤ
  pub binding_state : String
  pub busy_tab_count : ℤ
  pub stability : J
  pub last_cleanup_error : Option String
  pub available_actions : List String

abbrev is_some : {A : Type 0} → Option A → Bool
is_some none = false
is_some (some _) = true

abbrev pub nonzero : ℤ → Bool
nonzero (pos n) = not (n == 0)
nonzero (negsuc _) = true

-- `text or None`
abbrev or_none : String → Option String
or_none t = if t == "" then none else some t

abbrev pub is_lost : String → Bool
is_lost binding_state = binding_state == "stale" || binding_state == "absent"

module _ {J : Type 0} (o : JsonOperations J) where
  abbrev as_dict_or_none : J → Option J
  as_dict_or_none value = if o.is_dict value then some value else none

  unfoldable pub facts_from : (String → String) → J → Option (Facts J)
  facts_from strip raw = do
    extension ← dict_or_empty o "extension" raw
    window ← dict_or_empty o "workspace_window_state" raw
    tabs ← dict_or_empty o "tabs" raw
    busy ← int_or_zero o "busy_count" tabs
    health ← dict_or_empty o "runtime_health" extension
    stability ← dict_or_empty o "stability" raw
    failures ← int_or_zero o "cleanup_failures" stability
    tab_count ← int_or_zero o "tab_count" window
    managed ← int_or_zero o "managed_tab_count" window
    some (record {
      browser_started = o.truthy (o.get "browser_started" raw);
      active_driver = text_or o "active_driver" "not-started" raw;
      pending_rebind = as_dict_or_none (o.get "pending_rebind" raw);
      last_transition = as_dict_or_none (o.get "last_transition" raw);
      window_id = o.get "window_id" window;
      tab_count = tab_count;
      managed_tab_count = managed;
      busy_tab_count = busy;
      binding_state = text_or o "binding_state" "absent" window;
      extension_connected = o.truthy (o.get "connected" extension);
      capability_complete = o.truthy (o.get "capability_complete" extension);
      probe_failed = o.is_text (o.get "status" health) "fail";
      probe_message = text_or o "message" "Extension runtime probe failed." health;
      stability = stability;
      cleanup_failures = failures;
      last_cleanup_error = or_none (strip (text_or o "last_cleanup_error" "" stability));
    })

  unfoldable pub pending_rebind_summary : J → String
  pending_rebind_summary pending =
      let target = text_or o "target" "unknown" pending in
      let reason = text_or o "reason" "pending-rebind" pending in
      if reason == "extension-disconnected-waiting-command" && target == "playwright"
      then "Extension disconnected; Browser CLI will switch to Playwright at the next safe point."
      else if reason == "extension-connected" && target == "extension"
      then "Extension reconnected; Browser CLI will restore extension mode at the next safe point."
      else join "Browser CLI is waiting to rebind the active driver to "
          (join target " at the next safe point.")

  unfoldable pub pending_rebind_guidance : J → List String
  pending_rebind_guidance pending =
      let target = text_or o "target" "unknown" pending in
      if target == "playwright"
      then "Agent can continue while Browser CLI waits for the safe-point fallback."
        ∷ "Reconnect the extension if real Chrome mode should be restored later." ∷ []
      else if target == "extension"
      then "Wait for the current command boundary, then refresh runtime status."
        ∷ "Browser CLI will resume extension mode at the next safe point." ∷ []
      else "Wait for the current command boundary, then refresh runtime status." ∷ []

abbrev judged : OverallState → String → List String → Verdict
judged state reason guidance = record {
  overall_state = state;
  summary_reason = reason;
  recovery_guidance = guidance;
}

abbrev pub healthy_verdict : Verdict
healthy_verdict =
    judged healthy "Browser CLI runtime is healthy." ("Browser CLI can continue normally." ∷ [])

-- `elif cleanup_failures`
abbrev pub judge_cleanup : {J : Type 0} → Facts J → Verdict
judge_cleanup f =
    if nonzero f.cleanup_failures
    then judged degraded "Browser CLI recorded recent cleanup failures during runtime transitions."
        ("Run `browser-cli reload` if cleanup failures continue to appear."
          ∷ "Refresh runtime status after the reload finishes." ∷ [])
    else healthy_verdict

-- From `elif not extension_connected or not capability_complete` on.
abbrev pub judge_extension : {J : Type 0} → Facts J → Verdict
judge_extension f =
    if not f.extension_connected || not f.capability_complete
    then judged degraded
        (if f.extension_connected
          then "Extension is connected but its required capabilities are incomplete."
          else "Extension mode is selected but the extension is disconnected.")
        ("Reconnect or reload the extension."
          ∷ "Refresh runtime status after extension health changes." ∷ [])
    else if is_lost f.binding_state
    then judged degraded
        (if f.binding_state == "stale"
          then "Workspace binding is stale while extension mode is active."
          else "Browser CLI no longer has a trusted extension workspace binding.")
        ("Run browser-cli workspace rebuild --json to restore Browser CLI-owned tab tracking."
          ∷ "Reconnect the extension if workspace state does not recover." ∷ [])
    else judge_cleanup f

-- From `elif pending_rebind is not None` on.
abbrev pub judge_driver : {J : Type 0} → JsonOperations J → Option J → Facts J → Verdict
judge_driver o (some pending) f =
    judged recovering (pending_rebind_summary o pending) (pending_rebind_guidance o pending)
judge_driver o none f =
    if not (f.active_driver == "extension")
    then judged degraded "Browser CLI is running on Playwright instead of extension mode." (
        "Agent can continue on the managed profile backend."
        ∷ "Reconnect the extension if real Chrome mode should be restored." ∷ [])
    else judge_extension f

-- The chain of conditions of `build_runtime_presentation`.
unfoldable pub judge : {J : Type 0} → JsonOperations J → Facts J → Verdict
judge o f =
    if f.extension_connected && f.probe_failed
    then judged degraded f.probe_message (
        "The extension is connected but cannot execute browser operations."
        ∷ "Allow automatic extension recovery to finish, then run browser-cli doctor --json."
        ∷ "If recovery fails, reload Browser CLI Bridge in chrome://extensions; restarting the daemon does not reload the extension."
        ∷ [])
    else if not f.browser_started
    then judged healthy "Browser runtime is idle and will start on the next browser command."
        ("Run a browser command to initialize runtime state." ∷ [])
    else if f.active_driver == "not-started"
    then judged broken "Browser runtime reports started but no active driver is selected." (
        "Refresh runtime status to confirm the state."
        ∷ "Reload Browser CLI if the runtime remains driverless." ∷ [])
    else judge_driver o f.pending_rebind f

abbrev pub needs_reconnect : {J : Type 0} → Facts J → Bool
needs_reconnect f =
    is_some f.pending_rebind
    || not (f.active_driver == "extension")
    || not f.extension_connected
    || not f.capability_complete

abbrev pub reconnect_actions : Bool → List String
reconnect_actions reconnect =
    if reconnect then "refresh-status" ∷ "reconnect-extension" ∷ [] else "refresh-status" ∷ []

-- `actions.append(...)` if the binding is lost
abbrev pub with_rebuild : Bool → List String → List String
with_rebuild lost actions =
    if lost
    then (if contains actions "reconnect-extension"
        then actions
        else actions ++ "reconnect-extension" ∷ [])
      ++ "rebuild-workspace-binding" ∷ []
    else actions

unfoldable pub available_actions : {J : Type 0} → Facts J → List String
available_actions f =
    with_rebuild (f.active_driver == "extension" && is_lost f.binding_state)
      (reconnect_actions (needs_reconnect f))

unfoldable pub present : {J : Type 0} → JsonOperations J → Facts J → RuntimePresentation J
present o f = record {
  verdict = judge o f;
  active_driver = f.active_driver;
  pending_rebind = f.pending_rebind;
  safe_point_wait = is_some f.pending_rebind;
  last_transition = f.last_transition;
  window_id = f.window_id;
  tab_count = f.tab_count;
  managed_tab_count = f.managed_tab_count;
  binding_state = f.binding_state;
  busy_tab_count = f.busy_tab_count;
  stability = f.stability;
  last_cleanup_error = f.last_cleanup_error;
  available_actions =
      if f.probe_failed && f.extension_connected
      then "refresh-status" ∷ "reload-extension" ∷ []
      else available_actions f;
}

unfoldable pub build_runtime_presentation :
    {J : Type 0} → JsonOperations J → (String → String) → J → Option (RuntimePresentation J)
build_runtime_presentation o strip raw = do f ← facts_from o strip raw; some (present o f)
