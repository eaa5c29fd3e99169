-- ===== src/Daemon/Presentation/Examples.antt =====
-- The presentation of a runtime that the extension drives, sound and with a lost binding. JSON values are
-- objects of texts; a text stands under the empty key.
use browser_cli.Prelude.{
  pos, String, [], ◌∷◌, Option, none, some, true, false, not, contains, ◌==◌, string_eq,
  if◌then◌else◌, ◌≡◌, ◌↔◌, ◌⊎◌, refl,
}
use browser_cli.Dict.{Dict, lookup}
use browser_cli.Json.{JsonOperations}
use browser_cli.Daemon.Presentation.{healthy, recovering, Facts, judge, present}
use browser_cli.Daemon.Presentation.Verdicts.{
  IsIdle, IsSound, CanRebuild, OnlyRefresh, judge-healthy_iff, actions_fit,
}

abbrev text_at : Dict String String → String
text_at [] = ""
text_at ((key, t) ∷ _) = if key == "" then t else "{...}"

abbrev boxed : Option String → Dict String String
boxed none = []
boxed (some t) = ("", t) ∷ []

abbrev operations : JsonOperations (Dict String String)
operations = record {
  get = λ key d. boxed (lookup key d);
  truthy = λ d. not (text_at d == "");
  is_none = λ d. text_at d == "";
  is_bool = λ d. false;
  is_dict = λ d. not (text_at d == "");
  is_text = λ d t. text_at d == t;
  str = text_at;
  int = λ d. none;
  dict = some;
  list = λ d. none;
  empty_dict = [];
  loads = λ t. none;
}

abbrev facts : String → Option (Dict String String) → Facts (Dict String String)
facts binding_state pending = record {
  browser_started = true;
  active_driver = "extension";
  pending_rebind = pending;
  last_transition = none;
  window_id = [];
  tab_count = pos 1;
  managed_tab_count = pos 1;
  busy_tab_count = pos 0;
  binding_state = binding_state;
  extension_connected = true;
  capability_complete = true;
  probe_failed = false;
  probe_message = "";
  stability = [];
  cleanup_failures = pos 0;
  last_cleanup_error = none;
}

waits :
    (judge operations (facts "tracked" (some (("target", "playwright") ∷ [])))).overall_state
    ≡ recovering
unfolding judge string_eq
waits = refl

judge-healthy_iff_example :
    ((judge operations (facts "tracked" none)).overall_state ≡ healthy)
    ↔ (IsIdle (facts "tracked" none) ⊎ IsSound (facts "tracked" none))
judge-healthy_iff_example = judge-healthy_iff operations (facts "tracked" none)

stale_binding :
    ((contains
          (present operations (facts "stale" none)).available_actions
          "rebuild-workspace-binding"
        ≡ true)
      ↔ CanRebuild (facts "stale" none))
    × ((present operations (facts "stale" none)).verdict.overall_state ≡ healthy
        → true ≡ true
        → OnlyRefresh operations (facts "stale" none))
stale_binding = actions_fit operations (facts "stale" none)
