-- ===== src/Refs/Pages.antt =====
-- daemon/browser_service.py: the snapshots of the service's pages, from capture to navigation, and
-- `_require_locator`. What the drivers do besides is left out: the text that a capture is given, and
-- whether a page was closed, are arguments.
use browser_cli.Prelude.{
  String, List, [], ◌∷◌, Option, none, some, Bool, true, false, string_eq, if◌then◌else◌,
}
use browser_cli.Dict.{Dict, lookup}
use browser_cli.Refs.{
  SemanticSnapshot, PageSnapshotState, SnapshotRegistry, store, clear_page, no_snapshots,
}
use browser_cli.Refs.Markup.{Python}
use browser_cli.Refs.Generator.{Options, snapshot_from_raw_text}
use browser_cli.Refs.Resolver.{LocatorSpec, parse_ref, build_locator_spec}
pub mod Stale

-- `NoSnapshotContextError`, `InvalidInputError` and `RefNotFoundError`
pub data RefError : Type 0 where
  no_snapshot_context invalid_ref ref_not_found : RefError

pub data Required : Type 0 where
  located : LocatorSpec → Required
  refused : RefError → Required

-- `capture_snapshot`; `navigate`, `reload`, `go_back` and `go_forward`, which are one
-- call here; `close_tab`, where the driver may raise; and what empties the registry: `stop`,
-- a change of the driver and a rebuild of the workspace binding. The driver is asked before
-- `close_tab` discards the page, and after a navigation does: a navigation that raises discards too.
pub data Call : Type 0 where
  capture_snapshot : Options → String → Call
  navigate : String → Call
  close_tab : String → Bool → Call
  clear : Call

abbrev pub closed_tab : String → Bool → SnapshotRegistry → SnapshotRegistry
closed_tab page_id closed r = if closed then clear_page page_id r else r

module _ (py : Python) where
  abbrev pub ref_error : Option String → RefError
  ref_error none = invalid_ref
  ref_error (some ref) = ref_not_found

  abbrev pub require_in : String → Option PageSnapshotState → Required
  require_in ref none = refused no_snapshot_context
  require_in ref (some state) = elim (build_locator_spec py ref state.refs) [
    | none ↦ refused (ref_error (parse_ref py ref))
    | some spec ↦ located spec
  ]

  unfoldable pub require_locator : String → String → SnapshotRegistry → Required
  require_locator page_id ref r = require_in ref (lookup page_id r)

  unfoldable pub step : Call → SnapshotRegistry → SnapshotRegistry
  step (capture_snapshot o raw) r = (store (snapshot_from_raw_text py o raw) r).1
  step (navigate page_id) r = clear_page page_id r
  step (close_tab page_id closed) r = closed_tab page_id closed r
  step clear r = no_snapshots

  unfoldable pub run : List Call → SnapshotRegistry → SnapshotRegistry
  run [] r = r
  run (c ∷ cs) r = run cs (step c r)
