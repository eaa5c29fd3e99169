-- ===== src/Refs/Pages/Stale.antt =====
-- daemon/browser_service.py: which snapshot the refs of a page are read in.
use browser_cli.Prelude.{
  String, List, [], ◌∷◌, Option, none, some, string_eq, if◌then◌else◌, ◌==◌, ◌≡◌, ap, arith,
}
use mathlib.Core.Option
use browser_cli.Dict.{lookup, lookup-insert, lookup-erase, lookup-nil}
use browser_cli.Refs.{
  SemanticSnapshot, SnapshotRegistry, from_snapshot, store, clear_page, no_snapshots,
}
use browser_cli.Refs.Markup.{Python}
use browser_cli.Refs.Generator.{Options, snapshot_from_raw_text}
use browser_cli.Refs.Pages.{Call, require_in, require_locator, step, run}

module _ (py : Python) where
  -- The last capture of a page since a call that discards it: a navigation or a close of the page, or
  -- one that empties the registry.
  abbrev pub kept_after : String → Call → Option SemanticSnapshot → Option SemanticSnapshot
  kept_after page_id (Call.capture_snapshot o raw) before =
      if page_id == o.page_id then some (snapshot_from_raw_text py o raw) else before
  kept_after page_id (Call.navigate other) before = if page_id == other then none else before
  kept_after page_id (Call.close_tab other closed) before =
      if closed then (if page_id == other then none else before) else before
  kept_after page_id Call.clear before = none

  unfoldable pub kept : String → List Call → Option SemanticSnapshot → Option SemanticSnapshot
  kept page_id [] before = before
  kept page_id (c ∷ cs) before = kept page_id cs (kept_after page_id c before)

  page_id-snapshot :
      (o : Options) (raw : String) → (snapshot_from_raw_text py o raw).metadata.page_id ≡ o.page_id
  unfolding snapshot_from_raw_text
  page_id-snapshot o raw = ground arith

  -- The state of the registry for a page is that of the snapshot that is kept.
  abbrev Keeps : String → SnapshotRegistry → Option SemanticSnapshot → Type 0
  Keeps page_id r s = lookup page_id r ≡ Option.map from_snapshot s

  step-Keeps :
      (page_id : String) (c : Call) (r : SnapshotRegistry) (s : Option SemanticSnapshot)
      → Keeps page_id r s
      → Keeps page_id (step py c r) (kept_after page_id c s)
  unfolding step store clear_page
  step-Keeps page_id (Call.capture_snapshot o raw) r s h = ground (
    arith,
    page_id-snapshot o raw,
    lookup-insert page_id (snapshot_from_raw_text py o raw).metadata.page_id
        (from_snapshot (snapshot_from_raw_text py o raw)) r,
  )
  step-Keeps page_id (Call.navigate other) r s h = ground (arith, lookup-erase page_id other r)
  step-Keeps page_id (Call.close_tab other closed) r s h =
      ground (arith, lookup-erase page_id other r)
  step-Keeps page_id Call.clear r s h = lookup-nil page_id

  run-Keeps :
      (page_id : String) (cs : List Call) (r : SnapshotRegistry) (s : Option SemanticSnapshot)
      → Keeps page_id r s
      → Keeps page_id (run py cs r) (kept page_id cs s)
  unfolding run kept
  run-Keeps page_id [] r s h = h
  run-Keeps page_id (c ∷ cs) r s h =
      run-Keeps page_id cs (step py c r) (kept_after page_id c s) (step-Keeps page_id c r s h)

  -- In every sequence of calls a ref of a page is read in the last capture of that page since it was
  -- navigated or closed, or the registry emptied, and is refused for want of a snapshot where the page
  -- was not captured since.
  pub require_locator-kept :
      (page_id ref : String) (cs : List Call)
      → require_locator py page_id ref (run py cs no_snapshots)
        ≡ require_in py ref (Option.map from_snapshot (kept page_id cs none))
  unfolding require_locator
  require_locator-kept page_id ref cs =
      ap (require_in py ref) (run-Keeps page_id cs no_snapshots none (lookup-nil page_id))
