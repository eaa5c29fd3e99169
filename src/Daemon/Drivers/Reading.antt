-- ===== src/Daemon/Drivers/Reading.antt =====
-- daemon/browser_service.py: `read_page`, which repeats a read of the extension with Playwright.
use browser_cli.Prelude.{
  String, List, [], ◌∷◌, Option, none, some, Bool, ◌&&◌, ◌||◌, any, ◌==◌, string_eq, if◌then◌else◌,
}
use browser_cli.Refs.{SnapshotRegistry}
use browser_cli.Daemon.Drivers.{
  extension, playwright, same_driver, driver_failed, unsupported_mode, BrowserService, Driving,
  Attempted, then_do,
}
use browser_cli.Daemon.Drivers.Rebinding.{activate_driver}

-- What `_read_page_once` comes to: the message that it raises, and what its capture and the close of its
-- page do to the snapshots.
pub record ReadOnce : Type 0 where
  pub error : Option String
  pub on_snapshots : SnapshotRegistry → SnapshotRegistry

-- `_READ_EXTENSION_FALLBACK_PATTERNS`
abbrev pub fallback_patterns : List String
fallback_patterns =
    "Separator is found, but chunk is longer than limit"
    ∷ "Separator is not found, and chunk exceed the limit" ∷ "chunk is longer than limit"
    ∷ "chunk exceed the limit" ∷ "Extension disconnected" ∷ "message too big" ∷ "exceeds limit of"
    ∷ []

abbrev pub read_once : ReadOnce → BrowserService → BrowserService
read_once x s = record s { snapshots = x.on_snapshots s.snapshots }

abbrev pub raised_by : Option String → BrowserService → Attempted
raised_by none s = (none, s)
raised_by (some message) s = (some (driver_failed message), s)

unfoldable pub should_retry_read_on_playwright : Driving → String → BrowserService → Bool
should_retry_read_on_playwright w message s =
    same_driver s.driver_name extension && any (λ p. w.has_text p message) fallback_patterns

abbrev pub read_again : ReadOnce → BrowserService → Attempted
read_again x s = raised_by x.error (read_once x s)

-- The handler of the first read's exception.
abbrev pub after_read : Driving → Option String → ReadOnce → BrowserService → Attempted
after_read w none second s = (none, s)
after_read w (some message) second s =
    if should_retry_read_on_playwright w message s
    then then_do (activate_driver w playwright "extension-read-fallback" s) (read_again second)
    else (some (driver_failed message), s)

unfoldable pub read_page : Driving → String → ReadOnce → ReadOnce → BrowserService → Attempted
read_page w output_mode first second s =
    if output_mode == "html" || output_mode == "snapshot"
    then after_read w first.error second (read_once first s)
    else (some unsupported_mode, s)
