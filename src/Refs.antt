-- ===== src/Refs.antt =====
-- refs/registry.py and the records of refs/models.py: the latest snapshot of each page. The field
-- `extra` of `RefData`, a dictionary that is only shown, is left out.
use browser_cli.Prelude.{String, ℕ, List, [], Option, none, some, Bool, string_eq}
use browser_cli.Dict.{Dict, lookup, insert, erase}
pub mod Markup
pub mod Walk
pub mod Labels
pub mod Generator
pub mod Effects
pub mod Counts
pub mod Numbered
pub mod Numbering
pub mod Known
pub mod Parents
pub mod Resolver
pub mod Pages
pub mod Spelling
pub mod Locators
pub mod Sample
mod Examples

pub record RefData : Type 0 where
  pub ref : String
  pub role : String
  pub name : Option String
  pub nth : Option ℕ
  pub text_content : Option String
  pub tag : Option String
  pub interactive : Bool
  pub parent_ref : Option String
  pub frame_path : List ℕ
  pub playwright_ref : Option String
  pub selector_recipe : Option String
  pub snapshot_id : String
  pub page_id : String
  pub captured_url : String
  pub captured_at : ℕ

pub record SnapshotMetadata : Type 0 where
  pub snapshot_id : String
  pub page_id : String
  pub captured_url : String
  pub captured_at : ℕ
  pub interactive : Bool
  pub full_page : Bool

pub record SemanticSnapshot : Type 0 where
  pub tree : String
  pub refs : Dict String RefData
  pub metadata : SnapshotMetadata

pub record PageSnapshotState : Type 0 where
  pub snapshot_id : String
  pub tree : String
  pub refs : Dict String RefData
  pub captured_url : String
  pub captured_at : ℕ

-- `_latest_by_page`
abbrev pub SnapshotRegistry : Type 0
SnapshotRegistry = Dict String PageSnapshotState

unfoldable pub from_snapshot : SemanticSnapshot → PageSnapshotState
from_snapshot s = record {
  snapshot_id = s.metadata.snapshot_id;
  tree = s.tree;
  refs = s.refs;
  captured_url = s.metadata.captured_url;
  captured_at = s.metadata.captured_at;
}

unfoldable pub store : SemanticSnapshot → SnapshotRegistry → PageSnapshotState × SnapshotRegistry
store s r = (from_snapshot s, insert s.metadata.page_id (from_snapshot s) r)

unfoldable pub get_ref : String → String → SnapshotRegistry → Option RefData
get_ref page_id ref r = elim (lookup page_id r) [ none ↦ none | some state ↦ lookup ref state.refs ]

unfoldable pub clear_page : String → SnapshotRegistry → SnapshotRegistry
clear_page page_id r = erase page_id r

abbrev pub no_snapshots : SnapshotRegistry
no_snapshots = []
