-- ===== src/Refs/Sample.antt =====
-- A snapshot of two buttons of one name in a dialog, on texts for which Python is a few functions.
use browser_cli.Prelude.{
  String, ℕ, zero, suc, [], ◌∷◌, none, some, true, false, ◌≡◌, refl, ◌==◌, if◌then◌else◌, string_eq,
  pair_eq, option_eq, list_eq, nat_eq,
}
use Prim.Native.String
use text.Mathlib.Text
use browser_cli.Dict.{lookup, insert}
use browser_cli.Refs.{SemanticSnapshot}
use browser_cli.Refs.Markup.{Python, is_text_leaf, join_with, is_interactive}
use browser_cli.Refs.Walk.{
  Key, compute_stable_ref, count_of, push_depth, enter_frame, close_deeper, pop_depths, pop_frames,
  effective_depth, nearest_parent_ref, add_line, build_selector, dedup_counts, number_refs,
  without_nth, normalize_raw_snapshot, strip_yaml_quotes, indent_level, indent,
}
use browser_cli.Refs.Generator.{
  Options, walk, snapshot_from_raw_text, read_lines, read_line, read_match, read_element,
  keep_element, add_ref, ref_data, shown,
}
use browser_cli.Refs.Labels.{should_keep, label, text_content, with_suffix, without_name}
use browser_cli.Refs.Resolver.{stripped_or_none}

abbrev pub drop_chars : ℕ → String → String
drop_chars zero s = s
drop_chars (suc n) String.[] = ""
drop_chars (suc n) (String.◌∷◌ c s) = drop_chars n s

abbrev pub dialog_line : String
dialog_line = "- dialog"

abbrev pub save_line : String
save_line = "  - button \"Save\""

-- Python on the texts of this snapshot.
abbrev pub py : Python
py = record {
  splitlines = λ s. dialog_line ∷ save_line ∷ save_line ∷ [];
  strip = λ s. s;
  lstrip = λ s. s;
  lstrip_spaces = λ s. if s == save_line then drop_chars 2 s else s;
  rstrip = λ s. s;
  lower = λ s. s;
  replace = λ old new s. s;
  has = λ x s. false;
  starts_with = λ x s. Text.starts_with s x;
  ends_with = λ x s. false;
  len = String.count;
  drop = drop_chars;
  take = λ n s. s;
  drop_last = λ s. s;
  show = λ n. if n == 0 then "0" else "1";
  yaml_quoted = λ s. none;
  line_match = λ s.
      if s == dialog_line
      then some (record { role = "dialog"; name = none; suffix = "" })
      else some (record { role = "button"; name = some "Save"; suffix = "" });
  without_refs = λ s. s;
  find_ref = λ s. none;
  inline_label = λ s. none;
  inline_text = λ s. none;
  after_colon = λ s. none;
  is_hex = λ s. true;
  split_spaces = λ s. s ∷ [];
  escape = λ s. s;
  digest = λ s.
      if s == "browser-cli-semantic-v1\u{1f}dialog\u{1f}\u{1f}\u{1f}0"
      then "0000000d"
      else (if s == "browser-cli-semantic-v1\u{1f}button\u{1f}Save\u{1f}\u{1f}0"
          then "000000b0"
          else "000000b1");
}

abbrev pub options : Options
options = record {
  snapshot_id = "snap_1";
  page_id = "page_1";
  captured_url = "https://example.com";
  captured_at = 7;
  interactive = true;
  full_page = true;
}

abbrev pub raw : String
raw = "- dialog\n  - button \"Save\"\n  - button \"Save\""

abbrev pub save : Key
save = ("button", (some "Save", []))

abbrev pub dialog : Key
dialog = ("dialog", (none, []))

-- A proof that unfolds this runs the generator.
unfoldable pub shot : SemanticSnapshot
unfolding snapshot_from_raw_text walk read_lines read_line read_match read_element keep_element
    should_keep add_ref ref_data push_depth enter_frame close_deeper pop_depths pop_frames
    effective_depth nearest_parent_ref add_line shown label text_content build_selector
    compute_stable_ref count_of dedup_counts number_refs without_nth normalize_raw_snapshot
    strip_yaml_quotes stripped_or_none indent_level indent join_with lookup insert is_interactive
    is_text_leaf string_eq nat_eq pair_eq option_eq list_eq with_suffix without_name
shot = snapshot_from_raw_text py options raw

pub shot_tree :
    shot.tree
    ≡ "- dialog [ref=0000000d]\n- button \"Save\" [ref=000000b0]\n- button \"Save\" [ref=000000b1] [nth=1]"
unfolding shot
shot_tree = refl

pub walk_counts : (walk py options raw).occurrence_counts ≡ (dialog, 1) ∷ (save, 2) ∷ []
unfolding shot
walk_counts = refl
