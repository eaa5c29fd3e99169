-- ===== src/Refs/Generator.antt =====
-- refs/generator.py: `SemanticSnapshotGenerator.snapshot_from_raw_text`, line by line. `time.time()`
-- and the generated id are arguments, and the text that the browser returns is one too.
use browser_cli.Prelude.{
  String, ℕ, ◌+◌, List, [], ◌∷◌, none, some, Bool, true, false, not, ◌&&◌, ◌||◌, ◌==◌, string_eq,
  nat_eq, pair_eq, option_eq, list_eq, if◌then◌else◌, ltb,
}
use Prim.Native.String.{◌++◌ as join}
use browser_cli.Dict.{insert, values}
use browser_cli.Refs.{RefData, SnapshotMetadata, SemanticSnapshot}
use browser_cli.Refs.Markup.{Python, LineMatch, is_falsy, text_or_empty, is_interactive}
use browser_cli.Refs.Walk.{
  Key, Walk, Element, no_lines, count_of, indent, close_deeper, effective_depth, nearest_parent_ref,
  has_kept, is_outermost, frame_path, add_line, enter_frame, push_depth, dedup_counts, number_refs,
  tree_of, normalize_raw_snapshot, indent_level, build_selector, compute_stable_ref,
}
use browser_cli.Refs.Labels.{should_keep, label, text_content, without_name, with_suffix}

-- What the loop reads and does not change.
pub record Options : Type 0 where
  pub snapshot_id : String
  pub page_id : String
  pub captured_url : String
  pub captured_at : ℕ
  pub interactive : Bool
  pub full_page : Bool

module _ (py : Python) where
  -- A line that `_LINE_PATTERN` does not match.
  unfoldable pub other_line : Bool → String → Walk → Walk
  other_line interactive line w =
      let stripped = py.lstrip line in
      let shown = λ (text : String).
        add_line
          (join (indent (effective_depth (indent_level py line) w.depth_stack)) (join "- " text))
          w in
      if interactive
      then (if py.starts_with "- /" stripped && has_kept w then shown (py.drop 2 stripped) else w)
      else (if has_kept w || is_outermost w
          then shown (if py.starts_with "- " stripped then py.drop 2 stripped else stripped)
          else w)

  -- A property, such as `- /url: ...`.
  unfoldable pub property_line : ℕ → LineMatch → Walk → Walk
  property_line depth m w =
      if has_kept w || is_outermost w
      then add_line
          (join (indent (effective_depth depth w.depth_stack)) (join "- " (join m.role m.suffix))) w
      else w

  module _ (o : Options) where
    unfoldable pub ref_data : Element → Walk → RefData
    ref_data e w =
        let key : Key = (e.role_lower, (e.name, frame_path w)) in
        let nth = count_of key w.occurrence_counts in
        let text = text_content py e.name (py.strip (py.without_refs e.suffix)) in
        record {
          ref = compute_stable_ref py key nth;
          role = e.role_lower;
          name = e.name;
          nth = some nth;
          text_content = text;
          tag = none;
          interactive = is_interactive e.role_lower;
          parent_ref = nearest_parent_ref e.depth w.depth_stack;
          frame_path = frame_path w;
          playwright_ref = py.find_ref e.suffix;
          selector_recipe = some (build_selector py e.role_lower e.name text);
          snapshot_id = o.snapshot_id;
          page_id = o.page_id;
          captured_url = o.captured_url;
          captured_at = o.captured_at;
        }

    -- The element is counted, and its ref is written.
    unfoldable pub add_ref : Element → Walk → Walk
    add_ref e w =
        let key : Key = (e.role_lower, (e.name, frame_path w)) in
        record w {
          refs = insert (ref_data e w).ref (ref_data e w) w.refs;
          occurrence_counts = insert key (count_of key w.occurrence_counts + 1) w.occurrence_counts;
        }

    abbrev pub named : Element → ℕ → String
    named e depth =
        let head =
          if o.interactive then join "- " e.role else join (indent depth) (join "- " e.role) in
        if is_falsy e.name then head else join head (join " \"" (join (text_or_empty e.name) "\""))

    abbrev pub ref_mark : Element → RefData → ℕ → String
    ref_mark e d nth = join " [ref=" (
        join d.ref (
          join "]" (
            if ltb 0 nth && not (is_falsy e.name)
            then join " [nth=" (join (py.show nth) "]")
            else "")))

    unfoldable pub shown : Element → String → String
    shown e line =
        let suffix = py.strip (py.without_refs e.suffix) in
        if suffix == "" then line else with_suffix py (without_name py e.name suffix) line

    unfoldable pub keep_element : Element → Bool → Walk → Walk
    keep_element e have_ref w =
        let out = effective_depth e.depth w.depth_stack in
        let nth = count_of (e.role_lower, (e.name, frame_path w)) w.occurrence_counts in
        if have_ref
        then add_line (shown e (join (named e out) (ref_mark e (ref_data e w) nth)))
            (enter_frame e (push_depth e true out (some (ref_data e w).ref) (add_ref e w)))
        else add_line (shown e (named e out)) (enter_frame e (push_depth e true out none w))

    unfoldable pub read_element : Element → Walk → Walk
    read_element e w =
        let (keep, have_ref) = should_keep py e.role_lower e.name e.suffix o.interactive in
        if keep
        then keep_element e have_ref w
        else enter_frame e (push_depth e false (effective_depth e.depth w.depth_stack) none w)

    unfoldable pub read_match : ℕ → LineMatch → Walk → Walk
    read_match depth m w =
        if py.starts_with "/" m.role
        then property_line depth m w
        else read_element
            (record {
              depth = depth;
              role = m.role;
              role_lower = py.lower m.role;
              name = label py m.name m.suffix;
              suffix = m.suffix;
            })
            w

    unfoldable pub read_line : String → Walk → Walk
    read_line line w =
        let depth = indent_level py line in
        if py.strip line == "" then w else (elim (py.line_match line) [
          | none ↦ other_line o.interactive line (close_deeper depth w)
          | some m ↦ read_match depth m (close_deeper depth w)
        ])

    unfoldable pub read_lines : List String → Walk → Walk
    read_lines [] w = w
    read_lines (line ∷ lines) w = read_lines lines (read_line line w)

    -- The loop over the lines of the raw snapshot.
    unfoldable pub walk : String → Walk
    walk raw = read_lines (py.splitlines (normalize_raw_snapshot py raw)) no_lines

    abbrev pub metadata : SnapshotMetadata
    metadata = record {
      snapshot_id = o.snapshot_id;
      page_id = o.page_id;
      captured_url = o.captured_url;
      captured_at = o.captured_at;
      interactive = o.interactive;
      full_page = o.full_page;
    }

    unfoldable pub snapshot_from_raw_text : String → SemanticSnapshot
    snapshot_from_raw_text raw =
        if raw == "" then record { tree = "(empty)"; refs = []; metadata = metadata } else record {
          tree = tree_of (walk raw).result;
          refs = number_refs (dedup_counts (values (walk raw).refs) []) (walk raw).refs;
          metadata = metadata;
        }
