-- ===== src/Refs/Walk.antt =====
-- refs/generator.py: what the loop of `snapshot_from_raw_text` keeps, and the functions that it calls.
-- The last entry of each of its stacks is the head of a list here.
use browser_cli.Prelude.{
  String, ℕ, zero, suc, ◌+◌, ◌-◌, List, [], ◌∷◌, ◌++◌, map, Option, none, some, Bool, true, false,
  not, ◌&&◌, ◌==◌, string_eq, nat_eq, pair_eq, option_eq, list_eq, if◌then◌else◌, ltb, leb, any,
}
use Prim.Native.String.{◌++◌ as join}
use browser_cli.Dict.{Dict, lookup, insert}
use browser_cli.Refs.{RefData}
use browser_cli.Refs.Markup.{Python, is_falsy, text_or_empty, join_with, is_text_leaf}

-- `occurrence_key`: the role, the name and the path of the frame.
abbrev pub Key : Type 0
Key = String × (Option String × List ℕ)

-- An entry of `depth_stack`.
pub record Open : Type 0 where
  pub depth : ℕ
  pub kept : Bool
  pub out_depth : ℕ
  pub ref : Option String

-- The variables of the loop over the lines.
pub record Walk : Type 0 where
  pub refs : Dict String RefData
  pub result : List String
  pub depth_stack : List Open
  pub iframe_stack : List (ℕ × List ℕ)
  pub iframe_local_counters : Dict (List ℕ) ℕ
  pub occurrence_counts : Dict Key ℕ

-- A line that `_LINE_PATTERN` matches and that is no property.
pub record Element : Type 0 where
  pub depth : ℕ
  pub role : String
  pub role_lower : String
  pub name : Option String
  pub suffix : String

abbrev pub no_lines : Walk
no_lines = record {
  refs = [];
  result = [];
  depth_stack = [];
  iframe_stack = [];
  iframe_local_counters = [];
  occurrence_counts = [];
}

-- `d.get(key, 0)`
abbrev pub count_or_zero : Option ℕ → ℕ
count_or_zero none = 0
count_or_zero (some n) = n

unfoldable pub count_of : Key → Dict Key ℕ → ℕ
count_of key counts = count_or_zero (lookup key counts)

-- `"  " * depth`
unfoldable pub indent : ℕ → String
indent zero = ""
indent (suc n) = join "  " (indent n)

-- The `while` loops at the head of a line.
unfoldable pub pop_depths : ℕ → List Open → List Open
pop_depths depth [] = []
pop_depths depth (o ∷ stack) = if leb depth o.depth then pop_depths depth stack else o ∷ stack

unfoldable pub pop_frames : ℕ → List (ℕ × List ℕ) → List (ℕ × List ℕ)
pop_frames depth [] = []
pop_frames depth (f ∷ stack) = if leb depth f.0 then pop_frames depth stack else f ∷ stack

unfoldable pub close_deeper : ℕ → Walk → Walk
close_deeper depth w = record w {
  depth_stack = pop_depths depth w.depth_stack;
  iframe_stack = pop_frames depth w.iframe_stack;
}

unfoldable pub effective_depth : ℕ → List Open → ℕ
effective_depth depth [] = 0
effective_depth depth (o ∷ stack) =
    if ltb o.depth depth && o.kept then o.out_depth + 1 else effective_depth depth stack

abbrev pub first_ref : Option String → Option String → Option String
first_ref none rest = rest
first_ref (some ref) rest = some ref

unfoldable pub nearest_parent_ref : ℕ → List Open → Option String
nearest_parent_ref depth [] = none
nearest_parent_ref depth (o ∷ stack) =
    let rest = nearest_parent_ref depth stack in
    if ltb o.depth depth && o.kept then first_ref o.ref rest else rest

abbrev pub has_kept : Walk → Bool
has_kept w = any (λ o. o.kept) w.depth_stack

abbrev pub is_outermost : Walk → Bool
is_outermost w = elim w.depth_stack [ [] ↦ true | _ ∷ _ ↦ false ]

abbrev pub frame_path : Walk → List ℕ
frame_path w = elim w.iframe_stack [ [] ↦ [] | f ∷ _ ↦ f.1 ]

unfoldable pub add_line : String → Walk → Walk
add_line text w = record w { result = w.result ++ text ∷ [] }

-- What follows an element whose role is `iframe` and is deeper stands in its frame.
unfoldable pub enter_frame : Element → Walk → Walk
enter_frame e w =
    if e.role_lower == "iframe"
    then (let path = frame_path w in
        let index = count_or_zero (lookup path w.iframe_local_counters) in
        record w {
          iframe_local_counters = insert path (index + 1) w.iframe_local_counters;
          iframe_stack = (e.depth, path ++ index ∷ []) ∷ w.iframe_stack;
        })
    else w

unfoldable pub push_depth : Element → Bool → ℕ → Option String → Walk → Walk
push_depth e keep out ref w = record w {
  depth_stack =
      (record { depth = e.depth; kept = keep; out_depth = out; ref = ref }) ∷ w.depth_stack;
}

abbrev pub key_of : RefData → Key
key_of d = (d.role, (d.name, d.frame_path))

-- `dedup_counts`, and the loop that takes the number from an element that has no second.
unfoldable pub dedup_counts : List RefData → Dict Key ℕ → Dict Key ℕ
dedup_counts [] counts = counts
dedup_counts (d ∷ ds) counts =
    dedup_counts ds (insert (key_of d) (count_of (key_of d) counts + 1) counts)

unfoldable pub without_nth : Dict Key ℕ → RefData → RefData
without_nth counts d = if count_of (key_of d) counts == 1 then record d { nth = none } else d

unfoldable pub number_refs : Dict Key ℕ → Dict String RefData → Dict String RefData
number_refs counts [] = []
number_refs counts ((ref, d) ∷ refs) = (ref, without_nth counts d) ∷ number_refs counts refs

abbrev pub tree_of : List String → String
tree_of [] = "(empty)"
tree_of (line ∷ lines) = join_with "\n" (line ∷ lines)

module _ (py : Python) where
  unfoldable pub strip_yaml_quotes : String → String
  strip_yaml_quotes line = elim (py.yaml_quoted line) [
    | none ↦ line
    | some (prefix, content, colon) ↦ join prefix (join (py.replace "''" "'" content) colon)
  ]

  unfoldable pub normalize_raw_snapshot : String → String
  normalize_raw_snapshot raw = join_with "\n" (map strip_yaml_quotes (py.splitlines raw))

  unfoldable pub indent_level : String → ℕ
  indent_level line = py.len line - py.len (py.lstrip_spaces line)

  abbrev escaped : String → String
  escaped text = py.replace "\"" "\\\"" text

  abbrev by_text_recipe : String → String
  by_text_recipe text = join "get_by_text(\"" (join (escaped text) "\", exact=True)")

  abbrev by_role_recipe : String → String → String
  by_role_recipe role name =
      join "get_by_role(\"" (join role (join "\", name=\"" (join (escaped name) "\", exact=True)")))

  unfoldable pub build_selector : String → Option String → Option String → String
  build_selector role name text_content =
      if not (is_falsy name)
      then (if is_text_leaf role
          then by_text_recipe (text_or_empty name)
          else by_role_recipe role (text_or_empty name))
      else (if not (is_falsy text_content)
          then by_text_recipe (text_or_empty text_content)
          else join "get_by_role(\"" (join role "\")"))

  unfoldable pub compute_stable_ref : Key → ℕ → String
  compute_stable_ref (role, (name, path)) nth = py.digest (
      join_with "\u{1f}" (
        "browser-cli-semantic-v1"
        ∷ role
        ∷ text_or_empty name
        ∷ join_with "," (map py.show path)
        ∷ py.show nth
        ∷ []))
