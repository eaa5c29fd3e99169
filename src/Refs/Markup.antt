-- ===== src/Refs/Markup.antt =====
-- refs/resolver.py and refs/generator.py: the sets of roles, and what Python's `str`, `re` and
-- `hashlib` do for these files, as a record of functions.
use browser_cli.Prelude.{
  String, ℕ, List, [], ◌∷◌, Option, none, some, Bool, true, ◌==◌, string_eq, contains,
  if◌then◌else◌,
}
use Prim.Native.String.{◌++◌ as join}

-- The groups of `_LINE_PATTERN` that are read.
pub record LineMatch : Type 0 where
  pub role : String
  pub name : Option String
  pub suffix : String

pub record Python : Type 0 where
  -- `s.splitlines()`, `s.strip()`, `s.lstrip()`, `s.lstrip(" ")`, `s.rstrip()`, `s.lower()`
  pub splitlines : String → List String
  pub strip : String → String
  pub lstrip : String → String
  pub lstrip_spaces : String → String
  pub rstrip : String → String
  pub lower : String → String
  -- `s.replace(old, new)`, `x in s`, `s.startswith(x)`, `s.endswith(x)`, the text last
  pub replace : String → String → String → String
  pub has : String → String → Bool
  pub starts_with : String → String → Bool
  pub ends_with : String → String → Bool
  -- `len(s)`, `s[n:]`, `s[:n]`, `s[:-1]`, `str(n)`
  pub len : String → ℕ
  pub drop : ℕ → String → String
  pub take : ℕ → String → String
  pub drop_last : String → String
  pub show : ℕ → String
  -- the groups of a match of `_YAML_QUOTE_PATTERN` and of `_LINE_PATTERN`
  pub yaml_quoted : String → Option (String × String × String)
  pub line_match : String → Option LineMatch
  -- `_REF_CLEAN_PATTERN.sub("", s)`, and the group of `_REF_EXTRACT_PATTERN.search(s)`
  pub without_refs : String → String
  pub find_ref : String → Option String
  -- the groups of the searches for an inline label, for a text, and for what follows a colon,
  -- the last with `match.start()`
  pub inline_label : String → Option (Option String × Option String)
  pub inline_text : String → Option String
  pub after_colon : String → Option (ℕ × String)
  -- `re.fullmatch(r"[0-9a-fA-F]{8}", s)`, `re.split(r"\s+", s)`, `re.escape(s)`
  pub is_hex : String → Bool
  pub split_spaces : String → List String
  pub escape : String → String
  -- `hashlib.sha256(s.encode("utf-8")).digest()[:4].hex()`
  pub digest : String → String

-- `if not s` and `s or t`, where `None` and the empty text are false
abbrev pub is_falsy : Option String → Bool
is_falsy none = true
is_falsy (some s) = s == ""

abbrev pub or_else : Option String → Option String → Option String
or_else s t = if is_falsy s then t else s

abbrev pub text_or_empty : Option String → String
text_or_empty none = ""
text_or_empty (some s) = s

-- `s or None`
abbrev pub or_none : String → Option String
or_none s = if s == "" then none else some s

-- `separator.join(parts)`
unfoldable pub join_with : String → List String → String
join_with separator [] = ""
join_with separator (s ∷ []) = s
join_with separator (s ∷ t ∷ ts) = join s (join separator (join_with separator (t ∷ ts)))

unfoldable pub is_interactive : String → Bool
is_interactive role =
    contains
      ("application" ∷ "alertdialog" ∷ "button" ∷ "checkbox" ∷ "combobox" ∷ "dialog" ∷ "grid"
        ∷ "gridcell" ∷ "link" ∷ "listbox" ∷ "menu" ∷ "menubar" ∷ "menuitem" ∷ "menuitemcheckbox"
        ∷ "menuitemradio" ∷ "option" ∷ "progressbar" ∷ "radio" ∷ "radiogroup" ∷ "scrollbar"
        ∷ "search" ∷ "searchbox" ∷ "slider" ∷ "spinbutton" ∷ "switch" ∷ "tab" ∷ "tablist"
        ∷ "tabpanel" ∷ "textbox" ∷ "tree" ∷ "treegrid" ∷ "treeitem" ∷ [])
      role

-- `ROLE_TEXT_MATCH_ROLES`
unfoldable pub matches_by_text : String → Bool
matches_by_text role =
    contains ("cell" ∷ "columnheader" ∷ "gridcell" ∷ "listitem" ∷ "row" ∷ "rowheader" ∷ []) role

unfoldable pub is_structural_noise : String → Bool
is_structural_noise role = contains ("generic" ∷ "group" ∷ "none" ∷ "presentation" ∷ []) role

unfoldable pub is_text_leaf : String → Bool
is_text_leaf role = contains ("text" ∷ []) role

unfoldable pub is_always_ref : String → Bool
is_always_ref role =
    contains
      ("cell" ∷ "columnheader" ∷ "gridcell" ∷ "listitem" ∷ "option" ∷ "row" ∷ "rowheader" ∷ []) role

unfoldable pub is_content : String → Bool
is_content role =
    contains
      ("article" ∷ "cell" ∷ "columnheader" ∷ "heading" ∷ "main" ∷ "navigation" ∷ "region"
        ∷ "rowheader" ∷ [])
      role

unfoldable pub is_landmark : String → Bool
is_landmark role =
    contains
      ("banner" ∷ "contentinfo" ∷ "complementary" ∷ "form" ∷ "main" ∷ "navigation" ∷ "region"
        ∷ "search" ∷ [])
      role

unfoldable pub is_semantic : String → Bool
is_semantic role =
    contains
      ("alert" ∷ "blockquote" ∷ "caption" ∷ "code" ∷ "definition" ∷ "document" ∷ "emphasis" ∷ "feed"
        ∷ "figure" ∷ "img" ∷ "insertion" ∷ "log" ∷ "marquee" ∷ "math" ∷ "meter" ∷ "note"
        ∷ "paragraph" ∷ "status" ∷ "strong" ∷ "subscript" ∷ "superscript" ∷ "term" ∷ "text" ∷ "time"
        ∷ "timer" ∷ "tooltip" ∷ [])
      role

unfoldable pub is_structural : String → Bool
is_structural role =
    contains ("directory" ∷ "list" ∷ "row" ∷ "rowgroup" ∷ "table" ∷ "toolbar" ∷ []) role
