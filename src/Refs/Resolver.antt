-- ===== src/Refs/Resolver.antt =====
-- refs/resolver.py: `SemanticRefResolver`, with `LocatorSpec` of refs/models.py. The calls on
-- Playwright's page are the constructors of `Locator`.
use browser_cli.Prelude.{
  String, ℕ, List, [], ◌∷◌, map, select, Option, none, some, Bool, true, false, not, ◌&&◌, ◌||◌,
  ◌==◌, string_eq, if◌then◌else◌,
}
use Prim.Native.String.{◌++◌ as join}
use browser_cli.Dict.{Dict, lookup, values}
use browser_cli.Refs.{RefData}
use browser_cli.Refs.Markup.{
  Python, is_falsy, or_else, or_none, text_or_empty, join_with, matches_by_text,
  is_structural_noise, is_text_leaf,
}

pub record LocatorSpec : Type 0 where
  pub ref : String
  pub role : String
  pub name : Option String
  pub text_content : Option String
  pub match_text : Option String
  pub child_text : Option String
  pub nth : Option ℕ
  pub tag : Option String
  pub interactive : Bool
  pub frame_path : List ℕ
  pub selector_recipe : Option String

-- `frame_locator("iframe").nth(n)`, `get_by_role(role)`, the same with `name=..., exact=True` and
-- with the pattern of an empty name, `get_by_text(text, exact=True)`, `locator(css)`,
-- `filter(has_text=pattern)`, `nth(n)`
pub data Locator : Type 0 where
  page : Locator
  frame : Locator → ℕ → Locator
  by_role : Locator → String → Locator
  by_name : Locator → String → String → Locator
  without_name : Locator → String → Locator
  by_text : Locator → String → Locator
  by_css : Locator → String → Locator
  has_text : Locator → String → Locator
  nth : Locator → ℕ → Locator

-- `STRUCTURAL_NOISE_CSS.get(role)`
unfoldable pub noise_css : String → Option String
noise_css role =
    if role == "generic"
    then some "div:not([role]), legend, [role=\"generic\"]"
    else (if role == "group"
        then some "fieldset, details, optgroup, [role=\"group\"]"
        else (if role == "none"
            then some "[role=\"none\"]"
            else (if role == "presentation" then some "[role=\"presentation\"]" else none)))

-- The frames of a path, one inside the other.
unfoldable pub enter_frames : Locator → List ℕ → Locator
enter_frames scope [] = scope
enter_frames scope (n ∷ path) = enter_frames (Locator.frame scope n) path

abbrev pub at_nth : Locator → Option ℕ → Locator
at_nth locator none = locator
at_nth locator (some n) = Locator.nth locator n

abbrev pub is_parent : String → Option String → Bool
is_parent ref none = false
is_parent ref (some parent) = parent == ref

module _ (py : Python) where
  unfoldable pub parse_ref : String → Option String
  parse_ref arg =
      let stripped = py.strip arg in
      let raw =
        if py.starts_with "@" stripped
        then py.drop 1 stripped
        else (if py.starts_with "ref=" stripped then py.drop 4 stripped else stripped) in
      if py.is_hex raw then some (py.lower raw) else none

  -- `s.strip() if s and s.strip() else None`
  unfoldable pub stripped_or_none : Option String → Option String
  stripped_or_none none = none
  stripped_or_none (some s) = if s == "" then none else or_none (py.strip s)

  -- The source of the pattern.
  unfoldable pub text_pattern : Bool → String → String
  text_pattern exact value =
      let parts = map py.escape (select (λ p. not (p == "")) (py.split_spaces (py.strip value))) in
      let joined = join_with "\\s+" parts in
      if exact then join "^\\s*" (join joined "\\s*$") else joined

  -- The texts of the children by which an element of structural noise is found: the first.
  unfoldable pub find_child_text : String → List RefData → Option String
  find_child_text ref [] = none
  find_child_text ref (child ∷ children) =
      if is_parent ref child.parent_ref
        && (is_text_leaf child.role || is_structural_noise child.role)
        && not (is_falsy (or_else child.name child.text_content))
      then some (py.strip (text_or_empty (or_else child.name child.text_content)))
      else find_child_text ref children

  unfoldable pub locator_spec : String → RefData → Dict String RefData → LocatorSpec
  locator_spec ref d refs =
      let name = stripped_or_none d.name in
      let text = stripped_or_none d.text_content in
      record {
        ref = ref;
        role = d.role;
        name = name;
        text_content = text;
        match_text = or_else name text;
        child_text = if is_structural_noise d.role then find_child_text ref (values refs) else none;
        nth = d.nth;
        tag = d.tag;
        interactive = d.interactive;
        frame_path = d.frame_path;
        selector_recipe = d.selector_recipe;
      }

  unfoldable pub build_locator_spec : String → Dict String RefData → Option LocatorSpec
  build_locator_spec arg refs = elim (parse_ref arg) [
    | none ↦ none
    | some ref ↦
        if ref == ""
        then none
        else (elim (lookup ref refs) [ none ↦ none | some d ↦ some (locator_spec ref d refs) ])
  ]

  -- By the style sheet's selector with a text in it, or by the text: the locator, and whether the
  -- number of the element is of no use.
  unfoldable pub locate_noise : Bool → Locator → String → String → Locator × Bool
  locate_noise skip scope role text =
      if not (is_falsy (noise_css role))
      then (
        Locator.has_text (Locator.by_css scope (text_or_empty (noise_css role)))
            (text_pattern true text),
        skip,
      )
      else (Locator.by_text scope text, true)

  -- `locator` and `skip_nth`
  unfoldable pub locate : Locator → LocatorSpec → Locator × Bool
  locate scope s =
      let name = stripped_or_none s.name in
      let text = stripped_or_none s.text_content in
      if not (is_falsy name)
        && not (matches_by_text s.role)
        && not (is_structural_noise s.role)
        && not (is_text_leaf s.role)
      then (Locator.by_name scope s.role (text_or_empty name), false)
      else (if matches_by_text s.role && not (is_falsy s.match_text)
          then (
            Locator.has_text (Locator.by_role scope s.role)
                (text_pattern (not (s.role == "row")) (text_or_empty s.match_text)),
            false,
          )
          else (if is_text_leaf s.role && not (is_falsy s.match_text)
              then (Locator.by_text scope (text_or_empty s.match_text), true)
              else (if is_structural_noise s.role
                  then (if not (is_falsy s.match_text)
                      then locate_noise false scope s.role (text_or_empty s.match_text)
                      else (if not (is_falsy s.child_text)
                          then locate_noise true scope s.role (text_or_empty s.child_text)
                          else (Locator.by_role scope s.role, false)))
                  else (if not (is_falsy text)
                      then (Locator.by_text scope (text_or_empty text), true)
                      else (Locator.without_name scope s.role, false)))))

  unfoldable pub get_locator_from_spec : LocatorSpec → Option Locator
  get_locator_from_spec s =
      let (locator, skip_nth) = locate (enter_frames Locator.page s.frame_path) s in
      if s.role == "" then none else some (if skip_nth then locator else at_nth locator s.nth)

  unfoldable pub get_locator : String → Dict String RefData → Option Locator
  get_locator arg refs = elim (build_locator_spec arg refs) [
    | none ↦ none
    | some s ↦ get_locator_from_spec s
  ]
