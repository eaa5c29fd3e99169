-- ===== src/Refs/Labels.antt =====
-- refs/generator.py: whether an element is kept, what its label is, and what stands behind it.
use browser_cli.Prelude.{
  String, Option, none, some, Bool, true, not, ◌&&◌, ◌||◌, ◌==◌, string_eq, nat_eq, pair_eq,
  option_eq, list_eq, if◌then◌else◌,
}
use Prim.Native.String.{◌++◌ as join}
use browser_cli.Refs.Markup.{
  Python, is_falsy, or_else, or_none, text_or_empty, is_interactive, is_structural_noise,
  is_always_ref, is_content, is_landmark, is_semantic, is_structural,
}

module _ (py : Python) where
  abbrev pub has_state : String → Bool
  has_state suffix =
      py.has "[cursor=pointer]" suffix
      || (py.has "[pressed" suffix
          || py.has "[expanded" suffix
          || py.has "[checked" suffix
          || py.has "[selected" suffix)
      || py.has "[disabled]" suffix

  -- Whether a line is kept, and whether it has a ref.
  unfoldable pub should_keep : String → Option String → String → Bool → Bool × Bool
  should_keep role name suffix interactive_only =
      let always = is_interactive role || has_state suffix in
      if interactive_only
      then (always, always)
      else (if always
          then (true, true)
          else (if is_always_ref role
              then (true, true)
              else (if is_content role || is_landmark role || is_semantic role || is_structural role
                  then (true, not (is_falsy name))
                  else (if is_structural_noise role
                      then (not (is_falsy name), not (is_falsy name))
                      else (true, not (is_falsy name))))))

  -- The label that stands in a line behind a colon.
  unfoldable pub label : Option String → String → Option String
  label name suffix =
      if is_falsy name && not (suffix == "") && py.has ":" suffix
      then (elim (py.inline_label suffix) [
        | none ↦ name
        | some (quoted, bare) ↦ or_none (py.strip (text_or_empty (or_else quoted bare)))
      ])
      else name

  abbrev pub differs : Option String → String → Bool
  differs none candidate = true
  differs (some name) candidate = not (candidate == name)

  unfoldable pub text_content : Option String → String → Option String
  text_content name suffix =
      if not (suffix == "") && py.has ":" suffix
      then (elim (py.inline_text suffix) [
        | none ↦ none
        | some text ↦
            if not (py.strip text == "") && differs name (py.strip text)
            then some (py.strip text)
            else none
      ])
      else none

  abbrev pub unquoted : String → String
  unquoted text =
      if py.starts_with "\"" text && py.ends_with "\"" text
      then py.drop_last (py.drop 1 text)
      else text

  -- The suffix less a text that only repeats the name.
  unfoldable pub without_name : Option String → String → String
  without_name none suffix = suffix
  without_name (some name) suffix =
      if not (name == "") && py.has ":" suffix
      then (elim (py.after_colon suffix) [
        | none ↦ suffix
        | some (start, text) ↦
            if unquoted (py.strip text) == name then py.rstrip (py.take start suffix) else suffix
      ])
      else suffix

  unfoldable pub with_suffix : String → String → String
  with_suffix suffix line =
      if suffix == ":"
      then join line ":"
      else (if py.starts_with ":" suffix
          then join line suffix
          else (if py.ends_with ":" suffix
              then join line (join " " (join (py.drop_last suffix) ":"))
              else join line (join " " suffix)))
