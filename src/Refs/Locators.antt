-- ===== src/Refs/Locators.antt =====
-- refs/resolver.py on a snapshot of refs/generator.py: from a ref to the element that has it.
use browser_cli.Prelude.{
  String, ℕ, ◌<◌, Option, none, some, true, false, ◌≡◌, ◌≢◌, refl, arith, string_eq, pair_eq,
  option_eq, list_eq, nat_eq, ap, ◌∙◌, ◌⊎◌, inl, inr,
}
use browser_cli.Dict.{Dict, lookup}
use browser_cli.Refs.{RefData}
use browser_cli.Refs.Markup.{Python, is_falsy, or_else, is_structural_noise, is_text_leaf}
use browser_cli.Refs.Walk.{Key, key_of, compute_stable_ref}
use browser_cli.Refs.Generator.{Options, snapshot_from_raw_text}
use browser_cli.Refs.Numbered.{Separates}
use browser_cli.Refs.Numbering.{occurrences, snapshot_ref}
use browser_cli.Refs.Resolver.{
  LocatorSpec, Locator, noise_css, enter_frames, stripped_or_none, locator_spec, locate_noise,
  locate, get_locator_from_spec, get_locator,
}
use browser_cli.Refs.Spelling.{IsRef, Written, build_locator_spec_of}

noise-cases :
    (role : String)
    → is_structural_noise role ≡ true
    → (role ≡ "generic") ⊎ (role ≡ "group") ⊎ (role ≡ "none") ⊎ (role ≡ "presentation")
unfolding is_structural_noise
noise-cases role h = ground arith

noise_css-IsSome :
    (role : String) → is_structural_noise role ≡ true → is_falsy (noise_css role) ≡ false
unfolding noise_css string_eq
noise_css-IsSome role h = elim (noise-cases role h) [
  | inl e ↦ rw e
  | inr (inl e) ↦ rw e
  | inr (inr (inl e)) ↦ rw e
  | inr (inr (inr e)) ↦ rw e
]

module _ (py : Python) (scope : Locator) where
  -- With a name, only an element of the role `text` is located without its number.
  locate-counts :
      (s : LocatorSpec)
      → is_text_leaf s.role ≡ false
      → is_falsy (stripped_or_none py s.name) ≡ false
      → is_falsy s.match_text ≡ false
      → (locate py scope s).1 ≡ false
  unfolding locate locate_noise
  locate-counts s leaf named text = ground (arith, noise_css-IsSome s.role)

  -- The locator is that of the role, the name and the text.
  locate-same :
      (s t : LocatorSpec)
      → is_text_leaf s.role ≡ false
      → is_falsy (stripped_or_none py s.name) ≡ false
      → is_falsy s.match_text ≡ false
      → s.role ≡ t.role
      → s.name ≡ t.name
      → s.match_text ≡ t.match_text
      → (locate py scope s).0 ≡ (locate py scope t).0
  unfolding locate
  locate-same s t leaf named text r n m = ground arith

or_else_first : (a b : Option String) → is_falsy a ≡ false → or_else a b ≡ a
or_else_first a b h = rw h

-- `strip` leaves nothing to strip.
abbrev pub StripsOnce : Python → Type 0
StripsOnce py = (s : String) → py.strip (py.strip s) ≡ py.strip s

stripped-stripped :
    (py : Python)
    → StripsOnce py
    → (name : Option String)
    → stripped_or_none py (stripped_or_none py name) ≡ stripped_or_none py name
unfolding stripped_or_none
stripped-stripped py once none = refl
stripped-stripped py once (some s) = ground (arith, once s)

-- What the locator of an element of a role and name is made of.
abbrev spec_of : Python → Key → LocatorSpec
spec_of py (role, (name, path)) = record {
  ref = "";
  role = role;
  name = stripped_or_none py name;
  text_content = none;
  match_text = stripped_or_none py name;
  child_text = none;
  nth = none;
  tag = none;
  interactive = false;
  frame_path = path;
  selector_recipe = none;
}

abbrev locator_of : Python → Key → Locator
locator_of py k = (locate py (enter_frames Locator.page k.1.1) (spec_of py k)).0

from_spec :
    (py : Python) (s : LocatorSpec) (i : ℕ)
    → s.role ≢ ""
    → (locate py (enter_frames Locator.page s.frame_path) s).1 ≡ false
    → s.nth ≡ some i
    → get_locator_from_spec py s
      ≡ some (Locator.nth (locate py (enter_frames Locator.page s.frame_path) s).0 i)
unfolding get_locator_from_spec
from_spec py s i some_role counts number = ground arith

module _ (py : Python) (once : StripsOnce py) (refs : Dict String RefData) (d : RefData)
    (ref arg : String) (i : ℕ) (there : lookup ref refs ≡ some d) (number : d.nth ≡ some i)
    (some_role : d.role ≢ "") (no_leaf : is_text_leaf d.role ≡ false)
    (named : is_falsy (stripped_or_none py d.name) ≡ false) (is_ref : IsRef py ref)
    (written : Written ref arg) where
  abbrev scope : Locator
  scope = enter_frames Locator.page d.frame_path

  abbrev spec : LocatorSpec
  spec = locator_spec py ref d refs

  matched : spec.match_text ≡ stripped_or_none py d.name
  unfolding locator_spec
  matched = or_else_first _ _ named

  spec-locator : (locate py scope spec).0 ≡ locator_of py (key_of d)
  unfolding locator_spec
  spec-locator =
      locate-same py scope spec (spec_of py (key_of d)) no_leaf
        (rw (stripped-stripped py once d.name) named) (rw matched named) refl refl matched

  spec-counts : (locate py scope spec).1 ≡ false
  unfolding locator_spec
  spec-counts =
      locate-counts py scope spec no_leaf (rw (stripped-stripped py once d.name) named)
        (rw matched named)

  get_locator_of : get_locator py arg refs ≡ some (Locator.nth (locator_of py (key_of d)) i)
  unfolding get_locator locator_spec
  get_locator_of =
      rw (build_locator_spec_of py ref is_ref arg refs d written there, get_locator)
        (from_spec py spec i some_role spec-counts number
          ∙ ap (λ l. some (Locator.nth l i)) spec-locator)

module _ (py : Python) (once : StripsOnce py) (o : Options) (raw : String)
    (separate : Separates py (occurrences py o raw)) (some_text : raw ≢ "") (k : Key)
    (some_role : k.0 ≢ "") (no_leaf : is_text_leaf k.0 ≡ false)
    (named : is_falsy (stripped_or_none py k.1.0) ≡ false) where
  -- One of several elements of a role and name in a frame, by its ref.
  element-locator :
      (i : ℕ) (arg : String)
      → i < occurrences py o raw k
      → occurrences py o raw k ≢ 1
      → IsRef py (compute_stable_ref py k i)
      → Written (compute_stable_ref py k i) arg
      → get_locator py arg (snapshot_from_raw_text py o raw).refs
        ≡ some (Locator.nth (locator_of py k) i)
  element-locator i arg less several is_ref written =
      let (d, there, same, number) = snapshot_ref py o raw separate k i some_text less in
      get_locator_of py once (snapshot_from_raw_text py o raw).refs d (compute_stable_ref py k i)
        arg i there (number ∙ ground arith) (rw (ap (λ t. t.0) same) some_role)
        (rw (ap (λ t. t.0) same) no_leaf) (rw (ap (λ t. t.1.0) same) named) is_ref written
      ∙ ap (λ c. some (Locator.nth (locator_of py c) i)) same

  -- Two elements of the same role and name in a frame are found by the same locator, each taken at
  -- its own number, in whichever way their refs are written; the name must not be blank, and the
  -- role neither empty nor `text`
  pub elements_apart :
      (i j : ℕ) (a b : String)
      → i ≢ j
      → i < occurrences py o raw k
      → j < occurrences py o raw k
      → IsRef py (compute_stable_ref py k i)
      → IsRef py (compute_stable_ref py k j)
      → Written (compute_stable_ref py k i) a
      → Written (compute_stable_ref py k j) b
      → (l : Locator) × (get_locator py a (snapshot_from_raw_text py o raw).refs
          ≡ some (Locator.nth l i))
        × (get_locator py b (snapshot_from_raw_text py o raw).refs ≡ some (Locator.nth l j))
  elements_apart i j a b apart less_i less_j is_i is_j written_i written_j = (
    locator_of py k,
    element-locator i a less_i (λ e. absurd (omega arith)) is_i written_i,
    element-locator j b less_j (λ e. absurd (omega arith)) is_j written_j,
  )
