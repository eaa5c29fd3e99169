-- ===== src/Refs/Examples.antt =====
-- A snapshot of two buttons of one name in a dialog, and the theorems on it.
use browser_cli.Prelude.{
  String, ℕ, zero, suc, ◌<◌, List, [], ◌∷◌, none, some, true, false, ◌≡◌, ◌≢◌, refl, arith, ◌==◌,
  if◌then◌else◌, string_eq, pair_eq, option_eq, list_eq, nat_eq, sym, ap, ◌∙◌, ◌⊎◌, inl, inr,
}
use mathlib.Core.Option
use browser_cli.Dict.{lookup}
use browser_cli.Refs.{RefData, no_snapshots, from_snapshot}
use browser_cli.Refs.Walk.{Key, key_of, compute_stable_ref, count_of}
use browser_cli.Refs.Generator.{snapshot_from_raw_text}
use browser_cli.Refs.Numbered.{Separates}
use browser_cli.Refs.Numbering.{occurrences, snapshot_ref}
use browser_cli.Refs.Known.{Known}
use browser_cli.Refs.Pages.{Call, require_in, require_locator, run}
use browser_cli.Refs.Pages.Stale.{kept, require_locator-kept}
use browser_cli.Refs.Parents.{snapshot_parents}
use browser_cli.Refs.Resolver.{Locator, get_locator}
use browser_cli.Refs.Locators.{elements_apart}
use browser_cli.Refs.Spelling.{IsRef, Written}
use browser_cli.Refs.Sample.{py, options, raw, save, dialog, shot, walk_counts}

-- The elements, by their refs.
abbrev element : String → Key × ℕ
element ref =
    if ref == "0000000d" then (dialog, 0) else (if ref == "000000b0" then (save, 0) else (save, 1))

counted :
    (k : Key) (i : ℕ)
    → i < occurrences py options raw k
    → ((k ≡ dialog) × (i ≡ 0)) ⊎ ((k ≡ save) × (i ≡ 0)) ⊎ ((k ≡ save) × (i ≡ 1))
unfolding count_of lookup
counted k i h = let h' = rw walk_counts at h in ground arith

element_lem :
    (k : Key) (i : ℕ)
    → i < occurrences py options raw k
    → element (compute_stable_ref py k i) ≡ (k, i)
unfolding shot
element_lem k i h = elim (counted k i h) [
  | inl (p, q) ↦ rw (p, q) refl
  | inr (inl (p, q)) ↦ rw (p, q) refl
  | inr (inr (p, q)) ↦ rw (p, q) refl
]

separate : Separates py (occurrences py options raw)
separate k k' i i' h h' e =
    let same : (k, i) ≡ (k', i') = sym (element_lem k i h) ∙ ap element e ∙ element_lem k' i' h' in
    (ap (λ t. t.0) same, ap (λ t. t.1) same)

texts_differ : (s t : String) → (s == t) ≡ false → s ≢ t
texts_differ s t h e = ground arith

some_text : raw ≢ ""
unfolding shot
some_text = texts_differ raw "" refl

two : (i : ℕ) → i < 2 → i < occurrences py options raw save
unfolding shot
two i h = h

snapshot_ref_example :
    (d : RefData) × (lookup
        (compute_stable_ref py save 1)
        (snapshot_from_raw_text py options raw).refs
      ≡ some d)
    × (key_of d ≡ save)
    × (d.nth ≡ (if occurrences py options raw save == 1 then none else some 1))
snapshot_ref_example = snapshot_ref py options raw separate save 1 some_text (two 1 (omega arith))

-- The second button, below the dialog.
abbrev button : RefData
button = record {
  ref = "000000b1";
  role = "button";
  name = some "Save";
  nth = some 1;
  text_content = none;
  tag = none;
  interactive = true;
  parent_ref = some "0000000d";
  frame_path = [];
  playwright_ref = none;
  selector_recipe = some "get_by_role(\"button\", name=\"Save\", exact=True)";
  snapshot_id = "snap_1";
  page_id = "page_1";
  captured_url = "https://example.com";
  captured_at = 7;
}

shot_button : lookup "000000b1" (snapshot_from_raw_text py options raw).refs ≡ some button
unfolding shot
shot_button = refl

snapshot_parents_example : Known (snapshot_from_raw_text py options raw).refs button.parent_ref
snapshot_parents_example = snapshot_parents py options raw "000000b1" button shot_button

digits : (i : ℕ) → i < 2 → IsRef py (compute_stable_ref py save i)
unfolding shot
digits zero h = record {
  bare = refl;
  no_at = refl;
  no_key = refl;
  hex = refl;
  lowered = refl;
  some_digits = texts_differ _ _ refl;
  at_bare = refl;
  at_starts = refl;
  at_drop = refl;
  key_bare = refl;
  key_no_at = refl;
  key_starts = refl;
  key_drop = refl;
}
digits (suc zero) h = record {
  bare = refl;
  no_at = refl;
  no_key = refl;
  hex = refl;
  lowered = refl;
  some_digits = texts_differ _ _ refl;
  at_bare = refl;
  at_starts = refl;
  at_drop = refl;
  key_bare = refl;
  key_no_at = refl;
  key_starts = refl;
  key_drop = refl;
}
digits (suc (suc i)) h = absurd (omega arith)

elements_apart_example :
    (l : Locator) × (get_locator py "@000000b0" (snapshot_from_raw_text py options raw).refs
      ≡ some (Locator.nth l 0))
    × (get_locator py "000000b1" (snapshot_from_raw_text py options raw).refs
        ≡ some (Locator.nth l 1))
unfolding shot
elements_apart_example =
    elements_apart py (λ s. refl) options raw separate some_text save (texts_differ _ _ refl) refl
      refl 0 1 "@000000b0" "000000b1" (omega arith) (two 0 (omega arith)) (two 1 (omega arith))
      (digits 0 (omega arith)) (digits 1 (omega arith)) Written.at Written.plain

-- The page is captured, another page is navigated, and the close of the first raises.
abbrev calls : List Call
calls =
    Call.capture_snapshot options raw ∷ Call.navigate "page_2" ∷ Call.close_tab "page_1" false ∷ []

require_locator-kept_example :
    require_locator py "page_1" "@000000b1" (run py calls no_snapshots)
    ≡ require_in py "@000000b1" (Option.map from_snapshot (kept py "page_1" calls none))
require_locator-kept_example = require_locator-kept py "page_1" "@000000b1" calls

kept_calls : kept py "page_1" calls none ≡ some (snapshot_from_raw_text py options raw)
unfolding kept string_eq
kept_calls = refl
