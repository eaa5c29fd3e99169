-- ===== src/Refs/Effects.antt =====
-- refs/generator.py: what a line of the raw snapshot does to the refs and to the counts.
use browser_cli.Prelude.{
  String, ℕ, ◌+◌, some, Bool, true, false, ◌≡◌, refl, ap, ◌==◌, Option-cases, arith, string_eq,
  pair_eq, option_eq, list_eq, nat_eq, Bool-cases, inl, inr,
}
use browser_cli.Dict.{insert}
use browser_cli.Refs.{RefData}
use browser_cli.Refs.Markup.{Python, LineMatch}
use browser_cli.Refs.Walk.{
  Walk, Element, count_of, key_of, close_deeper, add_line, enter_frame, push_depth, indent_level,
  compute_stable_ref,
}
use browser_cli.Refs.Generator.{
  Options, other_line, property_line, ref_data, add_ref, keep_element, read_element, read_match,
  read_line,
}
use browser_cli.Refs.Labels.{should_keep}

-- Nothing is written, or one element is: under its ref, with its number, and it is counted.
pub data Effect (py : Python) (w w' : Walk) : Type 0 where
  quiet : w'.refs ≡ w.refs → w'.occurrence_counts ≡ w.occurrence_counts → Effect py w w'
  tagged :
      (d : RefData)
      → d.nth ≡ some (count_of (key_of d) w.occurrence_counts)
      → w'.refs
        ≡ insert
            (compute_stable_ref py (key_of d) (count_of (key_of d) w.occurrence_counts))
            d
            w.refs
      → w'.occurrence_counts
        ≡ insert (key_of d) (count_of (key_of d) w.occurrence_counts + 1) w.occurrence_counts
      → Effect py w w'

pub enter_frame-refs : (e : Element) (w : Walk) → (enter_frame e w).refs ≡ w.refs
unfolding enter_frame
enter_frame-refs e w = ground arith

enter_frame-occurrence_counts :
    (e : Element) (w : Walk) → (enter_frame e w).occurrence_counts ≡ w.occurrence_counts
unfolding enter_frame
enter_frame-occurrence_counts e w = ground arith

-- A line of text changes the tree alone.
abbrev pub IsText : Walk → Walk → Type 0
IsText w w' = w' ≡ record w { result = w'.result }

module _ (py : Python) where
  pub other_line-IsText :
      (interactive : Bool) (line : String) (w : Walk) → IsText w (other_line py interactive line w)
  unfolding other_line add_line
  other_line-IsText interactive line w = ground arith

  pub property_line-IsText :
      (depth : ℕ) (m : LineMatch) (w : Walk) → IsText w (property_line py depth m w)
  unfolding property_line add_line
  property_line-IsText depth m w = ground arith

  IsText-Effect : (w w' : Walk) → IsText w w' → Effect py w w'
  IsText-Effect w w' h = quiet (ap (λ x. x.refs) h) (ap (λ x. x.occurrence_counts) h)

  close_deeper-Effect :
      (depth : ℕ) (w w' : Walk) → Effect py (close_deeper depth w) w' → Effect py w w'
  unfolding close_deeper
  close_deeper-Effect depth w w' (quiet r c) = quiet r c
  close_deeper-Effect depth w w' (tagged d n r c) = tagged d n r c

  module _ (o : Options) where
    keep_element-Effect :
        (e : Element) (have_ref : Bool) (w : Walk) → Effect py w (keep_element py o e have_ref w)
    unfolding keep_element add_line push_depth add_ref ref_data
    keep_element-Effect e true w =
        tagged (ref_data py o e w) refl (enter_frame-refs e _) (enter_frame-occurrence_counts e _)
    keep_element-Effect e false w = quiet (enter_frame-refs e _) (enter_frame-occurrence_counts e _)

    read_element-Effect : (e : Element) (w : Walk) → Effect py w (read_element py o e w)
    unfolding read_element push_depth
    read_element-Effect e w =
        elim (Bool-cases (should_keep py e.role_lower e.name e.suffix o.interactive).0) [
          | inl yes' ↦ rw yes' (keep_element-Effect e _ w)
          | inr no' ↦ rw no' (quiet (enter_frame-refs e _) (enter_frame-occurrence_counts e _))
        ]

    read_match-Effect :
        (depth : ℕ) (m : LineMatch) (w : Walk) → Effect py w (read_match py o depth m w)
    unfolding read_match
    read_match-Effect depth m w = elim (Bool-cases (py.starts_with "/" m.role)) [
      | inl p ↦ rw p (IsText-Effect w _ (property_line-IsText depth m w))
      | inr p ↦ rw p (read_element-Effect _ w)
    ]

    pub read_line-Effect : (line : String) (w : Walk) → Effect py w (read_line py o line w)
    unfolding read_line
    read_line-Effect line w = elim (Bool-cases (py.strip line == "")) [
      | inl blank ↦ rw blank (quiet refl refl)
      | inr text ↦ rw text (
          close_deeper-Effect (indent_level py line) w _ (elim (Option-cases (py.line_match line)) [
            | inl other ↦ rw other (IsText-Effect _ _ (other_line-IsText o.interactive line _))
            | inr (m, is_match) ↦ rw is_match (read_match-Effect _ m _)
          ]))
    ]
