-- ===== src/Refs/Parents.antt =====
-- refs/generator.py: the parents of the elements of a snapshot.
use browser_cli.Prelude.{
  String, ℕ, List, [], ◌∷◌, Option, none, some, Bool, true, false, ◌≡◌, arith, ◌==◌, string_eq, sym,
  ap, ◌∙◌, inl, inr, Bool-cases, Option-cases,
}
use mathlib.Core.Option
use mathlib.Core.Path.{subst}
use browser_cli.Dict.{Dict, lookup, lookup-insert_self}
use browser_cli.Refs.{RefData}
use browser_cli.Refs.Markup.{Python, LineMatch}
use browser_cli.Refs.Walk.{
  Key, Walk, Element, no_lines, close_deeper, enter_frame, push_depth, add_line, number_refs,
  without_nth, indent_level,
}
use browser_cli.Refs.Generator.{
  Options, other_line, property_line, ref_data, add_ref, keep_element, read_element, read_match,
  read_line, read_lines, walk, snapshot_from_raw_text,
}
use browser_cli.Refs.Labels.{should_keep}
use browser_cli.Refs.Effects.{enter_frame-refs, IsText, other_line-IsText, property_line-IsText}
use browser_cli.Refs.Counts.{lookup-number_refs}
use browser_cli.Refs.Numbering.{snapshot_refs}
use browser_cli.Refs.Known.{
  Known, pop_depths-OpenKnown, nearest_parent_ref-Known, ParentsKnown, insert-ParentsKnown,
}

abbrev WalkKnown : Walk → Type 0
WalkKnown w = ParentsKnown w.refs w.depth_stack

-- The state of another walk, with the same refs and the same elements open.
same-WalkKnown :
    (w w' : Walk) → w'.refs ≡ w.refs → w'.depth_stack ≡ w.depth_stack → WalkKnown w → WalkKnown w'
same-WalkKnown w w' r s p = rw (r, s) p

enter_frame-depth_stack : (e : Element) (w : Walk) → (enter_frame e w).depth_stack ≡ w.depth_stack
unfolding enter_frame
enter_frame-depth_stack e w = ground arith

enter_frame-WalkKnown : (e : Element) (w : Walk) → WalkKnown w → WalkKnown (enter_frame e w)
enter_frame-WalkKnown e w =
    same-WalkKnown w (enter_frame e w) (enter_frame-refs e w) (enter_frame-depth_stack e w)

push_depth-WalkKnown :
    (e : Element) (kept : Bool) (out : ℕ) (ref : Option String) (w : Walk)
    → Known w.refs ref
    → WalkKnown w
    → WalkKnown (push_depth e kept out ref w)
unfolding push_depth
push_depth-WalkKnown e kept out ref w h p = record { opened = (h, p.opened); written = p.written }

IsText-WalkKnown : (w w' : Walk) → IsText w w' → WalkKnown w → WalkKnown w'
IsText-WalkKnown w w' h = same-WalkKnown w w' (ap (λ x. x.refs) h) (ap (λ x. x.depth_stack) h)

close_deeper-WalkKnown : (depth : ℕ) (w : Walk) → WalkKnown w → WalkKnown (close_deeper depth w)
unfolding close_deeper
close_deeper-WalkKnown depth w p = record {
  opened = pop_depths-OpenKnown w.refs depth w.depth_stack p.opened;
  written = p.written;
}

module _ (py : Python) (o : Options) where
  add_ref-WalkKnown : (e : Element) (w : Walk) → WalkKnown w → WalkKnown (add_ref py o e w)
  unfolding add_ref ref_data
  add_ref-WalkKnown e w p =
      insert-ParentsKnown w.refs w.depth_stack _ _ p
        (nearest_parent_ref-Known w.refs e.depth w.depth_stack p.opened)

  add_ref-Known :
      (e : Element) (w : Walk) → Known (add_ref py o e w).refs (some (ref_data py o e w).ref)
  unfolding add_ref
  add_ref-Known e w gone =
      cc (lookup-insert_self (ref_data py o e w).ref (ref_data py o e w) w.refs)

  keep_element-WalkKnown :
      (e : Element) (have_ref : Bool) (w : Walk)
      → WalkKnown w
      → WalkKnown (keep_element py o e have_ref w)
  unfolding keep_element add_line
  keep_element-WalkKnown e true w p = enter_frame-WalkKnown e _ (
      push_depth-WalkKnown e true _ _ (add_ref py o e w) (add_ref-Known e w)
        (add_ref-WalkKnown e w p))
  keep_element-WalkKnown e false w p =
      enter_frame-WalkKnown e _ (push_depth-WalkKnown e true _ none w tt p)

  read_element-WalkKnown :
      (e : Element) (w : Walk) → WalkKnown w → WalkKnown (read_element py o e w)
  unfolding read_element
  read_element-WalkKnown e w p =
      elim (Bool-cases (should_keep py e.role_lower e.name e.suffix o.interactive).0) [
        | inl k ↦ rw k (keep_element-WalkKnown e _ w p)
        | inr k ↦ rw k (enter_frame-WalkKnown e _ (push_depth-WalkKnown e false _ none w tt p))
      ]

  read_match-WalkKnown :
      (depth : ℕ) (m : LineMatch) (w : Walk) → WalkKnown w → WalkKnown (read_match py o depth m w)
  unfolding read_match
  read_match-WalkKnown depth m w p = elim (Bool-cases (py.starts_with "/" m.role)) [
    | inl k ↦
        rw k (IsText-WalkKnown w (property_line py depth m w) (property_line-IsText py depth m w) p)
    | inr k ↦ rw k (read_element-WalkKnown _ w p)
  ]

  read_line-WalkKnown : (line : String) (w : Walk) → WalkKnown w → WalkKnown (read_line py o line w)
  unfolding read_line
  read_line-WalkKnown line w p = elim (Bool-cases (py.strip line == "")) [
    | inl blank ↦ rw blank p
    | inr text ↦
        let closed = close_deeper-WalkKnown (indent_level py line) w p in
        rw text (elim (Option-cases (py.line_match line)) [
          | inl other ↦ rw other (
              IsText-WalkKnown (close_deeper (indent_level py line) w)
                (other_line py o.interactive line (close_deeper (indent_level py line) w))
                (other_line-IsText py o.interactive line _) closed)
          | inr (m, is_match) ↦ rw is_match (read_match-WalkKnown _ m _ closed)
        ])
  ]

  read_lines-WalkKnown :
      (lines : List String) (w : Walk) → WalkKnown w → WalkKnown (read_lines py o lines w)
  unfolding read_lines
  read_lines-WalkKnown [] w p = p
  read_lines-WalkKnown (line ∷ lines) w p =
      read_lines-WalkKnown lines (read_line py o line w) (read_line-WalkKnown line w p)

  walk-WalkKnown : (raw : String) → WalkKnown (walk py o raw)
  unfolding walk lookup
  walk-WalkKnown raw =
      read_lines-WalkKnown _ no_lines (record { opened = tt; written = λ ref d h. absurd (cc) })

Known-number_refs :
    (counts : Dict Key ℕ) (refs : Dict String RefData) (parent : Option String)
    → Known refs parent
    → Known (number_refs counts refs) parent
Known-number_refs counts refs none h = tt
Known-number_refs counts refs (some parent) h =
    λ gone. ground (arith, lookup-number_refs parent counts refs)

parent_ref-without_nth :
    (counts : Dict Key ℕ) (d : RefData) → (without_nth counts d).parent_ref ≡ d.parent_ref
unfolding without_nth
parent_ref-without_nth counts d = ground arith

number_refs-Known :
    (counts : Dict Key ℕ) (refs : Dict String RefData) (ref : String) (d : RefData)
    → ((r : String) (x : RefData) → lookup r refs ≡ some x → Known refs x.parent_ref)
    → lookup ref (number_refs counts refs) ≡ some d
    → Known (number_refs counts refs) d.parent_ref
number_refs-Known counts refs ref d written h =
    let (x, there, same) =
      (Option.map-eq-some_iff (without_nth counts) (lookup ref refs)).0
        (sym (lookup-number_refs ref counts refs) ∙ h) in
    Known-number_refs counts refs d.parent_ref (
      subst (Known refs) (sym (parent_ref-without_nth counts x) ∙ ap (λ y. y.parent_ref) same)
        (written ref x there))

no_refs :
    (py : Python) (o : Options) (raw ref : String) (d : RefData)
    → (raw == "") ≡ true
    → ¬ (lookup ref (snapshot_from_raw_text py o raw).refs ≡ some d)
unfolding snapshot_from_raw_text lookup
no_refs py o raw ref d empty = rw empty (λ h. cc)

-- The parent of each element of a snapshot is an element of the snapshot
pub snapshot_parents :
    (py : Python) (o : Options) (raw ref : String) (d : RefData)
    → lookup ref (snapshot_from_raw_text py o raw).refs ≡ some d
    → Known (snapshot_from_raw_text py o raw).refs d.parent_ref
snapshot_parents py o raw ref d h = elim (Bool-cases (raw == "")) [
  | inl empty ↦ absurd (no_refs py o raw ref d empty h)
  | inr text ↦
      let same = snapshot_refs py o raw (λ e. ground arith) in
      subst (λ refs. Known refs d.parent_ref) (sym same)
        (number_refs-Known _ (walk py o raw).refs ref d (walk-WalkKnown py o raw).written
          (ap (lookup ref) (sym same) ∙ h))
]
