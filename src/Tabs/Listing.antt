-- ===== src/Tabs/Listing.antt =====
-- What `list_tabs` shows, and which page becomes active when the active one is removed.
use mathlib.Core.List.{Perm}
use mathlib.Core.List.Perm
use browser_cli.Prelude.{
  String, ◌≡◌, ◌⊎◌, inl, inr, refl, Option, none, some, arith, string_eq, Bool-cases, ◌==◌, ap,
  List, [], ◌∷◌, ◌++◌, Bool, true, false, not, select, All,
}
use browser_cli.Prelude.Sort.{sort, insert_sorted, IsSorted, sort-perm, sort-IsSorted}
use browser_cli.Dict.{lookup}
use browser_cli.Tabs.Records.{TabRecord, TabRegistry}
use browser_cli.Tabs.Registry.{list_tabs, visible, by_created, by_active, active_first}

-- The tab is the agent's active one.
abbrev pub is_active : String → TabRecord → Bool
is_active active tab = tab.page_id == active

module _ (active : String) where
  abbrev pub actives : List TabRecord → List TabRecord
  actives = select (is_active active)

  abbrev pub others : List TabRecord → List TabRecord
  others = select (λ tab. not (is_active active tab))

  insert_active :
      (x : TabRecord) (xs : List TabRecord)
      → is_active active x ≡ true
      → insert_sorted (by_active active) x xs ≡ x ∷ xs
  unfolding insert_sorted
  insert_active x [] h = refl
  insert_active x (y ∷ ys) h = rw h

  insert_other :
      (x : TabRecord) (front back : List TabRecord)
      → is_active active x ≡ false
      → All (λ y. is_active active y ≡ true) front
      → All (λ y. is_active active y ≡ false) back
      → insert_sorted (by_active active) x (front ++ back) ≡ front ++ x ∷ back
  unfolding insert_sorted
  insert_other x [] [] h _ _ = refl
  insert_other x [] (y ∷ ys) h _ (hy, _) = rw (h, hy) refl
  insert_other x (y ∷ front) back h (hy, hs) b =
      rw (h, hy) (ap (◌∷◌ y) (insert_other x front back h hs b))

  actives-All : (xs : List TabRecord) → All (λ y. is_active active y ≡ true) (actives xs)
  actives-All [] = tt
  actives-All (x ∷ xs) = ground (arith, actives-All xs)

  others-All : (xs : List TabRecord) → All (λ y. is_active active y ≡ false) (others xs)
  others-All [] = tt
  others-All (x ∷ xs) = ground (arith, others-All xs)

  -- A stable sort by a Boolean key is a partition.
  sort-by_active : (xs : List TabRecord) → sort (by_active active) xs ≡ actives xs ++ others xs
  unfolding sort
  sort-by_active [] = refl
  sort-by_active (x ∷ xs) = rw (sort-by_active xs) (elim (Bool-cases (is_active active x)) [
    | inl h ↦ rw h (insert_active x _ h)
    | inr h ↦ rw h (insert_other x _ _ h (actives-All xs) (others-All xs))
  ])

-- The agent's tabs in the order of their creation.
abbrev pub in_order : String → TabRegistry → List TabRecord
in_order agent_id r = sort by_created (visible agent_id r)

by_created_total : (x y : TabRecord) → by_created x y ≡ false → by_created y x ≡ true
by_created_total x y h = ground arith

by_created_trans :
    (x y z : TabRecord) → by_created x y ≡ true → by_created y z ≡ true → by_created x z ≡ true
by_created_trans x y z h k = ground arith

active_first-cases :
    (o : Option String) (tabs : List TabRecord)
    → (active_first o tabs ≡ tabs)
      ⊎ ((p : String) × (o ≡ some p) × (active_first o tabs ≡ actives p tabs ++ others p tabs))
active_first-cases none tabs = inl refl
active_first-cases (some p) tabs = elim (string_eq.dec p "") [
  | yes e ↦ inl (ground arith)
  | no n ↦ inr (p, refl, ground (arith, sort-by_active p tabs))
]

active_first-perm : (o : Option String) (tabs : List TabRecord) → Perm (active_first o tabs) tabs
active_first-perm none tabs = Perm.refl tabs
active_first-perm (some p) tabs = elim (string_eq.dec p "") [
  | yes e ↦ ground (arith, Perm.refl tabs)
  | no n ↦ ground (arith, sort-perm (by_active p) tabs)
]

-- The tabs are in the order of creation, but for the active one, which is in front.
abbrev pub InOrder : String → TabRegistry → List TabRecord → Type 0
InOrder a r tabs =
    (tabs ≡ in_order a r)
    ⊎ ((p : String) × (lookup a r.active_tab_by_agent ≡ some p)
        × (tabs ≡ actives p (in_order a r) ++ others p (in_order a r)))

-- `list_tabs` shows exactly the agent's own tabs: in the order of creation, with the active tab, if
-- the agent has one, moved to the front.
pub list_tabs_order :
    (a : String) (r : TabRegistry)
    → Perm (list_tabs a r) (visible a r)
      × IsSorted by_created (in_order a r)
      × InOrder a r (list_tabs a r)
unfolding list_tabs
list_tabs_order a r = (
  Perm.trans (active_first-perm (lookup a r.active_tab_by_agent) (in_order a r))
      (sort-perm by_created (visible a r)),
  sort-IsSorted by_created by_created_total by_created_trans (visible a r),
  active_first-cases (lookup a r.active_tab_by_agent) (in_order a r),
)
