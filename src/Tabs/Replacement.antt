-- ===== src/Tabs/Replacement.antt =====
-- Which page becomes active when the active one is removed.
use browser_cli.Prelude.{
  String, ◌≡◌, ◌⊎◌, ◌≤◌, inl, inr, refl, none, some, arith, string_eq, List, [], ◌∷◌, true, false,
  All, leb→le,
}
use browser_cli.Prelude.Sort.{sort, IsSorted, sort-IsSorted, sort-All, All-sort, sort-eq-nil}
use browser_cli.Dict.{lookup, lookup-insert_self, lookup-erase_self, erase-NodupKeys}
use browser_cli.Tabs.Records.{TabRecord, TabRegistry, ok, tab_not_found}
use browser_cli.Tabs.Registry.{
  visible, by_latest, owned_by, remove_tab, find_latest_page_id, first_page_id, set_or_pop,
}
use browser_cli.Tabs.Owned.{Owns, owned_of_Owns}
use browser_cli.Tabs.Invariant.{IsWf}
use browser_cli.Tabs.PreserveRemove.{IsThere, visible-All, rest, rest-each}

by_latest_total : (x y : TabRecord) → by_latest x y ≡ false → by_latest y x ≡ true
by_latest_total x y h = ground arith

by_latest_trans :
    (x y z : TabRecord) → by_latest x y ≡ true → by_latest y z ≡ true → by_latest x z ≡ true
by_latest_trans x y z h k = ground arith

-- The tab was used no earlier than any of the list.
abbrev pub Latest : TabRecord → List TabRecord → Type 0
Latest tab tabs = All (λ other. other.last_used_at ≤ tab.last_used_at) tabs

Latest-sorted :
    (tab : TabRecord) (tabs : List TabRecord)
    → All (λ other. by_latest tab other ≡ true) tabs
    → Latest tab tabs
Latest-sorted tab [] _ = tt
Latest-sorted tab (x ∷ xs) (h, hs) =
    (leb→le x.last_used_at tab.last_used_at h, Latest-sorted tab xs hs)

-- The first of the sorted candidates, and what is known of it; or there is no candidate.
first-Latest :
    (a : String) (r : TabRegistry) (sorted : List TabRecord)
    → IsSorted by_latest sorted
    → All (λ tab. IsThere r tab × (owned_by a tab ≡ true)) sorted
    → (sorted ≡ [])
      ⊎ ((tab : TabRecord) × (first_page_id sorted ≡ some tab.page_id)
          × Owns a tab.page_id r tab
          × Latest tab sorted)
first-Latest a r [] _ _ = inl refl
first-Latest a r (tab ∷ tabs) (first, _) ((there, own), _) = inr (
  tab,
  refl,
  record { there = there; own = ground arith },
  (omega arith, Latest-sorted tab tabs first),
)

-- The agent's next active tab after a removal.
abbrev pub IsNext : String → TabRegistry → Type 0
IsNext a r =
    ((lookup a r.active_tab_by_agent ≡ none) × (visible a r ≡ []))
    ⊎ ((tab : TabRecord) × (lookup a r.active_tab_by_agent ≡ some tab.page_id)
        × Owns a tab.page_id r tab
        × Latest tab (visible a r))

module _ (a p : String) (r : TabRegistry) (w : IsWf r) (tab : TabRecord) (o : Owns a p r tab) where
  abbrev left : TabRegistry
  left = rest r w a p tab o

  -- The registry that removing the active page leaves.
  abbrev moved : TabRegistry
  moved = record left {
    active_tab_by_agent = set_or_pop a (find_latest_page_id a left) r.active_tab_by_agent;
  }

  moved-IsNext : IsNext a moved
  unfolding find_latest_page_id
  moved-IsNext =
      let distinct = erase-NodupKeys p r.tabs w.distinct in
      let sorted = sort by_latest (visible a left) in
      let all =
        sort-All _ by_latest (visible a left)
          (visible-All left distinct (rest-each r w a p tab o) a) in
      elim (first-Latest a left sorted
        (sort-IsSorted by_latest by_latest_total by_latest_trans (visible a left)) all) [
          | inl e ↦ inl (
            rw e (lookup-erase_self a r.active_tab_by_agent),
            sort-eq-nil by_latest (visible a left) e,
          )
          | inr (next, e, own, latest) ↦ inr (
            next,
            rw e (lookup-insert_self a next.page_id r.active_tab_by_agent),
            record { there = own.there; own = own.own },
            All-sort _ by_latest (visible a left) latest,
          )
        ]

  remove_active : lookup a r.active_tab_by_agent ≡ some p → remove_tab a p r ≡ ok (tab, moved)
  unfolding remove_tab
  remove_active h = rw (owned_of_Owns tab_not_found a p r tab o, remove_tab, h) (ground arith)

-- In a well-formed registry an agent can always remove its active tab. Afterwards the page is gone,
-- and the agent's active tab is the most recently used of those that it has left, or none if it has
-- none left.
pub remove_tab-IsNext :
    (a p : String) (r : TabRegistry)
    → IsWf r
    → lookup a r.active_tab_by_agent ≡ some p
    → (tab : TabRecord) × (r' : TabRegistry) × (remove_tab a p r ≡ ok (tab, r'))
      × (lookup p r'.tabs ≡ none)
      × IsNext a r'
remove_tab-IsNext a p r w h =
    let (tab, there, own) = w.active a p h in
    let o : Owns a p r tab = record { there = there; own = own } in
    (
      tab,
      moved a p r w tab o,
      remove_active a p r w tab o h,
      lookup-erase_self p r.tabs,
      moved-IsNext a p r w tab o,
    )
