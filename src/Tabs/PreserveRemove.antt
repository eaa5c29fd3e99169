-- ===== src/Tabs/PreserveRemove.antt =====
-- Removing a tab, and the choice of the agent's next active tab.
use browser_cli.Prelude.{
  String, ◌≡◌, ◌≢◌, inl, inr, Option, none, some, arith, string_eq, Bool-cases, ◌∙◌, sym, ap, List,
  [], ◌∷◌, true, false, All, select-All,
}
use browser_cli.Prelude.Sort.{sort-All}
use browser_cli.Dict.{
  lookup, erase, values, values-All, NodupKeys, erase-NodupKeys, erase-cases, insert-cases,
  lookup-erase_ne,
}
use browser_cli.Tabs.Records.{TabRecord, TabRegistry, tab_not_found}
use browser_cli.Tabs.Registry.{
  owned_by, visible, by_latest, first_page_id, find_latest_page_id, is_page, set_or_pop, remove_tab,
}
use browser_cli.Tabs.Calls.{after}
use browser_cli.Tabs.Invariant.{IsTab, IsActive, IsWf}
use browser_cli.Tabs.Owned.{Owns, owned-cases}

-- The record can be looked up by its own id.
abbrev pub IsThere : TabRegistry → TabRecord → Type 0
IsThere r tab = lookup tab.page_id r.tabs ≡ some tab

module _ (r : TabRegistry) (distinct : NodupKeys r.tabs)
    (each : (p : String) (tab : TabRecord) → lookup p r.tabs ≡ some tab → IsTab p tab) where
  pub visible-All :
      (a : String) → All (λ tab. IsThere r tab × (owned_by a tab ≡ true)) (visible a r)
  visible-All a = select-All (IsThere r) (owned_by a) (values r.tabs) (
      values-All (IsThere r) r.tabs distinct
        (λ k v there. ap (λ q. lookup q r.tabs) (each k v there).keyed ∙ there))

  first-Owns :
      (a q : String) (tabs : List TabRecord)
      → All (λ tab. IsThere r tab × (owned_by a tab ≡ true)) tabs
      → first_page_id tabs ≡ some q
      → (tab : TabRecord) × Owns a q r tab
  first-Owns a q [] _ h = absurd (ground arith)
  first-Owns a q (tab ∷ _) ((there, own), _) h =
      (tab, record { there = ground arith; own = ground arith })

  -- The page that is chosen is the agent's own.
  pub find_latest_page_id-Owns :
      (a q : String) → find_latest_page_id a r ≡ some q → (tab : TabRecord) × Owns a q r tab
  unfolding find_latest_page_id
  find_latest_page_id-Owns a q h =
      first-Owns a q _ (sort-All _ by_latest (visible a r) (visible-All a)) h

module _ (r : TabRegistry) (w : IsWf r) (a p : String) (removed : TabRecord)
    (o : Owns a p r removed) where
  abbrev pub rest : TabRegistry
  rest = record r { tabs = erase p r.tabs }

  pub rest-each : (q : String) (tab : TabRecord) → lookup q rest.tabs ≡ some tab → IsTab q tab
  rest-each q tab h = w.each q tab (erase-cases q p tab r.tabs h).1

  -- The other agents' active pages are still there.
  other-IsActive :
      (b q : String) → b ≢ a → lookup b r.active_tab_by_agent ≡ some q → IsActive rest b q
  other-IsActive b q n h =
      let (tab, there, own) = w.active b q h in
      let m : q ≢ p = λ e. n (ground (arith, o.there, o.own)) in
      (tab, lookup-erase_ne q p r.tabs m ∙ there, own)

  replaced-IsActive :
      (next : Option String)
      → ((q : String) → next ≡ some q → (tab : TabRecord) × Owns a q rest tab)
      → (b q : String) → lookup b (set_or_pop a next r.active_tab_by_agent) ≡ some q
      → IsActive rest b q
  replaced-IsActive none chosen b q h =
      let (n, there) = erase-cases b a q r.active_tab_by_agent h in other-IsActive b q n there
  replaced-IsActive (some l) chosen b q h = elim (insert-cases b a l q r.active_tab_by_agent h) [
    | inl (e, same) ↦
        let (tab, mine) = chosen q (ap some same) in (tab, mine.there, mine.own ∙ sym e)
    | inr (n, there) ↦ other-IsActive b q n there
  ]

  kept-IsActive :
      is_page p (lookup a r.active_tab_by_agent) ≡ false
      → (b q : String) → lookup b r.active_tab_by_agent ≡ some q
      → IsActive rest b q
  kept-IsActive f b q h = elim (string_eq.dec b a) [
    | no n ↦ other-IsActive b q n h
    | yes e ↦
        let (tab, there, own) = w.active b q h in
        let m : q ≢ p = λ same. ground arith in (tab, lookup-erase_ne q p r.tabs m ∙ there, own)
  ]

pub remove_tab-IsWf :
    (a p : String) (r : TabRegistry) → IsWf r → IsWf (after (λ s. s.1) r (remove_tab a p r))
unfolding remove_tab
remove_tab-IsWf a p r w = elim (owned-cases tab_not_found a p r) [
  | inl e ↦ rw (e, remove_tab) w
  | inr (removed, e, o) ↦
      let distinct = erase-NodupKeys p r.tabs w.distinct in
      let each = rest-each r w a p removed o in
      elim (Bool-cases (is_page p (lookup a r.active_tab_by_agent))) [
        | inl was ↦
            rw (e, remove_tab, was)
              (record {
                distinct = distinct;
                each = each;
                active =
                    replaced-IsActive r w a p removed o _
                      (find_latest_page_id-Owns (rest r w a p removed o) distinct each a);
              })
        | inr not' ↦
            rw (e, remove_tab, not')
              (record {
                distinct = distinct;
                each = each;
                active = kept-IsActive r w a p removed o not';
              })
      ]
]
