-- ===== src/Tabs/Preserve.antt =====
-- tabs/registry.py: the registry after the calls that work on one page.
use browser_cli.Prelude.{
  String, ℕ, ◌≡◌, inl, inr, refl, none, some, arith, string_eq, Option-cases, ◌∙◌, sym,
}
use browser_cli.Dict.{lookup, insert, insert-NodupKeys, insert-cases, lookup-insert_self}
use browser_cli.Tabs.Records.{TabRecord, TabRegistry, TabUpdate, tab_not_found}
use browser_cli.Tabs.Registry.{add_tab, new_tab, update_tab, apply_update, set_active_tab}
use browser_cli.Tabs.Calls.{after}
use browser_cli.Tabs.Invariant.{IsTab, IsWf, put_tab-IsWf, insert_each, put_tab-IsActive}
use browser_cli.Tabs.Owned.{owned-cases}

pub add_tab-IsWf :
    (now : ℕ) (p owner url title : String) (r : TabRegistry)
    → lookup p r.tabs ≡ none
    → IsWf r
    → IsWf (add_tab now p owner url title r).1
unfolding add_tab new_tab
add_tab-IsWf now p owner url title r fresh w = record {
  distinct = insert-NodupKeys p tab r.tabs w.distinct;
  each =
      insert_each r p tab w
        (record { keyed = refl; busy_owner = λ b h. cc; closing_owner = λ b h. cc });
  active = λ a q h. elim (insert-cases a owner p q r.active_tab_by_agent h) [
    | inl (same, here) ↦ (tab, ground (arith, lookup-insert_self p tab r.tabs), sym same)
    | inr (_, old) ↦
        let (other, there, own) = w.active a q old in
        put_tab-IsActive r p tab a q (λ e. absurd (ground arith)) (other, there, own)
  ];
}
  where
    tab : TabRecord
    tab = new_tab now p owner url title

pub update_tab-IsWf :
    (now : ℕ) (p : String) (u : TabUpdate) (r : TabRegistry)
    → IsWf r
    → IsWf (after (λ a. a.1) r (update_tab now p u r))
unfolding update_tab apply_update
update_tab-IsWf now p u r w = elim (Option-cases (lookup p r.tabs)) [
  | inl n ↦ rw (n, update_tab) w
  | inr (tab, found) ↦ elim (Option-cases tab.closing) [
    | inl open' ↦
        let t = w.each p tab found in
        rw (found, update_tab, open')
          (put_tab-IsWf r p _ tab w found
            (record { keyed = t.keyed; busy_owner = t.busy_owner; closing_owner = λ b h. cc }) refl)
    | inr (b, closed) ↦ rw (found, update_tab, closed) w
  ]
]

-- A record may also become its owner's active page.
put_active-IsWf :
    (r : TabRegistry) (a p : String) (old tab : TabRecord)
    → IsWf r
    → lookup p r.tabs ≡ some old
    → IsTab p tab
    → tab.owner_agent_id ≡ old.owner_agent_id
    → old.owner_agent_id ≡ a
    → IsWf (record r {
      tabs = insert p tab r.tabs;
      active_tab_by_agent = insert a p r.active_tab_by_agent;
    })
put_active-IsWf r a p old tab w found t same own = record {
  distinct = insert-NodupKeys p tab r.tabs w.distinct;
  each = insert_each r p tab w t;
  active = λ b q h. elim (insert-cases b a p q r.active_tab_by_agent h) [
    | inl (who, here) ↦ (tab, ground (arith, lookup-insert_self p tab r.tabs), same ∙ own ∙ sym who)
    | inr (_, before) ↦
        let (other, there, mine) = w.active b q before in
        put_tab-IsActive r p tab b q (λ e. ground arith) (other, there, mine)
  ];
}

pub set_active_tab-IsWf :
    (now : ℕ) (a p : String) (r : TabRegistry)
    → IsWf r
    → IsWf (after (λ s. s.1) r (set_active_tab now a p r))
unfolding set_active_tab
set_active_tab-IsWf now a p r w = elim (owned-cases tab_not_found a p r) [
  | inl e ↦ rw (e, set_active_tab) w
  | inr (tab, e, o) ↦ elim (Option-cases tab.closing) [
    | inl open' ↦
        let t = w.each p tab o.there in
        rw (e, set_active_tab, open')
          (put_active-IsWf r a p tab _ w o.there
            (record { keyed = t.keyed; busy_owner = t.busy_owner; closing_owner = λ b h. cc }) refl
            o.own)
    | inr (b, closed) ↦ rw (e, set_active_tab, closed) w
  ]
]
