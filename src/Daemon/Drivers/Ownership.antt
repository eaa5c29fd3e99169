-- ===== src/Daemon/Drivers/Ownership.antt =====
-- daemon/browser_service.py: the tab registry while pages are opened again.
use browser_cli.Prelude.{
  String, ℕ, List, [], ◌∷◌, Option, none, some, ◌≡◌, refl, ◌∙◌, inl, inr, Option-cases, arith,
  string_eq,
}
use browser_cli.Dict.{Dict, lookup, insert, lookup-insert}
use browser_cli.Tabs.Records.{
  TabRecord, TabRegistry, TabUpdate, TabError, Result, ok, raise, tab_not_found,
}
use browser_cli.Tabs.Registry.{update_tab, apply_update, set_active_tab, clear_snapshot_state}
use browser_cli.Tabs.Calls.{after}
use browser_cli.Tabs.Owned.{owned-cases}
use browser_cli.Tabs.Invariant.{IsWf}
use browser_cli.Tabs.Preserve.{update_tab-IsWf, set_active_tab-IsWf}
use browser_cli.Tabs.PreserveRename.{clear_snapshot_state-IsWf, lookup-forget_snapshots}
use browser_cli.Daemon.Drivers.{Page, page_update}
use browser_cli.Daemon.Drivers.Rebinding.{settled, update_pages, ok_or, restore_active}

abbrev pub owner_of : Option TabRecord → Option String
owner_of none = none
owner_of (some tab) = some tab.owner_agent_id

abbrev pub owner_at : String → TabRegistry → Option String
owner_at p r = owner_of (lookup p r.tabs)

-- Well-formedness and the owners are kept.
pub record Keeps (r t : TabRegistry) : Type 0 where
  pub wf : IsWf r → IsWf t
  pub owners : (p : String) → owner_at p t ≡ owner_at p r

pub Keeps-refl : (r : TabRegistry) → Keeps r r
Keeps-refl r = record { wf = λ w. w; owners = λ p. refl }

pub Keeps-trans : (r s t : TabRegistry) → Keeps r s → Keeps s t → Keeps r t
Keeps-trans r s t f g = record { wf = λ w. g.wf (f.wf w); owners = λ p. g.owners p ∙ f.owners p }

owner_insert :
    (p q : String) (old tab : TabRecord) (d : Dict String TabRecord)
    → lookup q d ≡ some old
    → tab.owner_agent_id ≡ old.owner_agent_id
    → owner_of (lookup p (insert q tab d)) ≡ owner_of (lookup p d)
owner_insert p q old tab d found same = elim (string_eq.dec p q) [
  | yes e ↦ ground (arith, lookup-insert p q tab d)
  | no n ↦ ground (arith, lookup-insert p q tab d)
]

update_tab-Keeps :
    (now : ℕ) (q : String) (u : TabUpdate) (r : TabRegistry)
    → Keeps r (after (λ a. a.1) r (update_tab now q u r))
unfolding update_tab apply_update
update_tab-Keeps now q u r = record {
  wf = update_tab-IsWf now q u r;
  owners = λ p. elim (Option-cases (lookup q r.tabs)) [
    | inl n ↦ rw (n, update_tab) refl
    | inr (tab, found) ↦ elim (Option-cases tab.closing) [
      | inl open' ↦ rw (update_tab, found, open') (owner_insert p q tab _ r.tabs found refl)
      | inr (b, closed) ↦ rw (update_tab, found, closed) refl
    ]
  ];
}

set_active_tab-Keeps :
    (now : ℕ) (a q : String) (r : TabRegistry)
    → Keeps r (after (λ s. s.1) r (set_active_tab now a q r))
unfolding set_active_tab
set_active_tab-Keeps now a q r = record {
  wf = set_active_tab-IsWf now a q r;
  owners = λ p. elim (owned-cases tab_not_found a q r) [
    | inl e ↦ rw (e, set_active_tab) refl
    | inr (tab, e, o) ↦ elim (Option-cases tab.closing) [
      | inl open' ↦ rw (set_active_tab, e, open') (owner_insert p q tab _ r.tabs o.there refl)
      | inr (b, closed) ↦ rw (set_active_tab, e, closed) refl
    ]
  ];
}

pub clear_snapshot_state-Keeps : (r : TabRegistry) → Keeps r (clear_snapshot_state r)
unfolding clear_snapshot_state
clear_snapshot_state-Keeps r = record {
  wf = clear_snapshot_state-IsWf r;
  owners = λ p. elim (Option-cases (lookup p r.tabs)) [
    | inl e ↦ ground (arith, lookup-forget_snapshots r.tabs p)
    | inr (tab, e) ↦ ground (arith, lookup-forget_snapshots r.tabs p)
  ];
}

settled-Keeps :
    (r : TabRegistry) (x : Result (TabRecord × TabRegistry))
    (f : TabRegistry → Option TabError × TabRegistry)
    → Keeps r (after (λ a. a.1) r x)
    → ((t : TabRegistry) → Keeps t (f t).1)
    → Keeps r (settled x r f).1
settled-Keeps r (raise e) f k each = k
settled-Keeps r (ok (tab, t)) f k each = Keeps-trans r t (f t).1 k (each t)

pub update_pages-Keeps :
    (now : ℕ) (pages : List (TabRecord × Page)) (r : TabRegistry)
    → Keeps r (update_pages now pages r).1
unfolding update_pages
update_pages-Keeps now [] r = Keeps-refl r
update_pages-Keeps now ((tab, page) ∷ pages) r =
    settled-Keeps r (update_tab now tab.page_id (page_update tab page) r) (update_pages now pages)
      (update_tab-Keeps now tab.page_id (page_update tab page) r) (update_pages-Keeps now pages)

ok_or-Keeps :
    (r : TabRegistry) (x : Result (TabRecord × TabRegistry))
    → Keeps r (after (λ a. a.1) r x)
    → Keeps r (ok_or x r)
ok_or-Keeps r (raise e) k = k
ok_or-Keeps r (ok (tab, t)) k = k

pub restore_active-Keeps :
    (now : ℕ) (actives : Dict String String) (r : TabRegistry)
    → Keeps r (restore_active now actives r)
unfolding restore_active
restore_active-Keeps now [] r = Keeps-refl r
restore_active-Keeps now ((a, p) ∷ rest) r =
    let next = ok_or (set_active_tab now a p r) r in
    Keeps-trans r next (restore_active now rest next)
      (ok_or-Keeps r (set_active_tab now a p r) (set_active_tab-Keeps now a p r))
      (restore_active-Keeps now rest next)
