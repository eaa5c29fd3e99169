-- ===== src/Daemon/Drivers/Reopening.antt =====
-- What a change of the driver does to the tabs of the agents.
use browser_cli.Prelude.{
  String, ℕ, List, Option, none, some, Bool, true, false, ◌&&◌, if◌then◌else◌, ◌≡◌, refl, inl, inr,
  Bool-cases, Option-cases, string_eq,
}
use browser_cli.Dict.{Dict}
use browser_cli.Tabs.Records.{TabRecord, TabRegistry}
use browser_cli.Tabs.Registry.{clear_snapshot_state}
use browser_cli.Tabs.Invariant
use browser_cli.Daemon.Drivers.{DriverName, same_driver, BrowserService, Page, Driving, is_some}
use browser_cli.Daemon.Drivers.Rebinding.{
  reopen_tabs, update_pages, restore_active, stop_driver_for_transition, finish_transition, is_cons,
  with_pages, started_driver, activate_driver,
}
use browser_cli.Daemon.Drivers.Ownership.{
  owner_at, Keeps, Keeps-refl, Keeps-trans, clear_snapshot_state-Keeps, update_pages-Keeps,
  restore_active-Keeps,
}

finish_transition-tabs :
    (old : Option DriverName) (name : DriverName) (reason : String) (reset : Bool)
    (s : BrowserService)
    → (finish_transition old name reason reset s).tabs ≡ s.tabs
finish_transition-tabs none name reason reset s = refl
finish_transition-tabs (some o) name reason reset s =
    elim (Bool-cases (same_driver (some o) name)) [ inl e ↦ rw e refl | inr e ↦ rw e refl ]

restored-Keeps :
    (now : ℕ) (actives : Dict String String) (some_pages : Bool) (r : TabRegistry)
    → Keeps r (if some_pages then restore_active now actives r else r)
restored-Keeps now actives true r = restore_active-Keeps now actives r
restored-Keeps now actives false r = Keeps-refl r

with_pages-Keeps :
    (old : Option DriverName) (name : DriverName) (reason : String) (now : ℕ)
    (actives : Dict String String) (pages : Option (List (TabRecord × Page))) (s : BrowserService)
    → Keeps s.tabs (with_pages old name reason now actives pages s).1.tabs
with_pages-Keeps old name reason now actives none s = Keeps-refl s.tabs
with_pages-Keeps old name reason now actives (some pages) s =
    let updated = (update_pages now pages s.tabs).1 in
    let opened = update_pages-Keeps now pages s.tabs in
    let restored =
      Keeps-trans s.tabs updated _ opened (restored-Keeps now actives (is_cons pages) updated) in
    elim (Option-cases (update_pages now pages s.tabs).0) [
      | inl e ↦ rw (e, with_pages, finish_transition-tabs) restored
      | inr (err, e) ↦ rw (e, with_pages) opened
    ]

activate_driver-Keeps :
    (w : Driving) (name : DriverName) (reason : String) (s : BrowserService)
    → Keeps s.tabs (activate_driver w name reason s).1.tabs
unfolding activate_driver
activate_driver-Keeps w name reason s =
    elim (Bool-cases (same_driver s.driver_name name && is_some s.driver)) [
      | inl e ↦ rw (activate_driver, e) (Keeps-refl s.tabs)
      | inr e ↦ elim (Option-cases (w.start_error name)) [
        | inl fine ↦
            rw (activate_driver, e, fine)
              (Keeps-trans s.tabs (clear_snapshot_state s.tabs) _
                (clear_snapshot_state-Keeps s.tabs)
                (with_pages-Keeps s.driver_name name reason w.now _ (reopen_tabs (w.new_tab name) _)
                  (started_driver name (stop_driver_for_transition w s))))
        | inr (err, bad) ↦ rw (activate_driver, e, bad) (Keeps-refl s.tabs)
      ]
    ]

-- A change of the driver leaves every page with the owner that it had, and a well-formed registry well
-- formed, even where the driver does not stop or start, or a page is not opened again.
pub activate_driver_owners :
    (w : Driving) (name : DriverName) (reason : String) (s : BrowserService) (page_id : String)
    → Invariant.IsWf s.tabs
    → Invariant.IsWf (activate_driver w name reason s).1.tabs
      × (owner_at page_id (activate_driver w name reason s).1.tabs ≡ owner_at page_id s.tabs)
activate_driver_owners w name reason s page_id h =
    let k = activate_driver-Keeps w name reason s in (k.wf h, k.owners page_id)
