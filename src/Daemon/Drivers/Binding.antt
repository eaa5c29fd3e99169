-- ===== src/Daemon/Drivers/Binding.antt =====
-- daemon/browser_service.py: the service after a rebind, whatever the drivers do.
use browser_cli.Prelude.{
  String, ℕ, List, Option, none, some, Bool, true, false, not, ◌&&◌, ◌||◌, ◌==◌, string_eq, nat_eq,
  if◌then◌else◌, ◌≡◌, refl, inl, inr, Bool-cases, Option-cases,
}
use browser_cli.Dict.{Dict}
use browser_cli.Tabs.Records.{TabRecord, TabRegistry}
use browser_cli.Tabs.Invariant
use browser_cli.Extension.Messages.{ExtensionHello}
use browser_cli.Daemon.Drivers.{
  DriverName, extension, same_driver, BrowserService, Page, Driving, Attempted, then_do, is_some,
}
use browser_cli.Daemon.Drivers.Rebinding.{
  reopen_tabs, update_pages, restore_active, stop_driver_for_transition, finish_transition, is_cons,
  with_pages, started_driver, activate_driver, or_pending_rebind, without_pending,
  maybe_apply_pending_rebind, is_ready, swallowed, watch_change,
}
use browser_cli.Daemon.Drivers.Ownership.{
  clear_snapshot_state-Keeps, update_pages-Keeps, restore_active-Keeps,
}

-- The driver is the one that it is believed to be, and the tab registry is well formed.
pub record IsBound (s : BrowserService) : Type 0 where
  pub bound : s.driver ≡ s.driver_name
  pub tabs : Invariant.IsWf s.tabs

finish_transition-IsBound :
    (old : Option DriverName) (name : DriverName) (reason : String) (reset : Bool)
    (s : BrowserService)
    → IsBound s
    → IsBound (finish_transition old name reason reset s)
finish_transition-IsBound none name reason reset s h = h
finish_transition-IsBound (some o) name reason reset s h =
    elim (Bool-cases (same_driver (some o) name)) [
      | inl e ↦ rw e h
      | inr e ↦ rw e (record { bound = h.bound; tabs = h.tabs })
    ]

restored-IsBound :
    (now : ℕ) (actives : Dict String String) (some_pages : Bool) (r : TabRegistry)
    → Invariant.IsWf r
    → Invariant.IsWf (if some_pages then restore_active now actives r else r)
restored-IsBound now actives true r h = (restore_active-Keeps now actives r).wf h
restored-IsBound now actives false r h = h

with_pages-IsBound :
    (old : Option DriverName) (name : DriverName) (reason : String) (now : ℕ)
    (actives : Dict String String) (pages : Option (List (TabRecord × Page))) (s : BrowserService)
    → IsBound s
    → IsBound (with_pages old name reason now actives pages s).1
with_pages-IsBound old name reason now actives none s w = w
with_pages-IsBound old name reason now actives (some pages) s w =
    let tabs = (update_pages-Keeps now pages s.tabs).wf w.tabs in
    elim (Option-cases (update_pages now pages s.tabs).0) [
      | inl e ↦
          rw (e, with_pages)
            (finish_transition-IsBound old name reason (is_cons pages) _ (record {
              bound = w.bound;
              tabs = restored-IsBound now actives (is_cons pages) _ tabs;
            }))
      | inr (err, e) ↦ rw (e, with_pages) (record { bound = w.bound; tabs = tabs })
    ]

pub activate_driver-IsBound :
    (w : Driving) (name : DriverName) (reason : String) (s : BrowserService)
    → IsBound s
    → IsBound (activate_driver w name reason s).1
unfolding activate_driver
activate_driver-IsBound w name reason s h =
    elim (Bool-cases (same_driver s.driver_name name && is_some s.driver)) [
      | inl e ↦ rw (activate_driver, e) h
      | inr e ↦ elim (Option-cases (w.start_error name)) [
        | inl ok' ↦
            rw (activate_driver, e, ok')
              (with_pages-IsBound s.driver_name name reason w.now _ (reopen_tabs (w.new_tab name) _)
                (started_driver name (stop_driver_for_transition w s))
                (record { bound = refl; tabs = (clear_snapshot_state-Keeps s.tabs).wf h.tabs }))
        | inr (err, bad) ↦ rw (activate_driver, e, bad) (record { bound = refl; tabs = h.tabs })
      ]
    ]

pub rebind-IsBound :
    (w : Driving) (s : BrowserService) → IsBound s → IsBound (maybe_apply_pending_rebind w s).1
unfolding maybe_apply_pending_rebind
rebind-IsBound w s h = elim (Bool-cases (s.isolated || not (s.command_depth == 0))) [
  | inl e ↦ rw (maybe_apply_pending_rebind, e) h
  | inr e ↦ elim (Option-cases s.pending_driver) [
    | inl n ↦ rw (maybe_apply_pending_rebind, e, n) h
    | inr (target, p) ↦
        rw (maybe_apply_pending_rebind, e, p)
          (activate_driver-IsBound w target (or_pending_rebind s.pending_reason) (without_pending s)
            (record { bound = h.bound; tabs = h.tabs }))
  ]
]

pub then_do-IsBound :
    (x : Attempted) (f : BrowserService → Attempted)
    → IsBound x.1
    → ((s : BrowserService) → IsBound s → IsBound (f s).1)
    → IsBound (then_do x f).1
then_do-IsBound (none, s) f h each = each s h
then_do-IsBound (some e, s) f h each = h

pub watch_change-IsBound :
    {J : Type 0} (w : Driving) (session : Option (ExtensionHello J)) (s : BrowserService)
    → IsBound s
    → IsBound (watch_change w session s)
unfolding watch_change
watch_change-IsBound w session s h =
    elim (Bool-cases (is_ready session && not (same_driver s.driver_name extension))) [
      | inl e ↦ elim (Bool-cases (s.command_depth == 0)) [
        | inl z ↦
            rw (watch_change, e, z)
              (swallowed-IsBound _ (activate_driver-IsBound w extension "extension-connected" s h))
        | inr z ↦ rw (watch_change, e, z) (record { bound = h.bound; tabs = h.tabs })
      ]
      | inr e ↦ rw (watch_change, e) h
    ]
  where
    swallowed-IsBound : (x : Attempted) → IsBound x.1 → IsBound (swallowed x)
    swallowed-IsBound (none, s) h = h
    swallowed-IsBound (some e, s) h = record { bound = h.bound; tabs = h.tabs }
