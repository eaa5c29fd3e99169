-- ===== src/Daemon/Drivers/Lifecycle.antt =====
-- daemon/browser_service.py: the service after each of its calls, whatever the drivers do.
use browser_cli.Prelude.{
  String, ◌-◌, List, [], ◌∷◌, Option, none, some, Bool, true, not, ◌&&◌, ◌||◌, any, ◌==◌, string_eq,
  nat_eq, refl, inl, inr, Bool-cases, Option-cases,
}
use browser_cli.Dict.{values}
use browser_cli.Tabs.PreserveRename.{clear-IsWf}
use browser_cli.Daemon.Presentation.{is_lost}
use browser_cli.Daemon.Drivers.{
  extension, playwright, same_driver, ServiceError, became_busy, driver_failed, BrowserService,
  Driving, Attempted, is_some, text_or_else,
}
use browser_cli.Daemon.Drivers.Rebinding.{maybe_apply_pending_rebind, is_ready}
use browser_cli.Daemon.Drivers.Commands.{
  Hub, is_cleanup, is_busy, ensure_started, rebuild_started, rebuild_workspace_binding,
  preflight_of, reported, maybe_preflight_workspace_binding, counted, leave_extension,
  enter_command, prepare_command, begin_command, leave_command, end_command, stop, abandoned,
  isolate, enter_isolated_context,
}
use browser_cli.Daemon.Drivers.Reading.{
  ReadOnce, read_once, read_again, after_read, should_retry_read_on_playwright, read_page,
}
use browser_cli.Daemon.Drivers.Calls.{
  Call, starts, changes, rebuilds, stops, begins, ends_command, isolates, reads, step, run,
}
use browser_cli.Daemon.Drivers.Binding.{
  IsBound, activate_driver-IsBound, rebind-IsBound, then_do-IsBound, watch_change-IsBound,
}

module _ {J : Type 0} (w : Driving) (hub : Hub J) where
  ensure_started-IsBound : (s : BrowserService) → IsBound s → IsBound (ensure_started w hub s).1
  unfolding ensure_started
  ensure_started-IsBound s h = elim (Bool-cases s.isolated) [
    | inl e ↦ rw (ensure_started, e) (record { bound = h.bound; tabs = h.tabs })
    | inr e ↦ elim (Option-cases hub.start_error) [
      | inr (err, bad) ↦ rw (ensure_started, e, bad) h
      | inl fine ↦ elim (Bool-cases (is_some s.driver)) [
        | inl d ↦ rw (ensure_started, e, fine, d) (record { bound = h.bound; tabs = h.tabs })
        | inr d ↦
            rw (ensure_started, e, fine, d)
              (activate_driver-IsBound w _ "startup" _ (record { bound = h.bound; tabs = h.tabs }))
      ]
    ]
  ]

  rebuild_started-IsBound : (s : BrowserService) → IsBound s → IsBound (rebuild_started w hub s).1
  rebuild_started-IsBound s h = elim (Bool-cases (same_driver s.driver_name extension)) [
    | inl e ↦ elim (Option-cases w.rebuild_error) [
      | inl fine ↦ rw (e, fine) (record { bound = h.bound; tabs = clear-IsWf s.tabs })
      | inr (err, bad) ↦ rw (e, bad) h
    ]
    | inr e ↦ rw e h
  ]

  rebuild-IsBound : (s : BrowserService) → IsBound s → IsBound (rebuild_workspace_binding w hub s).1
  unfolding rebuild_workspace_binding
  rebuild-IsBound s h =
      then_do-IsBound (ensure_started w hub s) _ (ensure_started-IsBound s h)
        rebuild_started-IsBound

  preflight_of-IsBound :
      (x : Option String) (s : BrowserService) → IsBound s → IsBound (preflight_of w hub x s).1
  preflight_of-IsBound none s h = h
  preflight_of-IsBound (some state) s h =
      elim (Bool-cases (is_lost (text_or_else state "absent"))) [
        | inl e ↦ rw e (reported-IsBound _ (rebuild-IsBound s h))
        | inr e ↦ rw e h
      ]
    where
      reported-IsBound :
          (x : Attempted) → IsBound x.1 → IsBound (reported w hub (text_or_else state "absent") x).1
      reported-IsBound (none, s) h = h
      reported-IsBound (some e, s) h = h

  preflight-IsBound :
      (s : BrowserService) → IsBound s → IsBound (maybe_preflight_workspace_binding w hub s).1
  unfolding maybe_preflight_workspace_binding
  preflight-IsBound s h =
      elim (Bool-cases (not (same_driver s.driver_name extension) || not (s.command_depth == 0))) [
        | inl e ↦ rw (maybe_preflight_workspace_binding, e) h
        | inr e ↦
            elim (Bool-cases (not (is_ready hub.session) || any is_busy (values s.tabs.tabs))) [
              | inl b ↦ rw (maybe_preflight_workspace_binding, e, b) h
              | inr b ↦
                  rw (maybe_preflight_workspace_binding, e, b)
                    (preflight_of-IsBound hub.binding_state s h)
            ]
      ]

  leave_extension-IsBound : (s : BrowserService) → IsBound s → IsBound (leave_extension w hub s).1
  leave_extension-IsBound s h =
      elim (Bool-cases (same_driver s.driver_name extension && not (is_ready hub.session))) [
        | inl e ↦
            rw e
              (activate_driver-IsBound w playwright _ _ (record { bound = h.bound; tabs = h.tabs }))
        | inr e ↦ rw e h
      ]

  prepare_command-IsBound :
      (action : String) (s : BrowserService)
      → IsBound s
      → IsBound (prepare_command w hub action s).1
  prepare_command-IsBound action s h =
      then_do-IsBound (ensure_started w hub s) _ (ensure_started-IsBound s h) (λ t k.
        let p = preflight-IsBound t k in
        then_do-IsBound _ (maybe_apply_pending_rebind w)
          (leave_extension-IsBound
            (counted w hub action (maybe_preflight_workspace_binding w hub t).1)
            (record { bound = p.bound; tabs = p.tabs }))
          (rebind-IsBound w))

  begin_command-IsBound :
      (action : String) (s : BrowserService) → IsBound s → IsBound (begin_command w hub action s).1
  unfolding begin_command
  begin_command-IsBound action s h = elim (Bool-cases (is_cleanup action)) [
    | inl e ↦ elim (Bool-cases (is_some s.driver)) [
      | inl d ↦ rw (begin_command, e, d) (record { bound = h.bound; tabs = h.tabs })
      | inr d ↦ rw (begin_command, e, d) h
    ]
    | inr e ↦
        rw (begin_command, e)
          (then_do-IsBound (prepare_command w hub action s) (enter_command w hub)
            (prepare_command-IsBound action s h) (λ t k. record { bound = k.bound; tabs = k.tabs }))
  ]

  end_command-IsBound :
      (allow : Bool) (s : BrowserService) → IsBound s → IsBound (end_command w hub allow s).1
  unfolding end_command
  end_command-IsBound allow s h =
      let left = leave_command-IsBound in
      elim (Bool-cases ((leave_command w hub s).command_depth == 0 && allow)) [
        | inl e ↦ rw (end_command, e) (rebind-IsBound w (leave_command w hub s) left)
        | inr e ↦ rw (end_command, e) left
      ]
    where
      leave_command-IsBound : IsBound (leave_command w hub s)
      leave_command-IsBound = elim (Bool-cases (s.command_depth - 1 == 0)) [
        | inl e ↦ rw e (record { bound = h.bound; tabs = h.tabs })
        | inr e ↦ rw e (record { bound = h.bound; tabs = h.tabs })
      ]

  isolate-IsBound :
      (create_error : Option String) (s : BrowserService)
      → IsBound s
      → IsBound (isolate w hub create_error s).1
  isolate-IsBound create_error s h =
      let left = end_command-IsBound true s h in
      elim (Bool-cases (not (s.command_depth == 1))) [
        | inl e ↦ rw e (abandoned-IsBound became_busy _ left)
        | inr e ↦ elim (Option-cases (w.start_error playwright)) [
          | inr (err, bad) ↦ rw (e, bad) (abandoned-IsBound (driver_failed err) _ left)
          | inl fine ↦ elim (Option-cases create_error) [
            | inr (err, bad) ↦ rw (e, fine, bad) (abandoned-IsBound (driver_failed err) _ left)
            | inl made ↦ rw (e, fine, made) h
          ]
        ]
      ]
    where
      abandoned-IsBound :
          (err : ServiceError) (x : Attempted) → IsBound x.1 → IsBound (abandoned w hub err x).1
      abandoned-IsBound err (none, s) h = h
      abandoned-IsBound err (some _, s) h = h

  enter_isolated-IsBound :
      (create_error : Option String) (s : BrowserService)
      → IsBound s
      → IsBound (enter_isolated_context w hub create_error s).1
  unfolding enter_isolated_context
  enter_isolated-IsBound create_error s h = elim (Bool-cases (not (s.command_depth == 0))) [
    | inl e ↦ rw (enter_isolated_context, e) h
    | inr e ↦
        rw (enter_isolated_context, e)
          (then_do-IsBound (begin_command w hub "batch" s) (isolate w hub create_error)
            (begin_command-IsBound "batch" s h) (isolate-IsBound create_error))
  ]

  read_again-IsBound : (x : ReadOnce) (s : BrowserService) → IsBound s → IsBound (read_again x s).1
  read_again-IsBound x s h = elim (Option-cases x.error) [
    | inl e ↦ rw e (record { bound = h.bound; tabs = h.tabs })
    | inr (message, e) ↦ rw e (record { bound = h.bound; tabs = h.tabs })
  ]

  after_read-IsBound :
      (x : Option String) (second : ReadOnce) (s : BrowserService)
      → IsBound s
      → IsBound (after_read w x second s).1
  after_read-IsBound none second s h = h
  after_read-IsBound (some message) second s h =
      elim (Bool-cases (should_retry_read_on_playwright w message s)) [
        | inl e ↦ rw e (
            then_do-IsBound _ (read_again second) (activate_driver-IsBound w playwright _ s h)
              (read_again-IsBound second))
        | inr e ↦ rw e h
      ]

  read_page-IsBound :
      (output_mode : String) (first second : ReadOnce) (s : BrowserService)
      → IsBound s
      → IsBound (read_page w output_mode first second s).1
  unfolding read_page
  read_page-IsBound output_mode first second s h =
      elim (Bool-cases (output_mode == "html" || output_mode == "snapshot")) [
        | inl e ↦
            rw (read_page, e)
              (after_read-IsBound first.error second (read_once first s)
                (record { bound = h.bound; tabs = h.tabs }))
        | inr e ↦ rw (read_page, e) h
      ]

  step-IsBound : (c : Call) (s : BrowserService) → IsBound s → IsBound (step w hub c s)
  unfolding step stop
  step-IsBound starts s h = ensure_started-IsBound s h
  step-IsBound changes s h = watch_change-IsBound w hub.session s h
  step-IsBound rebuilds s h = rebuild-IsBound s h
  step-IsBound stops s h = record { bound = refl; tabs = h.tabs }
  step-IsBound (begins action) s h = begin_command-IsBound action s h
  step-IsBound (ends_command allow) s h = end_command-IsBound allow s h
  step-IsBound (isolates create_error) s h = enter_isolated-IsBound create_error s h
  step-IsBound (reads output_mode first second) s h = read_page-IsBound output_mode first second s h

module _ {J : Type 0} where
  -- After any calls on a service with a well-formed tab registry, whatever the drivers and the extension
  -- do and whichever calls raise, the driver that is used is the one that the service names, and the tab
  -- registry is well formed.
  pub run-IsBound :
      (cs : List (Driving × Hub J × Call)) (s : BrowserService) → IsBound s → IsBound (run cs s)
  unfolding run
  run-IsBound [] s h = h
  run-IsBound ((w, hub, c) ∷ cs) s h = run-IsBound cs (step w hub c s) (step-IsBound w hub c s h)
