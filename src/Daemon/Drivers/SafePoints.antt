-- ===== src/Daemon/Drivers/SafePoints.antt =====
-- What can replace the driver while a command runs.
use browser_cli.Prelude.{
  String, ◌-◌, Option, none, some, Bool, true, false, not, ◌&&◌, ◌||◌, any, ◌==◌, string_eq, nat_eq,
  ◌≡◌, ◌≢◌, ◌⊎◌, refl, sym, ap, ◌∙◌, inl, inr, Bool-cases, Option-cases, arith,
}
use browser_cli.Daemon.Drivers.{
  extension, same_driver, BrowserService, Driving, Attempted, then_do, is_some,
}
use browser_cli.Daemon.Drivers.Rebinding.{maybe_apply_pending_rebind, is_ready, watch_change}
use browser_cli.Daemon.Drivers.Commands.{
  Hub, is_cleanup, ensure_started, rebuild_started, rebuild_workspace_binding,
  maybe_preflight_workspace_binding, counted, enter_command, prepare_command, begin_command,
  end_command, enter_isolated_context,
}
use browser_cli.Daemon.Drivers.Reading.{
  ReadOnce, fallback_patterns, read_once, after_read, should_retry_read_on_playwright, read_page,
}
use browser_cli.Daemon.Drivers.Calls.{
  Call, starts, changes, rebuilds, stops, begins, ends_command, isolates, reads, step,
}

-- Stopping; the end of the last command; the start of a command, other than to close a tab or the
-- browser, that finds the extension gone which drives the browser; a read of a page that the extension
-- fails with an error for which reads are repeated.
pub data Replaces {J : Type 0} (w : Driving) (hub : Hub J) (s : BrowserService)
    : Call → Type 0 where
  by_stop : Replaces w hub s stops
  by_last_end : s.command_depth ≡ 1 → Replaces w hub s (ends_command true)
  by_lost_extension :
      (action : String)
      → is_cleanup action ≡ false
      → same_driver s.driver_name extension ≡ true
      → is_ready hub.session ≡ false
      → Replaces w hub s (begins action)
  by_read_fallback :
      (output_mode message : String) (first second : ReadOnce)
      → first.error ≡ some message
      → same_driver s.driver_name extension ≡ true
      → any (λ p. w.has_text p message) fallback_patterns ≡ true
      → Replaces w hub s (reads output_mode first second)

-- A command runs, with a driver.
abbrev pub IsHeld : BrowserService → Type 0
IsHeld s = (s.command_depth ≢ 0) × (is_some s.driver ≡ true)

record Same (s t : BrowserService) : Type 0 where
  driver : t.driver ≡ s.driver
  name : t.driver_name ≡ s.driver_name
  depth : t.command_depth ≡ s.command_depth

Same-refl : (s : BrowserService) → Same s s
Same-refl s = record { driver = refl; name = refl; depth = refl }

then_do-Same :
    (s : BrowserService) (x : Attempted) (f : BrowserService → Attempted)
    → Same s x.1
    → ((t : BrowserService) → Same s t → Same s (f t).1)
    → Same s (then_do x f).1
then_do-Same s (none, t) f h each = each t h
then_do-Same s (some e, t) f h each = h

then_do_driver :
    (s : BrowserService) (x : Attempted) (f : BrowserService → Attempted)
    → Same s x.1
    → ((t : BrowserService) → Same s t → (f t).1.driver ≡ s.driver)
    → (then_do x f).1.driver ≡ s.driver
then_do_driver s (none, t) f h each = each t h
then_do_driver s (some e, t) f h each = h.driver

Same-IsHeld : (s t : BrowserService) → Same s t → IsHeld s → IsHeld t
Same-IsHeld s t h (deep, there) = (λ z. deep (sym h.depth ∙ z), ap is_some h.driver ∙ there)

rebind_held :
    (w : Driving) (s : BrowserService)
    → s.command_depth ≢ 0
    → maybe_apply_pending_rebind w s ≡ (none, s)
unfolding maybe_apply_pending_rebind
rebind_held w s deep = ground arith

module _ {J : Type 0} (w : Driving) (hub : Hub J) where
  ensure_started-Same : (s : BrowserService) → IsHeld s → Same s (ensure_started w hub s).1
  unfolding ensure_started
  ensure_started-Same s held = elim (Bool-cases s.isolated) [
    | inl e ↦ rw (ensure_started, e) (record { driver = refl; name = refl; depth = refl })
    | inr e ↦ elim (Option-cases hub.start_error) [
      | inr (err, bad) ↦
          rw (ensure_started, e, bad) (record { driver = refl; name = refl; depth = refl })
      | inl fine ↦
          rw (ensure_started, e, fine, held.1) (record { driver = refl; name = refl; depth = refl })
    ]
  ]

  preflight_held :
      (s : BrowserService) → IsHeld s → (maybe_preflight_workspace_binding w hub s).1 ≡ s
  unfolding maybe_preflight_workspace_binding
  preflight_held s held = ground arith

  prepare-Same :
      (action : String) (s : BrowserService)
      → IsHeld s
      → same_driver s.driver_name extension && not (is_ready hub.session) ≡ false
      → Same s (prepare_command w hub action s).1
  prepare-Same action s held here =
      then_do-Same s (ensure_started w hub s) _ (ensure_started-Same s held) (λ t same.
        let held' = Same-IsHeld s t same held in
        let here' : same_driver t.driver_name extension && not (is_ready hub.session) ≡ false =
          ap (λ n. same_driver n extension && not (is_ready hub.session)) same.name ∙ here in
        rw (preflight_held t held', here', rebind_held w (counted w hub action t) held'.0)
          (record { driver = same.driver; name = same.name; depth = same.depth }))

  begin_held :
      (action : String) (s : BrowserService)
      → IsHeld s
      → ((begin_command w hub action s).1.driver ≡ s.driver) ⊎ Replaces w hub s (begins action)
  unfolding begin_command
  begin_held action s held = elim (Bool-cases (is_cleanup action)) [
    | inl e ↦ inl (rw (begin_command, e, held.1) refl)
    | inr e ↦
        elim (Bool-cases (same_driver s.driver_name extension && not (is_ready hub.session))) [
          | inl gone ↦ inr (by_lost_extension action e (ground arith) (ground arith))
          | inr here ↦ inl (
              rw (begin_command, e)
                (then_do_driver s (prepare_command w hub action s) (enter_command w hub)
                  (prepare-Same action s held here) (λ t same. same.driver)))
        ]
  ]

  rebuild_held :
      (s : BrowserService) → IsHeld s → (rebuild_workspace_binding w hub s).1.driver ≡ s.driver
  unfolding rebuild_workspace_binding
  rebuild_held s held =
      then_do_driver s (ensure_started w hub s) (rebuild_started w hub) (ensure_started-Same s held)
        (λ t same. elim (Bool-cases (same_driver t.driver_name extension)) [
          | inl e ↦ elim (Option-cases w.rebuild_error) [
            | inl fine ↦ rw (e, fine) same.driver
            | inr (err, bad) ↦ rw (e, bad) same.driver
          ]
          | inr e ↦ rw e same.driver
        ])

  end_held :
      (allow : Bool) (s : BrowserService)
      → IsHeld s
      → ((end_command w hub allow s).1.driver ≡ s.driver) ⊎ Replaces w hub s (ends_command allow)
  unfolding end_command
  end_held false s held = inl (ground arith)
  end_held true s held = elim (nat_eq.dec s.command_depth 1) [
    | yes e ↦ inr (by_last_end e)
    | no n ↦ inl (let more : ¬ (s.command_depth - 1 ≡ 0) = omega (arith, n, held.0) in ground arith)
  ]

  after_read_held :
      (output_mode : String) (first second : ReadOnce) (x : Option String) (s : BrowserService)
      → first.error ≡ x
      → ((after_read w x second (read_once first s)).1.driver ≡ s.driver)
        ⊎ Replaces w hub s (reads output_mode first second)
  unfolding should_retry_read_on_playwright
  after_read_held output_mode first second none s e = inl refl
  after_read_held output_mode first second (some message) s e =
      elim (Bool-cases (should_retry_read_on_playwright w message (read_once first s))) [
        | inl again ↦
            inr (by_read_fallback output_mode message first second e (ground arith) (ground arith))
        | inr over ↦ inl (rw over refl)
      ]

  read_held :
      (output_mode : String) (first second : ReadOnce) (s : BrowserService)
      → ((read_page w output_mode first second s).1.driver ≡ s.driver)
        ⊎ Replaces w hub s (reads output_mode first second)
  unfolding read_page
  read_held output_mode first second s =
      elim (Bool-cases (output_mode == "html" || output_mode == "snapshot")) [
        | inl e ↦ rw (read_page, e) (after_read_held output_mode first second first.error s refl)
        | inr e ↦ inl (rw (read_page, e) refl)
      ]

  -- While a command runs, a driver that is there stays, but for the calls that `Replaces` lists.
  pub step_held :
      (c : Call) (s : BrowserService)
      → s.command_depth ≢ 0
      → is_some s.driver ≡ true
      → ((step w hub c s).driver ≡ s.driver) ⊎ Replaces w hub s c
  unfolding step watch_change enter_isolated_context
  step_held starts s deep there = inl (ensure_started-Same s (deep, there)).driver
  step_held changes s deep there = inl (ground arith)
  step_held rebuilds s deep there = inl (rebuild_held s (deep, there))
  step_held stops s deep there = inr by_stop
  step_held (begins action) s deep there = begin_held action s (deep, there)
  step_held (ends_command allow) s deep there = end_held allow s (deep, there)
  step_held (isolates create_error) s deep there = inl (ground arith)
  step_held (reads output_mode first second) s deep there = read_held output_mode first second s
