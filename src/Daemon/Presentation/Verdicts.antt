-- ===== src/Daemon/Presentation/Verdicts.antt =====
-- When the runtime is shown as healthy, and which actions are then offered.
use browser_cli.Prelude.{
  zero, suc, ℤ, pos, negsuc, [], ◌∷◌, Option, none, some, Bool, true, false, not, ◌&&◌, contains,
  ◌==◌, string_eq, nat_eq, if◌then◌else◌, ◌≡◌, ◌↔◌, ◌⊎◌, inl, inr, refl, arith,
}
use browser_cli.Json.{JsonOperations}
use browser_cli.Daemon.Presentation.{
  healthy, Facts, judge_cleanup, judge_extension, judge, available_actions, reconnect_actions,
  needs_reconnect, with_rebuild, present, is_lost, nonzero,
}

module _ {J : Type 0} where
  -- No browser runs, and no probe of a connected extension has failed.
  abbrev pub IsIdle : Facts J → Type 0
  IsIdle f = (f.extension_connected && f.probe_failed ≡ false) × (f.browser_started ≡ false)

  -- The extension drives the browser, and nothing is wrong.
  abbrev pub IsSound : Facts J → Type 0
  IsSound f =
      (f.browser_started ≡ true)
      × (f.active_driver ≡ "extension")
      × (f.pending_rebind ≡ none)
      × (f.extension_connected ≡ true)
      × (f.capability_complete ≡ true)
      × (f.probe_failed ≡ false)
      × (is_lost f.binding_state ≡ false)
      × (f.cleanup_failures ≡ pos 0)

  abbrev pub CanRebuild : Facts J → Type 0
  CanRebuild f =
      (f.active_driver ≡ "extension")
      × (is_lost f.binding_state ≡ true)
      × (f.probe_failed && f.extension_connected ≡ false)

nonzero-zero : (z : ℤ) → nonzero z ≡ false → z ≡ pos 0
nonzero-zero (pos zero) h = refl
nonzero-zero (pos (suc n)) h = absurd (ground (arith, h))
nonzero-zero (negsuc n) h = absurd (ground (arith, h))

module _ {J : Type 0} (o : JsonOperations J) where
  judge_cleanup-healthy :
      (f : Facts J) → (judge_cleanup f).overall_state ≡ healthy → f.cleanup_failures ≡ pos 0
  judge_cleanup-healthy f h = nonzero-zero f.cleanup_failures (ground arith)

  judge_extension-healthy :
      (f : Facts J)
      → (judge_extension f).overall_state ≡ healthy
      → (f.extension_connected ≡ true)
        × (f.capability_complete ≡ true)
        × (is_lost f.binding_state ≡ false)
        × (f.cleanup_failures ≡ pos 0)
  judge_extension-healthy f h = ground (arith, judge_cleanup-healthy f)

  healthy_why :
      (f : Facts J) (p : Option J)
      → f.pending_rebind ≡ p
      → (judge o f).overall_state ≡ healthy
      → IsIdle f ⊎ IsSound f
  unfolding judge
  healthy_why f none e h = ground (arith, judge_extension-healthy f)
  healthy_why f (some p) e h = ground arith

  healthy_if : (f : Facts J) → IsIdle f ⊎ IsSound f → (judge o f).overall_state ≡ healthy
  unfolding judge string_eq nat_eq
  healthy_if f (inl idle) = ground arith
  healthy_if f (inr (b, d, p, c, k, e, l, z)) = rw (judge, b, d, p, c, k, e, l, z) refl

  -- The runtime is shown as healthy exactly if it is idle and no probe of a connected extension has
  -- failed, or if the extension drives the browser, is connected with all its capabilities, answers,
  -- keeps its binding, and no rebind waits and no cleanup has failed.
  pub judge-healthy_iff :
      (f : Facts J) → ((judge o f).overall_state ≡ healthy) ↔ (IsIdle f ⊎ IsSound f)
  unfolding judge
  judge-healthy_iff f = (λ h. healthy_why f f.pending_rebind refl h, healthy_if f)

  -- The shown runtime offers no more than to refresh.
  abbrev pub OnlyRefresh : Facts J → Type 0
  OnlyRefresh f = (present o f).available_actions ≡ "refresh-status" ∷ []

  sound_actions : (f : Facts J) → IsSound f → OnlyRefresh f
  unfolding present available_actions string_eq
  sound_actions f (_, d, p, c, k, e, l, _) = rw (present, available_actions, d, p, c, k, e, l) refl

  rebuild_listed :
      (failed lost reconnect : Bool)
      → contains
          (if failed
            then "refresh-status" ∷ "reload-extension" ∷ []
            else with_rebuild lost (reconnect_actions reconnect))
          "rebuild-workspace-binding"
        ≡ (not failed && lost)
  unfolding string_eq
  rebuild_listed true _ _ = refl
  rebuild_listed false true true = refl
  rebuild_listed false true false = refl
  rebuild_listed false false true = refl
  rebuild_listed false false false = refl

  rebuild_offered :
      (f : Facts J)
      → contains (present o f).available_actions "rebuild-workspace-binding" ≡ (
          not (f.probe_failed && f.extension_connected)
          && (f.active_driver == "extension" && is_lost f.binding_state))
  unfolding present available_actions
  rebuild_offered f = rebuild_listed _ _ (needs_reconnect f)

  -- The rebuild of the workspace's binding is offered exactly if the extension drives the browser, its
  -- binding is lost and no probe of it has failed while it is connected. In a started runtime that is
  -- shown as healthy nothing but a refresh is offered.
  pub actions_fit :
      (f : Facts J)
      → ((contains (present o f).available_actions "rebuild-workspace-binding" ≡ true)
          ↔ CanRebuild f)
        × ((present o f).verdict.overall_state ≡ healthy → f.browser_started ≡ true → OnlyRefresh f)
  unfolding present
  actions_fit f = (
    ground (arith, rebuild_offered f),
    λ h started. elim ((judge-healthy_iff f).0 h) [
      | inl (_, off) ↦ absurd (ground arith)
      | inr s ↦ sound_actions f s
    ],
  )
