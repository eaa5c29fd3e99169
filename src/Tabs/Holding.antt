-- ===== src/Tabs/Holding.antt =====
-- What a request that holds a page can rely on, whatever the other tasks call in between.
use browser_cli.Prelude.{
  String, ℕ, ◌≡◌, ◌≢◌, ◌⊎◌, inl, inr, refl, Option, none, some, arith, string_eq, Option-cases,
  false,
}
use browser_cli.Dict.{lookup, insert, lookup-insert, lookup-erase}
use browser_cli.Tabs.Records.{
  BusyState, TabRecord, TabRegistry, Result, ok, raise, ◌>>=◌, tab_not_found, no_active_tab,
}
use browser_cli.Tabs.Registry.{
  add_tab, new_tab, update_tab, apply_update, set_active_tab, remove_tab, clear_snapshot_state,
}
use browser_cli.Tabs.Claims.{
  Claim, busy_of, claim_record, claim_page, claim_active_tab, begin_close, end_close, release_tab,
  held_by,
}
use browser_cli.Tabs.Calls.{
  Call, adds, updates, activates, removes, replaces, forgets, clears, claims, claims_active,
  begins_close, ends_close, releases, after, step,
}
use browser_cli.Tabs.Owned.{owned-cases, active_page-cases}
use browser_cli.Tabs.PreserveRename.{lookup-forget_snapshots}

-- The claim on a page.
abbrev pub busy_of_tab : Option TabRecord → Option BusyState
busy_of_tab none = none
busy_of_tab (some tab) = tab.busy

abbrev pub closing_of_tab : Option TabRecord → Option BusyState
closing_of_tab none = none
closing_of_tab (some tab) = tab.closing

abbrev pub busy_at : String → TabRegistry → Option BusyState
busy_at p r = busy_of_tab (lookup p r.tabs)

abbrev pub closing_at : String → TabRegistry → Option BusyState
closing_at p r = closing_of_tab (lookup p r.tabs)

-- The claim of another request. The request that has reserved the page for closing is left out: its
-- reservation does not block itself, so that it may claim the page while another request works on it.
abbrev pub IsForeign : String → String → Claim → TabRegistry → Type 0
IsForeign p q c r = (c.request_id ≢ q) × (held_by c.request_id (closing_at p r) ≡ false)

-- A call of another task, which neither releases the claim nor takes the page away: no rename of pages
-- and no clearing, and no new page or removal under this page's id.
abbrev pub Leaves : String → String → Call → TabRegistry → Type 0
Leaves p q (adds now page_id owner url title) r = page_id ≢ p
Leaves p q (removes agent_id page_id) r = page_id ≢ p
Leaves p q (replaces replacements) r = ⊥
Leaves p q clears r = ⊥
Leaves p q (claims c page_id) r = IsForeign p q c r
Leaves p q (claims_active c) r = IsForeign p q c r
Leaves p q (releases page_id request_id) r = (page_id ≢ p) ⊎ (request_id ≢ q)
Leaves p q _ r = Unit

module _ (p : String) (r : TabRegistry) (b : BusyState) (held : busy_at p r ≡ some b) where
  -- A record in place of another with the same claim.
  insert-busy_at :
      (p' : String) (old tab : TabRecord)
      → lookup p' r.tabs ≡ some old
      → tab.busy ≡ old.busy
      → busy_of_tab (lookup p (insert p' tab r.tabs)) ≡ some b
  insert-busy_at p' old tab there same = ground (arith, lookup-insert p p' tab r.tabs)

  update_tab-busy_at :
      (now : ℕ) (p' : String) (u : _)
      → busy_at p (after (λ s. s.1) r (update_tab now p' u r)) ≡ some b
  unfolding update_tab apply_update
  update_tab-busy_at now p' u = elim (Option-cases (lookup p' r.tabs)) [
    | inl n ↦ rw (n, update_tab) held
    | inr (tab, there) ↦ elim (Option-cases tab.closing) [
      | inl open' ↦ rw (there, update_tab, open') (insert-busy_at p' tab _ there refl)
      | inr (_, e) ↦ rw (there, update_tab, e) held
    ]
  ]

  set_active_tab-busy_at :
      (now : ℕ) (a p' : String)
      → busy_at p (after (λ s. s.1) r (set_active_tab now a p' r)) ≡ some b
  unfolding set_active_tab
  set_active_tab-busy_at now a p' = elim (owned-cases tab_not_found a p' r) [
    | inl e ↦ rw (e, set_active_tab) held
    | inr (tab, e, o) ↦ elim (Option-cases tab.closing) [
      | inl open' ↦ rw (e, set_active_tab, open') (insert-busy_at p' tab _ o.there refl)
      | inr (_, d) ↦ rw (e, set_active_tab, d) held
    ]
  ]

  remove_tab-busy_at :
      (a p' : String) → p' ≢ p → busy_at p (after (λ s. s.1) r (remove_tab a p' r)) ≡ some b
  unfolding remove_tab
  remove_tab-busy_at a p' n = elim (owned-cases tab_not_found a p' r) [
    | inl e ↦ rw (e, remove_tab) held
    | inr (tab, e, o) ↦ rw (e, remove_tab) (ground (arith, lookup-erase p p' r.tabs))
  ]

  -- A foreign claim is refused on this page, and changes only another one.
  claim_record-busy_at :
      (c : Claim) (p' : String) (tab : TabRecord)
      → IsForeign p b.request_id c r
      → lookup p' r.tabs ≡ some tab
      → busy_at p (after (λ s. s.1) r (claim_record c p' tab r)) ≡ some b
  unfolding claim_record
  claim_record-busy_at c p' tab f there = ground (
    arith,
    lookup-insert p p' (record tab { busy = some (busy_of c); last_used_at = c.used }) r.tabs,
  )

  claim_page-busy_at :
      (c : Claim) (p' : String)
      → IsForeign p b.request_id c r
      → busy_at p (after (λ s. s.1) r (claim_page c p' r)) ≡ some b
  unfolding claim_page
  claim_page-busy_at c p' f = elim (owned-cases tab_not_found c.agent_id p' r) [
    | inl e ↦ rw (e, claim_page) held
    | inr (tab, e, o) ↦ rw (e, claim_page) (claim_record-busy_at c p' tab f o.there)
  ]

  after-claim-busy_at :
      (p' : String) (m : Result (TabRecord × TabRegistry))
      → busy_at p (after (λ s. s.1) r m) ≡ some b
      → busy_at p
          (after {A = String × TabRecord × TabRegistry} (λ s. s.2) r (m >>= λ s. ok (p', s.0, s.1)))
        ≡ some b
  after-claim-busy_at p' (ok s) h = h
  after-claim-busy_at p' (raise e) h = h

  claim_active_tab-busy_at :
      (c : Claim)
      → IsForeign p b.request_id c r
      → busy_at p (after (λ s. s.2) r (claim_active_tab c r)) ≡ some b
  unfolding claim_active_tab
  claim_active_tab-busy_at c f = elim (active_page-cases c.agent_id r) [
    | inl n ↦ rw (n, claim_active_tab) held
    | inr (p', e, _) ↦ elim (owned-cases no_active_tab c.agent_id p' r) [
      | inl m ↦ rw (e, m, claim_active_tab) held
      | inr (tab, m, o) ↦
          rw (e, m, claim_active_tab)
            (after-claim-busy_at p' (claim_record c p' tab r)
              (claim_record-busy_at c p' tab f o.there))
    ]
  ]

  begin_close-busy_at :
      (now : ℕ) (a p' request : String)
      → busy_at p (after (λ s. s.2) r (begin_close now a p' request r)) ≡ some b
  unfolding begin_close
  begin_close-busy_at now a p' request = elim (owned-cases tab_not_found a p' r) [
    | inl e ↦ rw (e, begin_close) held
    | inr (tab, e, o) ↦ elim (Option-cases tab.closing) [
      | inl open' ↦ rw (e, begin_close, open') (insert-busy_at p' tab _ o.there refl)
      | inr (_, d) ↦ rw (e, begin_close, d) held
    ]
  ]

  end_close-busy_at : (p' request : String) → busy_at p (end_close p' request r) ≡ some b
  unfolding end_close
  end_close-busy_at p' request = elim (Option-cases (lookup p' r.tabs)) [
    | inl n ↦ rw (n, end_close) held
    | inr (tab, there) ↦
        let kept = insert-busy_at p' tab (record tab { closing = none }) there refl in
        rw (there, end_close) (ground (arith, kept))
  ]

  release_tab-busy_at :
      (p' request : String)
      → (p' ≢ p) ⊎ (request ≢ b.request_id)
      → busy_at p (release_tab p' request r) ≡ some b
  unfolding release_tab
  release_tab-busy_at p' request other = elim (Option-cases (lookup p' r.tabs)) [
    | inl n ↦ rw (n, release_tab) held
    | inr (tab, there) ↦
        rw (there, release_tab)
          (ground (arith, lookup-insert p p' (record tab { busy = none }) r.tabs))
  ]

  -- The claim on a page stays exactly as it was in every call but these: one that adds or removes a page
  -- under its id, renames pages or empties the registry; a release in the name of the request that holds
  -- the claim; and a claim by that request, or by the request that has reserved the page for closing,
  -- which may take the page over.
  pub step-busy_at : (c : Call) → Leaves p b.request_id c r → busy_at p (step c r) ≡ some b
  unfolding step add_tab clear_snapshot_state
  step-busy_at (adds now p' owner url title) n =
      ground (arith, lookup-insert p p' (new_tab now p' owner url title) r.tabs)
  step-busy_at (updates now p' u) _ = update_tab-busy_at now p' u
  step-busy_at (activates now a p') _ = set_active_tab-busy_at now a p'
  step-busy_at (removes a p') n = remove_tab-busy_at a p' n
  step-busy_at (replaces reps) n = absurd n
  step-busy_at forgets _ = ground (arith, lookup-forget_snapshots r.tabs p)
  step-busy_at clears n = absurd n
  step-busy_at (claims c p') f = claim_page-busy_at c p' f
  step-busy_at (claims_active c) f = claim_active_tab-busy_at c f
  step-busy_at (begins_close now a p' request) _ = begin_close-busy_at now a p' request
  step-busy_at (ends_close p' request) _ = end_close-busy_at p' request
  step-busy_at (releases p' request) other = release_tab-busy_at p' request other
