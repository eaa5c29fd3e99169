-- ===== src/Tabs/Closing.antt =====
-- From a close reservation to its end.
use browser_cli.Prelude.{
  true, String, ℕ, ◌≡◌, ◌≢◌, inl, inr, refl, Option, none, some, arith, string_eq, Option-cases,
  ◌∙◌, sym,
}
use browser_cli.Dict.{lookup, insert, lookup-insert, lookup-insert_self}
use browser_cli.Tabs.Records.{
  BusyState, TabRecord, TabRegistry, TabUpdate, ok, raise, busy_tab, tab_not_found,
  operation_cancelled,
}
use browser_cli.Tabs.Registry.{update_tab, put_tab, set_active_tab}
use browser_cli.Tabs.Claims.{
  Claim, claim_page, begin_close, close_state, end_close, check_claim, held_by, running_task,
}
use browser_cli.Tabs.Owned.{Owns, owned-cases, owned_of_Owns}
use browser_cli.Tabs.Holding.{busy_at}
use browser_cli.Tabs.Lifecycle.{claim_page-blocked}

module _ (now : ℕ) (a p request : String) (r : TabRegistry) where
  abbrev closing_tab : TabRecord → TabRecord
  closing_tab tab = record tab { closing = some (close_state now a request) }

  -- What a close that was begun has done.
  pub record IsClosing (task : Option ℕ) (r' : TabRegistry) : Type 0 where
    pub was : TabRecord
    pub owns : Owns a p r was
    pub open' : was.closing ≡ none
    pub runs : task ≡ running_task p was.busy r
    pub then' : r' ≡ put_tab p (closing_tab was) r

  begin_close-IsClosing :
      (tab : TabRecord) (task : Option ℕ) (r' : TabRegistry)
      → begin_close now a p request r ≡ ok (tab, task, r')
      → IsClosing task r'
  unfolding begin_close
  begin_close-IsClosing tab task r' h = elim (owned-cases tab_not_found a p r) [
    | inl e ↦ absurd (ground arith)
    | inr (was, e, o) ↦ elim (Option-cases was.closing) [
      | inl open' ↦ record {
        was = was;
        owns = o;
        open' = open';
        runs = ground arith;
        then' = ground arith;
      }
      | inr (b, closed) ↦ absurd (ground arith)
    ]
  ]

module _ (a p request : String) (r : TabRegistry) (tab : TabRecord) (o : Owns a p r tab)
    (b : BusyState) (reserved : tab.closing ≡ some b) where
  -- A page that is being closed refuses everything else.
  closing-refuses :
      (q : String) (u : TabUpdate) (t : ℕ) (d : Claim)
      → d.agent_id ≡ a
      → d.request_id ≢ b.request_id
      → (check_claim p q r ≡ raise operation_cancelled)
        × (update_tab t p u r ≡ raise operation_cancelled)
        × (set_active_tab t a p r ≡ raise operation_cancelled)
        × (claim_page d p r ≡ raise (busy_tab b))
  unfolding check_claim update_tab set_active_tab
  closing-refuses q u t d same other = (
    ground (arith, o.there),
    rw (o.there, update_tab, reserved) refl,
    rw (owned_of_Owns tab_not_found a p r tab o, set_active_tab, reserved) refl,
    claim_page-blocked d p r tab (record { there = o.there; own = o.own ∙ sym same }) b
        (ground arith),
  )

end_close-held :
    (p request : String) (r : TabRegistry) (tab : TabRecord)
    → lookup p r.tabs ≡ some tab
    → held_by request tab.closing ≡ true
    → end_close p request r ≡ put_tab p (record tab { closing = none }) r
unfolding end_close
end_close-held p request r tab there mine = rw (there, end_close, mine)

-- A record that is put back as it was.
put_back :
    (p : String) (r : TabRegistry) (was tab : TabRecord)
    → lookup p r.tabs ≡ some was
    → was.closing ≡ none
    → (q : String)
    → lookup q (insert p (record was { closing = none }) (insert p tab r.tabs)) ≡ lookup q r.tabs
put_back p r was tab there open' q = ground (
  arith,
  lookup-insert q p (record was { closing = none }) (insert p tab r.tabs),
  lookup-insert q p tab r.tabs,
)

-- A close that was begun hands over the task that works on the page, if any, and refuses all other
-- use of the page: results, updates, activation and other requests' claims. Ending it without
-- destroying the page gives every page back as it was, with the claim of the operation in progress.
pub begin_close-end_close :
    (now : ℕ) (a p request : String) (r r' : TabRegistry) (tab : TabRecord) (task : Option ℕ)
    (q : String) (u : TabUpdate) (t : ℕ) (d : Claim)
    → begin_close now a p request r ≡ ok (tab, task, r')
    → d.agent_id ≡ a
    → d.request_id ≢ request
    → (task ≡ running_task p (busy_at p r) r)
      × (check_claim p q r' ≡ raise operation_cancelled)
      × (update_tab t p u r' ≡ raise operation_cancelled)
      × (set_active_tab t a p r' ≡ raise operation_cancelled)
      × (claim_page d p r' ≡ raise (busy_tab (close_state now a request)))
      × (lookup q (end_close p request r').tabs ≡ lookup q r.tabs)
begin_close-end_close now a p request r r' tab task q u t d h same other =
    let k = begin_close-IsClosing now a p request r tab task r' h in
    let closing = closing_tab now a p request r k.was in
    let there = lookup-insert_self p closing r.tabs in
    let ended = end_close-held p request (put_tab p closing r) closing there (ground arith) in
    let (c1, c2, c3, c4) =
      closing-refuses a p request (put_tab p closing r) closing
        (record { there = there; own = k.owns.own }) (close_state now a request) refl q u t d same
        other in
    rw k.then' (
      k.runs ∙ ground (arith, k.owns.there),
      c1,
      c2,
      c3,
      c4,
      rw ended (put_back p r k.was closing k.owns.there k.open' q),
    )
