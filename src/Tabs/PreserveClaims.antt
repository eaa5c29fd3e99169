-- ===== src/Tabs/PreserveClaims.antt =====
-- tabs/registry.py: the registry after the calls that claim, close and release a page.
use browser_cli.Prelude.{
  String, ℕ, inl, inr, refl, none, some, arith, string_eq, Option-cases, Bool-cases,
}
use browser_cli.Dict.{lookup}
use browser_cli.Tabs.Records.{TabRecord, TabRegistry, tab_not_found}
use browser_cli.Tabs.Registry.{or_else}
use browser_cli.Tabs.Claims.{
  Claim, busy_of, claim_record, claim_page, begin_close, close_state, end_close, release_tab,
  blocked_by, held_by,
}
use browser_cli.Tabs.Calls.{after}
use browser_cli.Tabs.Invariant.{IsWf, put_tab-IsWf, with_tasks-IsWf}
use browser_cli.Tabs.Owned.{Owns, owned-cases}

pub claim_record-IsWf :
    (c : Claim) (p : String) (tab : TabRecord) (r : TabRegistry)
    → IsWf r
    → Owns c.agent_id p r tab
    → IsWf (after (λ s. s.1) r (claim_record c p tab r))
unfolding claim_record
claim_record-IsWf c p tab r w o =
    elim (Option-cases (blocked_by c.request_id (or_else tab.closing tab.busy))) [
      | inl free ↦
          let t = w.each p tab o.there in
          rw (free, claim_record)
            (with_tasks-IsWf _ _ (
              put_tab-IsWf r p (record tab { busy = some (busy_of c); last_used_at = c.used }) tab w
                o.there
                (record {
                  keyed = t.keyed;
                  busy_owner = λ b h. ground (arith, o.own);
                  closing_owner = t.closing_owner;
                })
                refl))
      | inr (b, held) ↦ rw (held, claim_record) w
    ]

pub claim_page-IsWf :
    (c : Claim) (p : String) (r : TabRegistry)
    → IsWf r
    → IsWf (after (λ s. s.1) r (claim_page c p r))
unfolding claim_page
claim_page-IsWf c p r w = elim (owned-cases tab_not_found c.agent_id p r) [
  | inl e ↦ rw (e, claim_page) w
  | inr (tab, e, o) ↦ rw (e, claim_page) (claim_record-IsWf c p tab r w o)
]

pub begin_close-IsWf :
    (now : ℕ) (a p request : String) (r : TabRegistry)
    → IsWf r
    → IsWf (after (λ s. s.2) r (begin_close now a p request r))
unfolding begin_close
begin_close-IsWf now a p request r w = elim (owned-cases tab_not_found a p r) [
  | inl e ↦ rw (e, begin_close) w
  | inr (tab, e, o) ↦ elim (Option-cases tab.closing) [
    | inl open' ↦
        let t = w.each p tab o.there in
        rw (e, begin_close, open')
          (put_tab-IsWf r p (record tab { closing = some (close_state now a request) }) tab w
            o.there
            (record {
              keyed = t.keyed;
              busy_owner = t.busy_owner;
              closing_owner = λ b h. ground (arith, o.own);
            })
            refl)
    | inr (b, closed) ↦ rw (e, begin_close, closed) w
  ]
]

pub end_close-IsWf : (p request : String) (r : TabRegistry) → IsWf r → IsWf (end_close p request r)
unfolding end_close
end_close-IsWf p request r w = elim (Option-cases (lookup p r.tabs)) [
  | inl n ↦ rw (n, end_close) w
  | inr (tab, found) ↦ elim (Bool-cases (held_by request tab.closing)) [
    | inl mine ↦
        let t = w.each p tab found in
        rw (found, end_close, mine)
          (put_tab-IsWf r p (record tab { closing = none }) tab w found
            (record { keyed = t.keyed; busy_owner = t.busy_owner; closing_owner = λ b h. cc }) refl)
    | inr other ↦ rw (found, end_close, other) w
  ]
]

pub release_tab-IsWf :
    (p request : String) (r : TabRegistry) → IsWf r → IsWf (release_tab p request r)
unfolding release_tab
release_tab-IsWf p request r w = elim (Option-cases (lookup p r.tabs)) [
  | inl n ↦ rw (n, release_tab) (with_tasks-IsWf r _ w)
  | inr (tab, found) ↦ elim (Bool-cases (held_by request tab.busy)) [
    | inl mine ↦
        let t = w.each p tab found in
        rw (found, release_tab, mine)
          (with_tasks-IsWf _ _ (
            put_tab-IsWf r p (record tab { busy = none }) tab w found
              (record { keyed = t.keyed; busy_owner = λ b h. cc; closing_owner = t.closing_owner })
              refl))
    | inr other ↦ rw (found, release_tab, other) (with_tasks-IsWf r _ w)
  ]
]
