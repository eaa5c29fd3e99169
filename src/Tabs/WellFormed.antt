-- ===== src/Tabs/WellFormed.antt =====
-- tabs/registry.py: the registry after each call, and after any run.
use browser_cli.Prelude.{String, inl, inr, arith, string_eq, List, [], ◌∷◌}
use browser_cli.Tabs.Records.{
  TabRecord, TabRegistry, Result, ok, raise, ◌>>=◌, no_active_tab, empty,
}
use browser_cli.Tabs.Claims.{Claim, claim_record, claim_active_tab}
use browser_cli.Tabs.Calls.{
  Call, adds, updates, activates, removes, replaces, forgets, clears, claims, claims_active,
  begins_close, ends_close, releases, after, step, Allowed, AllAllowed, run,
}
use browser_cli.Tabs.Invariant.{IsWf, IsWf-empty}
use browser_cli.Tabs.Owned.{owned-cases, active_page-cases}
use browser_cli.Tabs.Preserve.{add_tab-IsWf, update_tab-IsWf, set_active_tab-IsWf}
use browser_cli.Tabs.PreserveClaims.{
  claim_record-IsWf, claim_page-IsWf, begin_close-IsWf, end_close-IsWf, release_tab-IsWf,
}
use browser_cli.Tabs.PreserveRemove.{remove_tab-IsWf}
use browser_cli.Tabs.PreserveRename.{replace_tab_ids-IsWf, clear_snapshot_state-IsWf, clear-IsWf}

-- The context manager adds the page to the result, and nothing to the registry.
after-claim :
    (page_id : String) (r : TabRegistry) (m : Result (TabRecord × TabRegistry))
    → IsWf (after (λ s. s.1) r m)
    → IsWf (
        after {A = String × TabRecord × TabRegistry}
          (λ s. s.2)
          r
          (m >>= λ s. ok (page_id, s.0, s.1)))
after-claim page_id r (ok s) w = w
after-claim page_id r (raise e) w = w

claim_active_tab-IsWf :
    (c : Claim) (r : TabRegistry) → IsWf r → IsWf (after (λ s. s.2) r (claim_active_tab c r))
unfolding claim_active_tab
claim_active_tab-IsWf c r w = elim (active_page-cases c.agent_id r) [
  | inl n ↦ rw (n, claim_active_tab) w
  | inr (p, e, _) ↦ elim (owned-cases no_active_tab c.agent_id p r) [
    | inl m ↦ rw (e, m, claim_active_tab) w
    | inr (tab, m, o) ↦
        rw (e, m, claim_active_tab)
          (after-claim p r (claim_record c p tab r) (claim_record-IsWf c p tab r w o))
  ]
]

-- Every call keeps the registry well formed, whether it succeeds or raises: no page twice, each
-- record under its own id and held or closed only by its owner, and each agent's active page there
-- and the agent's own. A page that is added has a new id, and replaced ids stay distinct.
pub step-IsWf : (c : Call) (r : TabRegistry) → IsWf r → Allowed c r → IsWf (step c r)
unfolding step
step-IsWf (adds now p owner url title) r w a = add_tab-IsWf now p owner url title r a w
step-IsWf (updates now p u) r w _ = update_tab-IsWf now p u r w
step-IsWf (activates now agent p) r w _ = set_active_tab-IsWf now agent p r w
step-IsWf (removes agent p) r w _ = remove_tab-IsWf agent p r w
step-IsWf (replaces reps) r w a =
    replace_tab_ids-IsWf reps r w (λ p q s t hs ht e. a p q (ground arith) (ground arith) e)
step-IsWf forgets r w _ = clear_snapshot_state-IsWf r w
step-IsWf clears r w _ = clear-IsWf r
step-IsWf (claims c p) r w _ = claim_page-IsWf c p r w
step-IsWf (claims_active c) r w _ = claim_active_tab-IsWf c r w
step-IsWf (begins_close now agent p request) r w _ = begin_close-IsWf now agent p request r w
step-IsWf (ends_close p request) r w _ = end_close-IsWf p request r w
step-IsWf (releases p request) r w _ = release_tab-IsWf p request r w

run-IsWf : (cs : List Call) (r : TabRegistry) → IsWf r → AllAllowed cs r → IsWf (run cs r)
unfolding run
run-IsWf [] r w _ = w
run-IsWf (c ∷ cs) r w (a, as') = run-IsWf cs (step c r) (step-IsWf c r w a) as'

-- So after any calls on a new registry, in any order and by any agents, the invariant holds.
pub run-empty-IsWf : (cs : List Call) → AllAllowed cs empty → IsWf (run cs empty)
run-empty-IsWf cs a = run-IsWf cs empty IsWf-empty a
