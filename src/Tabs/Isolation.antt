-- ===== src/Tabs/Isolation.antt =====
-- What one agent's calls leave alone: the tabs and the active tabs of the other agents.
use browser_cli.Prelude.{String, ◌≡◌, ◌≢◌, some, string_eq}
use browser_cli.Dict.{lookup}
use browser_cli.Tabs.Records.{TabRecord, TabRegistry}
use browser_cli.Tabs.Calls.{
  Call, adds, updates, activates, removes, replaces, forgets, clears, claims, claims_active,
  begins_close, ends_close, releases, step,
}
use browser_cli.Tabs.Unseen.{
  IsOwnIfThere, Unseen, add_tab-Unseen, update_tab-Unseen, set_active_tab-Unseen, remove_tab-Unseen,
  claim_page-Unseen, claim_active_tab-Unseen, begin_close-Unseen, end_close-Unseen,
  release_tab-Unseen,
}

-- The calls of an agent. Those that name the agent may name any page. The others do not look at the
-- owner: they are the agent's on a page that is its own or is not there, and an added page is the
-- agent's. Renaming and clearing concern all agents.
abbrev pub IsCallOf : String → Call → TabRegistry → Type 0
IsCallOf a (activates now agent_id page_id) r = agent_id ≡ a
IsCallOf a (removes agent_id page_id) r = agent_id ≡ a
IsCallOf a (claims c page_id) r = c.agent_id ≡ a
IsCallOf a (claims_active c) r = c.agent_id ≡ a
IsCallOf a (begins_close now agent_id page_id request_id) r = agent_id ≡ a
IsCallOf a (adds now page_id owner url title) r = (owner ≡ a) × IsOwnIfThere a page_id r
IsCallOf a (updates now page_id u) r = IsOwnIfThere a page_id r
IsCallOf a (ends_close page_id request_id) r = IsOwnIfThere a page_id r
IsCallOf a (releases page_id request_id) r = IsOwnIfThere a page_id r
IsCallOf a _ r = ⊥

calls-Unseen :
    (a b : String) (c : Call) (r : TabRegistry) → b ≢ a → IsCallOf a c r → Unseen b r (step c r)
unfolding step
calls-Unseen a b (adds now p owner url title) r n (mine, own) =
    rw mine (add_tab-Unseen a b n r now p url title own)
calls-Unseen a b (updates now p u) r n own = update_tab-Unseen a b n r now p u own
calls-Unseen a b (activates now a' p) r n own = rw own (set_active_tab-Unseen a b n r now p)
calls-Unseen a b (removes a' p) r n own = rw own (remove_tab-Unseen a b n r p)
calls-Unseen a b (replaces reps) r n own = absurd own
calls-Unseen a b forgets r n own = absurd own
calls-Unseen a b clears r n own = absurd own
calls-Unseen a b (claims c p) r n own = claim_page-Unseen a b n r c p own
calls-Unseen a b (claims_active c) r n own = claim_active_tab-Unseen a b n r c own
calls-Unseen a b (begins_close now a' p request) r n own =
    rw own (begin_close-Unseen a b n r now p request)
calls-Unseen a b (ends_close p request) r n own = end_close-Unseen a b n r p request own
calls-Unseen a b (releases p request) r n own = release_tab-Unseen a b n r p request own

-- An agent's call leaves each tab of another agent, and that agent's active tab, exactly as they were: a
-- call that activates, removes, claims or begins to close a page, whatever page id it names; and one that
-- adds or updates a page, ends a close or releases a claim, on a page that is the agent's or is not there.
pub step-Unseen :
    (a b p : String) (c : Call) (r : TabRegistry) (tab : TabRecord)
    → b ≢ a
    → IsCallOf a c r
    → lookup p r.tabs ≡ some tab
    → tab.owner_agent_id ≡ b
    → (lookup p (step c r).tabs ≡ some tab)
      × (lookup b (step c r).active_tab_by_agent ≡ lookup b r.active_tab_by_agent)
step-Unseen a b p c r tab n own there mine =
    let u = calls-Unseen a b c r n own in (u.pages p tab there mine, u.active)
