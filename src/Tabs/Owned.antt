-- ===== src/Tabs/Owned.antt =====
-- The two outcomes of the ownership test that most methods begin with, and of the test of blockers.
use browser_cli.Prelude.{String, ◌≡◌, ◌⊎◌, inl, inr, some, arith, string_eq, Option-cases}
use browser_cli.Dict.{lookup}
use browser_cli.Tabs.Records.{TabRecord, TabRegistry, TabError, ok, raise, no_active_tab}
use browser_cli.Tabs.Registry.{owned}
use browser_cli.Tabs.Claims.{active_page}

-- The agent's own record of the page.
pub record Owns (agent_id page_id : String) (r : TabRegistry) (tab : TabRecord) : Type 0 where
  pub there : lookup page_id r.tabs ≡ some tab
  pub own : tab.owner_agent_id ≡ agent_id

module _ (e : TabError) (agent_id page_id : String) (r : TabRegistry) where
  -- The test passes exactly on the agent's own record.
  pub owned-ok :
      (tab : TabRecord) → owned e agent_id page_id r ≡ ok tab → Owns agent_id page_id r tab
  unfolding owned
  owned-ok tab h = elim (Option-cases (lookup page_id r.tabs)) [
    | inl n ↦ absurd (ground arith)
    | inr (t, s) ↦ ground arith
  ]

  pub owned_of_Owns :
      (tab : TabRecord) → Owns agent_id page_id r tab → owned e agent_id page_id r ≡ ok tab
  unfolding owned
  owned_of_Owns tab h = ground arith

  pub owned-cases :
      (owned e agent_id page_id r ≡ raise e)
      ⊎ ((tab : TabRecord) × (owned e agent_id page_id r ≡ ok tab) × Owns agent_id page_id r tab)
  unfolding owned
  owned-cases = elim (Option-cases (lookup page_id r.tabs)) [
    | inl n ↦ inl (ground arith)
    | inr (t, s) ↦ elim (string_eq.dec t.owner_agent_id agent_id) [
      | yes p ↦ inr (t, ground arith, record { there = s; own = p })
      | no q ↦ inl (ground arith)
    ]
  ]

-- The agent has an active page with a proper id, or has none.
pub active_page-cases :
    (agent_id : String) (r : TabRegistry)
    → (active_page agent_id r ≡ raise no_active_tab)
      ⊎ ((p : String) × (active_page agent_id r ≡ ok p)
          × (lookup agent_id r.active_tab_by_agent ≡ some p))
unfolding active_page
active_page-cases agent_id r = elim (Option-cases (lookup agent_id r.active_tab_by_agent)) [
  | inl n ↦ inl (ground arith)
  | inr (p, found) ↦ elim (string_eq.dec p "") [
    | yes e ↦ inl (ground arith)
    | no n ↦ inr (p, ground arith, found)
  ]
]
