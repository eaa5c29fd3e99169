-- ===== src/Tabs/Invariant.antt =====
-- tabs/registry.py: what holds of the registry between its calls.
use browser_cli.Prelude.{String, ℕ, ◌≡◌, ◌∙◌, some, arith, string_eq, pair_eq, inl, inr}
use browser_cli.Dict.{
  Dict, lookup, insert, NodupKeys, lookup-insert, insert-NodupKeys, insert-cases, lookup-insert_ne,
  lookup-nil,
}
use browser_cli.Tabs.Records.{BusyState, TabRecord, TabRegistry, empty}
use browser_cli.Tabs.Registry.{put_tab}

-- A record stands under its own id, and who holds or closes it is its owner.
pub record IsTab (page_id : String) (tab : TabRecord) : Type 0 where
  pub keyed : tab.page_id ≡ page_id
  pub busy_owner : (b : BusyState) → tab.busy ≡ some b → b.agent_id ≡ tab.owner_agent_id
  pub closing_owner : (b : BusyState) → tab.closing ≡ some b → b.agent_id ≡ tab.owner_agent_id

-- The active page of an agent is there, and is the agent's own.
abbrev pub IsActive : TabRegistry → String → String → Type 0
IsActive r agent_id page_id =
    (tab : TabRecord) × (lookup page_id r.tabs ≡ some tab) × (tab.owner_agent_id ≡ agent_id)

pub record IsWf (r : TabRegistry) : Type 0 where
  pub distinct : NodupKeys r.tabs
  pub each : (p : String) (tab : TabRecord) → lookup p r.tabs ≡ some tab → IsTab p tab
  pub active : (a p : String) → lookup a r.active_tab_by_agent ≡ some p → IsActive r a p

module _ (r : TabRegistry) (p : String) (tab : TabRecord) where
  -- An agent's own page stays there when a record of the same owner takes its place.
  pub put_tab-IsActive :
      (a q : String)
      → (q ≡ p → tab.owner_agent_id ≡ a)
      → IsActive r a q
      → IsActive (put_tab p tab r) a q
  put_tab-IsActive a q own (other, there, same) = elim (string_eq.dec q p) [
    | yes e ↦ (tab, ground (arith, lookup-insert q p tab r.tabs), own e)
    | no n ↦ (other, lookup-insert_ne q p tab r.tabs n ∙ there, same)
  ]

  pub insert_each :
      IsWf r
      → IsTab p tab
      → (q : String) (other : TabRecord) → lookup q (insert p tab r.tabs) ≡ some other
      → IsTab q other
  insert_each w t q other h = elim (insert-cases q p tab other r.tabs h) [
    | inl (e, same) ↦ rw (e, ← same) t
    | inr (_, old) ↦ w.each q other old
  ]

  -- A record in place of another of the same owner.
  pub put_tab-IsWf :
      (old : TabRecord)
      → IsWf r
      → lookup p r.tabs ≡ some old
      → IsTab p tab
      → tab.owner_agent_id ≡ old.owner_agent_id
      → IsWf (put_tab p tab r)
  put_tab-IsWf old w found t same = record {
    distinct = insert-NodupKeys p tab r.tabs w.distinct;
    each = insert_each w t;
    active = λ a q h.
        let (other, there, own) = w.active a q h in
        put_tab-IsActive a q (λ e. ground arith) (other, there, own);
  }

-- The claim tasks are not part of it.
pub with_tasks-IsWf :
    (r : TabRegistry) (tasks : Dict (String × String) ℕ)
    → IsWf r
    → IsWf (record r { claim_tasks = tasks })
with_tasks-IsWf r tasks w = record { distinct = w.distinct; each = w.each; active = w.active }

pub IsWf-empty : IsWf empty
IsWf-empty = record {
  distinct = tt;
  each = λ p tab h. cc (lookup-nil {V = TabRecord} p);
  active = λ a p h. cc (lookup-nil {V = String} a);
}
