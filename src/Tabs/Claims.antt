-- ===== src/Tabs/Claims.antt =====
-- The methods of `TabRegistry` that claim, close and release a page.
use browser_cli.Prelude.{
  String, ℕ, Option, none, some, Bool, false, not, ◌||◌, ◌==◌, string_eq, pair_eq, if◌then◌else◌,
}
use browser_cli.Dict.{Dict, lookup, insert, erase}
use browser_cli.Tabs.Records.{
  BusyState, TabRecord, TabRegistry, Result, ok, raise, ◌>>=◌, raise_if, busy_tab, no_active_tab,
  operation_cancelled, tab_not_found,
}
use browser_cli.Tabs.Registry.{or_else, is_some, require, owned, put_tab}

-- Who asks for a page: the arguments of the claim methods, the clock read twice, and the task.
pub record Claim : Type 0 where
  pub agent_id : String
  pub request_id : String
  pub command : String
  pub started : ℕ
  pub used : ℕ
  pub task : Option ℕ

-- `blocker and blocker.request_id != request_id`
abbrev pub blocked_by : String → Option BusyState → Option BusyState
blocked_by request_id none = none
blocked_by request_id (some b) = if b.request_id == request_id then none else some b

abbrev pub busy_of : Claim → BusyState
busy_of c = record {
  request_id = c.request_id;
  command = c.command;
  agent_id = c.agent_id;
  started_at = c.started;
}

-- `if task is not None: self._claim_tasks[(page_id, request_id)] = task`
abbrev pub note_task :
    Option ℕ → String × String → Dict (String × String) ℕ → Dict (String × String) ℕ
note_task none key d = d
note_task (some task) key d = insert key task d

-- the record and the registry with the claim noted
abbrev pub claimed_tab : Claim → TabRecord → TabRecord
claimed_tab c tab = record tab { busy = some (busy_of c); last_used_at = c.used }

abbrev pub claimed : Claim → String → TabRecord → TabRegistry → TabRegistry
claimed c page_id tab r = record r {
  tabs = insert page_id (claimed_tab c tab) r.tabs;
  claim_tasks = note_task c.task (page_id, c.request_id) r.claim_tasks;
}

-- what both claim methods do with the record that they found
unfoldable pub claim_record :
    Claim → String → TabRecord → TabRegistry → Result (TabRecord × TabRegistry)
claim_record c page_id tab r = elim (blocked_by c.request_id (or_else tab.closing tab.busy)) [
  | some blocker ↦ raise (busy_tab blocker)
  | none ↦ ok (claimed_tab c tab, claimed c page_id tab r)
]

unfoldable pub claim_page : Claim → String → TabRegistry → Result (TabRecord × TabRegistry)
claim_page c page_id r = do
  tab ← owned tab_not_found c.agent_id page_id r
  claim_record c page_id tab r

-- `self._active_tab_by_agent.get(agent_id, "")`, refused if it is empty
unfoldable pub active_page : String → TabRegistry → Result String
active_page agent_id r = elim (lookup agent_id r.active_tab_by_agent) [
  | none ↦ raise no_active_tab
  | some page_id ↦ raise_if (page_id == "") no_active_tab (ok page_id)
]

-- the entry of the context manager: the page, its claimed record and the new registry
unfoldable pub claim_active_tab : Claim → TabRegistry → Result (String × TabRecord × TabRegistry)
claim_active_tab c r = do
  page_id ← active_page c.agent_id r
  tab ← owned no_active_tab c.agent_id page_id r
  (claimed, r') ← claim_record c page_id tab r
  ok (page_id, claimed, r')

-- `self._claim_tasks.get((page_id, record.busy.request_id)) if record.busy else None`
abbrev pub running_task : String → Option BusyState → TabRegistry → Option ℕ
running_task page_id none r = none
running_task page_id (some b) r = lookup (page_id, b.request_id) r.claim_tasks

abbrev pub close_state : ℕ → String → String → BusyState
close_state now agent_id request_id = record {
  request_id = request_id;
  command = "close-tab";
  agent_id = agent_id;
  started_at = now;
}

unfoldable pub begin_close :
    ℕ → String → String → String → TabRegistry → Result (TabRecord × Option ℕ × TabRegistry)
begin_close now agent_id page_id request_id r = do
  tab ← owned tab_not_found agent_id page_id r
  elim tab.closing [
    | some b ↦ raise (busy_tab b)
    | none ↦
        let tab' = record tab { closing = some (close_state now agent_id request_id) } in
        ok (tab', running_task page_id tab.busy r, put_tab page_id tab' r)
  ]

-- the claim or reservation is that of the request
abbrev pub held_by : String → Option BusyState → Bool
held_by request_id none = false
held_by request_id (some b) = b.request_id == request_id

unfoldable pub end_close : String → String → TabRegistry → TabRegistry
end_close page_id request_id r = elim (lookup page_id r.tabs) [
  | none ↦ r
  | some tab ↦
      if held_by request_id tab.closing
      then put_tab page_id (record tab { closing = none }) r
      else r
]

unfoldable pub check_claim : String → String → TabRegistry → Result (Unit {0})
check_claim page_id request_id r = do
  tab ← require (lookup page_id r.tabs) operation_cancelled
  raise_if (is_some tab.closing || not (held_by request_id tab.busy)) operation_cancelled (ok tt)

unfoldable pub release_tab : String → String → TabRegistry → TabRegistry
release_tab page_id request_id r =
    let r' = record r { claim_tasks = erase (page_id, request_id) r.claim_tasks } in
    elim (lookup page_id r.tabs) [
      | none ↦ r'
      | some tab ↦
          if held_by request_id tab.busy
          then put_tab page_id (record tab { busy = none }) r'
          else r'
    ]

-- `async with claim_active_tab(...)`: the body runs between the claim and the release, which is
-- made whether the body returns or raises; what it does to the registry is its argument.
unfoldable pub with_active_tab {ℓ} :
    {B : Type ℓ}
    → Claim
    → (TabRecord → TabRegistry → B × TabRegistry)
    → TabRegistry
    → Result (B × TabRegistry)
unfolding claim_active_tab release_tab
with_active_tab c body r = do
  (page_id, claimed, r') ← claim_active_tab c r
  let (b, r'') = body claimed r'
  ok (b, release_tab page_id c.request_id r'')
