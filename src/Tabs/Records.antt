-- ===== src/Tabs/Records.antt =====
-- The data of tabs/registry.py: a tab, its claims, the registry's three dicts, and the errors.
-- A time (`time.time()`) is a number of clock ticks, an asyncio task is its number.
use browser_cli.Prelude.{String, ℕ, List, [], Option, if◌then◌else◌, Bool}
use browser_cli.Dict.{Dict}

-- Who holds a page: the request, its command and agent, and since when.
pub record BusyState : Type 0 where
  pub request_id : String
  pub command : String
  pub agent_id : String
  pub started_at : ℕ

pub record TabRecord : Type 0 where
  pub page_id : String
  pub owner_agent_id : String
  pub created_at : ℕ
  pub last_used_at : ℕ
  pub url : String
  pub title : String
  pub busy : Option BusyState
  pub closing : Option BusyState
  pub last_snapshot_refs : List String
  pub last_snapshot_id : Option String
  pub last_snapshot_ref_count : ℕ
  pub last_snapshot_url : String
  pub last_snapshot_at : Option ℕ

pub record TabRegistry : Type 0 where
  pub tabs : Dict String TabRecord
  pub active_tab_by_agent : Dict String String
  pub claim_tasks : Dict (String × String) ℕ

abbrev pub empty : TabRegistry
empty = record { tabs = []; active_tab_by_agent = []; claim_tasks = [] }

-- The exceptions of errors.py that the registry raises.
pub data TabError : Type 0 where
  busy_tab : BusyState → TabError
  no_active_tab operation_cancelled tab_not_found : TabError

pub data Result {ℓ} (A : Type ℓ) : Type ℓ where
  ok : A → Result A
  raise : TabError → Result A

infixl 5 ◌>>=◌
abbrev pub ◌>>=◌ {ℓ κ} : {A : Type ℓ} {B : Type κ} → Result A → (A → Result B) → Result B
ok a >>= f = f a
raise e >>= f = raise e

-- `if b: raise e`, and then `m`
abbrev pub raise_if {ℓ} : {A : Type ℓ} → Bool → TabError → Result A → Result A
raise_if b e m = if b then raise e else m

-- The keyword arguments of `update_tab`; `none` leaves a field alone.
pub record TabUpdate : Type 0 where
  pub url : Option String
  pub title : Option String
  pub last_snapshot_refs : Option (List String)
  pub last_snapshot_id : Option String
  pub last_snapshot_ref_count : Option ℕ
  pub last_snapshot_url : Option String
  pub last_snapshot_at : Option ℕ
