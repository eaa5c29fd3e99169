-- ===== src/Tabs/Registry.antt =====
-- The methods of `TabRegistry`. Each runs under the lock with no `await` inside, so it is one step:
-- it raises and changes nothing, or returns its result beside the new registry. The clock readings
-- (`now`, or `started` and `used` where the code reads it twice) and the current task are arguments.
-- A copy of a record is the record, since values are not shared.
use browser_cli.Prelude.{
  String, ℕ, List, [], ◌∷◌, Option, none, some, Bool, true, false, not, ◌||◌, any, select, leb,
  ◌==◌, string_eq, pair_eq, if◌then◌else◌,
}
use browser_cli.Prelude.Sort.{sort}
use browser_cli.Dict.{Dict, lookup, insert, erase, values}
use browser_cli.Tabs.Records.{
  TabRecord, TabRegistry, TabUpdate, TabError, Result, ok, raise, ◌>>=◌, raise_if, no_active_tab,
  operation_cancelled, tab_not_found,
}

-- `x or y` on objects that may be `None`
abbrev pub or_else {ℓ} : {A : Type ℓ} → Option A → Option A → Option A
or_else none y = y
or_else (some x) y = some x

-- `if value is not None: field = value`
abbrev pub or_keep {ℓ} : {A : Type ℓ} → Option A → A → A
or_keep none old = old
or_keep (some new) old = new

abbrev pub is_some {ℓ} : {A : Type ℓ} → Option A → Bool
is_some none = false
is_some (some _) = true

abbrev pub owned_by : String → TabRecord → Bool
owned_by agent_id record' = record'.owner_agent_id == agent_id

unfoldable pub new_tab : ℕ → String → String → String → String → TabRecord
new_tab now page_id owner_agent_id url title = record {
  page_id = page_id;
  owner_agent_id = owner_agent_id;
  created_at = now;
  last_used_at = now;
  url = url;
  title = title;
  busy = none;
  closing = none;
  last_snapshot_refs = [];
  last_snapshot_id = none;
  last_snapshot_ref_count = 0;
  last_snapshot_url = "";
  last_snapshot_at = none;
}

unfoldable pub add_tab :
    ℕ → String → String → String → String → TabRegistry → TabRecord × TabRegistry
add_tab now page_id owner url title r =
    let tab = new_tab now page_id owner url title in
    (
      tab,
      record r {
        tabs = insert page_id tab r.tabs;
        active_tab_by_agent = insert owner page_id r.active_tab_by_agent;
      },
    )

-- `self._tabs[page_id] = tab`; the methods that mutate a record in place do this too
abbrev pub put_tab : String → TabRecord → TabRegistry → TabRegistry
put_tab page_id tab r = record r { tabs = insert page_id tab r.tabs }

unfoldable pub apply_update : ℕ → TabUpdate → TabRecord → TabRecord
apply_update now u tab = record tab {
  last_used_at = now;
  url = or_keep u.url tab.url;
  title = or_keep u.title tab.title;
  last_snapshot_refs = or_keep u.last_snapshot_refs tab.last_snapshot_refs;
  last_snapshot_id = or_else u.last_snapshot_id tab.last_snapshot_id;
  last_snapshot_ref_count = or_keep u.last_snapshot_ref_count tab.last_snapshot_ref_count;
  last_snapshot_url = or_keep u.last_snapshot_url tab.last_snapshot_url;
  last_snapshot_at = or_else u.last_snapshot_at tab.last_snapshot_at;
}

-- `self._tabs.get(page_id)`, or the error where there is none
abbrev pub require {ℓ} : {A : Type ℓ} → Option A → TabError → Result A
require none e = raise e
require (some a) e = ok a

unfoldable pub update_tab : ℕ → String → TabUpdate → TabRegistry → Result (TabRecord × TabRegistry)
update_tab now page_id u r = do
  tab ← require (lookup page_id r.tabs) tab_not_found
  raise_if (is_some tab.closing) operation_cancelled
      (do let tab' = apply_update now u tab; ok (tab', put_tab page_id tab' r))

-- the sort keys `created_at`, `page_id != active_page_id` and, reversed, `last_used_at`
abbrev pub by_created : TabRecord → TabRecord → Bool
by_created x y = leb x.created_at y.created_at

abbrev pub by_active : String → TabRecord → TabRecord → Bool
by_active active x y = x.page_id == active || not (y.page_id == active)

abbrev pub by_latest : TabRecord → TabRecord → Bool
by_latest x y = leb y.last_used_at x.last_used_at

abbrev pub visible : String → TabRegistry → List TabRecord
visible agent_id r = select (owned_by agent_id) (values r.tabs)

-- `if active_page_id:` is false of the empty text too
abbrev pub active_first : Option String → List TabRecord → List TabRecord
active_first none tabs = tabs
active_first (some active) tabs = if active == "" then tabs else sort (by_active active) tabs

unfoldable pub list_tabs : String → TabRegistry → List TabRecord
list_tabs agent_id r =
    active_first (lookup agent_id r.active_tab_by_agent) (sort by_created (visible agent_id r))

unfoldable pub has_tabs : String → TabRegistry → Bool
has_tabs agent_id r = any (owned_by agent_id) (values r.tabs)

-- `record is None or record.owner_agent_id != agent_id`: the error, or the agent's own record
unfoldable pub owned : TabError → String → String → TabRegistry → Result TabRecord
owned e agent_id page_id r = do
  tab ← require (lookup page_id r.tabs) e
  raise_if (not (owned_by agent_id tab)) e (ok tab)

unfoldable pub get_active_tab : String → TabRegistry → Result TabRecord
get_active_tab agent_id r = do
  page_id ← require (lookup agent_id r.active_tab_by_agent) no_active_tab
  owned no_active_tab agent_id page_id r

unfoldable pub set_active_tab : ℕ → String → String → TabRegistry → Result (TabRecord × TabRegistry)
set_active_tab now agent_id page_id r = do
  tab ← owned tab_not_found agent_id page_id r
  raise_if (is_some tab.closing) operation_cancelled (do
    let tab' = record tab { last_used_at = now }
    ok (
      tab',
      record r {
        tabs = insert page_id tab' r.tabs;
        active_tab_by_agent = insert agent_id page_id r.active_tab_by_agent;
      },
    ))

unfoldable pub get_tab : String → String → TabRegistry → Result TabRecord
get_tab agent_id page_id r = owned tab_not_found agent_id page_id r

-- the `page_id` of the first of the sorted candidates
abbrev pub first_page_id : List TabRecord → Option String
first_page_id [] = none
first_page_id (tab ∷ _) = some tab.page_id

unfoldable pub find_latest_page_id : String → TabRegistry → Option String
find_latest_page_id agent_id r = first_page_id (sort by_latest (visible agent_id r))

-- the new active tab of the agent: `pop` if there is none
abbrev pub set_or_pop : String → Option String → Dict String String → Dict String String
set_or_pop agent_id none d = erase agent_id d
set_or_pop agent_id (some page_id) d = insert agent_id page_id d

abbrev pub is_page : String → Option String → Bool
is_page page_id none = false
is_page page_id (some p) = p == page_id

unfoldable pub remove_tab : String → String → TabRegistry → Result (TabRecord × TabRegistry)
remove_tab agent_id page_id r = do
  removed ← owned tab_not_found agent_id page_id r
  let rest = record r { tabs = erase page_id r.tabs }
  ok (
    removed,
    if is_page page_id (lookup agent_id r.active_tab_by_agent)
        then record rest {
          active_tab_by_agent =
              set_or_pop agent_id (find_latest_page_id agent_id rest) r.active_tab_by_agent;
        }
        else rest,
  )

unfoldable pub current_active_page_id : String → TabRegistry → Result String
unfolding get_active_tab
current_active_page_id agent_id r = do tab ← get_active_tab agent_id r; ok tab.page_id

unfoldable pub snapshot_state : TabRegistry → List TabRecord × Dict String String
snapshot_state r = (sort by_created (values r.tabs), r.active_tab_by_agent)

-- `replacements.get(page_id, page_id)`
abbrev pub renamed : Dict String String → String → String
renamed replacements page_id = or_keep (lookup page_id replacements) page_id

-- the loop over `list(self._tabs.items())`
unfoldable pub rename_tabs :
    Dict String String → Dict String TabRecord → Dict String TabRecord → Dict String TabRecord
rename_tabs replacements [] new_tabs = new_tabs
rename_tabs replacements ((old, tab) ∷ rest) new_tabs =
    let new = renamed replacements old in
    rename_tabs replacements rest (insert new (record tab { page_id = new }) new_tabs)

-- the loop over the active tabs writes each agent's value in its place
unfoldable pub rename_active : Dict String String → Dict String String → Dict String String
rename_active replacements [] = []
rename_active replacements ((agent_id, page_id) ∷ rest) =
    (agent_id, renamed replacements page_id) ∷ rename_active replacements rest

unfoldable pub replace_tab_ids : Dict String String → TabRegistry → TabRegistry
replace_tab_ids [] r = r
replace_tab_ids replacements r = record r {
  tabs = rename_tabs replacements r.tabs [];
  active_tab_by_agent = rename_active replacements r.active_tab_by_agent;
}

abbrev pub without_snapshot : TabRecord → TabRecord
without_snapshot tab = record tab {
  last_snapshot_refs = [];
  last_snapshot_id = none;
  last_snapshot_ref_count = 0;
  last_snapshot_url = "";
  last_snapshot_at = none;
}

unfoldable pub forget_snapshots : Dict String TabRecord → Dict String TabRecord
forget_snapshots [] = []
forget_snapshots ((page_id, tab) ∷ rest) = (page_id, without_snapshot tab) ∷ forget_snapshots rest

unfoldable pub clear_snapshot_state : TabRegistry → TabRegistry
clear_snapshot_state r = record r { tabs = forget_snapshots r.tabs }

-- the claim tasks stay
unfoldable pub clear : TabRegistry → TabRegistry
clear r = record r { tabs = []; active_tab_by_agent = [] }

unfoldable pub is_visible : String → String → TabRegistry → Bool
is_visible agent_id page_id r = elim (lookup page_id r.tabs) [
  | none ↦ false
  | some tab ↦ owned_by agent_id tab
]
