-- ===== src/Tabs/Examples.antt =====
-- The theorems on the registry at concrete registries: agents "a" and "b", three pages.
use text.Mathlib.TextEquality.{eq_iff}
use browser_cli.Prelude.{
  ◌↔◌, String, ◌≡◌, ◌≢◌, refl, none, some, arith, string_eq, pair_eq, List, [], ◌∷◌,
}
use browser_cli.Prelude.Sort.{sort, insert_sorted}
use browser_cli.Dict.{lookup, insert, erase}
use browser_cli.Tabs.Records.{
  BusyState, TabRecord, TabRegistry, TabUpdate, ok, raise, busy_tab, operation_cancelled, empty,
}
use browser_cli.Tabs.Registry
use browser_cli.Tabs.Registry.{
  visible, by_created, update_tab, set_active_tab, remove_tab, owned, list_tabs, new_tab,
  find_latest_page_id,
}
use browser_cli.Tabs.Claims.{
  Claim, busy_of, claimed, claimed_tab, claim_record, claim_page, claim_active_tab, active_page,
  begin_close, close_state, end_close, release_tab, check_claim, running_task, with_active_tab,
}
use browser_cli.Tabs.Calls.{Call, adds, claims, removes, step, run, AllAllowed}
use browser_cli.Tabs.Invariant.{IsWf}
use browser_cli.Tabs.WellFormed.{run-empty-IsWf}
use browser_cli.Tabs.Holding.{busy_at, closing_at, step-busy_at}
use browser_cli.Tabs.Lifecycle.{claim_page-release_tab, check_claim_iff}
use browser_cli.Tabs.Closing.{begin_close-end_close}
use browser_cli.Tabs.Isolation.{step-Unseen}
use browser_cli.Tabs.Replacement.{IsNext, remove_tab-IsNext}

-- What a test by evaluation unfolds.
program : Unit {0}
unfolding lookup insert erase sort insert_sorted string_eq pair_eq Registry.add_tab new_tab
    update_tab set_active_tab remove_tab owned list_tabs claim_record claim_page claim_active_tab
    active_page begin_close end_close release_tab check_claim find_latest_page_id step run
    with_active_tab
program = tt

abbrev opening : List Call
opening = adds 1 "p1" "a" "" "" ∷ adds 2 "p2" "b" "" "" ∷ adds 3 "p3" "a" "" "" ∷ []

opening_allowed : AllAllowed opening empty
unfolding program
opening_allowed = (refl, (refl, (refl, tt)))

run-empty-IsWf_example : IsWf (run opening empty)
run-empty-IsWf_example = run-empty-IsWf opening opening_allowed

abbrev tab1 : TabRecord
tab1 = record {
  page_id = "p1";
  owner_agent_id = "a";
  created_at = 1;
  last_used_at = 1;
  url = "";
  title = "";
  busy = none;
  closing = none;
  last_snapshot_refs = [];
  last_snapshot_id = none;
  last_snapshot_ref_count = 0;
  last_snapshot_url = "";
  last_snapshot_at = none;
}

abbrev tab2 : TabRecord
tab2 = record tab1 { page_id = "p2"; owner_agent_id = "b"; created_at = 2; last_used_at = 2 }

abbrev tab3 : TabRecord
tab3 = record tab1 { page_id = "p3"; created_at = 3; last_used_at = 3 }

abbrev three : TabRegistry
three = record {
  tabs = ("p1", tab1) ∷ ("p2", tab2) ∷ ("p3", tab3) ∷ [];
  active_tab_by_agent = ("a", "p3") ∷ ("b", "p2") ∷ [];
  claim_tasks = [];
}

opened : run opening empty ≡ three
unfolding program
opened = refl

three-IsWf : IsWf three
three-IsWf = rw opened at (run-empty-IsWf opening opening_allowed)

abbrev claim1 : Claim
claim1 = record {
  agent_id = "a";
  request_id = "r1";
  command = "click";
  started = 5;
  used = 5;
  task = some 7;
}

abbrev claim2 : Claim
claim2 = record claim1 { request_id = "r2"; task = some 8 }

abbrev held : TabRegistry
held = claimed claim1 "p1" tab1 three

r2_not_r1 : ◌≢◌ {A = String} "r2" "r1"
r2_not_r1 = ground (arith, eq_iff "r2" "r1")

p3_not_p1 : ◌≢◌ {A = String} "p3" "p1"
p3_not_p1 = ground (arith, eq_iff "p3" "p1")

b_not_a : ◌≢◌ {A = String} "b" "a"
b_not_a = ground (arith, eq_iff "b" "a")

claim_page-release_tab_example :
    (check_claim "p1" "r1" held ≡ ok tt)
    × (claim_page claim2 "p1" held ≡ raise (busy_tab (busy_of claim1)))
    × (busy_at "p1" (release_tab "p1" "r1" held) ≡ none)
    × (lookup ("p1", "r1") (release_tab "p1" "r1" held).claim_tasks ≡ none)
    × (lookup "p3" (release_tab "p1" "r1" held).tabs ≡ lookup "p3" three.tabs)
unfolding program
claim_page-release_tab_example =
    claim_page-release_tab claim1 claim2 "p1" "p3" three held (claimed_tab claim1 tab1) refl refl
      refl r2_not_r1 p3_not_p1

step-busy_at_example : busy_at "p1" (step (claims claim2 "p1") held) ≡ some (busy_of claim1)
unfolding program
step-busy_at_example =
    step-busy_at "p1" held (busy_of claim1) refl (claims claim2 "p1") (r2_not_r1, refl)

accepts_held : (check_claim "p1" "r1" held ≡ ok tt) ↔ (
    (closing_at "p1" held ≡ none)
    × ((b : BusyState) × (busy_at "p1" held ≡ some b) × (b.request_id ≡ "r1")))
accepts_held = check_claim_iff "p1" "r1" held

abbrev no_update : TabUpdate
no_update = record {
  url = none;
  title = none;
  last_snapshot_refs = none;
  last_snapshot_id = none;
  last_snapshot_ref_count = none;
  last_snapshot_url = none;
  last_snapshot_at = none;
}

abbrev busy1 : TabRecord
busy1 = claimed_tab claim1 tab1

abbrev closing1 : TabRecord
closing1 = record busy1 { closing = some (close_state 6 "a" "r9") }

-- Page "p1" is closed by request "r9" while request "r1" works on it as task 7.
abbrev closing : TabRegistry
closing = record held { tabs = ("p1", closing1) ∷ ("p2", tab2) ∷ ("p3", tab3) ∷ [] }

r2_not_r9 : ◌≢◌ {A = String} "r2" "r9"
r2_not_r9 = ground (arith, eq_iff "r2" "r9")

begin_close-end_close_example :
    (some 7 ≡ running_task "p1" (busy_at "p1" held) held)
    × (check_claim "p1" "r1" closing ≡ raise operation_cancelled)
    × (update_tab 6 "p1" no_update closing ≡ raise operation_cancelled)
    × (set_active_tab 6 "a" "p1" closing ≡ raise operation_cancelled)
    × (claim_page claim2 "p1" closing ≡ raise (busy_tab (close_state 6 "a" "r9")))
    × (lookup "p1" (end_close "p1" "r9" closing).tabs ≡ lookup "p1" held.tabs)
unfolding program
begin_close-end_close_example =
    begin_close-end_close 6 "a" "p1" "r9" held closing closing1 (some 7) "p1" no_update 6 claim2
      refl refl r2_not_r9

step-Unseen_example :
    (lookup "p2" (step (removes "a" "p2") three).tabs ≡ some tab2)
    × (lookup "b" (step (removes "a" "p2") three).active_tab_by_agent
        ≡ lookup "b" three.active_tab_by_agent)
unfolding program
step-Unseen_example = step-Unseen "a" "b" "p2" (removes "a" "p2") three tab2 b_not_a refl refl refl

listed : list_tabs "a" three ≡ tab3 ∷ tab1 ∷ []
unfolding program
listed = refl

remove_tab-IsNext_example :
    (tab : TabRecord) × (r' : TabRegistry) × (remove_tab "a" "p3" three ≡ ok (tab, r'))
    × (lookup "p3" r'.tabs ≡ none)
    × IsNext "a" r'
unfolding program
remove_tab-IsNext_example = remove_tab-IsNext "a" "p3" three three-IsWf refl
