-- ===== src/Tabs/Calls.antt =====
-- Every call of `TabRegistry` that can change it, and the registry after the call: a call that
-- raises leaves it as it was. The entry and the exit of `claim_active_tab` are two calls, so that
-- the calls of other tasks can stand between them.
use browser_cli.Prelude.{string_eq, String, ℕ, List, [], ◌∷◌, ◌≡◌, ◌≢◌, none}
use browser_cli.Dict.{Dict, lookup}
use browser_cli.Tabs.Records.{TabRegistry, TabUpdate, Result, ok, raise}
use browser_cli.Tabs.Registry.{
  add_tab, update_tab, set_active_tab, remove_tab, replace_tab_ids, renamed, clear_snapshot_state,
  clear,
}
use browser_cli.Tabs.Claims.{
  Claim, claim_page, claim_active_tab, begin_close, end_close, release_tab,
}

pub data Call : Type 0 where
  adds : ℕ → String → String → String → String → Call
  updates : ℕ → String → TabUpdate → Call
  activates : ℕ → String → String → Call
  removes : String → String → Call
  replaces : Dict String String → Call
  forgets clears : Call
  claims : Claim → String → Call
  claims_active : Claim → Call
  begins_close : ℕ → String → String → String → Call
  ends_close releases : String → String → Call

-- The registry that a call leaves.
abbrev pub after {ℓ} : {A : Type ℓ} → (A → TabRegistry) → TabRegistry → Result A → TabRegistry
after f r (ok a) = f a
after f r (raise e) = r

unfoldable pub step : Call → TabRegistry → TabRegistry
step (adds now page_id owner url title) r = (add_tab now page_id owner url title r).1
step (updates now page_id u) r = after (λ a. a.1) r (update_tab now page_id u r)
step (activates now agent_id page_id) r = after (λ a. a.1) r (set_active_tab now agent_id page_id r)
step (removes agent_id page_id) r = after (λ a. a.1) r (remove_tab agent_id page_id r)
step (replaces replacements) r = replace_tab_ids replacements r
step forgets r = clear_snapshot_state r
step clears r = clear r
step (claims c page_id) r = after (λ a. a.1) r (claim_page c page_id r)
step (claims_active c) r = after (λ a. a.2) r (claim_active_tab c r)
step (begins_close now agent_id page_id request_id) r =
    after (λ a. a.2) r (begin_close now agent_id page_id request_id r)
step (ends_close page_id request_id) r = end_close page_id request_id r
step (releases page_id request_id) r = release_tab page_id request_id r

-- What the callers of the registry provide: a new page has a new id, and a replacement of ids
-- keeps distinct pages distinct.
abbrev pub Allowed : Call → TabRegistry → Type 0
Allowed (adds now page_id owner url title) r = lookup page_id r.tabs ≡ none
Allowed (replaces replacements) r =
    (p q : String)
    → lookup p r.tabs ≢ none
    → lookup q r.tabs ≢ none
    → renamed replacements p ≡ renamed replacements q
    → p ≡ q
Allowed _ r = Unit

unfoldable pub run : List Call → TabRegistry → TabRegistry
run [] r = r
run (c ∷ cs) r = run cs (step c r)

-- Each call of a run is allowed where it is made.
abbrev pub AllAllowed : List Call → TabRegistry → Type 0
AllAllowed [] r = Unit
AllAllowed (c ∷ cs) r = Allowed c r × AllAllowed cs (step c r)
