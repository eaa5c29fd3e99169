-- ===== src/Tabs/Unseen.antt =====
-- What the methods of the registry leave alone: the tabs and the active tabs of the other agents.
use browser_cli.Prelude.{
  String, ℕ, ◌≡◌, ◌≢◌, inl, inr, refl, sym, ap, Option, none, some, arith, string_eq, Option-cases,
  Bool-cases, ◌∙◌,
}
use browser_cli.Dict.{Dict, lookup, insert, erase, lookup-insert_ne, lookup-erase_ne}
use browser_cli.Tabs.Records.{
  TabRecord, TabRegistry, TabUpdate, Result, ok, raise, ◌>>=◌, tab_not_found, no_active_tab,
}
use browser_cli.Tabs.Registry.{
  add_tab, new_tab, update_tab, set_active_tab, remove_tab, set_or_pop, is_page, or_else,
}
use browser_cli.Tabs.Claims.{
  Claim, claim_record, claim_page, claim_active_tab, begin_close, end_close, release_tab, held_by,
  claimed_tab, blocked_by,
}
use browser_cli.Tabs.Calls.{after}
use browser_cli.Tabs.Owned.{Owns, owned-cases, active_page-cases}

-- The page, if it is there, is the agent's.
abbrev pub IsOwnIfThere : String → String → TabRegistry → Type 0
IsOwnIfThere a p r = (tab : TabRecord) → lookup p r.tabs ≡ some tab → tab.owner_agent_id ≡ a

-- The other agent sees no change.
pub record Unseen (b : String) (r r' : TabRegistry) : Type 0 where
  pub pages :
      (p : String) (tab : TabRecord)
      → lookup p r.tabs ≡ some tab
      → tab.owner_agent_id ≡ b
      → lookup p r'.tabs ≡ some tab
  pub active : lookup b r'.active_tab_by_agent ≡ lookup b r.active_tab_by_agent

module _ (a b : String) (n : b ≢ a) (r : TabRegistry) where
  Unseen-refl : Unseen b r r
  Unseen-refl = record { pages = λ p tab h _. h; active = refl }

  -- Another agent's page is another page.
  foreign :
      (p q : String) (mine tab : TabRecord)
      → Owns a p r mine
      → lookup q r.tabs ≡ some tab
      → tab.owner_agent_id ≡ b
      → q ≢ p
  foreign p q mine tab o there own = λ e. n (ground (arith, o.there, o.own))

  put-Unseen :
      (p : String) (mine tab : TabRecord) (r' : TabRegistry)
      → Owns a p r mine
      → r'.tabs ≡ insert p tab r.tabs
      → lookup b r'.active_tab_by_agent ≡ lookup b r.active_tab_by_agent
      → Unseen b r r'
  put-Unseen p mine tab r' o e f = record {
    pages = λ q other there own.
        rw e (lookup-insert_ne q p tab r.tabs (foreign p q mine other o there own) ∙ there);
    active = f;
  }

  put_own-Unseen :
      (p : String) (tab : TabRecord) (r' : TabRegistry)
      → IsOwnIfThere a p r
      → r'.tabs ≡ insert p tab r.tabs
      → lookup b r'.active_tab_by_agent ≡ lookup b r.active_tab_by_agent
      → Unseen b r r'
  put_own-Unseen p tab r' own e f = record {
    pages = λ q other there theirs.
        let another : q ≢ p =
          λ same. n (sym theirs ∙ own other (ap (λ i. lookup i r.tabs) (sym same) ∙ there)) in
        rw e (lookup-insert_ne q p tab r.tabs another ∙ there);
    active = f;
  }

  pub add_tab-Unseen :
      (now : ℕ) (p url title : String)
      → IsOwnIfThere a p r
      → Unseen b r (add_tab now p a url title r).1
  unfolding add_tab
  add_tab-Unseen now p url title own =
      put_own-Unseen p (new_tab now p a url title) _ own refl
        (lookup-insert_ne b a p r.active_tab_by_agent n)

  pub update_tab-Unseen :
      (now : ℕ) (p : String) (u : TabUpdate)
      → IsOwnIfThere a p r
      → Unseen b r (after (λ s. s.1) r (update_tab now p u r))
  unfolding update_tab
  update_tab-Unseen now p u own = elim (Option-cases (lookup p r.tabs)) [
    | inl m ↦ rw (m, update_tab) Unseen-refl
    | inr (tab, there) ↦ elim (Option-cases tab.closing) [
      | inl open' ↦ rw (there, update_tab, open') (put_own-Unseen p _ _ own refl refl)
      | inr (_, e) ↦ rw (there, update_tab, e) Unseen-refl
    ]
  ]

  pub end_close-Unseen :
      (p request : String) → IsOwnIfThere a p r → Unseen b r (end_close p request r)
  unfolding end_close
  end_close-Unseen p request own = elim (Option-cases (lookup p r.tabs)) [
    | inl m ↦ rw (m, end_close) Unseen-refl
    | inr (tab, there) ↦ elim (Bool-cases (held_by request tab.closing)) [
      | inl e ↦ rw (there, end_close, e) (put_own-Unseen p _ _ own refl refl)
      | inr e ↦ rw (there, end_close, e) Unseen-refl
    ]
  ]

  pub release_tab-Unseen :
      (p request : String) → IsOwnIfThere a p r → Unseen b r (release_tab p request r)
  unfolding release_tab
  release_tab-Unseen p request own = elim (Option-cases (lookup p r.tabs)) [
    | inl m ↦ rw (m, release_tab) (record { pages = λ q other there _. there; active = refl })
    | inr (tab, there) ↦ elim (Bool-cases (held_by request tab.busy)) [
      | inl e ↦ rw (there, release_tab, e) (put_own-Unseen p _ _ own refl refl)
      | inr e ↦
          rw (there, release_tab, e) (record { pages = λ q other there _. there; active = refl })
    ]
  ]

  pub set_active_tab-Unseen :
      (now : ℕ) (p : String) → Unseen b r (after (λ s. s.1) r (set_active_tab now a p r))
  unfolding set_active_tab
  set_active_tab-Unseen now p = elim (owned-cases tab_not_found a p r) [
    | inl e ↦ rw (e, set_active_tab) Unseen-refl
    | inr (tab, e, o) ↦ elim (Option-cases tab.closing) [
      | inl open' ↦
          rw (e, set_active_tab, open')
            (put-Unseen p tab _ _ o refl (lookup-insert_ne b a p r.active_tab_by_agent n))
      | inr (_, d) ↦ rw (e, set_active_tab, d) Unseen-refl
    ]
  ]

  set_or_pop-other :
      (o : Option String) (d : Dict String String) → lookup b (set_or_pop a o d) ≡ lookup b d
  set_or_pop-other none d = lookup-erase_ne b a d n
  set_or_pop-other (some p) d = lookup-insert_ne b a p d n

  pub remove_tab-Unseen : (p : String) → Unseen b r (after (λ s. s.1) r (remove_tab a p r))
  unfolding remove_tab
  remove_tab-Unseen p = elim (owned-cases tab_not_found a p r) [
    | inl e ↦ rw (e, remove_tab) Unseen-refl
    | inr (tab, e, o) ↦ elim (Bool-cases (is_page p (lookup a r.active_tab_by_agent))) [
      | inl was ↦
          rw (e, remove_tab, was) (record { pages = gone tab o; active = set_or_pop-other _ _ })
      | inr not' ↦ rw (e, remove_tab, not') (record { pages = gone tab o; active = refl })
    ]
  ]
    where
      gone :
          (mine : TabRecord)
          → Owns a p r mine
          → (q : String) (other : TabRecord) → lookup q r.tabs ≡ some other
          → other.owner_agent_id ≡ b
          → lookup q (erase p r.tabs) ≡ some other
      gone mine o q other there own =
          lookup-erase_ne q p r.tabs (foreign p q mine other o there own) ∙ there

  claim_record-Unseen :
      (c : Claim) (p : String) (tab : TabRecord)
      → Owns a p r tab
      → Unseen b r (after (λ s. s.1) r (claim_record c p tab r))
  unfolding claim_record
  claim_record-Unseen c p tab o =
      elim (Option-cases (blocked_by c.request_id (or_else tab.closing tab.busy))) [
        | inl free ↦ rw (free, claim_record) (put-Unseen p tab (claimed_tab c tab) _ o refl refl)
        | inr (_, held) ↦ rw (held, claim_record) Unseen-refl
      ]

  after-claim-Unseen :
      (p : String) (m : Result (TabRecord × TabRegistry))
      → Unseen b r (after (λ s. s.1) r m)
      → Unseen b r
          (after {A = String × TabRecord × TabRegistry} (λ s. s.2) r (m >>= λ s. ok (p, s.0, s.1)))
  after-claim-Unseen p (ok s) h = h
  after-claim-Unseen p (raise e) h = h

  pub claim_page-Unseen :
      (c : Claim) (p : String) → c.agent_id ≡ a → Unseen b r (after (λ s. s.1) r (claim_page c p r))
  unfolding claim_page
  claim_page-Unseen c p same = elim (owned-cases tab_not_found c.agent_id p r) [
    | inl e ↦ rw (e, claim_page) Unseen-refl
    | inr (tab, e, o) ↦
        rw (e, claim_page)
          (claim_record-Unseen c p tab (record { there = o.there; own = o.own ∙ same }))
  ]

  pub claim_active_tab-Unseen :
      (c : Claim) → c.agent_id ≡ a → Unseen b r (after (λ s. s.2) r (claim_active_tab c r))
  unfolding claim_active_tab
  claim_active_tab-Unseen c same = elim (active_page-cases c.agent_id r) [
    | inl m ↦ rw (m, claim_active_tab) Unseen-refl
    | inr (p, e, _) ↦ elim (owned-cases no_active_tab c.agent_id p r) [
      | inl m ↦ rw (e, m, claim_active_tab) Unseen-refl
      | inr (tab, m, o) ↦
          rw (e, m, claim_active_tab)
            (after-claim-Unseen p (claim_record c p tab r)
              (claim_record-Unseen c p tab (record { there = o.there; own = o.own ∙ same })))
    ]
  ]

  pub begin_close-Unseen :
      (now : ℕ) (p request : String)
      → Unseen b r (after (λ s. s.2) r (begin_close now a p request r))
  unfolding begin_close
  begin_close-Unseen now p request = elim (owned-cases tab_not_found a p r) [
    | inl e ↦ rw (e, begin_close) Unseen-refl
    | inr (tab, e, o) ↦ elim (Option-cases tab.closing) [
      | inl open' ↦ rw (e, begin_close, open') (put-Unseen p tab _ _ o refl refl)
      | inr (_, d) ↦ rw (e, begin_close, d) Unseen-refl
    ]
  ]
