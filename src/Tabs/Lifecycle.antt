-- ===== src/Tabs/Lifecycle.antt =====
-- From a claim to its release, and from a close reservation to its end.
use browser_cli.Prelude.{
  String, ◌≡◌, ◌≢◌, ◌↔◌, ◌⊎◌, inl, inr, refl, none, some, arith, string_eq, pair_eq, Option-cases,
  ◌∙◌, sym, true,
}
use browser_cli.Dict.{
  lookup, insert, erase, lookup-insert_ne, lookup-insert_self, lookup-erase_self,
}
use browser_cli.Tabs.Records.{BusyState, TabRecord, TabRegistry, ok, raise, busy_tab, tab_not_found}
use browser_cli.Tabs.Registry.{or_else}
use browser_cli.Tabs.Claims.{
  Claim, busy_of, claimed, claimed_tab, claim_record, claim_page, release_tab, check_claim, held_by,
  blocked_by,
}
use browser_cli.Tabs.Owned.{Owns, owned-cases, owned_of_Owns}
use browser_cli.Tabs.Holding.{busy_at, closing_at}

module _ (c : Claim) (p : String) (r : TabRegistry) (tab : TabRecord)
    (o : Owns c.agent_id p r tab) where
  claim_page-free :
      blocked_by c.request_id (or_else tab.closing tab.busy) ≡ none
      → claim_page c p r ≡ ok (claimed_tab c tab, claimed c p tab r)
  unfolding claim_page claim_record
  claim_page-free free = rw (owned_of_Owns tab_not_found c.agent_id p r tab o, free, claim_record)

  pub claim_page-blocked :
      (b : BusyState)
      → blocked_by c.request_id (or_else tab.closing tab.busy) ≡ some b
      → claim_page c p r ≡ raise (busy_tab b)
  unfolding claim_page claim_record
  claim_page-blocked b held =
      rw (owned_of_Owns tab_not_found c.agent_id p r tab o, held, claim_record)

  busy_at-claimed : busy_at p (claimed c p tab r) ≡ some (busy_of c)
  busy_at-claimed = ground (arith, lookup-insert_self p (claimed_tab c tab) r.tabs)

-- The ways in which a claim can end.
abbrev pub ClaimOutcome : Claim → String → TabRegistry → Type 0
ClaimOutcome c p r =
    (claim_page c p r ≡ raise tab_not_found)
    ⊎ ((b : BusyState) × (claim_page c p r ≡ raise (busy_tab b))
        × (b.request_id ≢ c.request_id)
        × ((closing_at p r ≡ some b) ⊎ ((closing_at p r ≡ none) × (busy_at p r ≡ some b))))
    ⊎ ((tab : TabRecord) × (r' : TabRegistry) × (claim_page c p r ≡ ok (tab, r'))
        × (tab.owner_agent_id ≡ c.agent_id)
        × (busy_at p r' ≡ some (busy_of c)))

-- A claim succeeds on the agent's own page, or does not find the page, or says which other request
-- blocks it: the one that is closing the page, or else the one that is working on it.
pub claim_page_outcomes : (c : Claim) (p : String) (r : TabRegistry) → ClaimOutcome c p r
claim_page_outcomes c p r = elim (owned-cases tab_not_found c.agent_id p r) [
  | inl e ↦ inl (unfold claim_page in rw e refl)
  | inr (tab, e, o) ↦ elim (Option-cases (blocked_by c.request_id (or_else tab.closing tab.busy))) [
    | inl free ↦ inr (
        inr (
          claimed_tab c tab,
          claimed c p tab r,
          claim_page-free c p r tab o free,
          o.own,
          busy_at-claimed c p r tab o,
        ))
    | inr (b, held) ↦
        inr (inl (b, claim_page-blocked c p r tab o b held, ground arith, ground (arith, o.there)))
  ]
]

-- What a claim that succeeded has done.
pub record IsClaimed (c : Claim) (p : String) (r r' : TabRegistry) : Type 0 where
  pub was : TabRecord
  pub owns : Owns c.agent_id p r was
  pub free : blocked_by c.request_id (or_else was.closing was.busy) ≡ none
  pub now : r' ≡ claimed c p was r

pub claim_page-IsClaimed :
    (c : Claim) (p : String) (r r' : TabRegistry) (tab : TabRecord)
    → claim_page c p r ≡ ok (tab, r')
    → IsClaimed c p r r'
claim_page-IsClaimed c p r r' tab h = elim (owned-cases tab_not_found c.agent_id p r) [
  | inl e ↦
      absurd (let k : claim_page c p r ≡ raise tab_not_found = unfold claim_page in rw e refl in cc)
  | inr (was, e, o) ↦ elim (Option-cases (blocked_by c.request_id (or_else was.closing was.busy))) [
    | inl free ↦ record {
      was = was;
      owns = o;
      free = free;
      now = cc (claim_page-free c p r was o free);
    }
    | inr (b, held) ↦ absurd (cc (claim_page-blocked c p r was o b held))
  ]
]

-- A result may be used exactly while its request holds the page and the page is not being closed.
pub check_claim_iff :
    (p request : String) (r : TabRegistry)
    → (check_claim p request r ≡ ok tt) ↔ (
        (closing_at p r ≡ none)
        × ((b : BusyState) × (busy_at p r ≡ some b) × (b.request_id ≡ request)))
unfolding check_claim
check_claim_iff p request r = elim (Option-cases (lookup p r.tabs)) [
  | inl n ↦ (λ h. absurd (ground arith), λ h. absurd (ground arith))
  | inr (tab, there) ↦ elim (Option-cases tab.busy) [
    | inl idle ↦ (λ h. absurd (ground arith), λ h. absurd (ground arith))
    | inr (b, held) ↦ (λ h. (ground arith, (b, ground arith, ground arith)), λ h. ground arith)
  ]
]

module _ (c : Claim) (p : String) (r : TabRegistry) (tab : TabRecord) (o : Owns c.agent_id p r tab)
    (not_closing : closing_at p r ≡ none) where
  claimed-check : check_claim p c.request_id (claimed c p tab r) ≡ ok tt
  unfolding check_claim
  claimed-check = ground (arith, o.there, lookup-insert_self p (claimed_tab c tab) r.tabs)

  claimed-refuses :
      (d : Claim)
      → d.agent_id ≡ c.agent_id
      → d.request_id ≢ c.request_id
      → claim_page d p (claimed c p tab r) ≡ raise (busy_tab (busy_of c))
  claimed-refuses d same other =
      claim_page-blocked d p (claimed c p tab r) (claimed_tab c tab)
        (record { there = lookup-insert_self p (claimed_tab c tab) r.tabs; own = o.own ∙ sym same })
        (busy_of c) (ground (arith, o.there))

-- What the release of a claim does.
abbrev released : String → String → TabRecord → TabRegistry → TabRegistry
released p request tab r = record r {
  tabs = insert p (record tab { busy = none }) r.tabs;
  claim_tasks = erase (p, request) r.claim_tasks;
}

release_tab-held :
    (p request : String) (r : TabRegistry) (tab : TabRecord)
    → lookup p r.tabs ≡ some tab
    → held_by request tab.busy ≡ true
    → release_tab p request r ≡ released p request tab r
unfolding release_tab
release_tab-held p request r tab there mine = rw (there, release_tab, mine)

release_tab-idle :
    (p : String) (c : Claim) (was : TabRecord) (r : TabRegistry)
    → busy_at p (released p c.request_id (claimed_tab c was) (claimed c p was r)) ≡ none
release_tab-idle p c was r = ground (
  arith,
  lookup-insert_self p (record (claimed_tab c was) { busy = none })
      (insert p (claimed_tab c was) r.tabs),
)

-- A claim on a page that is not being closed works as a lock. While it lasts the request's result
-- is accepted, and any other request of the agent is refused with the claim as the blocker. Its
-- release frees the page, forgets the task and leaves every other page as it was before the claim.
pub claim_page-release_tab :
    (c d : Claim) (p q : String) (r r' : TabRegistry) (tab : TabRecord)
    → claim_page c p r ≡ ok (tab, r')
    → closing_at p r ≡ none
    → d.agent_id ≡ c.agent_id
    → d.request_id ≢ c.request_id
    → q ≢ p
    → (check_claim p c.request_id r' ≡ ok tt)
      × (claim_page d p r' ≡ raise (busy_tab (busy_of c)))
      × (busy_at p (release_tab p c.request_id r') ≡ none)
      × (lookup (p, c.request_id) (release_tab p c.request_id r').claim_tasks ≡ none)
      × (lookup q (release_tab p c.request_id r').tabs ≡ lookup q r.tabs)
claim_page-release_tab c d p q r r' tab h not_closing same other n =
    let k = claim_page-IsClaimed c p r r' tab h in
    let there = lookup-insert_self p (claimed_tab c k.was) r.tabs in
    let free =
      release_tab-held p c.request_id (claimed c p k.was r) (claimed_tab c k.was) there
        (ground arith) in
    rw k.now (
      claimed-check c p r k.was k.owns not_closing,
      claimed-refuses c p r k.was k.owns not_closing d same other,
      rw free (release_tab-idle p c k.was r),
      rw free (lookup-erase_self (p, c.request_id) _),
      rw free (lookup-insert_ne q p _ _ n ∙ lookup-insert_ne q p _ _ n),
    )
