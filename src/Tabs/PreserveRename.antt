-- ===== src/Tabs/PreserveRename.antt =====
-- `replace_tab_ids` and the calls on all tabs at once.
use mathlib.Core.Option
use browser_cli.Prelude.{
  String, ◌≡◌, ◌≢◌, ◌⊎◌, inl, inr, refl, none, some, arith, string_eq, Option-cases, ◌∙◌, sym, [],
  ◌∷◌, ap,
}
use browser_cli.Dict.{
  Dict, lookup, NodupKeys, insert-NodupKeys, insert-cases, lookup-insert_self, lookup-insert_ne,
}
use browser_cli.Tabs.Records.{TabRecord, TabRegistry}
use browser_cli.Tabs.Registry.{
  renamed, rename_tabs, rename_active, replace_tab_ids, forget_snapshots, clear_snapshot_state,
  clear, without_snapshot,
}
use browser_cli.Tabs.Invariant.{IsTab, IsWf}

abbrev pub with_id : String → TabRecord → TabRecord
with_id page_id tab = record tab { page_id = page_id }

abbrev pub Map {ℓ} : Type ℓ → Type ℓ
Map V = Dict String V

lookup-tail :
    (k : String) (v : TabRecord) (d : Map TabRecord) (p : String) (tab : TabRecord)
    → lookup k d ≡ none
    → lookup p d ≡ some tab
    → lookup p ((k, v) ∷ d) ≡ some tab
unfolding lookup
lookup-tail k v d p tab fresh there = ground arith

module _ (reps : Map String) where
  -- Distinct pages get distinct ids.
  abbrev pub Injective : Map TabRecord → Type 0
  Injective d =
      (p q : String) (s t : TabRecord)
      → lookup p d ≡ some s
      → lookup q d ≡ some t
      → renamed reps p ≡ renamed reps q
      → p ≡ q

  rename_tabs-NodupKeys :
      (d new : Map TabRecord) → NodupKeys new → NodupKeys (rename_tabs reps d new)
  unfolding rename_tabs
  rename_tabs-NodupKeys [] new h = h
  rename_tabs-NodupKeys ((old, tab) ∷ d) new h =
      rename_tabs-NodupKeys d _
        (insert-NodupKeys (renamed reps old) (with_id (renamed reps old) tab) new h)

  -- A page that is there afterwards was there before, under the id that was replaced.
  rename_tabs-found :
      (d new : Map TabRecord) (q : String) (tab : TabRecord)
      → NodupKeys d
      → lookup q (rename_tabs reps d new) ≡ some tab
      → (lookup q new ≡ some tab)
        ⊎ ((p : String) × (t : TabRecord) × (lookup p d ≡ some t)
            × (q ≡ renamed reps p)
            × (tab ≡ with_id q t))
  unfolding rename_tabs
  rename_tabs-found [] new q tab _ h = inl h
  rename_tabs-found ((old, t) ∷ d) new q tab (fresh, u) h = elim (rename_tabs-found d _ q tab u h) [
    | inr (p, s, there, e, same) ↦ inr (p, s, lookup-tail old t d p s fresh there, e, same)
    | inl now ↦ elim (insert-cases q _ _ tab new now) [
      | inl (e, same) ↦
          inr (old, t, unfold lookup in ground arith, e, sym same ∙ ap (λ i. with_id i t) (sym e))
      | inr (_, before) ↦ inl before
    ]
  ]

  rename_tabs-kept :
      (d new : Map TabRecord) (q : String)
      → NodupKeys d
      → ((p : String) (t : TabRecord) → lookup p d ≡ some t → q ≢ renamed reps p)
      → lookup q (rename_tabs reps d new) ≡ lookup q new
  unfolding rename_tabs
  rename_tabs-kept [] new q _ _ = refl
  rename_tabs-kept ((old, t) ∷ d) new q (fresh, u) other =
      rename_tabs-kept d _ q u (λ p s there. other p s (lookup-tail old t d p s fresh there))
      ∙ lookup-insert_ne q _ _ new (other old t (unfold lookup in ground arith))

  -- Every page is found under its new id, with nothing else changed.
  pub rename_tabs-lookup :
      (d new : Map TabRecord) (p : String) (tab : TabRecord)
      → NodupKeys d
      → Injective d
      → lookup p d ≡ some tab
      → lookup (renamed reps p) (rename_tabs reps d new) ≡ some (with_id (renamed reps p) tab)
  unfolding rename_tabs
  rename_tabs-lookup [] new p tab _ _ h = absurd (unfold lookup in ground arith)
  rename_tabs-lookup ((old, t) ∷ d) new p tab (fresh, u) inj h =
      let in_tail = λ (q : String) (s : TabRecord). lookup-tail old t d q s fresh in
      let first : lookup old ((old, t) ∷ d) ≡ some t = unfold lookup in ground arith in
      elim (string_eq.dec p old) [
        | yes e ↦
            let same : t ≡ tab = unfold lookup in ground arith in
            rw (e, ← same)
              (rename_tabs-kept d _ (renamed reps old) u (λ q s there back. cc (
                fresh,
                there,
                ap (λ i. lookup i d) (inj old q t s first (in_tail q s there) back),
              ))
                ∙ lookup-insert_self _ _ new)
        | no n ↦
            rename_tabs-lookup d _ p tab u
              (λ q r s t' a b. inj q r s t' (in_tail q s a) (in_tail r t' b))
              (unfold lookup in ground arith)
      ]

  lookup-rename_active :
      (d : Map String) (a p : String)
      → lookup a (rename_active reps d) ≡ some p
      → (q : String) × (lookup a d ≡ some q) × (p ≡ renamed reps q)
  unfolding rename_active lookup
  lookup-rename_active [] a p h = absurd (ground arith)
  lookup-rename_active ((b, q) ∷ d) a p h = elim (string_eq.dec a b) [
    | yes e ↦ (q, ground arith, ground arith)
    | no n ↦ let (q', there, e) = lookup-rename_active d a p (ground arith) in (q', ground arith, e)
  ]

module _ (reps : Map String) (r : TabRegistry) (w : IsWf r) where
  replaced-each :
      (q : String) (tab : TabRecord)
      → lookup q (rename_tabs reps r.tabs []) ≡ some tab
      → IsTab q tab
  replaced-each q tab h = elim (rename_tabs-found reps r.tabs [] q tab w.distinct h) [
    | inl none' ↦ absurd (unfold lookup in ground arith)
    | inr (p, t, there, e, same) ↦
        let was = w.each p t there in
        rw same
          (record { keyed = refl; busy_owner = was.busy_owner; closing_owner = was.closing_owner })
  ]

  renamed-IsWf :
      Injective reps r.tabs
      → IsWf (record r {
        tabs = rename_tabs reps r.tabs [];
        active_tab_by_agent = rename_active reps r.active_tab_by_agent;
      })
  renamed-IsWf inj = record {
    distinct = rename_tabs-NodupKeys reps r.tabs [] tt;
    each = replaced-each;
    active = λ a p h.
        let (q, before, e) = lookup-rename_active reps r.active_tab_by_agent a p h in
        let (tab, there, own) = w.active a q before in
        rw e (
          with_id (renamed reps q) tab,
          rename_tabs-lookup reps r.tabs [] q tab w.distinct inj there,
          own,
        );
  }

pub replace_tab_ids-IsWf :
    (reps : Map String) (r : TabRegistry)
    → IsWf r
    → Injective reps r.tabs
    → IsWf (replace_tab_ids reps r)
unfolding replace_tab_ids
replace_tab_ids-IsWf [] r w _ = w
replace_tab_ids-IsWf (x ∷ reps) r w inj = renamed-IsWf (x ∷ reps) r w inj

pub lookup-forget_snapshots :
    (d : Map TabRecord) (p : String)
    → lookup p (forget_snapshots d) ≡ Option.map without_snapshot (lookup p d)
unfolding forget_snapshots lookup
lookup-forget_snapshots [] p = refl
lookup-forget_snapshots ((q, t) ∷ d) p = ground (arith, lookup-forget_snapshots d p)

forget_snapshots-NodupKeys : (d : Map TabRecord) → NodupKeys d → NodupKeys (forget_snapshots d)
unfolding forget_snapshots
forget_snapshots-NodupKeys [] h = tt
forget_snapshots-NodupKeys ((q, t) ∷ d) (fresh, u) =
    (ground (arith, lookup-forget_snapshots d q), forget_snapshots-NodupKeys d u)

forgotten :
    (d : Map TabRecord) (p : String) (tab : TabRecord)
    → lookup p (forget_snapshots d) ≡ some tab
    → (t : TabRecord) × (lookup p d ≡ some t) × (tab ≡ without_snapshot t)
forgotten d p tab h = elim (Option-cases (lookup p d)) [
  | inl n ↦ absurd (ground (arith, lookup-forget_snapshots d p))
  | inr (t, e) ↦ (t, e, ground (arith, lookup-forget_snapshots d p))
]

pub clear_snapshot_state-IsWf : (r : TabRegistry) → IsWf r → IsWf (clear_snapshot_state r)
unfolding clear_snapshot_state
clear_snapshot_state-IsWf r w = record {
  distinct = forget_snapshots-NodupKeys r.tabs w.distinct;
  each = λ p tab h.
      let (t, there, same) = forgotten r.tabs p tab h in
      let was = w.each p t there in
      rw same (record {
        keyed = was.keyed;
        busy_owner = was.busy_owner;
        closing_owner = was.closing_owner;
      });
  active = λ a p h.
      let (tab, there, own) = w.active a p h in
      (
        without_snapshot tab,
        lookup-forget_snapshots r.tabs p ∙ ap (Option.map without_snapshot) there,
        own,
      );
}

pub clear-IsWf : (r : TabRegistry) → IsWf (clear r)
unfolding clear lookup
clear-IsWf r = record { distinct = tt; each = λ p tab h. cc; active = λ a p h. cc }
