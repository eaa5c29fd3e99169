-- ===== src/Daemon/Runs/Eviction.antt =====
-- daemon/run_registry.py: which runs eviction keeps, and how many.
use browser_cli.Prelude.{
  sym, ℕ, ◌≤◌, ◌≡◌, ◌≢◌, ◌⊎◌, inl, inr, refl, List, [], ◌∷◌, none, some, true, false, leb, length,
  select, All, arith, nat_eq, Bool-cases, Option-cases, ◌∙◌, ap, select-All, leb→le, In, select-In,
  All-In,
}
use browser_cli.Prelude.Sort.{sort, sort-All, sort-In}
use browser_cli.Dict.{
  lookup, values, values-All, lookup-erase, lookup-erase_ne, lookup-erase_self, values-In,
  erase-cases,
}
use browser_cli.Daemon.Runs.Records.{RunRecord, Registry}
use browser_cli.Daemon.Runs.Registry.{
  evictable, evict_loop, evict_completed_runs, forget, by_created,
}
use browser_cli.Daemon.Runs.WellFormed.{IsWf}

module _ {D : Type 0} where
  -- What is still remembered was remembered before, and its task is as it was.
  evict_loop-found :
      (rs : List (RunRecord D)) (reg : Registry D) (i : ℕ) (r : RunRecord D)
      → lookup i (evict_loop rs reg).runs ≡ some r
      → (lookup i reg.runs ≡ some r) × (lookup i (evict_loop rs reg).tasks ≡ lookup i reg.tasks)
  unfolding evict_loop
  evict_loop-found [] reg i r h = (h, refl)
  evict_loop-found (x ∷ rs) reg i r h =
      elim (Bool-cases (leb (length reg.runs) reg.max_completed_runs)) [
        | inl e ↦ rw e (rw e at h, refl)
        | inr e ↦
            let (there, same) = evict_loop-found rs (forget x.run_id reg) i r (rw e at h) in
            let (n, before) = erase-cases i x.run_id r reg.runs there in
            rw e (before, same ∙ lookup-erase_ne i x.run_id reg.tasks n)
      ]

  pub evict-found :
      (reg : Registry D) (i : ℕ) (r : RunRecord D)
      → lookup i (evict_completed_runs reg).runs ≡ some r
      → lookup i reg.runs ≡ some r
  unfolding evict_completed_runs
  evict-found reg i r h = elim (Bool-cases (leb (length reg.runs) reg.max_completed_runs)) [
    | inl e ↦ rw e at h
    | inr e ↦ (evict_loop-found _ reg i r (rw e at h)).0
  ]

  -- A run is evicted, or it is as it was, and so is its task.
  pub evict-or_same :
      (reg : Registry D) (i : ℕ) (r : RunRecord D)
      → lookup i reg.runs ≡ some r
      → (lookup i (evict_completed_runs reg).runs ≡ none)
        ⊎ ((lookup i (evict_completed_runs reg).runs ≡ some r)
            × (lookup i (evict_completed_runs reg).tasks ≡ lookup i reg.tasks))
  unfolding evict_completed_runs
  evict-or_same reg i r h = elim (Bool-cases (leb (length reg.runs) reg.max_completed_runs)) [
    | inl e ↦ rw e (inr (h, refl))
    | inr e ↦ rw e (elim (Option-cases (lookup i (evict_loop _ reg).runs)) [
      | inl gone ↦ inl gone
      | inr (x, found) ↦
          let (before, same) = evict_loop-found _ reg i x found in
          inr (found ∙ sym before ∙ h, same)
    ])
  ]

  -- A run that is not among the candidates is kept.
  evict_loop-kept :
      (rs : List (RunRecord D)) (reg : Registry D) (i : ℕ) (r : RunRecord D)
      → All (λ x. i ≢ x.run_id) rs
      → lookup i reg.runs ≡ some r
      → lookup i (evict_loop rs reg).runs ≡ some r
  unfolding evict_loop
  evict_loop-kept [] reg i r _ h = h
  evict_loop-kept (x ∷ rs) reg i r (n, ns) h =
      elim (Bool-cases (leb (length reg.runs) reg.max_completed_runs)) [
        | inl e ↦ rw e h
        | inr e ↦ rw e (
            evict_loop-kept rs (forget x.run_id reg) i r ns
              (lookup-erase_ne i x.run_id reg.runs n ∙ h))
      ]

  forgotten_stays :
      (rs : List (RunRecord D)) (reg : Registry D) (i : ℕ)
      → lookup i reg.runs ≡ none
      → lookup i (evict_loop rs reg).runs ≡ none
  unfolding evict_loop
  forgotten_stays [] reg i h = h
  forgotten_stays (x ∷ rs) reg i h =
      elim (Bool-cases (leb (length reg.runs) reg.max_completed_runs)) [
        | inl e ↦ rw e h
        | inr e ↦ rw e (
            forgotten_stays rs (forget x.run_id reg) i
              (ground (arith, lookup-erase i x.run_id reg.runs)))
      ]

  unfoldable Dropped : Registry D → List (RunRecord D) → Type 0
  Dropped reg rs = All (λ x. lookup x.run_id reg.runs ≡ none) rs

  Dropped-nil : (reg : Registry D) → Dropped reg []
  unfolding Dropped
  Dropped-nil reg = tt

  Dropped-cons :
      (x : RunRecord D) (rs : List (RunRecord D)) (reg : Registry D)
      → lookup x.run_id reg.runs ≡ none
      → Dropped reg rs
      → Dropped reg (x ∷ rs)
  unfolding Dropped
  Dropped-cons x rs reg h hs = (h, hs)

  Dropped-In :
      (x : RunRecord D) (rs : List (RunRecord D)) (reg : Registry D)
      → Dropped reg rs
      → In x rs
      → lookup x.run_id reg.runs ≡ none
  unfolding Dropped
  Dropped-In x rs reg = All-In (λ x. lookup x.run_id reg.runs ≡ none) x rs

  -- The loop stops at the bound, or it has dropped every candidate.
  evict_loop-bound :
      (rs : List (RunRecord D)) (reg : Registry D)
      → (length (evict_loop rs reg).runs ≤ reg.max_completed_runs) ⊎ Dropped (evict_loop rs reg) rs
  unfolding evict_loop
  evict_loop-bound [] reg = inr (Dropped-nil reg)
  evict_loop-bound (x ∷ rs) reg = elim (Bool-cases (leb (length reg.runs) reg.max_completed_runs)) [
    | inl e ↦ rw e (inl (leb→le _ _ e))
    | inr e ↦ rw e (elim (evict_loop-bound rs (forget x.run_id reg)) [
      | inl b ↦ inl b
      | inr all ↦ inr (
          Dropped-cons x rs _
            (forgotten_stays rs (forget x.run_id reg) x.run_id
              (lookup-erase_self x.run_id reg.runs))
            all)
    ])
  ]

  -- At the bound, or every run that is left is still queued, working or not finished.
  abbrev pub IsTight : Registry D → Registry D → Type 0
  IsTight reg reg' =
      (length reg'.runs ≤ reg.max_completed_runs)
      ⊎ ((i : ℕ) (r : RunRecord D) → lookup i reg'.runs ≡ some r → evictable reg r ≡ false)

  loop-IsTight :
      (reg : Registry D)
      → IsWf reg
      → IsTight reg (evict_loop (sort by_created (select (evictable reg) (values reg.runs))) reg)
  loop-IsTight reg w =
      elim (evict_loop-bound (sort by_created (select (evictable reg) (values reg.runs))) reg) [
        | inl b ↦ inl b
        | inr all ↦ inr (λ i r h. elim (Bool-cases (evictable reg r)) [
          | inr e ↦ e
          | inl e ↦
              let (there, _) = evict_loop-found _ reg i r h in
              let gone =
                Dropped-In r _ _ all
                  (sort-In _ r _ (select-In _ r _ e (values-In i r reg.runs there))) in
              let k = w.each i r there in absurd (ground arith)
        ])
      ]

  -- Eviction reaches its bound, or no run that is left could be evicted.
  pub evict-IsTight : (reg : Registry D) → IsWf reg → IsTight reg (evict_completed_runs reg)
  unfolding evict_completed_runs
  evict-IsTight reg w = elim (Bool-cases (leb (length reg.runs) reg.max_completed_runs)) [
    | inl e ↦ rw e (inl (leb→le _ _ e))
    | inr e ↦ rw e (loop-IsTight reg w)
  ]

  others :
      (reg : Registry D) (i : ℕ) (r : RunRecord D)
      → lookup i reg.runs ≡ some r
      → evictable reg r ≡ false
      → (xs : List (RunRecord D))
      → All (λ x. (lookup x.run_id reg.runs ≡ some x) × (evictable reg x ≡ true)) xs
      → All (λ x. i ≢ x.run_id) xs
  others reg i r h busy [] _ = tt
  others reg i r h busy (x ∷ xs) ((there, free), ps) =
      (λ e. absurd (ground arith), others reg i r h busy xs ps)

  -- A run that is not finished, or whose task is not done, is never evicted.
  pub evict-keeps :
      (reg : Registry D) (i : ℕ) (r : RunRecord D)
      → IsWf reg
      → lookup i reg.runs ≡ some r
      → evictable reg r ≡ false
      → lookup i (evict_completed_runs reg).runs ≡ some r
  unfolding evict_completed_runs
  evict-keeps reg i r w h busy = elim (Bool-cases (leb (length reg.runs) reg.max_completed_runs)) [
    | inl e ↦ rw e h
    | inr e ↦ rw e (
        evict_loop-kept _ reg i r
          (others reg i r h busy _ (
            sort-All _ _ _ (
              select-All _ _ _ (
                values-All _ reg.runs w.distinct
                  (λ k v there. ap (λ j. lookup j reg.runs) (w.each k v there).keyed ∙ there)))))
          h)
  ]
