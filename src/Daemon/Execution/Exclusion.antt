-- ===== src/Daemon/Execution/Exclusion.antt =====
-- What holds in every reachable state of the coordinator and its tasks.
use native.Mathlib.Decide.{dec_lt}
use browser_cli.Prelude.{◌↔◌, ◌+◌, ◌<◌, ◌≡◌, ◌⊎◌, refl, Option, none, some, true, arith, nat_eq}
use browser_cli.Daemon.Execution.{
  Mode, shared, batch, exclusive, cleanup, may_enter, arrive, enter, give_up, leave, Tasks, count,
  total, System, start, Step, arrives, enters, gives_up, leaves, Reach, here, next,
}

-- Who may be inside together with the mode that is noted.
abbrev pub Allows : Option Mode → Tasks → Type 0
Allows none t = (t.batch_count ≡ 0) × (t.exclusive_count ≡ 0)
Allows (some batch) t = (t.batch_count ≡ 1) × (t.exclusive_count ≡ 0) × (t.shared_count ≡ 0)
Allows (some exclusive) t =
    (t.exclusive_count ≡ 1) × (t.batch_count ≡ 0) × (t.shared_count ≡ 0) × (t.cleanup_count ≡ 0)
Allows (some shared) t = ⊥
Allows (some cleanup) t = ⊥

pub record IsConsistent (s : System) : Type 0 where
  pub active : s.coordinator.active ≡ total s.inside
  pub waiters : s.coordinator.exclusive_waiters ≡ s.waiting.batch_count + s.waiting.exclusive_count
  pub mode : Allows s.coordinator.exclusive_mode s.inside

start-IsConsistent : IsConsistent start
start-IsConsistent = record { active = refl; waiters = refl; mode = (refl, refl) }

Step-IsConsistent : {s t : System} → Step s t → IsConsistent s → IsConsistent t
unfolding arrive enter give_up leave may_enter nat_eq
Step-IsConsistent (arrives mode) h = ground arith
Step-IsConsistent (enters mode w m) h = ground arith
Step-IsConsistent (gives_up mode w) h = ground arith
Step-IsConsistent (leaves mode w) h = ground arith

pub Reach-IsConsistent : {s : System} → Reach s → IsConsistent s
Reach-IsConsistent here = start-IsConsistent
Reach-IsConsistent (next r st) = Step-IsConsistent st (Reach-IsConsistent r)

-- In every reachable state an exclusive task is alone inside, and beside a batch there is neither
-- another batch nor shared work: only cleanup.
pub exclusion :
    {s : System}
    → Reach s
    → ((s.inside.exclusive_count ≡ 0) ⊎ (total s.inside ≡ 1))
      × ((s.inside.batch_count ≡ 0)
          ⊎ ((s.inside.batch_count ≡ 1)
              × (s.inside.exclusive_count ≡ 0)
              × (s.inside.shared_count ≡ 0)))
exclusion {s} r = let h = Reach-IsConsistent r in ground (arith, h.mode, h.active)

-- Shared work enters only while no batch and no exclusive task is inside or waits to enter: new
-- shared work does not starve them.
pub exclusive_first :
    {s : System}
    → Reach s
    → may_enter shared s.coordinator ≡ true
    → (s.waiting.batch_count + s.waiting.exclusive_count ≡ 0)
      × (s.inside.batch_count + s.inside.exclusive_count ≡ 0)
unfolding may_enter nat_eq
exclusive_first {s} r h = let k = Reach-IsConsistent r in ground (arith, k.mode, k.waiters)

-- Cleanup may enter exactly while no exclusive task is inside, also beside a batch.
pub cleanup_iff :
    {s : System}
    → Reach s
    → (may_enter cleanup s.coordinator ≡ true) ↔ (s.inside.exclusive_count ≡ 0)
unfolding may_enter
cleanup_iff {s} r = let k = Reach-IsConsistent r in ground (arith, k.mode)

-- No deadlock: while nobody is inside and somebody waits, some task that waits may enter.
pub progress :
    {s : System}
    → Reach s
    → total s.inside ≡ 0
    → 0 < total s.waiting
    → (mode : Mode) × (0 < count mode s.waiting) × (may_enter mode s.coordinator ≡ true)
unfolding may_enter nat_eq
progress {s} r idle busy =
    let k = Reach-IsConsistent r in
    elim (dec_lt 0 s.waiting.batch_count) [
      | yes b ↦ (batch, b, ground (arith, k.active))
      | no nb ↦ elim (dec_lt 0 s.waiting.exclusive_count) [
        | yes e ↦ (exclusive, e, ground (arith, k.active))
        | no ne ↦ elim (dec_lt 0 s.waiting.shared_count) [
          | yes h ↦ (shared, h, ground (arith, k.mode, k.waiters))
          | no nh ↦ (cleanup, ground arith, ground (arith, k.mode))
        ]
      ]
    ]
