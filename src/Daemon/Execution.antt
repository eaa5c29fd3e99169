-- ===== src/Daemon/Execution.antt =====
-- daemon/execution.py: `BrowserExecutionCoordinator`. Its fields are only touched under the lock of
-- the condition, so a task changes them in three steps: it arrives and waits, it passes the test of
-- its `wait_for` and enters (or is cancelled and gives up), and it leaves.
pub mod Exclusion
mod Examples
use browser_cli.Prelude.{
  ℕ, ◌+◌, ◌-◌, ◌<◌, ◌≡◌, Option, none, some, Bool, true, false, not, ◌&&◌, ◌||◌, ltb, if◌then◌else◌,
  ◌==◌, nat_eq,
}

pub data Mode : Type 0 where
  shared batch exclusive cleanup : Mode

pub record Coordinator : Type 0 where
  pub active : ℕ
  pub exclusive_waiters : ℕ
  pub exclusive_mode : Option Mode

abbrev pub init : Coordinator
init = record { active = 0; exclusive_waiters = 0; exclusive_mode = none }

-- `mode in {"batch", "exclusive"}`
abbrev pub is_exclusive : Mode → Bool
is_exclusive batch = true
is_exclusive exclusive = true
is_exclusive shared = false
is_exclusive cleanup = false

-- `self._exclusive_mode in {None, "batch"}`, and `self._exclusive_mode is None`
abbrev pub none_or_batch : Option Mode → Bool
none_or_batch none = true
none_or_batch (some batch) = true
none_or_batch (some shared) = false
none_or_batch (some exclusive) = false
none_or_batch (some cleanup) = false

abbrev pub is_none : Option Mode → Bool
is_none none = true
is_none (some _) = false

unfoldable pub arrive : Mode → Coordinator → Coordinator
arrive mode c =
    if is_exclusive mode then record c { exclusive_waiters = c.exclusive_waiters + 1 } else c

-- The test that the task waits for.
unfoldable pub may_enter : Mode → Coordinator → Bool
may_enter batch c = c.active == 0
may_enter exclusive c = c.active == 0
may_enter cleanup c = none_or_batch c.exclusive_mode
may_enter shared c = is_none c.exclusive_mode && c.exclusive_waiters == 0

unfoldable pub enter : Mode → Coordinator → Coordinator
enter mode c =
    if is_exclusive mode
    then record {
      active = c.active + 1;
      exclusive_waiters = c.exclusive_waiters - 1;
      exclusive_mode = some mode;
    }
    else record c { active = c.active + 1 }

-- A cancellation during the wait: the `finally` of an exclusive waiter.
unfoldable pub give_up : Mode → Coordinator → Coordinator
give_up mode c =
    if is_exclusive mode then record c { exclusive_waiters = c.exclusive_waiters - 1 } else c

unfoldable pub leave : Mode → Coordinator → Coordinator
leave mode c =
    if is_exclusive mode
    then record c { active = c.active - 1; exclusive_mode = none }
    else record c { active = c.active - 1 }

-- How many tasks there are of each mode.
pub record Tasks : Type 0 where
  pub shared_count : ℕ
  pub batch_count : ℕ
  pub exclusive_count : ℕ
  pub cleanup_count : ℕ

abbrev pub count : Mode → Tasks → ℕ
count shared t = t.shared_count
count batch t = t.batch_count
count exclusive t = t.exclusive_count
count cleanup t = t.cleanup_count

abbrev pub total : Tasks → ℕ
total t = t.shared_count + t.batch_count + t.exclusive_count + t.cleanup_count

abbrev pub add : Mode → Tasks → Tasks
add shared t = record t { shared_count = t.shared_count + 1 }
add batch t = record t { batch_count = t.batch_count + 1 }
add exclusive t = record t { exclusive_count = t.exclusive_count + 1 }
add cleanup t = record t { cleanup_count = t.cleanup_count + 1 }

abbrev pub remove : Mode → Tasks → Tasks
remove shared t = record t { shared_count = t.shared_count - 1 }
remove batch t = record t { batch_count = t.batch_count - 1 }
remove exclusive t = record t { exclusive_count = t.exclusive_count - 1 }
remove cleanup t = record t { cleanup_count = t.cleanup_count - 1 }

-- The coordinator, the tasks that wait in `scope` and those in its body.
pub record System : Type 0 where
  pub coordinator : Coordinator
  pub waiting : Tasks
  pub inside : Tasks

abbrev pub nobody : Tasks
nobody = record { shared_count = 0; batch_count = 0; exclusive_count = 0; cleanup_count = 0 }

abbrev pub start : System
start = record { coordinator = init; waiting = nobody; inside = nobody }

abbrev pub arrived : Mode → System → System
arrived mode s = record s { coordinator = arrive mode s.coordinator; waiting = add mode s.waiting }

abbrev pub entered : Mode → System → System
entered mode s = record {
  coordinator = enter mode s.coordinator;
  waiting = remove mode s.waiting;
  inside = add mode s.inside;
}

abbrev pub gone : Mode → System → System
gone mode s = record s { coordinator = give_up mode s.coordinator; waiting = remove mode s.waiting }

abbrev pub left : Mode → System → System
left mode s = record s { coordinator = leave mode s.coordinator; inside = remove mode s.inside }

-- One step of any task. Which task comes next is up to the event loop.
pub data Step (s : System) : System → Type 0 where
  arrives : (mode : Mode) → Step s (arrived mode s)
  enters :
      (mode : Mode)
      → 0 < count mode s.waiting
      → may_enter mode s.coordinator ≡ true
      → Step s (entered mode s)
  gives_up : (mode : Mode) → 0 < count mode s.waiting → Step s (gone mode s)
  leaves : (mode : Mode) → 0 < count mode s.inside → Step s (left mode s)

pub data Reach : System → Type 0 where
  here : Reach start
  next : {s t : System} → Reach s → Step s t → Reach t
