-- ===== src/Daemon/Runs/Records.antt =====
-- The data of daemon/run_registry.py.
use browser_cli.Prelude.{String, ℕ, List, [], Option, Bool, true, false}
use browser_cli.Dict.{Dict}

pub data RunStatus : Type 0 where
  queued running cancel_requested succeeded failed canceled : RunStatus

-- `status in TERMINAL_STATUSES`
abbrev pub is_terminal : RunStatus → Bool
is_terminal succeeded = true
is_terminal failed = true
is_terminal canceled = true
is_terminal queued = false
is_terminal running = false
is_terminal cancel_requested = false

pub record RunEvent : Type 0 where
  pub moment : ℕ
  pub event : String
  pub message : String

-- `error_code` is there for a `BrowserCliError` only.
pub record RunError : Type 0 where
  pub error_code : Option String
  pub message : String
  pub type_name : String

pub record RunRecord (D : Type 0) : Type 0 where
  pub run_id : ℕ
  pub status : RunStatus
  pub created_at : ℕ
  pub updated_at : ℕ
  pub args : D
  pub events : List RunEvent
  pub result : Option D
  pub error : Option RunError
  pub meta : Option D

-- The asyncio task of a run: it has not entered the browser's scope yet, it has, its coroutine has
-- ended but its callback has not run yet, or that has run too. `true`: the task was cancelled.
pub data TaskState : Type 0 where
  waiting working : TaskState
  finished settled : Bool → TaskState

-- `not task.done()`
abbrev pub is_active : TaskState → Bool
is_active waiting = true
is_active working = true
is_active (finished _) = false
is_active (settled _) = false

pub record Registry (D : Type 0) : Type 0 where
  pub max_completed_runs : ℕ
  pub counter : ℕ
  pub runs : Dict ℕ (RunRecord D)
  pub tasks : Dict ℕ TaskState

abbrev pub empty : {D : Type 0} → ℕ → Registry D
empty max_completed_runs = record {
  max_completed_runs = max_completed_runs;
  counter = 0;
  runs = [];
  tasks = [];
}

-- How the coroutine of a run ends. A run that is cancelled or fails may have its result already, if
-- that happens in the handler that ends the command.
pub data Outcome (D : Type 0) : Type 0 where
  completes : D → Option D → Outcome D
  cancels : Option D → Option D → Outcome D
  fails : RunError → Option D → Option D → Outcome D

-- What happens to the registry: the calls of clients, and the turns of the tasks of the runs. A task
-- that `drops` is cancelled before its first turn; `settles` is the callback of a task.
pub data Input (D : Type 0) : Type 0 where
  starts : ℕ → D → Input D
  cancels_run enters settles : ℕ → ℕ → Input D
  ends : ℕ → ℕ → Outcome D → Input D
  drops : ℕ → Input D
