-- ===== src/Daemon/Runs/Registry.antt =====
-- The methods of `CommandRunRegistry`, and the steps of the tasks that it starts.
use browser_cli.Prelude.{
  String, ℕ, ◌+◌, ◌-◌, List, [], ◌∷◌, ◌++◌, Option, none, some, Bool, true, false, not, ◌&&◌, leb,
  length, select, drop, ◌==◌, nat_eq, if◌then◌else◌,
}
use browser_cli.Prelude.Sort.{sort}
use browser_cli.Dict.{lookup, insert, erase, values}
use browser_cli.Daemon.Runs.Records.{
  RunStatus, queued, running, cancel_requested, succeeded, failed, canceled, is_terminal, RunEvent,
  RunError, RunRecord, TaskState, waiting, working, finished, settled, is_active, Registry, Outcome,
  completes, cancels, fails, Input, starts, cancels_run, enters, settles, drops, ends,
}

-- What `status`, `logs` and `cancel` answer; `none` is "not_found".
pub record RunView (D : Type 0) : Type 0 where
  pub run_id : ℕ
  pub status : RunStatus
  pub created_at : ℕ
  pub updated_at : ℕ
  pub result : Option D
  pub error : Option RunError
  pub meta : Option D

-- `_task_is_active`
abbrev pub active_task : Option TaskState → Bool
active_task none = false
active_task (some t) = is_active t

-- `list(record["events"])[-tail:]`
abbrev pub last_events : ℕ → List RunEvent → List RunEvent
last_events tail events = drop (length events - tail) events

module _ {D : Type 0} where
  -- `_event`
  abbrev pub add_event : ℕ → String → String → RunRecord D → RunRecord D
  add_event now event message r = record r {
    updated_at = now;
    events = r.events ++ (record { moment = now; event = event; message = message }) ∷ [];
  }

  unfoldable pub task_is_active : Registry D → ℕ → Bool
  task_is_active reg run_id = active_task (lookup run_id reg.tasks)

  unfoldable pub evictable : Registry D → RunRecord D → Bool
  evictable reg r = is_terminal r.status && not (task_is_active reg r.run_id)

  abbrev pub by_created : RunRecord D → RunRecord D → Bool
  by_created x y = leb x.created_at y.created_at

  abbrev pub forget : ℕ → Registry D → Registry D
  forget run_id reg = record reg { runs = erase run_id reg.runs; tasks = erase run_id reg.tasks }

  -- The loop over the sorted candidates. The event "evicted" goes to a record that is dropped in the
  -- same round, and a candidate's task is done, so there is nothing to cancel.
  unfoldable pub evict_loop : List (RunRecord D) → Registry D → Registry D
  evict_loop [] reg = reg
  evict_loop (r ∷ rest) reg =
      let less = evict_loop rest (forget r.run_id reg) in
      if leb (length reg.runs) reg.max_completed_runs then reg else less

  -- `_evict_completed_runs`
  unfoldable pub evict_completed_runs : Registry D → Registry D
  evict_completed_runs reg =
      if leb (length reg.runs) reg.max_completed_runs
      then reg
      else evict_loop (sort by_created (select (evictable reg) (values reg.runs))) reg

  unfoldable pub status : ℕ → Registry D → Option (RunView D)
  status run_id reg = elim (lookup run_id reg.runs) [
    | none ↦ none
    | some r ↦ some (record {
      run_id = r.run_id;
      status = r.status;
      created_at = r.created_at;
      updated_at = r.updated_at;
      result = r.result;
      error = r.error;
      meta = r.meta;
    })
  ]

  abbrev pub new_run : ℕ → ℕ → D → RunRecord D
  new_run now run_id args = add_event now "queued" "Read run queued." (record {
    run_id = run_id;
    status = queued;
    created_at = now;
    updated_at = now;
    args = args;
    events = [];
    result = none;
    error = none;
    meta = none;
  })

  abbrev pub with_run : ℕ → D → Registry D → Registry D
  with_run now args reg =
      let run_id = reg.counter + 1 in
      record reg {
        counter = run_id;
        runs = insert run_id (new_run now run_id args) reg.runs;
        tasks = insert run_id waiting reg.tasks;
      }

  unfoldable pub start_read : ℕ → D → Registry D → Option (RunView D) × Registry D
  start_read now args reg =
      let reg' = evict_completed_runs (with_run now args reg) in
      (status (reg.counter + 1) reg', reg')

  unfoldable pub logs : ℕ → ℕ → Registry D → Option (RunStatus × List RunEvent)
  logs run_id tail reg = elim (lookup run_id reg.runs) [
    | none ↦ none
    | some r ↦ some (r.status, if tail == 0 then [] else last_events tail r.events)
  ]

  abbrev pub put_run : ℕ → RunRecord D → Registry D → Registry D
  put_run run_id r reg = record reg { runs = insert run_id r reg.runs }

  -- The answer is the status and `cancel_requested`. `task.cancel()` only asks: what the task makes of
  -- it is an `Outcome` later.
  unfoldable pub cancel : ℕ → ℕ → Registry D → Option (RunStatus × Bool) × Registry D
  cancel now run_id reg = elim (lookup run_id reg.runs) [
    | none ↦ (none, reg)
    | some r ↦
        if task_is_active reg run_id
        then (
          some (cancel_requested, true),
          put_run run_id
              (add_event now "cancel_requested" "Cancellation requested."
                (record r { status = cancel_requested }))
              reg,
        )
        else (some (r.status, false), reg)
  ]

  -- The head of `_read_in_scope`, once the scope is entered.
  abbrev pub started : ℕ → RunRecord D → RunRecord D
  started now r = add_event now "started" "Read run started." (record r { status = running })

  -- The end of `_read_in_scope` (result and meta) and of `_execute_read`.
  abbrev pub finalized : ℕ → Outcome D → RunRecord D → RunRecord D
  finalized now (completes result meta) r =
      add_event now "completed" "Read run completed."
        (record r { result = some result; meta = meta; status = succeeded })
  finalized now (cancels result meta) r =
      add_event now "canceled" "Read run canceled."
        (record r { result = result; meta = meta; status = canceled })
  finalized now (fails e result meta) r =
      add_event now "failed" e.message
        (record r { result = result; meta = meta; error = some e; status = failed })

  abbrev pub is_cancel : Outcome D → Bool
  is_cancel (completes _ _) = false
  is_cancel (cancels _ _) = true
  is_cancel (fails _ _ _) = false

  -- The step of a run that is remembered: its record and the next state of its task.
  abbrev pub set_run : ℕ → RunRecord D → TaskState → Registry D → Registry D
  set_run run_id r t reg = record reg {
    runs = insert run_id r reg.runs;
    tasks = insert run_id t reg.tasks;
  }

  -- The test of `_run_finished`: a task that was cancelled before its first turn.
  abbrev pub closed : ℕ → Bool → RunRecord D → RunRecord D
  closed now false r = r
  closed now true r = elim r.status [
    | canceled ↦ r
    | _ ↦
        add_event now "canceled" "Read run canceled before execution."
          (record r { status = canceled })
  ]

  -- A run whose task enters the scope.
  abbrev pub enter_run : ℕ → ℕ → Option (RunRecord D) → Option TaskState → Registry D → Registry D
  enter_run now run_id (some r) (some waiting) reg = set_run run_id (started now r) working reg
  enter_run now run_id _ _ reg = reg

  -- The coroutine of the run returns: its task is done from here on.
  abbrev pub finish : ℕ → Bool → Registry D → Registry D
  finish run_id c reg = elim (lookup run_id reg.tasks) [
    | none ↦ reg
    | some _ ↦ record reg { tasks = insert run_id (finished c) reg.tasks }
  ]

  -- The `except` clauses and the `finally` of `_execute_read`, in which the task is not done yet.
  unfoldable pub conclude : ℕ → ℕ → Outcome D → RunRecord D → Registry D → Registry D
  conclude now run_id o r reg =
      finish run_id (is_cancel o) (evict_completed_runs (put_run run_id (finalized now o r) reg))

  -- A task can be cancelled or fail while it waits for the scope; it completes only inside.
  abbrev pub end_run :
      ℕ → ℕ → Outcome D → Option (RunRecord D) → Option TaskState → Registry D → Registry D
  end_run now run_id o (some r) (some working) reg = conclude now run_id o r reg
  end_run now run_id (completes _ _) (some r) (some waiting) reg = reg
  end_run now run_id o (some r) (some waiting) reg = conclude now run_id o r reg
  end_run now run_id o _ _ reg = reg

  -- A cancelled task that never had a turn: nothing of `_execute_read` runs.
  abbrev pub drop_run : ℕ → Option TaskState → Registry D → Registry D
  drop_run run_id (some waiting) reg = finish run_id true reg
  drop_run run_id _ reg = reg

  -- The callback `_run_finished`.
  abbrev pub settle_run : ℕ → ℕ → Option (RunRecord D) → Option TaskState → Registry D → Registry D
  settle_run now run_id (some r) (some (finished c)) reg =
      evict_completed_runs (set_run run_id (closed now c r) (settled c) reg)
  settle_run now run_id none _ reg = evict_completed_runs reg
  settle_run now run_id _ _ reg = reg

  unfoldable pub step : Input D → Registry D → Registry D
  step (starts now args) reg = (start_read now args reg).1
  step (cancels_run now run_id) reg = (cancel now run_id reg).1
  step (enters now run_id) reg =
      enter_run now run_id (lookup run_id reg.runs) (lookup run_id reg.tasks) reg
  step (ends now run_id o) reg =
      end_run now run_id o (lookup run_id reg.runs) (lookup run_id reg.tasks) reg
  step (drops run_id) reg = drop_run run_id (lookup run_id reg.tasks) reg
  step (settles now run_id) reg =
      settle_run now run_id (lookup run_id reg.runs) (lookup run_id reg.tasks) reg

  unfoldable pub run : List (Input D) → Registry D → Registry D
  run [] reg = reg
  run (i ∷ is) reg = run is (step i reg)
