-- ===== src/Lib.antt =====
-- A verification library for Browser CLI: the state that its daemon keeps between the commands of
-- several agents, and the theorems on it.
--
-- The program is a daemon that drives one browser for several agents. A command of an agent arrives,
-- waits for its turn in the browser, takes a tab, works, and gives the tab back.
--
-- - src/browser_cli/tabs/registry.py -> Tabs. `TabRegistry` says who owns which tab, which tab is
--   active for each agent, and which request works on a tab or closes it. Tabs.Records has the records
--   (`TabRecord`, `BusyState` as the fields of a claim) and the errors as values; Tabs.Registry the
--   methods that add, update, list, activate, remove and rename tabs; Tabs.Claims the methods
--   `claim_page`, `claim_active_tab`, `begin_close`, `end_close`, `check_claim`, `release_tab`;
--   Tabs.Calls every method as a value, with `step` and `run`. The other children of Tabs hold proofs.
-- - src/browser_cli/daemon/execution.py -> Daemon.Execution. `BrowserExecutionCoordinator.scope`
--   admits shared work, one batch, cleanup beside the batch, and exclusive work. The steps of the tasks
--   are a relation on the coordinator and on how many tasks of each mode wait and are inside.
-- - src/browser_cli/daemon/run_registry.py -> Daemon.Runs. `CommandRunRegistry` remembers background
--   reads: their records, their asyncio tasks, and the eviction of those that are over.
-- - src/browser_cli/daemon/runtime_presentation.py -> Daemon.Presentation: the facts that are read of
--   the raw status, the verdict on them, and the actions that are offered.
-- - src/browser_cli/daemon/browser_service.py -> Daemon.Drivers: which driver `BrowserService` works
--   with. Daemon.Drivers.Rebinding has `_activate_driver`, which opens the registry's tabs again, the
--   rebind that waits, and the watch on the extension; Daemon.Drivers.Commands the start and the end of
--   commands, rebuilding, stopping and isolating; Daemon.Drivers.Reading the read that is repeated with
--   Playwright; Daemon.Drivers.Calls the calls in sequence. What the drivers answer, and the session
--   that the hub has in a call, are arguments, so a call whose awaits another task fills is one step.
--   `preflight` reports its two kinds of failure as one.
-- - src/browser_cli/refs -> Refs: from the text in which the browser shows a page to the locator of an
--   element. Refs holds the records of models.py and the registry of snapshots of registry.py.
--   Refs.Markup has the sets of roles, and what Python's `str`, `re` and `hashlib` do as a record of
--   functions; Refs.Walk what the loop of `snapshot_from_raw_text` keeps (its stacks have their last
--   entry first), Refs.Labels and Refs.Generator the lines of the loop, Refs.Resolver the references
--   and `LocatorSpec`. The calls on Playwright's page are the constructors of a data type. A ref is a
--   digest of four bytes, so what is said of refs supposes that those of one snapshot differ.
--   Refs.Pages has how src/browser_cli/daemon/browser_service.py uses the registry
--   (`capture_snapshot`, the navigations, `close_tab`, `_require_locator`).
-- - src/browser_cli/automation/persistence/store.py -> Automation, with the records of
--   src/browser_cli/automation/models.py. Automation.Creation has the methods of
--   `AutomationStore` that queue a run, Automation.Queue those on queued runs and their events,
--   Automation.Queue.Requests the calls in sequence; Automation.RunRow writes a
--   run as a row and reads it back; Automation.Definitions writes and normalizes the definitions and
--   queues the runs that are due. The tables are lists in the order of their row ids; a run that is
--   updated keeps its place, and of runs queued at one moment the first row is claimed, which the
--   query leaves open. A method is one step.
-- - src/browser_cli/automation/service/runtime.py -> Automation.Service: `_execute_run` on the store, and
--   a round of the executor's and of the scheduler's loop. What the hooks, the task and the files do is
--   an argument: the exception of each part, if it raises one.
-- - src/browser_cli/automation/scheduler/schedule.py -> Automation.Schedule. `normalize_schedule` and
--   `compute_next_run_at`, with time zones as a parameter and all times in microseconds.
-- - src/browser_cli/network.py -> Network. Network.Filter has `NetworkRecordFilter.matches`, with what
--   Python's `str` and `re` do as a record of functions; Network.Store the deques, the capture and the
--   waiters of `NetworkRecordStore`; Network.Traffic its calls in sequence. A waiter is a number, its
--   filter and its future stand in a table.
-- - src/browser_cli/extension/protocol.py and session.py -> Extension. Extension.Messages reads the
--   extension's messages, with what Python does to JSON values as a record of functions;
--   Extension.Chunks puts a chunked response together; Extension.Session has the methods of
--   `ExtensionSession` on the tables of a session, with futures and events under the request's id;
--   `send_request` is its head, what it returns, and its `finally`. Extension.Steps is the relation of
--   what can happen, in any order; Extension.Refinement has the specification of a single request.
--   Extension.Hub has `ExtensionHub`: its connections, the loop over their messages, its start and its
--   stop, which is two steps, since connections may come in between.
-- - src/browser_cli/browser/raster.py -> Raster: the tiles of `capture_tiled` and the loop over them.
-- - src/browser_cli/browser/capture.py -> Images: `image_dimensions` on a list of bytes, where an index out
--   of range and bytes that `struct.unpack` refuses are a result of their own.
--
-- Json is what Python does to JSON values, as a record of functions on a type that is a parameter.
-- Dict is Python's `dict`: an association list in the order of insertion, where a write to a key that
-- is there keeps its place. Prelude passes on what the modules share: the libraries' names, decidable
-- equality as an interface (`Eq`, which dictionaries take as an instance argument), Boolean tests on
-- the native numbers, lists, and the stable sort that `sorted` and `list.sort` are.
--
-- How the code is translated:
-- - A method becomes a function from the state to its answer and the new state. A method that holds the
--   registry's lock is one step; a raised error is a value. The tab registry checks before it writes,
--   so an error leaves its state as it was; where the store writes before it raises, as `complete_run`
--   does for a run that is not there, so does the model.
-- - The clock, the current task and generated ids are arguments, one reading of the clock for a call.
-- - A copy of a record (`replace`, `dict(...)`) is the value itself. A record that the code changes in
--   place is written back under its key.
-- - Timestamps and counters are natural numbers, without a bound, as Python's integers are. The float
--   of a time is used only to compare, so any order serves. A run id `run_000012` is its number.
-- - asyncio gives a task its turn between two `await`s, so the code between them is one step. The
--   coroutine of a background read is seen through where it can be: before the browser's scope, in it,
--   returned with its callback still to come, and over. What the read handler and the handlers around
--   the command do is the argument of the step in which the coroutine ends.
-- - Raster.range_by and Images.scan take fuel, the end of the range and the number of bytes plus one:
--   their positions grow by at least one in each round. The other loops are over lists and recurse on
--   them.
--
-- Not modelled: the browser and the drivers, whose work is the browser's or the extension's; the command
-- line, the HTTP transports and the web pages, which are input and output, with the status
-- requests that the extension's listener answers; the options of a capture, whose numbers are floats.
--
-- Each module `Examples` runs the definitions on concrete inputs.
mod Prelude
pub mod Dict
pub mod Images
pub mod Json
pub mod Refs
pub mod Raster
pub mod Tabs
pub mod Daemon
pub mod Automation
pub mod Network
pub mod Extension
