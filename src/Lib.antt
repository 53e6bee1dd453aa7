-- ===== src/Lib.antt =====
-- wosm, verified: a model of the observer's and the clients' core logic, with its theorems.
--
-- The program is a local control plane for sessions of coding agents. An observer process keeps the
-- truth about projects, worktrees, terminals and agents; agent harnesses report events to it through
-- hooks; clients (the CLI and the TUI) load its snapshot over a socket and keep it up to date by the
-- events that it publishes. Each module here models one part of that:
--
-- Base: shared names. Base/Lists and Base/Dict are JavaScript's arrays, `Set` and `Map` (entries in
--   the order of insertion), Base/Sort its stable sort, Base/Platform what is used of the platform and
--   has no source here: `localeCompare` and `Date.parse`, which the models take as a parameter.
-- Contracts: packages/contracts/src, the records and unions that the parts exchange.
-- Ingress: apps/observer/src/hooks/harnessIngressQueue.ts. `State` is HarnessIngressQueueState, and
--   enqueue_in_state, take_queued_report, record_processed and so on are its updates;
--   Ingress/System.antt adds the unbounded work queue and the worker fiber as a step function over
--   events, so that a list of events is an interleaving of clients and worker.
-- Client: packages/client/src/snapshotReducer.ts (apply_wosm_event is applyWosmEvent) and the notices
--   of errors.ts and connectionState.ts.
-- Status: apps/observer/src/reconcile/statusPolicy.ts and statusProjection.ts
--   (project_harness_event_report is projectHarnessEventReportOntoSnapshot). Status/Replica.antt
--   compares what the observer then serves with what a client makes of the published events,
--   and Status/Target.antt describes the row that a report is about.
-- Graph: apps/observer/src/reconcile/graph.ts. Build.antt is buildWosmSnapshot, over the rows and
--   sessions of Rows.antt and Sessions.antt and the orphans and alerts of Orphans.antt; Graph.antt has
--   the choice of a worktree's terminal and run, and the comparison of paths of
--   packages/runtime/src/paths.ts. The methods of texts that it calls are a second parameter.
-- Overlays: apps/observer/src/reconcile/harnessEventStatus.ts, the statuses that harness events lay over
--   the observed runs.
-- Scheduler: apps/observer/src/runtime/reconcileScheduler.ts, whose timer and reconcile are events.
-- Delivery: packages/provider-hooks/src/deliveryPolicy.ts, with what it called as a list of actions. What
--   may reject there is an `Answer`, which the functions pass on where the code has no `catch`.
-- Transport: packages/protocol/src/transport.ts, the framing of ndjsonConnection. Transport/Bytes.antt
--   describes the connection as a reader of single code units.
-- Commands: apps/observer/src/commands/queue.ts and cancellation.ts. A step is a part of the code
--   between two awaits, so that a list of events is an interleaving of dispatches, executions and
--   shutdown; Commands/Chains.antt is the invariant of the promises that each scope's commands wait for.
-- Hooks: apps/observer/src/hooks. Ingestion.antt and Reports.antt are the two ingestions of ingestion.ts,
--   which both write a `Store`; Routing.antt is providerHookIngress.ts, Spool.antt the drain of spool.ts
--   over any ingestion and a disk on which removing and writing a file may fail, and Process.antt the one that runtime/api.ts gives it.
-- Bus: apps/observer/src/runtime/eventBus.ts. `bus_step` is a publication, a subscription or a part of a
--   subscriber's call between two awaits, so that a list of steps is an interleaving of them.
-- Names: packages/runtime/src/names.ts, names of branches and windows, over lists of code points.
-- Forms: packages/dashboard-core/src/flows and components/EditableTextInput. TextInput.antt is
--   editing.ts, and Forms/TextInput/Cursor.antt sees it as two stacks around the cursor; Choices.antt is
--   the part of selectors.ts that gives choices their keys, Wizard.antt is stepWizard.ts and
--   NewSession.antt newSession.ts.
-- Folders: packages/dashboard-core/src/services/folderService.ts, over a `Machine` that stands for the file
--   system, node:path and the methods of texts.
-- Dashboard: packages/dashboard-core/src/state and selectors. `TuiState` is the dashboard's state; LocalRows.antt is
--   localRows.ts (one definition per function), Toasts.antt toasts.ts, and Connection.antt the states
--   of observerBridge.ts. Selectors.antt and Items.antt are the groups and the lines of selectors.ts and
--   dashboardViewport.ts, and Viewport.antt is the window over them (with layout.ts and
--   dashboardScroll.ts). Builders.antt is
--   commandBuilders.ts. Dashboard/Operations.antt gathers the operations in one type.
-- Samples: the snapshot that the tests share.
--
-- Conventions. An optional field is an Option; a timestamp is its text. A function that replaces a
-- `Ref` or builds a new object returns the new record. What the code takes from outside (the clock,
-- the outcome of a handler, fresh ids) is an argument. Loops are recursions on the list that they walk;
-- the transport's loop over its buffer has fuel, the buffer's length, of which each round uses one
-- code unit at least, the loop for the lock of Delivery has its two attempts, and the searches of
-- Folders have fuel, which Folders/Ends.antt is about; `while (order.length > max)` is a recursion on
-- the list that it shortens.
--
-- Not modelled: the zod schemas' parsing of untyped input, file and process access, the terminal user
-- interface's drawing, the provider integrations and the database.
pub mod Base
pub mod Contracts
pub mod Ingress
pub mod Client
pub mod Status
pub mod Graph
pub mod Overlays
pub mod Scheduler
pub mod Delivery
pub mod Transport
pub mod Commands
pub mod Hooks
pub mod Bus
pub mod Names
pub mod Folders
pub mod Forms
pub mod Dashboard
pub mod Samples
