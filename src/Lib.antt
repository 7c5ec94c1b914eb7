-- ===== src/Lib.antt =====
-- Verification of Harnessing 101, a host that keeps one workspace of agents, tasks, messages and runs.
--
-- The program. A command of a frontend session reaches the engine (internal/core/task/engine.go).
-- The engine checks it, and hands a Mutate function to the state store
-- (internal/adapters/statestore/file.go), which reads the one state file, answers a request that
-- its ledger of receipts has already, or else runs Mutate on a copy of the snapshot, raises the
-- revision and writes the file anew. The engine then publishes the events of the commit on its bus
-- (internal/core/task/events.go). StartRun and StopRun make several commits, with a call of the
-- process supervisor between them. A session is bound to its workspace and its caller by the host
-- (internal/host/host.go). A one-shot command opens the workspace, runs one session and drives the
-- mailbox; a serve process (internal/assembly/serve.go) keeps the workspace open, and in each tick
-- answers the request files of attached clients (internal/adapters/transport), one session after the
-- other, and then drives the mailbox. Both run in one goroutine.
--
-- The files.
--   Prelude: names of the standard libraries, Boolean tests, lists.
--   Domain, Api: the records, states and error codes of internal/core/domain, and the requests of
--     internal/api/api.go. A Go error is a `*domain.Error` or another; its Detail is left out.
--   Table: the linear searches of the engine over the snapshot's slices, and their laws.
--   Text: strconv.FormatUint and ParseUint, written out as their documentation has them for base
--     10, and fmt's `%v` on the kinds of value that reach `fingerprint`.
--   Store: internal/adapters/statestore/file.go. `Faults` says which calls of the operating
--     system fail; `synced` is the state file as the last fsync of the directory found it, which is
--     what a power loss leaves. encoding/json is taken to read back what it wrote.
--     Store/Effects, PowerLoss, Fresh, Replay, Revision and Callers prove things of it.
--   Events: internal/core/task/events.go, each critical section of the bus's mutex one function;
--     Events/NoLoss proves what its subscribers are given.
--   Engine: internal/core/task/engine.go. Engine/Tasks, Reviews, Agents, Messages, Profiles, Runs
--     and Reads hold the commands: `check_x` is what comes before the commit, `x_mutation` the
--     Mutate function, `x` the whole handler. Engine/Commit is `commit`, from the floor of the bus
--     to the publication, under one mutex. Engine/Mutations lists the Mutate functions,
--     Engine/Steps the steps of the engine as a transition system, in which commits of any callers,
--     calls of the supervisor, restarts and power losses come in any order; Engine/Lifecycle shows
--     that the handlers with more than one commit are such sequences. Engine/Consistency, Invariants
--     and Reachable hold the invariant of tasks and results, Engine/System, Outcome, Dispatch and
--     Starting the dispatch of runs, Engine/Recovery, Reconciled and Stopped what
--     ReconcileStuckRuns and StopRun have done, Engine/Delivery
--     what is noted of messages, Engine/Decided what follows a decision on a result, and
--     Engine/Colliding two requests that their fingerprints do not tell apart.
--   Mailbox: internal/adapters/mailbox/file.go, on the files below its root. `MailIo` says which
--     calls of the operating system fail and what the temporary file is called; `Wire` is
--     encoding/json and sort.Slice as the package calls them, `IsWire` what it relies on of them.
--     Mailbox/Publish, Again, Scan and Archive prove things of it.
--   Deliverer: internal/adapters/mailbox/deliverer.go, on the engine and the mailbox, with one
--     `Turn` of answers for each round of a loop. Deliverer/Changes, Order, Loops, Ingest, Facts and
--     System hold the order of the delivery facts, Deliverer/Publication what a publication means, and
--     Deliverer/Recording what the deliverer does to the engine.
--   Host: internal/host/host.go, the commands of a workspace and of the sessions bound to it;
--     Host/Opening is the opening of a workspace, Host/Authority and Isolation prove things of the
--     commands.
--   Supervisor: internal/adapters/process/supervisor.go. Supervisor/Launch is Start up to its return,
--     with the process as the operating system has it;
--     Supervisor has the run's record, observeNaturalExit and Stop as steps between which any other
--     actor may act; awaitResult's select takes any case that is ready. Supervisor/Ownership, Stopping,
--     Later and Reporting prove things of them.
--     Supervisor/Observing is internal/adapters/process/waitid_posix.go.
--   Journal: internal/adapters/journal/journal.go, the file of one run as its lines; Journal/Reading
--     and RoundTrip prove things of it.
--   Transport: internal/adapters/transport, the envelopes and errors of protocol.go. Transport/Files is
--     a session's folders, Transport/Codec the names and JSON, Transport/Session the methods that are
--     called, Transport/Dispatch dispatch.go, Transport/Serving and Ticking host.go, Transport/Client
--     and Attaching client.go. `Codec` is encoding/json at each type that passes; `IsCoding` says of
--     one type that a value is read back as it was written. Requests are not taken to be: a nilable
--     pointer of a request that was decoded has a new address. Transport/Written, Pending, Serviced
--     and Carried hold lemmas;
--     Transport/Once, Repeats, RoundTrip and Authority prove things of it.
--   Assembly: internal/assembly/serve.go and session.go; Assembly/Steps and System put a serve process,
--     its clients and its restarts together.
--   Examples: small workspaces on which the theorems are applied.
--
-- Conventions. Identifiers are texts; times are natural numbers; a uint64 is a natural number whose
-- increments wrap at 2 ^ 64. An operation takes as arguments what the clock, the source of
-- identifiers, the operating system and the supervisor answer to it: `Ambient`, `Faults`,
-- `StartInput`, `StopInput` and `ReconcileInput`. A nilable pointer of a request keeps its address,
-- because the fingerprint prints it. The engine's calls of the supervisor are logged in `calls`. No
-- definition runs on fuel but the printing of decimals, where twenty digits hold a uint64, and of
-- addresses, where sixteen hexadecimal digits do, and the loops of Supervisor/Observing, which return
-- within `rounds`. A client polls a given list of folders, behind which its context ends.
--
-- Not modelled: the supervisor's map of records, its context file and its draining of the pipes; the
-- reading of the process table; the command line and what is printed; the closing and locking of a
-- workspace; the states of the disk between the calls that one write of the state file makes; the
-- contexts' cancellation other than of a subscription, a grace period, a client's polling and a call
-- of the journal.
pub mod Prelude
pub mod Domain
pub mod Api
pub mod Table
pub mod Text
pub mod Store
pub mod Events
pub mod Engine
pub mod Mailbox
pub mod Deliverer
pub mod Host
pub mod Supervisor
pub mod Journal
pub mod Transport
pub mod Assembly
pub mod Examples
