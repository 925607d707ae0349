-- ===== src/Lib.antt =====
-- Excelsior: an engine that runs agent turns for many clients. Paths are relative to the repository.
--
-- The program. `Coordinator` (internal/chat/coordinator.go) owns the active runs of all sessions.
-- A connection reserves a turn, the turn executes in its own goroutine, its events go to the
-- subscribers of the session, its tools may ask the user, and its outcome is kept for clients
-- that come later. Sessions are saved in a store (pkg/session), which internal/sessions works on
-- for lists and titles. Permission settings (pkg/config, internal/permissions) decide about
-- tools. A connection (pkg/engine) turns a client's frames into calls of the coordinator and
-- queues what the client is sent. The agent (pkg/agent) calls a provider (pkg/llm), which calls
-- tools (pkg/tools) that work inside the workspace.
--
-- The files.
-- Llm: pkg/llm, types.go. Llm/Errors: errors.go and budget.go. Llm/Client: client.go.
-- Util: pkg/util/truncate.go. Util/Files: what the code asks of a file system. Util/Atomic: atomic.go.
-- Session/Types, Session/Id, Session/Memory: pkg/session store.go, errors.go, `sanitizeID` of
--   session.go, memstore.go. Session/Lease: lease.go. Session/Disk: `DirStore` of session.go.
-- Sessions: internal/sessions/service.go.
-- Config: pkg/config/settings.go, `ParsePermissionMode`, internal/permissions/policy.go and the
--   permission handler of `ExecuteTurn`.
-- Agent, Agent/Loop: pkg/agent, up to the calls of the provider.
-- Protocol, Protocol/Frames: pkg/protocol/protocol.go, the payloads that the engine sends and reads.
-- Engine: runs.go of pkg/engine. Engine/Conn: conn.go, the queue of a connection and its subscriptions.
--   Engine/Serving: commands about runs, of conn.go. Engine/Settings: the settings of a workspace, with
--   internal/workspaces/state.go. Engine/Handlers: handlers.go and `dispatchEnvelope` of conn.go.
--   Engine/Token: `OwnerToken` of auth.go. Engine/Hub: hub.go and the rest of auth.go.
-- Tools: pkg/tools. Tools/Types: the registry and the user's permission. Tools/Paths: secure.go.
--   Tools/Edit, Tools/Ask, Tools/Bash: the tools of these names.
-- Chat/Event, Chat/Subscription: event.go and subscription.go of internal/chat.
-- Chat/Workspace: `CanonicalWorkspace`, `sessionKey`. Chat/Retention: `dropTerminalLocked`,
--   `retainLocked`. Chat/State: the state of `Coordinator`. Chat/Stores: `storeLocked`, `mutate` and
--   what reads sessions. Chat/Subscribers: `publishLocked`, `Subscribe`, `Resnapshot`, `Snapshot`.
--   Chat/Runs: `ReserveTurn`, the locked regions of `ExecuteTurn`, `finish`, `Cancel`.
--   Chat/Interactions: `waitInteraction`, `reply`. Chat/Turn: `RunPrepared` of service.go behind the
--   runner's return, and the outcome. Chat/Execution: `ExecuteTurn` as a whole.
--   Chat/Lifecycle: `Shutdown`.
-- Chat/Steps has all of these as one step function on the coordinator's state; Chat/Machine has the
--   abstract machine that the steps are shown to refine, and what follows for any sequence of calls.
-- The children of these files have their proofs. Common has what all share, Tests concrete runs.
--
-- The model. A mutex makes a locked region one step, so a call is a function from state to state and
-- result, and goroutines interleave as sequences of calls in any order. A pointer to a run is the
-- place of the run in the registry. A subscription is its position in a list, with a flag that says
-- whether the registry's set still holds it. What a response channel buffers stands in a table by
-- interaction. A context that was canceled is a flag; where Go's `select` may pick one of two ready
-- cases, an argument says which. New identifiers and the time are arguments; a time is a number of
-- nanoseconds, 0 for the zero time. Texts are lists of code points, as Go's strings are where they
-- are valid UTF-8. Counters are natural numbers; the invariants show that nothing is subtracted
-- that was not added before. The loop of `retainLocked` has the length of the order as fuel, which
-- is enough since each round drops one key; `OwnerToken`, which calls itself again where the file
-- appeared in the meantime, has two calls as fuel, enough since the second one finds the file.
--
-- The locks of `DirStore` and of the leases make their methods single steps too. A lease's
-- reference count stands in a table of the process, by directory. An attempt of a connection to
-- send is one step: it finds room in the queue of 128 messages, or the connection closes. A
-- process is what it writes and how it ends; `maxShellOutput` bounds bytes, so shell output is a
-- list of bytes.
--
-- Parameters. encoding/json is what it writes for a value and what it reads back (`Json`), with
-- `RoundTrips` or `IsVerbose` where a result needs it. path/filepath is `Platform`, with
-- `IsStable` where a result needs that a canonical path is its own canonical form; the tools have
-- a record of their own for it. `strings.ToLower` is a function. The file system is `FileSystem`,
-- any type of states with the operations the code calls; `IsFileSystem` says what a call leaves
-- of the contents, and nothing of when it succeeds; `IsPermanent` says that a name is never that
-- of a temporary file. encoding/hex and what protects the directory of the token are parts of
-- `TokenHost`. The goai library is the roles, parts and chunks that it takes and gives. A store
-- is any implementation of `Store`; the runner of a turn is what it returns, and the provider of
-- the agent's loop is what it calls back, in order, and what it returns. What a connection's
-- handlers read beside the coordinator (git, the workspaces, the clock) is `Serving`.
--
-- Not modelled: listening and the HTTP server of hub.go, and the client for a remote engine
-- (client.go of pkg/engine), which are HTTP and WebSocket code; deadlines and pings of a
-- connection; the names, descriptions and JSON schemas of tools; how the operating system starts
-- and stops the processes of the shell; the options of a request to a provider; the environment
-- and flags that pkg/config reads; `Coordinator.Run`; the command line and the desktop
-- application. A hub that gives several workspaces one store is not covered: `open_store` gives
-- each its own. Symbolic links are taken to stay as they are while the program runs.
mod Common
pub mod Llm
pub mod Util
pub mod Session
pub mod Sessions
pub mod Config
pub mod Agent
pub mod Chat
pub mod Protocol
pub mod Engine
pub mod Tools
mod Tests
