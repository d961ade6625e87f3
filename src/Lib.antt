-- ===== src/Lib.antt =====
-- A verification library for the task graph of this repository and the parts of its AX engine that
-- carry a task's life.
--
-- A plan names tasks; each task has files, inputs that come from the outputs of other tasks, declared
-- outputs and a validator. The engine runs every task as an actor: it starts the actor, takes its
-- result as a candidate, stops it, runs a validator as an actor of its own, and adopts the
-- candidate's files where the validator passes.
--
-- Prelude: shared helpers. A Go map is an association list without an order of its own; a loop over a
-- map walks the entries as they stand in the list.
-- Graph (engine/ax/internal/taskgraph):
--   Graph/Model      the data of model.go
--   Graph/Paths      `validPath`, with the parts of Go's `strings` and `path` that it calls
--   Graph/Names      `namePattern` and `imagePattern`
--   Graph/Validate   `Validate`; Validate/Visit is its search for cycles
--   Graph/Impact     `Impact`
--   Graph/Progress   `State.Complete` and `State.Files`
--   Graph/Engine     engine.go: Engine/Defs has `Apply`, `Resume` and the interfaces, Engine/Step has
--                    `Tick` and `Pause`
--   Graph/Live       repeated Ticks in a world that answers
--   Graph/Remote     backend.go and sort.go: `AXBackend` over its clients
--   Graph/Store      store.go; Store/Exclusion has the operators that share its lock,
--                    Store/Guarded what a call under the lock does
--   Graph/Collect    the task results that the engine reads: cmd/ax-task-runner/task_agent.go, and in
--                    Collect/Guest internal/guest/task_agent.go (both below engine/ax)
-- Ax (engine/ax), the service that keeps the tasks of the actors:
--   Ax/Types    validation and workspace bindings of pkg/apis/v1alpha1/types.go, with the messages of
--               ax.proto
--   Ax/Memory   internal/store/memory/store.go: the maps, the event channel and the watchers
--   Ax/Redis    internal/store/redis/store.go: Redis/Keys has its keys, Redis/Records what it does alike
--               for every kind, Redis/Tasks, Redis/Resources and Redis/Subscription its operations;
--               Redis/Client has the commands and laws of the Redis client, and protojson, as
--               parameters
--   Ax/Server   internal/server/server.go: the handlers over the interface of internal/store/store.go;
--               Server/OnMemory gives them the in-memory store
--   Ax/Controller  internal/controller: the reconciler of a task over the client of Substrate, and
--               the worker's handling of an event
--   Ax/Substrate   internal/substrate/client.go: the actors, over the control service as a parameter
--   Ax/Tunnel      internal/tunnel/tunnel.go: the records of the tunnels
--   Ax/Setup       internal/workspace/setup.go: Setup/Names has its paths and names, Setup/Git the clones
--               and retries, Setup/Run `SetupWorkspace`; Setup/Machine is what it asks of the file
--               system, git and the agent, as a parameter
--
-- The world of the engine is a parameter: `Backend` has the calls of the source's interface and the
-- engine's `Save`, each of which answers a value or an error and changes the world as it likes.
-- `Digest` (JSON and SHA-256) is a parameter too; that the digest of a task determines its outputs is
-- a hypothesis where it is used. The clock is an argument. Go's `int` is 64 bits wide, and the step of
-- the revision wraps round.
--
-- The cycle search of `Validate` has one unit of fuel more than there are tasks, since the stack of
-- open visits never holds a task twice, and `Impact` makes at most one pass more than there are tasks,
-- since a pass that changes anything marks another task.
--
-- `Next` of a subscription in Redis has as many reads as its fuel, and says so where it still waits.
--
-- The clients of other systems (Redis, Substrate, guests, git, the file system) are records of calls,
-- and what a theorem relies on of them is a record of laws that it names.
--
-- Not modelled: the Redis server, gRPC and its streams, the network, processes, the command lines and
-- the YAML bridge, since they are calls of other systems or of libraries.
pub mod Prelude
pub mod Graph
pub mod Ax
