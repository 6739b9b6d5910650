-- ===== src/Lib.antt =====
-- Embla, a supervisor of processes in user space (C): a model of its core and what is proved of it.
--
-- The program and its parts. A process object (src/process.c) is a record with a state machine. The
-- process manager (src/process_manager.c) owns all of them in a table of 16 slots and gives out
-- their ids; the process groups (src/process_group.c) list their members and are owned by a table
-- of their own (src/process_group_manager.c). The scheduler (src/scheduler.c) keeps the ready
-- processes in a ring of 16 slots. The executor (src/executor.c) talks to the host. The runtime
-- (src/embla.c) ties these together: it spawns, signals and reaps, and runs the loop that polls the
-- host. Above it stand the services (src/service.c, src/service_lifecycle.c,
-- src/service_restart.c), their registry (src/service_registry.c) and the orchestrator
-- (src/service_orchestrator.c), which starts them in the order of their dependencies, restarts
-- those that end, and stops them in the reverse order. A service tells of its state by messages
-- (src/service_notify.c). What a process is started with stands in its configuration
-- (src/process_config.c), which the child applies between fork and execve; what differs between
-- Linux and Darwin stands in src/platform. Pipes (src/pipe.c), pairs of sockets
-- (src/socket_pair.c) and named sockets (src/unix_socket.c) own descriptors of the host.
--
-- The files. A parent file holds a component's state and operations, one definition per C function,
-- under the C function's name without its prefix; its children hold the proofs, and `Tests` the
-- inputs on which the theorems are applied.
--   Process              src/process.c; `Machine` the state diagram, `Calls` sequences of calls
--   Scheduler            src/scheduler.c; `Ring` the index arithmetic, `Queue` the ring as a queue,
--                        `Remove` removal, `Dispatch` dispatch and yield
--   Table                the search loop and the loop that closes a gap, which four tables share;
--                        `Laws` and `Keyed`: a table as a map from keys
--   ProcessManager       src/process_manager.c; `Invariant`, `Create`, `Destroy`, `Reap`,
--                        `Sweep` and `Reparent`, `Frame` changes that keep the ids
--   ProcessGroup         src/process_group.c; `Members`
--   ProcessGroupManager  src/process_group_manager.c; `Directory`, `Destroy`, `Frame`
--   ProcessConfig        src/process_config.c; `Copies` the copies of its arrays, `Settings`
--                        sequences of calls of the setters
--   Platform             src/platform, both platforms
--   Descriptors          what src/pipe.c, src/socket_pair.c and src/unix_socket.c share: `Balance`
--                        what is open and bound, `Ends` two descriptors with `Life` theirs,
--                        `CloseOnExec`
--   Pipe                 src/pipe.c
--   SocketPair           src/socket_pair.c
--   UnixSocket           src/unix_socket.c; `Balance`, `Inherited`
--   Executor             src/executor.c, the side of the supervisor; `Polling`; `Child` the side of
--                        the child, with `Trace` its calls, `ExitCodes`, `Descriptors` its files
--   Runtime              src/embla.c; `Attempt`, `Rollback`, `Closing`, `Settled` and `Spawn` a
--                        spawn across the tables and the queue, `Capacity` and `Growth` the ready queue as a
--                        bound on spawning, `GroupSignals`, `Loop` the main loop, `Shutdown` its
--                        end; `Steps` all calls as a step relation, with `Invariant`, `Kept`,
--                        `Handled` and `Looped`; `Membership` and `Grouped` the members of the
--                        groups through these steps
--   Service              src/service.c, src/service_lifecycle.c, src/service_restart.c; `Restart`
--                        the back-off and the limit on restarts, `Fields` the setters and getters
--                        of src/service.c, `Dependencies`
--   Registry             src/service_registry.c; `Names` the registry as a map
--   Orchestrator         src/service_orchestrator.c, the topological sort; `Emitted`, `Order` and
--                        `Acyclic`
--   Supervisor           src/service_orchestrator.c, what acts: starting and stopping; `Loop` the
--                        supervision, `Ready` dependencies at the start, `Kept` and `Growth` the
--                        ready queue, `Ending` the waits
--   Notify               src/service_notify.c; `RoundTrip`
--   Prelude              shared names, tests into Bool, arrays as functions, lists, integers
--
-- How code is modelled. A pointer is an address (a number, NULL is 0) on a heap of objects, passed
-- explicitly, so that aliasing is kept; an array is a function from indices, with its capacity and
-- count beside it as in the code. An `int` result is an integer, 0 or -1 as the code returns it.
-- `uint32_t` ids wrap at 2 ^ 32. Times and seconds are integers of nanoseconds or microseconds in
-- place of doubles, without rounding. What `malloc`, the clock and the host's system calls answer
-- are arguments of the operations that use them; the calls on descriptors are written down in a
-- list. The receiver (a manager, a scheduler, a runtime)
-- is a live object: the guards against a NULL receiver are modelled only for configurations,
-- notifications, and the setters and getters of src/service.c. A NULL name is an argument like any
-- other. Log messages are not modelled.
--
-- Loops and fuel. Loops over arrays recurse on the slots that are left. The loop of
-- `process_manager_reparent_children` has fuel count + 1, since each round moves the iterator at
-- least one slot on; the endless loop over the root's children at shutdown has fuel count + 1, since
-- each round destroys a process; the depth-first search of the orchestrator has fuel count + 1,
-- since each nested call makes one more service gray. The loop of `embla_run` recurses on the list
-- of what its polls answer, and so do the waits and the supervision loop of the orchestrator, on
-- lists of rounds and turns.
--
-- Not modelled: logging and the demonstration program; the shutdown flag and its signal handler, in
-- whose place a list says how many turns the supervision loop makes; freeing; the names of states
-- for printing.
mod Prelude
pub mod Process
pub mod Scheduler
pub mod Table
pub mod ProcessManager
pub mod ProcessGroup
pub mod ProcessGroupManager
pub mod ProcessConfig
pub mod Platform
pub mod Descriptors
pub mod Pipe
pub mod SocketPair
pub mod UnixSocket
pub mod Executor
pub mod Runtime
pub mod Service
pub mod Registry
pub mod Orchestrator
pub mod Supervisor
pub mod Notify
