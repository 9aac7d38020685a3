-- ===== src/Lib.antt =====
-- NUTS, the node task engine: policies match events, tasks follow a configured state machine, and
-- stores keep them in a key-value backend.
--
-- Base       what the other modules share: tests, lists over the native ℕ, ℤ, association lists and
--            texts, with their lemmas.
-- Db         pkg/db/interface.go: the backend as a record of operations, and the laws that a store
--            relies on. Db.Memory is pkg/db/memory.go, which meets them.
-- Task       pkg/task: its types, and Task.Config, the state machine configuration of
--            pkg/task/sm_factory.go.
-- Task.Store pkg/task/engine_store.go, over any backend: the index by state (Store), the operations
--            (Ops), the queries and the rebuild (Query). Index and Invariant state when the index
--            and the tasks agree; Keeps, Rebuild and Listing prove it and use it.
-- Task.Engine pkg/task/state_machine_engine.go: HandleTransitionCommand (Engine) and CreateTask
--            (Create) over the store, with what they publish, log and count recorded in a `World`.
--            Command lists the ways a command can end; Safety, Progress and Paths are about
--            one command, a permitted one and sequences of them, Created and Creation about creation.
-- Task.Validator pkg/task/sm_validator.go: the graph of a configuration with its two searches
--            (Validator), the search for cycles (Cycles) and Validate itself (Accepted). Search,
--            Reachable, Terminal and Edges are about the searches and the graph, and Finish about a
--            task in an accepted configuration.
-- Task.Archive pkg/task/archive.go: the cleanup of old tasks; Cleaned is about it.
-- Core       pkg/core/core.go: in Core.Timeout, what handleTimeoutEvent does over the engine and the
--            store; Safety, Progress and Delays are about it. In Core.Events, the handlers of matched
--            policies and of commands, and the three together; Slots and Repeated are about
--            them. In Core.Recovery, what the start restores; Rescue and Recovered are about it.
-- Policy     pkg/policy: the contract of a policy store (Store), two implementations of it
--            in store.go and engine_store.go (Memory, Backed), manager.go with dsl.go (Manager;
--            Compiled, Reload and Calls are about it) and engine.go (Engine;
--            Matching is about it, Managed about both together).
-- Common     pkg/common: in Common.Snowflake, the generator of pkg/common/id.go; Order and Bounds are
--            about it.
-- Eventlog   pkg/eventlog/interface.go, and in Eventlog.Ring pkg/eventlog/ringbuffer.go: Window and
--            Index about one append, History about any number, Lookup and Query about the queries.
--            Eventlog.Backed is pkg/eventlog/store.go, the log over a backend; Appended is about it.
-- Datasource pkg/datasource/buffered.go in Datasource.Buffered: the ring buffer (Window) and the
--            rounds of the loops that fill it (Drop, Newest) and drain it (Drain). In
--            Datasource.Manager, pkg/datasource/manager.go over sources that are a parameter;
--            OneActive is about each call, Calls about sequences of them.
-- Metrics    pkg/metrics/sliding_window.go in Metrics.SlidingWindow; Evict is about its eviction.
--
-- How the code is read. A method that holds a lock for its whole body is one step, a function from
-- the state before to the state after and a result. HandleTransitionCommand, which reads the task
-- before it takes the store's lock, is one step too: commands come one after another. A record that the code changes in place comes
-- back as a new one. `time.Time` is a natural number of nanoseconds, 0 the zero time, and each
-- reading of the clock is an argument. JSON text is a value that decodes to what was encoded, or is
-- malformed. A Go map is an association list read by its first entry of a key, where its order
-- cannot be seen; a failing call returns an error, and an index out of range is the error `panics`.
-- Payload builders, backends, DSL engines such as CEL, time.ParseDuration and the texts of
-- fmt.Sprintf are parameters. A set or a queue of states is a list.
-- Logging is left out. Counters that would wrap only after 2^63 events are natural numbers. The
-- loop that drains the buffer recurs on fuel; a round takes one element out, so the size of the
-- buffer is enough. The searches of the validator recur on fuel too: a turn of the one and a level
-- of the other mark a state, so two more than the number of edges is enough.
--
-- Not modelled: the start and the stop of the core beyond its recovery, the timeout checker's heap,
-- the data sources and what starts them at the set-up, alerts, events and their serializer; the
-- set-up of the policy engine and its rates and latencies, and the cached policy store, which hands
-- out the pointers that it keeps; the gRPC services and their generated
-- code, the event bus's transport, SQLite, the command line, the terminal interface, configuration
-- loading, tracing.
pub mod Base
pub mod Common
pub mod Core
pub mod Datasource
pub mod Db
pub mod Eventlog
pub mod Metrics
pub mod Policy
pub mod Task
