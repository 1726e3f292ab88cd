-- ===== src/Lib.antt =====
-- fixus keeps the events of agents' tasks in a log, derives the state of each task from its events, and
-- runs turns of tasks on agents with a limit on how many run at once. This library models the parts
-- that decide something: the life cycle of tasks and the checks on events, the projection of a task,
-- the service that reads, checks and writes, the recovery after a crash, the retry of turns, the
-- dispatcher of turns, the orchestrator that drives all of these, and the sandbox policy.
--
-- Parts and files; the model keeps the names of the functions of the source.
-- - Common: lists, maps, strings and machine integers that the other files share.
-- - Models (src/models.rs): EventType with its names and levels, TaskState and its legal transitions,
--   AgentEvent and its scope check, the payload check (Payload), the guard of the write path (Guard),
--   failure classes (Failure), token totals (Tokens), and records (Records).
-- - Error (src/error.rs): the errors, with the data that their texts are made of.
-- - Projection (src/projection.rs): the state of a task as its events leave it. Apply is `apply`, Log
--   is the loop of `catch_up` over the records, Queries the questions asked of a projection, Cache the
--   cache of projections.
-- - Store: the trait `EventStore` of src/storage.rs as a record of operations over an abstract state,
--   each of which returns the next state also when it fails. The service, the recovery, the context and
--   the orchestrator take it as a parameter.
-- - Service (src/service.rs): transitions of tasks, turns, steps (Steps) and summaries (Summary).
-- - Recovery (src/recovery.rs): what becomes of the turns that a crash has left incomplete.
-- - Broker (src/broker_store.rs): the write path of the store over the broker and the cached projections;
--   Queries are the reads, which make it an EventStore, and Session and Restart the service over that
--   store.
-- - Registry (src/task_registry.rs): the calls that wait for the end of a turn.
-- - Retry (src/retry.rs, and handle_turn_execution_error of src/orchestrator.rs for its loop).
-- - Dispatcher (src/dispatcher.rs): a priority queue and a gate for each task type.
-- - Context (src/context.rs): the messages and the summary that an LLM is given.
-- - Orchestrator (src/orchestrator.rs): turns from their start to their end, over the store, the registry
--   and the dispatcher. Payload is what is published, Dispatch and Turns send turns out and end them, Ends
--   and Steps are the reports of agents, Wait the calls that wait and the recovery in the background,
--   Watchdog the search for turns that do not end, and Run a sequence of all of these. Drives, Steady,
--   Moves, Events, Records, Waits, Returns, Safe, Drain, Slots and Answers are proofs.
-- - ToolCatalog (crates/tool-catalog/src/lib.rs): Builtins are the built-in tools, Argv reads an element of
--   a template, Extras the tools of an operator, Toml its schemas. Rendered, Template and Names are proofs.
-- - Fixlet (src/bin/fixlet/router.rs, src/bin/fixlet/idempotency.rs): the payload of a turn as the agent's
--   process reads it, and the step events it writes. Wire holds proofs.
-- - Stream (src/bin/fixus-stream/main.rs): the events that a client of a turn is sent, from the history
--   and from the records that come. Replay is the proof.
-- - Policy (src/policy.rs): intersection, narrowing and validation of capabilities over lexical paths.
-- - Tests: the theorems at concrete inputs.
--
-- How the model corresponds to the code: a method that mutates takes the state and returns the next
-- one; `Result` and `Option` are data types; `i64`, `i32` and `u64` wrap, as in a release build; a
-- `HashMap` is an association list and a `HashSet` a list, so what a query returns in the order of a
-- map is in one of the orders that the program may take; a mutex or a lock makes a method one step.
-- The clock, new UUIDs and the printing of numbers are parameters. JSON values stand behind the records
-- Json and Build, which state what serde_json documents of reading and writing them; the decoding of
-- bytes, of policy values and of numbers in text stands behind Decoders.
--
-- An operation of the orchestrator is one step, although the program may switch tasks where it waits for the
-- store; what other tasks do while a call waits for the end of its turn is the parameter `wait` of Runtime.
-- A duration is a number of nanoseconds, and `scale` is the product with the factor.
--
-- Bounds: a call that waits makes as many rounds as there are deadlines, and dispatch_pending as many as
-- there are pending turns, which is where the loops of the program end; resolve_task_type makes 10 rounds.
-- `await_task` of Service makes at most 30 attempts, as the loop of start_turn does; the
-- attempts of a failing turn are counted by the natural number that the retry loop is given. All other
-- loops run over a list.
--
-- Not modelled: the creation of tasks, the batch writes and the policies of tenants in the broker
-- store, the store used in tests, the metrics, the health report and the broker consumers' protocol of
-- the orchestrator, the agent process of the fixlet and its protocol, the tools-bank process, the HTTP
-- servers, the tokens that Redis fans in and metrics, and parse_operator_toml, which calls the TOML
-- library.
pub mod Common
pub mod Models
pub mod Error
pub mod Json
pub mod Retry
pub mod Policy
pub mod Dispatcher
pub mod Projection
pub mod Store
pub mod Stream
pub mod Service
pub mod Recovery
pub mod Broker
pub mod Registry
pub mod Context
pub mod Orchestrator
pub mod ToolCatalog
pub mod Fixlet
mod Tests
