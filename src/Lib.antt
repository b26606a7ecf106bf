-- ===== src/Lib.antt =====
-- meio is an actor framework: a crate of actors and tasks (meio/src), and web servers, clients
-- and sockets made of such actors (meio-connect/src).
--
-- An actor runs in an `ActorRuntime` (meio/src/actor_runtime.rs): a loop that takes parcels from
-- a high-priority queue, deadlines from a delay queue and messages from a normal queue, and
-- hands each to a handler of the actor (meio/src/handlers.rs). A handler gets a `Context`, by
-- which it spawns children, interrupts them and shuts the actor down. The children are kept in
-- the `LifetimeTracker` of the context (meio/src/lifecycle.rs), in groups that are terminated
-- one after the other. A child reports its end by a `Done` parcel to the runtime of its
-- supervisor, which takes it out of the tracker. Tasks (meio/src/lite_runtime.rs) are children
-- that run a loop under a stop signal.
--
-- The files:
-- - Prelude, Prelude/Set, Prelude/Map: the names that the others share; hash sets and maps as
--   lists.
-- - Ids: meio/src/ids.rs. An id is the place of its `Arc` in a heap of uuids.
-- - Lifecycle: meio/src/lifecycle.rs. `LifetimeTracker`, one function per method; a call returns
--   the tracker and the interrupts that it sends. `insert` and `insert_task` share
--   `insert_record`, `remove` has the part `forget`, and the loop of `try_terminate_next` is
--   `terminate_stages`, with `begin_stage` for its `if`. Lifecycle/Invariant and Lifecycle/Kept:
--   what the operations keep; Lifecycle/Sequence: the order of the stages; Lifecycle/Drain: how
--   a termination ends; Lifecycle/Interrupts with its children Group and History: who is
--   interrupted, and how often; Lifecycle/Orders: other orders of iteration; Lifecycle/Replay:
--   the abstract view of a tracker.
-- - Handlers: meio/src/handlers.rs, with the errors of the crate and `AttachStream` of
--   meio/src/forwarders.rs. A handler is a `Script`, a tree of the context calls that it makes.
-- - Context: `Context` of meio/src/actor_runtime.rs, `run` for a script. Context/Laws: what any
--   handler keeps.
-- - Runtime: `ActorRuntime::routine`, `ActorRuntime::entrypoint` and `spawn` of
--   meio/src/actor_runtime.rs. Each turn of the loop has an `Inputs`: what the two channels
--   answer. Runtime/Laws, Runtime/Calm, Runtime/Shutdown, Runtime/Entrypoint, Runtime/Deadlines: its
--   theorems.
-- - Task: meio/src/lite_runtime.rs. Task/Stopping, Task/Life and Task/Retry: its theorems.
--   Task/HeartBeat: meio/src/tasks/heartbeat.rs; Task/FnTask: meio/src/tasks/fn_task.rs;
--   Task/Signals: the stop channel, and the handle of a heartbeat; Task/Forwarder:
--   `StreamForwarder` of meio/src/forwarders.rs.
-- - System: meio/src/system.rs, with meio/src/signal.rs. `System::spawn` is `found` of World.
--   System/Waiting: its theorems.
-- - World: the actors and tasks of a process together, as steps of one state: an actor is
--   founded, starts, takes a turn, or reads a `Done`, and a task ends, in any order. They share
--   the heap of ids, the log, and the `Done` parcels that are not read yet. World/Spawns,
--   World/Growth, World/Runs, World/Turns and World/Ends: what a step of a runtime adds to the
--   shared state; World/Tidy, World/Onward, World/Told, World/Founded: the agreement of the
--   trackers with it, step by step; World/Shutdown: what holds of every world that is reached;
--   World/Completion: how a shutdown ends.
-- - Thread: meio/src/thread.rs, as steps of two threads and of the actor. Thread/Drop: its
--   theorems.
-- - Linkage: meio/src/linkage/address.rs; Linkage/Distributor and Linkage/TaskDistributor: the
--   files of these names. Linkage/Recipients: the rest of an address, and
--   meio/src/linkage/recipient.rs; Linkage/Interactions: a request with its answer;
--   Linkage/Tracked: the same with the task of the requester; Linkage/Envelopes: the boxed
--   handlers of meio/src/handlers.rs.
-- - Connect/Talker: meio-connect/src/talker.rs; Connect/Client: meio-connect/src/client.rs;
--   Connect/Route: meio-connect/src/server/route.rs and the route of websocket.rs, with
--   `Svc::call` of routine.rs; Connect/Bind: meio-connect/src/server/bind.rs; Connect/Server:
--   `HttpServer` of meio-connect/src/server/mod.rs with link.rs, `HyperRoutine` and `MakeSvc` of
--   routine.rs, and the table of route.rs; Connect/Link: its link; Connect/Sockets: the
--   `WsHandler` of websocket.rs.
--   Their children have the theorems; Connect/Talker/Streams and Connect/Talker/Duplex are about
--   two talkers at the ends of one socket.
-- - Extra: meio-extra/src.
-- - Samples: the actors of the tests in meio/src/lib.rs.
-- - Tests: the theorems at concrete values.
--
-- Where the program calls what is not its code, the model has a parameter: `Hashing` for the
-- order in which hash tables list their elements, `Environment` for uuids and for what channels
-- take, `TimerQueue` for the delay queue of tokio-util, `Peers` for codecs and sockets, `Http`
-- for texts and the query parser, `Slab` for the routing table, `Watch` for the channels of
-- signals. What a poll or a call gives at each turn is an input: loops are recursion over the
-- list of these inputs. The loop of `LiteTask::interruptable_routine` runs on fuel, one unit for
-- each attempt, and a run has enough with one unit more than there are attempts without a value.
--
-- Whether `Peers` fail to take an output depends on that output alone, not on the time of its send.
-- An actor of Thread, once interrupted, may end or not: that is up to its handlers, so what is said
-- of the two threads leaves its end open.
--
-- Ids, instants, durations and uuids are natural numbers without a bound: the only arithmetic of
-- the code on them is the sum of an instant and a duration. Log lines, `Debug` and `Display`,
-- and the types that only tell messages apart are left out. Not modelled are the test functions
-- of meio/src/lib.rs, which start and await the actors of Samples, children that are spawned with an
-- address pair made before (`spawn_actor_with_addr` called by a handler), the queues of
-- meio/src/compat.rs for wasm, which the source has still to implement, and the traits of
-- meio-protocol/src/lib.rs, which have no code.
--
-- In what follows a tracker is consistent (`IsConsistent` of Lifecycle/Invariant) if its stages
-- hold the ids of its records, each once and in the stage of its group, and are in termination
-- only if it is itself; and a process is sound (`IsSound` of Context/Laws) if its tracker is
-- consistent, every notifier is that of its own child, and every child has an id that was
-- allocated. A world is tidy (`IsTidy` of World/Tidy) if its runtimes are sound, every child
-- that was spawned and has not ended stands in the tracker of its supervisor, and every child
-- that stands in a tracker was spawned by that actor and has not ended or has its `Done` unread.
mod Prelude
pub mod Ids
pub mod Lifecycle
pub mod Handlers
pub mod Context
pub mod Runtime
pub mod World
pub mod Task
pub mod Linkage
pub mod System
pub mod Thread
pub mod Connect
pub mod Extra
pub mod Samples
mod Tests
