-- ===== src/Lib.antt =====
-- gwr is a library for simulations of hardware: an engine of clocks, events and tasks (gwr-engine),
-- components that are connected by ports (gwr-components), resources (gwr-resources), models of
-- memories and interconnects (gwr-models), and timetables of tasks for processing elements
-- (gwr-timetable). This development models the state and the operations of
-- its components as functions, and states what makes each of them correct.
--
-- Base          names and lemmas that all files share: Boolean tests on the native numbers, lists,
--               the outcomes of fallible code (a value, a SimError, or a panic), loops
-- Arbiter       gwr-components/src/arbiter: `Decision` is what `Arbitrate::arbitrate` leaves, `Grants`
--               its contract; RoundRobin is policy/round_robin.rs, Weighted is
--               policy/weighted_round_robin.rs, Priority is policy/priority_round_robin.rs
-- Clock         gwr-engine/src/time/clock.rs: `schedule`, `unschedule` and `advance_time` of
--               `ClockState`; Clock/Entries reads its two parallel lists as one; Clock/Delay has
--               the futures that wait for a tick
-- Credit        gwr-components/src/flow_controls/credit_limiter.rs and credit_issuer.rs, with the resource
--               that they share
-- Event         gwr-engine/src/events: waiting.rs, once.rs and repeated.rs
-- Executor      gwr-engine/src/executor.rs; a future and a callback are parameters
-- Fabric        gwr-models/src/fabric/mod.rs, and Fabric/Node is `NodeRouter` of node.rs
-- Memory/Access gwr-models/src/memory/memory_access.rs, with the trait `AccessMemory` of traits.rs as
--               an interface that the cache is a client of
-- Memory/Device gwr-models/src/memory/mod.rs: a round of the task of a memory
-- Memory/Strided
--               gwr-models/src/memory/memory_access_gen/strided.rs
-- Memory/Map    gwr-models/src/memory/memory_map.rs
-- Memory/Cache  gwr-models/src/memory/cache.rs: the contents; Handler has `handle_request`,
--               `handle_response` and the metrics
-- Operators     gwr-models/src/processing_element/operators: the trait `Operator`; Operators/Add is add.rs,
--               Operators/Gemm is gemm.rs; Operators/Pooling has the parameters of maxpool.rs and the
--               windows of one axis, and Operators/Maxpool the operator
-- Port          gwr-engine/src/port/mod.rs: the two ends and the futures; Port/Delivery lets a task that
--               puts and a task that gets take turns in any order
-- Queue         gwr-components/src/queue.rs: `QueueCore`
-- Resource      gwr-resources/src/base.rs
-- SimTime       gwr-engine/src/time/simtime.rs, with the order of clocks and the times in ns of clock.rs
-- Store         gwr-components/src/store/mod.rs: its state, and a round of `run_rx` and of `run_tx`
-- Tensor        gwr-models/src/processing_element/operators/mod.rs and dtype.rs: shapes, tensors and views;
--               Tensor/Partition splits a shape into parts
-- Timetable     gwr-timetable/src/lib.rs, types.rs and timetable_file.rs: the graph of the tasks, the checks
--               of its nodes, and the state of its scheduler; Timetable/Scheduler/Runs has the runs, in
--               which processing elements take and complete tasks in any order
-- Tests         the theorems at concrete data
--
-- How the parts interact: a store and a queue tell the tasks that wait for a change through a repeated
-- event, so their states hold one; a cache answers accesses through the interface of accesses; the
-- executor polls tasks until none is new and then has the time of the simulation advance, which wakes
-- the tasks that wait for the earliest tick of any clock; an operator splits its output by the parts of
-- a shape; a timetable tells a processing element which of its tasks are ready, and the processing element
-- reports the tasks that it takes and completes.
--
-- How code is modelled: a `&mut self` is a state that is passed on; a future is a record, and its poll
-- a function from the state to the state and the answer; a waker is the number of its task. The rounds
-- of several tasks are a list of calls in the order in which the executor runs them. An early return
-- with an error, a failed assertion and an overflow of a checked sum are values of `Outcome`. Sums and
-- differences of machine integers are checked where the code's result depends on them; counters and
-- ids, which would take 2 ^ 64 steps to overflow, are natural numbers, as are the sizes of tensors; the
-- sums and products of the checks and the memory accesses of a timetable are checked.
-- Loops run over the list they iterate on, or over the rounds that are left. The run loop of the
-- executor, which need not end, takes a number of rounds, and answers that it has not ended when they
-- run out. A floating-point number that is not negative is its bit pattern, which has the same order; the
-- machine's operations on such numbers are a parameter (`Floats`), with what times rely on of IEEE 754 as
-- the hypotheses of SimTime/Nanos.
--
-- The sums of `i128` in maxpool.rs are numbers with a sign (Base/Integers). The sets and maps of a
-- timetable, whose keys are indices, are functions. A node of a timetable is known by its index; the names
-- of its file, and the reading of the file, are not modelled.
--
-- Not modelled: names, logging and tracking of entities, which do not affect a simulation; arithmetic
-- on floating-point numbers, whose results are parameters; the other components of gwr-components and
-- gwr-models; the tools.
pub mod Base
pub mod Arbiter
pub mod Clock
pub mod Credit
pub mod Event
pub mod Executor
pub mod Fabric
pub mod Memory
pub mod Port
pub mod Queue
pub mod Resource
pub mod SimTime
pub mod Store
pub mod Operators
pub mod Tensor
pub mod Timetable
pub mod Tests
