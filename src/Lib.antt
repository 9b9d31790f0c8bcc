-- ===== src/Lib.antt =====
-- Dozer: a data platform that moves the operations of sources through a pipeline of processors to
-- sinks, writes them to replication logs, and keeps records in caches for its APIs.
--
-- Types.antt models dozer-types/src/node.rs and part of dozer-types/src/types/mod.rs: handles,
-- operations and the states of sources, and Types/Handles.antt and
-- Types/Identifiers.antt the bytes of handles and of identifiers.
--
-- Log models dozer-log/src/replication. A `Log` (Log/Write.antt) keeps its newest operations in
-- memory (Log/Memory.antt), hands parts of them to a queue that uploads them to object storage, and
-- answers readers at once, from storage, or later through a watcher (Log/Watch.antt). `write`,
-- `persist`, `finish_persist` (the task that `persist` spawns), `read` and `time_out` (the task that
-- `read` spawns) are functions of the log that return the messages they send; a slice that is out of
-- bounds, an assertion and a lost sender are errors. Log/System.antt lets them follow each other in any
-- order; the tasks of uploads that have ended race for the lock, and the theorems have the condition
-- that they take it in the order in which they were spawned (IsOrderly), which the code only asserts
-- in debug builds, as they have the condition that the identifiers of watchers do not wrap around. The
-- operations that are uploaded stand for their bytes; the join of the prefix and a name is a parameter.
-- Log/Load.antt models the start of a log from what storage lists (persist.rs), with the last entry,
-- whose download and decoding is a parameter, and Log/Name.antt the names of stored entries as bytes.
--
-- Epoch models dozer-core/src/epoch/manager.rs: the two critical sections in which the threads of the
-- sources agree on how an epoch ends, `enter` and `leave` (Epoch/Manager.antt), and the steps that the
-- lock and the barrier allow (Epoch/System.antt). Times are nanoseconds and an input of the steps.
--
-- Executor models dozer-core/src/executor/receiver_loop.rs: the body of the loop that receives operations
-- from the ports of a processor or sink (Executor/ReceiverLoop.antt), and its runs, in which operations
-- arrive in any order from the ports that the loop selects (Executor/System.antt).
--
-- Cache models the main environment of the cache on disk,
-- dozer-cache/src/cache/lmdb/cache/main_environment, with the wrappers of dozer-storage/src it uses.
-- LMDB is an interface (Cache/Storage.antt) with the documented effects of its calls as laws;
-- Cache/Storage/InMemory.antt meets it. Cache/OperationLog.antt and Cache/MainEnvironment.antt
-- have one function for each method; the encoding and the hash of records are parameters.
-- Cache/Query/Intersection.antt models the intersection of the ids that scans of indexes yield
-- (dozer-cache/src/cache/lmdb/cache/query/intersection.rs), over an interface of sets of ids.
-- Cache/Plan models the planner of queries (dozer-cache/src/cache/plan): Cache/Plan/Planner.antt the planner,
-- Cache/Plan/Indexes.antt the combinations of scans that it tries, and Cache/Plan/Meaning.antt what
-- a query and a plan select.
--
-- Sql models processors of dozer-sql/src: Sql/SetProcessor.antt the union of product/set, over an
-- interface of counting maps with the accurate map in Sql/RecordMap.antt, and Sql/Selection.antt
-- the selection of selection/processor.rs, over any evaluation of expressions. Sql/Changes.antt counts
-- how often a sequence of operations inserts and deletes a record, which is what the
-- processors are specified by. Sql/Join models the join of two inputs of product/join: the tables with
-- their maps and evictions (Sql/Join/Table.antt, Sql/Join/Eviction.antt), the operator
-- (Sql/Join/Operator.antt) and the processor (Sql/Join/Processor.antt), and states what the join of two
-- tables is by the sum of an arbitrary measure of the rows, which is to say as a multiset: by the keys
-- of the tables (Sql/Join/Contents.antt) and by the values of the join columns, which accurate keys
-- are (Sql/Join/Columns.antt). A `HashMap` is a list of entries (Sql/Join/HashMap.antt).
-- Sql/Window models the windows of dozer-sql/src/window (Sql/Window/Operator.antt) and their processor;
-- instants count from the first that can be represented. Sql/Logical.antt and Sql/Choices.antt model the
-- logical operators, `CASE` and `IN` of dozer-sql/expression/src (logical.rs, case.rs, in_list.rs), over
-- any evaluation of their operands.
--
-- Numbers are natural numbers; identifiers and versions wrap around at 2^64 and 2^32 as in a
-- release build. The names of entries are written with 20 digits, enough for every 64-bit number.
-- Loops follow a list or a fixed count of digits. Two loops run on fuel:
-- the repeated calls of the intersection's `next`, one unit for each turn of its loop, for which the
-- theorem gives enough, and the loop over the windows of an instant, which has one unit more than the
-- interval has nanoseconds, enough for hops that last one or more.
--
-- Not modelled: what an operation of the cache has changed before it fails (an error carries no
-- state, and what becomes of it is up to the transaction), failures of the storage itself, metrics
-- and logging, the futures and channels under the log's tasks, input and output of connectors and
-- sinks, the API servers and the command line,
-- the other SQL operators and the rest of the executor.
pub mod Common
pub mod Types
pub mod Log
pub mod Epoch
pub mod Cache
pub mod Sql
pub mod Executor
