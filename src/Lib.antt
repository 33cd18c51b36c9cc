-- ===== src/Lib.antt =====
-- zhongshu: an assistant that runs tasks as graphs of nodes, keeps each graph on disk, and checks what
-- its tools are about to do. This library models the parts that decide what is run, and when.
--
-- The parts, and the files that model them:
-- * The execution graph, zhongshu-core/src/agent/execution_graph.rs: Execution.antt and the files of
--   Execution/. Types has the structs and enums. A method that takes `&mut self` is a function from
--   the graph to its result and the graph that it leaves behind, also on an error (Method). Graph has
--   the construction and the readiness of nodes, Lifecycle the calls that move a node, Settle the
--   skipping of nodes that cannot run any more, Schedule is `run_ready`, Snapshot the snapshots, the
--   checkpoints and the recovery. A `BTreeMap` is a list of pairs in the order of the keys
--   (OrderedMap.antt), and the order of texts is that of their scalar values, which is the order of
--   their UTF-8.
-- * The runner, zhongshu-core/src/core/execution_runner.rs: Runner/Durable. It calls the graph's
--   methods on a clone and saves the clone's checkpoint through a store, which is an interface
--   (Runner/Store: the trait `ExecutionGraphStore` of zhongshu-core/src/core/checkpoint.rs, with the
--   blocking task around it, which may be lost). Runner/Table is `OrganizationCheckpointStore`,
--   which fills the interface: its table is a map of rows, its serializer is a parameter.
-- * The reading of shell commands, zhongshu-core/src/tool/shell_semantics.rs: Shell.antt and the files
--   of Shell/. A command is the list of its scalar values. Split is `split_segments`, Tokens is
--   `tokenize`, Classify judges one segment and Analyze the whole command.
-- * The recovery of the harness, zhongshu-core/src/harness/recovery/: Recovery.antt and the files of
--   Recovery/. Policy is `RecoveryPolicy::evaluate` (policy.rs), Check is `check` (mod.rs) with the
--   counter and the patch history that it asks.
-- * The guard against repeated tool calls, zhongshu-core/src/harness/tool/loop_guard.rs: LoopGuard.antt
--   and LoopGuard/Guard.
-- * The crate of messages, zhongshu-message-core/src/: Message.antt and the files of Message/. Filter is
--   `ControlTokenFilter::feed` (streaming.rs), Stream is `StreamingMessage`, Parser is the loop of
--   `parse` (parser.rs) over the events of the Markdown library, and Print has the events of a
--   document, against which the parser is stated.
-- * The permissions of equipment, zhongshu-core/src/equipment/permission.rs: Permission.antt and the
--   files of Permission/. Guard is `PermissionGuard`, Hosts and Paths are its tests of hosts and paths.
-- * The patch engine, zhongshu-core/src/patch/mod.rs: Patch.antt and the files of Patch/. Replace has
--   `apply_replace` and `apply_multi_replace`, Encoding the encodings and line endings, Engine is
--   `PatchEngine` with the disk as part of the state, Plan is `plan_operations`. A link is not
--   followed, a diff is not made, and the failures of an operation are its errors. A write that fails
--   leaves the file as it was, where the system may leave a part of it. A plan is found by its path
--   and does not repeat it.
-- * The attention manager, zhongshu-core/src/agent/attention_manager.rs: Attention.antt and the files
--   of Attention/. Manager is `AttentionManager`, with the reports that it hears as a list.
-- The runner uses the graph, and the graph knows nothing of the runner; the shell part, the
-- recovery, the guard, the messages, the attention manager, the permissions and the patches stand
-- alone, but for the paths that the last two share.
--
-- Errors are values of the source's error types; the texts of their messages are left out, but for
-- those that the graph's snapshot errors carry, which are a type of their own (SnapshotFault).
-- Loops: the search of `has_path` has the number of edges and two as its fuel, since it expands a node
-- once at most; `settle_unreachable` has the number of nodes and one, since each turn skips a node;
-- `run_ready` has as many rounds, since each but the last takes a node out of `pending`.
-- All other loops are over lists.
-- Numbers are natural numbers without a bound: the source's counters (`u64` sequence numbers and
-- versions) go up by one in each call, and their overflow is not modelled. The `u32` sums of the
-- recovery and of the guard wrap around.
-- Parameters: the handlers of `execute_node` and `run_ready` (the latter a function that passes its
-- state on), the Markdown library (its events, and `parse` as the stream calls it), the JSON of a
-- checkpoint, lower-casing, the text of a number, JSON values, the host of a URL, the components of a
-- path, `canonicalize`, UTF-8 and UTF-16, the hash of a text, the derived equality of two checkpoints,
-- and the failures of the database and of the blocking task.
--
-- Not modelled: the rest of the harness and of the equipment, the scheduler, and what is input and
-- output only (windows, language models, tools, SQL queries).
pub mod Prelude
pub mod OrderedMap
pub mod Execution
pub mod Shell
pub mod Runner
pub mod Recovery
pub mod LoopGuard
pub mod Message
pub mod Permission
pub mod Patch
pub mod Attention
