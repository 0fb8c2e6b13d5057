-- ===== src/Lib.antt =====
-- The agent of isky, and what its inference engine does to have the weights in memory. A model proposes one
-- action at a time as JSON text; the agent parses and validates it, runs a tool behind a permission gate,
-- checks the step, recovers from failures, and works within a budget of iterations. The engine indexes the
-- tensors of a checkpoint, reads the experts of a token through a cache, and streams the layers of the trunk
-- through a ring of buffers that a thread fills ahead.
--
-- The parts, with the file of this library and the code that it models:
-- - State: the states of a task and the guarded transition (agent/core/state.c). State/Graph: the diagram.
-- - Task: the task record and its setters (agent/core/task.c).
-- - Effects: the events (agent/core/events.h) and the rows that go to the database, as a log of
--   effects; Effects/Bus: the bus and its handlers (agent/core/events.c).
-- - Jsonx: the search for a JSON object in the text of a model, and the accessors (agent/util/jsonx.c);
--   Jsonx/Repair: `jx_repair_object`; Jsonx/Grammar: the texts of an object as a
--   grammar; Jsonx/Extract: what the search finds.
-- - Protocol: `agent_action_parse` and `agent_action_validate` (agent/planner/protocol.c);
--   Protocol/Accepted: what is let through.
-- - Plan: plans from text and back (agent/planner/plan_parser.c); Planner: `planner_make_plan`
--   (agent/planner/planner.c); Plan/Bounds and Planner/Plans: what they return.
-- - Model: the interface of a language model (agent/model/model_interface.h).
-- - Ascii: the case-insensitive search of agent/reasoning/verification.c; Ascii/Search: what it finds.
-- - Reasoning: recovery strategies, reflection budget and checks (agent/reasoning); Reasoning/Strategy.
-- - Permissions: the policy (agent/security/permissions.c); Permissions/Load:
--   `permissions_load`; Permissions/Confirm: when a human is asked.
-- - Sandbox: the path that a tool may use (agent/security/sandbox.c, and `fs_realpath` of
--   agent/util/platform.c); Sandbox/Lexical and Inside: where it lies.
-- - Registry: tools and the gate (agent/tools/tool.c, tool_registry.c); Registry/Gate: what passes it.
-- - Memory: the ring of observations and the recorded rows (agent/memory/memory.c); Memory/Ring: its
--   invariant; Memory/Window: what it holds.
-- - Context: the prompt and its compression (agent/context/context.c); Context/Budget.
-- - Loop: the parts of an iteration; Loop/Round: `loop_body`; Loop/Run: run and resume
--   (agent/core/agent_loop.c). Loop/Facts, Loop/Round/States, Total and Verdicts, and Loop/Run/Outcome
--   hold what is shown of them.
-- - Cache: the streaming cache of routed experts (src/cache/k3_cache.c): slots, victims, `admit`.
--   Cache/Requests: `cache_get`, pins and `k3_cache_init`; Cache/Batch: `cache_getmany` in three phases.
--   Cache/Victim, Coherence, Service, Resident, Pins, Sizing and Batch/Distinct, Phases, Fetch: what is
--   shown of them.
-- - Safetensors: the reader of a checkpoint (src/io/k3_st.c, k3_st.h): tensors and names.
--   Safetensors/Index: the hash index, `k3_st_find`; Scanner and Header: `scan_shard` over the JSON text of a
--   file's header; Open: `k3_st_open`; Read: `k3_st_read`, `k3_st_read_aligned` and the loop of
--   src/io/k3_portable_io.h around `pread`; Widen: `k3_st_read_f32` and the widening of a half to a float.
--   Below them, Index/Circle, Walk, Built and Refines, Scanner/Decided, Header/Total, Readable and Spans,
--   Open/Stored and Order, Read/Loop and Window, Widen/Exact and Chunks: what is shown of them.
-- - Loader: the place of an expert and its reads (src/io/k3_load.c); Loader/Layout and Fetch: what is
--   shown of them.
-- - Trunk: the sizes of the pinned prefix and of the ring (src/io/k3_trunk.c). Trunk/Ring: `k3_trunk_bind`,
--   `k3_trunk_prefetch`, the reader thread, and the loop over the layers in src/cli/k3_run.c.
--   Trunk/Layers and Sizing, Ring/Coherent, Wait, Walk and Survive: what is shown of them.
-- - Prelude: the library names that all share, lists over the native numbers, integers, masks of bits,
--   C strings.
-- - Tests: concrete inputs.
--
-- How the parts interact: `Loop` calls every other part. `decide_action` builds a prompt by `Context` out of
-- `Memory`, asks the `Backend`, and reads the text by `Protocol` over `Jsonx`. `run_tool` goes through
-- `Registry`, which asks `Permissions`; the tools that take a path ask `Sandbox`. `verify_step` and
-- `do_recovery` use `Reasoning`. `Loop.Run` plans by `Planner`. The code mutates one task and one context;
-- here each function takes them and gives them back.
--
-- In the engine, `Open` fills the list of tensors and the index over it, `Loader` looks the six tensors of
-- an expert up in them and keeps their spans, and `k3_expert_load_direct` reads the whole run by `Read` into
-- one buffer. The cache asks for the experts of a token, one by one or as a batch; what it lacks it takes
-- from the record `Store`, which is its view of the loader. `Trunk` reads a file of its own: for each layer
-- the engine binds its buffer, requests the next one, and computes while the thread reads.
--
-- Conventions. A C string is a list of character codes, and NULL is `none`. An `int` that counts is a native
-- number; one that a configuration may make negative is an integer. The counters are bounded by the budget
-- or by the size of a list, so no `int` overflows in the modelled range. The numbers of a shard's header and
-- the sums made of them wrap at 64 bits, as they do on a host where signed overflow wraps; in the loader and
-- in the reads they are integers that do not overflow. `char` is signed and the host has the low byte first,
-- as on x86-64. An `snprintf` into an array of size n is `fit n`. Failures of `malloc` are left out. The log
-- messages of LOG_W and LOG_D are left out.
--
-- Parameters. `realpath` and `getcwd` are the record `Os`; where a theorem says so, an answer of `realpath`
-- has no component `..`. cJSON is the record `Json` with no law assumed of it. The model, the tools, the
-- approver, the clock, the file system test and the database search are functions of a state of the world
-- `W`; nothing is assumed of them either. The cache takes the reads of src/io/k3_load.c as the record
-- `Store`; where a theorem says so, a read that brings as many bytes as the expert has is assumed to bring
-- its bytes. The reader of a checkpoint takes `pread` as a function of the state of the world, which may
-- read less than it is asked for, or fail. `IsFaithful` says that what it reads is what the file holds, and
-- that it reads some where the file goes on, on an O_DIRECT descriptor only at an aligned offset with an
-- aligned count, and then in whole blocks or to the end; the buffers are page aligned. A `pread` of more
-- than SSIZE_MAX bytes fails. Files are lists of bytes.
--
-- The thread of the trunk holds its lock except while it reads, so it takes one step from a request to the
-- result; the caller runs any number of these steps between two of its own. `stop` is set only at close.
--
-- Fuel. `extract_from` has one more than the length of the text, and each round drops a character.
-- `repair_loop` has the length of the candidate. `loop_from` has one more than the iterations that the
-- budget leaves, and each iteration takes one. `walk` has as many rounds as there are buckets, and the table
-- is at most half full. The loops of a header have one round for each byte and one more, and each takes a
-- byte or ends. A read has one round for each byte that it needs, `widen_loop` one for each element,
-- `bucket_count` one for each tensor, `decimal` one more than the number. `plan_from` has the four passes of
-- the source.
--
-- The cache. Arrays are functions of an index. Stamps and counters wrap at 2 ^ 64, the histogram at 2 ^ 32.
-- The scans run over the slots, which are finitely many. The parallel reads of a batch are in sequence.
--
-- Not modelled: the kernels (src/core), the dequantisation of an expert and the binding of the model
-- (src/model), which compute with floats or fill structures of pointers; the command line of the engine, but
-- for its loop over the layers; the tokenizer; `k3_st_close`, descriptors, alignment of memory, failures of
-- allocation, counts of seconds and reports; the parser of `trunk.json`; the built-in tools, the backups of
-- the sandbox, the database, the HTTP server and the configuration files, which are I/O; memory management;
-- third_party.
pub mod Prelude
pub mod State
pub mod Jsonx
pub mod Protocol
pub mod Ascii
pub mod Effects
pub mod Reasoning
pub mod Task
pub mod Permissions
pub mod Registry
pub mod Model
pub mod Memory
pub mod Context
pub mod Plan
pub mod Planner
pub mod Sandbox
pub mod Loop
pub mod Cache
pub mod Safetensors
pub mod Loader
pub mod Trunk
mod Tests
