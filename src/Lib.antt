-- ===== src/Lib.antt =====
-- The validator and the back end of the compiler, the interpreter, the scheduler and the environment of
-- tinypipe: plans, three passes of the optimiser, compiled plans, their execution, pause and resume, and
-- the rounds that resume them.
--
-- The compiler works on a plan whose nodes have text ids. The validator checks it, passes shrink it,
-- codegen notes what its CALL nodes depend on, and `from_execution_plan` turns the ids into indices. The
-- interpreter runs the result; the scheduler takes paused executions from the storage and resumes each
-- from its checkpoint.
--
-- A compiled plan is a graph of nodes and edges. The interpreter sorts the nodes once and runs them in
-- that order; a node runs when an edge has enabled it and its control and data predecessors have run. A
-- LOOP runs its body itself, round after round; a PARALLEL runs each branch on a thread of its own, and
-- the branches write into scopes of the context that a MERGE joins. A run may pause after a node or
-- inside a LOOP, which leaves a checkpoint that `resume` goes on from.
--
-- Files, with the code that they model:
--   Prelude        tests, lists, sets and maps that the others share
--   Api/Int        `i64` with its checked addition
--   Api/Value      `Value` (tinypipe-api/src/types.rs)
--   Api/Context    `Scope`, `Context` and `MergeStrategy` (the same file); the merge of the branches is
--                  in Api/Context/Merge, the laws in Api/Context/Laws
--   Ir/Plan        `Opcode` and `EdgeKind` (tinypipe-ir/src/plan.rs), `CompiledPlan`
--                  (tinypipe-ir/src/compiled.rs)
--   Ir/ExecutionPlan  the plan with text ids (tinypipe-ir/src/plan.rs) and its topological order
--   Ir/Compile     `CompiledPlan::from_execution_plan` (tinypipe-ir/src/compiled.rs)
--   Ir/ExecutionPlan/Order/Decides  when that order exists; Sorting is the invariant of its loop
--   Compiler/Validate  tinypipe-compiler/src/validator.rs: Search has its searches, Args and Branches the
--                  checks of one node, Pass the whole of `validate`, with Pass/Spec for the plans that it
--                  accepts; Flat is `verify_cfg_flattening`
--   Compiler/Optimize  the passes of tinypipe-compiler/src/backend/optimize.rs: Dead, Fold and
--                  Fuse, whose loop has a round for each node and one more
--   Compiler/Types  tinypipe-compiler/src/type_check.rs; Folding is about folded plans, Literals about quotes
--   Compiler/Quotes  the functions of the same file that go over the bytes of a text
--   Compiler/Codegen  the metadata that tinypipe-compiler/src/backend/codegen.rs fills in
--   Compiler/Text  functions on texts that the passes use
--   Vm/Error       tinypipe-vm/src/error.rs
--   Vm/Pause       tinypipe-vm/src/pause.rs
--   Vm/Text        the functions on strings that the interpreter uses
--   Vm/Machine     the executor, the mutable variables of a run, and what the run asks of the world
--   Vm/Graph       reachability, loop bodies, topological order
--   Vm/Gate        when a node may run
--   Vm/Edges       `propagate_edges`, `format_value`
--   Vm/Eval        `eval_expression` and `resolve_arg_value`: Syntax takes texts apart, Values and Parts
--                  work on what is evaluated, Branches has the branches, Folded is about folded plans
--   Vm/Call        the opcode CALL, in the main pass and in a LOOP body
--   Vm/Ops         the other opcodes that run no node
--   Vm/Budget      time, node and memory limits
--   Vm/Loop        `run_loop`; what it keeps is in Vm/Loop/Kept, its pauses in Vm/Loop/Resume
--   Vm/Parallel    PARALLEL
--   Vm/Node        `run_node`
--   Vm/Run         `execute_with`, `execute`, `resume`; proofs in Vm/Run/Resume, Vm/Run/AtLoop and
--                  Vm/Run/Segments, a test for their condition on plans in Vm/Run/WellFormed
--   Vm/Fits        an invariant of the variables; each part of Vm has a module Fits that keeps it
--   Vm/Run/Complete  runs under the default policy
--   Scheduler      tinypipe-scheduler/src/lib.rs: the resumption of one execution; the rounds are in
--                  Scheduler/Rounds
--   Ir/EnvDeps     tinypipe-ir/src/env_deps.rs; Calls and Scan are about plans, Templates about
--                  templates
--   Env/Layers     the environment of tinypipe-env/src/lib.rs
--   Env/Dotenv     tinypipe-env/src/dotenv.rs and the other providers: Lines, Laws and Cache are about
--                  single lines, whole files and the cache
--   Env/Template   tinypipe-env/src/template.rs; its steps are in Env/Template/Steps
--   Tests          a plan and an executor on which the model runs
-- All of Vm but the first three is tinypipe-vm/src/compiled_executor.rs.
--
-- State. The variables that `run_node` takes by reference are the record `State`; a function that
-- changes them returns a new one. A `HashMap` is an association list and a `HashSet` a list without
-- repetitions, whose order no result depends on but the order of the fields of an object. `u32` counters
-- of nodes wrap around (`add_u32`), indices are taken modulo 2 ^ 32, the counters of incoming edges wrap
-- around at 2 ^ 32, and those of the order with text ids wrap around below 0. An `f64` is an abstract
-- type with the operations that are used.
--
-- The world. The clock, the tools, subgraphs and schema hashes are functions of the running node and the
-- node count (`Host`), so a statement that holds for every `Host` holds whatever they answer. The
-- expression language is the record `Evaluator`; Vm/Eval fills it with `eval_expression`.
--
-- The storage of the scheduler is an abstract state with the methods of `GraphStorage`; the codecs of
-- checkpoints and plans, the check of the environment and the clock are functions of the record `World`.
--
-- Fuel. The search for reachable nodes has one unit for each start and each edge, since each round pops
-- an entry and each edge pushes one at most. The topological order has one unit for each node, and a
-- shortage is the error `out_of_fuel`, which no plan with fewer than 2 ^ 32 nodes and edges has; beyond, a
-- counter may wrap, and a node may be queued more than once, so the model may stop where the code goes
-- on; the order of a plan with text ids has one for each node and each edge, and a shortage is a result of its own; no plan with distinct ids has it. The searches of the
-- validator have one unit for each start and each edge; a template has one for each character. Nested
-- PARALLELs have one unit for each node and one more. An expression has one unit for each character and
-- one more, since the texts that it is evaluated through are shorter.
--
-- Not modelled: `multi_branch_fusion` of the optimiser, `parse_json_value`, which turns the values of
-- serde_json into those of the VM, FlatBuffers, `inferred_type`, step observers, tracing, durations, the
-- sleep of WAIT, panics of threads, the text that `describe_node` of the validator prints, and the crates
-- around them (the compiler's front end, storage, server, daemon, tools, command line).
pub mod Prelude
pub mod Api
pub mod Ir
pub mod Vm
pub mod Compiler
pub mod Scheduler
pub mod Env
pub mod Tests
