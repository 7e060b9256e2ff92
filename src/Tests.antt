-- ===== src/Tests.antt =====
-- A plan with a LOOP, an executor over natural numbers in place of floats, and contexts, on which the
-- modules below this one run the model.
pub mod Contexts
pub mod Pauses
pub mod Graphs
pub mod Plans
pub mod Types
pub mod Expressions
pub mod Compilation
pub mod Validation
pub mod Scheduling
pub mod Environment
pub mod Dotenv
use tinypipe.Prelude.{
  ℕ, String, Bool, true, false, Option, none, some, List, [], ◌∷◌, ltb, ◌==◌, ◌+◌, ◌/◌, Map, inl,
  inr, unwrap_or,
}
use tinypipe.Api.Int.{ℤ, pos, negsuc}
use tinypipe.Api.Value.{Value, Floats, int, string, null}
use tinypipe.Api.Context
use tinypipe.Api.Context.{Context}
use tinypipe.Ir.Plan.{
  Plan, Node, Edge, Arg, Opcode, EdgeKind, data_kind, control_kind, input, calc, act, loop,
}
use tinypipe.Vm.Error.{Result, ok, err, eval_error}
use tinypipe.Vm.Text.{decimal}
use tinypipe.Vm.Machine.{Executor, Evaluator, Host, CallTarget, SubgraphResult}
use tinypipe.Vm.Pause.{PausePolicy}

abbrev pub floats : Floats ℕ
floats = record {
  of_int = λ i. elim i [ pos n ↦ n | negsuc n ↦ 0 ];
  add = λ a b. a + b;
  halve = λ a. a / 2;
  lt = ltb;
  eq_zero = λ a. a == 0;
}

-- an expression is the name of a variable
abbrev pub variable : String → Context ℕ → Map (Value ℕ) → Result (Value ℕ)
unfolding Context.get
variable name c outputs = elim (Context.get c name) [ none ↦ err (eval_error name) | some v ↦ ok v ]

abbrev pub evaluator : Evaluator ℕ
unfolding Context.get decimal
evaluator = record {
  eval_expression = variable;
  resolve_arg_value = λ text c outputs. unwrap_or (Context.get c text) (string text);
  parse_json_value = string;
  float_text = decimal;
}

abbrev pub host : Host ℕ
host = record {
  elapsed_us = λ index count. count;
  in_progress = λ index count. 0;
  dispatch = λ index count target c. inr "no tool";
  execute_subgraph = λ index count name c. inr "no subgraph";
  latest_schema_hash = λ index count name. none;
  value_bytes = λ key v. 8;
}

abbrev node : ℕ → String → Opcode → List Arg → Node
node index id op args = record {
  index = index;
  id = id;
  op = op;
  args = args;
  branch_id = none;
  group_id = none;
}

abbrev edge : ℕ → ℕ → EdgeKind → Edge
edge a b kind = record {
  from_index = a;
  to_index = b;
  condition = none;
  mapping = none;
  priority = none;
  label = none;
  kind = kind;
}

abbrev arg : String → String → Arg
arg key value = record { key = key; value = value }

-- an input, a calc, a LOOP of two rounds over a calc, and a return
abbrev pub plan : Plan
plan = record {
  version = 4;
  nodes =
      node 0 "in" input (arg "name" "x" ∷ [])
      ∷ node 1 "read" calc (arg "expr" "x" ∷ arg "output" "y" ∷ [])
      ∷ node 2 "loop" loop (arg "target" "i" ∷ arg "max_iterations" "2" ∷ [])
      ∷ node 3 "body" calc (arg "expr" "i" ∷ arg "output" "z" ∷ [])
      ∷ node 4 "done" act (arg "type" "return" ∷ arg "content" "z" ∷ [])
      ∷ [];
  edges =
      edge 0 1 data_kind ∷ edge 1 2 control_kind ∷ edge 2 3 data_kind ∷ edge 2 4 control_kind ∷ [];
  metadata = record {
    compiler_version = "0.2.0";
    compiled_at = "";
    node_count = 5;
    edge_count = 4;
    max_node_execution_count = 100;
    max_context_memory_bytes = 1000;
    max_recursion_depth = 4;
    max_execution_time_ms = 1000;
    optimizations = [];
    tool_deps = [];
    subgraph_dependencies = [];
    meta_json = "";
  };
  groups = [];
}

abbrev pub executor : Executor ℕ
executor = record { plan = plan; floats = floats; evaluator = evaluator; host = host }

abbrev pub inputs : Context ℕ
unfolding Context.set
inputs = Context.set Context.new "x" (int (pos 7))

-- pause when that many nodes have run
abbrev pub after_nodes : ℕ → PausePolicy
after_nodes n = record { max_nodes = some n; pause_at_node_ids = none }
