-- ===== src/Vm/Machine.antt =====
-- The executor of tinypipe-vm/src/compiled_executor.rs: what it is built from, and the variables that
-- `execute_with` and `resume` keep while they run.
use tinypipe.Prelude.{ℕ, String, Option, List, Map, ◌⊎◌, ◌≡◌, put}
use tinypipe.Api.Value.{Value, Fields, Floats}
use tinypipe.Api.Context.{Context}
use tinypipe.Ir.Plan.{Plan}
use tinypipe.Vm.Error.{Result}
use tinypipe.Vm.Pause.{LoopState}

-- What the run calls in the rest of the file: expressions over the context and the outputs.
pub record Evaluator (F : Type 0) : Type 0 where
  pub eval_expression : String → Context F → Map (Value F) → Result (Value F)
  pub resolve_arg_value : String → Context F → Map (Value F) → Value F
  pub parse_json_value : String → Value F
  pub float_text : F → String

-- `CallTarget`, without the list `args`, which the VM leaves empty.
pub record CallTarget (F : Type 0) : Type 0 where
  pub name : String
  pub kwargs : Fields F

pub record SubgraphResult (F : Type 0) : Type 0 where
  pub context : Context F
  pub output : Value F

-- The world outside the interpreter: the clock, the `ToolRegistry` with its environment, and the JSON
-- text of a value. Each answer may depend on the moment of the run, which is the index of the running
-- node and the node count then; no two moments of a thread agree in both.
pub record Host (F : Type 0) : Type 0 where
  -- microseconds since the start of the run
  pub elapsed_us : ℕ → ℕ → ℕ
  -- subgraph calls that are in progress on other threads
  pub in_progress : ℕ → ℕ → ℕ
  -- a value, or the text of the `DispatchError`
  pub dispatch : ℕ → ℕ → CallTarget F → Context F → Value F ⊎ String
  pub execute_subgraph : ℕ → ℕ → String → Context F → SubgraphResult F ⊎ String
  pub latest_schema_hash : ℕ → ℕ → String → Option String
  pub value_bytes : String → Value F → ℕ

-- `CompiledExecutor`
pub record Executor (F : Type 0) : Type 0 where
  pub plan : Plan
  pub floats : Floats F
  pub evaluator : Evaluator F
  pub host : Host F

-- The mutable variables of a run, which `run_node` takes by reference.
pub record State (F : Type 0) : Type 0 where
  pub ctx : Context F
  pub node_outputs : Map (Value F)
  pub execution_order : List String
  pub enabled : List ℕ
  pub control_satisfied : List ℕ
  pub loop_skipped : List ℕ
  pub node_count : ℕ
  pub output : Option (Value F)

-- What `execute_with` computes before it runs the nodes: the order, and the bodies of the LOOPs.
pub record Frame : Type 0 where
  pub order : List ℕ
  pub loop_bodies : Map (List ℕ)

-- `NodeOutcome`
pub data NodeOutcome : Type 0 where
  node_ok : NodeOutcome
  node_paused : LoopState → NodeOutcome

module _ {F : Type 0} where
  -- A node that changes the context and its own output only, or nothing.
  pub data IsLocalTo (index : ℕ) (st st' : State F) : Type 0 where
    wrote :
        (v : Value F) (c : Context F)
        → st' ≡ record st { ctx = c; node_outputs = put index v st.node_outputs }
        → IsLocalTo index st st'
    same : st' ≡ st → IsLocalTo index st st'
