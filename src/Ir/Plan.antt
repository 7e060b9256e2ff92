-- ===== src/Ir/Plan.antt =====
-- tinypipe-ir/src/plan.rs and compiled.rs: opcodes, edges, and the compiled plan with `u32` indices.
-- Left out are `inferred_type` and `id_map`, which nothing reads.
use tinypipe.Prelude.{
  ℕ, String, Bool, true, false, Option, none, some, List, str_eq, get_elem?, find?,
}
use tinypipe.Api.Int.{ℤ}

pub data Opcode : Type 0 where
  input call calc decide switch act parallel loop wait merge error : Opcode

-- `{:?}` of an opcode
unfoldable pub debug_name : Opcode → String
debug_name input = "Input"
debug_name call = "Call"
debug_name calc = "Calc"
debug_name decide = "Decide"
debug_name switch = "Switch"
debug_name act = "Act"
debug_name parallel = "Parallel"
debug_name loop = "Loop"
debug_name wait = "Wait"
debug_name merge = "Merge"
debug_name error = "Error"

-- `Opcode::is_pure`
unfoldable pub is_pure : Opcode → Bool
is_pure input = true
is_pure calc = true
is_pure decide = true
is_pure switch = true
is_pure wait = true
is_pure merge = true
is_pure _ = false

-- `Opcode::is_branch`
unfoldable pub is_branch : Opcode → Bool
is_branch decide = true
is_branch switch = true
is_branch _ = false

abbrev pub is_input : Opcode → Bool
is_input input = true
is_input _ = false

abbrev pub is_decide : Opcode → Bool
is_decide decide = true
is_decide _ = false

abbrev pub is_loop : Opcode → Bool
is_loop loop = true
is_loop _ = false

abbrev pub is_merge : Opcode → Bool
is_merge merge = true
is_merge _ = false

abbrev pub is_call : Opcode → Bool
is_call call = true
is_call _ = false

abbrev pub is_calc : Opcode → Bool
is_calc calc = true
is_calc _ = false

-- `EdgeKind::Data` and `EdgeKind::Control`
pub data EdgeKind : Type 0 where
  data_kind control_kind : EdgeKind

abbrev pub is_data : EdgeKind → Bool
is_data data_kind = true
is_data control_kind = false

-- `CompiledArg`; the value is JSON-encoded text.
pub record Arg : Type 0 where
  pub key : String
  pub value : String

-- `CompiledNode`
pub record Node : Type 0 where
  pub index : ℕ
  pub id : String
  pub op : Opcode
  pub args : List Arg
  pub branch_id : Option ℕ
  pub group_id : Option ℕ

-- `CompiledEdge`
pub record Edge : Type 0 where
  pub from_index : ℕ
  pub to_index : ℕ
  pub condition : Option String
  pub mapping : Option (List (String × String))
  pub priority : Option ℤ
  pub label : Option String
  pub kind : EdgeKind

pub record ToolDep : Type 0 where
  pub name : String
  pub version : String
  pub pure : Bool
  pub schema_hash : String

-- `CompiledMetadata`, and `Metadata` of tinypipe-ir/src/plan.rs, which has the same fields
pub record Metadata : Type 0 where
  pub compiler_version : String
  pub compiled_at : String
  pub node_count : ℕ
  pub edge_count : ℕ
  pub max_node_execution_count : ℕ
  pub max_context_memory_bytes : ℕ
  pub max_recursion_depth : ℕ
  pub max_execution_time_ms : ℕ
  pub optimizations : List String
  pub tool_deps : List ToolDep
  pub subgraph_dependencies : List String
  pub meta_json : String

-- `CompiledPlan`
pub record Plan : Type 0 where
  pub version : ℕ
  pub nodes : List Node
  pub edges : List Edge
  pub metadata : Metadata
  pub groups : List String

-- `CompiledPlan::get_node`, which is `self.nodes.get(index)`.
abbrev pub get_node : Plan → ℕ → Option Node
get_node plan i = get_elem? plan.nodes i

-- `self.plan.nodes.get(i).map(|n| &n.op)`
abbrev pub op_at : Plan → ℕ → Option Opcode
op_at plan i = elim (get_elem? plan.nodes i) [ none ↦ none | some n ↦ some n.op ]

-- `node.args.iter().find(|a| a.key == key)`
abbrev pub find_arg : List Arg → String → Option String
find_arg args key = elim (find? (λ (a : Arg). str_eq a.key key) args) [
  | none ↦ none
  | some a ↦ some a.value
]
