-- ===== src/Ir/ExecutionPlan.antt =====
-- `ExecutionPlan` of tinypipe-ir/src/plan.rs: the plan with text ids that the compiler works on. `F`
-- stands for `f64`; the `HashMap` of an object or a mapping is a list in the order of its iteration.
-- Left out is `inferred_type`.
pub mod Order
use tinypipe.Prelude.{
  ℕ, String, Bool, ◌||◌, ◌%◌, ◌^◌, Option, none, some, List, [], str_eq, find?, keep, any, length,
  map,
}
use tinypipe.Api.Int.{ℤ}
use tinypipe.Ir.Plan.{Opcode, EdgeKind, Metadata}

mutual
  pub data ArgValue (F : Type 0) : Type 0 where
    string : String → ArgValue F
    int : ℤ → ArgValue F
    float : F → ArgValue F
    bool : Bool → ArgValue F
    null : ArgValue F
    array : ArgItems F → ArgValue F
    object : ArgFields F → ArgValue F

  pub data ArgItems (F : Type 0) : Type 0 where
    nil : ArgItems F
    cons : ArgValue F → ArgItems F → ArgItems F

  pub data ArgFields (F : Type 0) : Type 0 where
    end : ArgFields F
    field : String → ArgValue F → ArgFields F → ArgFields F

pub record Edge : Type 0 where
  pub from : String
  pub to : String
  pub condition : Option String
  pub mapping : Option (List (String × String))
  pub priority : Option ℤ
  pub label : Option String
  pub kind : EdgeKind

module _ (F : Type 0) where
  pub record Arg : Type 0 where
    pub key : String
    pub value : ArgValue F

  pub record Node : Type 0 where
    pub id : String
    pub op : Opcode
    pub args : List Arg
    pub branch_id : Option ℕ
    pub group : Option String

  pub record ExecutionPlan : Type 0 where
    pub version : ℕ
    pub nodes : List Node
    pub edges : List Edge
    pub metadata : Metadata

-- `Metadata::default` with the two counts
unfoldable pub default_metadata : ℕ → ℕ → Metadata
default_metadata nodes edges = record {
  compiler_version = "0.1.0";
  compiled_at = "";
  node_count = nodes;
  edge_count = edges;
  max_node_execution_count = 10000;
  max_context_memory_bytes = 10485760;
  max_recursion_depth = 5;
  max_execution_time_ms = 30000;
  optimizations = [];
  tool_deps = [];
  subgraph_dependencies = [];
  meta_json = "";
}

module _ {F : Type 0} where
  -- `ExecutionPlan::new`
  unfoldable pub new_plan : List (Node F) → List Edge → ExecutionPlan F
  unfolding default_metadata
  new_plan nodes edges = record {
    version = 3;
    nodes = nodes;
    edges = edges;
    metadata = default_metadata (length nodes % 2 ^ 32) (length edges % 2 ^ 32);
  }

  -- `node.args.iter().find(|a| a.key == key)`
  abbrev pub find_arg : List (Arg F) → String → Option (ArgValue F)
  find_arg args key = elim (find? (λ (a : Arg F). str_eq a.key key) args) [
    | none ↦ none
    | some a ↦ some a.value
  ]

  unfoldable pub text_of : Option (ArgValue F) → Option String
  text_of (some (string s)) = some s
  text_of _ = none

  -- an argument, if it is a text
  unfoldable pub text_arg : Node F → String → Option String
  unfolding text_of
  text_arg n key = text_of (find_arg n.args key)

  abbrev pub has_arg : List (Arg F) → String → Bool
  has_arg args key = any (λ (a : Arg F). str_eq a.key key) args

  -- `ExecutionPlan::get_node`
  unfoldable pub get_node : ExecutionPlan F → String → Option (Node F)
  get_node plan id = find? (λ (n : Node F). str_eq n.id id) plan.nodes

  abbrev pub ids : List (Node F) → List String
  ids nodes = map (λ (n : Node F). n.id) nodes

-- `ExecutionPlan::edges_from`
unfoldable pub edges_from : List Edge → String → List Edge
edges_from edges id = keep (λ (e : Edge). str_eq e.from id) edges

-- `ExecutionPlan::edges_to`
unfoldable pub edges_to : List Edge → String → List Edge
edges_to edges id = keep (λ (e : Edge). str_eq e.to id) edges
