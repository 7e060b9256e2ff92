-- ===== src/Ir/Compile.antt =====
-- `CompiledPlan::from_execution_plan` of tinypipe-ir/src/compiled.rs: text ids become indices. The loop
-- over the nodes fills three collections; here each has its own recursion.
pub mod Nodes
pub mod Resolved
use tinypipe.Prelude.{
  ℕ, suc, ◌+◌, ◌-◌, ◌%◌, ◌^◌, String, Option, none, some, List, [], ◌∷◌, ◌++◌, map, length, str_eq,
  if◌then◌else◌, NameMap, get_name, put_name, unwrap_or,
}
use tinypipe.Ir.Plan
use tinypipe.Ir.Plan.{Plan}
use tinypipe.Ir.ExecutionPlan.{ExecutionPlan, Node, Edge, Arg, ArgValue, string}

-- `u32::MAX`
abbrev pub u32_max : ℕ
u32_max = 4294967295

position : ℕ → String → List String → Option ℕ
position k g [] = none
position k g (h ∷ hs) = let rest = position (suc k) g hs in if str_eq h g then some k else rest

-- the table of group names after a node, and the node's index in it
unfoldable pub add_group : Option String → List String → List String
unfolding position
add_group none table = table
add_group (some g) table = elim (position 0 g table) [ some i ↦ table | none ↦ table ++ (g ∷ []) ]

unfoldable pub group_index : Option String → List String → Option ℕ
unfolding position
group_index none table = none
group_index (some g) table =
    some (elim (position 0 g table) [ some i ↦ i | none ↦ length table ] % 2 ^ 32)

module _ {F : Type 0} (json : ArgValue F → String) where
  -- Texts are kept, other values become JSON.
  unfoldable pub compile_arg : Arg F → Plan.Arg
  compile_arg a = record { key = a.key; value = elim a.value [ string s ↦ s | other ↦ json other ] }

  unfoldable pub compile_node : ℕ → List String → Node F → Plan.Node
  unfolding compile_arg group_index
  compile_node index table n = record {
    index = index;
    id = n.id;
    op = n.op;
    args = map compile_arg n.args;
    branch_id = n.branch_id;
    group_id = group_index n.group table;
  }

  -- the nodes from number `k` on
  unfoldable pub compile_nodes : ℕ → List String → List (Node F) → List Plan.Node
  unfolding compile_node add_group
  compile_nodes k table [] = []
  compile_nodes k table (n ∷ ns) =
      compile_node (k % 2 ^ 32) table n ∷ compile_nodes (suc k) (add_group n.group table) ns

module _ {F : Type 0} where
  -- the table `id_to_index`, where a later node with the same id takes the place of an earlier one
  unfoldable pub index_ids : ℕ → List (Node F) → NameMap ℕ → NameMap ℕ
  index_ids k [] m = m
  index_ids k (n ∷ ns) m = index_ids (suc k) ns (put_name n.id (k % 2 ^ 32) m)

  unfoldable pub group_names : List (Node F) → List String → List String
  unfolding add_group
  group_names [] table = table
  group_names (n ∷ ns) table = group_names ns (add_group n.group table)

-- An unknown id becomes `u32::MAX`.
unfoldable pub compile_edge : NameMap ℕ → Edge → Plan.Edge
compile_edge id_to_index e = record {
  from_index = unwrap_or (get_name e.from id_to_index) u32_max;
  to_index = unwrap_or (get_name e.to id_to_index) u32_max;
  condition = e.condition;
  mapping = e.mapping;
  priority = e.priority;
  label = e.label;
  kind = e.kind;
}

-- `json` is `serde_json::to_string` with `unwrap_or_default`.
unfoldable pub from_execution_plan :
    {F : Type 0} → (ArgValue F → String) → ExecutionPlan F → List String → Plan
unfolding compile_nodes compile_edge index_ids group_names
from_execution_plan json plan optimizations = record {
  version = 4;
  nodes = compile_nodes json 0 [] plan.nodes;
  edges = map (compile_edge (index_ids 0 plan.nodes [])) plan.edges;
  metadata = record plan.metadata { optimizations = optimizations };
  groups = group_names plan.nodes [];
}
