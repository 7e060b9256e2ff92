-- ===== src/Compiler/Codegen.antt =====
-- The metadata that `codegen_with_schema_hashes` of tinypipe-compiler/src/backend/codegen.rs fills in, and
-- the dependencies that it reads off the CALL nodes.
use Prim.Native.String.{String}
use tinypipe.Prelude.{
  ℕ, ◌+◌, ◌%◌, ◌^◌, ◌≡◌, Bool, Option, none, some, List, [], ◌∷◌, length, is_some, unwrap_or,
  if◌then◌else◌, arith, NameMap, get_name,
}
use tinypipe.Ir.Plan.{ToolDep, is_call, is_pure}
use tinypipe.Ir.ExecutionPlan.{ExecutionPlan, Node, text_arg}
use tinypipe.Vm.Text.{strip_prefix, trim_start_matches}
use tinypipe.Compiler.Text.{split_at}

-- `s.starts_with("subgraph:")`
unfoldable pub is_subgraph : String → Bool
unfolding strip_prefix
is_subgraph s = is_some (strip_prefix "subgraph:" s)

-- the name and the version
unfoldable pub name_and_version : String → Option (String × String) → String × String
name_and_version name none = (name, "^0.0.0")
name_and_version name (some (before, after)) = (before, after)

unfoldable pub dependency_of : NameMap String → Bool → String → ToolDep
unfolding name_and_version trim_start_matches split_at
dependency_of schema_hashes pure target =
    let name = trim_start_matches "tool:" target in
    let parts = name_and_version name (split_at 64 name) in
    record {
      name = parts.0;
      version = parts.1;
      pure = pure;
      schema_hash = unwrap_or (get_name parts.0 schema_hashes) "";
    }

unfoldable pub add_subgraph : Option String → List String → List String
unfolding is_subgraph
add_subgraph none rest = rest
add_subgraph (some s) rest = if is_subgraph s then s ∷ rest else rest

unfoldable pub add_tool : NameMap String → Bool → Option String → List ToolDep → List ToolDep
unfolding dependency_of is_subgraph
add_tool schema_hashes pure none rest = rest
add_tool schema_hashes pure (some s) rest =
    if is_subgraph s then rest else dependency_of schema_hashes pure s ∷ rest

add_one_or_other :
    (schema_hashes : NameMap String) (pure : Bool) (o : Option String) (subs : List String)
    (tools : List ToolDep)
    → length (add_subgraph o subs) + length (add_tool schema_hashes pure o tools)
      ≡ (if is_some o then 1 else 0) + (length subs + length tools)
unfolding add_subgraph add_tool
add_one_or_other schema_hashes pure none subs tools = omega arith
add_one_or_other schema_hashes pure (some s) subs tools = ground arith

module _ {F : Type 0} where
  -- the target of a CALL, if it is a text
  unfoldable pub call_target : Node F → Option String
  unfolding text_arg
  call_target n = if is_call n.op then text_arg n "target" else none

  -- `plan.metadata.subgraph_dependencies`
  unfoldable pub subgraph_dependencies : List (Node F) → List String
  unfolding add_subgraph call_target
  subgraph_dependencies [] = []
  subgraph_dependencies (n ∷ ns) = add_subgraph (call_target n) (subgraph_dependencies ns)

  -- `plan.metadata.tool_deps`
  unfoldable pub tool_deps : NameMap String → List (Node F) → List ToolDep
  unfolding add_tool call_target is_pure
  tool_deps schema_hashes [] = []
  tool_deps schema_hashes (n ∷ ns) =
      add_tool schema_hashes (is_pure n.op) (call_target n) (tool_deps schema_hashes ns)

  -- The metadata of the plan that the passes give; `now` is the text of the seconds.
  unfoldable pub fill_metadata :
      String → List String → NameMap String → ExecutionPlan F → ExecutionPlan F
  unfolding subgraph_dependencies tool_deps
  fill_metadata now optimizations schema_hashes plan = record plan {
    metadata = record plan.metadata {
      compiled_at = now;
      node_count = length plan.nodes % 2 ^ 32;
      edge_count = length plan.edges % 2 ^ 32;
      optimizations = optimizations;
      subgraph_dependencies = subgraph_dependencies plan.nodes;
      tool_deps = tool_deps schema_hashes plan.nodes;
    };
  }

  -- the nodes with a target that is a text
  unfoldable pub calls : List (Node F) → ℕ
  calls [] = 0
  calls (n ∷ ns) = (if is_some (call_target n) then 1 else 0) + calls ns

  -- In the metadata that codegen fills in, the subgraph dependencies and the tool dependencies are
  -- together as many as the CALL nodes whose target is a text, also when a target occurs twice.
  pub fill_metadata-calls :
      (now : String) (optimizations : List String) (schema_hashes : NameMap String)
      (plan : ExecutionPlan F)
      → length (fill_metadata now optimizations schema_hashes plan).metadata.subgraph_dependencies
          + length (fill_metadata now optimizations schema_hashes plan).metadata.tool_deps
        ≡ calls plan.nodes
  unfolding fill_metadata subgraph_dependencies tool_deps calls
  fill_metadata-calls now optimizations schema_hashes plan = go plan.nodes
    where
      go :
          (ns : List (Node F))
          → length (subgraph_dependencies ns) + length (tool_deps schema_hashes ns) ≡ calls ns
      go [] = omega arith
      go (n ∷ ns) = omega (
        arith,
        go ns,
        add_one_or_other schema_hashes (is_pure n.op) (call_target n) (subgraph_dependencies ns)
            (tool_deps schema_hashes ns),
      )
