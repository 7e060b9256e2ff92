-- ===== src/Compiler/Validate/Pass.antt =====
-- `validate` of tinypipe-compiler/src/validator.rs. The numbers of the checks are those of its comments.
pub mod Spec
pub mod Stops
pub mod Checks
pub mod Accepts
use Prim.Native.String.{◌++◌ as ◌<>◌}
use mathlib.Core.List.{reverse}
use tinypipe.Prelude.{
  ℕ, ◌+◌, String, Bool, true, false, not, ◌&&◌, ◌||◌, Option, none, some, List, [], ◌∷◌, ◌++◌, has,
  any, keep, length, leb, ◌==◌, str_eq, is_some, if◌then◌else◌,
}
use tinypipe.Ir.Plan.{Opcode, act, error, is_loop, is_data}
use tinypipe.Ir.ExecutionPlan.{ExecutionPlan, Node, Edge, ids, edges_from}
use tinypipe.Ir.ExecutionPlan.Order.{
  SortResult, sorted, cycle, out_of_fuel, sort_loop, sort_start, check_order,
}
use tinypipe.Vm.Text.{decimal, trim_start_matches}
use tinypipe.Compiler.Text.{contains_text}
use tinypipe.Compiler.Codegen.{is_subgraph, call_target, subgraph_dependencies}
use tinypipe.Compiler.Validate.Errors.{
  ValidationError, error_at, unless, each, concat, Verdict, rejected, verdict,
}
use tinypipe.Compiler.Validate.Search.{
  all_edges, targets, walk_from, collect_reachable_from, can_reach_any,
}
use tinypipe.Compiler.Validate.Args.{validate_node_args, input_name_errors}
use tinypipe.Compiler.Validate.Branches.{edge_errors}

unfoldable pub is_terminal_opcode : Opcode → Bool
is_terminal_opcode act = true
is_terminal_opcode error = true
is_terminal_opcode _ = false

-- the edges that lead into a LOOP's body
abbrev pub is_body_edge : Edge → Bool
is_body_edge e = not (is_some e.condition) && is_data e.kind

abbrev pub is_empty_list {ℓ} : {A : Type ℓ} → List A → Bool
is_empty_list [] = true
is_empty_list (a ∷ xs) = false

-- check 2
unfoldable pub end_errors : List String → Edge → List ValidationError
unfolding unless
end_errors names e =
    unless (has names e.from)
      (error_at e.from ("edge references unknown source node `" <> e.from <> "`"))
    ++ unless (has names e.to)
        (error_at e.to ("edge references unknown target node `" <> e.to <> "`"))

-- the body nodes that the edges of the LOOPs lead to
unfoldable pub body_starts : List Edge → List String → List String
unfolding targets
body_starts edges [] = []
body_starts edges (id ∷ loops) = targets is_body_edge edges id ++ body_starts edges loops

-- `collect_reachable_from` from each of them into one set
unfoldable pub collect_bodies : List Edge → List String → List String → List String
unfolding collect_reachable_from
collect_bodies edges [] bodies = bodies
collect_bodies edges (id ∷ starts) bodies =
    collect_bodies edges starts (collect_reachable_from edges id bodies)

-- a CALL's target that is a subgraph the plan depends on
unfoldable pub self_cycle_errors : List String → String → Option String → List ValidationError
unfolding unless is_subgraph contains_text trim_start_matches
self_cycle_errors deps id none = []
self_cycle_errors deps id (some s) =
    if is_subgraph s
    then unless (not (any (contains_text (trim_start_matches "subgraph:" s)) deps)) (
        error_at id (
          "subgraph '"
          <> trim_start_matches "subgraph:" s
          <> "' may contain a self-cycle (found in subgraph_dependencies)"))
    else []

module _ {F : Type 0} where
  -- check 1; `seen` are the ids before these nodes
  unfoldable pub duplicate_errors : List String → List (Node F) → List ValidationError
  unfolding unless
  duplicate_errors seen [] = []
  duplicate_errors seen (n ∷ ns) =
      unless (not (has seen n.id)) (error_at n.id "duplicate node id")
      ++ duplicate_errors (n.id ∷ seen) ns

  -- `topological_order` of the validator, whose index keeps the last node of an id
  unfoldable pub sort_edges : ExecutionPlan F → List Edge → SortResult F
  unfolding sort_loop sort_start check_order
  sort_edges plan edges =
      let n = length plan.nodes in
      check_order n (
        sort_loop (n + length edges) (reverse plan.nodes) edges
          (sort_start (record plan { edges = edges })))

  unfoldable pub loop_ids : ExecutionPlan F → List String
  loop_ids plan = ids (keep (λ (n : Node F). is_loop n.op) plan.nodes)

  unfoldable pub acyclic_edges : ExecutionPlan F → List Edge
  unfolding loop_ids
  acyclic_edges plan = keep (λ (e : Edge). not (has (loop_ids plan) e.to)) plan.edges

  -- check 4
  unfoldable pub cycle_errors : ℕ → SortResult F → List ValidationError
  unfolding unless decimal
  cycle_errors n (sorted order) = unless (length order == n) (
      error_at "<plan>" (
        "topological order returned "
        <> decimal (length order)
        <> " nodes but plan has "
        <> decimal n))
  cycle_errors n cycle = error_at "<plan>" "cycle detected: Graph contains a cycle" ∷ []
  cycle_errors n out_of_fuel = error_at "<plan>" "out of fuel" ∷ []

  unfoldable pub zero_indegree : ExecutionPlan F → List String
  zero_indegree plan =
      ids (keep (λ (n : Node F). not (any (λ (e : Edge). str_eq e.to n.id) plan.edges)) plan.nodes)

  unfoldable pub reachable : ExecutionPlan F → List String
  unfolding walk_from zero_indegree
  reachable plan = walk_from all_edges plan.edges (zero_indegree plan) []

  -- check 5
  unfoldable pub reach_errors : List String → Node F → List ValidationError
  unfolding unless
  reach_errors found n =
      unless (has found n.id) (error_at n.id "node is not reachable from any INPUT node")

  unfoldable pub terminal_ids : ExecutionPlan F → List String
  unfolding is_terminal_opcode
  terminal_ids plan = ids (keep (λ (n : Node F). is_terminal_opcode n.op) plan.nodes)

  unfoldable pub loop_body_ids : ExecutionPlan F → List String
  unfolding collect_bodies body_starts loop_ids
  loop_body_ids plan = collect_bodies plan.edges (body_starts plan.edges (loop_ids plan)) []

  unfoldable pub extended_terminals : ExecutionPlan F → List String
  unfolding terminal_ids loop_ids loop_body_ids
  extended_terminals plan = terminal_ids plan ++ (loop_ids plan ++ loop_body_ids plan)

  -- check 6
  unfoldable pub terminal_errors : ExecutionPlan F → Node F → List ValidationError
  unfolding unless terminal_ids loop_body_ids extended_terminals can_reach_any edges_from
  terminal_errors plan n =
      unless
        (has (terminal_ids plan) n.id
          || has (loop_body_ids plan) n.id
          || is_empty_list (edges_from plan.edges n.id)
          || can_reach_any plan.edges n.id (extended_terminals plan))
        (error_at n.id "node cannot reach any terminal node (ACT or ERROR)")

  -- check 8
  unfoldable pub node_edge_errors : List Edge → Node F → List ValidationError
  unfolding edge_errors edges_from
  node_edge_errors edges n = edge_errors n.op n.id (edges_from edges n.id)

  -- check 11, for one node and for their number
  unfoldable pub subgraph_errors : List String → Node F → List ValidationError
  unfolding self_cycle_errors call_target
  subgraph_errors deps n = self_cycle_errors deps n.id (call_target n)

  unfoldable pub depth_errors : ExecutionPlan F → List ValidationError
  unfolding unless subgraph_dependencies decimal
  depth_errors plan =
      let depth = length (subgraph_dependencies plan.nodes) in
      unless (leb depth plan.metadata.max_recursion_depth) (
        error_at "<plan>" (
          "subgraph nesting depth ("
          <> decimal depth
          <> ") exceeds max_recursion_depth ("
          <> decimal plan.metadata.max_recursion_depth
          <> ")"))

  -- the checks 1 and 2, after which `validate` returns early
  unfoldable pub index_errors : ExecutionPlan F → List ValidationError
  unfolding duplicate_errors each end_errors
  index_errors plan =
      duplicate_errors [] plan.nodes ++ each (end_errors (ids plan.nodes)) plan.edges

  unfoldable pub later_checks : ExecutionPlan F → List (List ValidationError)
  unfolding unless each cycle_errors sort_edges acyclic_edges reach_errors reachable terminal_ids
      terminal_errors validate_node_args node_edge_errors input_name_errors subgraph_errors
      depth_errors
  later_checks plan =
      unless (not (is_empty_list plan.nodes)) (error_at "<plan>" "execution plan has zero nodes")
      ∷ cycle_errors (length plan.nodes) (sort_edges plan (acyclic_edges plan))
      ∷ each (reach_errors (reachable plan)) plan.nodes
      ∷ unless (not (is_empty_list (terminal_ids plan)))
          (error_at "<plan>" "plan has no terminal nodes (ACT or ERROR)")
      ∷ each (terminal_errors plan) plan.nodes
      ∷ each validate_node_args plan.nodes
      ∷ each (node_edge_errors plan.edges) plan.nodes
      ∷ each input_name_errors plan.nodes
      ∷ each (subgraph_errors plan.metadata.subgraph_dependencies) plan.nodes
      ∷ depth_errors plan
      ∷ []

  unfoldable pub after_index : List ValidationError → ExecutionPlan F → Verdict
  unfolding concat verdict later_checks
  after_index [] plan = verdict (concat (later_checks plan))
  after_index (e ∷ es) plan = rejected (e ∷ es)

  unfoldable pub validate : ExecutionPlan F → Verdict
  unfolding after_index index_errors
  validate plan = after_index (index_errors plan) plan
