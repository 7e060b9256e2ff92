-- ===== src/Compiler/Validate/Pass/Spec.antt =====
-- The plans that tinypipe-compiler/src/validator.rs means to accept.
use mathlib.Core.List.{Memᴰ}
use tinypipe.Prelude.{
  String, true, false, List, [], ◌∷◌, some, ◌≡◌, ◌≤◌, ◌<◌, ℕ, ◌⊎◌, has, any, length,
}
use tinypipe.Ir.ExecutionPlan.{ExecutionPlan, Node, Edge, ids, edges_from}
use tinypipe.Ir.ExecutionPlan.Order.Count.{IsDistinct}
use tinypipe.Vm.Text.{trim_start_matches}
use tinypipe.Compiler.Text.{contains_text}
use tinypipe.Compiler.Codegen.{is_subgraph, call_target, subgraph_dependencies}
use tinypipe.Compiler.Optimize.Dead.Laws.{IsClosed}
use tinypipe.Compiler.Validate.Search.{all_edges, data_edges}
use tinypipe.Compiler.Validate.Search.Laws.{From}
use tinypipe.Compiler.Validate.Args.{HasArgs}
use tinypipe.Compiler.Validate.Branches.{Leads}
use tinypipe.Compiler.Validate.Pass.{zero_indegree, terminal_ids, loop_ids, body_starts}

module _ {F : Type 0} where
  -- where a path may stop: at an ACT or an ERROR, at a LOOP, or in the body of one
  pub data Stops (plan : ExecutionPlan F) (a : String) : Type 0 where
    at_terminal : has (terminal_ids plan) a ≡ true → Stops plan a
    at_loop : has (loop_ids plan) a ≡ true → Stops plan a
    in_body : From data_edges plan.edges (body_starts plan.edges (loop_ids plan)) a → Stops plan a

  -- Nothing leaves the node, or a path from it leads where it may stop.
  abbrev pub Ends : ExecutionPlan F → Node F → Type 0
  Ends plan n =
      (edges_from plan.edges n.id ≡ [])
      ⊎ ((a : String) × Stops plan a × From all_edges plan.edges (n.id ∷ []) a)

  -- No dependency of the plan contains the name of the subgraph that the node calls.
  abbrev pub IsNotSelf : List String → Node F → Type 0
  IsNotSelf deps n =
      (s : String)
      → call_target n ≡ some s
      → is_subgraph s ≡ true
      → any (contains_text (trim_start_matches "subgraph:" s)) deps ≡ false

  -- For some rank, each edge leads to a higher rank, except those back into a LOOP.
  abbrev pub IsRanked : ExecutionPlan F → Type 0
  IsRanked plan =
      (rank : String → ℕ) × ((e : Edge)
        → Memᴰ e plan.edges
        → has (loop_ids plan) e.to ≡ false
        → rank e.from < rank e.to)

  pub record IsValid (plan : ExecutionPlan F) : Type 0 where
    pub distinct : IsDistinct (ids plan.nodes)
    pub closed : IsClosed plan
    pub acyclic : IsRanked plan
    pub reached :
        (n : Node F) → Memᴰ n plan.nodes → From all_edges plan.edges (zero_indegree plan) n.id
    pub terminal : (a : String) × (has (terminal_ids plan) a ≡ true)
    pub ends : (n : Node F) → Memᴰ n plan.nodes → Ends plan n
    pub args : (n : Node F) → Memᴰ n plan.nodes → HasArgs n
    pub leads : (n : Node F) → Memᴰ n plan.nodes → Leads n.op (edges_from plan.edges n.id)
    pub not_self :
        (n : Node F) → Memᴰ n plan.nodes → IsNotSelf plan.metadata.subgraph_dependencies n
    pub depth : length (subgraph_dependencies plan.nodes) ≤ plan.metadata.max_recursion_depth
