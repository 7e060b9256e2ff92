-- ===== src/Compiler/Optimize/Dead.antt =====
-- `dead_node_elimination` of tinypipe-compiler/src/backend/optimize.rs.
pub mod Laws
use tinypipe.Prelude.{
  ℕ, zero, suc, String, Bool, true, false, not, ◌&&◌, ◌||◌, List, [], ◌∷◌, keep, has, ◌==◌, length,
  ◌-◌, if◌then◌else◌,
}
use tinypipe.Ir.Plan.{is_pure, is_input}
use tinypipe.Ir.ExecutionPlan.{ExecutionPlan, Node, Edge, ids}

-- the ids that an edge names
unfoldable pub referenced : List Edge → List String
referenced [] = []
referenced (e ∷ es) = e.from ∷ e.to ∷ referenced es

-- an edge between two of the ids
abbrev pub joins : List String → Edge → Bool
joins names e = has names e.from && has names e.to

module _ {F : Type 0} where
  unfoldable pub live : List String → Node F → Bool
  unfolding is_pure
  live names n = is_input n.op || not (is_pure n.op) || has names n.id

  unfoldable pub kept_nodes : ExecutionPlan F → List (Node F)
  unfolding referenced live
  kept_nodes plan = keep (live (referenced plan.edges)) plan.nodes

  unfoldable pub removed : ExecutionPlan F → ℕ
  unfolding kept_nodes
  removed plan = length plan.nodes - length (kept_nodes plan)

  -- The plan and the number of nodes removed.
  unfoldable pub dead_node_elimination : ExecutionPlan F → ExecutionPlan F × ℕ
  unfolding kept_nodes removed
  dead_node_elimination plan =
      let nodes = kept_nodes plan in
      if removed plan == 0 then (record plan { nodes = nodes }, 0) else (
        record plan { nodes = nodes; edges = keep (joins (ids nodes)) plan.edges },
        removed plan,
      )
