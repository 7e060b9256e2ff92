-- ===== src/Tests/Validation.antt =====
-- Plans that the validator accepts and rejects.
use tinypipe.Prelude.{ℕ, String, true, ◌≡◌, ◌↔◌, ◌⊎◌, refl, some, List, [], ◌∷◌, arith, has}
use tinypipe.Ir.Plan.{input, decide, act}
use tinypipe.Ir.ExecutionPlan.{ExecutionPlan, Node, default_metadata, ids}
use tinypipe.Ir.ExecutionPlan.Order.{sorted, cycle, topological_order}
use tinypipe.Ir.ExecutionPlan.Order.Sorting.{IsSorted}
use tinypipe.Ir.ExecutionPlan.Order.Sorted.{IsAcyclic}
use tinypipe.Ir.ExecutionPlan.Order.Decides.{topological_order-decides}
use tinypipe.Ir.Compile.{from_execution_plan}
use tinypipe.Vm.Error.{ok}
use tinypipe.Vm.Graph
use tinypipe.Compiler.Validate.Errors.{accepted, rejected}
use tinypipe.Compiler.Validate.Search.{all_edges, can_reach_any}
use tinypipe.Compiler.Validate.Search.Laws.{From, can_reach_any_iff}
use tinypipe.Compiler.Validate.Pass.{validate}
use tinypipe.Compiler.Validate.Pass.Spec.{IsValid}
use tinypipe.Compiler.Validate.Pass.Accepts.{validate_iff}
use tinypipe.Compiler.Validate.Ordered.{validate-topological_order}
use tinypipe.Compiler.Validate.Flat.{verify_cfg_flattening}
use tinypipe.Tests.Plans.{node, edge, arg, source, order, order_of_source, json}

source_accepted : validate source ≡ accepted
unfolding validate default_metadata
source_accepted = refl

validate_iff_example : (validate source ≡ accepted) ↔ IsValid source
validate_iff_example = validate_iff source (omega arith)

-- a DECIDE without a false edge and without a condition
abbrev one_armed : ExecutionPlan ℕ
one_armed = record {
  version = 3;
  nodes =
      node "a" input (arg "name" "x" ∷ [])
      ∷ node "b" decide []
      ∷ node "c" act (arg "type" "return" ∷ [])
      ∷ [];
  edges = edge "a" "b" ∷ record (edge "b" "c") { condition = some "true" } ∷ [];
  metadata = default_metadata 3 2;
}

one_armed_rejected :
    validate one_armed
    ≡ rejected (
        record { node_id = "b"; message = "Decide node missing required argument `condition`" }
        ∷ record {
          node_id = "b";
          message = "branch node must have exactly 2 outgoing edges, got 1";
        }
        ∷ record { node_id = "b"; message = "branch node missing `false` condition edge" }
        ∷ [])
unfolding validate default_metadata
one_armed_rejected = refl

can_reach_any_iff_example :
    (can_reach_any source.edges "a" ("d" ∷ []) ≡ true)
    ↔ ((g : String) × (has ("d" ∷ []) g ≡ true) × From all_edges source.edges ("a" ∷ []) g)
can_reach_any_iff_example = can_reach_any_iff source.edges "a" ("d" ∷ [])

topological_order-decides_example :
    ((o : List (Node ℕ)) × (topological_order source ≡ sorted o)
      × IsSorted source.edges [] (ids o)
      × IsAcyclic (ids source.nodes) source.edges)
    ⊎ ((topological_order source ≡ cycle) × (IsAcyclic (ids source.nodes) source.edges → ⊥))
topological_order-decides_example =
    topological_order-decides source (refl, (refl, (refl, (refl, tt)))) (omega arith)

validate-topological_order_example :
    (indices : List ℕ) × (Graph.topological_order (from_execution_plan json source []) ≡ ok indices)
validate-topological_order_example =
    validate-topological_order json source [] order (omega arith) (omega arith) source_accepted
      order_of_source

-- A branch with two edges is flat, also when neither has a condition.
abbrev unconditional : ExecutionPlan ℕ
unconditional = record source {
  nodes = node "d" decide [] ∷ node "a" act [] ∷ node "b" act [] ∷ [];
  edges = edge "d" "a" ∷ edge "d" "b" ∷ [];
}

unconditional_accepted : verify_cfg_flattening unconditional ≡ accepted
unfolding verify_cfg_flattening
unconditional_accepted = refl
