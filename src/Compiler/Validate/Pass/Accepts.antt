-- ===== src/Compiler/Validate/Pass/Accepts.antt =====
-- What `validate` of tinypipe-compiler/src/validator.rs accepts.
use tinypipe.Prelude.{String, List, [], ◌∷◌, ◌≡◌, ◌↔◌, refl, ◌^◌, ◌<◌, length, All}
use tinypipe.Ir.ExecutionPlan.{ExecutionPlan, ids}
use tinypipe.Ir.ExecutionPlan.Order.Count.{IsDistinct}
use tinypipe.Compiler.Optimize.Dead.Laws.{IsClosed}
use tinypipe.Compiler.Validate.Errors.{
  rejected-ne_accepted, no_errors, ValidationError, accepted, unless_iff, each_iff, concat_iff,
  verdict_iff,
}
use tinypipe.Compiler.Validate.Args.{
  input_name_errors, validate_node_args, validate_node_args_iff, input_name_errors-HasArgs,
}
use tinypipe.Compiler.Validate.Pass.{
  reachable, reach_errors, terminal_ids, terminal_errors, node_edge_errors, subgraph_errors,
  index_errors, later_checks, after_index, validate,
}
use tinypipe.Compiler.Validate.Pass.Spec.{IsValid}
use tinypipe.Compiler.Validate.Pass.Stops.{reach_errors_iff, terminal_errors_iff}
use tinypipe.Compiler.Validate.Pass.Checks.{
  is_some_id_iff, index_errors_iff, acyclic_iff, node_edge_errors_iff, subgraph_errors_iff,
  depth_errors_iff, some_node,
}

module _ {F : Type 0} where
  later_checks_iff :
      (plan : ExecutionPlan F)
      → IsDistinct (ids plan.nodes)
      → IsClosed plan
      → length plan.edges < 2 ^ 63
      → All (λ es. es ≡ []) (later_checks plan) ↔ IsValid plan
  unfolding later_checks
  later_checks_iff plan distinct closed bound = (
    λ (
      _,
      (cycles, (found, (some_terminal, (stops, (args, (branches, (_, (selves, (deep, _))))))))),
    ).
        record {
          distinct = distinct;
          closed = closed;
          acyclic = (acyclic_iff plan distinct closed bound).0 cycles;
          reached =
              (each_iff (reach_errors (reachable plan)) plan.nodes (reach_errors_iff plan)).0 found;
          terminal = (is_some_id_iff (terminal_ids plan)).0 ((unless_iff _ _).0 some_terminal);
          ends = (each_iff (terminal_errors plan) plan.nodes (terminal_errors_iff plan)).0 stops;
          args = (each_iff validate_node_args plan.nodes validate_node_args_iff).0 args;
          leads =
              (each_iff (node_edge_errors plan.edges) plan.nodes
                  (node_edge_errors_iff plan.edges)).0
                branches;
          not_self =
              (each_iff (subgraph_errors deps) plan.nodes (subgraph_errors_iff deps)).0 selves;
          depth = (depth_errors_iff plan).0 deep;
        },
    λ v. (
      (unless_iff _ _).1 (some_node plan v.terminal.0 v.terminal.1),
      (
        (acyclic_iff plan distinct closed bound).1 v.acyclic,
        (
          (each_iff (reach_errors (reachable plan)) plan.nodes (reach_errors_iff plan)).1 v.reached,
          (
            (unless_iff _ _).1 ((is_some_id_iff (terminal_ids plan)).1 v.terminal),
            (
              (each_iff (terminal_errors plan) plan.nodes (terminal_errors_iff plan)).1 v.ends,
              (
                (each_iff validate_node_args plan.nodes validate_node_args_iff).1 v.args,
                (
                  (each_iff (node_edge_errors plan.edges) plan.nodes
                        (node_edge_errors_iff plan.edges)).1
                      v.leads,
                  (
                    no_errors input_name_errors plan.nodes input_name_errors-HasArgs v.args,
                    (
                      (each_iff (subgraph_errors deps) plan.nodes (subgraph_errors_iff deps)).1
                          v.not_self,
                      ((depth_errors_iff plan).1 v.depth, tt),
                    ),
                  ),
                ),
              ),
            ),
          ),
        ),
      ),
    ),
  )
    where
      deps : List String
      deps = plan.metadata.subgraph_dependencies

  after_index_iff :
      (plan : ExecutionPlan F) (es : List ValidationError)
      → (after_index es plan ≡ accepted) ↔ ((es ≡ []) × All (λ fs. fs ≡ []) (later_checks plan))
  unfolding after_index
  after_index_iff plan [] = (
    λ h. (refl, (concat_iff (later_checks plan)).0 ((verdict_iff _).0 h)),
    λ k. (verdict_iff _).1 ((concat_iff (later_checks plan)).1 k.1),
  )
  after_index_iff plan (e ∷ es) = (λ h. absurd (rejected-ne_accepted _ h), λ k. cc)

  -- In a plan with fewer than 2 ^ 63 edges, validate finds no error if and only if the ids are distinct,
  -- each edge leads between nodes of the plan, some rank rises along each edge except those back into a
  -- LOOP, each node can be reached from a node without incoming edges, there is an ACT or an ERROR, from
  -- each node with outgoing edges a path leads to an ACT, an ERROR, a LOOP or a LOOP's body, each node has
  -- the arguments that its opcode requires and edges under the conditions that its opcode allows, no
  -- dependency contains the name of a subgraph that is called, and the calls of subgraphs are at most as
  -- many as the recursion depth.
  pub validate_iff :
      (plan : ExecutionPlan F)
      → length plan.edges < 2 ^ 63
      → (validate plan ≡ accepted) ↔ IsValid plan
  unfolding validate
  validate_iff plan bound = (
    λ h.
        let r = (after_index_iff plan (index_errors plan)).0 h in
        let k = (index_errors_iff plan).0 r.0 in (later_checks_iff plan k.0 k.1 bound).0 r.1,
    λ v. (after_index_iff plan (index_errors plan)).1 (
      (index_errors_iff plan).1 (v.distinct, v.closed),
      (later_checks_iff plan v.distinct v.closed bound).1 v,
    ),
  )
