-- ===== src/Compiler/Validate/Flat.antt =====
-- `verify_cfg_flattening` of tinypipe-compiler/src/validator.rs.
use Prim.Native.String.{◌++◌ as ◌<>◌}
use tinypipe.Prelude.{ℕ, String, not, List, ◌==◌, ltb, leb, length}
use tinypipe.Ir.Plan.{Opcode, decide, switch, parallel, loop}
use tinypipe.Ir.ExecutionPlan.{ExecutionPlan, Node, Edge, edges_from}
use tinypipe.Vm.Text.{decimal}
use tinypipe.Compiler.Validate.Errors.{ValidationError, error_at, unless, each, Verdict, verdict}

-- the errors for a node with this many outgoing edges
unfoldable pub flat_errors : Opcode → String → ℕ → List ValidationError
unfolding unless decimal
flat_errors decide id k =
    unless (k == 2)
      (error_at id ("CFG: DECIDE/SWITCH must have 2 outgoing edges, got " <> decimal k))
flat_errors switch id k =
    unless (k == 2)
      (error_at id ("CFG: DECIDE/SWITCH must have 2 outgoing edges, got " <> decimal k))
flat_errors loop id k =
    unless (not (k == 0)) (error_at id "CFG: LOOP must have at least 1 outgoing edge")
flat_errors parallel id k =
    unless (not (ltb k 2))
      (error_at id ("CFG: PARALLEL should have ≥2 outgoing edges, got " <> decimal k))
flat_errors _ id k =
    unless (leb k 1) (error_at id ("CFG: non-branch node has " <> decimal k <> " outgoing edges"))

module _ {F : Type 0} where
  unfoldable pub node_flat_errors : List Edge → Node F → List ValidationError
  unfolding flat_errors edges_from
  node_flat_errors edges n = flat_errors n.op n.id (length (edges_from edges n.id))

  unfoldable pub verify_cfg_flattening : ExecutionPlan F → Verdict
  unfolding verdict each node_flat_errors
  verify_cfg_flattening plan = verdict (each (node_flat_errors plan.edges) plan.nodes)
