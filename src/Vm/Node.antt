-- ===== src/Vm/Node.antt =====
-- `run_node` of tinypipe-vm/src/compiled_executor.rs. Only a PARALLEL runs other nodes, those of its
-- branches, so the fuel is the depth of nested PARALLELs; `out_of_fuel` is the model's.
pub mod Fits
use tinypipe.Prelude.{ℕ, zero, suc, Bool, not, Option, none, ◌||◌, if◌then◌else◌, contains}
use tinypipe.Ir.Plan.{
  Opcode, Node, input, call, calc, decide, switch, act, parallel, loop, wait, merge, error,
}
use tinypipe.Vm.Error.{Result, ok, err, ◌>>=◌, out_of_fuel}
use tinypipe.Vm.Pause.{PausePolicy}
use tinypipe.Vm.Machine.{Executor, State, Frame, NodeOutcome, node_ok}
use tinypipe.Vm.Gate.{branch_mismatch, control_pending, data_pred_missing}
use tinypipe.Vm.Budget.{admit}
use tinypipe.Vm.Call.{exec_call}
use tinypipe.Vm.Ops.{
  exec_input, exec_calc, exec_decide, exec_act, exec_switch, exec_wait, exec_merge, exec_error,
}
use tinypipe.Vm.Loop.{run_loop}
use tinypipe.Vm.Parallel.{exec_parallel}

module _ {F : Type 0} (x : Executor F) (frame : Frame) where
  -- The early returns of `run_node`: the node is left alone.
  unfoldable pub is_skipped : Node → State F → Bool
  unfolding branch_mismatch control_pending data_pred_missing
  is_skipped node st =
      contains st.loop_skipped node.index
      || not (contains st.enabled node.index)
      || branch_mismatch x.plan st.node_outputs node.op node.index
      || control_pending x.plan st.control_satisfied node.index
      || data_pred_missing x.plan st.node_outputs frame.loop_bodies node.index

  abbrev pub completes : Result (State F) → Result (NodeOutcome × State F)
  completes r = r >>= λ st. ok (node_ok, st)

  -- the `match` on the opcode; `run` runs the nodes of a branch
  unfoldable pub exec_op :
      Opcode
      → (Node → State F → Result (State F))
      → Option PausePolicy
      → Node
      → State F
      → Result (NodeOutcome × State F)
  unfolding exec_input exec_call exec_calc exec_decide exec_switch exec_act exec_parallel run_loop
      exec_wait exec_merge exec_error
  exec_op input run pause node st = completes (exec_input x node st)
  exec_op call run pause node st = completes (exec_call x node st)
  exec_op calc run pause node st = completes (exec_calc x node st)
  exec_op decide run pause node st = completes (exec_decide x node st)
  exec_op switch run pause node st = completes (exec_switch x node st)
  exec_op act run pause node st = completes (exec_act x node st)
  exec_op parallel run pause node st = completes (exec_parallel x run frame node st)
  exec_op loop run pause node st = run_loop x frame pause node 0 0 st
  exec_op wait run pause node st = completes (exec_wait x node st)
  exec_op merge run pause node st = completes (exec_merge x node st)
  exec_op error run pause node st = completes (exec_error x node st)

  unfoldable pub run_with :
      (Node → State F → Result (State F))
      → Option PausePolicy
      → Node
      → State F
      → Result (NodeOutcome × State F)
  unfolding is_skipped admit exec_op
  run_with run pause node st =
      if is_skipped node st
      then ok (node_ok, st)
      else (admit x node st >>= exec_op node.op run pause node)

  -- `run_node` of a branch thread, whose outcome is dropped
  unfoldable pub run_branch_node : ℕ → Node → State F → Result (State F)
  unfolding run_with
  run_branch_node zero node st = err out_of_fuel
  run_branch_node (suc fuel) node st = run_with (run_branch_node fuel) none node st >>= λ r. ok r.1

  -- `run_node` of the main pass
  unfoldable pub run_node : ℕ → Option PausePolicy → Node → State F → Result (NodeOutcome × State F)
  unfolding run_with run_branch_node
  run_node fuel = run_with (run_branch_node fuel)
