-- ===== src/Vm/Node/Fits.antt =====
-- `run_node` keeps the number of the control counters, and the node count within the budget where no
-- PARALLEL runs.
use tinypipe.Prelude.{ℕ, ◌≡◌, refl, Option}
use tinypipe.Ir.Plan.{
  Node, Opcode, input, call, calc, decide, switch, act, parallel, loop, wait, merge, error,
}
use tinypipe.Vm.Error.{Result, ok, Ensures, returns, raises, Ensures-bind, Ensures-if}
use tinypipe.Vm.Pause.{PausePolicy}
use tinypipe.Vm.Machine.{Executor, State, Frame, NodeOutcome}
use tinypipe.Vm.Fits.{Fits}
use tinypipe.Vm.Budget.{node_budget, check_memory, enter_node, admit}
use tinypipe.Vm.Loop.Fits.{charge-Fits, run_loop-Fits}
use tinypipe.Vm.Call.Fits.{exec_call-Fits}
use tinypipe.Vm.Ops.Fits.{
  exec_input-Fits, exec_calc-Fits, exec_decide-Fits, exec_act-Fits, exec_switch-Fits,
  exec_wait-Fits, exec_merge-Fits, exec_error-Fits,
}
use tinypipe.Vm.Parallel.Fits.{exec_parallel-Fits}
use tinypipe.Vm.Node.{is_skipped, completes, exec_op, run_with, run_node, run_branch_node}

module _ {F : Type 0} (x : Executor F) (frame : Frame) (n : ℕ) (Serial : Type 0) where
  abbrev Fit : State F → Type 0
  Fit = Fits n (node_budget x) Serial

  abbrev OutcomeFits : NodeOutcome × State F → Type 0
  OutcomeFits r = Fit r.1

  completes-Fits :
      (r : Result (State F)) → Ensures Fit r → Ensures OutcomeFits (completes x frame r)
  completes-Fits _ (returns h) = returns h
  completes-Fits _ raises = raises

  exec_op-Fits :
      (op : Opcode) (run : Node → State F → Result (State F)) (pause : Option PausePolicy)
      (node : Node) (st : State F)
      → (Serial → op ≡ parallel → ⊥)
      → Fit st
      → Ensures OutcomeFits (exec_op x frame op run pause node st)
  unfolding exec_op
  exec_op-Fits input run pause node st s h =
      completes-Fits _ (exec_input-Fits x n (node_budget x) Serial node st h)
  exec_op-Fits call run pause node st s h =
      completes-Fits _ (exec_call-Fits x n (node_budget x) Serial node st h)
  exec_op-Fits calc run pause node st s h =
      completes-Fits _ (exec_calc-Fits x n (node_budget x) Serial node st h)
  exec_op-Fits decide run pause node st s h =
      completes-Fits _ (exec_decide-Fits x n (node_budget x) Serial node st h)
  exec_op-Fits switch run pause node st s h =
      completes-Fits _ (exec_switch-Fits x n (node_budget x) Serial node st h)
  exec_op-Fits act run pause node st s h =
      completes-Fits _ (exec_act-Fits x n (node_budget x) Serial node st h)
  exec_op-Fits parallel run pause node st s h =
      completes-Fits _ (
        exec_parallel-Fits x n (node_budget x) Serial (λ serial. s serial refl) run frame node st h)
  exec_op-Fits loop run pause node st s h = run_loop-Fits x n Serial frame pause node 0 0 st h
  exec_op-Fits wait run pause node st s h =
      completes-Fits _ (exec_wait-Fits x n (node_budget x) Serial node st h)
  exec_op-Fits merge run pause node st s h =
      completes-Fits _ (exec_merge-Fits x n (node_budget x) Serial node st h)
  exec_op-Fits error run pause node st s h =
      completes-Fits _ (exec_error-Fits x n (node_budget x) Serial node st)

  check_memory-Fits : (st : State F) → Fit st → Ensures Fit (check_memory x st)
  unfolding check_memory
  check_memory-Fits st h = Ensures-if _ raises (returns h)

  enter_node-Fits : (node : Node) (st : State F) → Fit st → Fit (enter_node x node st)
  unfolding enter_node
  enter_node-Fits node st h = record { counters = h.counters; counted = h.counted }

  admit-Fits : (node : Node) (st : State F) → Fit st → Ensures Fit (admit x node st)
  unfolding admit
  admit-Fits node st h = Ensures-bind (charge-Fits x n Serial node st h) λ st₁ h₁.
      Ensures-bind {f = λ st₂. ok (enter_node x node st₂)} (check_memory-Fits st₁ h₁)
        (λ st₂ h₂. returns (enter_node-Fits node st₂ h₂))

  pub run_node-Fits :
      (fuel : ℕ) (pause : Option PausePolicy) (node : Node) (st : State F)
      → (Serial → node.op ≡ parallel → ⊥)
      → Fit st
      → Ensures OutcomeFits (run_node x frame fuel pause node st)
  unfolding run_node run_with
  run_node-Fits fuel pause node st s h = Ensures-if (is_skipped x frame node st) (returns h) (
      Ensures-bind (admit-Fits node st h)
        (λ st₁ h₁. exec_op-Fits node.op (run_branch_node x frame fuel) pause node st₁ s h₁))
